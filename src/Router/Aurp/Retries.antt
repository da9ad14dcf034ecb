-- ===== src/Router/Aurp/Retries.antt =====
-- src/router/aurp.rs: a packet that is never acknowledged.
use appletalk.Prelude.{
  ℕ, zero, suc, ◌+◌, ◌-◌, ◌≤◌, ◌≡◌, refl, ◌∙◌, inl, inr, true, false, some, List, [], ◌∷◌, ◌++◌,
  leb, length, arith, Bool-cases, List-cases, sym,
}
use mathlib.Core.List.{append_assoc, append-nil}
use appletalk.Router.States.{no_ack}
use appletalk.Router.Actions.{Action, to_peer}
use appletalk.Router.Aurp.{Peer, Turn, Outstanding, close_sender, retry, retries}
use appletalk.Router.Aurp.Sending.{sender_timers, repeat_outstanding, set_reason}

-- The timer at each of the times, with nothing from the peer in between.
unfoldable pub unanswered : List ℕ → Turn → Turn
unanswered [] t = t
unanswered (now ∷ times) t = unanswered times (sender_timers now t)

-- Each time is a retry interval after the one before.
abbrev pub Spaced : ℕ → List ℕ → Type 0
Spaced at [] = Unit
Spaced at (now ∷ times) = (at + retry ≤ now) × Spaced now times

-- The same packet, as often as it is sent again.
abbrev pub repeats : ℕ → Action → List Action
repeats zero a = []
repeats (suc n) a = a ∷ repeats n a

timer_repeats :
    (now : ℕ) (t : Turn) (o : Outstanding)
    → t.peer.outstanding ≡ some o
    → o.at + retry ≤ now
    → o.tries + 1 ≤ retries
    → sender_timers now t ≡ record t {
      peer = record t.peer { outstanding = some (record o { tries = o.tries + 1; at = now }) };
      acts = t.acts ++ to_peer t.peer.addr o.bytes ∷ [];
    }
unfolding sender_timers appletalk.Router.Aurp.bytes
timer_repeats now t o e l b =
    let r : leb retry (now - o.at) ≡ true = ground arith in
    let n : leb retries o.tries ≡ false = ground arith in
    simp (e, r, n, sender_timers, repeat_outstanding) refl

timer_closes :
    (now : ℕ) (t : Turn) (o : Outstanding)
    → t.peer.outstanding ≡ some o
    → o.at + retry ≤ now
    → retries ≤ o.tries
    → sender_timers now t ≡ set_reason no_ack (record t { peer = close_sender t.peer })
unfolding sender_timers appletalk.Router.Aurp.bytes
timer_closes now t o e l b =
    let r : leb retry (now - o.at) ≡ true = ground arith in
    let n : leb retries o.tries ≡ true = ground arith in
    simp (e, r, n, sender_timers, repeat_outstanding) refl

-- A packet outstanding with at most five tries, for which the timer runs are at least ten seconds
-- apart from its sending on and as many as the tries left and one more, is sent again byte for byte
-- once for each try left, and then the sender's connection is closed; nothing else is sent.
pub unanswered_closes :
    (times : List ℕ) (o : Outstanding) (t : Turn)
    → t.peer.outstanding ≡ some o
    → Spaced o.at times
    → o.tries ≤ retries
    → o.tries + length times ≡ retries + 1
    → ((unanswered times t).peer ≡ close_sender t.peer)
      × ((unanswered times t).acts
          ≡ t.acts ++ repeats (retries - o.tries) (to_peer t.peer.addr o.bytes))
unfolding unanswered close_sender
unanswered_closes [] o t e s b n = absurd (omega arith)
unanswered_closes (now ∷ times) o t e (l, s) b n = elim (Bool-cases (leb retries o.tries)) [
  | inl f ↦
      let h : length times ≡ 0 = ground arith in
      elim (List-cases times) [
        | inr (x, xs, y) ↦ let z : length (x ∷ xs) ≡ 0 = rw y at h in absurd (omega arith)
        | inl y ↦
            let c = timer_closes now t o e l (ground arith) in
            let z : retries - o.tries ≡ 0 = ground arith in
            rw (y, c, z) (refl, sym (append-nil t.acts))
      ]
  | inr f ↦
      let o' : Outstanding = record o { tries = o.tries + 1; at = now } in
      let r = timer_repeats now t o e l (ground arith) in
      let a = to_peer t.peer.addr o.bytes in
      let u = record t {
        peer = record t.peer { outstanding = some o' };
        acts = t.acts ++ a ∷ [];
      } in
      let (p, q) = unanswered_closes times o' u refl s (ground arith) (omega arith) in
      let z : retries - o.tries ≡ suc (retries - (o.tries + 1)) = ground arith in
      rw (unanswered, r, z)
        (p, q ∙ append_assoc t.acts (a ∷ []) (repeats (retries - (o.tries + 1)) a))
]
