-- ===== src/Router/Aurp/Invariant/Receiving.antt =====
-- The receiver's operations keep what holds of a peer (src/router/aurp.rs).
use appletalk.Prelude.{
  ℕ, ◌-◌, ◌≡◌, refl, ◌⊎◌, inl, inr, Bool, true, false, Option, List, [], ◌∷◌, leb, ltb, arith,
  Bool-cases,
}
use mathlib.Core.Bool.{decide_iff}
use appletalk.Prelude.Integers.{ℤ, pos, negsuc}
use appletalk.Wire.{Name}
use appletalk.Wire.Rtmp.{NetworkTuple}
use appletalk.Wire.Aurp.{Cmd, zi_req, EventTuple}
use appletalk.Router.{peer}
use appletalk.Router.Table.Updates.{remove_target}
use appletalk.Router.States.{tickles_unanswered, Receiver, Sender, Sender-discrete}
use appletalk.Router.Aurp.{
  Peer, Turn, Seq, fresh, dup, ahead, stale, check_seq, send, close_receiver, close_sender, succ,
  is_sender, retries, retry, tickle_retries, last_heard_limit,
}
use appletalk.Router.Aurp.Sending.{set_reason}
use appletalk.Router.Aurp.Receiving.{
  on_ri_rsp, on_ri_upd, on_rd, on_open_rsp, on_zi_rsp, on_tickle_ack, receiver_timers_at, ask_zones,
  ask_again, send_tickle, tickle_again, drop_peer, change,
}
use appletalk.Router.Aurp.Invariant.{
  IsPeer, send_sequenced-IsPeer, idle-IsPeer, other_side-IsPeer, succ_bounds,
}

-- The number that a receiver expects moves on, or starts again at 1.
moved-IsPeer :
    (p q : Peer)
    → IsPeer p
    → q.sender ≡ p.sender
    → q.outstanding ≡ p.outstanding
    → q.pages ≡ p.pages
    → q.seq_send ≡ p.seq_send
    → (q.seq_recv ≡ p.seq_recv) ⊎ ((n : ℕ) × (q.seq_recv ≡ succ n))
    → IsPeer q
moved-IsPeer p q v s o g n (inl e) = other_side-IsPeer p q v s o g n (rw e v.recv_number)
moved-IsPeer p q v s o g n (inr (m, e)) = other_side-IsPeer p q v s o g n (rw e (succ_bounds m))

closed-IsPeer : (p : Peer) → IsPeer p → IsPeer (close_receiver p)
unfolding close_receiver
closed-IsPeer p v = other_side-IsPeer p _ v refl refl refl refl (omega arith)

pub on_ri_rsp-IsPeer :
    (conn seq : ℕ) (last : Bool) (tuples : List NetworkTuple) (now : ℕ) (t : Turn)
    → IsPeer t.peer
    → IsPeer (on_ri_rsp conn seq last tuples now t).peer
unfolding on_ri_rsp send close_receiver
on_ri_rsp-IsPeer conn seq last tuples now t v = go (check_seq t.peer seq) refl last
  where
    go :
        (s : Seq)
        → check_seq t.peer seq ≡ s
        → (last : Bool) → IsPeer (on_ri_rsp conn seq last tuples now t).peer
    go fresh e true =
        rw (e, on_ri_rsp) (moved-IsPeer t.peer _ v refl refl refl refl (inr (seq, refl)))
    go fresh e false =
        rw (e, on_ri_rsp) (moved-IsPeer t.peer _ v refl refl refl refl (inr (seq, refl)))
    go dup e l = rw (e, on_ri_rsp) (moved-IsPeer t.peer _ v refl refl refl refl (inl refl))
    go ahead e l =
        rw (e, on_ri_rsp) (other_side-IsPeer t.peer _ v refl refl refl refl (omega arith))
    go stale e l = rw (e, on_ri_rsp) (moved-IsPeer t.peer _ v refl refl refl refl (inl refl))

pub on_ri_upd-IsPeer :
    (conn seq : ℕ) (events : List EventTuple) (now : ℕ) (t : Turn)
    → IsPeer t.peer
    → IsPeer (on_ri_upd conn seq events now t).peer
unfolding on_ri_upd send close_receiver
on_ri_upd-IsPeer conn seq events now t v = go (check_seq t.peer seq) refl
  where
    go : (s : Seq) → check_seq t.peer seq ≡ s → IsPeer (on_ri_upd conn seq events now t).peer
    go fresh e = rw (e, on_ri_upd) (moved-IsPeer t.peer _ v refl refl refl refl (inr (seq, refl)))
    go dup e = rw (e, on_ri_upd) (moved-IsPeer t.peer _ v refl refl refl refl (inl refl))
    go ahead e = rw (e, on_ri_upd) (other_side-IsPeer t.peer _ v refl refl refl refl (omega arith))
    go stale e = rw (e, on_ri_upd) (moved-IsPeer t.peer _ v refl refl refl refl (inl refl))

pub on_rd-IsPeer : (conn seq : ℕ) (code : ℤ) (t : Turn) → IsPeer (on_rd conn seq code t).peer
unfolding on_rd send close_receiver close_sender
on_rd-IsPeer conn seq code t = idle-IsPeer _ refl refl refl refl (omega arith) (omega arith)

pub on_open_rsp-IsPeer :
    (r : ℤ) (now : ℕ) (t : Turn) → IsPeer t.peer → IsPeer (on_open_rsp r now t).peer
unfolding on_open_rsp send close_receiver
on_open_rsp-IsPeer (negsuc n) now t v = closed-IsPeer t.peer v
on_open_rsp-IsPeer (pos rate) now t v =
    other_side-IsPeer t.peer _ v refl refl refl refl (omega arith)

pub on_zi_rsp-IsPeer :
    (extended : Option ℕ) (zones : List (ℕ × Name)) (now : ℕ) (t : Turn)
    → IsPeer t.peer
    → IsPeer (on_zi_rsp extended zones now t).peer
unfolding on_zi_rsp
on_zi_rsp-IsPeer extended zones now t v =
    other_side-IsPeer t.peer _ v refl refl refl refl v.recv_number

pub on_tickle_ack-IsPeer : (now : ℕ) (t : Turn) → IsPeer t.peer → IsPeer (on_tickle_ack now t).peer
unfolding on_tickle_ack
on_tickle_ack-IsPeer now t v = other_side-IsPeer t.peer _ v refl refl refl refl v.recv_number

drop_peer-IsPeer : (now : ℕ) (t : Turn) → IsPeer t.peer → IsPeer (drop_peer now t).peer
unfolding drop_peer close_receiver
drop_peer-IsPeer now t v = elim (Bool-cases (is_sender Sender.connected t.peer)) [
  | inr e ↦ rw e (closed-IsPeer t.peer v)
  | inl e ↦
      let t' = change (λ u. remove_target u (peer t.peer.addr)) t in
      rw e (
        send_sequenced-IsPeer Sender.wait_ri_upd_ack _ [] now
          (set_reason tickles_unanswered (record t' { peer = close_receiver t'.peer }))
          (rw ((decide_iff (Sender-discrete t.peer.sender Sender.connected)).0 e) at v.exports)
          (λ o k. k) (omega arith))
]

ask_again-IsPeer :
    (cmd : Cmd) (now : ℕ) (t : Turn) → IsPeer t.peer → IsPeer (ask_again cmd now t).peer
unfolding ask_again send close_receiver
ask_again-IsPeer cmd now t v = elim (Bool-cases (leb retries t.peer.recv_tries)) [
  | inl e ↦ rw e (closed-IsPeer t.peer v)
  | inr e ↦ rw e (other_side-IsPeer t.peer _ v refl refl refl refl v.recv_number)
]

tickle_again-IsPeer : (now : ℕ) (t : Turn) → IsPeer t.peer → IsPeer (tickle_again now t).peer
unfolding tickle_again send
tickle_again-IsPeer now t v = elim (Bool-cases (leb tickle_retries t.peer.recv_tries)) [
  | inl e ↦ rw e (drop_peer-IsPeer now t v)
  | inr e ↦ rw e (other_side-IsPeer t.peer _ v refl refl refl refl v.recv_number)
]

pub receiver_timers_at-IsPeer :
    (r : Receiver) (now : ℕ) (t : Turn) → IsPeer t.peer → IsPeer (receiver_timers_at r now t).peer
unfolding receiver_timers_at send_tickle send
receiver_timers_at-IsPeer Receiver.unconnected now t v = v
receiver_timers_at-IsPeer Receiver.wait_open_rsp now t v =
    elim (Bool-cases (leb retry (now - t.peer.recv_at))) [
      | inl e ↦ rw e (ask_again-IsPeer _ now t v)
      | inr e ↦ rw e v
    ]
receiver_timers_at-IsPeer Receiver.wait_ri_rsp now t v =
    elim (Bool-cases (leb retry (now - t.peer.recv_at))) [
      | inl e ↦ rw e (ask_again-IsPeer _ now t v)
      | inr e ↦ rw e v
    ]
receiver_timers_at-IsPeer Receiver.connected now t v =
    elim (Bool-cases (ltb last_heard_limit (now - t.peer.last_heard))) [
      | inl e ↦ rw e (other_side-IsPeer t.peer _ v refl refl refl refl v.recv_number)
      | inr e ↦ rw e v
    ]
receiver_timers_at-IsPeer Receiver.wait_tickle_ack now t v =
    elim (Bool-cases (leb retry (now - t.peer.recv_at))) [
      | inl e ↦ rw e (tickle_again-IsPeer now t v)
      | inr e ↦ rw e v
    ]

pub ask_zones_peer :
    (conn : ℕ) (cs : List (List ℕ)) (t : Turn) → (ask_zones conn cs t).peer ≡ t.peer
unfolding ask_zones send
ask_zones_peer conn [] t = refl
ask_zones_peer conn (c ∷ cs) t = ask_zones_peer conn cs (send conn 0 (zi_req c) t)
