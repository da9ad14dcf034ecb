-- ===== src/Router/Aurp/Invariant/Sending.antt =====
-- The sender's operations keep what holds of a peer (src/router/aurp.rs).
use appletalk.Prelude.{
  ℕ, ◌+◌, ◌-◌, ◌<◌, ◌≡◌, ◌≢◌, refl, ap, inl, inr, Bool, true, false, not, ◌&&◌, ◌||◌, none, some,
  List, [], ◌∷◌, ◌++◌, ◌==◌, leb, ltb, is_some, arith, Option-cases, &&_iff, Bool-cases, List-cases,
  if◌then◌else◌,
}
use mathlib.Core.Bool.{decide_iff}
use appletalk.Prelude.Integers.{ℤ}
use appletalk.Wire.Rtmp.{NetworkTuple}
use appletalk.Wire.Aurp.{Cmd}
use appletalk.Router.States.{Receiver, Sender, Sender-discrete}
use appletalk.Router.Aurp.{
  Peer, Turn, Outstanding, new_peer, succ, send, send_sequenced, open_connection, close_receiver,
  close_sender, receiver_open, is_receiver, is_sender, retries, max_body, retry, update_interval,
}
use appletalk.Router.Aurp.Pages.{split_tuples, split_loop, tuple_size, is_empty, zi_pages}
use appletalk.Router.Table.Listings.{export}
use appletalk.Router.Aurp.Sending.{
  send_open_rsp, probe_connection, accept_connection, on_open_req, on_ri_req, send_all, acked,
  on_ri_ack, repeat_outstanding, send_pending, sender_timers, send_rd,
}
use appletalk.Router.Aurp.Invariant.{
  IsPeer, Waits, Exports, Counts, send_sequenced-IsPeer, send_page-IsPeer, idle_pages, idle-IsPeer,
}

accept_connection-IsPeer :
    (conn now : ℕ) (t : Turn) → IsPeer t.peer → IsPeer (accept_connection conn now t).peer
unfolding accept_connection send_open_rsp open_connection send
accept_connection-IsPeer conn now t v =
    elim (Bool-cases (is_receiver Receiver.unconnected t.peer)) [
      | inl e ↦ rw e (idle-IsPeer _ refl refl refl refl (omega arith) (omega arith))
      | inr e ↦ rw e (idle-IsPeer _ refl refl refl refl (omega arith) v.recv_number)
    ]

probe_connection-IsPeer :
    (now : ℕ) (t : Turn) → IsPeer t.peer → IsPeer (probe_connection now t).peer
unfolding probe_connection
probe_connection-IsPeer now t v =
    elim (Bool-cases (not t.peer.probing && not (is_some t.peer.outstanding))) [
      | inl e ↦
          let none_out : is_some t.peer.outstanding ≡ false = ground arith in
          let pages =
            idle_pages t.peer.sender t.peer.outstanding t.peer.pages v.waits v.exports none_out in
          rw e (
            send_sequenced-IsPeer Sender.wait_ri_upd_ack _ [] now
              (record t { peer = record t.peer { probing = true } }) pages (λ o k. k) v.recv_number)
      | inr e ↦ rw e v
    ]

send_open_rsp-IsPeer :
    (conn : ℕ) (r : ℤ) (t : Turn) → IsPeer t.peer → IsPeer (send_open_rsp conn r t).peer
unfolding send_open_rsp send
send_open_rsp-IsPeer conn r t v = v

pub on_open_req-IsPeer :
    (conn version : ℕ) (options : List (ℕ × List ℕ)) (now : ℕ) (t : Turn)
    → IsPeer t.peer
    → IsPeer (on_open_req conn version options now t).peer
unfolding on_open_req send_open_rsp send
on_open_req-IsPeer conn version options now t v = elim (Bool-cases (version == 1)) [
  | inr e ↦ rw e v
  | inl e ↦ elim (Bool-cases (is_empty options)) [
    | inr f ↦ rw (e, f) v
    | inl f ↦
        elim (Bool-cases
          (not (is_sender Sender.unconnected t.peer) && not (conn == t.peer.conn_remote))) [
            | inl g ↦ rw (e, f, g) (probe_connection-IsPeer now t v)
            | inr g ↦ rw (e, f, g) (accept_connection-IsPeer conn now t v)
          ]
  ]
]

split_loop_nonempty :
    (ts : List NetworkTuple) (page : List NetworkTuple) (used : ℕ) → split_loop page used ts ≢ []
unfolding split_loop
split_loop_nonempty [] page used = λ e. cc
split_loop_nonempty (t ∷ ts) page used = elim (Bool-cases (ltb max_body (used + tuple_size t))) [
  | inl e ↦ rw (e, split_loop) (λ h. cc)
  | inr e ↦ rw (e, split_loop) (split_loop_nonempty ts (page ++ t ∷ []) (used + tuple_size t))
]

pub on_ri_req-IsPeer : (now : ℕ) (t : Turn) → IsPeer t.peer → IsPeer (on_ri_req now t).peer
unfolding on_ri_req split_tuples
on_ri_req-IsPeer now t v =
    send_page-IsPeer now
      (record t {
        peer = record t.peer {
          seq_send = 0;
          outstanding = none;
          pages = split_loop [] 0 (export t.tables);
        };
      })
      (split_loop_nonempty (export t.tables) [] 0) v.recv_number

pub send_all_peer : (conn : ℕ) (cmds : List Cmd) (t : Turn) → (send_all conn cmds t).peer ≡ t.peer
unfolding send_all send
send_all_peer conn [] t = refl
send_all_peer conn (c ∷ cs) t = send_all_peer conn cs (send conn 0 c t)

-- After the acknowledgement nothing is outstanding, and the state says what comes next.
acked-IsPeer :
    (s : Sender) (now : ℕ) (t : Turn)
    → t.peer.outstanding ≡ none
    → t.peer.sender ≡ s
    → s ≢ Sender.unconnected
    → s ≢ Sender.connected
    → Exports s t.peer.pages
    → t.peer.seq_send < 65536
    → (0 < t.peer.seq_recv) × (t.peer.seq_recv < 65536)
    → IsPeer (acked s now t).peer
unfolding acked close_sender
acked-IsPeer Sender.unconnected now t o e u c x n r = absurd (u refl)
acked-IsPeer Sender.connected now t o e u c x n r = absurd (c refl)
acked-IsPeer Sender.wait_ri_rsp_ack now t o e u c x n r = elim (List-cases t.peer.pages) [
  | inl g ↦
      simp (g, acked)
        (idle-IsPeer (record t.peer { sender = Sender.connected; pages = []; probing = false }) refl
          refl o refl n r)
  | inr (page, pages, g) ↦ simp (g, acked) (send_page-IsPeer now t (λ h. cc) r)
]
acked-IsPeer Sender.wait_ri_upd_ack now t o e u c x n r = idle-IsPeer _ refl refl o x n r
acked-IsPeer Sender.wait_rd_ack now t o e u c x n r =
    idle-IsPeer _ refl refl refl refl (omega arith) r

replied_peer :
    (szi : Bool) (conn : ℕ) (cmds : List Cmd) (t : Turn)
    → (if szi then send_all conn cmds t else t).peer ≡ t.peer
replied_peer true conn cmds t = send_all_peer conn cmds t
replied_peer false conn cmds t = refl

-- Whatever replies went out in between.
acked_turn :
    (now : ℕ) (t u : Turn) (o : Outstanding)
    → t.peer.outstanding ≡ some o
    → IsPeer t.peer
    → u.peer ≡ record t.peer { outstanding = none }
    → IsPeer (acked t.peer.sender now u).peer
acked_turn now t u o e v q =
    acked-IsPeer t.peer.sender now u (ap (λ p. p.outstanding) q) (ap (λ p. p.sender) q)
      (λ h. let w : some o ≡ none = rw (e, h) at v.waits in cc)
      (λ h. let w : some o ≡ none = rw (e, h) at v.waits in cc) (rw q v.exports)
      (rw q v.send_number) (rw q v.recv_number)

pub on_ri_ack-IsPeer :
    (seq : ℕ) (szi : Bool) (now : ℕ) (t : Turn)
    → IsPeer t.peer
    → IsPeer (on_ri_ack seq szi now t).peer
unfolding on_ri_ack
on_ri_ack-IsPeer seq szi now t v = elim (Option-cases t.peer.outstanding) [
  | inl e ↦ simp (e, on_ri_ack) v
  | inr (o, e) ↦ elim (Bool-cases (o.seq == seq)) [
    | inr f ↦ simp (e, f, on_ri_ack) v
    | inl f ↦
        simp (e, f, on_ri_ack)
          (acked_turn now t
            (let u = record t { peer = record t.peer { outstanding = none } } in
              if szi then send_all u.peer.conn_remote (zi_pages o.nets t.tables) u else u)
            o e v
            (replied_peer szi t.peer.conn_remote (zi_pages o.nets t.tables)
              (record t { peer = record t.peer { outstanding = none } })))
  ]
]

Waits-repeat : (s : Sender) (o o' : Outstanding) → Waits s (some o) → Waits s (some o')
Waits-repeat Sender.unconnected o o' w = cc
Waits-repeat Sender.connected o o' w = cc
Waits-repeat Sender.wait_ri_rsp_ack o o' w = refl
Waits-repeat Sender.wait_ri_upd_ack o o' w = refl
Waits-repeat Sender.wait_rd_ack o o' w = refl

repeat_outstanding-IsPeer :
    (o : Outstanding) (now : ℕ) (t : Turn)
    → t.peer.outstanding ≡ some o
    → IsPeer t.peer
    → IsPeer (repeat_outstanding o now t).peer
unfolding repeat_outstanding close_sender
repeat_outstanding-IsPeer o now t e v = elim (Bool-cases (leb retry (now - o.at))) [
  | inr f ↦ rw f v
  | inl f ↦ elim (Bool-cases (leb retries o.tries)) [
    | inl g ↦ rw (f, g) (idle-IsPeer _ refl refl refl refl (omega arith) v.recv_number)
    | inr g ↦
        let c : Counts (some o) t.peer.seq_send = rw e at v.counts in
        rw (f, g)
          (record {
            waits = Waits-repeat t.peer.sender o _ (rw e at v.waits);
            exports = v.exports;
            counts = (c.0, omega arith, ground arith);
            send_number = v.send_number;
            recv_number = v.recv_number;
          })
  ]
]

send_pending-IsPeer : (now : ℕ) (t : Turn) → IsPeer t.peer → IsPeer (send_pending now t).peer
unfolding send_pending
send_pending-IsPeer now t v =
    elim (Bool-cases (
      is_sender Sender.connected t.peer
      && (not (is_empty t.peer.pending) && leb update_interval (now - t.peer.last_update)))) [
        | inr e ↦ rw e v
        | inl e ↦
            let c : is_sender Sender.connected t.peer ≡ true =
              ((&&_iff (is_sender Sender.connected t.peer) _).0 e).0 in
            rw e (
              send_sequenced-IsPeer Sender.wait_ri_upd_ack _ _ now
                (record t { peer = record t.peer { pending = []; last_update = now } })
                (rw ((decide_iff (Sender-discrete t.peer.sender Sender.connected)).0 c) at
                  v.exports)
                (λ o k. k) v.recv_number)
      ]

pub send_rd-IsPeer : (now : ℕ) (t : Turn) → IsPeer t.peer → IsPeer (send_rd now t).peer
unfolding send_rd
send_rd-IsPeer now t v =
    elim (Bool-cases (is_sender Sender.unconnected t.peer || is_sender Sender.wait_rd_ack t.peer)) [
      | inl e ↦ rw e v
      | inr e ↦ rw e (
          send_sequenced-IsPeer Sender.wait_rd_ack _ [] now
            (record t { peer = record t.peer { outstanding = none; pages = [] } }) refl (λ o k. k)
            v.recv_number)
    ]

pub sender_timers-IsPeer : (now : ℕ) (t : Turn) → IsPeer t.peer → IsPeer (sender_timers now t).peer
unfolding sender_timers appletalk.Router.Aurp.bytes
sender_timers-IsPeer now t v = elim (Option-cases t.peer.outstanding) [
  | inl e ↦ simp (e, sender_timers) (send_pending-IsPeer now t v)
  | inr (o, e) ↦ simp (e, sender_timers) (repeat_outstanding-IsPeer o now t e v)
]
