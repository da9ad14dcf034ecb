-- ===== src/Router/Aurp/Invariant.antt =====
-- What holds of a peer between two packets or timers (src/router/aurp.rs).
pub mod Sending
pub mod Receiving
pub mod Dialog
pub mod Peers
use appletalk.Prelude.{
  ℕ, zero, suc, ◌+◌, ◌-◌, ◌%◌, ◌≤◌, ◌<◌, ◌≡◌, ◌≢◌, refl, ◌⊎◌, inl, inr, Bool, true, false, not,
  ◌&&◌, ◌||◌, decide, Option, none, some, List, [], ◌∷◌, ◌++◌, ◌==◌, leb, ltb, is_some, is_some_and,
  map, arith, Option-cases, List-cases, if◌then◌else◌,
}
use appletalk.Prelude.Integers.{ℤ, pos, negsuc}
use appletalk.Wire.Rtmp.{NetworkTuple}
use appletalk.Wire.Aurp.{Cmd}
use appletalk.Router.States.{Receiver, Sender, Receiver-discrete, Sender-discrete}
use appletalk.Router.Aurp.{
  Peer, Turn, Outstanding, new_peer, succ, send, send_sequenced, open_connection, close_receiver,
  close_sender, receiver_open, is_receiver, is_sender, retries,
}
use appletalk.Router.Aurp.Pages.{split_tuples, split_loop}
use appletalk.Router.Aurp.Sending.{
  send_page, send_open_rsp, probe_connection, accept_connection, on_open_req, on_ri_req, send_all,
  acked, on_ri_ack, repeat_outstanding, send_pending, sender_timers, send_rd, set_sender,
}

-- A packet is outstanding exactly while its acknowledgement is waited for.
abbrev pub Waits : Sender → Option Outstanding → Type 0
Waits Sender.unconnected o = o ≡ none
Waits Sender.connected o = o ≡ none
Waits Sender.wait_ri_rsp_ack o = is_some o ≡ true
Waits Sender.wait_ri_upd_ack o = is_some o ≡ true
Waits Sender.wait_rd_ack o = is_some o ≡ true

-- Pages are left only while an export is under way.
abbrev pub Exports : Sender → List (List NetworkTuple) → Type 0
Exports Sender.wait_ri_rsp_ack pages = Unit
Exports _ pages = pages ≡ []

-- The packet under way has the last number, and was sent five times at most.
abbrev pub Counts : Option Outstanding → ℕ → Type 0
Counts none seq = Unit
Counts (some o) seq = (o.seq ≡ seq) × (1 ≤ o.tries) × (o.tries ≤ retries)

pub record IsPeer (p : Peer) : Type 0 where
  pub waits : Waits p.sender p.outstanding
  pub exports : Exports p.sender p.pages
  pub counts : Counts p.outstanding p.seq_send
  pub send_number : p.seq_send < 65536
  pub recv_number : (0 < p.seq_recv) × (p.seq_recv < 65536)

pub succ_bounds : (n : ℕ) → (0 < succ n) × (succ n < 65536)
unfolding succ
succ_bounds n = ground arith

pub send_sequenced-IsPeer :
    (s : Sender) (cmd : Cmd) (nets : List ℕ) (now : ℕ) (t : Turn)
    → Exports s t.peer.pages
    → ((o : Option Outstanding) → is_some o ≡ true → Waits s o)
    → (0 < t.peer.seq_recv) × (t.peer.seq_recv < 65536)
    → IsPeer (set_sender s (send_sequenced cmd nets now t)).peer
unfolding send_sequenced
send_sequenced-IsPeer s cmd nets now t x w r = record {
  waits = w _ refl;
  exports = x;
  counts = (refl, omega arith, omega arith);
  send_number = (succ_bounds t.peer.seq_send).1;
  recv_number = r;
}

pub send_page-IsPeer :
    (now : ℕ) (t : Turn)
    → t.peer.pages ≢ []
    → (0 < t.peer.seq_recv) × (t.peer.seq_recv < 65536)
    → IsPeer (send_page now t).peer
unfolding send_page
send_page-IsPeer now t h r = elim (List-cases t.peer.pages) [
  | inl e ↦ absurd (h e)
  | inr (page, pages, e) ↦ rw e (
      send_sequenced-IsPeer Sender.wait_ri_rsp_ack _ _ now
        (record t { peer = record t.peer { pages = pages } }) tt (λ o k. k) r)
]

pub idle_pages :
    (s : Sender) (o : Option Outstanding) (pages : List (List NetworkTuple))
    → Waits s o
    → Exports s pages
    → is_some o ≡ false
    → pages ≡ []
idle_pages Sender.unconnected o pages w x h = x
idle_pages Sender.connected o pages w x h = x
idle_pages Sender.wait_ri_rsp_ack o pages w x h = cc
idle_pages Sender.wait_ri_upd_ack o pages w x h = x
idle_pages Sender.wait_rd_ack o pages w x h = x

-- Nothing outstanding, nothing left to export.
pub idle-IsPeer :
    (p : Peer)
    → Waits p.sender none
    → Exports p.sender []
    → p.outstanding ≡ none
    → p.pages ≡ []
    → p.seq_send < 65536
    → (0 < p.seq_recv) × (p.seq_recv < 65536)
    → IsPeer p
idle-IsPeer p w x o g n r = record {
  waits = rw o w;
  exports = rw g x;
  counts = rw o tt;
  send_number = n;
  recv_number = r;
}

-- Only the other side of the peer changes.
pub other_side-IsPeer :
    (p q : Peer)
    → IsPeer p
    → q.sender ≡ p.sender
    → q.outstanding ≡ p.outstanding
    → q.pages ≡ p.pages
    → q.seq_send ≡ p.seq_send
    → (0 < q.seq_recv) × (q.seq_recv < 65536)
    → IsPeer q
other_side-IsPeer p q v s o g n r = record {
  waits = rw (s, o) v.waits;
  exports = rw (s, g) v.exports;
  counts = rw (o, n) v.counts;
  send_number = rw n v.send_number;
  recv_number = r;
}
