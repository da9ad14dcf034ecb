-- ===== src/Router/Aurp/Invariant/Dialog.antt =====
-- A packet and a tick keep what holds of a peer (src/router/aurp.rs).
use appletalk.Prelude.{
  ℕ, sym, length, ◌-◌, ◌≡◌, refl, Bool, true, false, not, ◌&&◌, ◌||◌, Option, none, [], ◌==◌, leb,
  is_some, is_some_and, arith, if◌then◌else◌,
}
use appletalk.Prelude.Integers.{negsuc}
use mathlib.Core.Path.{subst}
use appletalk.Wire.{Name}
use appletalk.Wire.Aurp.{
  Cmd, Di, ri_req, ri_rsp, ri_ack, ri_upd, rd, zi_req, zi_rsp, gzn_req, gzn_rsp, gdzl_req, gdzl_rsp,
  open_req, open_rsp, tickle, tickle_ack,
}
use appletalk.Router.States.{Receiver}
use appletalk.Router.Aurp.{Peer, new_peer, Turn, send, open_connection, receiver_open, is_receiver}
use appletalk.Router.Aurp.Pages.{zi_pages}
use appletalk.Router.Aurp.Sending.{send_all, on_ri_req, on_ri_ack, sender_timers}
use appletalk.Router.Aurp.Receiving.{
  on_ri_rsp, on_ri_upd, on_rd, on_open_rsp, on_zi_rsp, on_tickle_ack, receiver_timers, zi_rerequest,
  ask_zones, chunks, zones_wanted,
}
use appletalk.Router.Aurp.Dialog.{
  routing, reconnect, tick_peer, report, reconnect_backoff, exporting, for_sender, for_receiver,
}
use appletalk.Router.Aurp.Invariant.{IsPeer, idle-IsPeer, other_side-IsPeer}
use appletalk.Router.Aurp.Invariant.Receiving.{
  on_ri_rsp-IsPeer, on_ri_upd-IsPeer, on_rd-IsPeer, on_open_rsp-IsPeer, on_zi_rsp-IsPeer,
  on_tickle_ack-IsPeer, receiver_timers_at-IsPeer, ask_zones_peer,
}
use appletalk.Router.Aurp.Invariant.Sending.{
  on_open_req-IsPeer, on_ri_req-IsPeer, on_ri_ack-IsPeer, send_all_peer, sender_timers-IsPeer,
}

if_IsPeer :
    (b : Bool) (x y : Turn) → IsPeer x.peer → IsPeer y.peer → IsPeer (if b then x else y).peer
if_IsPeer true x y p q = p
if_IsPeer false x y p q = q

same-IsPeer : (p q : Peer) → q ≡ p → IsPeer p → IsPeer q
same-IsPeer p q e v = subst (λ x. IsPeer x) (sym e) v

pub new_peer-IsPeer :
    (addr : ℕ) (name : Option Name) (conn : ℕ) (local : Di) (now : ℕ)
    → IsPeer (new_peer addr name conn local now)
unfolding new_peer
new_peer-IsPeer addr name conn local now =
    idle-IsPeer _ refl refl refl refl (omega arith) (omega arith)

pub routing-IsPeer :
    (conn seq : ℕ) (cmd : Cmd) (now : ℕ) (t : Turn)
    → IsPeer t.peer
    → IsPeer (routing conn seq cmd now t).peer
unfolding routing send
routing-IsPeer conn seq (open_req sui version options) now t v =
    on_open_req-IsPeer conn version options now t v
routing-IsPeer conn seq (ri_req sui) now t v =
    if_IsPeer (conn == t.peer.conn_remote && exporting t.peer) (on_ri_req now t) t
      (on_ri_req-IsPeer now t v) v
routing-IsPeer conn seq (ri_ack szi) now t v =
    if_IsPeer (conn == t.peer.conn_remote) (on_ri_ack seq szi now t) t
      (on_ri_ack-IsPeer seq szi now t v) v
routing-IsPeer conn seq tickle now t v =
    if_IsPeer (for_sender conn t) (send conn 0 tickle_ack t) t v v
routing-IsPeer conn seq (zi_req nets) now t v =
    if_IsPeer (for_sender conn t) (send_all conn (zi_pages nets t.tables) t) t
      (same-IsPeer t.peer _ (send_all_peer conn (zi_pages nets t.tables) t) v) v
routing-IsPeer conn seq (gzn_req zone) now t v =
    if_IsPeer (for_sender conn t) (send conn 0 (gzn_rsp zone none) t) t v v
routing-IsPeer conn seq (gdzl_req start) now t v =
    if_IsPeer (for_sender conn t) (send conn 0 (gdzl_rsp true (negsuc 0) []) t) t v v
routing-IsPeer conn seq (open_rsp env rate_or_err options) now t v =
    if_IsPeer (conn == t.peer.conn_local && is_receiver Receiver.wait_open_rsp t.peer)
      (on_open_rsp rate_or_err now t) t (on_open_rsp-IsPeer rate_or_err now t v) v
routing-IsPeer conn seq (ri_rsp last tuples) now t v =
    if_IsPeer (for_receiver conn t) (on_ri_rsp conn seq last tuples now t) t
      (on_ri_rsp-IsPeer conn seq last tuples now t v) v
routing-IsPeer conn seq (ri_upd events) now t v =
    if_IsPeer (for_receiver conn t) (on_ri_upd conn seq events now t) t
      (on_ri_upd-IsPeer conn seq events now t v) v
routing-IsPeer conn seq (rd code) now t v =
    if_IsPeer (for_receiver conn t) (on_rd conn seq code t) t (on_rd-IsPeer conn seq code t) v
routing-IsPeer conn seq (zi_rsp extended zones) now t v =
    if_IsPeer (for_receiver conn t) (on_zi_rsp extended zones now t) t
      (on_zi_rsp-IsPeer extended zones now t v) v
routing-IsPeer conn seq tickle_ack now t v =
    if_IsPeer (conn == t.peer.conn_local && is_receiver Receiver.wait_tickle_ack t.peer)
      (on_tickle_ack now t) t (on_tickle_ack-IsPeer now t v) v
routing-IsPeer conn seq (gzn_rsp zone tuples) now t v = v
routing-IsPeer conn seq (gdzl_rsp last start zones) now t v = v

reconnect-IsPeer : (now : ℕ) (t : Turn) → IsPeer t.peer → IsPeer (reconnect now t).peer
unfolding reconnect open_connection send
reconnect-IsPeer now t v =
    if_IsPeer (not (is_some t.peer.configured) || not (is_receiver Receiver.unconnected t.peer)) t
      (if is_some_and t.peer.last_reconnect (λ at. leb (now - at) reconnect_backoff)
        then t
        else open_connection now t)
      v
      (if_IsPeer (is_some_and t.peer.last_reconnect (λ at. leb (now - at) reconnect_backoff)) t
        (open_connection now t) v (other_side-IsPeer t.peer _ v refl refl refl refl (omega arith)))

zi_rerequest-IsPeer : (t : Turn) → IsPeer t.peer → IsPeer (zi_rerequest t).peer
unfolding zi_rerequest
zi_rerequest-IsPeer t v =
    let cs = chunks (length (zones_wanted t)) 699 (zones_wanted t) in
    if_IsPeer (not (receiver_open t.peer)) t (ask_zones t.peer.conn_local cs t) v
      (same-IsPeer t.peer _ (ask_zones_peer t.peer.conn_local cs t) v)

pub tick_peer-IsPeer :
    (scan zi : Bool) (now : ℕ) (t : Turn) → IsPeer t.peer → IsPeer (tick_peer scan zi now t).peer
unfolding tick_peer report receiver_timers
tick_peer-IsPeer scan zi now t v =
    let t₁ = if scan then reconnect now t else t in
    let v₁ = if_IsPeer scan (reconnect now t) t (reconnect-IsPeer now t v) v in
    let t₂ = sender_timers now (receiver_timers now t₁) in
    let v₂ =
      sender_timers-IsPeer now (receiver_timers now t₁)
        (receiver_timers_at-IsPeer t₁.peer.receiver now t₁ v₁) in
    if_IsPeer zi (zi_rerequest t₂) t₂ (zi_rerequest-IsPeer t₂ v₂) v₂
