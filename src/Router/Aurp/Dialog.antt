-- ===== src/Router/Aurp/Dialog.antt =====
-- src/router/aurp.rs: `Peer::routing`, which hands a packet to the side that it is for, and what a
-- timer's tick does to one peer.
use appletalk.Prelude.{
  ℕ, ◌-◌, Bool, true, not, ◌&&◌, ◌||◌, none, [], ◌∷◌, ◌++◌, ◌==◌, leb, is_some, is_some_and,
  if◌then◌else◌,
}
use appletalk.Prelude.Integers.{negsuc}
use appletalk.Wire.Aurp.{
  Cmd, ri_req, ri_rsp, ri_ack, ri_upd, rd, zi_req, zi_rsp, gzn_req, gzn_rsp, gdzl_req, gdzl_rsp,
  open_req, open_rsp, tickle, tickle_ack,
}
use appletalk.Router.States.{Receiver, Sender}
use appletalk.Router.Actions.{receiver_moved, sender_moved, log}
use appletalk.Router.Aurp.{Peer, Turn, send, open_connection, receiver_open, is_receiver, is_sender}
use appletalk.Router.Aurp.Pages.{zi_pages}
use appletalk.Router.Aurp.Sending.{on_open_req, on_ri_req, on_ri_ack, send_all, sender_timers}
use appletalk.Router.Aurp.Receiving.{
  on_ri_rsp, on_ri_upd, on_rd, on_open_rsp, on_zi_rsp, on_tickle_ack, receiver_timers, zi_rerequest,
}

-- On the open connection that the peer opened. `conn_remote` is 0 until there is one.
abbrev pub for_sender : ℕ → Turn → Bool
for_sender conn t = conn == t.peer.conn_remote && not (is_sender Sender.unconnected t.peer)

abbrev pub exporting : Peer → Bool
exporting p =
    is_sender Sender.connected p
    || (is_sender Sender.wait_ri_rsp_ack p || is_sender Sender.wait_ri_upd_ack p)

-- On the connection that we opened, once it carries data.
abbrev pub for_receiver : ℕ → Turn → Bool
for_receiver conn t = conn == t.peer.conn_local && receiver_open t.peer

-- Everything for another connection than the one expected is discarded.
unfoldable pub routing : ℕ → ℕ → Cmd → ℕ → Turn → Turn
unfolding on_open_req on_ri_req on_ri_ack send_all on_ri_rsp on_ri_upd on_rd on_open_rsp on_zi_rsp
    on_tickle_ack
routing conn seq (open_req sui version options) now t = on_open_req conn version options now t
routing conn seq (ri_req sui) now t =
    if conn == t.peer.conn_remote && exporting t.peer then on_ri_req now t else t
routing conn seq (ri_ack szi) now t =
    if conn == t.peer.conn_remote then on_ri_ack seq szi now t else t
routing conn seq tickle now t = if for_sender conn t then send conn 0 tickle_ack t else t
routing conn seq (zi_req nets) now t =
    if for_sender conn t then send_all conn (zi_pages nets t.tables) t else t
routing conn seq (gzn_req zone) now t =
    if for_sender conn t then send conn 0 (gzn_rsp zone none) t else t
routing conn seq (gdzl_req start) now t =
    if for_sender conn t then send conn 0 (gdzl_rsp true (negsuc 0) []) t else t
routing conn seq (open_rsp env rate_or_err options) now t =
    if conn == t.peer.conn_local && is_receiver Receiver.wait_open_rsp t.peer
    then on_open_rsp rate_or_err now t
    else t
routing conn seq (ri_rsp last tuples) now t =
    if for_receiver conn t then on_ri_rsp conn seq last tuples now t else t
routing conn seq (ri_upd events) now t =
    if for_receiver conn t then on_ri_upd conn seq events now t else t
routing conn seq (rd code) now t = if for_receiver conn t then on_rd conn seq code t else t
routing conn seq (zi_rsp extended zones) now t =
    if for_receiver conn t then on_zi_rsp extended zones now t else t
routing conn seq tickle_ack now t =
    if conn == t.peer.conn_local && is_receiver Receiver.wait_tickle_ack t.peer
    then on_tickle_ack now t
    else t
routing conn seq (gzn_rsp zone tuples) now t = t
routing conn seq (gdzl_rsp last start zones) now t = t

-- One line for each connection whose state moved.
unfoldable pub report : Receiver → Sender → Turn → Turn
report was_receiver was_sender t = record t {
  acts =
      t.acts
      ++ (if is_receiver was_receiver t.peer
          then []
          else log (receiver_moved t.peer.addr was_receiver t.peer.receiver t.reason) ∷ [])
      ++ (if is_sender was_sender t.peer
          then []
          else log (sender_moved t.peer.addr was_sender t.peer.sender t.reason) ∷ []);
  reason = none;
}

abbrev pub reconnect_backoff : ℕ
reconnect_backoff = 600

unfoldable pub reconnect : ℕ → Turn → Turn
unfolding open_connection
reconnect now t =
    if not (is_some t.peer.configured) || not (is_receiver Receiver.unconnected t.peer)
    then t
    else if is_some_and t.peer.last_reconnect (λ at. leb (now - at) reconnect_backoff)
    then t
    else open_connection now t

unfoldable pub tick_peer : Bool → Bool → ℕ → Turn → Turn
unfolding reconnect receiver_timers sender_timers zi_rerequest report
tick_peer scan zi now t =
    let t₁ = if scan then reconnect now t else t in
    let t₂ = sender_timers now (receiver_timers now t₁) in
    let t₃ = if zi then zi_rerequest t₂ else t₂ in report t.peer.receiver t.peer.sender t₃
