-- ===== src/Router/Aurp/Sending.antt =====
-- src/router/aurp.rs: our side of the connection that the peer opened, as the data sender.
use appletalk.Prelude.{
  ℕ, ◌+◌, ◌-◌, Bool, true, false, not, ◌&&◌, ◌||◌, none, some, List, [], ◌∷◌, ◌++◌, map, filter,
  ◌==◌, leb, is_some, if◌then◌else◌,
}
use appletalk.Prelude.Integers.{ℤ, pos, negsuc}
use appletalk.Wire.Aurp.{Cmd, ri_rsp, ri_upd, rd, open_rsp}
use appletalk.Router.States.{Receiver, Sender, Reason, no_ack}
use appletalk.Router.Actions.{to_peer}
use appletalk.Router.Table.Listings.{export}
use appletalk.Router.Aurp.{
  Turn, Outstanding, send, send_sequenced, open_connection, close_sender, is_receiver, is_sender,
  retry, retries, update_interval,
}
use appletalk.Router.Aurp.Pages.{split_tuples, zi_pages, is_empty}
use appletalk.Router.Aurp.Events.{null_upd, na, start}

abbrev pub set_sender : Sender → Turn → Turn
set_sender s t = record t { peer = record t.peer { sender = s } }

abbrev pub set_reason : Reason → Turn → Turn
set_reason r t = record t { reason = some r }

-- The next page, marked where it is the last.
unfoldable pub send_page : ℕ → Turn → Turn
unfolding send_sequenced
send_page now t = elim t.peer.pages [
  | [] ↦ t
  | page ∷ pages ↦ set_sender Sender.wait_ri_rsp_ack (
      send_sequenced (ri_rsp (is_empty pages) page) (map (λ n. n.range.0) page) now
        (record t { peer = record t.peer { pages = pages } }))
]

unfoldable pub send_open_rsp : ℕ → ℤ → Turn → Turn
unfolding send
send_open_rsp conn rate_or_err t = send conn 0 (open_rsp 0 rate_or_err []) t

-- A null update probes the old connection, if nothing is under way on it.
unfoldable pub probe_connection : ℕ → Turn → Turn
unfolding send_sequenced
probe_connection now t =
    if not t.peer.probing && not (is_some t.peer.outstanding)
    then set_sender Sender.wait_ri_upd_ack
        (send_sequenced null_upd [] now (record t { peer = record t.peer { probing = true } }))
    else t

unfoldable pub accept_connection : ℕ → ℕ → Turn → Turn
unfolding send_open_rsp open_connection
accept_connection conn now t =
    let t' = send_open_rsp conn (pos 1) (record t {
      peer = record t.peer {
        conn_remote = conn;
        seq_send = 0;
        outstanding = none;
        pages = [];
        sender = Sender.connected;
      };
    }) in
    if is_receiver Receiver.unconnected t'.peer then open_connection now t' else t'

unfoldable pub on_open_req : ℕ → ℕ → List (ℕ × List ℕ) → ℕ → Turn → Turn
unfolding send_open_rsp probe_connection accept_connection
on_open_req conn version options now t =
    if not (version == 1)
    then send_open_rsp conn (negsuc 4) t
    else if not (is_empty options)
    then send_open_rsp conn (negsuc 3) t
    else if not (is_sender Sender.unconnected t.peer) && not (conn == t.peer.conn_remote)
    then probe_connection now t
    else accept_connection conn now t

-- A refresh: the sequence starts again at 1.
unfoldable pub on_ri_req : ℕ → Turn → Turn
unfolding send_page split_tuples
on_ri_req now t = send_page now (record t {
  peer = record t.peer { seq_send = 0; outstanding = none; pages = split_tuples (export t.tables) };
})

unfoldable pub send_all : ℕ → List Cmd → Turn → Turn
unfolding send
send_all conn [] t = t
send_all conn (cmd ∷ cmds) t = send_all conn cmds (send conn 0 cmd t)

-- What an acknowledged packet makes of the connection.
unfoldable pub acked : Sender → ℕ → Turn → Turn
unfolding send_page close_sender
acked Sender.unconnected now t = t
acked Sender.connected now t = t
acked Sender.wait_ri_rsp_ack now t = elim t.peer.pages [
  | [] ↦ record t { peer = record t.peer { sender = Sender.connected; probing = false } }
  | page ∷ pages ↦ send_page now t
]
acked Sender.wait_ri_upd_ack now t = record t {
  peer = record t.peer { sender = Sender.connected; probing = false };
}
acked Sender.wait_rd_ack now t = record t { peer = close_sender t.peer }

-- An acknowledgement counts only against the packet that is outstanding.
unfoldable pub on_ri_ack : ℕ → Bool → ℕ → Turn → Turn
unfolding acked send_all zi_pages
on_ri_ack seq szi now t = elim t.peer.outstanding [
  | none ↦ t
  | some o ↦
      if not (o.seq == seq)
      then t
      else let t' = record t { peer = record t.peer { outstanding = none } } in
        let t'' = if szi then send_all t'.peer.conn_remote (zi_pages o.nets t.tables) t' else t' in
        acked t.peer.sender now t''
]

-- Byte-identical repeats, and after the last of them the connection is given up.
unfoldable pub repeat_outstanding : Outstanding → ℕ → Turn → Turn
unfolding close_sender
repeat_outstanding o now t =
    if leb retry (now - o.at)
    then (if leb retries o.tries
        then set_reason no_ack (record t { peer = close_sender t.peer })
        else record t {
          peer = record t.peer { outstanding = some (record o { tries = o.tries + 1; at = now }) };
          acts = t.acts ++ to_peer t.peer.addr o.bytes ∷ [];
        })
    else t

unfoldable pub send_pending : ℕ → Turn → Turn
unfolding send_sequenced
send_pending now t =
    if is_sender Sender.connected t.peer
      && (not (is_empty t.peer.pending) && leb update_interval (now - t.peer.last_update))
    then set_sender Sender.wait_ri_upd_ack (
        send_sequenced (ri_upd t.peer.pending)
          (map start (filter (λ e. e.code == na) t.peer.pending)) now
          (record t { peer = record t.peer { pending = []; last_update = now } }))
    else t

unfoldable pub sender_timers : ℕ → Turn → Turn
unfolding repeat_outstanding send_pending
sender_timers now t = elim t.peer.outstanding [
  | some o ↦ repeat_outstanding o now t
  | none ↦ send_pending now t
]

-- The router goes down.
unfoldable pub send_rd : ℕ → Turn → Turn
unfolding send_sequenced
send_rd now t =
    if is_sender Sender.unconnected t.peer || is_sender Sender.wait_rd_ack t.peer
    then t
    else set_sender Sender.wait_rd_ack (
        send_sequenced (rd (negsuc 0)) [] now
          (record t { peer = record t.peer { outstanding = none; pages = [] } }))
