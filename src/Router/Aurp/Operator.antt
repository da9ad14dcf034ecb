-- ===== src/Router/Aurp/Operator.antt =====
-- src/router/aurp.rs: the operator's shutdown and ping. The ping's report is text and is left out.
use appletalk.Prelude.{ℕ, none, some, List, [], ◌∷◌, ◌++◌}
use appletalk.Wire.Aurp.{tickle}
use appletalk.Router.States.{Receiver}
use appletalk.Router.Actions.{Action}
use appletalk.Router.Table.{Tables}
use appletalk.Router.Aurp.{Peer, Turn, send}
use appletalk.Router.Aurp.Sending.{send_rd}
use appletalk.Router.Aurp.Peers.{turn}

-- One turn a peer, in order, with no change of the tables.
unfoldable pub each : (Turn → Turn) → Tables → List Peer → List Peer × List Action
each f tables [] = ([], [])
each f tables (p ∷ ps) =
    let t = f (turn p tables) in
    let (peers, acts) = each f tables ps in (t.peer ∷ peers, t.acts ++ acts)

unfoldable pub shutdown : ℕ → Tables → List Peer → List Peer × List Action
unfolding each send_rd
shutdown now tables ps = each (send_rd now) tables ps

-- The ping neither hastens nor delays the drop of a peer that is already tickled.
unfoldable pub ping_from : Receiver → ℕ → Turn → Turn
unfolding send
ping_from Receiver.unconnected now t = t
ping_from Receiver.wait_open_rsp now t = t
ping_from Receiver.wait_ri_rsp now t = t
ping_from Receiver.connected now t = send t.peer.conn_local 0 tickle (record t {
  peer = record t.peer {
    receiver = Receiver.wait_tickle_ack;
    recv_tries = 1;
    recv_at = now;
    pinged_at = some now;
    ping_rtt = none;
  };
})
ping_from Receiver.wait_tickle_ack now t =
    send t.peer.conn_local 0 tickle
      (record t { peer = record t.peer { pinged_at = some now; ping_rtt = none } })

unfoldable pub ping : ℕ → Tables → List Peer → List Peer × List Action
unfolding each ping_from
ping now tables ps = each (λ t. ping_from t.peer.receiver now t) tables ps
