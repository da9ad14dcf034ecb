-- ===== src/Router/Actions.antt =====
-- src/router/mod.rs: what the router asks the run loop to do. A log line keeps what it names, and not
-- its text.
use appletalk.Prelude.{ℕ, Option, List}
use appletalk.Wire.{Name, Addr}
use appletalk.Router.Table.{RouteChange}
use appletalk.Wire.Frame.{Frame, MacAddr}
use appletalk.Wire.Llap.{Llap}
use appletalk.Router.States.{Receiver, Sender, Reason}

pub data LogLine : Type 0 where
  receiver_moved : ℕ → Receiver → Receiver → Option Reason → LogLine
  sender_moved : ℕ → Sender → Sender → Option Reason → LogLine
  unknown_peer : ℕ → LogLine
  too_many_peers : ℕ → LogLine
  route_moved : RouteChange → List Name → LogLine
  port_claimed : Name → Addr → LogLine
  address_taken : Name → Addr → MacAddr → LogLine

pub data Action : Type 0 where
  to_ether : ℕ → Frame → Action
  to_llap : ℕ → Llap → Action
  to_peer : ℕ → List ℕ → Action
  set_node : ℕ → Option ℕ → Action
  log : LogLine → Action
