-- ===== src/Router/States.antt =====
-- src/router/aurp.rs: the states of a peer's two connections, and why one moves.
use appletalk.Prelude.Integers.{ℤ}

-- The connection that we opened: the peer is the data sender on it.
pub data Receiver : Type 0 where
  unconnected wait_open_rsp wait_ri_rsp connected wait_tickle_ack : Receiver

-- The connection that the peer opened: we are the data sender on it.
pub data Sender : Type 0 where
  unconnected connected wait_ri_rsp_ack wait_ri_upd_ack wait_rd_ack : Sender

unfoldable pub Receiver-discrete : Discrete Receiver
Receiver-discrete = hlevel

unfoldable pub Sender-discrete : Discrete Sender
Sender-discrete = hlevel

pub data Reason : Type 0 where
  open_rsp_error : ℤ → Reason
  router_down : ℤ → Reason
  sequence_ahead : Reason
  no_answer : Reason
  tickles_unanswered : Reason
  no_ack : Reason
