-- ===== src/Router/Aurp.antt =====
-- src/router/aurp.rs: a peer of the tunnel and what it sends. Time is in seconds, as in the tables; an
-- IPv4 address is a number.
pub mod Pages
pub mod Events
pub mod Sending
pub mod Receiving
pub mod Dialog
pub mod Peers
pub mod Operator
pub mod Invariant
mod Tests
pub mod Retries
pub mod Strangers
pub mod Collapse
pub mod Delivery
use appletalk.Prelude.{
  ℕ, zero, suc, ◌+◌, ◌-◌, ◌%◌, Bool, true, false, not, ◌&&◌, decide, Option, none, some, List, [],
  ◌∷◌, ◌++◌, ◌==◌, if◌then◌else◌,
}
use appletalk.Prelude.Integers.{ℤ}
use appletalk.Wire.{Name, Addr}
use appletalk.Wire.Rtmp.{NetworkTuple}
use appletalk.Wire.Aurp.{Di, null, ip, EventTuple, Cmd, routing, open_req, all_sui}
use appletalk.Wire.Aurp.Encode.{encode}
use appletalk.Router.States.{Receiver, Sender, Reason, Sender-discrete, Receiver-discrete}
use appletalk.Router.Actions.{Action, to_peer}
use appletalk.Router.Table.{Tables, RouteChange}

abbrev pub retry : ℕ
retry = 10

abbrev pub retries : ℕ
retries = 5

abbrev pub last_heard_limit : ℕ
last_heard_limit = 90

abbrev pub tickle_retries : ℕ
tickle_retries = 10

abbrev pub update_interval : ℕ
update_interval = 10

abbrev pub max_body : ℕ
max_body = 1400

abbrev pub no_next : Addr
no_next = record { net = 0; node = 0 }

pub record Outstanding : Type 0 where
  pub seq : ℕ
  pub bytes : List ℕ
  pub nets : List ℕ
  pub at : ℕ
  pub tries : ℕ

pub record Peer : Type 0 where
  pub addr : ℕ
  pub configured : Option Name
  pub di : Di
  pub receiver : Receiver
  pub sender : Sender
  pub local : Di
  pub conn_local : ℕ
  pub seq_recv : ℕ
  pub last_heard : ℕ
  pub recv_at : ℕ
  pub recv_tries : ℕ
  pub last_reconnect : Option ℕ
  pub conn_remote : ℕ
  pub seq_send : ℕ
  pub outstanding : Option Outstanding
  pub pages : List (List NetworkTuple)
  pub pending : List EventTuple
  pub last_update : ℕ
  pub probing : Bool
  pub pinged_at : Option ℕ
  pub ping_rtt : Option ℕ

unfoldable pub new_peer : ℕ → Option Name → ℕ → Di → ℕ → Peer
new_peer addr configured conn_local local now = record {
  addr = addr;
  configured = configured;
  di = ip addr;
  receiver = Receiver.unconnected;
  sender = Sender.unconnected;
  local = local;
  conn_local = conn_local;
  seq_recv = 1;
  last_heard = now;
  recv_at = now;
  recv_tries = 0;
  last_reconnect = none;
  conn_remote = 0;
  seq_send = 0;
  outstanding = none;
  pages = [];
  pending = [];
  last_update = now;
  probing = false;
  pinged_at = none;
  ping_rtt = none;
}

-- A peer and the tables while one packet or timer is handled, with the actions and changes so far.
pub record Turn : Type 0 where
  pub peer : Peer
  pub tables : Tables
  pub acts : List Action
  pub chs : List RouteChange
  pub reason : Option Reason

-- Sequence numbers and connection IDs skip 0.
unfoldable pub succ : ℕ → ℕ
succ n = let v = (n + 1) % 65536 in if v == 0 then 1 else v

unfoldable pub pred : ℕ → ℕ
pred n = let v = (n + 65535) % 65536 in if v == 0 then 65535 else v

unfoldable pub bytes : Peer → ℕ → ℕ → Cmd → List ℕ
bytes p conn seq cmd = encode (routing (record { dst = p.di; src = p.local }) conn seq cmd)

unfoldable pub send : ℕ → ℕ → Cmd → Turn → Turn
send conn seq cmd t = record t {
  acts = t.acts ++ to_peer t.peer.addr (bytes t.peer conn seq cmd) ∷ [];
}

-- The one sequenced packet that may be outstanding.
unfoldable pub send_sequenced : Cmd → List ℕ → ℕ → Turn → Turn
send_sequenced cmd nets now t =
    let seq = succ t.peer.seq_send in
    let packet = bytes t.peer t.peer.conn_remote seq cmd in
    record t {
      peer = record t.peer {
        seq_send = seq;
        outstanding = some (record { seq = seq; bytes = packet; nets = nets; at = now; tries = 1 });
      };
      acts = t.acts ++ to_peer t.peer.addr packet ∷ [];
    }

unfoldable pub open_connection : ℕ → Turn → Turn
unfolding send
open_connection now t = send t.peer.conn_local 0 (open_req all_sui 1 []) (record t {
  peer = record t.peer {
    seq_recv = 1;
    receiver = Receiver.wait_open_rsp;
    recv_at = now;
    recv_tries = 1;
    last_reconnect = some now;
  };
})

-- The next Open-Req carries another connection ID.
unfoldable pub close_receiver : Peer → Peer
close_receiver p = record p {
  receiver = Receiver.unconnected;
  conn_local = succ p.conn_local;
  seq_recv = 1;
  recv_tries = 0;
}

unfoldable pub close_sender : Peer → Peer
close_sender p = record p {
  sender = Sender.unconnected;
  conn_remote = 0;
  seq_send = 0;
  outstanding = none;
  pages = [];
  pending = [];
  probing = false;
}

abbrev pub is_receiver : Receiver → Peer → Bool
is_receiver r p = decide (Receiver-discrete p.receiver r)

abbrev pub is_sender : Sender → Peer → Bool
is_sender s p = decide (Sender-discrete p.sender s)

unfoldable pub receiver_open : Peer → Bool
receiver_open p =
    not (is_receiver Receiver.unconnected p) && not (is_receiver Receiver.wait_open_rsp p)

pub data Seq : Type 0 where
  fresh dup ahead stale : Seq

-- Where a sequenced packet's number stands against the expected one; 0 is never one.
unfoldable pub check_seq : Peer → ℕ → Seq
check_seq p seq =
    if seq == 0
    then stale
    else if seq == p.seq_recv
    then fresh
    else if seq == pred p.seq_recv
    then dup
    else if seq == succ p.seq_recv
    then ahead
    else stale
