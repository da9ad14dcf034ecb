-- ===== src/Router/Aurp/Peers.antt =====
-- src/router/aurp.rs: `Peers`, all the peers of the tunnel. The clock's seed of the first connection ID
-- is a parameter; the map of peers is a list in the order of their addresses.
use appletalk.Prelude.{
  ℕ, ◌-◌, ◌%◌, ℕ_discrete, Bool, true, false, not, ◌||◌, decide, Option, none, some, List, [], ◌∷◌,
  ◌++◌, map, filter, find, any, is_some, ◌==◌, leb, ltb, length, if◌then◌else◌,
}
use mathlib.Core.List.{List-discrete}
use appletalk.Prelude.Maps.{insert}
use appletalk.Wire.{Name}
use appletalk.Wire.Aurp.{Di, null, ip, Aurp, data_packet, EventTuple}
use appletalk.Wire.Aurp.Parse as AurpParse
use appletalk.Wire.Aurp.Encode.{encode}
use appletalk.Router.States.{Receiver, Sender}
use appletalk.Router.Actions.{Action, to_peer, log, unknown_peer, too_many_peers}
use appletalk.Router.Table.{Tables, RouteChange}
use appletalk.Router.Aurp.{Peer, Turn, new_peer, succ, is_receiver, is_sender, last_heard_limit}
use appletalk.Router.Aurp.Events.{queue, event_of}
use appletalk.Router.Aurp.Dialog.{routing, report, tick_peer}

abbrev pub max_open_peers : ℕ
max_open_peers = 256

abbrev pub reconnect_scan : ℕ
reconnect_scan = 10

abbrev pub zi_rerequest_every : ℕ
zi_rerequest_every = 30

abbrev pub log_every : ℕ
log_every = 60

pub record Peers : Type 0 where
  pub local : Di
  pub open_peering : Bool
  pub peers : List Peer
  pub configured : List Name
  pub next_conn : ℕ
  pub last_scan : ℕ
  pub last_zi : ℕ
  pub logged : List (ℕ × ℕ)

unfoldable pub new_peers : ℕ → Di → Bool → List Name → ℕ → Peers
unfolding succ
new_peers seed local open_peering configured now = record {
  local = local;
  open_peering = open_peering;
  peers = [];
  configured = configured;
  next_conn = succ (seed % 65536);
  last_scan = now;
  last_zi = now;
  logged = [];
}

unfoldable pub find_peer : ℕ → List Peer → Option Peer
find_peer addr peers = find (λ p. p.addr == addr) peers

-- The entry of the peer's address, or a new one in its place by address.
unfoldable pub put_peer : Peer → List Peer → List Peer
put_peer p [] = p ∷ []
put_peer p (q ∷ peers) =
    let rest = put_peer p peers in
    if p.addr == q.addr then p ∷ peers else if ltb p.addr q.addr then p ∷ q ∷ peers else q ∷ rest

abbrev pub is_named : Name → Option Name → Bool
is_named name none = false
is_named name (some n) = decide (List-discrete ℕ_discrete n name)

-- A name that moved leaves its old address.
unfoldable pub resolved : Name → ℕ → ℕ → Peers → Peers
unfolding find_peer put_peer new_peer succ
resolved name addr now ps = elim (find_peer addr ps.peers) [
  | some p ↦ record ps { peers = put_peer (record p { configured = some name }) ps.peers }
  | none ↦ record ps {
    peers =
        put_peer (new_peer addr (some name) ps.next_conn ps.local now)
          (filter (λ p. not (is_named name p.configured)) ps.peers);
    next_conn = succ ps.next_conn;
  }
]

-- "Call you by what you call yourself"; a null name stands for the address.
abbrev pub named_by : Di → ℕ → Di
named_by null from = ip from
named_by (ip a) from = ip a

abbrev pub recent : ℕ → List (ℕ × ℕ) → List (ℕ × ℕ)
recent now logged = filter (λ e. ltb (now - e.1) log_every) logged

-- Whether the unknown address is to be logged now; what is older than the spacing goes.
unfoldable pub log_unknown : ℕ → ℕ → Peers → Peers × Bool
log_unknown from now ps =
    if any (λ e. e.0 == from) (recent now ps.logged)
    then (record ps { logged = recent now ps.logged }, false)
    else (record ps { logged = insert ℕ_discrete from now (recent now ps.logged) }, true)

-- What a call leaves and hands back: a data packet's datagram is for the router to forward.
pub record Outcome : Type 0 where
  pub peers : Peers
  pub tables : Tables
  pub acts : List Action
  pub chs : List RouteChange
  pub ddp : Option (List ℕ)

abbrev pub turn : Peer → Tables → Turn
turn p t = record { peer = p; tables = t; acts = []; chs = []; reason = none }

abbrev pub finish_turn : Peers → Turn → Outcome
finish_turn ps t = record {
  peers = record ps { peers = put_peer t.peer ps.peers };
  tables = t.tables;
  acts = t.acts;
  chs = t.chs;
  ddp = none;
}

-- A packet of a peer that is known.
unfoldable pub handle : ℕ → Aurp → Tables → ℕ → Peers → Peer → Outcome
unfolding routing report put_peer
handle from (data_packet dh ddp) tables now ps p =
    record (finish_turn ps
      (turn (record p { di = named_by dh.src from; last_heard = now }) tables)) { ddp = some ddp }
handle from (Aurp.routing dh conn seq cmd) tables now ps p =
    let was = record p { di = named_by dh.src from } in
    finish_turn ps (report p.receiver p.sender (routing conn seq cmd now (turn was tables)))

unfoldable pub refuse : ℕ → Action → Tables → ℕ → Peers → Outcome
unfolding log_unknown
refuse from line tables now ps = record {
  peers = (log_unknown from now ps).0;
  tables = tables;
  acts = if (log_unknown from now ps).1 then line ∷ [] else [];
  chs = [];
  ddp = none;
}

-- A stranger is a peer only with open peering, and while there is room.
unfoldable pub admit : ℕ → Aurp → Tables → ℕ → Peers → Outcome
unfolding refuse handle new_peer succ put_peer
admit from pkt tables now ps =
    if not ps.open_peering
    then refuse from (log (unknown_peer from)) tables now ps
    else if leb max_open_peers (length ps.peers)
    then refuse from (log (too_many_peers from)) tables now ps
    else let p = new_peer from none ps.next_conn ps.local now in
      handle from pkt tables now
        (record ps { peers = put_peer p ps.peers; next_conn = succ ps.next_conn }) p

unfoldable pub packet : ℕ → List ℕ → Tables → ℕ → Peers → Outcome
unfolding find_peer handle admit
packet from bytes tables now ps = elim (AurpParse.parse bytes) [
  | none ↦ record { peers = ps; tables = tables; acts = []; chs = []; ddp = none }
  | some pkt ↦ elim (find_peer from ps.peers) [
    | some p ↦ handle from pkt tables now ps p
    | none ↦ admit from pkt tables now ps
  ]
]

pub record Ticked : Type 0 where
  pub peers : List Peer
  pub tables : Tables
  pub acts : List Action
  pub chs : List RouteChange

unfoldable pub tick_peers : Bool → Bool → ℕ → List Peer → Tables → Ticked
unfolding tick_peer
tick_peers scan zi now [] tables = record { peers = []; tables = tables; acts = []; chs = [] }
tick_peers scan zi now (p ∷ ps) tables =
    let t = tick_peer scan zi now (turn p tables) in
    let rest = tick_peers scan zi now ps t.tables in
    record {
      peers = t.peer ∷ rest.peers;
      tables = rest.tables;
      acts = t.acts ++ rest.acts;
      chs = t.chs ++ rest.chs;
    }

-- A stranger's entry with neither connection up goes when it has been quiet.
abbrev pub kept : ℕ → Peer → Bool
kept now p =
    is_some p.configured
    || (not (is_receiver Receiver.unconnected p)
        || (not (is_sender Sender.unconnected p) || ltb (now - p.last_heard) last_heard_limit))

unfoldable pub tick : Tables → ℕ → Peers → Outcome
unfolding tick_peers
tick tables now ps =
    let scan = leb reconnect_scan (now - ps.last_scan) in
    let zi = leb zi_rerequest_every (now - ps.last_zi) in
    let done = tick_peers scan zi now ps.peers tables in
    record {
      peers = record ps {
        peers = filter (kept now) done.peers;
        last_scan = if scan then now else ps.last_scan;
        last_zi = if zi then now else ps.last_zi;
      };
      tables = done.tables;
      acts = done.acts;
      chs = done.chs;
      ddp = none;
    }

-- Only a peer to which we are the sender is told.
unfoldable pub queue_for : EventTuple → Peer → Peer
unfolding queue
queue_for e p =
    if is_sender Sender.unconnected p then p else record p { pending = queue p.pending e }

unfoldable pub route_changed : List RouteChange → Tables → List Peer → List Peer
unfolding event_of queue_for
route_changed [] tables ps = ps
route_changed (c ∷ cs) tables ps =
    route_changed cs tables (elim (event_of tables c) [ none ↦ ps | some e ↦ map (queue_for e) ps ])

unfoldable pub forward : ℕ → List ℕ → Peers → Action
unfolding find_peer
forward peer ddp ps =
    let dst : Di = elim (find_peer peer ps.peers) [ none ↦ ip peer | some p ↦ p.di ] in
    to_peer peer (encode (data_packet (record { dst = dst; src = ps.local }) ddp))
