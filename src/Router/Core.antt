-- ===== src/Router/Core.antt =====
-- src/router/mod.rs: the router, which takes a datagram in, serves it and sends it on.
pub mod Hops
pub mod NoEcho
pub mod Sent
pub mod Steps
mod Tests
use appletalk.Prelude.{
  ℕ, ◌+◌, Bool, true, false, not, ◌&&◌, ◌||◌, Option, none, some, List, [], ◌∷◌, ◌++◌, map, find,
  is_some_and, is_some, ◌==◌, leb, length, if◌then◌else◌,
}
use appletalk.Wire.{Name, Addr}
use appletalk.Wire.Ddp as Ddp
use appletalk.Wire.Packet.{DdpBody, decode_ddp_body}
use appletalk.Router.{Target}
use appletalk.Router.Actions.{Action, log, route_moved}
use appletalk.Router.Emits.{Dest, Emit, on, route}
use appletalk.Router.Table.{Tables, RouteChange, best}
use appletalk.Router.Table.Listings.{zones}
use appletalk.Router.Ports.{Port}
use appletalk.Router.Ports.Sending as Sending
use appletalk.Router.Local.{Local, to_list}
use appletalk.Router.Local.Rtmp.{Served}
use appletalk.Router.Local.Services.{handle}
use appletalk.Router.Aurp.Peers as AurpPeers
use appletalk.Router.Aurp.Operator as AurpOperator

abbrev pub max_hops : ℕ
max_hops = 15

pub data Origin : Type 0 where
  port : ℕ → Origin
  peer : ℕ → Origin
  made_here : Origin

-- Back the way it came.
unfoldable pub is_back : Origin → Target → Bool
is_back (Origin.port a) (Target.port b) = a == b
is_back (Origin.port a) (Target.peer b) = false
is_back (Origin.peer a) (Target.port b) = false
is_back (Origin.peer a) (Target.peer b) = a == b
is_back made_here t = false

pub record Router : Type 0 where
  pub ports : List Port
  pub tables : Tables
  pub local : Local
  pub peers : AurpPeers.Peers

-- `Router::index` and the port there.
unfoldable pub port_at : ℕ → List Port → Option Port
port_at id ports = find (λ p. p.id == id) ports

-- The port that a network of ours sits on.
unfoldable pub owner : ℕ → List Port → Option Port
owner net ports = find (λ p. leb p.range.0 net && leb net p.range.1) ports

-- No hop for what was made here, nor for what comes off a tunnel to a cable.
unfoldable pub is_free : Origin → Target → Bool
is_free made_here t = true
is_free (Origin.peer a) (Target.port b) = true
is_free (Origin.peer a) (Target.peer b) = false
is_free (Origin.port a) t = false

abbrev pub hop : Origin → Target → Ddp.Ddp → Ddp.Ddp
hop origin t d = if is_free origin t then d else record d { hops = d.hops + 1 }

-- Home on a network of ours, and otherwise to the next router.
abbrev pub hop_dest : ℕ → Addr → Ddp.Ddp → Dest
hop_dest distance next d =
    if distance == 0
    then (if d.dst.node == 255 then Dest.broadcast else Dest.node d.dst.node)
    else Dest.node next.node

unfoldable pub send_to : Target → ℕ → Addr → Ddp.Ddp → Router → List Action
unfolding port_at
send_to (Target.peer ip) distance next d r = AurpPeers.forward ip (Ddp.encode d) r.peers ∷ []
send_to (Target.port id) distance next d r = elim (port_at id r.ports) [
  | none ↦ []
  | some p ↦ to_list (Sending.emit p (hop_dest distance next d) d)
]

unfoldable pub forward : Origin → Ddp.Ddp → Router → List Action
unfolding is_back is_free send_to
forward origin d r = if leb max_hops d.hops then [] else elim (best r.tables d.dst.net) [
  | none ↦ []
  | some b ↦
      if is_back origin b.target
      then []
      else send_to b.target b.distance b.next (hop origin b.target d) r
]

unfoldable pub emit : Router → Emit → List Action
unfolding port_at forward
emit r (on id dest d) = elim (port_at id r.ports) [
  | none ↦ []
  | some p ↦ to_list (Sending.emit p dest d)
]
emit r (route d) = forward made_here d r

unfoldable pub emit_all : Router → List Emit → List Action
unfolding emit
emit_all r [] = []
emit_all r (e ∷ es) = emit r e ++ emit_all r es

-- The zones that a line names.
abbrev pub held : Tables → ℕ → List Name
held t net = elim (zones t net) [ none ↦ [] | some z ↦ z.names ]

-- The peers hear of the changes, and each is a line.
unfoldable pub changed : List RouteChange → Router → Router × List Action
changed cs r = (
  record r { peers = record r.peers { peers = AurpPeers.route_changed cs r.tables r.peers.peers } },
  map (λ c. log (route_moved c (held r.tables c.range.0))) cs,
)

abbrev pub arrival_port : Origin → List Port → Option Port
arrival_port (Origin.port id) ports = port_at id ports
arrival_port (Origin.peer ip) ports = none
arrival_port made_here ports = none

-- Network 0 means the cable that the datagram came off.
unfoldable pub placed : Option Port → Ddp.Ddp → Ddp.Ddp
placed none d = d
placed (some p) d = record d {
  dst = if d.dst.net == 0 then record d.dst { net = p.range.0 } else d.dst;
  src = if d.src.net == 0 then record d.src { net = p.range.0 } else d.src;
}

-- Node 0 is any router on the network and 255 is everybody.
unfoldable pub for_us : Port → Ddp.Ddp → Bool
for_us q d = d.dst.node == 0 || (d.dst.node == 255 || is_some_and q.node (λ n. d.dst.node == n))

unfoldable pub serve : Origin → Port → Ddp.Ddp → DdpBody → ℕ → Router → Router × List Action
unfolding changed emit_all
serve origin q d body now r =
    let s = handle r.local.name (arrival_port origin r.ports) q r.ports d body r.tables now in
    let (r', lines) = changed s.changes (record r { tables = s.tables }) in
    (r', lines ++ emit_all r' s.emits)

unfoldable pub arrived : Origin → Ddp.Ddp → DdpBody → ℕ → Router → Router × List Action
unfolding placed owner forward for_us serve
arrived origin ddp body now r =
    if not (ddp.length == 13 + length ddp.bytes)
    then (r, [])
    else let d = placed (arrival_port origin r.ports) ddp in
      elim (owner d.dst.net r.ports) [
        | none ↦ (r, forward origin d r)
        | some q ↦
            let us = for_us q d in
            let (r', acts) = if us then serve origin q d body now r else (r, []) in
            (r', acts ++ (if d.dst.node == 255 || not us then forward origin d r' else []))
      ]

-- `step` for a packet off the tunnel's socket.
unfoldable pub step_aurp : ℕ → List ℕ → ℕ → Router → Router × List Action
unfolding changed arrived
step_aurp from bytes now r =
    let o = AurpPeers.packet from bytes r.tables now r.peers in
    let (r', lines) = changed o.chs (record r { peers = o.peers; tables = o.tables }) in
    elim o.ddp [
      | none ↦ (r', o.acts ++ lines)
      | some ddp ↦ elim (Ddp.parse ddp) [
        | none ↦ (r', o.acts ++ lines)
        | some d ↦
            let (r'', acts) = arrived (Origin.peer from) d (decode_ddp_body d) now r' in
            (r'', o.acts ++ (lines ++ acts))
      ]
    ]
