-- ===== src/Router/Core/Hops.antt =====
-- src/router/mod.rs: how far a datagram goes, whatever the routers' tables say.
use appletalk.Prelude.{
  ℕ, ◌+◌, ◌*◌, ◌/◌, ◌%◌, ◌≤◌, ◌<◌, ◌≡◌, refl, ap, inl, inr, Option, none, some, List, [], ◌∷◌, ◌==◌,
  ◌&&◌, ◌||◌, if◌then◌else◌, length, In, arith, Bool-cases,
}
use appletalk.Prelude.Bytes.{bit_and_15}
use appletalk.Wire.{Addr}
use appletalk.Wire.Ddp as Ddp
use appletalk.Wire.Ddp.RoundTrip.{first_byte}
use appletalk.Wire.Llap.{llap_long_ddp}
use appletalk.Router.{Target}
use appletalk.Router.Actions.{Action, to_ether, to_llap, to_peer, set_node, log}
use appletalk.Router.Emits.{Dest}
use appletalk.Router.Ports.{Port, Kind, ether}
use appletalk.Router.Ports.Sending as Sending
use appletalk.Router.Aurp.Peers as AurpPeers
use appletalk.Router.Core.{
  Origin, Router, forward, hop, hop_dest, max_hops, is_free, placed, port_at,
}
use appletalk.Router.Core.Sent.{forward-IsSent, SentTo, send_to-SentTo}

-- The datagram that a cable's other routers read from what a router sends on it. LocalTalk's short
-- header has no hop count, and is for datagrams that stay on their cable.
abbrev pub heard : Action → Option Ddp.Ddp
heard (to_ether id frame) = Ddp.parse frame.payload
heard (to_llap id llap) = if llap.typ == llap_long_ddp then Ddp.parse llap.bytes else none
heard (to_peer ip bytes) = none
heard (set_node id n) = none
heard (log line) = none

-- A path of routers, each of which has the datagram off the cable at one of its ports and forwards it.
-- The next router hears what this one sends, bytes and all.
abbrev pub Travels : List (Router × ℕ) → Ddp.Ddp → Type 0
Travels [] d = Unit
Travels ((r, id) ∷ path) d =
    (a : Action) × (d' : Ddp.Ddp) × In a
      (forward (Origin.port id) (placed (port_at id r.ports) d) r)
    × (heard a ≡ some d')
    × Travels path d'

-- The hop count on the wire is its low four bits.
hops-parse-encode :
    (d d' : Ddp.Ddp) → d.hops ≤ max_hops → Ddp.parse (Ddp.encode d) ≡ some d' → d'.hops ≡ d.hops
unfolding Ddp.parse Ddp.encode
hops-parse-encode d d' h e =
    let len : ℕ = (13 + length d.bytes) % 65536 in
    let first = first_byte d.hops len (omega arith) in
    let low = bit_and_15 ((d.hops * 4 + len / 256 % 4) / 4) (omega arith) in
    let read = ap hops_of e in omega (arith, low, rw first at read)
  where
    hops_of : Option Ddp.Ddp → ℕ
    hops_of none = 0
    hops_of (some x) = x.hops

to_llap_frame-heard :
    (p : Port) (node : ℕ) (dest : Dest) (d d' : Ddp.Ddp)
    → heard (to_llap p.id (Sending.to_llap_frame p node dest d)) ≡ some d'
    → Ddp.parse (Ddp.encode d) ≡ some d'
unfolding Sending.to_llap_frame
to_llap_frame-heard p node dest d d' e =
    elim (Bool-cases (d.src.net == p.range.0 && (d.dst.net == p.range.0 || d.dst.net == 0))) [
      | inl f ↦ let h : none ≡ some d' = rw f at e in cc
      | inr f ↦ rw f at e
    ]

emit_on-heard :
    (k : Kind) (p : Port) (node : ℕ) (dest : Dest) (d d' : Ddp.Ddp)
    → heard (Sending.emit_on k p node dest d) ≡ some d'
    → Ddp.parse (Ddp.encode d) ≡ some d'
unfolding Sending.emit_on Sending.to_llap_frame Sending.frame
emit_on-heard (ether mac) p node dest d d' e = e
emit_on-heard Kind.ltoudp p node dest d d' e = to_llap_frame-heard p node dest d d' e
emit_on-heard Kind.tashtalk p node dest d d' e = to_llap_frame-heard p node dest d d' e

SentTo-heard :
    (t : Target) (distance : ℕ) (next : Addr) (d d' : Ddp.Ddp) (r : Router) (a : Action)
    → SentTo t distance next d r a
    → heard a ≡ some d'
    → Ddp.parse (Ddp.encode d) ≡ some d'
unfolding AurpPeers.forward
SentTo-heard (Target.peer ip) distance next d d' r a s e = let h : none ≡ some d' = rw s at e in cc
SentTo-heard (Target.port id) distance next d d' r a (p, _, s) e =
    emit_on-heard p.kind p s.node (hop_dest distance next d) d d' (rw s.framed at e)

hops-placed : (p : Option Port) (d : Ddp.Ddp) → (placed p d).hops ≡ d.hops
unfolding placed
hops-placed none d = refl
hops-placed (some p) d = refl

-- Off one cable onto another, a datagram is heard with one hop more.
forward_hops :
    (id : ℕ) (d d' : Ddp.Ddp) (r : Router) (a : Action)
    → In a (forward (Origin.port id) d r)
    → heard a ≡ some d'
    → (d.hops < max_hops) × (d'.hops ≡ d.hops + 1)
unfolding is_free
forward_hops id d d' r a i e =
    let s = forward-IsSent (Origin.port id) d r a i in
    let b = s.route in
    let d'' = hop (Origin.port id) b.target d in
    let k =
      SentTo-heard b.target b.distance b.next d'' d' r a
        (send_to-SentTo b.target b.distance b.next d'' r a s.sent) e in
    let h = s.hops in (h, hops-parse-encode d'' d' (omega (arith, h)) k)

-- A datagram whose hop count is at most 15 is forwarded from cable to cable, each router reading what
-- the one before sent under the extended header, by no more than 15 routers less its hop count,
-- whatever the tables of the routers are, also where they lead round in a loop.
pub travels_lem :
    (path : List (Router × ℕ)) (d : Ddp.Ddp)
    → Travels path d
    → d.hops ≤ max_hops
    → d.hops + length path ≤ max_hops
travels_lem [] d t l = omega arith
travels_lem ((r, id) ∷ path) d (a, d', i, e, t) l =
    let p = hops-placed (port_at id r.ports) d in
    let (h, q) = forward_hops id (placed (port_at id r.ports) d) d' r a i e in
    let rest = travels_lem path d' t (omega (arith, p, h, q)) in omega (arith, p, q, rest)
