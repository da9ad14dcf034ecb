-- ===== src/Router/Core/Sent.antt =====
-- src/router/mod.rs: the action by which `forward` sends a datagram on.
use appletalk.Prelude.{
  ℕ, ◌<◌, ◌≡◌, arith, inl, inr, false, some, [], ◌∷◌, ◌==◌, leb, In, find-In, Bool-cases,
  Option-cases, ==_iff,
}
use appletalk.Wire.{Addr}
use appletalk.Wire.Ddp as Ddp
use appletalk.Router.{Target}
use appletalk.Router.Actions.{Action}
use appletalk.Router.Emits.{Dest}
use appletalk.Router.Table.{Route, best}
use appletalk.Router.Ports.{Port}
use appletalk.Router.Ports.Sending as Sending
use appletalk.Router.Local.{to_list}
use appletalk.Router.Aurp.Peers as AurpPeers
use appletalk.Router.Core.{
  Origin, Router, forward, hop, hop_dest, send_to, port_at, max_hops, is_back,
}

-- What stands behind an action of `forward`: the best route, which does not lead back, and less hops
-- than the most.
pub record IsSent (origin : Origin) (d : Ddp.Ddp) (r : Router) (a : Action) : Type 0 where
  pub route : Route
  pub chosen : best r.tables d.dst.net ≡ some route
  pub hops : d.hops < max_hops
  pub onward : is_back origin route.target ≡ false
  pub sent : In a (send_to route.target route.distance route.next (hop origin route.target d) r)

pub forward-IsSent :
    (origin : Origin) (d : Ddp.Ddp) (r : Router) (a : Action)
    → In a (forward origin d r)
    → IsSent origin d r a
unfolding forward
forward-IsSent origin d r a i = elim (Bool-cases (leb max_hops d.hops)) [
  | inl e ↦ absurd (rw (e, forward) at i)
  | inr e ↦ elim (Option-cases (best r.tables d.dst.net)) [
    | inl f ↦ absurd (rw (e, f, forward) at i)
    | inr (b, f) ↦ elim (Bool-cases (is_back origin b.target)) [
      | inl g ↦ absurd (rw (e, f, g, forward) at i)
      | inr g ↦ record {
        route = b;
        chosen = f;
        hops = ground arith;
        onward = g;
        sent = rw (e, f, g, forward) at i;
      }
    ]
  ]
]

-- What a port emits is framed for its link.
pub record IsEmitted (p : Port) (dest : Dest) (d : Ddp.Ddp) (a : Action) : Type 0 where
  pub node : ℕ
  pub framed : a ≡ Sending.emit_on p.kind p node dest d

emit-IsEmitted :
    (p : Port) (dest : Dest) (d : Ddp.Ddp) (a : Action)
    → In a (to_list (Sending.emit p dest d))
    → IsEmitted p dest d a
unfolding Sending.emit
emit-IsEmitted p dest d a i = elim (Option-cases p.node) [
  | inl e ↦ absurd (rw (e, Sending.emit) at i)
  | inr (node, e) ↦
      let j : In a (Sending.emit_on p.kind p node dest d ∷ []) = rw (e, Sending.emit) at i in
      elim j [ inl q ↦ record { node = node; framed = q } | inr n ↦ absurd n ]
]

-- To a peer goes what the tunnel wraps, and to a port what the port emits.
abbrev pub SentTo : Target → ℕ → Addr → Ddp.Ddp → Router → Action → Type 0
SentTo (Target.peer ip) distance next d r a = a ≡ AurpPeers.forward ip (Ddp.encode d) r.peers
SentTo (Target.port id) distance next d r a =
    (p : Port) × (p.id ≡ id) × IsEmitted p (hop_dest distance next d) d a

pub send_to-SentTo :
    (t : Target) (distance : ℕ) (next : Addr) (d : Ddp.Ddp) (r : Router) (a : Action)
    → In a (send_to t distance next d r)
    → SentTo t distance next d r a
unfolding send_to port_at
send_to-SentTo (Target.peer ip) distance next d r a (inl q) = q
send_to-SentTo (Target.peer ip) distance next d r a (inr n) = absurd n
send_to-SentTo (Target.port id) distance next d r a i = elim (Option-cases (port_at id r.ports)) [
  | inl e ↦ absurd (rw (e, send_to) at i)
  | inr (p, e) ↦
      let j : In a (to_list (Sending.emit p (hop_dest distance next d) d)) = rw (e, send_to) at i in
      (
        p,
        (==_iff p.id id).0 (find-In (λ q. q.id == id) r.ports p e).1,
        emit-IsEmitted p (hop_dest distance next d) d a j,
      )
]
