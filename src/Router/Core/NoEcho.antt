-- ===== src/Router/Core/NoEcho.antt =====
-- src/router/mod.rs: a datagram never goes back the way it came.
use appletalk.Prelude.{ℕ, ◌≡◌, refl, ap, arith, ◌≢◌, ◌∙◌, false, Option, none, some, ◌==◌, In}
use appletalk.Wire.{Addr}
use appletalk.Wire.Ddp as Ddp
use appletalk.Router.{Target}
use appletalk.Router.Actions.{Action, to_ether, to_llap, to_peer, set_node, log}
use appletalk.Router.Emits.{Dest}
use appletalk.Router.Ports.{Port, Kind, ether}
use appletalk.Router.Ports.Sending as Sending
use appletalk.Router.Aurp.Peers as AurpPeers
use appletalk.Router.Core.{Origin, made_here, Router, forward, hop, hop_dest, is_back}
use appletalk.Router.Core.Sent.{SentTo, send_to-SentTo, forward-IsSent}

-- The port or the tunnel that an action sends on.
abbrev pub action_target : Action → Option Target
action_target (to_ether id frame) = some (Target.port id)
action_target (to_llap id llap) = some (Target.port id)
action_target (to_peer ip bytes) = some (Target.peer ip)
action_target (set_node id n) = none
action_target (log line) = none

==_apart : (a b : ℕ) → (a == b) ≡ false → a ≢ b
==_apart a b e = ground arith

emit_on_target :
    (k : Kind) (p : Port) (node : ℕ) (dest : Dest) (d : Ddp.Ddp)
    → action_target (Sending.emit_on k p node dest d) ≡ some (Target.port p.id)
unfolding Sending.emit_on
emit_on_target (ether mac) p node dest d = refl
emit_on_target Kind.ltoudp p node dest d = refl
emit_on_target Kind.tashtalk p node dest d = refl

SentTo-target :
    (t : Target) (distance : ℕ) (next : Addr) (d : Ddp.Ddp) (r : Router) (a : Action)
    → SentTo t distance next d r a
    → action_target a ≡ some t
unfolding AurpPeers.forward
SentTo-target (Target.peer ip) distance next d r a s = rw s refl
SentTo-target (Target.port id) distance next d r a (p, e, s) =
    rw s.framed (
      emit_on_target p.kind p s.node (hop_dest distance next d) d
      ∙ ap (λ x. some (Target.port x)) e)

-- Where a datagram came in, if it was not made here.
abbrev pub origin_target : Origin → Option Target
origin_target (Origin.port id) = some (Target.port id)
origin_target (Origin.peer ip) = some (Target.peer ip)
origin_target made_here = none

is_back_lem :
    (origin : Origin) (t : Target) → is_back origin t ≡ false → some t ≢ origin_target origin
unfolding is_back
is_back_lem (Origin.port a) (Target.port b) e q =
    let z : b ≡ a = cc in absurd (omega (arith, ==_apart a b e))
is_back_lem (Origin.port a) (Target.peer b) e q = cc
is_back_lem (Origin.peer a) (Target.port b) e q = cc
is_back_lem (Origin.peer a) (Target.peer b) e q =
    let z : b ≡ a = cc in absurd (omega (arith, ==_apart a b e))
is_back_lem made_here t e q = cc

-- Whatever forward sends of a datagram goes out a port or down a tunnel, and never the one that the
-- datagram came in by.
pub forward_never_back :
    (origin : Origin) (d : Ddp.Ddp) (r : Router) (a : Action)
    → In a (forward origin d r)
    → ((t : Target) × (action_target a ≡ some t)) × (action_target a ≢ origin_target origin)
forward_never_back origin d r a i =
    let s = forward-IsSent origin d r a i in
    let b = s.route in
    let goes =
      SentTo-target b.target b.distance b.next (hop origin b.target d) r a
        (send_to-SentTo b.target b.distance b.next (hop origin b.target d) r a s.sent) in
    ((b.target, goes), rw goes (is_back_lem origin b.target s.onward))
