-- ===== src/Router/Core/Steps.antt =====
-- src/router/mod.rs: `step` for a frame off a link. A port's clock is in milliseconds, the tables' in
-- seconds.
use appletalk.Prelude.{ℕ, none, some, List, [], ◌∷◌, ◌++◌, ◌==◌, if◌then◌else◌}
use appletalk.Wire.Llap.{Llap}
use appletalk.Wire.Packet as Packet
use appletalk.Wire.Packet.{decode_ddp_body}
use appletalk.Router.Actions.{Action}
use appletalk.Router.Ports.{Port, Kind}
use appletalk.Router.Ports.Inbound.{Inbound, handled, ignore, inbound_ether, inbound_llap}
use appletalk.Router.Core.{Router, Origin, port_at, arrived}

-- The port of the same number, changed.
unfoldable pub set_port : Port → List Port → List Port
set_port p [] = []
set_port p (q ∷ ports) = let rest = set_port p ports in if q.id == p.id then p ∷ ports else q ∷ rest

-- A datagram that a port lifted, with the body that the frame was decoded to.
unfoldable pub lifted_ether : ℕ → Inbound → Packet.Body → ℕ → Router → Router × List Action
unfolding arrived
lifted_ether id (Inbound.ddp d) (Packet.aarp a) now r = (r, [])
lifted_ether id (Inbound.ddp d) (Packet.ddp e body) now r = arrived (Origin.port id) d body now r
lifted_ether id (Inbound.ddp d) Packet.Body.unknown now r = (r, [])
lifted_ether id handled body now r = (r, [])
lifted_ether id ignore body now r = (r, [])

unfoldable pub lifted_llap : ℕ → Inbound → ℕ → Router → Router × List Action
unfolding arrived
lifted_llap id (Inbound.ddp d) now r = arrived (Origin.port id) d (decode_ddp_body d) now r
lifted_llap id handled now r = (r, [])
lifted_llap id ignore now r = (r, [])

module _ (seed : ℕ → Kind → ℕ → ℕ → ℕ) where
  unfoldable pub step_ether : ℕ → Packet.Packet → ℕ → ℕ → Router → Router × List Action
  unfolding set_port lifted_ether inbound_ether
  step_ether id pkt now_ms now r = elim (port_at id r.ports) [
    | none ↦ (r, [])
    | some p ↦
        let (inbound, p', out) = inbound_ether seed pkt now_ms p in
        let (r', acts) =
          lifted_ether id inbound pkt.body now (record r { ports = set_port p' r.ports }) in
        (r', out ++ acts)
  ]

  unfoldable pub step_llap : ℕ → Llap → ℕ → ℕ → Router → Router × List Action
  unfolding set_port lifted_llap inbound_llap
  step_llap id llap now_ms now r = elim (port_at id r.ports) [
    | none ↦ (r, [])
    | some p ↦
        let (inbound, p', out) = inbound_llap seed llap now_ms p in
        let (r', acts) = lifted_llap id inbound now (record r { ports = set_port p' r.ports }) in
        (r', out ++ acts)
  ]
