-- ===== src/Router/Ports/Sending.antt =====
-- src/router/ports.rs: a datagram framed for a port's link. Where the map of hardware addresses is
-- searched, the order of the list stands for the map's order.
use appletalk.Prelude.{
  ℕ, ℕ_discrete, true, not, ◌&&◌, ◌||◌, decide, Option, none, some, List, ◌==◌, leb, find,
  if◌then◌else◌,
}
use appletalk.Prelude.Maps.{get}
use appletalk.Wire.{Addr, Addr-discrete}
use appletalk.Wire.Ddp as Ddp
use appletalk.Wire.Frame.{Frame, MacAddr}
use appletalk.Wire.Frame as WireFrame
use appletalk.Wire.Llap.{Llap, llap_short_ddp, llap_long_ddp}
use appletalk.Wire.Zip.Atp.{zone_multicast}
use appletalk.Router.Actions.{Action, to_ether, to_llap}
use appletalk.Router.Emits.{Dest}
use appletalk.Router.Ports.{Port, Kind, ether}

unfoldable pub MacAddr-discrete : Discrete MacAddr
MacAddr-discrete = hlevel ℕ_discrete

abbrev pub broadcast_mac : MacAddr
broadcast_mac = record { m0 = 9; m1 = 0; m2 = 7; m3 = 255; m4 = 255; m5 = 255 }

unfoldable pub frame : MacAddr → MacAddr → ℕ → List ℕ → Frame
frame src dst proto payload = record {
  dst = dst;
  src = src;
  proto = proto;
  snap = true;
  payload = payload;
}

unfoldable pub mac_for : List (Addr × MacAddr) → Addr → MacAddr
mac_for amt dst =
    if dst.node == 255
    then broadcast_mac
    else elim (get Addr-discrete dst amt) [ none ↦ broadcast_mac | some m ↦ m ]

-- A next hop is known under its own address on the cable, not under the far network.
unfoldable pub mac_for_node : Port → ℕ → ℕ → MacAddr
unfolding mac_for
mac_for_node p node net =
    let exact = mac_for p.amt (record { net = net; node = node }) in
    if not (decide (MacAddr-discrete exact broadcast_mac))
    then exact
    else elim (find (λ e. e.0.node == node && (leb p.range.0 e.0.net && leb e.0.net p.range.1))
        p.amt) [ none ↦ broadcast_mac | some e ↦ e.1 ]

abbrev pub ether_dst : Port → Dest → Ddp.Ddp → MacAddr
ether_dst p (Dest.node n) ddp = mac_for_node p n ddp.dst.net
ether_dst p Dest.broadcast ddp = broadcast_mac
ether_dst p (Dest.zone z) ddp = zone_multicast z

abbrev pub llap_dst : Dest → ℕ
llap_dst (Dest.node n) = n
llap_dst Dest.broadcast = 255
llap_dst (Dest.zone z) = 255

-- The short header only where both ends are on the one network that it leaves unsaid.
unfoldable pub to_llap_frame : Port → ℕ → Dest → Ddp.Ddp → Llap
to_llap_frame p node dest ddp =
    let short = ddp.src.net == p.range.0 && (ddp.dst.net == p.range.0 || ddp.dst.net == 0) in
    record {
      dst = llap_dst dest;
      src = node;
      typ = if short then llap_short_ddp else llap_long_ddp;
      bytes = if short then Ddp.to_short_bytes ddp else Ddp.encode ddp;
    }

unfoldable pub emit_on : Kind → Port → ℕ → Dest → Ddp.Ddp → Action
unfolding to_llap_frame mac_for_node frame
emit_on (ether mac) p node dest ddp =
    to_ether p.id (frame mac (ether_dst p dest ddp) WireFrame.ddp (Ddp.encode ddp))
emit_on Kind.ltoudp p node dest ddp = to_llap p.id (to_llap_frame p node dest ddp)
emit_on Kind.tashtalk p node dest ddp = to_llap p.id (to_llap_frame p node dest ddp)

-- `Port::emit`: none until the port holds a node.
unfoldable pub emit : Port → Dest → Ddp.Ddp → Option Action
unfolding emit_on
emit p dest ddp = elim p.node [ none ↦ none | some node ↦ some (emit_on p.kind p node dest ddp) ]
