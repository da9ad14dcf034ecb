-- ===== src/Router/Local/Services.antt =====
-- src/router/local.rs: a datagram that is delivered to the router, and the timers' tick.
use appletalk.Prelude.{ℕ, Option, none, some, List, [], ◌∷◌, ◌++◌, is_some, ◌==◌, if◌then◌else◌}
use appletalk.Wire.{Name}
use appletalk.Wire.Ddp.{Ddp}
use appletalk.Wire.Aep as Aep
use appletalk.Wire.Packet as Packet
use appletalk.Router.Table.{Tables}
use appletalk.Router.Table.Listings.{tuples_for}
use appletalk.Router.Ports.{Port}
use appletalk.Router.Emits.{Dest, Emit, route}
use appletalk.Router.Local.{
  Local, from_port, due, to_list, rtmp_socket, nbp_socket, aep_socket, zip_socket, ddp_aep,
  rtmp_interval, zip_query_interval,
}
use appletalk.Router.Local.Rtmp.{Served, answered, rtmp, rtmp_data, advertisable}
use appletalk.Router.Local.Nbp.{nbp}
use appletalk.Router.Local.Zip.{zip, zone_list, zip_queries}

-- The same bytes back to whoever asked.
unfoldable pub echo : Port → Ddp → Aep.Aep → Option Emit
unfolding from_port
echo p ddp a = elim a.func [
  | Aep.reply ↦ none
  | Aep.request ↦
      elim (from_port p aep_socket ddp.src ddp.src_socket ddp_aep
        (Aep.encode (record { func = Aep.reply; bytes = a.bytes }))) [
          | none ↦ none
          | some d ↦ some (route d)
        ]
]

-- RTMP counts only off the cable that it is about.
abbrev pub arrived_here : Option Port → Port → Option Port
arrived_here none concerning = none
arrived_here (some p) concerning = if p.id == concerning.id then some p else none

abbrev pub here : Option Port → Port → Port
here none concerning = concerning
here (some p) concerning = p

-- Each service listens on one socket.
unfoldable pub handle :
    Name → Option Port → Port → List Port → Ddp → Packet.DdpBody → Tables → ℕ → Served
unfolding rtmp zip zone_list nbp echo
handle name arrived_on concerning ports ddp (Packet.rtmp r) tables now =
    if ddp.dst_socket == rtmp_socket
    then elim (arrived_here arrived_on concerning) [
      | none ↦ answered tables []
      | some p ↦ rtmp p ports ddp r tables now
    ]
    else answered tables []
handle name arrived_on concerning ports ddp (Packet.zip z) tables now =
    if ddp.dst_socket == zip_socket
    then zip (here arrived_on concerning) ddp z tables
    else answered tables []
handle name arrived_on concerning ports ddp (Packet.atp a) tables now = answered tables (
    if ddp.dst_socket == zip_socket
    then to_list (zone_list (here arrived_on concerning) ddp a tables)
    else [])
handle name arrived_on concerning ports ddp (Packet.nbp n) tables now = answered tables (
    if ddp.dst_socket == nbp_socket
    then nbp name (here arrived_on concerning) ports ddp n tables
    else [])
handle name arrived_on concerning ports ddp (Packet.aep a) tables now =
    answered tables (if ddp.dst_socket == aep_socket then to_list (echo concerning ddp a) else [])
handle name arrived_on concerning ports ddp Packet.DdpBody.unknown tables now = answered tables []

-- A port that still claims its address stays quiet.
unfoldable pub beacons : List Port → List Port → Tables → List Emit
unfolding advertisable rtmp_data
beacons [] ports tables = []
beacons (p ∷ ps) ports tables =
    (if is_some p.node
      then rtmp_data p Dest.broadcast (record { net = p.range.0; node = 255 }) rtmp_socket
          (advertisable tables ports (tuples_for tables p.id))
      else [])
    ++ beacons ps ports tables

unfoldable pub tick : List Port → Tables → ℕ → Local → Local × List Emit
unfolding due beacons zip_queries
tick ports tables now l =
    let beacon = due l.last_beacon now rtmp_interval in
    let ask = due l.last_query now zip_query_interval in
    (
      record l {
        last_beacon = if beacon then some now else l.last_beacon;
        last_query = if ask then some now else l.last_query;
      },
      (if beacon then beacons ports ports tables else [])
          ++ (if ask then zip_queries ports tables else []),
    )
