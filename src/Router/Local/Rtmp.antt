-- ===== src/Router/Local/Rtmp.antt =====
-- src/router/local.rs: RTMP on our own cables.
use appletalk.Prelude.{
  ℕ, zero, suc, ◌+◌, Bool, true, false, not, ◌&&◌, ◌||◌, decide, Option, none, some, List, [], ◌∷◌,
  ◌++◌, map, any, filter, ◌==◌, ltb, is_some_and, if◌then◌else◌,
}
use appletalk.Wire.{Addr, Addr-discrete}
use appletalk.Wire.Ddp.{Ddp}
use appletalk.Wire.Rtmp.{NetworkTuple, Rtmp, routes, request, rdr, ddp_type, encode}
use appletalk.Router.{port}
use appletalk.Router.Table.{Tables, Changed, RouteChange, complete, same_range}
use appletalk.Router.Table.Updates.{learn}
use appletalk.Router.Table.Listings.{tuples_for, zones}
use appletalk.Router.Ports.{Port, port_addr, extended}
use appletalk.Router.Emits.{Dest, Emit, on}
use appletalk.Router.Local.{datagram, rtmp_socket, ddp_max}
use appletalk.Router.Aurp.Pages.{tuple_size, is_empty}

-- A port's number is a byte, so 256 units of fuel try them all.
unfoldable pub free_id : ℕ → ℕ → List Port → Option ℕ
free_id zero id ports = none
free_id (suc fuel) id ports =
    let rest = free_id fuel (id + 1) ports in if any (λ p. p.id == id) ports then rest else some id

-- A number that no port has, so that no route is left out for it.
unfoldable pub no_port : List Port → ℕ
unfolding free_id
no_port ports = elim (free_id 256 0 ports) [ none ↦ 255 | some id ↦ id ]

abbrev pub is_advertisable : Tables → List Port → NetworkTuple → Bool
is_advertisable tables ports t =
    any (λ p. same_range p.range t.range) ports || is_some_and (zones tables t.range.0) complete

-- A network with no complete zone list is not announced, except one of our own.
unfoldable pub advertisable : Tables → List Port → List NetworkTuple → List NetworkTuple
advertisable tables ports tuples = filter (is_advertisable tables ports) tuples

-- The packet under way and the bytes that it has.
unfoldable pub chunk_loop :
    Addr → Option (ℕ × ℕ) → ℕ → List NetworkTuple → ℕ → List NetworkTuple → List Rtmp
chunk_loop sender range base batch size [] = routes sender range batch ∷ []
chunk_loop sender range base batch size (t ∷ ts) =
    elim (ltb ddp_max (size + tuple_size t) && not (is_empty batch)) [
      | true ↦
          routes sender range batch ∷ chunk_loop sender range base (t ∷ []) (base + tuple_size t) ts
      | false ↦ chunk_loop sender range base (batch ++ t ∷ []) (size + tuple_size t) ts
    ]

-- The sender's four bytes, then the range or the version marker.
abbrev pub base_size : Option (ℕ × ℕ) → ℕ
base_size none = 7
base_size (some range) = 10

unfoldable pub chunk : Addr → Option (ℕ × ℕ) → List NetworkTuple → List Rtmp
unfolding chunk_loop
chunk sender range tuples = chunk_loop sender range (base_size range) [] (base_size range) tuples

unfoldable pub rtmp_data : Port → Dest → Addr → ℕ → List NetworkTuple → List Emit
unfolding port_addr extended chunk datagram
rtmp_data p dest dst dst_socket tuples = elim (port_addr p) [
  | none ↦ []
  | some sender ↦
      map (λ r. on p.id dest (datagram sender rtmp_socket dst dst_socket (ddp_type r) (encode r)))
        (chunk sender (if extended p then some p.range else none) tuples)
]

-- Back to whoever asked, on the port that it asked over.
unfoldable pub data_to : Port → Ddp → List NetworkTuple → List Emit
unfolding rtmp_data
data_to p ddp tuples = rtmp_data p (Dest.node ddp.src.node) ddp.src ddp.src_socket tuples

-- What a service hands back, with the tables as it leaves them.
pub record Served : Type 0 where
  pub emits : List Emit
  pub tables : Tables
  pub changes : List RouteChange

abbrev pub answered : Tables → List Emit → Served
answered tables emits = record { emits = emits; tables = tables; changes = [] }

abbrev pub told_tables : Changed → Served
told_tables c = record { emits = []; tables = c.0; changes = c.1 }

unfoldable pub learn_heard : ℕ → Addr → ℕ → List NetworkTuple → Tables → Changed
unfolding learn
learn_heard id sender now [] t = (t, [])
learn_heard id sender now (n ∷ ns) t =
    let first = learn t n (port id) sender now in
    let rest = learn_heard id sender now ns first.0 in (rest.0, first.1 ++ rest.1)

abbrev pub is_own : Port → Addr → Bool
is_own p sender = is_some_and (port_addr p) (λ a. decide (Addr-discrete sender a))

unfoldable pub rtmp : Port → List Port → Ddp → Rtmp → Tables → ℕ → Served
unfolding learn_heard data_to advertisable no_port port_addr
rtmp p ports ddp (routes sender range tuples) tables now =
    if is_own p sender
    then answered tables []
    else told_tables (learn_heard p.id sender now tuples tables)
rtmp p ports ddp request tables now = answered tables (data_to p ddp [])
rtmp p ports ddp (rdr split_horizon) tables now =
    let tuples =
      if split_horizon then tuples_for tables p.id else tuples_for tables (no_port ports) in
    answered tables (data_to p ddp (advertisable tables ports tuples))
