-- ===== src/Router/Local/Nbp.antt =====
-- src/router/local.rs: NBP, whose lookups are turned round, passed on and answered.
use appletalk.Prelude.{
  ℕ, Bool, true, false, not, ◌&&◌, ◌||◌, decide, ℕ_discrete, Option, none, some, List, [], ◌∷◌,
  ◌++◌, map, filter_map, filter, if◌then◌else◌,
}
use mathlib.Core.List.{List-discrete}
use appletalk.Wire.{Name}
use appletalk.Wire.Ddp.{Ddp}
use appletalk.Wire.Nbp.{Nbp, NbpFunc, NbpTuple, br_rq, lk_up, lk_up_reply, fwd_req, encode}
use appletalk.Router.{Target}
use appletalk.Router.Table.{Tables}
use appletalk.Router.Table.Listings.{nets_in_zone, eq_ignore_ascii_case}
use appletalk.Router.Ports.{Port, port_addr, default_zone, has_zone}
use appletalk.Router.Emits.{Dest, Emit, on, route}
use appletalk.Router.Local.{
  datagram, from_port, direct_port, nbp_socket, ddp_nbp, router_type, router_socket, to_list,
}
use appletalk.Router.Aurp.Pages.{is_empty}

abbrev pub is_text : Name → ℕ → Bool
is_text name c = decide (List-discrete ℕ_discrete name (c ∷ []))

-- `*` and an empty zone both mean the cable's own.
abbrev pub is_here : Name → Bool
is_here zone = is_empty zone || is_text zone b'*'

-- The same tuples under another function code, in the zone.
unfoldable pub retarget : Nbp → NbpFunc → Name → Nbp
retarget n func zone = record {
  func = func;
  id = n.id;
  tuples = map {A = NbpTuple} (λ t. record t { zone = zone }) n.tuples;
}

unfoldable pub lkup : Port → Nbp → Name → Option Emit
unfolding from_port retarget
lkup q n zone =
    elim (from_port q nbp_socket (record { net = 0; node = 255 }) nbp_socket ddp_nbp
      (encode (retarget n lk_up zone))) [
        | none ↦ none
        | some ddp ↦ some (on q.id (Dest.zone zone) ddp)
      ]

-- Node 0 of the range's start is the first router on that network.
unfoldable pub forward_req : Ddp → Nbp → ℕ → Name → Emit
unfolding datagram retarget
forward_req ddp n start zone = route (
    datagram ddp.src ddp.src_socket (record { net = start; node = 0 }) nbp_socket ddp_nbp
      (encode (retarget n fwd_req zone)))

unfoldable pub names_us : Name → Port → NbpTuple → Bool
names_us name p t =
    (is_text t.object b'=' || eq_ignore_ascii_case t.object name)
    && ((is_text t.typ b'=' || eq_ignore_ascii_case t.typ router_type)
        && (is_here t.zone || has_zone p t.zone))

-- To the address in the tuple: the router that relayed the lookup is not the one that waits.
unfoldable pub reply : Name → Port → Nbp → NbpTuple → Option Emit
unfolding names_us from_port port_addr default_zone
reply name p n t = if not (names_us name p t) then none else elim (port_addr p) [
  | none ↦ none
  | some addr ↦
      let tuple : NbpTuple = record {
        addr = addr;
        socket = router_socket;
        enumerator = 0;
        object = name;
        typ = router_type;
        zone = default_zone p;
      } in
      let body : Nbp = record { func = lk_up_reply; id = n.id; tuples = tuple ∷ [] } in
      elim (from_port p nbp_socket t.addr t.socket ddp_nbp (encode body)) [
        | none ↦ none
        | some ddp ↦ some (route ddp)
      ]
]

unfoldable pub ask_net : List Port → Ddp → Nbp → Name → ℕ × Target → Option Emit
unfolding direct_port lkup forward_req
ask_net ports ddp n zone (start, target) = elim (direct_port ports target start) [
  | some q ↦ lkup q n zone
  | none ↦ some (forward_req ddp n start zone)
]

-- What a function code passes on.
unfoldable pub passed_on : NbpFunc → List Port → Ddp → Nbp → Name → Tables → List Emit
unfolding ask_net lkup
passed_on br_rq ports ddp n zone tables =
    filter_map (ask_net ports ddp n zone) (nets_in_zone tables zone)
passed_on fwd_req ports ddp n zone tables =
    filter_map (λ q. lkup q n zone) (filter (λ q. has_zone q zone) ports)
passed_on lk_up ports ddp n zone tables = []
passed_on lk_up_reply ports ddp n zone tables = []

abbrev pub is_reply : NbpFunc → Bool
is_reply lk_up_reply = true
is_reply _ = false

unfoldable pub nbp : Name → Port → List Port → Ddp → Nbp → Tables → List Emit
unfolding passed_on reply default_zone
nbp name p ports ddp n tables = elim n.tuples [
  | [] ↦ []
  | t ∷ ts ↦
      let zone = if is_here t.zone then default_zone p else t.zone in
      if is_reply n.func
      then []
      else passed_on n.func ports ddp n zone tables ++ to_list (reply name p n t)
]
