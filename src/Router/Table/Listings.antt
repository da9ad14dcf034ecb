-- ===== src/Router/Table/Listings.antt =====
-- src/router/table.rs: the methods of `Tables` that list routes and zones, and `add_zones`.
pub mod Beacons
pub mod Names
pub mod Zones
use appletalk.Prelude.{
  ℕ, ◌+◌, Bool, true, false, not, ◌&&◌, Option, none, some, List, [], ◌∷◌, ◌++◌, leb, ◌==◌,
  if◌then◌else◌, ◌>>=◌, is_some, is_some_and, any, find, filter, filter_map, ℕ_discrete,
}
use appletalk.Prelude.Maps.{insert}
use appletalk.Wire.{Name}
use appletalk.Wire.Rtmp.{NetworkTuple}
use appletalk.Router.{Target, port}
use appletalk.Router.Table.{
  Tables, Route, RouteChange, Changed, ZoneList, usable, tuple, direct, complete, zones_at,
  best_for_start,
}
use appletalk.Router.Table.Settle.{starts, exportable, target_eq}

-- The best route of a range, or any of its entries where all have gone bad.
unfoldable pub announced : Tables → ℕ → Option Route
announced t start = elim (best_for_start t start) [
  | some r ↦ some r
  | none ↦ find (λ r. r.range.0 == start) t.routes
]

-- Split horizon; bad entries at distance 31, and good ones only below 15.
unfoldable pub beacon_tuple : ℕ → Route → Option NetworkTuple
beacon_tuple p r =
    if target_eq r.target (port p)
    then none
    else if not (usable r.state)
    then some (record (tuple r) { distance = 31 })
    else if leb 15 r.distance
    then none
    else some (tuple r)

unfoldable pub tuples_for : Tables → ℕ → List NetworkTuple
tuples_for t p = filter_map (λ s. announced t s >>= beacon_tuple p) (starts t)

-- What an AURP peer may learn.
unfoldable pub export : Tables → List NetworkTuple
export t =
    filter_map (λ s. best_for_start t s >>= λ r. some (tuple r)) (filter (exportable t) (starts t))

unfoldable pub zones : Tables → ℕ → Option ZoneList
zones t start = zones_at t start >>= λ z. some z.1

unfoldable pub to_ascii_lowercase : ℕ → ℕ
to_ascii_lowercase c = if leb b'A' c && leb c b'Z' then c + 32 else c

unfoldable pub eq_ignore_ascii_case : Name → Name → Bool
unfolding to_ascii_lowercase
eq_ignore_ascii_case [] [] = true
eq_ignore_ascii_case [] (d ∷ ds) = false
eq_ignore_ascii_case (c ∷ cs) [] = false
eq_ignore_ascii_case (c ∷ cs) (d ∷ ds) =
    (to_ascii_lowercase c == to_ascii_lowercase d) && eq_ignore_ascii_case cs ds

abbrev pub holds : List Name → Name → Bool
holds names n = any (λ h. eq_ignore_ascii_case h n) names

-- The names that are not held yet go to the end, one after the other.
unfoldable pub extend_names : List Name → List Name → List Name
extend_names held [] = held
extend_names held (n ∷ ns) = extend_names (if holds held n then held else held ++ n ∷ []) ns

abbrev pub zone_entry : Tables → ℕ → ZoneList
zone_entry t start = elim (zones_at t start) [
  | none ↦ record { names = []; expected = none }
  | some z ↦ z.1
]

unfoldable pub extended_list : ZoneList → List Name → Option ℕ → ZoneList
unfolding extend_names
extended_list z names expected = record {
  names = extend_names z.names names;
  expected = if is_some expected then expected else z.expected;
}

unfoldable pub put_zones : Tables → ℕ → ℕ → List Name → Option ℕ → Tables
unfolding extended_list
put_zones t start end names expected = record t {
  zones = insert ℕ_discrete start (end, extended_list (zone_entry t start) names expected) t.zones;
}

-- An addition when the network has just become exportable.
unfoldable pub added : Tables → Tables → ℕ → Option Route → List RouteChange
added t t' start none = []
added t t' start (some b) =
    if not (exportable t start) && exportable t' start
    then record { range = b.range; old = none; new = some b } ∷ []
    else []

unfoldable pub add_zones : Tables → ℕ → List Name → Option ℕ → Changed
unfolding put_zones added
add_zones t start names expected = elim (find (λ r. r.range.0 == start) t.routes) [
  | none ↦ (t, [])
  | some r ↦
      let t' = put_zones t start r.range.1 names expected in
      (t', added t t' start (best_for_start t' start))
]

abbrev pub complete_at : Tables → ℕ → Bool
complete_at t start = is_some_and (zones_at t start) (λ z. complete z.1)

unfoldable pub in_zone : Tables → Name → ℕ → Bool
in_zone t zone start = is_some_and (zones_at t start) (λ z. complete z.1 && holds z.1.names zone)

unfoldable pub nets_in_zone : Tables → Name → List (ℕ × Target)
nets_in_zone t zone =
    filter_map (λ s. best_for_start t s >>= λ r. some (s, r.target))
      (filter (in_zone t zone) (starts t))

-- Networks still missing zones, with the best route to ask; our own are skipped.
unfoldable pub zoneless : Tables → List Route
zoneless t =
    filter (λ r. not (direct r))
      (filter_map (best_for_start t) (filter (λ s. not (complete_at t s)) (starts t)))

-- The names of one range, if its list is there and complete.
unfoldable pub gather : Option (ℕ × ZoneList) → List Name → List Name
gather none out = out
gather (some z) out = if complete z.1 then extend_names out z.1.names else out

unfoldable pub all_zones_loop : Tables → List ℕ → List Name → List Name
all_zones_loop t [] out = out
all_zones_loop t (s ∷ ss) out = all_zones_loop t ss (gather (zones_at t s) out)

-- Every zone name of the complete lists, without duplicates, in first-seen order.
unfoldable pub all_zones : Tables → List Name
unfolding all_zones_loop gather extend_names
all_zones t = all_zones_loop t (starts t) []
