-- ===== src/Router/Table/Updates.antt =====
-- src/router/table.rs: the methods of `Tables` that change its routes.
pub mod Local
pub mod Ranges
pub mod OwnNetworks
pub mod Aging
pub mod Touched
pub mod Reports
use appletalk.Prelude.{
  ℕ, ◌+◌, ◌-◌, Bool, not, ◌&&◌, ◌||◌, decide, Option, none, some, List, [], ◌∷◌, ◌++◌, map, ltb,
  leb, ◌==◌, if◌then◌else◌, is_some, any, find, filter, filter_map,
}
use appletalk.Wire.{Addr, Addr-discrete}
use appletalk.Wire.Rtmp.{NetworkTuple}
use appletalk.Router.{Target}
use appletalk.Router.Table.{
  Tables, Route, Changed, good, bad, aged, direct, overlaps, same_range, is_port, validity,
}
use appletalk.Router.Table.Settle.{starts_where, starts, snapshot, settle, target_eq}

-- A tuple that overlaps an entry without matching it, or that is for a network of our own.
unfoldable pub conflicts : ℕ × ℕ → Route → Bool
conflicts range r =
    (not (same_range r.range range) && overlaps r.range range)
    || (same_range r.range range && direct r)

unfoldable pub same_entry : ℕ × ℕ → Target → Addr → Route → Bool
same_entry range target next r =
    same_range r.range range && (target_eq r.target target && decide (Addr-discrete r.next next))

-- `position`, then `remove` or a write at that index: both act on the first match.
unfoldable pub remove_first : (Route → Bool) → List Route → List Route
remove_first p [] = []
remove_first p (r ∷ rs) = if p r then rs else r ∷ remove_first p rs

unfoldable pub modify_first : (Route → Bool) → (Route → Route) → List Route → List Route
modify_first p f [] = []
modify_first p f (r ∷ rs) = if p r then f r ∷ rs else r ∷ modify_first p f rs

-- Replace-Entry: a tuple at distance 31 marks the entry bad and leaves its distance alone.
unfoldable pub replace_entry : NetworkTuple → ℕ → Route → Route
replace_entry t now r = record r {
  extended = t.extended;
  distance = if t.distance == 31 then r.distance else t.distance + 1;
  state = if t.distance == 31 then bad else good;
  seen = now;
}

unfoldable pub new_entry : NetworkTuple → Target → Addr → ℕ → Route
new_entry t target next now = record {
  range = t.range;
  extended = t.extended;
  distance = t.distance + 1;
  target = target;
  next = next;
  state = good;
  seen = now;
}

-- Stored, 15 and more would be 16 hops and more.
abbrev pub unreachable : NetworkTuple → Bool
unreachable t = leb 15 t.distance && not (t.distance == 31)

unfoldable pub learn_routes : List Route → NetworkTuple → Target → Addr → ℕ → List Route
unfolding replace_entry new_entry remove_first modify_first
learn_routes routes t target next now =
    let same = same_entry t.range target next in
    if is_some (find same routes)
    then (if unreachable t
        then remove_first same routes
        else modify_first same (replace_entry t now) routes)
    else (if unreachable t || t.distance == 31
        then routes
        else routes ++ new_entry t target next now ∷ [])

-- The book's "RTMP Data packet received" for one tuple.
unfoldable pub learn : Tables → NetworkTuple → Target → Addr → ℕ → Changed
learn t tup target next now =
    if any (conflicts tup.range) t.routes
    then (t, [])
    else settle (record t { routes = learn_routes t.routes tup target next now }) (tup.range.0 ∷ [])
        (snapshot t (tup.range.0 ∷ []))

-- One pass of the validity timer over one route; `none` deletes it.
unfoldable pub age_route : ℕ → Route → Option Route
age_route now r =
    if direct r || not (is_port r.target)
    then some r
    else if ltb (now - r.seen) validity
    then some r
    else elim (aged r.state) [ some s ↦ some (record r { state = s; seen = now }) | none ↦ none ]

unfoldable pub age : Tables → ℕ → Changed
age t now =
    settle (record t { routes = filter_map (age_route now) t.routes }) (starts t)
      (snapshot t (starts t))

unfoldable pub remove_target : Tables → Target → Changed
remove_target t target =
    let touched = starts_where t (λ r. target_eq r.target target) in
    settle (record t { routes = filter (λ r. not (target_eq r.target target)) t.routes }) touched
      (snapshot t touched)

abbrev pub is_entry : Target → ℕ → Route → Bool
is_entry target start r = target_eq r.target target && r.range.0 == start

unfoldable pub remove : Tables → Target → ℕ → Changed
remove t target start =
    settle (record t { routes = filter (λ r. not (is_entry target start r)) t.routes }) (start ∷ [])
      (snapshot t (start ∷ []))

unfoldable pub redistance : Target → ℕ → ℕ → ℕ → Route → Route
redistance target start distance now r =
    if is_entry target start r then record r { distance = distance; seen = now } else r

unfoldable pub set_distance : Tables → Target → ℕ → ℕ → ℕ → Changed
unfolding redistance
set_distance t target start distance now =
    settle (record t { routes = map (redistance target start distance now) t.routes }) (start ∷ [])
      (snapshot t (start ∷ []))
