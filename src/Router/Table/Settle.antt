-- ===== src/Router/Table/Settle.antt =====
-- src/router/table.rs: `starts_where`, `snapshot`, `exportable` and `settle`, which every change of the
-- routes ends with.
pub mod Incumbents
pub mod Reports
pub mod Memory
use appletalk.Prelude.{
  ℕ, Bool, true, false, not, ◌&&◌, ◌||◌, decide, Option, none, some, List, [], ◌∷◌, ◌++◌, map, ltb,
  ◌==◌, if◌then◌else◌, is_some_and, any, ℕ_discrete,
}
use appletalk.Prelude.Maps.{insert, remove}
use appletalk.Router.{Target, Target-discrete}
use appletalk.Router.Table.{
  Tables, Route, Changed, key, complete, zones_at, is_port, best_for_start,
}

-- Distinct range starts of the routes that match `f`, in the order the routes were learned.
unfoldable pub starts_loop : (Route → Bool) → List Route → List ℕ → List ℕ
starts_loop f [] out = out
starts_loop f (r ∷ rs) out =
    starts_loop f rs
      (if f r && not (any (λ s. s == r.range.0) out) then out ++ r.range.0 ∷ [] else out)

unfoldable pub starts_where : Tables → (Route → Bool) → List ℕ
starts_where t f = starts_loop f t.routes []

unfoldable pub starts : Tables → List ℕ
starts t = starts_where t (λ r. true)

unfoldable pub snapshot : Tables → List ℕ → List (Option Route)
snapshot t = map (best_for_start t)

unfoldable pub exportable : Tables → ℕ → Bool
exportable t start =
    is_some_and (best_for_start t start) (λ r. is_port r.target && ltb r.distance 15)
    && is_some_and (zones_at t start) (λ z. complete z.1)

abbrev pub target_eq : Target → Target → Bool
target_eq a b = decide (Target-discrete a b)

-- Whether the best route moved: its existence, its target or its distance.
unfoldable pub changed : Option Route → Option Route → Bool
changed none none = false
changed (some a) (some b) = not (target_eq a.target b.target) || not (a.distance == b.distance)
changed none (some b) = true
changed (some a) none = true

abbrev pub record_best : Tables → ℕ → Option Route → Tables
record_best t start none = record t { best = remove ℕ_discrete start t.best }
record_best t start (some r) = record t { best = insert ℕ_discrete start (key r) t.best }

-- A zone list goes with the last route of its range.
unfoldable pub drop_zones : Tables → ℕ → Tables
drop_zones t start =
    if any (λ r. r.range.0 == start) t.routes
    then t
    else record t { zones = remove ℕ_discrete start t.zones; best = remove ℕ_discrete start t.best }

abbrev pub change_range : ℕ → Option Route → Option Route → ℕ × ℕ
change_range start old (some r) = r.range
change_range start (some r) none = r.range
change_range start none none = (start, start)

unfoldable pub settle_one : Tables → ℕ → Option Route → Changed
settle_one t start old =
    let new = best_for_start t start in
    (
      drop_zones (record_best t start new) start,
      if changed old new
          then record { range = change_range start old new; old = old; new = new } ∷ []
          else [],
    )

-- Recompute the best route for each touched start and report the ranges where it moved.
unfoldable pub settle : Tables → List ℕ → List (Option Route) → Changed
settle t [] olds = (t, [])
settle t (s ∷ ss) [] = (t, [])
settle t (s ∷ ss) (old ∷ olds) =
    let (t', out) = settle_one t s old in let (t'', rest) = settle t' ss olds in (t'', out ++ rest)
