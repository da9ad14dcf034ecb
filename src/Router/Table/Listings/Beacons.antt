-- ===== src/Router/Table/Listings/Beacons.antt =====
-- What goes out to neighbours and peers (src/router/table.rs, `tuples_for` and `export`).
use mathlib.Core.Bool.{decide_iff}
use appletalk.Prelude.{
  ◌↔◌, ℕ, ◌<◌, ◌≡◌, ◌≢◌, refl, sym, ap, ◌∙◌, ◌⊎◌, inl, inr, Bool, true, false, ◌&&◌, Option, none,
  some, ◌==◌, arith, In, filter, Bool-cases, is_some_and, ◌>>=◌, >>=-eq-some, In-filter_map,
  filter_map-In, In-filter, any-In, find-In, All-In,
}
use appletalk.Wire.Rtmp.{NetworkTuple}
use appletalk.Router.{Target, port, Target-discrete}
use appletalk.Router.Table.{
  Tables, Route, usable, tuple, is_port, best_for_start, zones_at, complete, pick, incumbent,
}
use appletalk.Router.Table.Best.{pick_loop-Selected, Selected-In, pick_loop-none}
use appletalk.Router.Table.Settle.{starts, exportable, target_eq}
use appletalk.Router.Table.Updates.Local.{In-starts_where}
use appletalk.Router.Table.Listings.{announced, beacon_tuple, tuples_for, export}

pub best_for_start-In :
    (t : Tables) (s : ℕ) (r : Route)
    → best_for_start t s ≡ some r
    → In r t.routes × (usable r.state ≡ true) × (r.range.0 ≡ s)
unfolding best_for_start pick
best_for_start-In t s r e =
    let here : Route → Bool = λ r. r.range.0 == s in
    let (i, q) =
      Selected-In (incumbent t) here r t.routes
        (pick_loop-Selected (incumbent t) here t.routes r e) in
    (i, ground (arith, q), ground (arith, q))

best_for_start-unusable :
    (t : Tables) (s : ℕ) (r : Route)
    → best_for_start t s ≡ none
    → In r t.routes
    → r.range.0 ≡ s
    → usable r.state ≡ false
unfolding best_for_start pick
best_for_start-unusable t s r e i h =
    let none_here = pick_loop-none (incumbent t) (λ r. r.range.0 == s) t.routes e in
    let q = All-In (λ r. (usable r.state && r.range.0 == s) ≡ false) r t.routes none_here i in
    ground (arith, q)

pub In-starts : (t : Tables) (r : Route) → In r t.routes → In r.range.0 (starts t)
unfolding starts
In-starts t r i =
    In-starts_where t (λ r. true) r.range.0
      (any-In (λ q. q.range.0 == r.range.0) r t.routes i (ground arith))

-- What a beacon says of an entry: its distance while it is the best of its range and below 15, and 31
-- where no entry of the range is usable.
abbrev pub Beacons : Tables → ℕ → NetworkTuple → Route → Type 0
Beacons t p u r =
    In r t.routes
    × (r.target ≢ port p)
    × (u.range ≡ r.range)
    × (u.extended ≡ r.extended)
    × (((best_for_start t r.range.0 ≡ some r) × (u.distance ≡ r.distance) × (u.distance < 15))
        ⊎ ((best_for_start t r.range.0 ≡ none) × (u.distance ≡ 31)))

target_eq-false : (a b : Target) → target_eq a b ≡ false → a ≢ b
target_eq-false a b e h = cc (e, (decide_iff (Target-discrete a b)).1 h)

abbrev FromEntry : ℕ → NetworkTuple → Route → Type 0
FromEntry p u r =
    (target_eq r.target (port p) ≡ false) × (u.range ≡ r.range) × (u.extended ≡ r.extended)

beacon_tuple-usable :
    (p : ℕ) (u : NetworkTuple) (r : Route)
    → usable r.state ≡ true
    → beacon_tuple p r ≡ some u
    → FromEntry p u r × (u.distance ≡ r.distance) × (u.distance < 15)
unfolding beacon_tuple
beacon_tuple-usable p u r h e = ground arith

beacon_tuple-unusable :
    (p : ℕ) (u : NetworkTuple) (r : Route)
    → usable r.state ≡ false
    → beacon_tuple p r ≡ some u
    → FromEntry p u r × (u.distance ≡ 31)
unfolding beacon_tuple
beacon_tuple-unusable p u r h e = ground arith

beacon_of :
    (t : Tables) (p s : ℕ) (u : NetworkTuple) (o : Option Route)
    → best_for_start t s ≡ o
    → (r : Route) → announced t s ≡ some r
    → beacon_tuple p r ≡ some u
    → Beacons t p u r
unfolding announced
beacon_of t p s u none e r a b =
    let (i, h) = find-In (λ r. r.range.0 == s) t.routes r (rw (e, announced) at a) in
    let here : r.range.0 ≡ s = ground arith in
    let (f, d) = beacon_tuple-unusable p u r (best_for_start-unusable t s r e i here) b in
    (i, target_eq-false _ _ f.0, f.1, f.2, inr (rw here e, d))
beacon_of t p s u (some r') e r a b =
    let q : some r' ≡ some r = rw (e, announced) at a in
    let same : r' ≡ r = cc in
    let (i, live, here) = best_for_start-In t s r (e ∙ ap some same) in
    let (f, d, lt) = beacon_tuple-usable p u r live b in
    (
      i,
      target_eq-false _ _ f.0,
      f.1,
      f.2,
      inl (ap (best_for_start t) here ∙ e ∙ ap some same, d, lt),
    )

-- Every tuple of a port's beacon comes from an entry that is not reached through that port. It has
-- the entry's distance, below 15, where that is the best of its range, and 31 where the range has no
-- usable entry.
pub tuples_for-Beacons :
    (t : Tables) (p : ℕ) (u : NetworkTuple) → In u (tuples_for t p) → (r : Route) × Beacons t p u r
unfolding tuples_for
tuples_for-Beacons t p u i =
    let (s, _, e) = In-filter_map _ u (starts t) i in
    let (r, a, b) = >>=-eq-some (announced t s) (beacon_tuple p) u e in
    (r, beacon_of t p s u (best_for_start t s) refl r a b)

announced-best :
    (t : Tables) (s : ℕ) (r : Route) → best_for_start t s ≡ some r → announced t s ≡ some r
unfolding announced
announced-best t s r e = rw (e, announced)

beacon_tuple-best :
    (p : ℕ) (r : Route)
    → target_eq r.target (port p) ≡ false
    → usable r.state ≡ true
    → r.distance < 15
    → beacon_tuple p r ≡ some (tuple r)
unfolding beacon_tuple
beacon_tuple-best p r n live d = ground arith

-- The best route of a range is in the beacon of every port but its own, while its distance is below 15.
pub tuples_for_complete :
    (t : Tables) (p s : ℕ) (r : Route)
    → best_for_start t s ≡ some r
    → r.target ≢ port p
    → r.distance < 15
    → In (tuple r) (tuples_for t p)
unfolding tuples_for
tuples_for_complete t p s r e n d =
    let (i, live, here) = best_for_start-In t s r e in
    filter_map-In _ s (tuple r) (starts t) (rw here at (In-starts t r i))
      (rw (announced-best t s r e, ◌>>=◌) (beacon_tuple-best p r (target_eq-ne _ _ n) live d))
  where
    target_eq-ne : (a b : Target) → a ≢ b → target_eq a b ≡ false
    target_eq-ne a b h = elim (Bool-cases (target_eq a b)) [
      | inl q ↦ absurd (h ((decide_iff (Target-discrete a b)).0 q))
      | inr q ↦ q
    ]

-- What an AURP peer may be told of a range.
abbrev pub IsExport : Tables → NetworkTuple → Route → Type 0
IsExport t u r =
    (best_for_start t u.range.0 ≡ some r)
    × (u ≡ tuple r)
    × (is_port r.target ≡ true)
    × (r.distance < 15)
    × (is_some_and (zones_at t u.range.0) (λ z. complete z.1) ≡ true)

exportable-parts :
    (t : Tables) (s : ℕ) (r : Route)
    → best_for_start t s ≡ some r
    → (exportable t s ≡ true) ↔ (
        (is_port r.target ≡ true)
        × (r.distance < 15)
        × (is_some_and (zones_at t s) (λ z. complete z.1) ≡ true))
unfolding exportable
exportable-parts t s r e = rw (e, exportable) (λ h. ground arith, λ h. ground arith)

export-IsExport : (t : Tables) (u : NetworkTuple) → In u (export t) → (r : Route) × IsExport t u r
unfolding export
export-IsExport t u i =
    let (s, j, e) = In-filter_map _ u (filter (exportable t) (starts t)) i in
    let (r, b, q) = >>=-eq-some (best_for_start t s) (λ r. some (tuple r)) u e in
    let (_, _, here) = best_for_start-In t s r b in
    let x = (exportable-parts t s r b).0 ((In-filter (exportable t) s (starts t)).0 j).1 in
    let at_s : u.range.0 ≡ s = ground (arith, q) in
    (r, (rw at_s b, ground (arith, q), x.0, x.1, rw at_s x.2))

IsExport-export : (t : Tables) (u : NetworkTuple) (r : Route) → IsExport t u r → In u (export t)
unfolding export
IsExport-export t u r (b, q, p, d, z) =
    let (i, _, here) = best_for_start-In t u.range.0 r b in
    filter_map-In _ u.range.0 u _
      ((In-filter (exportable t) u.range.0 (starts t)).1
        (rw here at (In-starts t r i), (exportable-parts t u.range.0 r b).1 (p, d, z)))
      (rw (b, ◌>>=◌) (ap some (sym q)))

-- What an AURP peer is told: the best routes out of our ports, below distance 15, of the ranges whose
-- zones are complete, and nothing else.
pub export_iff : (t : Tables) (u : NetworkTuple) → In u (export t) ↔ ((r : Route) × IsExport t u r)
export_iff t u = (export-IsExport t u, λ (r, x). IsExport-export t u r x)
