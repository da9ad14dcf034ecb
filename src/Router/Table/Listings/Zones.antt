-- ===== src/Router/Table/Listings/Zones.antt =====
-- Adding zones to a range (src/router/table.rs, `add_zones`).
use appletalk.Prelude.{
  ℕ, ◌≤◌, ◌<◌, ◌≡◌, ◌≢◌, ◌↔◌, length, refl, sym, ap, ◌∙◌, ◌⊎◌, inl, inr, true, false, Option, none,
  some, List, [], ◌∷◌, ◌==◌, arith, any-In, find, find-In, is_some, Bool-cases, Option-cases,
  ℕ_discrete,
}
use appletalk.Prelude.Maps.{get-insert}
use appletalk.Wire.{Name}
use appletalk.Router.{Target, port, peer}
use appletalk.Router.Table.{
  Tables, Route, RouteChange, ZoneList, complete, is_port, best_for_start, zones_at, pick,
  incumbent,
}
use appletalk.Router.Table.Settle.{exportable}
use appletalk.Router.Table.Settle.Memory.{SettledAt, is_known, key_of}
use appletalk.Router.Table.Updates.Reports.{IsSettled}
use appletalk.Router.Table.Listings.{zone_entry, put_zones, extended_list, added, add_zones}

best_for_start-put_zones :
    (t : Tables) (start end s : ℕ) (names : List Name) (expected : Option ℕ)
    → best_for_start (put_zones t start end names expected) s ≡ best_for_start t s
unfolding put_zones best_for_start pick incumbent
best_for_start-put_zones t start end s names expected = refl

zones_at-put_zones :
    (t : Tables) (start end s : ℕ) (names : List Name) (expected : Option ℕ)
    → start ≢ s
    → zones_at (put_zones t start end names expected) s ≡ zones_at t s
unfolding put_zones
zones_at-put_zones t start end s names expected n = ground (
  arith,
  get-insert ℕ_discrete start s (end, extended_list (zone_entry t start) names expected) t.zones,
)

put_zones-SettledAt :
    (t : Tables) (start end s : ℕ) (names : List Name) (expected : Option ℕ)
    → is_known t start ≡ true
    → SettledAt t s
    → SettledAt (put_zones t start end names expected) s
unfolding put_zones
put_zones-SettledAt t start end s names expected k h = record {
  remembered =
      h.remembered ∙ ap key_of (sym (best_for_start-put_zones t start end s names expected));
  zoned = λ z. elim (ℕ_discrete start s) [
    | yes e ↦ rw e at k
    | no n ↦ h.zoned (sym (ap is_some (zones_at-put_zones t start end s names expected n)) ∙ z)
  ];
}

-- Adding zones keeps the memory of the tables in step with the routes.
pub add_zones-IsSettled :
    (t : Tables) (start : ℕ) (names : List Name) (expected : Option ℕ)
    → IsSettled t
    → IsSettled (add_zones t start names expected).0
unfolding add_zones
add_zones-IsSettled t start names expected h s =
    elim (Option-cases (find (λ r. r.range.0 == start) t.routes)) [
      | inl e ↦ rw (e, add_zones) (h s)
      | inr (r, e) ↦
          let (i, q) = find-In (λ r. r.range.0 == start) t.routes r e in
          rw (e, add_zones)
            (put_zones-SettledAt t start r.range.1 s names expected (any-In _ r t.routes i q) (h s))
    ]

-- A zone list that is filled in: it has a name, and as many as it was said to have.
abbrev pub IsComplete : ZoneList → Type 0
IsComplete z =
    (0 < length z.names)
    × ((z.expected ≡ none) ⊎ ((e : ℕ) × (z.expected ≡ some e) × (e ≤ length z.names)))

-- A range that AURP peers may hear of: its best route leaves by a port at a distance below 15, and its
-- zone list is filled in.
abbrev pub Exported : Tables → ℕ → Route → Type 0
Exported t s b =
    (best_for_start t s ≡ some b)
    × ((p : ℕ) × (b.target ≡ port p))
    × (b.distance < 15)
    × ((end : ℕ) × (z : ZoneList) × (zones_at t s ≡ some (end, z)) × IsComplete z)

abbrev pub IsExported : Tables → ℕ → Type 0
IsExported t s = (b : Route) × Exported t s b

pub complete-IsComplete : (z : ZoneList) → (complete z ≡ true) ↔ IsComplete z
unfolding complete
complete-IsComplete z = (λ e. to z.names z.expected e, λ c. from z.names z.expected c)
  where
    to :
        (ns : List Name) (o : Option ℕ)
        → complete (record { names = ns; expected = o }) ≡ true
        → IsComplete (record { names = ns; expected = o })
    to ns none e = (ground arith, inl refl)
    to ns (some x) e = (ground arith, inr (x, refl, ground arith))

    from :
        (ns : List Name) (o : Option ℕ)
        → IsComplete (record { names = ns; expected = o })
        → complete (record { names = ns; expected = o }) ≡ true
    from ns none c = ground arith
    from ns (some x) (l, inl e) = cc
    from ns (some x) (l, inr (y, e, h)) = ground arith

is_port-port : (t : Target) → is_port t ≡ true → (p : ℕ) × (t ≡ port p)
is_port-port (port p) e = (p, refl)
is_port-port (peer a) e = cc

exportable-IsExported : (t : Tables) (s : ℕ) → exportable t s ≡ true → IsExported t s
unfolding exportable
exportable-IsExported t s e = elim (Option-cases (best_for_start t s)) [
  | inl f ↦ absurd (ground arith)
  | inr (b, f) ↦ elim (Option-cases (zones_at t s)) [
    | inl g ↦ absurd (ground arith)
    | inr (z, g) ↦
        let v : (is_port b.target ≡ true) × (b.distance < 15) × (complete z.1 ≡ true) =
          ground arith in
        (b, (f, is_port-port b.target v.0, v.1, (z.0, z.1, g, (complete-IsComplete z.1).0 v.2)))
  ]
]

IsExported-exportable : (t : Tables) (s : ℕ) → IsExported t s → exportable t s ≡ true
unfolding exportable
IsExported-exportable t s (b, (f, (p, q), d, (end, z, g, c))) =
    let k = (complete-IsComplete z).1 c in rw (f, g, q, k) (ground arith)

not_exportable : (t : Tables) (s : ℕ) → exportable t s ≡ false → ¬ IsExported t s
not_exportable t s e x = let y = IsExported-exportable t s x in cc

-- What `add_zones` reports: an addition, with the best route, when peers may hear of the range now and
-- might not before, and otherwise nothing.
abbrev pub ReportsAddition : Tables → ℕ → Tables × List RouteChange → Type 0
ReportsAddition t start (u, out) =
    ((¬ IsExported t start)
      × ((b : Route) × Exported u start b
          × (out ≡ record { range = b.range; old = none; new = some b } ∷ [])))
    ⊎ ((IsExported t start ⊎ (¬ IsExported u start)) × (out ≡ []))

addition :
    (t u : Tables) (start : ℕ) (o : Option Route)
    → best_for_start u start ≡ o
    → ReportsAddition t start (u, added t u start o)
unfolding added
addition t u start none e = inr (inr (λ (b, x). cc), refl)
addition t u start (some b) e = elim (Bool-cases (exportable t start)) [
  | inl x ↦ inr (inl (exportable-IsExported t start x), ground arith)
  | inr x ↦ elim (Bool-cases (exportable u start)) [
    | inl y ↦
        let (b', v) = exportable-IsExported u start y in
        let same : b' ≡ b = cc in inl (not_exportable t start x, (b', v, rw (x, y, same) refl))
    | inr y ↦ inr (inr (not_exportable u start y), ground arith)
  ]
]

unchanged : (t : Tables) (start : ℕ) → IsExported t start ⊎ (¬ IsExported t start)
unchanged t start = elim (Bool-cases (exportable t start)) [
  | inl e ↦ inl (exportable-IsExported t start e)
  | inr e ↦ inr (not_exportable t start e)
]

-- `add_zones` reports an addition, with the best route, exactly when its zones make the range one that
-- AURP peers may hear of: the best route leaves by a port at a distance below 15, and the zone list has
-- come to be filled in. Otherwise it reports nothing.
pub add_zones_report :
    (t : Tables) (start : ℕ) (names : List Name) (expected : Option ℕ)
    → ReportsAddition t start (add_zones t start names expected)
unfolding add_zones
add_zones_report t start names expected =
    elim (Option-cases (find (λ r. r.range.0 == start) t.routes)) [
      | inl e ↦ rw (e, add_zones) (inr (unchanged t start, refl))
      | inr (r, e) ↦
          let u = put_zones t start r.range.1 names expected in
          rw (e, add_zones) (addition t u start (best_for_start u start) refl)
    ]
