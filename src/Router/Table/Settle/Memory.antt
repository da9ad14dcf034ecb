-- ===== src/Router/Table/Settle/Memory.antt =====
-- What the tables remember of each range start, and that `settle` keeps it (src/router/table.rs).
use appletalk.Prelude.{
  ℕ, ◌≡◌, ◌≢◌, refl, sym, ap, ◌∙◌, ◌⊎◌, inl, inr, Bool, true, Option, none, some, List, [], ◌∷◌,
  ◌==◌, arith, any, In, filter, is_some, ℕ_discrete,
}
use appletalk.Prelude.Maps.{get, insert, remove, get-insert, get-remove}
use appletalk.Router.Table.{
  Tables, Route, Key, key, zones_at, pick, pick_loop, best_for_start, incumbent,
}
use appletalk.Router.Table.Best.{pick_loop-filter}
use appletalk.Router.Table.Settle.{record_best, drop_zones, settle_one, settle, snapshot}
use appletalk.Router.Table.Settle.Incumbents.{best_for_start_absent}
use appletalk.Router.Table.Settle.Reports.{
  best_for_start-settle_one, best_for_start-settle, routes-settle_one,
}

abbrev pub key_of : Option Route → Option Key
key_of none = none
key_of (some r) = some (key r)

abbrev pub is_known : Tables → ℕ → Bool
is_known t s = any (λ r. r.range.0 == s) t.routes

-- The remembered incumbent of a start is its best route, and only the start of an entry has zones.
pub record SettledAt (t : Tables) (s : ℕ) : Type 0 where
  pub remembered : get ℕ_discrete s t.best ≡ key_of (best_for_start t s)
  pub zoned : is_some (zones_at t s) ≡ true → is_known t s ≡ true

abbrev pub at : ℕ → List Route → List Route
at s = filter (λ r. r.range.0 == s)

abbrev with_routes : Tables → List Route → Tables
with_routes t rs = record t { routes = rs }

any-at : (s : ℕ) (xs : List Route) → any (λ r. r.range.0 == s) xs ≡ any (λ r. true) (at s xs)
any-at s [] = refl
any-at s (x ∷ xs) = ground (arith, any-at s xs)

-- The best route of a start depends on the entries of that start alone.
pub best_for_start-at :
    (t : Tables) (rs : List Route) (s : ℕ)
    → at s rs ≡ at s t.routes
    → best_for_start (with_routes t rs) s ≡ best_for_start t s
unfolding best_for_start pick incumbent
best_for_start-at t rs s e =
    pick_loop-filter (incumbent t) (λ r. r.range.0 == s) rs none
    ∙ ap (λ xs. pick_loop (incumbent t) (λ r. r.range.0 == s) xs none) e
    ∙ sym (pick_loop-filter (incumbent t) (λ r. r.range.0 == s) t.routes none)

SettledAt-at :
    (t : Tables) (rs : List Route) (s : ℕ)
    → at s rs ≡ at s t.routes
    → SettledAt t s
    → SettledAt (with_routes t rs) s
SettledAt-at t rs s e h = record {
  remembered = h.remembered ∙ ap key_of (sym (best_for_start-at t rs s e));
  zoned = λ z. any-at s rs ∙ ap (any (λ r. true)) e ∙ sym (any-at s t.routes) ∙ h.zoned z;
}

-- Settling one start settles it, whatever was remembered, and leaves the other starts.
settle_one-remembered :
    (t : Tables) (s : ℕ) (o : Option Route)
    → best_for_start t s ≡ o
    → get ℕ_discrete s (drop_zones (record_best t s o) s).best ≡ key_of o
unfolding drop_zones
settle_one-remembered t s none e = ground (
  arith,
  get-remove ℕ_discrete s s t.best,
  get-remove ℕ_discrete s s (remove ℕ_discrete s t.best),
)
settle_one-remembered t s (some r) e =
    ground (arith, get-insert ℕ_discrete s s (key r) t.best, best_for_start_absent t s)

settle_one-zoned :
    (t : Tables) (s : ℕ) (o : Option Route)
    → is_some (zones_at (drop_zones (record_best t s o) s) s) ≡ true
    → is_known t s ≡ true
unfolding drop_zones
settle_one-zoned t s none = ground (arith, get-remove ℕ_discrete s s t.zones)
settle_one-zoned t s (some r) = ground (arith, get-remove ℕ_discrete s s t.zones)

settle_one-other :
    (t : Tables) (s s' : ℕ) (o : Option Route)
    → s ≢ s'
    → let u = drop_zones (record_best t s o) s in
      (get ℕ_discrete s' u.best ≡ get ℕ_discrete s' t.best) × (zones_at u s' ≡ zones_at t s')
unfolding drop_zones
settle_one-other t s s' none n = ground (
  arith,
  get-remove ℕ_discrete s s' t.zones,
  get-remove ℕ_discrete s s' t.best,
  get-remove ℕ_discrete s s' (remove ℕ_discrete s t.best),
)
settle_one-other t s s' (some r) n = ground (
  arith,
  get-remove ℕ_discrete s s' t.zones,
  get-insert ℕ_discrete s s' (key r) t.best,
  get-remove ℕ_discrete s s' (insert ℕ_discrete s (key r) t.best),
)

settle_one_self : (t : Tables) (s : ℕ) (old : Option Route) → SettledAt (settle_one t s old).0 s
settle_one_self t s old = record {
  remembered =
      unfold settle_one in
      settle_one-remembered t s (best_for_start t s) refl
      ∙ ap key_of (sym (best_for_start-settle_one t s s old));
  zoned = λ z.
      ap (any (λ r. r.range.0 == s)) (routes-settle_one t s old)
      ∙ unfold settle_one in settle_one-zoned t s (best_for_start t s) z;
}

settle_one_ne :
    (t : Tables) (s s' : ℕ) (old : Option Route)
    → s ≢ s'
    → SettledAt t s'
    → SettledAt (settle_one t s old).0 s'
unfolding settle_one
settle_one_ne t s s' old n h =
    let same = settle_one-other t s s' (best_for_start t s) n in
    record {
      remembered = same.0 ∙ h.remembered ∙ ap key_of (sym (best_for_start-settle_one t s s' old));
      zoned = λ z.
          ap (any (λ r. r.range.0 == s')) (routes-settle_one t s old)
          ∙ h.zoned (sym (ap is_some same.1) ∙ z);
    }

settle_one-SettledAt :
    (t : Tables) (s s' : ℕ) (old : Option Route)
    → (s ≡ s') ⊎ SettledAt t s'
    → SettledAt (settle_one t s old).0 s'
settle_one-SettledAt t s s' old (inl e) = rw (← e) (settle_one_self t s old)
settle_one-SettledAt t s s' old (inr h) = elim (ℕ_discrete s s') [
  | yes e ↦ rw (← e) (settle_one_self t s old)
  | no n ↦ settle_one_ne t s s' old n h
]

-- Settling settles the touched starts and keeps the others.
pub settle-SettledAt :
    (t u : Tables) (ss : List ℕ) (s' : ℕ)
    → In s' ss ⊎ SettledAt u s'
    → SettledAt (settle u ss (snapshot t ss)).0 s'
unfolding settle snapshot
settle-SettledAt t u [] s' (inl i) = elim i [ ]
settle-SettledAt t u [] s' (inr h) = h
settle-SettledAt t u (s ∷ ss) s' (inl (inl e)) =
    settle-SettledAt t (settle_one u s (best_for_start t s)).0 ss s'
      (inr (settle_one-SettledAt u s s' (best_for_start t s) (inl (sym e))))
settle-SettledAt t u (s ∷ ss) s' (inl (inr i)) =
    settle-SettledAt t (settle_one u s (best_for_start t s)).0 ss s' (inl i)
settle-SettledAt t u (s ∷ ss) s' (inr h) =
    settle-SettledAt t (settle_one u s (best_for_start t s)).0 ss s'
      (inr (settle_one-SettledAt u s s' (best_for_start t s) (inr h)))

-- A change of the routes that leaves the starts outside `ss` alone, then settled over `ss`.
module _ (t : Tables) (rs : List Route) (ss : List ℕ)
    (local : (s : ℕ) → In s ss ⊎ (at s rs ≡ at s t.routes)) where
  abbrev settled : Tables
  settled = (settle (with_routes t rs) ss (snapshot t ss)).0

  pub SettledAt-settled : ((s : ℕ) → SettledAt t s) → (s : ℕ) → SettledAt settled s
  SettledAt-settled h s =
      settle-SettledAt t (with_routes t rs) ss s
        (elim (local s) [ inl i ↦ inl i | inr e ↦ inr (SettledAt-at t rs s e (h s)) ])

  -- Outside the starts that the report is over, no best route moves.
  pub best_for_start-settled : (s : ℕ) → In s ss ⊎ (best_for_start settled s ≡ best_for_start t s)
  best_for_start-settled s = elim (local s) [
    | inl i ↦ inl i
    | inr e ↦
        inr (
          best_for_start-settle (with_routes t rs) ss (snapshot t ss) s
          ∙ best_for_start-at t rs s e)
  ]
