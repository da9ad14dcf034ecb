-- ===== src/Router/Table/Updates/Touched.antt =====
-- The starts that a change of the routes touches: the others keep their entries
-- (src/router/table.rs).
use appletalk.Prelude.{
  ℕ, ◌≡◌, ◌≢◌, refl, sym, ◌⊎◌, inl, inr, true, false, not, ◌&&◌, List, [], ◌∷◌, ◌==◌, arith, any,
  In, map, filter, filter_map, Bool-cases, ℕ_discrete,
}
use appletalk.Wire.{Addr}
use appletalk.Wire.Rtmp.{NetworkTuple}
use appletalk.Router.{Target}
use appletalk.Router.Table.{Tables, Route}
use appletalk.Router.Table.Settle.{starts_where, starts, target_eq}
use appletalk.Router.Table.Settle.Memory.{at}
use appletalk.Router.Table.Updates.{learn_routes, age_route, is_entry, redistance}
use appletalk.Router.Table.Updates.Local.{
  In-starts_where, at-learn_routes, at-age, at-filter, at-map,
}

pub learn-local :
    (t : Tables) (tup : NetworkTuple) (target : Target) (next : Addr) (now s : ℕ)
    → In s (tup.range.0 ∷ []) ⊎ (at s (learn_routes t.routes tup target next now) ≡ at s t.routes)
learn-local t tup target next now s = elim (ℕ_discrete s tup.range.0) [
  | yes e ↦ inl (inl e)
  | no n ↦ inr (at-learn_routes t.routes tup target next now s (λ e. n (sym e)))
]

pub age-local :
    (t : Tables) (now s : ℕ)
    → In s (starts t) ⊎ (at s (filter_map (age_route now) t.routes) ≡ at s t.routes)
unfolding starts
age-local t now s = elim (Bool-cases (any (λ r. r.range.0 == s) t.routes)) [
  | inl e ↦ inl (In-starts_where t (λ r. true) s e)
  | inr e ↦ inr (at-age now s t.routes e)
]

pub remove_target-local :
    (t : Tables) (target : Target) (s : ℕ)
    → In s (starts_where t (λ r. target_eq r.target target))
      ⊎ (at s (filter (λ r. not (target_eq r.target target)) t.routes) ≡ at s t.routes)
remove_target-local t target s =
    elim (Bool-cases (any (λ r. target_eq r.target target && r.range.0 == s) t.routes)) [
      | inl e ↦ inl (In-starts_where t _ s e)
      | inr e ↦ inr (at-filter (λ r. target_eq r.target target) s t.routes e)
    ]

absent-entry :
    (target : Target) (start s : ℕ) (rs : List Route)
    → start ≢ s
    → any (λ r. is_entry target start r && r.range.0 == s) rs ≡ false
absent-entry target start s [] n = refl
absent-entry target start s (r ∷ rs) n = ground (arith, absent-entry target start s rs)

pub remove-local :
    (t : Tables) (target : Target) (start s : ℕ)
    → In s (start ∷ [])
      ⊎ (at s (filter (λ r. not (is_entry target start r)) t.routes) ≡ at s t.routes)
remove-local t target start s = elim (ℕ_discrete s start) [
  | yes e ↦ inl (inl e)
  | no n ↦ inr (
      at-filter (is_entry target start) s t.routes
        (absent-entry target start s t.routes (λ e. n (sym e))))
]

pub set_distance-local :
    (t : Tables) (target : Target) (start distance now s : ℕ)
    → In s (start ∷ [])
      ⊎ (at s (map (redistance target start distance now) t.routes) ≡ at s t.routes)
unfolding redistance
set_distance-local t target start distance now s = elim (ℕ_discrete s start) [
  | yes e ↦ inl (inl e)
  | no n ↦ inr (
      at-map (is_entry target start) (λ r. record r { distance = distance; seen = now }) s t.routes
        (λ r p e. n (ground arith)) (λ r. refl))
]
