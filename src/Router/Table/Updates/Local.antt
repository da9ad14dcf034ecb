-- ===== src/Router/Table/Updates/Local.antt =====
-- Each change of the routes leaves the entries of the starts that it does not touch (src/router/table.rs).
use appletalk.Prelude.{
  ℕ, ◌≡◌, ◌≢◌, refl, ap, inl, inr, Bool, true, false, not, ◌&&◌, some, List, [], ◌∷◌, ◌++◌, map,
  ◌==◌, arith, any, In, filter, filter_map, if◌then◌else◌, Bool-cases, Option-cases,
}
use mathlib.Core.Bool.{false≢true}
use mathlib.Core.List.{append-nil}
use appletalk.Wire.{Addr}
use appletalk.Wire.Rtmp.{NetworkTuple}
use appletalk.Router.{Target}
use appletalk.Router.Table.{Tables, Route}
use appletalk.Router.Table.Settle.{starts_loop, starts_where}
use appletalk.Router.Table.Settle.Memory.{at}
use appletalk.Router.Table.Updates.{
  same_entry, remove_first, modify_first, replace_entry, new_entry, learn_routes, age_route,
}

-- A start that is gathered already stays, and one of the routes' is gathered.
starts_loop_keeps :
    (f : Route → Bool) (s : ℕ) (rs : List Route) (out : List ℕ)
    → any (λ x. x == s) out ≡ true
    → any (λ x. x == s) (starts_loop f rs out) ≡ true
unfolding starts_loop
starts_loop_keeps f s [] out h = h
starts_loop_keeps f s (r ∷ rs) out h =
    starts_loop_keeps f s rs _ (kept (f r && not (any (λ x. x == r.range.0) out)))
  where
    any-append :
        (xs : List ℕ)
        → any (λ x. x == s) xs ≡ true
        → any (λ x. x == s) (xs ++ r.range.0 ∷ []) ≡ true
    any-append [] h = cc
    any-append (x ∷ xs) h = ground (arith, any-append xs)

    kept : (b : Bool) → any (λ x. x == s) (if b then out ++ r.range.0 ∷ [] else out) ≡ true
    kept true = any-append out h
    kept false = h

any-last : (s : ℕ) (xs : List ℕ) → any (λ x. x == s) (xs ++ s ∷ []) ≡ true
any-last s [] = ground arith
any-last s (x ∷ xs) = ground (arith, any-last s xs)

starts_loop_finds :
    (f : Route → Bool) (s : ℕ) (rs : List Route) (out : List ℕ)
    → any (λ r. f r && r.range.0 == s) rs ≡ true
    → any (λ x. x == s) (starts_loop f rs out) ≡ true
unfolding starts_loop
starts_loop_finds f s [] out h = cc
starts_loop_finds f s (r ∷ rs) out h = elim (Bool-cases (f r && r.range.0 == s)) [
  | inl e ↦ starts_loop_keeps f s rs _ (hit (ground arith) (ground arith))
  | inr e ↦ starts_loop_finds f s rs _ (ground arith)
]
  where
    hit :
        f r ≡ true
        → r.range.0 ≡ s
        → any
            (λ x. x == s)
            (if f r && not (any (λ x. x == r.range.0) out) then out ++ r.range.0 ∷ [] else out)
          ≡ true
    hit e p = rw (e, p) (ground (arith, any-last s out))

In-any : (s : ℕ) (xs : List ℕ) → any (λ x. x == s) xs ≡ true → In s xs
In-any s [] h = absurd (false≢true h)
In-any s (x ∷ xs) h = ground (arith, In-any s xs)

pub In-starts_where :
    (t : Tables) (f : Route → Bool) (s : ℕ)
    → any (λ r. f r && r.range.0 == s) t.routes ≡ true
    → In s (starts_where t f)
unfolding starts_where
In-starts_where t f s h = In-any s _ (starts_loop_finds f s t.routes [] h)

pub at-append : (s : ℕ) (xs ys : List Route) → at s (xs ++ ys) ≡ at s xs ++ at s ys
at-append s [] ys = refl
at-append s (x ∷ xs) ys = ground (arith, at-append s xs ys)

at-remove_first :
    (p : Route → Bool) (s : ℕ) (rs : List Route)
    → ((r : Route) → p r ≡ true → r.range.0 ≢ s)
    → at s (remove_first p rs) ≡ at s rs
unfolding remove_first
at-remove_first p s [] h = refl
at-remove_first p s (r ∷ rs) h = let hr = h r in ground (arith, hr, at-remove_first p s rs h)

at-modify_first :
    (p : Route → Bool) (f : Route → Route) (s : ℕ) (rs : List Route)
    → ((r : Route) → p r ≡ true → r.range.0 ≢ s)
    → ((r : Route) → (f r).range.0 ≡ r.range.0)
    → at s (modify_first p f rs) ≡ at s rs
unfolding modify_first
at-modify_first p f s [] h k = refl
at-modify_first p f s (r ∷ rs) h k =
    let hr = h r in let kr = k r in ground (arith, hr, kr, at-modify_first p f s rs h k)

same_entry-start :
    (range : ℕ × ℕ) (target : Target) (next : Addr) (s : ℕ) (r : Route)
    → range.0 ≢ s
    → same_entry range target next r ≡ true
    → r.range.0 ≢ s
unfolding same_entry
same_entry-start range target next s r n h = ground arith

pub at-learn_routes :
    (rs : List Route) (tup : NetworkTuple) (target : Target) (next : Addr) (now s : ℕ)
    → tup.range.0 ≢ s
    → at s (learn_routes rs tup target next now) ≡ at s rs
unfolding learn_routes
at-learn_routes rs tup target next now s n =
    let away = λ (r : Route). same_entry-start tup.range target next s r n in
    ground (
      arith,
      at-remove_first (same_entry tup.range target next) s rs away,
      at-modify_first (same_entry tup.range target next) (replace_entry tup now) s rs away
          (λ r. unfold replace_entry in refl),
      at-append s rs (new_entry tup target next now ∷ []),
      append-nil (at s rs),
    )

age_route-range : (now : ℕ) (r r' : Route) → age_route now r ≡ some r' → r'.range ≡ r.range
unfolding age_route
age_route-range now r r' e = ground arith

-- Aging adds no entry to a start that has none.
pub at-age :
    (now s : ℕ) (rs : List Route)
    → any (λ r. r.range.0 == s) rs ≡ false
    → at s (filter_map (age_route now) rs) ≡ at s rs
at-age now s [] h = refl
at-age now s (r ∷ rs) h = elim (Option-cases (age_route now r)) [
  | inl e ↦ rw (e, filter_map) (ground (arith, at-age now s rs))
  | inr (r', e) ↦
      rw (e, filter_map)
        (ground (arith, at-age now s rs, ap (λ (z : ℕ × ℕ). z.0) (age_route-range now r r' e)))
]

-- So does a filter that drops no entry of the start.
pub at-filter :
    (p : Route → Bool) (s : ℕ) (rs : List Route)
    → any (λ r. p r && r.range.0 == s) rs ≡ false
    → at s (filter (λ r. not (p r)) rs) ≡ at s rs
at-filter p s [] h = refl
at-filter p s (r ∷ rs) h = ground (arith, at-filter p s rs)

pub at-map :
    (p : Route → Bool) (f : Route → Route) (s : ℕ) (rs : List Route)
    → ((r : Route) → p r ≡ true → r.range.0 ≢ s)
    → ((r : Route) → (f r).range.0 ≡ r.range.0)
    → at s (map (λ r. if p r then f r else r) rs) ≡ at s rs
at-map p f s [] h k = refl
at-map p f s (r ∷ rs) h k =
    let hr = h r in let kr = k r in ground (arith, hr, kr, at-map p f s rs h k)
