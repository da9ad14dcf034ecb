-- ===== src/Prelude/Lists.antt =====
-- Lists measured and searched by native numbers and Boolean tests, under the libraries' names.
use Prim.Native.Nat.{ℕ, zero, suc, ◌+◌}
use mathlib.Core.Path.{◌≡◌, refl, sym}
use mathlib.Core.Logic.{◌⊎◌, inl, inr, ◌↔◌}
use mathlib.Core.Bool.{Bool, true, false, ◌||◌}
use mathlib.Core.List.{List, [], ◌∷◌, ◌++◌}
use mathlib.Core.Option.{Option, none, some}
use native.Mathlib.Omega.{arith}
use appletalk.Prelude.Tests.{if◌then◌else◌, Bool-cases, Option-cases}

module _ {ℓ} {A : Type ℓ} where
  abbrev pub length : List A → ℕ
  length [] = 0
  length (x ∷ xs) = suc (length xs)

  abbrev pub drop : ℕ → List A → List A
  drop zero xs = xs
  drop (suc n) [] = []
  drop (suc n) (x ∷ xs) = drop n xs

  abbrev pub take : ℕ → List A → List A
  take zero xs = []
  take (suc n) [] = []
  take (suc n) (x ∷ xs) = x ∷ take n xs

  -- `Iterator::any`, `find`, `filter` and `Vec::retain`.
  abbrev pub any : (A → Bool) → List A → Bool
  any p [] = false
  any p (x ∷ xs) = p x || any p xs

  abbrev pub find : (A → Bool) → List A → Option A
  find p [] = none
  find p (x ∷ xs) = if p x then some x else find p xs

  abbrev pub filter : (A → Bool) → List A → List A
  filter p [] = []
  filter p (x ∷ xs) = if p x then x ∷ filter p xs else filter p xs

  abbrev pub filter_map {κ} : {B : Type κ} → (A → Option B) → List A → List B
  filter_map f [] = []
  filter_map f (x ∷ xs) = elim (f x) [ none ↦ filter_map f xs | some y ↦ y ∷ filter_map f xs ]

  abbrev pub All {κ} : (A → Type κ) → List A → Type κ
  All P [] = Unit
  All P (x ∷ xs) = P x × All P xs

  pub length-append : (xs ys : List A) → length (xs ++ ys) ≡ length xs + length ys
  length-append [] ys = omega arith
  length-append (x ∷ xs) ys = omega (arith, length-append xs ys)

  pub All-append {κ} : (P : A → Type κ) (xs ys : List A) → All P xs → All P ys → All P (xs ++ ys)
  All-append P [] ys hx hy = hy
  All-append P (x ∷ xs) ys hx hy = (hx.0, All-append P xs ys hx.1 hy)

-- The tables' entries stand in `Type 0`.
module _ {A : Type 0} where
  -- Membership by recursion, which the tactics take apart.
  abbrev pub In : A → List A → Type 0
  In a [] = ⊥
  In a (x ∷ xs) = (a ≡ x) ⊎ In a xs

  pub All-intro {κ} : (P : A → Type κ) (xs : List A) → ((a : A) → In a xs → P a) → All P xs
  All-intro P [] h = tt
  All-intro P (x ∷ xs) h = (h x (inl refl), All-intro P xs (λ a i. h a (inr i)))

  pub All-In {κ} : (P : A → Type κ) (a : A) (xs : List A) → All P xs → In a xs → P a
  All-In P a [] h i = elim i [ ]
  All-In P a (x ∷ xs) h (inl e) = rw e h.0
  All-In P a (x ∷ xs) h (inr i) = All-In P a xs h.1 i

  pub In-append_left : (a : A) (xs ys : List A) → In a xs → In a (xs ++ ys)
  In-append_left a [] ys i = absurd i
  In-append_left a (x ∷ xs) ys (inl e) = inl e
  In-append_left a (x ∷ xs) ys (inr i) = inr (In-append_left a xs ys i)

  pub In-append_right : (a : A) (xs ys : List A) → In a ys → In a (xs ++ ys)
  In-append_right a [] ys i = i
  In-append_right a (x ∷ xs) ys i = inr (In-append_right a xs ys i)

  pub In-append : (a : A) (xs ys : List A) → In a (xs ++ ys) → In a xs ⊎ In a ys
  In-append a [] ys i = inr i
  In-append a (x ∷ xs) ys (inl e) = inl (inl e)
  In-append a (x ∷ xs) ys (inr i) = elim (In-append a xs ys i) [
    | inl j ↦ inl (inr j)
    | inr j ↦ inr j
  ]

  pub In-filter :
      (p : A → Bool) (a : A) (xs : List A) → In a (filter p xs) ↔ (In a xs × (p a ≡ true))
  In-filter p a [] = (λ i. absurd i, λ i. i.0)
  In-filter p a (x ∷ xs) = elim (Bool-cases (p x)) [
    | inl e ↦ rw e (
      λ i. elim i [
        | inl q ↦ (inl q, rw q e)
        | inr i ↦ let (j, q) = (In-filter p a xs).0 i in (inr j, q)
      ],
      λ (i, q). elim i [ inl s ↦ inl s | inr j ↦ inr ((In-filter p a xs).1 (j, q)) ],
    )
    | inr e ↦ rw e (
      λ i. let (j, q) = (In-filter p a xs).0 i in (inr j, q),
      λ (i, q). elim i [ inl s ↦ cc | inr j ↦ (In-filter p a xs).1 (j, q) ],
    )
  ]

  pub any-In : (p : A → Bool) (a : A) (xs : List A) → In a xs → p a ≡ true → any p xs ≡ true
  any-In p a [] i e = elim i [ ]
  any-In p a (x ∷ xs) (inl q) e = rw (← q, e)
  any-In p a (x ∷ xs) (inr i) e = ground (arith, any-In p a xs i e)

  pub find-In : (p : A → Bool) (xs : List A) (a : A) → find p xs ≡ some a → In a xs × (p a ≡ true)
  find-In p [] a e = cc
  find-In p (x ∷ xs) a e = elim (Bool-cases (p x)) [
    | inl h ↦ let q : x ≡ a = ground arith in (inl (sym q), rw (← q) h)
    | inr h ↦ let (i, q) = find-In p xs a (ground arith) in (inr i, q)
  ]

module _ {A B : Type 0} (f : A → Option B) where
  pub In-filter_map :
      (b : B) (xs : List A) → In b (filter_map f xs) → (a : A) × In a xs × (f a ≡ some b)
  In-filter_map b [] i = elim i [ ]
  In-filter_map b (x ∷ xs) i = elim (Option-cases (f x)) [
    | inl e ↦ let (a, j, q) = In-filter_map b xs (rw (e, filter_map) at i) in (a, inr j, q)
    | inr (y, e) ↦ elim (rw (e, filter_map) at i) [
      | inl p ↦ (x, inl refl, rw p e)
      | inr i' ↦ let (a, j, q) = In-filter_map b xs i' in (a, inr j, q)
    ]
  ]

  pub filter_map-In :
      (a : A) (b : B) (xs : List A) → In a xs → f a ≡ some b → In b (filter_map f xs)
  filter_map-In a b [] i e = elim i [ ]
  filter_map-In a b (x ∷ xs) (inl p) e =
      let e' : f x ≡ some b = rw p at e in rw (e', filter_map) (inl refl)
  filter_map-In a b (x ∷ xs) (inr i) e =
      elim (f x) as (λ o. In b (elim o [ none ↦ filter_map f xs | some y ↦ y ∷ filter_map f xs ])) [
        | none ↦ filter_map-In a b xs i e
        | some y ↦ inr (filter_map-In a b xs i e)
      ]
