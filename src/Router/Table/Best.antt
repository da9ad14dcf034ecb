-- ===== src/Router/Table/Best.antt =====
-- Which route `pick` returns (src/router/table.rs).
use appletalk.Prelude.{
  ℕ, ◌≤◌, ◌≡◌, ◌≢◌, refl, sym, ◌⊎◌, inl, inr, Bool, true, false, ◌&&◌, not, Option, none, some,
  List, [], ◌∷◌, arith, All, In, Option-cases, filter,
}
use appletalk.Router.Table.{
  Tables, Route, usable, beats, pick_loop, pick, best, contains, incumbent,
}

module _ (inc f : Route → Bool) where
  abbrev pub qualifies : Route → Bool
  qualifies s = usable s.state && f s

  -- `r` stands in the list, beats what qualifies before it, and nothing after it beats it.
  abbrev pub Selected : Route → List Route → Type 0
  Selected r [] = ⊥
  Selected r (x ∷ xs) =
      ((x ≡ r) × (qualifies x ≡ true) × All (λ y. qualifies y ≡ true → beats inc y r ≡ false) xs)
      ⊎ ((qualifies x ≡ true → beats inc r x ≡ true) × Selected r xs)

  beats_trans : (a b c : Route) → beats inc a b ≡ true → beats inc b c ≡ true → beats inc a c ≡ true
  unfolding beats
  beats_trans a b c p q = ground arith

  beats_of_not :
      (a b c : Route) → beats inc a b ≡ true → beats inc c b ≡ false → beats inc a c ≡ true
  unfolding beats
  beats_of_not a b c p q = ground arith

  abbrev Kept : Route → Route → List Route → Type 0
  Kept b r xs =
      ((b ≡ r) × All (λ y. qualifies y ≡ true → beats inc y r ≡ false) xs)
      ⊎ ((beats inc r b ≡ true) × Selected r xs)

  pick_loop-Kept :
      (xs : List Route) (b r : Route) → pick_loop inc f xs (some b) ≡ some r → Kept b r xs
  unfolding pick_loop
  pick_loop-Kept [] b r e = inl (ground arith, tt)
  pick_loop-Kept (x ∷ xs) b r e =
      ground
        (arith, pick_loop-Kept xs x r, pick_loop-Kept xs b r, beats_trans r x b, beats_of_not r b x)

  pub pick_loop-Selected :
      (xs : List Route) (r : Route) → pick_loop inc f xs none ≡ some r → Selected r xs
  unfolding pick_loop
  pick_loop-Selected [] r e = cc
  pick_loop-Selected (x ∷ xs) r e = ground (arith, pick_loop-Kept xs x r, pick_loop-Selected xs r)

  pick_loop_kept :
      (xs : List Route) (r : Route)
      → All (λ y. qualifies y ≡ true → beats inc y r ≡ false) xs
      → pick_loop inc f xs (some r) ≡ some r
  unfolding pick_loop
  pick_loop_kept [] r h = refl
  pick_loop_kept (x ∷ xs) r h = ground (arith, pick_loop_kept xs r)

  pick_loop_beaten :
      (xs : List Route) (b r : Route)
      → beats inc r b ≡ true
      → Selected r xs
      → pick_loop inc f xs (some b) ≡ some r
  unfolding pick_loop
  pick_loop_beaten [] b r h s = elim s [ ]
  pick_loop_beaten (x ∷ xs) b r h s =
      ground (arith, pick_loop_kept xs r, pick_loop_beaten xs b r, pick_loop_beaten xs x r)

  Selected-pick_loop :
      (xs : List Route) (r : Route) → Selected r xs → pick_loop inc f xs none ≡ some r
  unfolding pick_loop
  Selected-pick_loop [] r s = elim s [ ]
  Selected-pick_loop (x ∷ xs) r s =
      ground (arith, pick_loop_kept xs r, pick_loop_beaten xs x r, Selected-pick_loop xs r)

  pub pick_loop-none :
      (xs : List Route) → pick_loop inc f xs none ≡ none → All (λ y. qualifies y ≡ false) xs
  unfolding pick_loop
  pick_loop-none [] e = tt
  pick_loop-none (x ∷ xs) e = ground (arith, pick_loop-none xs, never xs x)
    where
      never : (ys : List Route) (b : Route) → pick_loop inc f ys (some b) ≢ none
      never [] b e = cc
      never (y ∷ ys) b e = ground (arith, never ys y, never ys b)

  pub none-pick_loop :
      (xs : List Route) → All (λ y. qualifies y ≡ false) xs → pick_loop inc f xs none ≡ none
  unfolding pick_loop
  none-pick_loop [] h = refl
  none-pick_loop (x ∷ xs) h = ground (arith, none-pick_loop xs)

  pub pick_loop-filter :
      (xs : List Route) (b : Option Route) → pick_loop inc f xs b ≡ pick_loop inc f (filter f xs) b
  unfolding pick_loop
  pick_loop-filter [] b = refl
  pick_loop-filter (x ∷ xs) b = ground (arith, pick_loop-filter xs b, pick_loop-filter xs (some x))

  -- The shortest of what qualifies, the incumbent among those as short.
  abbrev pub Shortest : Option Route → List Route → Type 0
  Shortest none xs = All (λ s. qualifies s ≡ false) xs
  Shortest (some r) xs =
      In r xs
      × (qualifies r ≡ true)
      × All
          (λ s.
            qualifies s ≡ true
            → (r.distance ≤ s.distance) × (s.distance ≡ r.distance → inc s ≡ true → inc r ≡ true))
          xs

  pub Selected-In : (r : Route) (xs : List Route) → Selected r xs → In r xs × (qualifies r ≡ true)
  Selected-In r [] s = elim s [ ]
  Selected-In r (x ∷ xs) (inl (e, q, h)) = (inl (sym e), rw e at q)
  Selected-In r (x ∷ xs) (inr (h, s)) = let (i, q) = Selected-In r xs s in (inr i, q)

  beaten-All :
      (r : Route) (xs : List Route)
      → All (λ y. qualifies y ≡ true → beats inc y r ≡ false) xs
      → All
          (λ s.
            qualifies s ≡ true
            → (r.distance ≤ s.distance) × (s.distance ≡ r.distance → inc s ≡ true → inc r ≡ true))
          xs
  unfolding beats
  beaten-All r [] h = tt
  beaten-All r (x ∷ xs) (h, hs) = (λ q. (ground arith, λ e i. ground arith), beaten-All r xs hs)

  Selected-All :
      (r : Route) (xs : List Route)
      → Selected r xs
      → All
          (λ s.
            qualifies s ≡ true
            → (r.distance ≤ s.distance) × (s.distance ≡ r.distance → inc s ≡ true → inc r ≡ true))
          xs
  unfolding beats
  Selected-All r [] s = elim s [ ]
  Selected-All r (x ∷ xs) (inl (e, q, h)) =
      (λ _. (ground arith, λ _ i. ground arith), beaten-All r xs h)
  Selected-All r (x ∷ xs) (inr (h, s)) =
      (λ q. (ground arith, λ e i. ground arith), Selected-All r xs s)

  pub pick_loop-Shortest : (xs : List Route) → Shortest (pick_loop inc f xs none) xs
  pick_loop-Shortest xs = elim (Option-cases (pick_loop inc f xs none)) [
    | inl e ↦ rw e (pick_loop-none xs e)
    | inr (r, e) ↦
        let s = pick_loop-Selected xs r e in
        let (i, q) = Selected-In r xs s in rw e (i, q, Selected-All r xs s)
  ]

-- The route that carries traffic to a network: a usable entry whose range contains it, none shorter,
-- and on a tie the incumbent; there is none only where no usable entry contains the network.
pub best-Shortest :
    (t : Tables) (net : ℕ) → Shortest (incumbent t) (λ r. contains r net) (best t net) t.routes
unfolding best pick
best-Shortest t net = pick_loop-Shortest _ _ t.routes

-- Two ways to tell incumbents that order the routes alike.
module _ (inc inc' f : Route → Bool) where
  abbrev pub AgreeOn : Route → Type 0
  AgreeOn r =
      ((x : Route) → f x ≡ true → (inc r && not (inc x)) ≡ true → (inc' r && not (inc' x)) ≡ true)
      × ((y : Route)
          → f y ≡ true
          → (inc y && not (inc r)) ≡ false
          → (inc' y && not (inc' r)) ≡ false)

  beaten-AgreeOn :
      (r : Route) (xs : List Route)
      → AgreeOn r
      → All (λ y. qualifies inc f y ≡ true → beats inc y r ≡ false) xs
      → All (λ y. qualifies inc' f y ≡ true → beats inc' y r ≡ false) xs
  unfolding beats
  beaten-AgreeOn r [] a h = tt
  beaten-AgreeOn r (x ∷ xs) a (h, hs) =
      (λ q. let k = a.1 x in ground (arith, k), beaten-AgreeOn r xs a hs)

  Selected-AgreeOn :
      (r : Route) (xs : List Route) → AgreeOn r → Selected inc f r xs → Selected inc' f r xs
  unfolding beats
  Selected-AgreeOn r [] a s = elim s [ ]
  Selected-AgreeOn r (x ∷ xs) a (inl (e, q, h)) = inl (e, q, beaten-AgreeOn r xs a h)
  Selected-AgreeOn r (x ∷ xs) a (inr (h, s)) =
      inr (λ q. let k = a.0 x in ground (arith, k), Selected-AgreeOn r xs a s)

  pub pick_loop-AgreeOn :
      (xs : List Route)
      → ((r : Route) → pick_loop inc f xs none ≡ some r → AgreeOn r)
      → pick_loop inc' f xs none ≡ pick_loop inc f xs none
  pick_loop-AgreeOn xs a = elim (Option-cases (pick_loop inc f xs none)) [
    | inl e ↦ rw e (none-pick_loop inc' f xs (pick_loop-none inc f xs e))
    | inr (r, e) ↦ rw e (
        Selected-pick_loop inc' f xs r
          (Selected-AgreeOn r xs (a r e) (pick_loop-Selected inc f xs r e)))
  ]
