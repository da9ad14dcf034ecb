-- ===== src/Router/Table/Updates/Aging.antt =====
-- The validity timer (src/router/table.rs, `age`).
use appletalk.Prelude.{
  ℕ, ◌+◌, ◌≤◌, ◌≡◌, refl, sym, ap, ◌∙◌, inl, inr, Bool, false, not, ◌||◌, List, [], ◌∷◌, arith, All,
  filter, filter_map, Bool-cases,
}
use appletalk.Router.Table.{Tables, Route, State, good, suspect, bad, worst, direct, is_port}
use appletalk.Router.Table.Settle.Reports.{routes-settle}
use appletalk.Router.Table.Updates.{age_route, age}

-- Entries that never age: our own networks, and what a peer announced.
abbrev pub stays : Route → Bool
stays r = direct r || not (is_port r.target)

pub routes-age : (t : Tables) (now : ℕ) → (age t now).0.routes ≡ filter_map (age_route now) t.routes
unfolding age
routes-age t now = routes-settle _ _ _

-- The steps that an entry has left before it is deleted.
abbrev steps_left : State → ℕ
steps_left good = 4
steps_left suspect = 3
steps_left bad = 2
steps_left worst = 1

-- An entry that ages, with at most `k` steps left, none of them due later than `now`.
abbrev Expires : ℕ → ℕ → Route → Type 0
Expires k now r = stays r ≡ false → (r.seen + 20 ≤ now) × (steps_left r.state ≤ k)

age-Expires :
    (k now later : ℕ) (rs : List Route)
    → now + 20 ≤ later
    → All (Expires (k + 1) now) rs
    → All (Expires k later) (filter_map (age_route now) rs)
      × (filter stays (filter_map (age_route now) rs) ≡ filter stays rs)
unfolding age_route direct
age-Expires k now later [] h e = (tt, refl)
age-Expires k now later (r ∷ rs) h (e, es) = ground (arith, age-Expires k now later rs h es)

age_tables-Expires :
    (k now later : ℕ) (t : Tables)
    → now + 20 ≤ later
    → All (Expires (k + 1) now) t.routes
    → All (Expires k later) (age t now).0.routes
      × (filter stays (age t now).0.routes ≡ filter stays t.routes)
age_tables-Expires k now later t h e = rw (routes-age t now) (age-Expires k now later t.routes h e)

expired : (now : ℕ) (rs : List Route) → All (Expires 0 now) rs → filter stays rs ≡ rs
expired now [] e = refl
expired now (r ∷ rs) (e, es) = elim (Bool-cases (stays r)) [
  | inl s ↦ rw s (ap (◌∷◌ r) (expired now rs es))
  | inr s ↦ absurd (overdue r.state (e s).1)
]
  where
    overdue : (s : State) → ¬ (steps_left s ≤ 0)
    overdue good h = omega arith
    overdue suspect h = omega arith
    overdue bad h = omega arith
    overdue worst h = omega arith

fresh_enough :
    (now : ℕ) (rs : List Route)
    → All (λ r. stays r ≡ false → r.seen + 20 ≤ now) rs
    → All (Expires 4 now) rs
fresh_enough now [] h = tt
fresh_enough now (r ∷ rs) (h, hs) = (λ s. (h s, four r.state), fresh_enough now rs hs)
  where
    four : (s : State) → steps_left s ≤ 4
    four good = omega arith
    four suspect = omega arith
    four bad = omega arith
    four worst = omega arith

-- Four expiries of the timer, 20 seconds apart or more, that no confirmation comes between, delete
-- every entry learned from a port and leave our own networks and the peers' entries as they were.
pub four_expiries :
    (t : Tables) (now₁ now₂ now₃ now₄ : ℕ)
    → All (λ r. stays r ≡ false → r.seen + 20 ≤ now₁) t.routes
    → now₁ + 20 ≤ now₂
    → now₂ + 20 ≤ now₃
    → now₃ + 20 ≤ now₄
    → (age (age (age (age t now₁).0 now₂).0 now₃).0 now₄).0.routes ≡ filter stays t.routes
four_expiries t now₁ now₂ now₃ now₄ h h₁ h₂ h₃ =
    let (e₁, k₁) = age_tables-Expires 3 now₁ now₂ t h₁ (fresh_enough now₁ t.routes h) in
    let (e₂, k₂) = age_tables-Expires 2 now₂ now₃ (age t now₁).0 h₂ e₁ in
    let (e₃, k₃) = age_tables-Expires 1 now₃ now₄ (age (age t now₁).0 now₂).0 h₃ e₂ in
    let (e₄, k₄) =
      age_tables-Expires 0 now₄ (now₄ + 20) (age (age (age t now₁).0 now₂).0 now₃).0 (omega arith)
        e₃ in
    sym (expired (now₄ + 20) _ e₄) ∙ k₄ ∙ k₃ ∙ k₂ ∙ k₁
