-- ===== src/Router/Table/Updates/OwnNetworks.antt =====
-- The networks of our own ports survive learning and aging (src/router/table.rs).
use appletalk.Prelude.{
  ℕ, ◌<◌, ◌≡◌, ◌⊎◌, inl, inr, refl, Bool, true, false, List, [], ◌∷◌, ◌++◌, arith, any, All,
  All-append, All-intro, Bool-cases, leb, In, filter,
}
use appletalk.Wire.{Addr}
use appletalk.Wire.Rtmp.{NetworkTuple}
use appletalk.Router.{Target}
use appletalk.Router.Table.{Tables, Route, direct, overlaps}
use appletalk.Router.Table.Updates.{
  conflicts, same_entry, remove_first, modify_first, replace_entry, new_entry, learn_routes, learn,
}
use appletalk.Router.Table.Updates.Ranges.{learn_keeps, All-remove_first, All-modify_first}

abbrev pub own : List Route → List Route
own = filter direct

-- The guard lets no tuple through to an entry of our own.
abbrev IsForeign : (Route → Bool) → Route → Type 0
IsForeign p r = p r ≡ true → direct r ≡ false

own-remove_first :
    (p : Route → Bool) (rs : List Route) → All (IsForeign p) rs → own (remove_first p rs) ≡ own rs
unfolding remove_first
own-remove_first p [] h = refl
own-remove_first p (r ∷ rs) (h, hs) = ground (arith, own-remove_first p rs hs)

own-modify_first :
    (p : Route → Bool) (f : Route → Route) (rs : List Route)
    → ((r : Route) → direct r ≡ false → direct (f r) ≡ false)
    → All (IsForeign p) rs
    → own (modify_first p f rs) ≡ own rs
unfolding modify_first
own-modify_first p f [] k h = refl
own-modify_first p f (r ∷ rs) k (h, hs) =
    let kr = k r in ground (arith, kr, own-modify_first p f rs k hs)

own-append_one : (rs : List Route) (n : Route) → direct n ≡ false → own (rs ++ n ∷ []) ≡ own rs
own-append_one [] n e = ground arith
own-append_one (r ∷ rs) n e = ground (arith, own-append_one rs n e)

foreign :
    (range : ℕ × ℕ) (target : Target) (next : Addr) (rs : List Route)
    → any (conflicts range) rs ≡ false
    → All (IsForeign (same_entry range target next)) rs
unfolding conflicts same_entry
foreign range target next [] e = tt
foreign range target next (r ∷ rs) e =
    (λ s. ground arith, foreign range target next rs (ground arith))

replace_entry-direct :
    (tup : NetworkTuple) (now : ℕ) (r : Route)
    → direct r ≡ false
    → direct (replace_entry tup now r) ≡ false
unfolding replace_entry direct
replace_entry-direct tup now r e = ground arith

own-learn_routes :
    (rs : List Route) (tup : NetworkTuple) (target : Target) (next : Addr) (now : ℕ)
    → any (conflicts tup.range) rs ≡ false
    → own (learn_routes rs tup target next now) ≡ own rs
unfolding learn_routes
own-learn_routes rs tup target next now e = ground (
  arith,
  own-remove_first (same_entry tup.range target next) rs (foreign tup.range target next rs e),
  own-modify_first (same_entry tup.range target next) (replace_entry tup now) rs
      (replace_entry-direct tup now) (foreign tup.range target next rs e),
  own-append_one rs (new_entry tup target next now) (unfold new_entry direct in ground arith),
)

-- Two ranges with no network in common.
abbrev pub Apart : ℕ × ℕ → ℕ × ℕ → Type 0
Apart a b = (a.1 < b.0) ⊎ (b.1 < a.0)

-- An entry of other routers, if it is not one of those that were there before, shares no network with
-- an entry of our own.
abbrev pub IsBeside : List Route → Route → Type 0
IsBeside before r = In r before ⊎ All (λ q. (direct q ≡ false) ⊎ Apart q.range r.range) before

conflicts-Apart :
    (range : ℕ × ℕ) (rs : List Route)
    → any (conflicts range) rs ≡ false
    → All (λ q. (direct q ≡ false) ⊎ Apart q.range range) rs
unfolding conflicts overlaps
conflicts-Apart range [] e = tt
conflicts-Apart range (r ∷ rs) e = (one, conflicts-Apart range rs (ground arith))
  where
    one : (direct r ≡ false) ⊎ Apart r.range range
    one = elim (Bool-cases (direct r)) [
      | inl d ↦ inr (elim (Bool-cases (leb r.range.0 range.1)) [
        | inl l ↦ inl (ground arith)
        | inr l ↦ inr (ground arith)
      ])
      | inr d ↦ inl d
    ]

same_entry-range :
    (range : ℕ × ℕ) (target : Target) (next : Addr) (r : Route)
    → same_entry range target next r ≡ true
    → r.range ≡ range
unfolding same_entry
same_entry-range range target next r p = ground arith

All-IsBeside : (rs : List Route) → All (IsBeside rs) rs
All-IsBeside rs = All-intro (IsBeside rs) rs (λ r i. inl i)

IsBeside-learn_routes :
    (rs : List Route) (tup : NetworkTuple) (target : Target) (next : Addr) (now : ℕ)
    → any (conflicts tup.range) rs ≡ false
    → All (IsBeside rs) (learn_routes rs tup target next now)
unfolding learn_routes replace_entry
IsBeside-learn_routes rs tup target next now e =
    let apart = conflicts-Apart tup.range rs e in
    let kept = All-IsBeside rs in
    ground (
      arith,
      All-remove_first (same_entry tup.range target next) (IsBeside rs) rs kept,
      All-modify_first (same_entry tup.range target next) (IsBeside rs) (replace_entry tup now) rs
          (λ r p _. inr (rw (same_entry-range tup.range target next r p) apart)) kept,
      All-append (IsBeside rs) rs (new_entry tup target next now ∷ []) kept
          (inr (unfold new_entry in apart), tt),
    )

-- `learn` neither adds, removes nor changes an entry of a network of our own, and every entry that it
-- adds or changes is for networks that no entry of our own has.
pub own-learn :
    (t : Tables) (tup : NetworkTuple) (target : Target) (next : Addr) (now : ℕ)
    → (own (learn t tup target next now).0.routes ≡ own t.routes)
      × All (IsBeside t.routes) (learn t tup target next now).0.routes
own-learn t tup target next now = (
  learn_keeps (λ rs. own rs ≡ own t.routes) t tup target next now refl
      (own-learn_routes t.routes tup target next now),
  learn_keeps (All (IsBeside t.routes)) t tup target next now (All-IsBeside t.routes)
      (IsBeside-learn_routes t.routes tup target next now),
)
