-- ===== src/Router/Table/Updates/Ranges.antt =====
-- What `learn` keeps of the entries: disjoint ranges, distances that DDP can carry, and our own
-- networks (src/router/table.rs).
use appletalk.Prelude.{
  ℕ, ◌≤◌, ◌≡◌, refl, inl, inr, Bool, true, false, List, [], ◌∷◌, ◌++◌, ◌==◌, arith, any, All,
  All-append, Bool-cases,
}
use appletalk.Wire.{Addr}
use appletalk.Wire.Rtmp.{NetworkTuple}
use appletalk.Router.{Target}
use appletalk.Router.Table.{Tables, Route, same_range, overlaps}
use appletalk.Router.Table.Settle.Reports.{routes-settle}
use appletalk.Router.Table.Updates.{
  conflicts, same_entry, remove_first, modify_first, replace_entry, new_entry, unreachable,
  learn_routes, learn,
}

-- No two entries overlap but those of one range.
abbrev pub Meets : ℕ × ℕ → ℕ × ℕ → Type 0
Meets a b = overlaps a b ≡ true → same_range a b ≡ true

abbrev pub IsDisjoint : List Route → Type 0
IsDisjoint [] = Unit
IsDisjoint (r ∷ rs) = All (λ q. Meets r.range q.range) rs × IsDisjoint rs

routes-learn :
    (t : Tables) (tup : NetworkTuple) (target : Target) (next : Addr) (now : ℕ)
    → any (conflicts tup.range) t.routes ≡ false
    → (learn t tup target next now).0.routes ≡ learn_routes t.routes tup target next now
unfolding learn
routes-learn t tup target next now e = rw e (routes-settle _ _ _)

refused-learn :
    (t : Tables) (tup : NetworkTuple) (target : Target) (next : Addr) (now : ℕ)
    → any (conflicts tup.range) t.routes ≡ true
    → (learn t tup target next now).0 ≡ t
unfolding learn
refused-learn t tup target next now e = rw e

-- A property of the entries that `learn` keeps, its guard in hand.
pub learn_keeps {ℓ} :
    (P : List Route → Type ℓ) (t : Tables) (tup : NetworkTuple) (target : Target) (next : Addr)
    (now : ℕ)
    → P t.routes
    → (any (conflicts tup.range) t.routes ≡ false → P (learn_routes t.routes tup target next now))
    → P (learn t tup target next now).0.routes
learn_keeps P t tup target next now same new =
    elim (Bool-cases (any (conflicts tup.range) t.routes)) [
      | inl e ↦ rw (refused-learn t tup target next now e) same
      | inr e ↦ rw (routes-learn t tup target next now e) (new e)
    ]

module _ (p : Route → Bool) where
  pub All-remove_first {κ} :
      (P : Route → Type κ) (rs : List Route) → All P rs → All P (remove_first p rs)
  unfolding remove_first
  All-remove_first P [] h = tt
  All-remove_first P (r ∷ rs) (h, hs) = elim (Bool-cases (p r)) [
    | inl e ↦ rw e hs
    | inr e ↦ rw e (h, All-remove_first P rs hs)
  ]

  pub All-modify_first {κ} :
      (P : Route → Type κ) (f : Route → Route) (rs : List Route)
      → ((r : Route) → p r ≡ true → P r → P (f r))
      → All P rs
      → All P (modify_first p f rs)
  unfolding modify_first
  All-modify_first P f [] k h = tt
  All-modify_first P f (r ∷ rs) k (h, hs) = elim (Bool-cases (p r)) [
    | inl e ↦ rw e (k r e h, hs)
    | inr e ↦ rw e (h, All-modify_first P f rs k hs)
  ]

  IsDisjoint-remove_first : (rs : List Route) → IsDisjoint rs → IsDisjoint (remove_first p rs)
  unfolding remove_first
  IsDisjoint-remove_first [] d = tt
  IsDisjoint-remove_first (r ∷ rs) (h, d) = elim (Bool-cases (p r)) [
    | inl e ↦ rw e d
    | inr e ↦
        rw e (All-remove_first (λ q. Meets r.range q.range) rs h, IsDisjoint-remove_first rs d)
  ]

  IsDisjoint-modify_first :
      (f : Route → Route) (rs : List Route)
      → ((r : Route) → (f r).range ≡ r.range)
      → IsDisjoint rs
      → IsDisjoint (modify_first p f rs)
  unfolding modify_first
  IsDisjoint-modify_first f [] k d = tt
  IsDisjoint-modify_first f (r ∷ rs) k (h, d) = elim (Bool-cases (p r)) [
    | inl e ↦ rw (e, k r) (h, d)
    | inr e ↦ rw e (
      All-modify_first (λ q. Meets r.range q.range) f rs (λ q _ m. rw (k q) m) h,
      IsDisjoint-modify_first f rs k d,
    )
  ]

IsDisjoint-append_one :
    (rs : List Route) (n : Route)
    → All (λ q. Meets q.range n.range) rs
    → IsDisjoint rs
    → IsDisjoint (rs ++ n ∷ [])
IsDisjoint-append_one [] n m d = (tt, tt)
IsDisjoint-append_one (r ∷ rs) n (m, ms) (h, d) =
    (All-append (λ q. Meets r.range q.range) rs (n ∷ []) h (m, tt), IsDisjoint-append_one rs n ms d)

conflicts-Meets :
    (range : ℕ × ℕ) (rs : List Route)
    → any (conflicts range) rs ≡ false
    → All (λ q. Meets q.range range) rs
unfolding conflicts
conflicts-Meets range [] e = tt
conflicts-Meets range (r ∷ rs) e = (λ o. ground arith, conflicts-Meets range rs (ground arith))

learn_routes-IsDisjoint :
    (rs : List Route) (tup : NetworkTuple) (target : Target) (next : Addr) (now : ℕ)
    → IsDisjoint rs
    → any (conflicts tup.range) rs ≡ false
    → IsDisjoint (learn_routes rs tup target next now)
unfolding learn_routes
learn_routes-IsDisjoint rs tup target next now d e = ground (
  arith,
  IsDisjoint-remove_first (same_entry tup.range target next) rs d,
  IsDisjoint-modify_first (same_entry tup.range target next) (replace_entry tup now) rs
      (λ r. unfold replace_entry in refl) d,
  IsDisjoint-append_one rs (new_entry tup target next now)
      (unfold new_entry in conflicts-Meets tup.range rs e) d,
)

-- `learn` keeps the ranges disjoint: no two entries come to overlap unless their ranges are equal.
pub learn-IsDisjoint :
    (t : Tables) (tup : NetworkTuple) (target : Target) (next : Addr) (now : ℕ)
    → IsDisjoint t.routes
    → IsDisjoint (learn t tup target next now).0.routes
learn-IsDisjoint t tup target next now d =
    learn_keeps IsDisjoint t tup target next now d
      (learn_routes-IsDisjoint t.routes tup target next now d)

abbrev pub IsReachable : Route → Type 0
IsReachable r = r.distance ≤ 15

learn_routes-reach :
    (rs : List Route) (tup : NetworkTuple) (target : Target) (next : Addr) (now : ℕ)
    → All IsReachable rs
    → All IsReachable (learn_routes rs tup target next now)
unfolding learn_routes
learn_routes-reach rs tup target next now h =
    ground
      (arith, All-remove_first (same_entry tup.range target next) IsReachable rs h, kept, added)
  where
    kept :
        (unreachable tup ≡ false)
        → All IsReachable
            (modify_first (same_entry tup.range target next) (replace_entry tup now) rs)
    kept u =
        All-modify_first (same_entry tup.range target next) IsReachable (replace_entry tup now) rs
          (λ r _ i. unfold replace_entry in ground arith) h

    added :
        (unreachable tup ≡ false)
        → (tup.distance == 31) ≡ false
        → All IsReachable (rs ++ new_entry tup target next now ∷ [])
    added u b = All-append IsReachable rs _ h (unfold new_entry in ground arith, tt)

-- `learn` never stores a distance above 15, whatever the tuple says.
pub learn-IsReachable :
    (t : Tables) (tup : NetworkTuple) (target : Target) (next : Addr) (now : ℕ)
    → All IsReachable t.routes
    → All IsReachable (learn t tup target next now).0.routes
learn-IsReachable t tup target next now h =
    learn_keeps (All IsReachable) t tup target next now h
      (λ _. learn_routes-reach t.routes tup target next now h)
