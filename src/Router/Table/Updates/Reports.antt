-- ===== src/Router/Table/Updates/Reports.antt =====
-- What the methods that change the routes report, and what they keep (src/router/table.rs).
use mathlib.Core.Bool.{decide_iff}
use appletalk.Prelude.{
  ℕ, ◌≡◌, refl, ◌⊎◌, ◌↔◌, inl, inr, false, Option, none, some, List, [], ◌∷◌, arith, any, In,
  Bool-cases,
}
use appletalk.Wire.{Addr}
use appletalk.Wire.Rtmp.{NetworkTuple}
use appletalk.Router.{Target, Target-discrete}
use appletalk.Router.Table.{Tables, Route, RouteChange, Changed, best_for_start}
use appletalk.Router.Table.Settle.{
  changed, change_range, starts_where, starts, settle, snapshot, target_eq,
}
use appletalk.Router.Table.Settle.Reports.{moves, settle-moves}
use appletalk.Router.Table.Settle.Memory.{SettledAt, at, SettledAt-settled, best_for_start-settled}
use appletalk.Router.Table.Updates.{conflicts, learn, age, remove_target, remove, set_distance}
use appletalk.Router.Table.Updates.Touched.{
  learn-local, age-local, remove_target-local, remove-local, set_distance-local,
}

-- Two best routes of a start between which nothing moved: neither is there, or both are, with one target
-- and one distance.
abbrev pub IsUnmoved : Option Route → Option Route → Type 0
IsUnmoved none none = Unit
IsUnmoved none (some b) = ⊥
IsUnmoved (some a) none = ⊥
IsUnmoved (some a) (some b) = (a.target ≡ b.target) × (a.distance ≡ b.distance)

-- A change names the range of the new best route, or of the old one where none is left.
abbrev pub RangeOf : ℕ × ℕ → Option Route → Option Route → Type 0
RangeOf range old (some b) = range ≡ b.range
RangeOf range (some a) none = range ≡ a.range
RangeOf range none none = ⊥

-- A report of the best routes of some starts, before and after: in the order of the starts, one change
-- for each that moved, with the old and the new best route, and none for the others.
pub data Reports (t u : Tables) : List ℕ → List RouteChange → Type 0 where
  finished : Reports t u [] []
  unmoved :
      (s : ℕ) (ss : List ℕ) (out : List RouteChange)
      → IsUnmoved (best_for_start t s) (best_for_start u s)
      → Reports t u ss out
      → Reports t u (s ∷ ss) out
  moved :
      (s : ℕ) (ss : List ℕ) (c : RouteChange) (out : List RouteChange)
      → (¬ IsUnmoved (best_for_start t s) (best_for_start u s))
      → c.old ≡ best_for_start t s
      → c.new ≡ best_for_start u s
      → RangeOf c.range c.old c.new
      → Reports t u ss out
      → Reports t u (s ∷ ss) (c ∷ out)

changed_iff : (o n : Option Route) → (changed o n ≡ false) ↔ IsUnmoved o n
unfolding changed
changed_iff none none = (λ e. tt, λ e. refl)
changed_iff none (some b) = (λ e. cc, λ e. absurd e)
changed_iff (some a) none = (λ e. cc, λ e. absurd e)
changed_iff (some a) (some b) =
    let (to, from) = decide_iff (Target-discrete a.target b.target) in
    (λ e. (to (ground arith), ground arith), λ (p, q). let k = from p in ground arith)

IsUnmoved-self : (o : Option Route) → IsUnmoved o o
IsUnmoved-self none = tt
IsUnmoved-self (some r) = (refl, refl)

RangeOf-change_range :
    (s : ℕ) (o n : Option Route) → (¬ IsUnmoved o n) → RangeOf (change_range s o n) o n
RangeOf-change_range s none none h = h tt
RangeOf-change_range s none (some b) h = refl
RangeOf-change_range s (some a) none h = refl
RangeOf-change_range s (some a) (some b) h = refl

Reports-moves : (t u : Tables) (ss : List ℕ) → Reports t u ss (moves t u ss)
Reports-moves t u [] = finished
Reports-moves t u (s ∷ ss) =
    let o = best_for_start t s in
    let n = best_for_start u s in
    let rest = Reports-moves t u ss in
    elim (Bool-cases (changed o n)) [
      | inl e ↦
          let h : ¬ IsUnmoved o n = λ x. let y = (changed_iff o n).1 x in cc in
          rw e (moved s ss _ _ h refl refl (RangeOf-change_range s o n h) rest)
      | inr e ↦ rw e (unmoved s ss _ ((changed_iff o n).0 e) rest)
    ]

-- The moves of the best routes over the touched starts are reported, and the best route of no other
-- start changes.
abbrev pub ReportsMoves : Tables → List ℕ → Changed → Type 0
ReportsMoves t touched (u, out) =
    Reports t u touched out × ((s : ℕ) → In s touched ⊎ (best_for_start u s ≡ best_for_start t s))

-- Every start's incumbent is its best route, and only starts of entries have zones.
abbrev pub IsSettled : Tables → Type 0
IsSettled t = (s : ℕ) → SettledAt t s

-- Any change of the routes that is local to the touched starts and settled over them.
module _ (t : Tables) (rs : List Route) (ss : List ℕ) where
  ReportsMoves-settle :
      ((s : ℕ) → In s ss ⊎ (at s rs ≡ at s t.routes))
      → ReportsMoves t ss (settle (record t { routes = rs }) ss (snapshot t ss))
  ReportsMoves-settle local = (
    rw (settle-moves t (record t { routes = rs }) ss) (Reports-moves t _ ss),
    best_for_start-settled t rs ss local,
  )

-- The calls that change routes already in the tables.
pub data Call : Type 0 where
  learns : NetworkTuple → Target → Addr → ℕ → Call
  ages : ℕ → Call
  removes_target : Target → Call
  removes : Target → ℕ → Call
  sets_distance : Target → ℕ → ℕ → ℕ → Call

unfoldable pub call : Tables → Call → Changed
call t (learns tup target next now) = learn t tup target next now
call t (ages now) = age t now
call t (removes_target target) = remove_target t target
call t (removes target start) = remove t target start
call t (sets_distance target start distance now) = set_distance t target start distance now

-- The starts that a call may touch.
unfoldable pub touched : Tables → Call → List ℕ
touched t (learns tup target next now) = tup.range.0 ∷ []
touched t (ages now) = starts t
touched t (removes_target target) = starts_where t (λ r. target_eq r.target target)
touched t (removes target start) = start ∷ []
touched t (sets_distance target start distance now) = start ∷ []

-- Every change of the routes reports, in order, one change for each touched start whose best route came,
-- went, or has another target or distance than before, with the old and the new best route and its
-- range, and nothing for the other touched starts; the best route of any other start stays.
pub call-ReportsMoves : (t : Tables) (c : Call) → ReportsMoves t (touched t c) (call t c)
unfolding call touched learn age remove_target remove set_distance
call-ReportsMoves t (learns tup target next now) =
    elim (Bool-cases (any (conflicts tup.range) t.routes)) [
      | inl e ↦
          rw e
            (unmoved _ _ _ (IsUnmoved-self (best_for_start t tup.range.0)) finished, λ s. inr refl)
      | inr e ↦ rw e (ReportsMoves-settle t _ _ (learn-local t tup target next now))
    ]
call-ReportsMoves t (ages now) = ReportsMoves-settle t _ _ (age-local t now)
call-ReportsMoves t (removes_target target) =
    ReportsMoves-settle t _ _ (remove_target-local t target)
call-ReportsMoves t (removes target start) = ReportsMoves-settle t _ _ (remove-local t target start)
call-ReportsMoves t (sets_distance target start distance now) =
    ReportsMoves-settle t _ _ (set_distance-local t target start distance now)

-- No such call makes the tables remember a route that is not the best of its start, or zones of a
-- start with no entry left.
pub call-IsSettled : (t : Tables) (c : Call) → IsSettled t → IsSettled (call t c).0
unfolding call learn age remove_target remove set_distance
call-IsSettled t (learns tup target next now) h =
    elim (Bool-cases (any (conflicts tup.range) t.routes)) [
      | inl e ↦ rw e h
      | inr e ↦ rw e (SettledAt-settled t _ _ (learn-local t tup target next now) h)
    ]
call-IsSettled t (ages now) h = SettledAt-settled t _ _ (age-local t now) h
call-IsSettled t (removes_target target) h =
    SettledAt-settled t _ _ (remove_target-local t target) h
call-IsSettled t (removes target start) h = SettledAt-settled t _ _ (remove-local t target start) h
call-IsSettled t (sets_distance target start distance now) h =
    SettledAt-settled t _ _ (set_distance-local t target start distance now) h
