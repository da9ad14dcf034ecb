-- ===== src/Router/Table/Settle/Reports.antt =====
-- What `settle` reports and what it leaves behind (src/router/table.rs).
use appletalk.Prelude.{
  ℕ, ◌≡◌, refl, sym, ap, ◌∙◌, Option, none, some, List, [], ◌∷◌, ◌++◌, arith, if◌then◌else◌,
}
use appletalk.Router.Table.{Tables, Route, RouteChange, best_for_start}
use appletalk.Router.Table.Settle.{
  changed, change_range, record_best, drop_zones, settle_one, settle, snapshot,
}
use appletalk.Router.Table.Settle.Incumbents.{best_for_start-record_best, best_for_start-drop_zones}

pub best_for_start-settle_one :
    (t : Tables) (s s' : ℕ) (old : Option Route)
    → best_for_start (settle_one t s old).0 s' ≡ best_for_start t s'
unfolding settle_one
best_for_start-settle_one t s s' old =
    best_for_start-drop_zones (record_best t s (best_for_start t s)) s s'
    ∙ best_for_start-record_best t s s'

-- Settling moves no best route.
pub best_for_start-settle :
    (t : Tables) (ss : List ℕ) (olds : List (Option Route)) (s' : ℕ)
    → best_for_start (settle t ss olds).0 s' ≡ best_for_start t s'
unfolding settle
best_for_start-settle t [] olds s' = refl
best_for_start-settle t (s ∷ ss) [] s' = refl
best_for_start-settle t (s ∷ ss) (old ∷ olds) s' =
    best_for_start-settle (settle_one t s old).0 ss olds s' ∙ best_for_start-settle_one t s s' old

pub routes-settle_one :
    (t : Tables) (s : ℕ) (old : Option Route) → (settle_one t s old).0.routes ≡ t.routes
unfolding settle_one drop_zones
routes-settle_one t s old = routes-of (best_for_start t s)
  where
    routes-of : (o : Option Route) → (drop_zones (record_best t s o) s).routes ≡ t.routes
    routes-of none = ground arith
    routes-of (some r) = ground arith

pub routes-settle :
    (t : Tables) (ss : List ℕ) (olds : List (Option Route)) → (settle t ss olds).0.routes ≡ t.routes
unfolding settle
routes-settle t [] olds = refl
routes-settle t (s ∷ ss) [] = refl
routes-settle t (s ∷ ss) (old ∷ olds) =
    routes-settle (settle_one t s old).0 ss olds ∙ routes-settle_one t s old

-- The change to report between two best routes of a start.
abbrev pub move : ℕ → Option Route → Option Route → List RouteChange
move s old new =
    if changed old new
    then record { range = change_range s old new; old = old; new = new } ∷ []
    else []

-- The changes between two states of the tables, over the starts in order.
abbrev pub moves : Tables → Tables → List ℕ → List RouteChange
moves t u [] = []
moves t u (s ∷ ss) = move s (best_for_start t s) (best_for_start u s) ++ moves t u ss

pub moves_cong :
    (t u v : Tables) (ss : List ℕ)
    → ((s : ℕ) → best_for_start u s ≡ best_for_start v s)
    → moves t u ss ≡ moves t v ss
moves_cong t u v [] h = refl
moves_cong t u v (s ∷ ss) h = rw (h s, moves_cong t u v ss h)

settle-moves_before : (t u : Tables) (ss : List ℕ) → (settle u ss (snapshot t ss)).1 ≡ moves t u ss
unfolding settle snapshot settle_one
settle-moves_before t u [] = refl
settle-moves_before t u (s ∷ ss) = ap (◌++◌ (move s (best_for_start t s) (best_for_start u s))) (
    settle-moves_before t (settle_one u s (best_for_start t s)).0 ss
    ∙ moves_cong t _ u ss (λ s'. best_for_start-settle_one u s s' (best_for_start t s)))

-- Settling reports the moves of the best routes between the snapshot and its own result.
pub settle-moves :
    (t u : Tables) (ss : List ℕ)
    → (settle u ss (snapshot t ss)).1 ≡ moves t (settle u ss (snapshot t ss)).0 ss
settle-moves t u ss =
    settle-moves_before t u ss
    ∙ moves_cong t u _ ss (λ s'. sym (best_for_start-settle u ss (snapshot t ss) s'))
