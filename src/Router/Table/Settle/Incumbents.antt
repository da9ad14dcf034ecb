-- ===== src/Router/Table/Settle/Incumbents.antt =====
-- Recording a new incumbent and dropping a gone range move no best route (src/router/table.rs, `settle`).
use appletalk.Prelude.{
  ℕ, ◌≡◌, ◌≢◌, refl, sym, ap, ◌∙◌, inl, inr, true, false, ◌&&◌, not, Option, none, some, List, [],
  ◌∷◌, ◌==◌, arith, any, All, Bool-cases, decide, ℕ_discrete,
}
use appletalk.Prelude.Maps.{get, insert, remove, get-insert, get-remove}
use mathlib.Core.Logic.{ite}
use mathlib.Core.Bool.{decide_iff}
use appletalk.Router.Table.{
  Tables, Route, Key, Key-discrete, key, is_key, usable, pick, best_for_start, incumbent,
}
use appletalk.Router.Table.Best.{
  pick_loop-AgreeOn, none-pick_loop, pick_loop-none, pick_loop-Selected, Selected-In,
}
use appletalk.Router.Table.Settle.{record_best, drop_zones}

incumbent-insert :
    (t : Tables) (s : ℕ) (k : Key) (x : Route)
    → incumbent (record t { best = insert ℕ_discrete s k t.best }) x
      ≡ ite (ℕ_discrete s x.range.0) (is_key (some k) x) (incumbent t x)
unfolding incumbent
incumbent-insert t s k x = ground (arith, get-insert ℕ_discrete s x.range.0 k t.best)

incumbent-remove :
    (t : Tables) (s : ℕ) (x : Route)
    → incumbent (record t { best = remove ℕ_discrete s t.best }) x
      ≡ ite (ℕ_discrete s x.range.0) false (incumbent t x)
unfolding incumbent is_key
incumbent-remove t s x = ground (arith, get-remove ℕ_discrete s x.range.0 t.best)

-- A route that `best_for_start` returns has that start.
pub best_for_start-start :
    (t : Tables) (s : ℕ) (r : Route) → best_for_start t s ≡ some r → r.range.0 ≡ s
unfolding best_for_start pick
best_for_start-start t s r e =
    let picked = pick_loop-Selected (incumbent t) (λ r. r.range.0 == s) t.routes r e in
    let (_, q) = Selected-In (incumbent t) (λ r. r.range.0 == s) r t.routes picked in
    ground (arith, q)

pub is_key-eq : (k : Key) (x : Route) → is_key (some k) x ≡ true → k ≡ key x
unfolding is_key
is_key-eq k x e = (decide_iff (Key-discrete k (key x))).0 e

pub is_key_self : (x : Route) → is_key (some (key x)) x ≡ true
unfolding is_key
is_key_self x = (decide_iff (Key-discrete (key x) (key x))).1 refl

is_key_cong : (o : Option Key) (x y : Route) → key x ≡ key y → is_key o x ≡ is_key o y
unfolding is_key
is_key_cong none x y e = refl
is_key_cong (some k) x y e = ap (λ z. decide (Key-discrete k z)) e

abbrev with_best : Tables → List (ℕ × Key) → Tables
with_best t m = record t { best = m }

-- Where the incumbents of a start are told alike, its best route is the same.
best_for_start_of_incumbent :
    (t : Tables) (m : List (ℕ × Key)) (s : ℕ)
    → ((x : Route) → x.range.0 ≡ s → incumbent (with_best t m) x ≡ incumbent t x)
    → best_for_start (with_best t m) s ≡ best_for_start t s
unfolding best_for_start pick
best_for_start_of_incumbent t m s h =
    pick_loop-AgreeOn (incumbent t) (incumbent (with_best t m)) (λ r. r.range.0 == s) t.routes
      (λ r p.
        let hr = h r (best_for_start-start t s r p) in
        (
          λ x fx i. let hx = h x (ground arith) in rw (hr, hx) i,
          λ y fy i. let hy = h y (ground arith) in rw (hr, hy) i,
        ))

-- The best route of a start stays the best when it becomes the incumbent.
best_for_start-insert_self :
    (t : Tables) (s : ℕ) (r : Route)
    → best_for_start t s ≡ some r
    → best_for_start (with_best t (insert ℕ_discrete s (key r) t.best)) s ≡ best_for_start t s
unfolding best_for_start pick incumbent
best_for_start-insert_self t s r e =
    pick_loop-AgreeOn (incumbent t) (incumbent t') (λ r. r.range.0 == s) t.routes
      (λ r' p. let same : r' ≡ r = ground (arith, p) in rw same (before, after))
  where
    t' : Tables
    t' = with_best t (insert ℕ_discrete s (key r) t.best)

    inc' : (x : Route) → x.range.0 ≡ s → incumbent t' x ≡ is_key (some (key r)) x
    inc' x h = ground (arith, incumbent-insert t s (key r) x)

    self : incumbent t' r ≡ true
    self = rw (inc' r (best_for_start-start t s r e)) (is_key_self r)

    alike : (x : Route) → x.range.0 ≡ s → key r ≡ key x → incumbent t r ≡ incumbent t x
    alike x h k =
        ap (λ n. is_key (get ℕ_discrete n t.best) r) (best_for_start-start t s r e ∙ sym h)
        ∙ is_key_cong (get ℕ_discrete x.range.0 t.best) r x k

    before :
        (x : Route)
        → (x.range.0 == s) ≡ true
        → (incumbent t r && not (incumbent t x)) ≡ true
        → (incumbent t' r && not (incumbent t' x)) ≡ true
    before x h i = elim (Bool-cases (incumbent t' x)) [
      | inl u ↦
          let k = is_key-eq (key r) x (sym (inc' x (ground arith)) ∙ u) in
          let a = alike x (ground arith) k in ground (arith, a)
      | inr u ↦ rw (self, u)
    ]

    after :
        (y : Route)
        → (y.range.0 == s) ≡ true
        → (incumbent t y && not (incumbent t r)) ≡ false
        → (incumbent t' y && not (incumbent t' r)) ≡ false
    after y h i = ground (arith, self)

-- Elsewhere the memory of one start plays no part.
pub best_for_start-insert_ne :
    (t : Tables) (s s' : ℕ) (k : Key)
    → s ≢ s'
    → best_for_start (with_best t (insert ℕ_discrete s k t.best)) s' ≡ best_for_start t s'
best_for_start-insert_ne t s s' k n =
    best_for_start_of_incumbent t _ s' (λ x h. ground (arith, incumbent-insert t s k x))

best_for_start-remove_ne :
    (t : Tables) (s s' : ℕ)
    → s ≢ s'
    → best_for_start (with_best t (remove ℕ_discrete s t.best)) s' ≡ best_for_start t s'
best_for_start-remove_ne t s s' n =
    best_for_start_of_incumbent t _ s' (λ x h. ground (arith, incumbent-remove t s x))

-- A start without a best route has none whatever is remembered.
best_for_start-none :
    (t : Tables) (m : List (ℕ × Key)) (s : ℕ)
    → best_for_start t s ≡ none
    → best_for_start (with_best t m) s ≡ none
unfolding best_for_start pick
best_for_start-none t m s e =
    none-pick_loop _ _ t.routes (pick_loop-none (incumbent t) (λ r. r.range.0 == s) t.routes e)

best_for_start-record_best_of :
    (t : Tables) (s s' : ℕ) (o : Option Route)
    → best_for_start t s ≡ o
    → best_for_start (record_best t s o) s' ≡ best_for_start t s'
best_for_start-record_best_of t s s' none e = elim (ℕ_discrete s s') [
  | yes p ↦ rw (← p) (best_for_start-none t _ s e ∙ sym e)
  | no n ↦ best_for_start-remove_ne t s s' n
]
best_for_start-record_best_of t s s' (some r) e = elim (ℕ_discrete s s') [
  | yes p ↦ rw (← p) (best_for_start-insert_self t s r e)
  | no n ↦ best_for_start-insert_ne t s s' (key r) n
]

pub best_for_start-record_best :
    (t : Tables) (s s' : ℕ)
    → best_for_start (record_best t s (best_for_start t s)) s' ≡ best_for_start t s'
best_for_start-record_best t s s' = best_for_start-record_best_of t s s' (best_for_start t s) refl

pub best_for_start_absent :
    (t : Tables) (s : ℕ) → any (λ r. r.range.0 == s) t.routes ≡ false → best_for_start t s ≡ none
unfolding best_for_start pick
best_for_start_absent t s h = none-pick_loop _ _ t.routes (absent t.routes h)
  where
    absent :
        (xs : List Route)
        → any (λ r. r.range.0 == s) xs ≡ false
        → All (λ y. (usable y.state && y.range.0 == s) ≡ false) xs
    absent [] e = tt
    absent (x ∷ xs) e = (ground arith, absent xs (ground arith))

pub best_for_start-drop_zones :
    (t : Tables) (s s' : ℕ) → best_for_start (drop_zones t s) s' ≡ best_for_start t s'
unfolding drop_zones best_for_start pick incumbent
best_for_start-drop_zones t s s' = elim (Bool-cases (any (λ r. r.range.0 == s) t.routes)) [
  | inl e ↦ rw e
  | inr e ↦ rw e (elim (ℕ_discrete s s') [
    | yes p ↦
        let gone = best_for_start_absent t s e in
        rw (← p) (best_for_start-none t (remove ℕ_discrete s t.best) s gone ∙ sym gone)
    | no n ↦ best_for_start-remove_ne t s s' n
  ])
]
