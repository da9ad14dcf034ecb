-- ===== src/Router/Table/History.antt =====
-- Tables as a router builds them up: from empty, by any sequence of calls (src/router/table.rs).
use appletalk.Prelude.{
  ℕ, ◌≤◌, ◌≡◌, ◌≢◌, refl, sym, ap, ◌∙◌, inl, inr, Bool, true, ◌&&◌, Option, none, some, List, [],
  ◌∷◌, ◌++◌, ◌==◌, arith, All-In, In, any, any-In, ℕ_discrete,
}
use appletalk.Prelude.Maps.{get, get-insert}
use appletalk.Wire.{Name}
use appletalk.Router.{port}
use appletalk.Router.Table.{
  Tables, Route, is_key, new, add_port, port_route, no_addr, usable, pick, pick_loop,
  best_for_start, incumbent,
}
use appletalk.Router.Table.Settle.Incumbents.{is_key-eq, is_key_self, best_for_start-insert_ne}
use appletalk.Router.Table.Best.{Shortest, pick_loop-Shortest}
use appletalk.Router.Table.Settle.Memory.{SettledAt, key_of, at, best_for_start-at}
use appletalk.Router.Table.Updates.Local.{at-append}
use mathlib.Core.List.{append-nil}
use appletalk.Router.Table.Updates.Reports.{IsSettled, Call, call, call-IsSettled}
use appletalk.Router.Table.Listings.{add_zones}
use appletalk.Router.Table.Listings.Zones.{add_zones-IsSettled}

-- One call on the tables.
pub data Step (t : Tables) : Tables → Type 0 where
  plugs :
      (p : ℕ) (range : ℕ × ℕ) (extended : Bool) (zones : List Name) (now : ℕ)
      → Step t (add_port t p range extended zones now)
  calls : (c : Call) → Step t (call t c).0
  zones :
      (start : ℕ) (names : List Name) (expected : Option ℕ)
      → Step t (add_zones t start names expected).0

pub data Reach : Tables → Type 0 where
  empty : Reach new
  next : {t u : Tables} → Reach t → Step t u → Reach u

new-IsSettled : IsSettled new
unfolding new best_for_start pick pick_loop get
new-IsSettled s = record { remembered = refl; zoned = λ e. cc }

module _ (t : Tables) (p : ℕ) (range : ℕ × ℕ) (extended : Bool) (zs : List Name) (now : ℕ) where
  abbrev plugged : Tables
  plugged = add_port t p range extended zs now

  abbrev entry : Route
  entry = port_route p range extended now

  In-last : (rs : List Route) → In entry (rs ++ entry ∷ [])
  In-last [] = inl refl
  In-last (r ∷ rs) = inr (In-last rs)

  entry-In : In entry plugged.routes
  unfolding add_port
  entry-In = In-last t.routes

  memory_self : get ℕ_discrete range.0 plugged.best ≡ some (port p, no_addr)
  unfolding add_port
  memory_self = ground (arith, get-insert ℕ_discrete range.0 range.0 (port p, no_addr) t.best)

  here : Route → Bool
  here r = r.range.0 == range.0

  incumbent_here :
      (x : Route) → x.range.0 ≡ range.0 → incumbent plugged x ≡ is_key (some (port p, no_addr)) x
  unfolding incumbent
  incumbent_here x e =
      ap (λ n. is_key (get ℕ_discrete n plugged.best) x) e ∙ ap (λ o. is_key o x) memory_self

  entry-incumbent : incumbent plugged entry ≡ true
  entry-incumbent =
      incumbent_here entry (unfold port_route in refl) ∙ unfold port_route in is_key_self entry

  entry-qualifies : (usable entry.state && here entry) ≡ true
  unfolding here port_route
  entry-qualifies = ground arith

  entry-best :
      (o : Option Route)
      → Shortest (incumbent plugged) here o plugged.routes
      → key_of o ≡ some (port p, no_addr)
  entry-best none h = cc (All-In _ entry plugged.routes h entry-In, entry-qualifies)
  entry-best (some r) (i, q, h) =
      let (short, tie) = All-In _ entry plugged.routes h entry-In entry-qualifies in
      let at_start : r.range.0 ≡ range.0 = unfold here in ground (arith, q) in
      let none_shorter : r.distance ≤ 0 = unfold port_route in short in
      let tied : entry.distance ≡ r.distance = unfold port_route in omega arith in
      let inc = sym (incumbent_here r at_start) ∙ tie tied entry-incumbent in
      ap some (sym (is_key-eq (port p, no_addr) r inc))

  -- The entry of a new port is the best of its range: nothing is shorter, and it is the incumbent.
  add_port_self : SettledAt plugged range.0
  add_port_self = record {
    remembered = memory_self ∙ sym (entry-best (best_for_start plugged range.0) shortest);
    zoned = λ _.
        any-In (λ r. r.range.0 == range.0) entry plugged.routes entry-In
          (unfold port_route in ground arith);
  }
    where
      shortest : Shortest (incumbent plugged) here (best_for_start plugged range.0) plugged.routes
      shortest =
          unfold best_for_start pick here in
          pick_loop-Shortest (incumbent plugged) here plugged.routes

  any-plugged :
      (s : ℕ) (rs : List Route)
      → any (λ r. r.range.0 == s) rs ≡ true
      → any (λ r. r.range.0 == s) (rs ++ entry ∷ []) ≡ true
  any-plugged s [] e = cc
  any-plugged s (r ∷ rs) e = ground (arith, any-plugged s rs)

  at-plugged : (s : ℕ) → range.0 ≢ s → at s (t.routes ++ entry ∷ []) ≡ at s t.routes
  unfolding port_route
  at-plugged s n =
      let one = at-append s t.routes (entry ∷ []) in
      let rest = append-nil (at s t.routes) in ground (arith, one, rest)

  abbrev extended_tables : Tables
  extended_tables = record t { routes = t.routes ++ entry ∷ [] }

  best_elsewhere : (s : ℕ) → range.0 ≢ s → best_for_start plugged s ≡ best_for_start t s
  unfolding add_port best_for_start pick incumbent
  best_elsewhere s n =
      best_for_start-insert_ne extended_tables range.0 s (port p, no_addr) n
      ∙ best_for_start-at t (t.routes ++ entry ∷ []) s (at-plugged s n)

  add_port_ne : (s : ℕ) → range.0 ≢ s → SettledAt t s → SettledAt plugged s
  unfolding add_port
  add_port_ne s n h = record {
    remembered =
        ground (arith, get-insert ℕ_discrete range.0 s (port p, no_addr) t.best)
        ∙ h.remembered
        ∙ ap key_of (sym (best_elsewhere s n));
    zoned = λ z. any-plugged s t.routes (
        h.zoned (
          ground (
            arith,
            get-insert ℕ_discrete range.0 s (range.1, record { names = zs; expected = none })
                t.zones,
          )));
  }

Step-IsSettled : {t u : Tables} → Step t u → IsSettled t → IsSettled u
Step-IsSettled (plugs p range extended zs now) h = λ s. elim (ℕ_discrete range.0 s) [
  | yes e ↦ rw (← e) (add_port_self _ p range extended zs now)
  | no n ↦ add_port_ne _ p range extended zs now s n (h s)
]
Step-IsSettled (calls c) h = call-IsSettled _ c h
Step-IsSettled (zones start names expected) h = add_zones-IsSettled _ start names expected h

-- However the tables came about, the incumbent of every start is its best route, and only starts of
-- entries have zones.
pub Reach-IsSettled : {t : Tables} → Reach t → IsSettled t
Reach-IsSettled empty = new-IsSettled
Reach-IsSettled (next r s) = Step-IsSettled s (Reach-IsSettled r)
