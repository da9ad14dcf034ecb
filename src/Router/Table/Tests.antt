-- ===== src/Router/Table/Tests.antt =====
-- The tables at concrete inputs: two ports, and a network learned over the first of them.
use appletalk.Prelude.{
  ◌≡◌, ◌↔◌, refl, true, none, some, [], ◌∷◌, arith, All, In, decide, filter, any, ℕ_discrete,
}
use appletalk.Prelude.Maps.{insert}
use appletalk.Wire.{Addr, Addr-discrete, Name}
use appletalk.Wire.Rtmp.{NetworkTuple}
use appletalk.Router.{port, Target-discrete}
use appletalk.Router.Table.{
  beats, overlaps, pick, pick_loop, Tables, Route, Key-discrete, new, add_port, best,
  best_for_start, contains, incumbent, good, direct, tuple,
}
use appletalk.Router.Table.Best.{Shortest, best-Shortest}
use appletalk.Router.Table.Settle.{starts, settle, snapshot, settle_one, drop_zones, changed}
use appletalk.Router.Table.Updates.{learn, age, conflicts, learn_routes, same_entry}
use appletalk.Router.Table.Updates.Reports.{
  ReportsMoves, IsSettled, learns, ages, call, touched, call-ReportsMoves,
}
use appletalk.Router.Table.Updates.Ranges.{
  IsDisjoint, IsReachable, learn-IsDisjoint, learn-IsReachable,
}
use appletalk.Router.Table.Updates.OwnNetworks.{own, IsBeside, own-learn}
use appletalk.Router.Table.Updates.Aging.{stays, four_expiries}
use appletalk.Router.Table.Listings.{export, add_zones, all_zones, holds, in_zone}
use appletalk.Router.Table.Listings.Beacons.{
  Beacons, IsExport, tuples_for-Beacons, tuples_for_complete, export_iff,
}
use appletalk.Router.Table.Listings.Names.{IsDistinct, all_zones_lem}
use appletalk.Router.Table.Listings.Zones.{ReportsAddition, add_zones_report}
use appletalk.Router.Table.History.{Reach, empty, next, plugs, calls, Reach-IsSettled}

abbrev router_addr : Addr
router_addr = record { net = 6800; node = 1 }

abbrev far_tuple : NetworkTuple
far_tuple = record { range = (7100, 7110); extended = true; distance = 2 }

abbrev office : Name
office = b'O' ∷ b'f' ∷ []

abbrev own_route : Route
own_route = record {
  range = (6800, 6800);
  extended = true;
  distance = 0;
  target = port 1;
  next = record { net = 0; node = 0 };
  state = good;
  seen = 0;
}

abbrev far_route : Route
far_route = record {
  range = (7100, 7110);
  extended = true;
  distance = 3;
  target = port 1;
  next = router_addr;
  state = good;
  seen = 5;
}

-- One port with the network 6800, its zone from the configuration, and a network learned behind it.
abbrev sample : Tables
sample = record {
  routes = own_route ∷ far_route ∷ [];
  zones = (6800, (6800, record { names = office ∷ []; expected = none })) ∷ [];
  best = (6800, (port 1, record { net = 0; node = 0 })) ∷ (7100, (port 1, router_addr)) ∷ [];
}

-- What evaluating the tables takes.
evaluation : Unit {0}
unfolding learn add_port new ℕ_discrete Target-discrete Key-discrete Addr-discrete conflicts
    overlaps settle snapshot settle_one drop_zones best_for_start pick pick_loop learn_routes
    same_entry changed insert direct decide beats
evaluation = tt

-- Building the sample by calls gives it.
learned_sample :
    (learn (add_port new 1 (6800, 6800) true (office ∷ []) 0) far_tuple (port 1) router_addr 5).0
    ≡ sample
unfolding evaluation
learned_sample = refl

-- A second tuple, farther by one hop and from another router, does not displace the first.
farther_kept :
    best_for_start
      (learn sample
        (record far_tuple { distance = 3 })
        (port 1)
        (record router_addr { node = 2 })
        6).0
      7100
    ≡ some far_route
unfolding evaluation
farther_kept = refl

far_best : best_for_start sample 7100 ≡ some far_route
unfolding evaluation
far_best = refl

sample-Reach : Reach sample
unfolding evaluation call
sample-Reach =
    next (next empty (plugs 1 (6800, 6800) true (office ∷ []) 0))
      (calls (learns far_tuple (port 1) router_addr 5))

call-ReportsMoves_example : ReportsMoves sample (touched sample (ages 30)) (call sample (ages 30))
call-ReportsMoves_example = call-ReportsMoves sample (ages 30)

Reach-IsSettled_example : IsSettled sample
Reach-IsSettled_example = Reach-IsSettled sample-Reach

best-Shortest_example :
    Shortest (incumbent sample) (λ r. contains r 7105) (best sample 7105) sample.routes
best-Shortest_example = best-Shortest sample 7105

abbrev crossing : NetworkTuple
crossing = record { range = (7200, 7210); extended = true; distance = 1 }

learn-IsDisjoint_example : IsDisjoint (learn sample crossing (port 1) router_addr 9).0.routes
unfolding overlaps
learn-IsDisjoint_example =
    learn-IsDisjoint sample crossing (port 1) router_addr 9 ((λ e. cc, tt), (tt, tt))

learn-IsReachable_example : All IsReachable (learn sample crossing (port 1) router_addr 9).0.routes
learn-IsReachable_example = learn-IsReachable sample crossing (port 1) router_addr 9 (omega arith)

own-learn_example :
    (own (learn sample crossing (port 1) router_addr 9).0.routes ≡ own sample.routes)
    × All (IsBeside sample.routes) (learn sample crossing (port 1) router_addr 9).0.routes
own-learn_example = own-learn sample crossing (port 1) router_addr 9

four_expiries_example :
    (age (age (age (age sample 25).0 45).0 65).0 85).0.routes ≡ filter stays sample.routes
unfolding direct
four_expiries_example =
    four_expiries sample 25 45 65 85 (λ e. omega arith, (λ e. omega arith, tt)) (omega arith)
      (omega arith) (omega arith)

tuples_for-Beacons_example : (r : Route) × Beacons sample 2 (tuple far_route) r
tuples_for-Beacons_example =
    tuples_for-Beacons sample 2 (tuple far_route)
      (tuples_for_complete sample 2 7100 far_route far_best (λ e. cc) (omega arith))

export_iff_example :
    In (tuple own_route) (export sample) ↔ ((r : Route) × IsExport sample (tuple own_route) r)
export_iff_example = export_iff sample (tuple own_route)

all_zones_lem_example :
    IsDistinct (all_zones sample)
    × ((n : Name) → holds (all_zones sample) n ≡ any (in_zone sample n) (starts sample))
all_zones_lem_example = all_zones_lem sample

add_zones_report_example : ReportsAddition sample 7100 (add_zones sample 7100 (office ∷ []) none)
add_zones_report_example = add_zones_report sample 7100 (office ∷ []) none
