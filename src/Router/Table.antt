-- ===== src/Router/Table.antt =====
-- src/router/table.rs: the routing and zone tables.
-- An `Instant` is a number of seconds, and `HashMap`s are those of Prelude/Maps. A method that takes
-- `&mut self` returns the new tables beside its result.
pub mod Best
pub mod Settle
pub mod Updates
pub mod History
mod Tests
pub mod Listings
use appletalk.Prelude.{
  ℕ, ◌+◌, ◌-◌, Bool, true, false, not, ◌&&◌, ◌||◌, decide, Option, none, some, List, [], ◌∷◌, ◌++◌,
  map, ltb, leb, ◌==◌, if◌then◌else◌, is_some, is_some_and, is_none_or, length, any, find, filter,
  filter_map, ℕ_discrete,
}
use appletalk.Prelude.Maps.{get, insert, remove}
use appletalk.Wire.{Addr, Addr-discrete, Name}
use appletalk.Wire.Rtmp.{NetworkTuple}
use appletalk.Router.{Target, port, peer, Target-discrete}

-- The validity timer, in seconds.
abbrev pub validity : ℕ
validity = 20

pub data State : Type 0 where
  good suspect bad worst : State

abbrev pub usable : State → Bool
usable good = true
usable suspect = true
usable bad = false
usable worst = false

abbrev pub aged : State → Option State
aged good = some suspect
aged suspect = some bad
aged bad = some worst
aged worst = none

pub record Route : Type 0 where
  pub range : ℕ × ℕ
  pub extended : Bool
  pub distance : ℕ
  pub target : Target
  pub next : Addr
  pub state : State
  pub seen : ℕ

abbrev pub Key : Type 0
Key = Target × Addr

unfoldable pub Key-discrete : Discrete Key
unfolding Target-discrete Addr-discrete
Key-discrete = hlevel (Target-discrete, Addr-discrete)

abbrev pub key : Route → Key
key r = (r.target, r.next)

unfoldable pub contains : Route → ℕ → Bool
contains r net = leb r.range.0 net && leb net r.range.1

abbrev pub tuple : Route → NetworkTuple
tuple r = record { range = r.range; extended = r.extended; distance = r.distance }

abbrev pub is_port : Target → Bool
is_port (port p) = true
is_port (peer a) = false

-- A network of our own.
unfoldable pub direct : Route → Bool
direct r = r.distance == 0 && is_port r.target

pub record RouteChange : Type 0 where
  pub range : ℕ × ℕ
  pub old : Option Route
  pub new : Option Route

pub record ZoneList : Type 0 where
  pub names : List Name
  pub expected : Option ℕ

-- A list that nobody has filled in is never complete.
unfoldable pub complete : ZoneList → Bool
complete z = not (length z.names == 0) && is_none_or z.expected (λ e. leb e (length z.names))

unfoldable pub overlaps : ℕ × ℕ → ℕ × ℕ → Bool
overlaps a b = leb a.0 b.1 && leb b.0 a.1

abbrev pub same_range : ℕ × ℕ → ℕ × ℕ → Bool
same_range a b = a.0 == b.0 && a.1 == b.1

-- `zones` holds the range's end beside the list, and `best` the route that a tie keeps; both go by
-- the start of the range.
pub record Tables : Type 0 where
  pub routes : List Route
  pub zones : List (ℕ × (ℕ × ZoneList))
  pub best : List (ℕ × Key)

abbrev pub zones_at : Tables → ℕ → Option (ℕ × ZoneList)
zones_at t start = get ℕ_discrete start t.zones

pub new : Tables
new = record { routes = []; zones = []; best = [] }

-- The tables after a call and the changes that it reports.
abbrev pub Changed : Type 0
Changed = Tables × List RouteChange

no_addr : Addr
no_addr = record { net = 0; node = 0 }

unfoldable pub port_route : ℕ → ℕ × ℕ → Bool → ℕ → Route
unfolding no_addr
port_route p range extended now = record {
  range = range;
  extended = extended;
  distance = 0;
  target = port p;
  next = no_addr;
  state = good;
  seen = now;
}

-- A directly attached network, its zones complete from the configuration.
unfoldable pub add_port : Tables → ℕ → ℕ × ℕ → Bool → List Name → ℕ → Tables
unfolding port_route no_addr
add_port t p range extended zones now = record {
  routes = t.routes ++ port_route p range extended now ∷ [];
  zones = insert ℕ_discrete range.0 (range.1, record { names = zones; expected = none }) t.zones;
  best = insert ℕ_discrete range.0 (port p, no_addr) t.best;
}

-- Whether the key remembered for a range start is this route's.
unfoldable pub is_key : Option Key → Route → Bool
is_key none r = false
is_key (some k) r = decide (Key-discrete k (key r))

unfoldable pub incumbent : Tables → Route → Bool
incumbent t r = is_key (get ℕ_discrete r.range.0 t.best) r

-- A shorter distance, and on a tie the incumbent.
unfoldable pub beats : (Route → Bool) → Route → Route → Bool
beats inc r b = ltb r.distance b.distance || (r.distance == b.distance && (inc r && not (inc b)))

abbrev pub take_over : (Route → Bool) → Route → Option Route → Bool
take_over inc r none = true
take_over inc r (some b) = beats inc r b

unfoldable pub pick_loop :
    (Route → Bool) → (Route → Bool) → List Route → Option Route → Option Route
pick_loop inc f [] best = best
pick_loop inc f (r ∷ rs) best =
    pick_loop inc f rs (if usable r.state && f r && take_over inc r best then some r else best)

-- The shortest usable route that matches `f`; on a tie the incumbent, else the first one found.
unfoldable pub pick : Tables → (Route → Bool) → Option Route
pick t f = pick_loop (incumbent t) f t.routes none

unfoldable pub best_for_start : Tables → ℕ → Option Route
best_for_start t start = pick t (λ r. r.range.0 == start)

unfoldable pub best : Tables → ℕ → Option Route
best t net = pick t (λ r. contains r net)
