-- ===== src/Router/Local/Announced.antt =====
-- src/router/local.rs: what a port's beacon announces.
use appletalk.Prelude.{
  ℕ, ◌<◌, ◌≡◌, ◌≢◌, refl, ◌⊎◌, inl, inr, true, none, some, if◌then◌else◌, List, [], ◌∷◌, map,
  is_some, In, any-In, In-filter, In-append_left, In-append_right, In-append, arith, Option-cases,
}
use appletalk.Wire.{Addr}
use appletalk.Wire.Rtmp.{NetworkTuple, Rtmp, ddp_type, encode}
use appletalk.Router.{port}
use appletalk.Router.Table.{Tables, Route, ZoneList, tuple, best_for_start, zones_at, same_range}
use appletalk.Router.Table.Listings.{tuples_for, zones}
use appletalk.Router.Table.Listings.Beacons.{tuples_for_complete}
use appletalk.Router.Table.Listings.Zones.{IsComplete, complete-IsComplete}
use appletalk.Router.Ports.{Port, port_addr, extended}
use appletalk.Router.Emits.{Dest, Emit, on}
use appletalk.Router.Local.{Local, datagram, due, rtmp_socket, rtmp_interval}
use appletalk.Router.Local.Rtmp.{rtmp_data, advertisable, is_advertisable, chunk}
use appletalk.Router.Local.Services.{beacons, tick}
use appletalk.Router.Local.Beacons.{told, tuples_of, chunk_lem}

-- One of our own networks, or one whose zone list is filled in.
abbrev pub IsAdvertised : Tables → List Port → ℕ × ℕ → Type 0
IsAdvertised t ports range =
    ((q : Port) × In q ports × (q.range ≡ range))
    ⊎ ((end : ℕ) × (z : ZoneList) × (zones_at t range.0 ≡ some (end, z)) × IsComplete z)

IsAdvertised-is_advertisable :
    (t : Tables) (ports : List Port) (u : NetworkTuple)
    → IsAdvertised t ports u.range
    → is_advertisable t ports u ≡ true
unfolding zones
IsAdvertised-is_advertisable t ports u (inl (q, i, e)) =
    let k = any-In (λ p. same_range p.range u.range) q ports i (rw e (ground arith)) in ground arith
IsAdvertised-is_advertisable t ports u (inr (end, z, e, c)) =
    let k = (complete-IsComplete z).1 c in rw (e, k) (ground arith)

-- A datagram that carries an RTMP packet to everybody on a port's cable.
abbrev pub beacon : Port → Addr → Rtmp → Emit
beacon p sender x = on p.id Dest.broadcast (
    datagram sender rtmp_socket (record { net = p.range.0; node = 255 }) rtmp_socket (ddp_type x)
      (encode x))

-- A tuple that packets tell of is in one of them, and so goes out with it.
In-told :
    (f : Rtmp → Emit) (u : NetworkTuple) (rs : List Rtmp)
    → In u (told rs)
    → (x : Rtmp) × In (f x) (map f rs) × In u (tuples_of x)
In-told f u [] i = absurd i
In-told f u (r ∷ rs) i = elim (In-append u (tuples_of r) (told rs) i) [
  | inl j ↦ (r, inl refl, j)
  | inr j ↦ let (x, k, l) = In-told f u rs j in (x, inr k, l)
]

rtmp_data-In :
    (p : Port) (sender : Addr) (u : NetworkTuple) (tuples : List NetworkTuple)
    → port_addr p ≡ some sender
    → In u tuples
    → (x : Rtmp) × In
        (beacon p sender x)
        (rtmp_data p Dest.broadcast (record { net = p.range.0; node = 255 }) rtmp_socket tuples)
      × In u (tuples_of x)
unfolding rtmp_data
rtmp_data-In p sender u tuples e i =
    let range = if extended p then some p.range else none in
    rw (e, rtmp_data)
      (In-told (beacon p sender) u (chunk sender range tuples)
        (rw (← (chunk_lem sender range tuples).0) at i))

node_held : (p : Port) (sender : Addr) → port_addr p ≡ some sender → is_some p.node ≡ true
unfolding port_addr
node_held p sender e = elim (Option-cases p.node) [
  | inl f ↦ absurd (ground arith)
  | inr (n, f) ↦ rw f refl
]

beacons-In :
    (p : Port) (sender : Addr) (u : NetworkTuple) (ps ports : List Port) (t : Tables)
    → In p ps
    → port_addr p ≡ some sender
    → In u (advertisable t ports (tuples_for t p.id))
    → (x : Rtmp) × In (beacon p sender x) (beacons ps ports t) × In u (tuples_of x)
unfolding beacons
beacons-In p sender u [] ports t i e j = absurd i
beacons-In p sender u (q ∷ ps) ports t (inl s) e j =
    let (x, k, l) = rtmp_data-In p sender u _ e j in
    rw (← s, node_held p sender e) (x, In-append_left _ _ _ k, l)
beacons-In p sender u (q ∷ ps) ports t (inr i) e j =
    let (x, k, l) = beacons-In p sender u ps ports t i e j in (x, In-append_right _ _ _ k, l)

-- When the beacon is due, every port with an address broadcasts the best route of a range in one of its
-- RTMP packets, if the route does not leave by that port, its distance is below 15, and the range is
-- one of our own or has a filled-in zone list.
pub tick-announces :
    (ports : List Port) (t : Tables) (now : ℕ) (l : Local) (p : Port) (sender : Addr) (s : ℕ)
    (r : Route)
    → due l.last_beacon now rtmp_interval ≡ true
    → In p ports
    → port_addr p ≡ some sender
    → best_for_start t s ≡ some r
    → r.target ≢ port p.id
    → r.distance < 15
    → IsAdvertised t ports r.range
    → (x : Rtmp) × In (beacon p sender x) (tick ports t now l).1 × In (tuple r) (tuples_of x)
unfolding tick advertisable
tick-announces ports t now l p sender s r d i a e n h v =
    let listed = tuples_for_complete t p.id s r e n h in
    let k =
      (In-filter (is_advertisable t ports) (tuple r) (tuples_for t p.id)).1
        (listed, IsAdvertised-is_advertisable t ports (tuple r) v) in
    let (x, j, m) = beacons-In p sender (tuple r) ports ports t i a k in
    (x, rw d (In-append_left _ _ _ j), m)
