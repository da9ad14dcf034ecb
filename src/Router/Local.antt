-- ===== src/Router/Local.antt =====
-- src/router/local.rs: the services that a router owes its own cables, what they share.
pub mod Rtmp
pub mod Nbp
pub mod Zip
pub mod Services
pub mod Beacons
pub mod Announced
pub mod ZonePages
pub mod ZoneList
mod Tests
use appletalk.Prelude.{
  ℕ, ◌+◌, ◌-◌, Bool, true, false, Option, none, some, List, [], ◌∷◌, ◌++◌, ◌==◌, ◌&&◌, leb, find,
  if◌then◌else◌,
}
use appletalk.Wire.{Name, Addr}
use appletalk.Wire.Ddp.{Ddp}
use appletalk.Router.{Target, port, peer}
use appletalk.Router.Ports.{Port, port_addr}

abbrev pub rtmp_interval : ℕ
rtmp_interval = 10

abbrev pub zip_query_interval : ℕ
zip_query_interval = 10

abbrev pub rtmp_socket : ℕ
rtmp_socket = 1

abbrev pub nbp_socket : ℕ
nbp_socket = 2

abbrev pub aep_socket : ℕ
aep_socket = 4

abbrev pub zip_socket : ℕ
zip_socket = 6

abbrev pub ddp_nbp : ℕ
ddp_nbp = 2

abbrev pub ddp_atp : ℕ
ddp_atp = 3

abbrev pub ddp_aep : ℕ
ddp_aep = 4

abbrev pub ddp_zip : ℕ
ddp_zip = 6

abbrev pub ddp_max : ℕ
ddp_max = 586

abbrev pub atp_max : ℕ
atp_max = 578

abbrev pub zip_head : ℕ
zip_head = 2

abbrev pub router_type : Name
router_type = b'A' ∷ b'p' ∷ b'p' ∷ b'l' ∷ b'e' ∷ b'R' ∷ b'o' ∷ b'u' ∷ b't' ∷ b'e' ∷ b'r' ∷ []

abbrev pub router_socket : ℕ
router_socket = 253

pub record Local : Type 0 where
  pub name : Name
  pub last_beacon : Option ℕ
  pub last_query : Option ℕ

unfoldable pub new_local : Name → Local
new_local name = record { name = name; last_beacon = none; last_query = none }

-- The length is for `encode`; a checksum of 0 says that there is none.
unfoldable pub datagram : Addr → ℕ → Addr → ℕ → ℕ → List ℕ → Ddp
datagram src src_socket dst dst_socket typ bytes = record {
  hops = 0;
  length = 0;
  checksum = 0;
  dst = dst;
  dst_socket = dst_socket;
  src = src;
  src_socket = src_socket;
  typ = typ;
  bytes = bytes;
}

-- `from`: none until the port holds an address.
unfoldable pub from_port : Port → ℕ → Addr → ℕ → ℕ → List ℕ → Option Ddp
unfolding port_addr datagram
from_port p src_socket dst dst_socket typ body = elim (port_addr p) [
  | none ↦ none
  | some addr ↦ some (datagram addr src_socket dst dst_socket typ body)
]

unfoldable pub due : Option ℕ → ℕ → ℕ → Bool
due none now every = true
due (some t) now every = leb every (now - t)

-- A route through a port whose range starts elsewhere is not one of our own networks.
unfoldable pub direct_port : List Port → Target → ℕ → Option Port
direct_port ports (port id) start = find (λ p. p.id == id && p.range.0 == start) ports
direct_port ports (peer addr) start = none

abbrev pub to_list : {A : Type 0} → Option A → List A
to_list none = []
to_list (some a) = a ∷ []
