-- ===== src/Wire/Aurp.antt =====
-- src/wire/aurp.rs: the packets of the routing protocol between peers, tunnelled over UDP. An IPv4
-- address is a 32-bit number, an `i16` an integer.
pub mod Tuples
pub mod Zones
pub mod Options
pub mod Parse
pub mod Encode
pub mod RoundTrip
mod Tests
use appletalk.Prelude.{ℕ, Bool, true, false, bit_and, Option, none, some, List, [], ◌∷◌}
use appletalk.Prelude.Integers.{ℤ}
use appletalk.Wire.{Name}
use appletalk.Wire.Rtmp.{NetworkTuple}

pub data Di : Type 0 where
  null : Di
  ip : ℕ → Di

pub record DomainHeader : Type 0 where
  pub dst : Di
  pub src : Di

pub record EventTuple : Type 0 where
  pub code : ℕ
  pub tuple : NetworkTuple

pub data Cmd : Type 0 where
  ri_req : ℕ → Cmd
  ri_rsp : Bool → List NetworkTuple → Cmd
  ri_ack : Bool → Cmd
  ri_upd : List EventTuple → Cmd
  rd : ℤ → Cmd
  zi_req : List ℕ → Cmd
  zi_rsp : Option ℕ → List (ℕ × Name) → Cmd
  gzn_req : Name → Cmd
  gzn_rsp : Name → Option (List NetworkTuple) → Cmd
  gdzl_req : ℕ → Cmd
  gdzl_rsp : Bool → ℤ → List Name → Cmd
  open_req : ℕ → ℕ → List (ℕ × List ℕ) → Cmd
  open_rsp : ℕ → ℤ → List (ℕ × List ℕ) → Cmd
  tickle : Cmd
  tickle_ack : Cmd

pub data Aurp : Type 0 where
  data_packet : DomainHeader → List ℕ → Aurp
  routing : DomainHeader → ℕ → ℕ → Cmd → Aurp

abbrev pub version : ℕ
version = 1

abbrev pub type_data : ℕ
type_data = 2

abbrev pub type_routing : ℕ
type_routing = 3

abbrev pub env_flags : ℕ
env_flags = 0x6000

abbrev pub all_sui : ℕ
all_sui = 0x7800

abbrev pub szi_flag : ℕ
szi_flag = 0x4000

abbrev pub last_flag : ℕ
last_flag = 0x8000

abbrev pub no_tuple : NetworkTuple
no_tuple = record { range = (0, 0); extended = false; distance = 0 }

-- The length byte of the first zone name in the body.
abbrev pub zone_base : ℕ
zone_base = 6
