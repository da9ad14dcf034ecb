-- ===== src/Wire.antt =====
-- src/wire/mod.rs: the types that every protocol module shares. A byte, a `u16` and a `char` are
-- numbers, and a `String` is the list of its chars.
pub mod Pstring
pub mod Frame
pub mod Ddp
pub mod Nbp
pub mod Llap
pub mod Atp
pub mod Aep
pub mod Aarp
pub mod Zip
pub mod Packet
pub mod Rtmp
pub mod Items
pub mod Aurp
mod Tests
use appletalk.Prelude.{ℕ, List, ℕ_discrete}

-- A network address: 16-bit network, 8-bit node.
pub record Addr : Type 0 where
  pub net : ℕ
  pub node : ℕ

unfoldable pub Addr-discrete : Discrete Addr
Addr-discrete = hlevel ℕ_discrete

abbrev pub Name : Type 0
Name = List ℕ
