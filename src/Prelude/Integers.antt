-- ===== src/Prelude/Integers.antt =====
-- Signed 16-bit numbers: an `i16` is an integer, and travels as its two's complement.
use Prim.Native.Nat.{ℕ, ◌-◌, ◌<◌}
use mathlib.Core.Path.{◌≡◌}
use native.Mathlib.Omega.{arith}
use appletalk.Prelude.Tests.{ltb, if◌then◌else◌}

-- `negsuc n` is `-(n + 1)`.
pub data ℤ : Type 0 where
  pos : ℕ → ℤ
  negsuc : ℕ → ℤ

abbrev pub IsI16 : ℤ → Type 0
IsI16 (pos n) = n < 32768
IsI16 (negsuc n) = n < 32768

abbrev pub to_u16 : ℤ → ℕ
to_u16 (pos n) = n
to_u16 (negsuc n) = 65535 - n

abbrev pub from_u16 : ℕ → ℤ
from_u16 w = if ltb w 32768 then pos w else negsuc (65535 - w)

pub from_u16-to_u16 : (z : ℤ) → IsI16 z → from_u16 (to_u16 z) ≡ z
from_u16-to_u16 (pos n) h = ground arith
from_u16-to_u16 (negsuc n) h = ground arith

pub to_u16-bounds : (z : ℤ) → IsI16 z → to_u16 z < 65536
to_u16-bounds (pos n) h = omega arith
to_u16-bounds (negsuc n) h = omega arith
