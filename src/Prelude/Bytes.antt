-- ===== src/Prelude/Bytes.antt =====
-- Bytes and 16-bit words in network order, and the masks that headers are read and written with. A
-- mask on one byte is a table of at most 256 entries, checked by evaluation.
use Prim.Native.Nat.{ℕ, zero, suc, ◌+◌, ◌*◌, ◌/◌, ◌%◌, ◌<◌, bit_and, bit_or}
use mathlib.Core.Path.{◌≡◌, refl}
use mathlib.Core.Bool.{Bool, true, ◌&&◌}
use native.Mathlib.Omega.{arith}
use appletalk.Prelude.Tests.{◌==◌}

abbrev pub IsByte : ℕ → Type 0
IsByte b = b < 256

abbrev pub IsU16 : ℕ → Type 0
IsU16 n = n < 65536

-- `u16::from_be_bytes` and `u16::to_be_bytes`.
abbrev pub from_be : ℕ → ℕ → ℕ
from_be hi lo = hi * 256 + lo

abbrev pub hi_byte : ℕ → ℕ
hi_byte n = n / 256 % 256

abbrev pub lo_byte : ℕ → ℕ
lo_byte n = n % 256

pub from_be-bytes : (n : ℕ) → IsU16 n → from_be (hi_byte n) (lo_byte n) ≡ n
from_be-bytes n h = omega arith

pub hi_byte-from_be : (a b : ℕ) → IsByte a → IsByte b → hi_byte (from_be a b) ≡ a
hi_byte-from_be a b p q = omega arith

pub lo_byte-from_be : (a b : ℕ) → IsByte a → IsByte b → lo_byte (from_be a b) ≡ b
lo_byte-from_be a b p q = omega arith

module _ (f g : ℕ → ℕ) where
  same_below : ℕ → Bool
  same_below zero = true
  same_below (suc n) = (f n == g n) && same_below n

  same_below-eq : (n : ℕ) → same_below n ≡ true → (x : ℕ) → x < n → f x ≡ g x
  unfolding same_below
  same_below-eq zero t x h = absurd (omega arith)
  same_below-eq (suc n) t x h = ground (arith, same_below-eq n (ground arith) x)

pub bit_and_3 : (b : ℕ) → IsByte b → bit_and b 0x03 ≡ b % 4
unfolding same_below
bit_and_3 = same_below-eq _ _ 256 refl

pub bit_and_15 : (b : ℕ) → IsByte b → bit_and b 0x0f ≡ b % 16
unfolding same_below
bit_and_15 = same_below-eq _ _ 256 refl

pub bit_and_127 : (b : ℕ) → IsByte b → bit_and b 0x7f ≡ b % 128
unfolding same_below
bit_and_127 = same_below-eq _ _ 256 refl

pub bit_and_128 : (b : ℕ) → IsByte b → bit_and b 0x80 ≡ b / 128 * 128
unfolding same_below
bit_and_128 = same_below-eq _ _ 256 refl

pub bit_or_128 : (b : ℕ) → b < 128 → bit_or b 0x80 ≡ b + 128
unfolding same_below
bit_or_128 = same_below-eq _ _ 128 refl

-- Two fields side by side in one byte.
pub bit_or_fields4 : (x : ℕ) → x < 64 → bit_or (x / 4 * 4) (x % 4) ≡ x
unfolding same_below
bit_or_fields4 = same_below-eq _ _ 64 refl

pub bit_or_fields16 : (x : ℕ) → IsByte x → bit_or (x / 16 * 16) (x % 16) ≡ x
unfolding same_below
bit_or_fields16 = same_below-eq _ _ 256 refl

-- The high bit of a 16-bit number, set and cleared.
pub bit_or_32768 : (x : ℕ) → x < 32768 → bit_or x 0x8000 ≡ x + 32768
unfolding same_below
bit_or_32768 = same_below-eq _ _ 32768 refl

pub bit_and_32767 : (x : ℕ) → x < 32768 → bit_and (x + 32768) 0x7fff ≡ x
unfolding same_below
bit_and_32767 = same_below-eq (λ x. bit_and (x + 32768) 0x7fff) (λ x. x) 32768 refl
