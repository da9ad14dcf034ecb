-- ===== src/Tashtalk/Fcs.antt =====
-- The frame check sequence (src/tashtalk.rs): a frame with its own check sequence leaves the residue.
-- The last step is a table over the 65536 states of the register, checked by evaluation.
use Prim.Native.Nat.{digits, differ, bit_xor-bitwise}
use appletalk.Prelude.{
  ℕ, zero, suc, ◌+◌, ◌*◌, ◌/◌, ◌%◌, ◌^◌, ◌<◌, ◌≡◌, refl, ap, ◌∙◌, bit_xor, Bool, true, List, [],
  ◌∷◌, ◌++◌, ◌==◌, ==_iff, ◌&&◌, arith, All,
}
use appletalk.Prelude.Bytes.{IsByte, IsU16}
use appletalk.Tashtalk.{crc_shift, crc_shifts, crc_update, crc_fold, fcs, fcs_residue_ok}

module _ (f : ℕ → ℕ → Bool) where
  row : ℕ → ℕ → Bool
  row m zero = true
  row m (suc y) = f m y && row m y

  rows : ℕ → ℕ → Bool
  rows zero n = true
  rows (suc x) n = row x n && rows x n

  row_at : (m n y : ℕ) → row m n ≡ true → y < n → f m y ≡ true
  unfolding row
  row_at m zero y t h = absurd (omega arith)
  row_at m (suc n) y t h = ground (arith, row_at m n y)

  rows_at : (m n x y : ℕ) → rows m n ≡ true → x < m → y < n → f x y ≡ true
  unfolding rows
  rows_at zero n x y t h k = absurd (omega arith)
  rows_at (suc m) n x y t h k = ground (arith, rows_at m n x y, row_at m n y)

invert_table : rows (λ h l. bit_xor (h * 256 + l) (bit_xor l 255) == h * 256 + 255) 256 256 ≡ true
unfolding rows row
invert_table = refl

-- The low byte of the register against its own inverse.
invert_low : (h l : ℕ) → h < 256 → l < 256 → bit_xor (h * 256 + l) (bit_xor l 255) ≡ h * 256 + 255
invert_low h l p q = (==_iff _ _).0 (rows_at _ 256 256 h l invert_table p q)

residue_table :
    row (λ m h. crc_update (crc_shifts 8 (h * 256 + 255)) (bit_xor h 255) == 0xf0b8) 0 256 ≡ true
unfolding row crc_update crc_shifts crc_shift
residue_table = refl

crc_update_low :
    (h l : ℕ)
    → h < 256
    → l < 256
    → crc_update (h * 256 + l) (bit_xor l 255) ≡ crc_shifts 8 (h * 256 + 255)
unfolding crc_update
crc_update_low h l p q = ap (crc_shifts 8) (invert_low h l p q)

residue_of :
    (h l : ℕ)
    → h < 256
    → l < 256
    → crc_update (crc_update (h * 256 + l) (bit_xor l 255)) (bit_xor h 255) ≡ 0xf0b8
residue_of h l p q =
    ap (λ c. crc_update c (bit_xor h 255)) (crc_update_low h l p q)
    ∙ (==_iff _ _).0 (row_at _ 0 256 h residue_table p)

residue :
    (crc : ℕ)
    → IsU16 crc
    → crc_fold crc (bit_xor (crc % 256) 0xff ∷ bit_xor (crc / 256 % 256) 0xff ∷ []) ≡ 0xf0b8
unfolding crc_fold
residue crc h =
    let split : crc ≡ crc / 256 % 256 * 256 + crc % 256 = omega arith in
    ap (λ c. crc_update (crc_update c (bit_xor (crc % 256) 255)) (bit_xor (crc / 256 % 256) 255))
      split
    ∙ residue_of (crc / 256 % 256) (crc % 256) (omega arith) (omega arith)

bit_bound : (x y : ℕ) → x < 2 → y < 2 → differ x y < 2
bit_bound zero y h k = k
bit_bound (suc zero) zero h k = omega arith
bit_bound (suc zero) (suc y) h k = omega arith
bit_bound (suc (suc x)) y h k = absurd (omega arith)

digits_bound : (k n a b : ℕ) → a < 2 ^ k → b < 2 ^ k → digits (λ b. b) differ n a b < 2 ^ k
digits_bound k zero a b p q = q
digits_bound k (suc n) zero b p q = q
digits_bound zero (suc n) (suc a) b p q = absurd (omega arith)
digits_bound (suc k) (suc n) (suc a) b p q = omega (
  arith,
  digits_bound k n (suc a / 2) (b / 2) (omega arith) (omega arith),
  bit_bound (suc a % 2) (b % 2) (omega arith) (omega arith),
)

bit_xor-IsU16 : (a b : ℕ) → IsU16 a → IsU16 b → IsU16 (bit_xor a b)
bit_xor-IsU16 a b p q = rw (bit_xor-bitwise a b) (digits_bound 16 a a b p q)

crc_shift-IsU16 : (crc : ℕ) → IsU16 crc → IsU16 (crc_shift crc)
unfolding crc_shift
crc_shift-IsU16 crc h = ground (arith, bit_xor-IsU16 (crc / 2) 0x8408 (omega arith) (omega arith))

crc_shifts-IsU16 : (n crc : ℕ) → IsU16 crc → IsU16 (crc_shifts n crc)
unfolding crc_shifts
crc_shifts-IsU16 zero crc h = h
crc_shifts-IsU16 (suc n) crc h = crc_shifts-IsU16 n (crc_shift crc) (crc_shift-IsU16 crc h)

crc_fold-IsU16 : (crc : ℕ) (bs : List ℕ) → IsU16 crc → All IsByte bs → IsU16 (crc_fold crc bs)
unfolding crc_fold crc_update
crc_fold-IsU16 crc [] h v = h
crc_fold-IsU16 crc (b ∷ bs) h (v, vs) =
    crc_fold-IsU16 (crc_shifts 8 (bit_xor crc b)) bs
      (crc_shifts-IsU16 8 (bit_xor crc b) (bit_xor-IsU16 crc b h (omega arith))) vs

crc_fold-append :
    (crc : ℕ) (cs bs : List ℕ) → crc_fold crc (cs ++ bs) ≡ crc_fold (crc_fold crc cs) bs
unfolding crc_fold
crc_fold-append crc [] bs = refl
crc_fold-append crc (c ∷ cs) bs = crc_fold-append (crc_update crc c) cs bs

-- Whatever a frame's bytes, below 256, it checks out with its own check sequence behind it.
pub fcs_residue_ok-fcs :
    (frame : List ℕ) → All IsByte frame → fcs_residue_ok (frame ++ fcs frame) ≡ true
unfolding fcs_residue_ok fcs
fcs_residue_ok-fcs frame v = rw (
  crc_fold-append 0xffff frame (fcs frame),
  residue (crc_fold 0xffff frame) (crc_fold-IsU16 0xffff frame (omega arith) v),
)
