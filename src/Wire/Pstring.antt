-- ===== src/Wire/Pstring.antt =====
-- src/wire/mod.rs: length-prefixed (Pascal) strings. A byte is the char with its code point.
use appletalk.Prelude.{
  ℕ, zero, suc, ◌+◌, ◌%◌, ◌≤◌, ◌<◌, ◌≡◌, refl, ap, Option, none, some, List, [], ◌∷◌, ◌++◌, map,
  arith, length, take, All, ◌>>=◌, >>=-eq-some,
}
use mathlib.Core.Path.{ap₂}
use appletalk.Prelude.Bytes.{IsByte}
use appletalk.Wire.{Name}

-- `p.get(..n)?`, and what follows it.
unfoldable pub split_at : ℕ → List ℕ → Option (List ℕ × List ℕ)
split_at zero p = some ([], p)
split_at (suc n) [] = none
split_at (suc n) (b ∷ p) = split_at n p >>= λ (s, rest). some (b ∷ s, rest)

unfoldable pub pstring : List ℕ → Option (Name × List ℕ)
pstring [] = none
pstring (len ∷ p) = split_at len p

-- At most 32 chars, each cast to a byte.
unfoldable pub put_pstring : Name → List ℕ
put_pstring s = let bytes = map (λ c. c % 256) (take 32 s) in length bytes % 256 ∷ bytes

pub split_at-append : (s rest : List ℕ) → split_at (length s) (s ++ rest) ≡ some (s, rest)
unfolding split_at
split_at-append [] rest = refl
split_at-append (b ∷ s) rest = rw (split_at-append s rest, ◌>>=◌)

-- A name that can have come off the wire.
abbrev pub IsName : Name → Type 0
IsName s = (length s ≤ 32) × All IsByte s

take-all : (n : ℕ) (s : List ℕ) → length s ≤ n → take n s ≡ s
take-all zero [] h = refl
take-all zero (c ∷ s) h = absurd (omega arith)
take-all (suc n) [] h = refl
take-all (suc n) (c ∷ s) h = ap (◌∷◌ c) (take-all n s (omega arith))

map-cast : (s : List ℕ) → All IsByte s → map (λ c. c % 256) s ≡ s
map-cast [] h = refl
map-cast (c ∷ s) (h, hs) = ap₂ ◌∷◌ (omega arith) (map-cast s hs)

-- A name of at most 32 bytes is written whole.
pub put_pstring_whole : (s : List ℕ) → IsName s → put_pstring s ≡ length s ∷ s
unfolding put_pstring
put_pstring_whole s (short, bytes) =
    rw (take-all 32 s short, map-cast s bytes) (ap (λ n. n ∷ s) (omega arith))

-- A name of at most 32 bytes is read back, and what follows it is left.
pub pstring-put_pstring :
    (s rest : List ℕ) → IsName s → pstring (put_pstring s ++ rest) ≡ some (s, rest)
unfolding put_pstring
pstring-put_pstring s rest (short, bytes) =
    rw (take-all 32 s short, map-cast s bytes) (small (length s) refl)
  where
    small : (n : ℕ) → n ≡ length s → pstring (n % 256 ∷ (s ++ rest)) ≡ some (s, rest)
    small n e =
        let fits : n % 256 ≡ length s = omega arith in
        unfold pstring in rw fits (split_at-append s rest)

split_at_length :
    (n : ℕ) (p s rest : List ℕ) → split_at n p ≡ some (s, rest) → length p ≡ n + length rest
unfolding split_at
split_at_length zero p s rest e = ground arith
split_at_length (suc n) [] s rest e = cc
split_at_length (suc n) (b ∷ p) s rest e =
    let ((s', rest'), e', q) =
      >>=-eq-some (split_at n p) (λ (s, rest). some (b ∷ s, rest)) (s, rest) e in
    ground (arith, split_at_length n p s' rest' e')

-- Reading a string takes one byte at least.
pub pstring_shrinks : (p s rest : List ℕ) → pstring p ≡ some (s, rest) → length rest < length p
unfolding pstring
pstring_shrinks [] s rest e = cc
pstring_shrinks (len ∷ p) s rest e = omega (arith, split_at_length len p s rest e)
