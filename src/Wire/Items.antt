-- ===== src/Wire/Items.antt =====
-- Loops that read one item after the other out of a packet's bytes (src/wire), and what is written for
-- them.
use mathlib.Core.List.{append_assoc}
use appletalk.Prelude.{
  ℕ, zero, suc, ◌≤◌, ◌<◌, ◌≡◌, refl, Option, none, some, List, [], ◌∷◌, ◌++◌, length, length-append,
  arith, All, ◌>>=◌,
}

unfoldable pub encode_all {ℓ} : {A : Type ℓ} → (A → List ℕ) → List A → List ℕ
encode_all enc [] = []
encode_all enc (a ∷ as') = enc a ++ encode_all enc as'

module _ {ℓ} {A : Type ℓ} (item : List ℕ → Option (A × List ℕ)) where
  -- `while !rest.is_empty()`; an item takes one byte at least, so one unit of fuel a byte is enough.
  unfoldable pub to_end : ℕ → List ℕ → Option (List A)
  to_end fuel [] = some []
  to_end zero (b ∷ bs) = none
  to_end (suc fuel) (b ∷ bs) = do
    (a, rest) ← item (b ∷ bs)
    items ← to_end fuel rest
    some (a ∷ items)

  -- `for _ in 0..count`, and what is left.
  unfoldable pub counted : ℕ → List ℕ → Option (List A × List ℕ)
  counted zero p = some ([], p)
  counted (suc n) p = do
    (a, rest) ← item p
    (items, rest') ← counted n rest
    some (a ∷ items, rest')

  pub to_end_step :
      (n : ℕ) (p rest : List ℕ) (a : A)
      → 0 < length p
      → item p ≡ some (a, rest)
      → to_end (suc n) p ≡ (to_end n rest >>= λ items. some (a ∷ items))
  unfolding to_end
  to_end_step n [] rest a h e = absurd (omega arith)
  to_end_step n (b ∷ bs) rest a h e = rw e

  module _ (enc : A → List ℕ) (IsItem : A → Type 0) (size : (a : A) → IsItem a → 0 < length (enc a))
      (read : (a : A) (rest : List ℕ) → IsItem a → item (enc a ++ rest) ≡ some (a, rest)) where
    -- Items that are read back one by one are read back to the end.
    pub to_end-encode_all :
        (n : ℕ) (items : List A)
        → All IsItem items
        → length (encode_all enc items) ≤ n
        → to_end n (encode_all enc items) ≡ some items
    unfolding encode_all
    to_end-encode_all n [] v h = unfold to_end in refl
    to_end-encode_all zero (a ∷ items) (v, vs) h =
        absurd (omega (arith, length-append (enc a) (encode_all enc items), size a v))
    to_end-encode_all (suc n) (a ∷ items) (v, vs) h =
        let sizes = length-append (enc a) (encode_all enc items) in
        let nonempty : 0 < length (enc a ++ encode_all enc items) =
          omega (arith, sizes, size a v) in
        rw (to_end_step n _ (encode_all enc items) a nonempty (read a (encode_all enc items) v))
          (rw (to_end-encode_all n items vs (omega (arith, sizes, size a v)), ◌>>=◌))

    pub counted-encode_all :
        (items : List A) (rest : List ℕ)
        → All IsItem items
        → counted (length items) (encode_all enc items ++ rest) ≡ some (items, rest)
    unfolding encode_all counted
    counted-encode_all [] rest v = refl
    counted-encode_all (a ∷ items) rest (v, vs) =
        rw
          (
            append_assoc (enc a) (encode_all enc items) rest,
            read a (encode_all enc items ++ rest) v,
            ◌>>=◌,
          )
          (rw (counted-encode_all items rest vs, ◌>>=◌))
