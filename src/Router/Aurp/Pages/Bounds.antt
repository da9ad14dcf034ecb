-- ===== src/Router/Aurp/Pages/Bounds.antt =====
-- src/router/aurp.rs: the pages of an export, and the bytes that each takes in a packet.
use appletalk.Prelude.{
  ℕ, ◌+◌, ◌≤◌, ◌≡◌, refl, ◌∙◌, ap, inl, inr, List, [], ◌∷◌, ◌++◌, ltb, length, length-append, All,
  arith, Bool-cases,
}
use mathlib.Core.List.{append_assoc, append-nil}
use appletalk.Wire.Rtmp.{NetworkTuple, encode_with}
use appletalk.Wire.Aurp.Tuples.{encode_tuples}
use appletalk.Wire.Items.{encode_all}
use appletalk.Router.Aurp.{max_body}
use appletalk.Router.Aurp.Pages.{tuple_size, split_loop, split_tuples}

abbrev pub joined : List (List NetworkTuple) → List NetworkTuple
joined [] = []
joined (page ∷ pages) = page ++ joined pages

abbrev pub Fits : List NetworkTuple → Type 0
Fits page = length (encode_tuples page) ≤ max_body

joined-split_loop :
    (ts page : List NetworkTuple) (used : ℕ) → joined (split_loop page used ts) ≡ page ++ ts
unfolding split_loop
joined-split_loop [] page used = refl
joined-split_loop (t ∷ ts) page used = elim (Bool-cases (ltb max_body (used + tuple_size t))) [
  | inl e ↦ rw (e, split_loop) (ap (λ x. page ++ x) (joined-split_loop ts (t ∷ []) (tuple_size t)))
  | inr e ↦
      rw (e, split_loop)
        (joined-split_loop ts (page ++ t ∷ []) (used + tuple_size t)
          ∙ append_assoc page (t ∷ []) ts)
]

length-encode_with : (t : NetworkTuple) → length (encode_with 0 t) ≡ tuple_size t
unfolding encode_with
length-encode_with t = elim (Bool-cases t.extended) [ inl e ↦ rw e refl | inr e ↦ rw e refl ]

length-encode_tuples :
    (page : List NetworkTuple) (t : NetworkTuple)
    → length (encode_tuples (page ++ t ∷ [])) ≡ length (encode_tuples page) + tuple_size t
unfolding encode_tuples encode_all
length-encode_tuples [] t = rw (append-nil (encode_with 0 t), length-encode_with t) (omega arith)
length-encode_tuples (p ∷ page) t =
    rw
      (
        length-append (encode_with 0 p) (encode_tuples page),
        length-append (encode_with 0 p) (encode_tuples (page ++ t ∷ [])),
      )
      (rw (length-encode_tuples page t) (omega arith))

length-one_tuple : (t : NetworkTuple) → length (encode_tuples (t ∷ [])) ≡ tuple_size t
unfolding encode_tuples encode_all
length-one_tuple t = rw (append-nil (encode_with 0 t)) (length-encode_with t)

split_loop-Fits :
    (ts page : List NetworkTuple) (used : ℕ)
    → length (encode_tuples page) ≡ used
    → used ≤ max_body
    → All Fits (split_loop page used ts)
unfolding split_loop
split_loop-Fits [] page used e l = (rw e l, tt)
split_loop-Fits (t ∷ ts) page used e l = elim (Bool-cases (ltb max_body (used + tuple_size t))) [
  | inl f ↦
      rw (f, split_loop)
        (rw e l, split_loop-Fits ts (t ∷ []) (tuple_size t) (length-one_tuple t) (ground arith))
  | inr f ↦
      rw (f, split_loop)
        (split_loop-Fits ts (page ++ t ∷ []) (used + tuple_size t)
          (rw (length-encode_tuples page t, e) refl) (ground arith))
]

-- The pages of an export hold its tuples in order, none lost or repeated, and each page takes 1400
-- bytes at most in a packet.
pub split_tuples_lem :
    (ts : List NetworkTuple) → (joined (split_tuples ts) ≡ ts) × All Fits (split_tuples ts)
unfolding split_tuples encode_tuples encode_all
split_tuples_lem ts = (joined-split_loop ts [] 0, split_loop-Fits ts [] 0 refl (omega arith))
