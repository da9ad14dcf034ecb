-- ===== src/Router/Local/Beacons.antt =====
-- src/router/local.rs: a routing table split over RTMP packets.
use appletalk.Prelude.{
  ℕ, ◌+◌, ◌≤◌, ◌≡◌, refl, ap, ◌∙◌, inl, inr, false, not, ◌&&◌, Option, none, some, List, [], ◌∷◌,
  ◌++◌, ltb, length, length-append, All, arith, Bool-cases,
}
use mathlib.Core.List.{append_assoc, append-nil}
use appletalk.Wire.{Addr}
use appletalk.Wire.Rtmp.{
  NetworkTuple, Rtmp, routes, request, rdr, encode, encode_tuples, encode_range, encode_with,
  rtmp_trailer,
}
use appletalk.Router.Local.{ddp_max}
use appletalk.Router.Local.Rtmp.{chunk, chunk_loop, base_size}
use appletalk.Router.Aurp.Pages.{tuple_size, is_empty}

abbrev pub tuples_of : Rtmp → List NetworkTuple
tuples_of (routes sender range tuples) = tuples
tuples_of request = []
tuples_of (rdr split_horizon) = []

abbrev pub told : List Rtmp → List NetworkTuple
told [] = []
told (r ∷ rs) = tuples_of r ++ told rs

-- Inside one datagram.
abbrev pub Fits : Rtmp → Type 0
Fits r = length (encode r) ≤ ddp_max

told-chunk_loop :
    (sender : Addr) (range : Option (ℕ × ℕ)) (base : ℕ) (ts batch : List NetworkTuple) (size : ℕ)
    → told (chunk_loop sender range base batch size ts) ≡ batch ++ ts
unfolding chunk_loop
told-chunk_loop sender range base [] batch size = refl
told-chunk_loop sender range base (t ∷ ts) batch size =
    elim (Bool-cases (ltb ddp_max (size + tuple_size t) && not (is_empty batch))) [
      | inl e ↦
          rw (e, chunk_loop)
            (ap (λ x. batch ++ x)
              (told-chunk_loop sender range base ts (t ∷ []) (base + tuple_size t)))
      | inr e ↦
          rw (e, chunk_loop)
            (told-chunk_loop sender range base ts (batch ++ t ∷ []) (size + tuple_size t)
              ∙ append_assoc batch (t ∷ []) ts)
    ]

length-encode_with : (t : NetworkTuple) → length (encode_with rtmp_trailer t) ≡ tuple_size t
unfolding encode_with
length-encode_with t = elim (Bool-cases t.extended) [ inl e ↦ rw e refl | inr e ↦ rw e refl ]

length-encode_tuples :
    (page : List NetworkTuple) (t : NetworkTuple)
    → length (encode_tuples (page ++ t ∷ [])) ≡ length (encode_tuples page) + tuple_size t
unfolding encode_tuples
length-encode_tuples [] t =
    rw (append-nil (encode_with rtmp_trailer t), length-encode_with t) (omega arith)
length-encode_tuples (p ∷ page) t =
    rw
      (
        length-append (encode_with rtmp_trailer p) (encode_tuples page),
        length-append (encode_with rtmp_trailer p) (encode_tuples (page ++ t ∷ [])),
      )
      (rw (length-encode_tuples page t) (omega arith))

length-encode :
    (sender : Addr) (range : Option (ℕ × ℕ)) (tuples : List NetworkTuple)
    → length (encode (routes sender range tuples)) ≡ base_size range + length (encode_tuples tuples)
unfolding encode encode_range
length-encode sender none tuples = omega arith
length-encode sender (some range) tuples = omega arith

base_small : (range : Option (ℕ × ℕ)) → base_size range ≤ 10
base_small none = omega arith
base_small (some range) = omega arith

one_more :
    (range : Option (ℕ × ℕ)) (t : NetworkTuple) (batch : List NetworkTuple) (size : ℕ)
    → base_size range + length (encode_tuples batch) ≡ size
    → (ltb ddp_max (size + tuple_size t) && not (is_empty batch)) ≡ false
    → size + tuple_size t ≤ ddp_max
unfolding encode_tuples
one_more range t [] size e h = let b = base_small range in ground arith
one_more range t (p ∷ batch) size e h = ground arith

length-one_tuple : (t : NetworkTuple) → length (encode_tuples (t ∷ [])) ≡ tuple_size t
unfolding encode_tuples
length-one_tuple t = rw (append-nil (encode_with rtmp_trailer t)) (length-encode_with t)

chunk_loop-Fits :
    (sender : Addr) (range : Option (ℕ × ℕ)) (ts batch : List NetworkTuple) (size : ℕ)
    → base_size range + length (encode_tuples batch) ≡ size
    → size ≤ ddp_max
    → All Fits (chunk_loop sender range (base_size range) batch size ts)
unfolding chunk_loop
chunk_loop-Fits sender range [] batch size e l = (rw (length-encode sender range batch, e) l, tt)
chunk_loop-Fits sender range (t ∷ ts) batch size e l =
    elim (Bool-cases (ltb ddp_max (size + tuple_size t) && not (is_empty batch))) [
      | inl f ↦
          rw (f, chunk_loop)
            (
              rw (length-encode sender range batch, e) l,
              chunk_loop-Fits sender range ts (t ∷ []) (base_size range + tuple_size t)
                  (rw (length-one_tuple t) refl) (let b = base_small range in ground arith),
            )
      | inr f ↦
          rw (f, chunk_loop)
            (chunk_loop-Fits sender range ts (batch ++ t ∷ []) (size + tuple_size t)
              (let q = length-encode_tuples batch t in omega arith)
              (one_more range t batch size e f))
    ]

-- The RTMP packets that a routing table is split over hold its tuples in order, none lost or repeated,
-- and each packet takes 586 bytes at most.
pub chunk_lem :
    (sender : Addr) (range : Option (ℕ × ℕ)) (tuples : List NetworkTuple)
    → (told (chunk sender range tuples) ≡ tuples) × All Fits (chunk sender range tuples)
unfolding chunk
chunk_lem sender range tuples = (
  told-chunk_loop sender range (base_size range) tuples [] (base_size range),
  chunk_loop-Fits sender range tuples [] (base_size range) (unfold encode_tuples in omega arith)
      (let b = base_small range in omega arith),
)
