-- ===== src/Wire/Llap/RoundTrip.antt =====
-- LocalTalk frames written and read back (src/wire/llap.rs).
use appletalk.Prelude.{
  ℕ, ◌+◌, ◌*◌, ◌/◌, ◌%◌, ◌≤◌, ◌<◌, ◌≡◌, refl, ◌↔◌, ◌⊎◌, inl, inr, bit_and, true, some, List, [],
  ◌∷◌, length, arith, Bool-cases,
}
use appletalk.Wire.Llap.{Llap, llap_short_ddp, parse, encode, is_control, length_ok, data_ok}
use appletalk.Wire.Ddp.{Ddp, to_short_bytes}
use appletalk.Prelude.Bytes.{bit_and_3, from_be}

-- What a frame may carry: an enquiry, an acknowledgement, a request or a clearance to send has no data,
-- and any other type from 1 to 127 has at most 600 bytes, which begin with their own 10-bit length.
abbrev pub IsControl : ℕ → Type 0
IsControl typ = (typ ≡ 0x81) ⊎ ((typ ≡ 0x82) ⊎ ((typ ≡ 0x84) ⊎ (typ ≡ 0x85)))

abbrev pub HasLength : List ℕ → Type 0
HasLength [] = ⊥
HasLength (l0 ∷ []) = ⊥
HasLength (l0 ∷ l1 ∷ rest) = bit_and l0 0x03 * 256 + l1 ≡ 2 + length rest

abbrev pub IsLlap : ℕ → List ℕ → Type 0
IsLlap typ bytes =
    (IsControl typ × (bytes ≡ []))
    ⊎ ((0 < typ) × (typ < 0x80) × (length bytes ≤ 600) × HasLength bytes)

is_control-IsControl : (typ : ℕ) → (is_control typ ≡ true) ↔ IsControl typ
unfolding is_control
is_control-IsControl typ = (λ e. ground arith, λ e. ground arith)

length_ok-HasLength : (bytes : List ℕ) → (length_ok bytes ≡ true) ↔ HasLength bytes
unfolding length_ok from_be
length_ok-HasLength [] = (λ e. cc, λ e. absurd e)
length_ok-HasLength (l0 ∷ []) = (λ e. cc, λ e. absurd e)
length_ok-HasLength (l0 ∷ l1 ∷ rest) = (λ e. ground arith, λ e. ground arith)

data_ok-IsLlap : (typ : ℕ) (bytes : List ℕ) → data_ok typ bytes ≡ true → IsLlap typ bytes
unfolding data_ok
data_ok-IsLlap typ bytes e = elim (Bool-cases (is_control typ)) [
  | inl c ↦ inl ((is_control-IsControl typ).0 c, empty_of bytes (ground arith))
  | inr c ↦
      let ok : length_ok bytes ≡ true = ground arith in
      inr (ground arith, ground arith, ground arith, (length_ok-HasLength bytes).0 ok)
]
  where
    empty_of : (bs : List ℕ) → length bs ≡ 0 → bs ≡ []
    empty_of [] h = refl
    empty_of (b ∷ bs) h = absurd (omega arith)

IsLlap-data_ok : (typ : ℕ) (bytes : List ℕ) → IsLlap typ bytes → data_ok typ bytes ≡ true
unfolding data_ok
IsLlap-data_ok typ bytes (inl (c, e)) = rw (e, (is_control-IsControl typ).1 c) refl
IsLlap-data_ok typ bytes (inr (z, h, m, l)) =
    let ok = (length_ok-HasLength bytes).1 l in
    elim (Bool-cases (is_control typ)) [
      | inl c ↦ let k = (is_control-IsControl typ).0 c in absurd (ground arith)
      | inr c ↦ ground arith
    ]

parse_iff :
    (p : List ℕ) (l : Llap) → (parse p ≡ some l) ↔ ((encode l ≡ p) × (data_ok l.typ l.bytes ≡ true))
unfolding parse encode
parse_iff [] l = (λ e. cc, λ e. cc)
parse_iff (a ∷ []) l = (λ e. cc, λ e. cc)
parse_iff (a ∷ b ∷ []) l = (λ e. cc, λ e. cc)
parse_iff (a ∷ b ∷ c ∷ p) l = (λ e. ground arith, λ e. ground arith)

-- Parsing succeeds exactly on the bytes of a frame whose type is one of the four control types, with no
-- data, or is 1 to 127, with at most 600 bytes of data that begin with their own 10-bit length; it
-- gives that frame, so that nothing of the input is lost or made up.
pub parse_iff_llap :
    (p : List ℕ) (l : Llap) → (parse p ≡ some l) ↔ ((encode l ≡ p) × IsLlap l.typ l.bytes)
parse_iff_llap p l =
    let (to, from) = parse_iff p l in
    (
      λ e. ((to e).0, data_ok-IsLlap l.typ l.bytes (to e).1),
      λ (e, v). from (e, IsLlap-data_ok l.typ l.bytes v),
    )

-- A frame that carries a datagram of at most 595 bytes of data under the short header parses to
-- itself, whatever the datagram.
pub short_ddp_parses :
    (d : Ddp) (dst src : ℕ)
    → length d.bytes ≤ 595
    → let l : Llap = record {
      dst = dst;
      src = src;
      typ = llap_short_ddp;
      bytes = to_short_bytes d;
    } in
      parse (encode l) ≡ some l
unfolding parse encode to_short_bytes
short_ddp_parses d dst src h = ground (arith, bit_and_3 ((5 + length d.bytes) % 65536 / 256 % 256))
