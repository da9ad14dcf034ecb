-- ===== src/Wire/Rtmp/RoundTrip.antt =====
-- RTMP packets written and read back (src/wire/rtmp.rs).
use appletalk.Prelude.{
  ℕ, zero, suc, ◌+◌, ◌≤◌, ◌<◌, ◌≡◌, refl, ap, ◌∙◌, inl, inr, Bool, true, false, bit_and, Option,
  none, some, List, [], ◌∷◌, ◌++◌, ◌==◌, length, arith, All, Bool-cases, Option-cases, ◌>>=◌,
}
use appletalk.Prelude.Bytes.{IsU16, bit_and_127, bit_and_128, bit_or_128}
use appletalk.Wire.Rtmp.{
  NetworkTuple, Rtmp, routes, request, rdr, parse_tuple, parse_extended, encode_with, rtmp_trailer,
  tuples_loop, first_tuple, parse_range, parse_data, parse, ddp_type, encode_range, encode_tuples,
  encode,
}

-- A nonextended tuple is for one network; a distance has seven bits.
pub record IsTuple (t : NetworkTuple) : Type 0 where
  pub start : IsU16 t.range.0
  pub end : IsU16 t.range.1
  pub distance : t.distance < 128
  pub single : t.extended ≡ false → t.range.1 ≡ t.range.0

parse_tuple-encode_by :
    (trailer : ℕ) (t : NetworkTuple) (extended : Bool) (rest : List ℕ)
    → t.extended ≡ extended
    → IsTuple t
    → parse_tuple (encode_with trailer t ++ rest) ≡ some (t, rest)
unfolding parse_tuple encode_with
parse_tuple-encode_by trailer t true rest e v = ground (
  arith,
  bit_or_128 t.distance v.distance,
  bit_and_128 (t.distance + 128),
  bit_and_127 (t.distance + 128),
)
parse_tuple-encode_by trailer t false rest e v =
    ground (arith, bit_and_127 t.distance, bit_and_128 t.distance)

-- A tuple is read back whole, whatever the trailer, and what follows it is left.
pub parse_tuple-encode_with :
    (trailer : ℕ) (t : NetworkTuple) (rest : List ℕ)
    → IsTuple t
    → parse_tuple (encode_with trailer t ++ rest) ≡ some (t, rest)
parse_tuple-encode_with trailer t rest v = parse_tuple-encode_by trailer t t.extended rest refl v

pub parse_tuple_shrinks :
    (p : List ℕ) (t : NetworkTuple) (rest : List ℕ)
    → parse_tuple p ≡ some (t, rest)
    → length rest + 3 ≤ length p
unfolding parse_tuple
parse_tuple_shrinks [] t rest e = cc
parse_tuple_shrinks (a ∷ []) t rest e = cc
parse_tuple_shrinks (a ∷ b ∷ []) t rest e = cc
parse_tuple_shrinks (a ∷ b ∷ c ∷ p) t rest e = elim (Bool-cases (bit_and c 0x80 == 0)) [
  | inl s ↦ ground arith
  | inr s ↦ ground (arith, extended_shrinks p t rest (ground arith))
]
  where
    extended_shrinks :
        (q : List ℕ) (t : NetworkTuple) (rest : List ℕ)
        → parse_extended (a ∷ b ∷ c ∷ q) ≡ some (t, rest)
        → length rest ≤ length q
    extended_shrinks [] t rest e = cc
    extended_shrinks (x ∷ []) t rest e = cc
    extended_shrinks (x ∷ y ∷ []) t rest e = cc
    extended_shrinks (x ∷ y ∷ z ∷ q) t rest e = ground arith

-- Fuel above the bytes left changes nothing.
tuples_loop_fuel :
    (n m : ℕ) (p : List ℕ) → length p ≤ n → length p ≤ m → tuples_loop n p ≡ tuples_loop m p
unfolding tuples_loop
tuples_loop_fuel zero zero [] h k = refl
tuples_loop_fuel zero (suc m) [] h k = refl
tuples_loop_fuel (suc n) zero [] h k = refl
tuples_loop_fuel (suc n) (suc m) [] h k = refl
tuples_loop_fuel zero m (b ∷ bs) h k = absurd (omega arith)
tuples_loop_fuel (suc n) zero (b ∷ bs) h k = absurd (omega arith)
tuples_loop_fuel (suc n) (suc m) (b ∷ bs) h k = elim (Option-cases (parse_tuple (b ∷ bs))) [
  | inl e ↦ rw e
  | inr ((t, rest), e) ↦
      let short = parse_tuple_shrinks (b ∷ bs) t rest e in
      rw (e, tuples_loop_fuel n m rest (omega arith) (omega arith))
]

tuples_loop_step :
    (n : ℕ) (p : List ℕ) (t : NetworkTuple) (rest : List ℕ)
    → parse_tuple p ≡ some (t, rest)
    → tuples_loop (suc n) p ≡ (tuples_loop n rest >>= λ ts. some (t ∷ ts))
unfolding tuples_loop
tuples_loop_step n [] t rest e = absurd (omega (arith, parse_tuple_shrinks [] t rest e))
tuples_loop_step n (b ∷ bs) t rest e = rw e

encode_tuples-cons :
    (t : NetworkTuple) (ts : List NetworkTuple)
    → encode_tuples (t ∷ ts) ≡ encode_with rtmp_trailer t ++ encode_tuples ts
unfolding encode_tuples
encode_tuples-cons t ts = refl

tuples_loop-encode_tuples :
    (n : ℕ) (ts : List NetworkTuple)
    → All IsTuple ts
    → length (encode_tuples ts) ≤ n
    → tuples_loop n (encode_tuples ts) ≡ some ts
tuples_loop-encode_tuples n [] v h = unfold tuples_loop encode_tuples in refl
tuples_loop-encode_tuples zero (t ∷ ts) (v, vs) h =
    let short =
      parse_tuple_shrinks _ t _ (parse_tuple-encode_with rtmp_trailer t (encode_tuples ts) v) in
    absurd (omega (arith, short, ap length (encode_tuples-cons t ts)))
tuples_loop-encode_tuples (suc n) (t ∷ ts) (v, vs) h =
    let read = parse_tuple-encode_with rtmp_trailer t (encode_tuples ts) v in
    let short = parse_tuple_shrinks _ t _ read in
    let fits : length (encode_tuples ts) ≤ n =
      omega (arith, short, ap length (encode_tuples-cons t ts)) in
    let step = tuples_loop_step n _ t _ read in
    rw (encode_tuples-cons t ts) (step ∙ rw (tuples_loop-encode_tuples n ts vs fits, ◌>>=◌))

abbrev IsRange : Option (ℕ × ℕ) → Type 0
IsRange none = Unit
IsRange (some r) = IsU16 r.0 × IsU16 r.1

abbrev pub IsPacket : Rtmp → Type 0
IsPacket (routes sender range tuples) = IsU16 sender.net × IsRange range × All IsTuple tuples
IsPacket request = Unit
IsPacket (rdr split_horizon) = Unit

first_tuple-encode_range :
    (r : ℕ × ℕ) (rest : List ℕ)
    → IsU16 r.0 × IsU16 r.1
    → first_tuple (encode_range (some r) ++ rest) ≡ some (some r, rest)
unfolding first_tuple encode_range
first_tuple-encode_range r rest v = rw (
  parse_tuple-encode_with rtmp_trailer (record { range = r; extended = true; distance = 0 }) rest
      (record { start = v.0; end = v.1; distance = omega arith; single = λ e. cc }),
  ◌>>=◌,
)

-- An extended tuple at distance 0 is no version marker.
parse_range_extended :
    (r : ℕ × ℕ) (rest : List ℕ)
    → parse_range (encode_range (some r) ++ rest) ≡ first_tuple (encode_range (some r) ++ rest)
unfolding parse_range encode_range first_tuple
parse_range_extended r rest = ground arith

parse_range-encode_range :
    (range : Option (ℕ × ℕ)) (rest : List ℕ)
    → IsRange range
    → parse_range (encode_range range ++ rest) ≡ some (range, rest)
parse_range-encode_range none rest v = unfold parse_range encode_range in refl
parse_range-encode_range (some r) rest v =
    parse_range_extended r rest ∙ first_tuple-encode_range r rest v

-- An RTMP packet is read back from its bytes under the DDP type that it travels as, if its network
-- numbers have 16 bits, its distances are below 128, and a nonextended tuple ends where it starts.
pub parse-encode_rtmp : (r : Rtmp) → IsPacket r → parse (ddp_type r) (encode r) ≡ some r
unfolding parse ddp_type encode
parse-encode_rtmp (routes sender range tuples) (net, r, ts) =
    let ranged = parse_range-encode_range range (encode_tuples tuples) r in
    let tuples_read =
      tuples_loop-encode_tuples (length (encode_tuples tuples)) tuples ts (omega arith) in
    unfold parse_data in rw (ranged, ◌>>=◌) (rw (tuples_read, ◌>>=◌) (ground arith))
parse-encode_rtmp request v = refl
parse-encode_rtmp (rdr true) v = refl
parse-encode_rtmp (rdr false) v = refl
