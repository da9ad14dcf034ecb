-- ===== src/Wire/Rtmp.antt =====
-- src/wire/rtmp.rs: RTMP packets and the network tuples that they carry. `encode` returns the bytes
-- that the source appends.
pub mod RoundTrip
use appletalk.Prelude.{
  ℕ, zero, suc, Bool, true, false, bit_and, bit_or, Option, none, some, List, [], ◌∷◌, ◌++◌, ◌==◌,
  ◌&&◌, ◌>>=◌, length, if◌then◌else◌,
}
use appletalk.Prelude.Bytes.{from_be, hi_byte, lo_byte}
use appletalk.Wire.{Addr}

-- A network range and its distance in hops.
pub record NetworkTuple : Type 0 where
  pub range : ℕ × ℕ
  pub extended : Bool
  pub distance : ℕ

-- Six bytes when the high bit of the distance is set, and else three.
unfoldable pub parse_extended : List ℕ → Option (NetworkTuple × List ℕ)
parse_extended (b0 ∷ b1 ∷ b2 ∷ b3 ∷ b4 ∷ b5 ∷ rest) = some (
  record { range = (from_be b0 b1, from_be b3 b4); extended = true; distance = bit_and b2 0x7f },
  rest,
)
parse_extended _ = none

unfoldable pub parse_tuple : List ℕ → Option (NetworkTuple × List ℕ)
unfolding parse_extended
parse_tuple (b0 ∷ b1 ∷ b2 ∷ rest) =
    if bit_and b2 0x80 == 0
    then some
        (record { range = (from_be b0 b1, from_be b0 b1); extended = false; distance = b2 }, rest)
    else parse_extended (b0 ∷ b1 ∷ b2 ∷ rest)
parse_tuple _ = none

unfoldable pub encode_with : ℕ → NetworkTuple → List ℕ
encode_with trailer t =
    if t.extended
    then hi_byte t.range.0
      ∷ lo_byte t.range.0
      ∷ bit_or t.distance 0x80
      ∷ hi_byte t.range.1
      ∷ lo_byte t.range.1
      ∷ trailer
      ∷ []
    else hi_byte t.range.0 ∷ lo_byte t.range.0 ∷ bit_and t.distance 0x7f ∷ []

-- The trailer of an extended tuple, and RTMP's version.
abbrev pub rtmp_trailer : ℕ
rtmp_trailer = 0x82

pub data Rtmp : Type 0 where
  routes : Addr → Option (ℕ × ℕ) → List NetworkTuple → Rtmp
  request : Rtmp
  rdr : Bool → Rtmp

-- `while !rest.is_empty()`; a tuple takes three bytes at least, so one unit of fuel a byte is enough.
unfoldable pub tuples_loop : ℕ → List ℕ → Option (List NetworkTuple)
tuples_loop fuel [] = some []
tuples_loop zero (b ∷ bs) = none
tuples_loop (suc fuel) (b ∷ bs) = do
  (t, tail) ← parse_tuple (b ∷ bs)
  ts ← tuples_loop fuel tail
  some (t ∷ ts)

-- The version marker of a nonextended network in place of the first tuple.
unfoldable pub first_tuple : List ℕ → Option (Option (ℕ × ℕ) × List ℕ)
first_tuple rest = do
  (first, tail) ← parse_tuple rest
  if first.extended then some (some first.range, tail) else none

unfoldable pub parse_range : List ℕ → Option (Option (ℕ × ℕ) × List ℕ)
unfolding first_tuple
parse_range (a ∷ b ∷ c ∷ rest) =
    if a == 0 && (b == 0 && c == rtmp_trailer)
    then some (none, rest)
    else first_tuple (a ∷ b ∷ c ∷ rest)
parse_range rest = first_tuple rest

unfoldable pub parse_data : List ℕ → Option Rtmp
parse_data (h0 ∷ h1 ∷ h2 ∷ h3 ∷ rest) =
    if h2 == 8
    then (do
      (range, tail) ← parse_range rest
      tuples ← tuples_loop (length tail) tail
      some (routes (record { net = from_be h0 h1; node = h3 }) range tuples))
    else none
parse_data _ = none

abbrev pub ddp_rtmp_data : ℕ
ddp_rtmp_data = 1

abbrev pub ddp_rtmp_req : ℕ
ddp_rtmp_req = 5

unfoldable pub parse_request : List ℕ → Option Rtmp
parse_request (b ∷ []) =
    if b == 1
    then some request
    else if b == 2
    then some (rdr true)
    else if b == 3
    then some (rdr false)
    else none
parse_request _ = none

unfoldable pub parse : ℕ → List ℕ → Option Rtmp
unfolding parse_request
parse ddp_type p =
    if ddp_type == ddp_rtmp_data
    then parse_data p
    else if ddp_type == ddp_rtmp_req
    then parse_request p
    else none

unfoldable pub ddp_type : Rtmp → ℕ
ddp_type (routes sender range tuples) = ddp_rtmp_data
ddp_type request = ddp_rtmp_req
ddp_type (rdr split_horizon) = ddp_rtmp_req

unfoldable pub encode_range : Option (ℕ × ℕ) → List ℕ
unfolding encode_with
encode_range none = 0 ∷ 0 ∷ rtmp_trailer ∷ []
encode_range (some range) =
    encode_with rtmp_trailer (record { range = range; extended = true; distance = 0 })

unfoldable pub encode_tuples : List NetworkTuple → List ℕ
encode_tuples [] = []
encode_tuples (t ∷ ts) = encode_with rtmp_trailer t ++ encode_tuples ts

unfoldable pub encode : Rtmp → List ℕ
encode (routes sender range tuples) =
    hi_byte sender.net
    ∷ lo_byte sender.net
    ∷ 8
    ∷ sender.node
    ∷ (encode_range range ++ encode_tuples tuples)
encode request = 1 ∷ []
encode (rdr split_horizon) = (if split_horizon then 2 else 3) ∷ []
