-- ===== src/Wire/Aurp/Tuples.antt =====
-- Domain identifiers, network numbers, route tuples and events (src/wire/aurp.rs).
use appletalk.Prelude.{
  ℕ, ◌+◌, ◌*◌, ◌/◌, true, false, bit_and, bit_or, Option, none, some, List, [], ◌∷◌, ◌==◌, ◌&&◌,
  ltb, length, if◌then◌else◌,
}
use appletalk.Prelude.Bytes.{from_be, hi_byte, lo_byte}
use appletalk.Wire.Rtmp.{NetworkTuple, parse_tuple, encode_with}
use appletalk.Wire.Items.{to_end, encode_all}
use appletalk.Wire.Aurp.{Di, null, ip, EventTuple, no_tuple}

-- A length byte, an authority byte and the authority's bytes; two reserved ones before an address.
unfoldable pub parse_di : List ℕ → Option (Di × List ℕ)
parse_di (h0 ∷ h1 ∷ p) =
    if h1 == 0 && h0 == 1 then some (null, p) else if h1 == 1 && h0 == 7 then parse_ip p else none
  where
    parse_ip : List ℕ → Option (Di × List ℕ)
    parse_ip (r0 ∷ r1 ∷ a ∷ b ∷ c ∷ d ∷ rest) = some (ip (from_be a b * 65536 + from_be c d), rest)
    parse_ip _ = none
parse_di _ = none

unfoldable pub encode_di : Di → List ℕ
encode_di null = 0x01 ∷ 0x00 ∷ []
encode_di (ip a) =
    0x07
    ∷ 0x01
    ∷ 0x00
    ∷ 0x00
    ∷ hi_byte (a / 65536)
    ∷ lo_byte (a / 65536)
    ∷ hi_byte a
    ∷ lo_byte a
    ∷ []

unfoldable pub parse_tuples : List ℕ → Option (List NetworkTuple)
parse_tuples rest = to_end parse_tuple (length rest) rest

-- Where RTMP's extended tuple ends in its version, this one ends in a zero.
unfoldable pub encode_tuples : List NetworkTuple → List ℕ
encode_tuples = encode_all (encode_with 0x00)

-- A number in two bytes.
unfoldable pub parse_net : List ℕ → Option (ℕ × List ℕ)
parse_net (a ∷ b ∷ rest) = some (from_be a b, rest)
parse_net _ = none

unfoldable pub encode_net : ℕ → List ℕ
encode_net n = hi_byte n ∷ lo_byte n ∷ []

-- Behind the code, a tuple whose extended form has no trailing zero.
unfoldable pub parse_event_tuple : ℕ → List ℕ → Option (EventTuple × List ℕ)
parse_event_tuple code (b0 ∷ b1 ∷ b2 ∷ rest) =
    if bit_and b2 0x80 == 0
    then some (
      record {
        code = code;
        tuple = record { range = (from_be b0 b1, from_be b0 b1); extended = false; distance = b2 };
      },
      rest,
    )
    else parse_end rest
  where
    parse_end : List ℕ → Option (EventTuple × List ℕ)
    parse_end (e0 ∷ e1 ∷ tail) = some (
      record {
        code = code;
        tuple = record {
          range = (from_be b0 b1, from_be e0 e1);
          extended = true;
          distance = bit_and b2 0x7f;
        };
      },
      tail,
    )
    parse_end _ = none
parse_event_tuple code _ = none

-- The null event is one byte, and codes above 5 are undefined.
unfoldable pub parse_event : List ℕ → Option (EventTuple × List ℕ)
unfolding parse_event_tuple
parse_event [] = none
parse_event (code ∷ rest) =
    if ltb 5 code
    then none
    else if code == 0
    then some (record { code = code; tuple = no_tuple }, rest)
    else parse_event_tuple code rest

unfoldable pub encode_event : EventTuple → List ℕ
encode_event e =
    if e.code == 0
    then e.code ∷ []
    else e.code
      ∷ hi_byte e.tuple.range.0
      ∷ lo_byte e.tuple.range.0
      ∷ (if e.tuple.extended
          then bit_or e.tuple.distance 0x80 ∷ hi_byte e.tuple.range.1 ∷ lo_byte e.tuple.range.1 ∷ []
          else bit_and e.tuple.distance 0x7f ∷ [])
