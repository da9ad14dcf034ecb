-- ===== src/Wire/Aurp/RoundTrip/Items.antt =====
-- The items of the peers' packets written and read back (src/wire/aurp.rs).
use appletalk.Prelude.{
  ℕ, suc, ◌+◌, ◌%◌, ◌≤◌, ◌<◌, ◌≡◌, refl, Bool, true, false, some, List, [], ◌∷◌, ◌++◌, length,
  arith, All, ◌>>=◌, ◌⊎◌, inl, inr,
}
use mathlib.Core.List.{append-nil}
use appletalk.Prelude.Bytes.{IsU16, from_be-bytes, bit_and_127, bit_and_128, bit_or_128}
use appletalk.Wire.{Name}
use appletalk.Wire.Pstring.{pstring, put_pstring, split_at-append, IsName, pstring-put_pstring}
use appletalk.Wire.Rtmp.{NetworkTuple, parse_tuple, encode_with}
use appletalk.Wire.Rtmp.RoundTrip.{IsTuple, parse_tuple-encode_with}
use appletalk.Wire.Items.{to_end, counted, encode_all, to_end-encode_all, counted-encode_all}
use appletalk.Wire.Aurp.{Di, null, ip, EventTuple, no_tuple}
use appletalk.Wire.Aurp.Tuples.{
  parse_di, encode_di, parse_tuples, encode_tuples, parse_net, encode_net, parse_event_tuple,
  parse_event, encode_event,
}
use appletalk.Wire.Aurp.Options.{typed, parse_option, at_end, parse_options, encode_option}

abbrev pub IsDi : Di → Type 0
IsDi null = Unit
IsDi (ip a) = a < 4294967296

pub parse_di-encode_di :
    (di : Di) (rest : List ℕ) → IsDi di → parse_di (encode_di di ++ rest) ≡ some (di, rest)
unfolding parse_di encode_di
parse_di-encode_di null rest v = refl
parse_di-encode_di (ip a) rest v = ground arith

pub parse_tuples-encode_tuples :
    (tuples : List NetworkTuple)
    → All IsTuple tuples
    → parse_tuples (encode_tuples tuples) ≡ some tuples
unfolding parse_tuples encode_tuples
parse_tuples-encode_tuples tuples v =
    to_end-encode_all parse_tuple (encode_with 0x00) IsTuple
      (λ t _. unfold encode_with in ground arith) (parse_tuple-encode_with 0x00) _ tuples v
      (omega arith)

pub counted_tuples :
    (tuples : List NetworkTuple) (rest : List ℕ)
    → All IsTuple tuples
    → counted parse_tuple (length tuples) (encode_tuples tuples ++ rest) ≡ some (tuples, rest)
unfolding encode_tuples
counted_tuples tuples rest v =
    counted-encode_all parse_tuple (encode_with 0x00) IsTuple
      (λ t _. unfold encode_with in ground arith) (parse_tuple-encode_with 0x00) tuples rest v

pub parse_net-encode_net :
    (n : ℕ) (rest : List ℕ) → IsU16 n → parse_net (encode_net n ++ rest) ≡ some (n, rest)
unfolding parse_net encode_net
parse_net-encode_net n rest v = rw (from_be-bytes n v)

pub nets_to_end :
    (nets : List ℕ)
    → All IsU16 nets
    → to_end parse_net (length (encode_all encode_net nets)) (encode_all encode_net nets)
      ≡ some nets
nets_to_end nets v =
    to_end-encode_all parse_net encode_net IsU16 (λ n _. unfold encode_net in omega arith)
      parse_net-encode_net _ nets v (omega arith)

pub names_to_end :
    (names : List Name)
    → All IsName names
    → to_end pstring (length (encode_all put_pstring names)) (encode_all put_pstring names)
      ≡ some names
names_to_end names v =
    to_end-encode_all pstring put_pstring IsName (λ n _. unfold put_pstring in omega arith)
      pstring-put_pstring _ names v (omega arith)

-- A null event has no tuple; the other codes are up to 5.
abbrev pub IsEvent : EventTuple → Type 0
IsEvent e = ((e.code ≡ 0) × (e.tuple ≡ no_tuple)) ⊎ ((0 < e.code) × (e.code ≤ 5) × IsTuple e.tuple)

parse_event_tuple_of :
    (code : ℕ) (t : NetworkTuple) (extended : Bool) (rest : List ℕ)
    → 0 < code
    → code ≤ 5
    → t.extended ≡ extended
    → IsTuple t
    → parse_event (encode_event (record { code = code; tuple = t }) ++ rest)
      ≡ some (record { code = code; tuple = t }, rest)
unfolding parse_event parse_event_tuple encode_event
parse_event_tuple_of code t true rest h k e v = ground (
  arith,
  bit_or_128 t.distance v.distance,
  bit_and_128 (t.distance + 128),
  bit_and_127 (t.distance + 128),
)
parse_event_tuple_of code t false rest h k e v =
    ground (arith, bit_and_127 t.distance, bit_and_128 t.distance)

pub parse_event-encode_event :
    (e : EventTuple) (rest : List ℕ)
    → IsEvent e
    → parse_event (encode_event e ++ rest) ≡ some (e, rest)
parse_event-encode_event e rest (inl (c, t)) = unfold parse_event encode_event in rw (c, t)
parse_event-encode_event e rest (inr (h, k, v)) =
    parse_event_tuple_of e.code e.tuple e.tuple.extended rest h k refl v

pub events_to_end :
    (events : List EventTuple)
    → All IsEvent events
    → to_end parse_event (length (encode_all encode_event events)) (encode_all encode_event events)
      ≡ some events
events_to_end events v =
    to_end-encode_all parse_event encode_event IsEvent (λ e _. unfold encode_event in ground arith)
      parse_event-encode_event _ events v (omega arith)

abbrev pub IsOption : ℕ × List ℕ → Type 0
IsOption (t, bytes) = length bytes < 255

parse_option-encode_option :
    (o : ℕ × List ℕ) (rest : List ℕ)
    → IsOption o
    → parse_option (encode_option o ++ rest) ≡ some (o, rest)
unfolding parse_option encode_option typed
parse_option-encode_option (t, bytes) rest v =
    let len : (1 + length bytes) % 256 ≡ suc (length bytes) = omega arith in
    rw len (rw (split_at-append (t ∷ bytes) rest, ◌>>=◌) (ground arith))

pub parse_options-encode_options :
    (options : List (ℕ × List ℕ))
    → All IsOption options
    → length options < 256
    → parse_options (encode_all encode_option options) (length options % 256) ≡ some options
unfolding parse_options at_end
parse_options-encode_options options v h =
    let n : length options % 256 ≡ length options = omega arith in
    let read =
      counted-encode_all parse_option encode_option IsOption
        (λ o _. unfold encode_option in omega arith) parse_option-encode_option options [] v in
    rw (n, ← append-nil (encode_all encode_option options)) (rw (read, ◌>>=◌))
