-- ===== src/Wire/Zip/RoundTrip.antt =====
-- ZIP packets written and read back (src/wire/zip.rs).
use Prim.Native.Nat.{min}
use mathlib.Core.List.{append-nil}
use appletalk.Prelude.{
  ℕ, zero, suc, ◌%◌, ◌≤◌, ◌<◌, ◌≡◌, refl, sym, inl, inr, false, bit_and, Option, none, some, List,
  [], ◌∷◌, ◌++◌, ◌==◌, ◌>>=◌, >>=-eq-some, length, arith, All, Option-cases,
}
use appletalk.Prelude.Bytes.{IsU16, from_be, hi_byte, lo_byte, from_be-bytes}
use appletalk.Wire.{Name}
use appletalk.Wire.Pstring.{
  split_at, pstring, put_pstring, IsName, pstring-put_pstring, pstring_shrinks,
}
use appletalk.Wire.Frame.{MacAddr, mac, mac_bytes}
use appletalk.Wire.Zip.{
  Zip, query, reply, get_net_info, net_info_reply, notify, parse_nets, zone_pair, pairs_to_end,
  pairs_counted, parse_multicast, parse_default, parse_net_info, parse_query, parse_reply,
  parse_extended, parse_get_net_info, parse, encode_nets, encode_pairs, encode_multicast,
  encode_default, encode,
}

parse_nets-encode_nets :
    (nets : List ℕ) → All IsU16 nets → parse_nets (length nets) (encode_nets nets) ≡ some nets
unfolding parse_nets encode_nets
parse_nets-encode_nets [] v = refl
parse_nets-encode_nets (n ∷ ns) (v, vs) = rw (parse_nets-encode_nets ns vs, from_be-bytes n v)

abbrev pub IsPair : ℕ × Name → Type 0
IsPair (net, name) = IsU16 net × IsName name

abbrev pair_bytes : ℕ × Name → List ℕ → List ℕ
pair_bytes z rest = hi_byte z.0 ∷ lo_byte z.0 ∷ (put_pstring z.1 ++ rest)

zone_pair-pair_bytes :
    (z : ℕ × Name) (rest : List ℕ) → IsPair z → zone_pair (pair_bytes z rest) ≡ some (z, rest)
unfolding zone_pair
zone_pair-pair_bytes z rest (net, name) =
    rw (from_be-bytes z.0 net, pstring-put_pstring z.1 rest name)

zone_pair_shrinks :
    (p rest : List ℕ) (z : ℕ × Name) → zone_pair p ≡ some (z, rest) → length rest < length p
unfolding zone_pair
zone_pair_shrinks [] rest z e = cc
zone_pair_shrinks (a ∷ []) rest z e = cc
zone_pair_shrinks (a ∷ b ∷ p) rest z e =
    let ((name, r), q, s) =
      >>=-eq-some (pstring p) (λ (name, rest). some ((from_be a b, name), rest)) (z, rest) e in
    ground (arith, pstring_shrinks p name r q)

pairs_counted-encode_pairs :
    (zs : List (ℕ × Name)) → All IsPair zs → pairs_counted (length zs) (encode_pairs zs) ≡ some zs
unfolding pairs_counted encode_pairs
pairs_counted-encode_pairs [] v = refl
pairs_counted-encode_pairs (z ∷ zs) (v, vs) =
    rw (zone_pair-pair_bytes z (encode_pairs zs) v, ◌>>=◌)
      (rw (pairs_counted-encode_pairs zs vs, ◌>>=◌))

-- Fuel above the bytes left changes nothing.
pairs_to_end_fuel :
    (n m : ℕ) (p : List ℕ) → length p ≤ n → length p ≤ m → pairs_to_end n p ≡ pairs_to_end m p
unfolding pairs_to_end
pairs_to_end_fuel zero zero [] h k = refl
pairs_to_end_fuel zero (suc m) [] h k = refl
pairs_to_end_fuel (suc n) zero [] h k = refl
pairs_to_end_fuel (suc n) (suc m) [] h k = refl
pairs_to_end_fuel zero m (b ∷ bs) h k = absurd (omega arith)
pairs_to_end_fuel (suc n) zero (b ∷ bs) h k = absurd (omega arith)
pairs_to_end_fuel (suc n) (suc m) (b ∷ bs) h k = elim (Option-cases (zone_pair (b ∷ bs))) [
  | inl e ↦ rw e
  | inr ((z, rest), e) ↦
      let short = zone_pair_shrinks (b ∷ bs) rest z e in
      rw (e, pairs_to_end_fuel n m rest (omega arith) (omega arith))
]

pairs_to_end-encode_pairs :
    (fuel : ℕ) (zs : List (ℕ × Name))
    → All IsPair zs
    → length (encode_pairs zs) ≤ fuel
    → pairs_to_end fuel (encode_pairs zs) ≡ some zs
unfolding pairs_to_end encode_pairs
pairs_to_end-encode_pairs zero [] v h = refl
pairs_to_end-encode_pairs (suc n) [] v h = refl
pairs_to_end-encode_pairs zero (z ∷ zs) (v, vs) h = absurd (omega arith)
pairs_to_end-encode_pairs (suc n) (z ∷ zs) (v, vs) h =
    let read = zone_pair-pair_bytes z (encode_pairs zs) v in
    let short = zone_pair_shrinks (pair_bytes z (encode_pairs zs)) (encode_pairs zs) z read in
    rw (read, ◌>>=◌) (rw (pairs_to_end-encode_pairs n zs vs (omega arith), ◌>>=◌))

parse_multicast-encode_multicast :
    (m : Option MacAddr) (rest : List ℕ)
    → parse_multicast (encode_multicast m ++ rest) ≡ some (m, rest)
unfolding parse_multicast encode_multicast split_at mac mac_bytes
parse_multicast-encode_multicast none rest = refl
parse_multicast-encode_multicast (some m) rest = refl

abbrev IsDefault : ℕ → Option Name → Type 0
IsDefault flags none = Unit
IsDefault flags (some z) = IsName z × ((bit_and flags 0x80 == 0) ≡ false)

parse_default-encode_default :
    (flags : ℕ) (z : Option Name) → IsDefault flags z → parse_default flags (encode_default z) ≡ z
unfolding parse_default encode_default
parse_default-encode_default flags none v = unfold pstring in ground arith
parse_default-encode_default flags (some z) (v, b) =
    rw b (rw (sym (append-nil (put_pstring z))) (rw (pstring-put_pstring z [] v, ◌>>=◌)))

-- Names and numbers that the wire can carry; a default zone only with the flag that says so.
abbrev pub IsPacket : Zip → Type 0
IsPacket (query nets) = All IsU16 nets × (length nets ≤ 255)
IsPacket (reply zones none) = All IsPair zones × (length zones ≤ 255)
IsPacket (reply zones (some total)) = All IsPair zones
IsPacket (get_net_info zone) = IsName zone
IsPacket (net_info_reply i) =
    IsU16 i.range.0 × IsU16 i.range.1 × IsName i.zone × IsDefault i.flags i.default_zone
IsPacket notify = Unit

count_of : (n : ℕ) → n ≤ 255 → min n 255 % 256 ≡ n
count_of n h = omega arith

-- A ZIP packet is read back from its bytes, if its network numbers have 16 bits and its names are
-- at most 32 bytes; a query has at most 255 networks, a plain reply at most 255 pairs (an extended
-- one any number), and a default zone comes with the flag that announces it.
pub parse-encode_zip : (z : Zip) → IsPacket z → parse (encode z) ≡ some z
unfolding parse encode
parse-encode_zip (query nets) (v, h) =
    unfold parse_query in rw (count_of (length nets) h, parse_nets-encode_nets nets v)
parse-encode_zip (reply zones none) (v, h) =
    unfold parse_reply in rw (count_of (length zones) h, pairs_counted-encode_pairs zones v)
parse-encode_zip (reply zones (some total)) v =
    unfold parse_extended in
    rw (pairs_to_end-encode_pairs (length (encode_pairs zones)) zones v (omega arith))
parse-encode_zip (get_net_info zone) v =
    unfold parse_get_net_info in
    rw (sym (append-nil (put_pstring zone))) (rw (pstring-put_pstring zone [] v))
parse-encode_zip (net_info_reply i) (a, b, zone, d) =
    unfold parse_net_info in
    rw
      (
        pstring-put_pstring i.zone (encode_multicast i.multicast ++ encode_default i.default_zone)
            zone,
        ◌>>=◌,
      )
      (rw (parse_multicast-encode_multicast i.multicast (encode_default i.default_zone), ◌>>=◌)
        (rw (
          parse_default-encode_default i.flags i.default_zone d,
          from_be-bytes i.range.0 a,
          from_be-bytes i.range.1 b,
        )))
parse-encode_zip notify v = refl
