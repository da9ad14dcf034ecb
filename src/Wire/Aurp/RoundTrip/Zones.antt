-- ===== src/Wire/Aurp/RoundTrip/Zones.antt =====
-- Zone tuples written and read back, the offsets of names included (src/wire/aurp.rs). The masks on an
-- offset are tables of 32768 entries, checked by evaluation.
use mathlib.Core.List.{append_assoc}
use appletalk.Prelude.{
  ℕ, zero, suc, ◌+◌, ◌%◌, ◌≤◌, ◌<◌, ◌≡◌, refl, sym, ap, ◌∙◌, false, bit_and, bit_or, Option, none,
  some, List, [], ◌∷◌, ◌++◌, ◌==◌, length, length-append, arith, All, Option-cases, ◌>>=◌, inl, inr,
}
use appletalk.Prelude.Bytes.{
  IsU16, from_be, hi_byte, lo_byte, from_be-bytes, bit_and_128, bit_or_32768, bit_and_32767,
}
use appletalk.Prelude.Maps.{get, insert, get-insert}
use appletalk.Wire.{Name}
use appletalk.Wire.Pstring.{pstring, put_pstring, IsName, put_pstring_whole, split_at-append}
use appletalk.Wire.Zip.RoundTrip.{IsPair}
use appletalk.Wire.Items.{to_end, to_end_step}
use appletalk.Wire.Aurp.{zi_rsp}
use appletalk.Wire.Aurp.Zones.{
  Name-discrete, drop_at, name_at, optimized, zone_tuple, parse_zi_rsp, encode_zones, encode_zi_rsp,
}

drop_at-append : (p rest : List ℕ) → drop_at (length p) (p ++ rest) ≡ some rest
unfolding drop_at
drop_at-append [] rest = refl
drop_at-append (b ∷ p) rest = drop_at-append p rest

pstring_whole :
    (name : Name) (rest : List ℕ)
    → IsName name
    → pstring (length name ∷ (name ++ rest)) ≡ some (name, rest)
unfolding pstring
pstring_whole name rest v = split_at-append name rest

name_at-put_pstring :
    (name : Name) (rest : List ℕ) → IsName name → name_at (put_pstring name ++ rest) ≡ some name
unfolding name_at
name_at-put_pstring name rest v =
    let high = bit_and_128 (length name) (omega arith) in
    let read = pstring_whole name rest v in
    rw (put_pstring_whole name v) (rw read (ground (arith, high)))

-- Where an offset leads in the body: to a name spelled out.
Leads : List ℕ → Name → ℕ → Type 0
Leads b name off =
    (off < 32768)
    × IsName name
    × ((r : List ℕ) × (drop_at (6 + off) b ≡ some (put_pstring name ++ r)))

Points : List ℕ → List (Name × ℕ) → Type 0
Points b seen = (name : Name) (off : ℕ) → get Name-discrete name seen ≡ some off → Leads b name off

optimized-Leads :
    (b : List ℕ) (net : ℕ) (name : Name) (off : ℕ) (rest : List ℕ)
    → Leads b name off
    → optimized b net (hi_byte (bit_or off 0x8000)) (lo_byte (bit_or off 0x8000) ∷ rest)
      ≡ some ((net, name), rest)
unfolding optimized Leads
optimized-Leads b net name off rest (h, v, (r, e)) =
    let set = bit_or_32768 off h in
    let word : from_be (hi_byte (off + 32768)) (lo_byte (off + 32768)) ≡ off + 32768 =
      from_be-bytes (off + 32768) (omega arith) in
    rw (set, word, bit_and_32767 off h) (rw (e, ◌>>=◌) (rw (name_at-put_pstring name r v, ◌>>=◌)))

zone_tuple_offset :
    (b : List ℕ) (net : ℕ) (name : Name) (off : ℕ) (rest : List ℕ)
    → IsU16 net
    → Leads b name off
    → zone_tuple b (
        hi_byte net
        ∷ lo_byte net
        ∷ hi_byte (bit_or off 0x8000)
        ∷ lo_byte (bit_or off 0x8000)
        ∷ rest)
      ≡ some ((net, name), rest)
unfolding zone_tuple optimized Leads
zone_tuple_offset b net name off rest n l =
    let set = bit_or_32768 off l.0 in
    let high = bit_and_128 (hi_byte (bit_or off 0x8000)) (omega (arith, set)) in
    let read = optimized-Leads b net name off rest l in
    let marked : (bit_and (hi_byte (bit_or off 0x8000)) 0x80 == 0) ≡ false =
      ground (arith, high, set) in
    rw (marked, from_be-bytes net n) read

zone_tuple_name :
    (b : List ℕ) (net : ℕ) (name : Name) (rest : List ℕ)
    → IsU16 net
    → IsName name
    → zone_tuple b (hi_byte net ∷ lo_byte net ∷ (put_pstring name ++ rest))
      ≡ some ((net, name), rest)
unfolding zone_tuple
zone_tuple_name b net name rest n v =
    let high = bit_and_128 (length name) (omega arith) in
    let read = pstring_whole name rest v in
    rw (put_pstring_whole name v, from_be-bytes net n) (rw read (ground (arith, high)))

Points-insert :
    (b : List ℕ) (seen : List (Name × ℕ)) (name : Name) (off : ℕ)
    → Points b seen
    → Leads b name off
    → Points b (insert Name-discrete name off seen)
unfolding Points
Points-insert b seen name off h l j o e = elim (Name-discrete name j) [
  | yes p ↦
      let o_eq : off ≡ o = ground (arith, get-insert Name-discrete name j off seen) in
      rw (← p, ← o_eq) l
  | no p ↦ h j o (ground (arith, get-insert Name-discrete name j off seen))
]

abbrev name_bytes : ℕ → Name → List ℕ
name_bytes net name = hi_byte net ∷ lo_byte net ∷ put_pstring name

abbrev offset_bytes : ℕ → ℕ → List ℕ
offset_bytes net off =
    hi_byte net ∷ lo_byte net ∷ hi_byte (bit_or off 0x8000) ∷ lo_byte (bit_or off 0x8000) ∷ []

module _ (q : ℕ) (seen : List (Name × ℕ)) (net : ℕ) (name : Name) (zones : List (ℕ × Name)) where
  encode_zones_new :
      get Name-discrete name seen ≡ none
      → encode_zones q seen ((net, name) ∷ zones)
        ≡ name_bytes net name
          ++ encode_zones
              (q + 2 + length (put_pstring name))
              (insert Name-discrete name (q % 65536) seen)
              zones
  unfolding encode_zones
  encode_zones_new g = rw (g, encode_zones)

  encode_zones_seen :
      (off : ℕ)
      → get Name-discrete name seen ≡ some off
      → encode_zones q seen ((net, name) ∷ zones)
        ≡ offset_bytes net off ++ encode_zones (q + 4) seen zones
  unfolding encode_zones
  encode_zones_seen off g = rw (g, encode_zones)

  new_Leads :
      (pre b rest : List ℕ)
      → b ≡ pre ++ (name_bytes net name ++ rest)
      → length pre ≡ 4 + q
      → length b ≤ 32771
      → IsName name
      → Leads b name (q % 65536)
  unfolding Leads
  new_Leads pre b rest e l t v =
      let front = length-append pre (name_bytes net name ++ rest) in
      let small : q < 32768 = omega (arith, front, ap length e) in
      let at : 6 + q % 65536 ≡ length (pre ++ (hi_byte net ∷ lo_byte net ∷ [])) =
        omega (arith, length-append pre (hi_byte net ∷ lo_byte net ∷ [])) in
      (
        omega arith,
        v,
        (
          rest,
          ap (λ c. drop_at (6 + q % 65536) c)
                (e
                  ∙ sym (
                      append_assoc pre (hi_byte net ∷ lo_byte net ∷ []) (put_pstring name ++ rest)))
              ∙ ap
                  (λ n.
                    drop_at n
                      ((pre ++ (hi_byte net ∷ lo_byte net ∷ [])) ++ (put_pstring name ++ rest)))
                  at
              ∙ drop_at-append (pre ++ (hi_byte net ∷ lo_byte net ∷ [])) (put_pstring name ++ rest),
        ),
      )

get-Leads :
    (b : List ℕ) (seen : List (Name × ℕ)) (name : Name) (off : ℕ)
    → Points b seen
    → get Name-discrete name seen ≡ some off
    → Leads b name off
unfolding Points
get-Leads b seen name off h g = h name off g

zones_step :
    (b w tail : List ℕ) (z : ℕ × Name) (zones : List (ℕ × Name)) (fuel : ℕ)
    → length w + length tail ≤ fuel
    → 0 < length w
    → zone_tuple b (w ++ tail) ≡ some (z, tail)
    → ((m : ℕ) → length tail ≤ m → to_end (zone_tuple b) m tail ≡ some zones)
    → to_end (zone_tuple b) fuel (w ++ tail) ≡ some (z ∷ zones)
zones_step b w tail z zones zero f k e rest = absurd (omega arith)
zones_step b w tail z zones (suc fuel) f k e rest =
    rw (to_end_step (zone_tuple b) fuel (w ++ tail) tail z (omega (arith, length-append w tail)) e)
      (rw (rest fuel (omega arith), ◌>>=◌))

-- The tuples are read back one after the other, from a body that has what was written before them.
zones_read :
    (fuel q : ℕ) (seen : List (Name × ℕ)) (zones : List (ℕ × Name)) (pre b : List ℕ)
    → b ≡ pre ++ encode_zones q seen zones
    → length pre ≡ 4 + q
    → length b ≤ 32771
    → Points b seen
    → All IsPair zones
    → length (encode_zones q seen zones) ≤ fuel
    → to_end (zone_tuple b) fuel (encode_zones q seen zones) ≡ some zones
zones_read fuel q seen [] pre b e l t h v f = unfold to_end encode_zones in refl
zones_read fuel q seen ((net, name) ∷ zones) pre b e l t h ((n, nm), vs) f =
    elim (Option-cases (get Name-discrete name seen)) [
      | inl g ↦
          let w = name_bytes net name in
          let eqn = encode_zones_new q seen net name zones g in
          let tail =
            encode_zones (q + 2 + length (put_pstring name))
              (insert Name-discrete name (q % 65536) seen) zones in
          let e' : b ≡ pre ++ (w ++ tail) = e ∙ ap (λ c. pre ++ c) eqn in
          let leads = new_Leads q seen net name zones pre b tail e' l t nm in
          rw eqn (
            zones_step b w tail (net, name) zones fuel
              (omega (arith, length-append w tail, ap length eqn)) (omega arith)
              (zone_tuple_name b net name tail n nm)
              (λ m k.
                zones_read m _ _ zones (pre ++ w) b (e' ∙ sym (append_assoc pre w tail))
                  (omega (arith, length-append pre w)) t
                  (Points-insert b seen name (q % 65536) h leads) vs k))
      | inr (off, g) ↦
          let w = offset_bytes net off in
          let eqn = encode_zones_seen q seen net name zones off g in
          let tail = encode_zones (q + 4) seen zones in
          let e' : b ≡ pre ++ (w ++ tail) = e ∙ ap (λ c. pre ++ c) eqn in
          rw eqn (
            zones_step b w tail (net, name) zones fuel
              (omega (arith, length-append w tail, ap length eqn)) (omega arith)
              (zone_tuple_offset b net name off tail n (get-Leads b seen name off h g))
              (λ m k.
                zones_read m (q + 4) seen zones (pre ++ w) b (e' ∙ sym (append_assoc pre w tail))
                  (omega (arith, length-append pre w)) t h vs k))
    ]

-- The bytes of the whole reply stay where an offset of 15 bits reaches.
abbrev pub IsZones : Option ℕ → List (ℕ × Name) → Type 0
IsZones (some total) zones =
    IsU16 total × All IsPair zones × (length (encode_zones 0 [] zones) ≤ 32767)
IsZones none zones = All IsPair zones × (length (encode_zones 0 [] zones) ≤ 32767)

zones_of_start :
    (s0 s1 h0 h1 : ℕ) (zones : List (ℕ × Name))
    → All IsPair zones
    → length (encode_zones 0 [] zones) ≤ 32767
    → let rest = encode_zones 0 [] zones in
      to_end (zone_tuple (s0 ∷ s1 ∷ h0 ∷ h1 ∷ rest)) (length rest) rest ≡ some zones
unfolding Points get
zones_of_start s0 s1 h0 h1 zones v t =
    zones_read _ 0 [] zones (s0 ∷ s1 ∷ h0 ∷ h1 ∷ []) _ refl refl (omega arith) (λ name off e. cc) v
      (omega arith)

-- A reply is read back under the subcode that it was written with.
pub parse_zi_rsp_extended :
    (total : ℕ) (zones : List (ℕ × Name))
    → IsZones (some total) zones
    → parse_zi_rsp 2 (encode_zi_rsp (some total) zones) ≡ some (zi_rsp (some total) zones)
unfolding parse_zi_rsp encode_zi_rsp
parse_zi_rsp_extended total zones (n, v, t) =
    rw (zones_of_start 0 2 (hi_byte total) (lo_byte total) zones v t, from_be-bytes total n, ◌>>=◌)

pub parse_zi_rsp_plain :
    (zones : List (ℕ × Name))
    → IsZones none zones
    → parse_zi_rsp 1 (encode_zi_rsp none zones) ≡ some (zi_rsp none zones)
unfolding parse_zi_rsp encode_zi_rsp
parse_zi_rsp_plain zones (v, t) =
    let n = length zones % 65536 in rw (zones_of_start 0 1 (hi_byte n) (lo_byte n) zones v t, ◌>>=◌)
