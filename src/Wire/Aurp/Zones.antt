-- ===== src/Wire/Aurp/Zones.antt =====
-- The zone tuples of a ZI-Rsp (src/wire/aurp.rs): a name that the packet has already spelled out is an
-- offset to it.
use mathlib.Core.List.{List-discrete}
use appletalk.Prelude.{
  ℕ, zero, suc, ◌+◌, ◌%◌, ℕ_discrete, bit_and, bit_or, Option, none, some, List, [], ◌∷◌, ◌++◌,
  ◌==◌, not, length, ◌>>=◌, if◌then◌else◌,
}
use appletalk.Prelude.Bytes.{from_be, hi_byte, lo_byte}
use appletalk.Prelude.Maps.{get, insert}
use appletalk.Wire.{Name}
use appletalk.Wire.Pstring.{pstring, put_pstring}
use appletalk.Wire.Items.{to_end}
use appletalk.Wire.Aurp.{Cmd, zi_rsp, zone_base}

abbrev pub Name-discrete : Discrete Name
Name-discrete = List-discrete ℕ_discrete

-- `b.get(n..)`.
unfoldable pub drop_at : ℕ → List ℕ → Option (List ℕ)
drop_at zero p = some p
drop_at (suc n) [] = none
drop_at (suc n) (b ∷ p) = drop_at n p

-- The name at an offset, which is not itself an offset.
unfoldable pub name_at : List ℕ → Option Name
name_at [] = none
name_at (len ∷ p) =
    if not (bit_and len 0x80 == 0) then none else pstring (len ∷ p) >>= λ (name, _). some name

unfoldable pub optimized : List ℕ → ℕ → ℕ → List ℕ → Option ((ℕ × Name) × List ℕ)
unfolding drop_at name_at
optimized b net t2 [] = none
optimized b net t2 (t3 ∷ rest) = do
  at ← drop_at (zone_base + bit_and (from_be t2 t3) 0x7fff) b
  name ← name_at at
  some ((net, name), rest)

-- A network with its name, or with the offset of a name in the body `b`.
unfoldable pub zone_tuple : List ℕ → List ℕ → Option ((ℕ × Name) × List ℕ)
unfolding optimized
zone_tuple b (t0 ∷ t1 ∷ t2 ∷ rest) =
    if bit_and t2 0x80 == 0
    then (pstring (t2 ∷ rest) >>= λ (name, tail). some ((from_be t0 t1, name), tail))
    else optimized b (from_be t0 t1) t2 rest
zone_tuple b _ = none

-- The count is that of the whole list in subcode 2, and is not looked at in subcode 1.
unfoldable pub parse_zi_rsp : ℕ → List ℕ → Option Cmd
parse_zi_rsp sub (s0 ∷ s1 ∷ h0 ∷ h1 ∷ rest) =
    to_end (zone_tuple (s0 ∷ s1 ∷ h0 ∷ h1 ∷ rest)) (length rest) rest >>= λ zones.
    some (zi_rsp (if sub == 2 then some (from_be h0 h1) else none) zones)
parse_zi_rsp sub _ = none

-- `used` is the bytes of tuples written before, which is where the next name stands as a receiver
-- counts; `seen` has the offsets of the names spelled out.
unfoldable pub encode_zones : ℕ → List (Name × ℕ) → List (ℕ × Name) → List ℕ
encode_zones used seen [] = []
encode_zones used seen ((net, name) ∷ zones) = elim (get Name-discrete name seen) [
  | some off ↦
      hi_byte net
      ∷ lo_byte net
      ∷ hi_byte (bit_or off 0x8000)
      ∷ lo_byte (bit_or off 0x8000)
      ∷ encode_zones (used + 4) seen zones
  | none ↦
      hi_byte net
      ∷ lo_byte net
      ∷ (put_pstring name
          ++ encode_zones (used + 2 + length (put_pstring name))
              (insert Name-discrete name (used % 65536) seen) zones)
]

unfoldable pub encode_zi_rsp : Option ℕ → List (ℕ × Name) → List ℕ
encode_zi_rsp (some total) zones = 0 ∷ 2 ∷ hi_byte total ∷ lo_byte total ∷ encode_zones 0 [] zones
encode_zi_rsp none zones =
    let n = length zones % 65536 in 0 ∷ 1 ∷ hi_byte n ∷ lo_byte n ∷ encode_zones 0 [] zones
