-- ===== src/Wire/Zip.antt =====
-- src/wire/zip.rs: ZIP packets over DDP, and ZIP's requests over ATP. `encode` returns the bytes that
-- the source appends.
pub mod RoundTrip
pub mod Atp
use Prim.Native.Nat.{min}
use appletalk.Prelude.{
  ℕ, zero, suc, ◌+◌, ◌*◌, ◌%◌, Bool, true, false, not, bit_and, Option, none, some, List, [], ◌∷◌,
  ◌++◌, ◌==◌, ◌>>=◌, is_some, length, if◌then◌else◌,
}
use appletalk.Prelude.Bytes.{from_be, hi_byte, lo_byte}
use appletalk.Wire.{Name}
use appletalk.Wire.Pstring.{split_at, pstring, put_pstring}
use appletalk.Wire.Frame.{MacAddr, mac, mac_bytes}

pub record NetInfo : Type 0 where
  pub flags : ℕ
  pub range : ℕ × ℕ
  pub zone : Name
  pub multicast : Option MacAddr
  pub default_zone : Option Name

pub data Zip : Type 0 where
  query : List ℕ → Zip
  reply : List (ℕ × Name) → Option ℕ → Zip
  get_net_info : Name → Zip
  net_info_reply : NetInfo → Zip
  notify : Zip

-- `chunks_exact(2)` of the first `count * 2` bytes.
unfoldable pub parse_nets : ℕ → List ℕ → Option (List ℕ)
parse_nets zero p = some []
parse_nets (suc n) (a ∷ b ∷ p) = parse_nets n p >>= λ nets. some (from_be a b ∷ nets)
parse_nets (suc n) _ = none

unfoldable pub zone_pair : List ℕ → Option ((ℕ × Name) × List ℕ)
zone_pair (a ∷ b ∷ p) = pstring p >>= λ (name, rest). some ((from_be a b, name), rest)
zone_pair _ = none

-- An Extended Reply is read to its end; a pair takes three bytes at least, so one unit of fuel a byte
-- is enough.
unfoldable pub pairs_to_end : ℕ → List ℕ → Option (List (ℕ × Name))
pairs_to_end fuel [] = some []
pairs_to_end zero (b ∷ bs) = none
pairs_to_end (suc fuel) (b ∷ bs) = do
  (z, rest) ← zone_pair (b ∷ bs)
  zones ← pairs_to_end fuel rest
  some (z ∷ zones)

-- A plain Reply carries exactly the pairs that it counts.
unfoldable pub pairs_counted : ℕ → List ℕ → Option (List (ℕ × Name))
pairs_counted zero p = some []
pairs_counted (suc n) p = do (z, rest) ← zone_pair p; zones ← pairs_counted n rest; some (z ∷ zones)

-- No address at all, or six bytes of one.
unfoldable pub parse_multicast : List ℕ → Option (Option MacAddr × List ℕ)
parse_multicast [] = none
parse_multicast (len ∷ p) =
    if len == 0
    then some (none, p)
    else (do (octets, rest) ← split_at len p; m ← mac octets; some (some m, rest))

-- Only there when the router rejected the requested zone; one that does not parse is left out.
unfoldable pub parse_default : ℕ → List ℕ → Option Name
parse_default flags rest =
    if bit_and flags 0x80 == 0 then none else pstring rest >>= λ (s, _). some s

unfoldable pub parse_net_info : List ℕ → Option Zip
unfolding parse_default
parse_net_info (flags ∷ a ∷ b ∷ c ∷ d ∷ p) = do
  (zone, rest) ← pstring p
  (multicast, rest') ← parse_multicast rest
  some (
      net_info_reply (record {
        flags = flags;
        range = (from_be a b, from_be c d);
        zone = zone;
        multicast = multicast;
        default_zone = parse_default flags rest';
      }))
parse_net_info _ = none

unfoldable pub parse_query : List ℕ → Option Zip
parse_query [] = none
parse_query (count ∷ p) = parse_nets count p >>= λ nets. some (query nets)

unfoldable pub parse_reply : List ℕ → Option Zip
parse_reply [] = none
parse_reply (count ∷ p) = pairs_counted count p >>= λ zones. some (reply zones none)

unfoldable pub parse_extended : List ℕ → Option Zip
parse_extended [] = none
parse_extended (count ∷ p) = pairs_to_end (length p) p >>= λ zones. some (reply zones (some count))

unfoldable pub parse_get_net_info : List ℕ → Option Zip
parse_get_net_info (a ∷ b ∷ c ∷ d ∷ e ∷ p) = pstring p >>= λ (zone, _). some (get_net_info zone)
parse_get_net_info _ = none

unfoldable pub parse : List ℕ → Option Zip
parse [] = none
parse (cmd ∷ p) =
    if cmd == 1
    then parse_query p
    else if cmd == 2
    then parse_reply p
    else if cmd == 8
    then parse_extended p
    else if cmd == 5
    then parse_get_net_info p
    else if cmd == 6
    then parse_net_info p
    else if cmd == 7
    then some notify
    else none

unfoldable pub encode_nets : List ℕ → List ℕ
encode_nets [] = []
encode_nets (n ∷ ns) = hi_byte n ∷ lo_byte n ∷ encode_nets ns

unfoldable pub encode_pairs : List (ℕ × Name) → List ℕ
encode_pairs [] = []
encode_pairs ((net, name) ∷ zs) = hi_byte net ∷ lo_byte net ∷ (put_pstring name ++ encode_pairs zs)

unfoldable pub encode_multicast : Option MacAddr → List ℕ
encode_multicast none = 0 ∷ []
encode_multicast (some m) = 6 ∷ mac_bytes m

unfoldable pub encode_default : Option Name → List ℕ
encode_default none = []
encode_default (some z) = put_pstring z

abbrev pub count_byte : {A : Type 0} → List A → ℕ
count_byte xs = min (length xs) 255 % 256

unfoldable pub encode : Zip → List ℕ
encode (query nets) = 1 ∷ count_byte nets ∷ encode_nets nets
encode (reply zones none) = 2 ∷ count_byte zones ∷ encode_pairs zones
encode (reply zones (some total)) = 8 ∷ total ∷ encode_pairs zones
encode (get_net_info zone) = 5 ∷ 0 ∷ 0 ∷ 0 ∷ 0 ∷ 0 ∷ put_pstring zone
encode (net_info_reply i) =
    6
    ∷ i.flags
    ∷ hi_byte i.range.0
    ∷ lo_byte i.range.0
    ∷ hi_byte i.range.1
    ∷ lo_byte i.range.1
    ∷ (put_pstring i.zone ++ (encode_multicast i.multicast ++ encode_default i.default_zone))
encode notify = 7 ∷ []
