-- ===== src/Wire/Zip/Atp.antt =====
-- src/wire/zip.rs: ZIP's requests over ATP, and the multicast address of a zone.
use appletalk.Prelude.{
  ℕ, zero, suc, ◌-◌, ◌%◌, ◌<◌, ◌≡◌, refl, Bool, true, false, not, Option, none, some, List, [], ◌∷◌,
  ◌++◌, map, ◌==◌, ◌&&◌, ◌>>=◌, leb, length, arith, All, if◌then◌else◌,
}
use appletalk.Prelude.Bytes.{from_be, hi_byte, lo_byte}
use appletalk.Wire.{Name}
use appletalk.Wire.Pstring.{pstring, put_pstring, IsName, pstring-put_pstring}
use appletalk.Wire.Frame.{MacAddr}
use appletalk.Wire.Ddp.{checksum}

pub data ZipAtp : Type 0 where
  get_my_zone : ZipAtp
  get_zone_list : ℕ → ZipAtp
  get_local_zones : ℕ → ZipAtp
  reply : Bool → List Name → ZipAtp

unfoldable pub parse_request : List ℕ → Option ZipAtp
parse_request (u0 ∷ u1 ∷ u2 ∷ u3 ∷ _) =
    if u0 == 7
    then some get_my_zone
    else if u0 == 8
    then some (get_zone_list (from_be u2 u3))
    else if u0 == 9
    then some (get_local_zones (from_be u2 u3))
    else none
parse_request _ = none

-- As many names as the user bytes count; what follows them is not looked at.
unfoldable pub names_counted : ℕ → List ℕ → Option (List Name)
names_counted zero rest = some []
names_counted (suc n) rest = do
  (name, r) ← pstring rest
  zones ← names_counted n r
  some (name ∷ zones)

unfoldable pub parse_reply : List ℕ → List ℕ → Option ZipAtp
parse_reply (u0 ∷ u1 ∷ u2 ∷ u3 ∷ _) bytes =
    names_counted (from_be u2 u3) bytes >>= λ zones. some (reply (not (u0 == 0)) zones)
parse_reply _ bytes = none

unfoldable pub encode_names : List Name → List ℕ
encode_names [] = []
encode_names (z ∷ zs) = put_pstring z ++ encode_names zs

abbrev pub bit : Bool → ℕ
bit true = 1
bit false = 0

-- The user bytes and the data; the count is cast to a `u16`.
unfoldable pub reply_parts : Bool → List Name → List ℕ × List ℕ
unfolding encode_names
reply_parts last zones =
    let n = length zones % 65536 in (bit last ∷ 0 ∷ hi_byte n ∷ lo_byte n ∷ [], encode_names zones)

-- `u8::to_ascii_uppercase`.
abbrev pub to_ascii_uppercase : ℕ → ℕ
to_ascii_uppercase b = if leb 97 b && leb b 122 then b - 32 else b

unfoldable pub zone_multicast : Name → MacAddr
zone_multicast zone =
    let h = checksum (map (λ c. to_ascii_uppercase (c % 256)) zone) in
    record { m0 = 0x09; m1 = 0x00; m2 = 0x07; m3 = 0x00; m4 = 0x00; m5 = h % 253 % 256 }

names_counted-encode_names :
    (zs : List Name) → All IsName zs → names_counted (length zs) (encode_names zs) ≡ some zs
unfolding names_counted encode_names
names_counted-encode_names [] v = refl
names_counted-encode_names (z ∷ zs) (v, vs) =
    rw (pstring-put_pstring z (encode_names zs) v, ◌>>=◌)
      (rw (names_counted-encode_names zs vs, ◌>>=◌))

count_word : (n : ℕ) → n < 65536 → from_be (hi_byte (n % 65536)) (lo_byte (n % 65536)) ≡ n
count_word n h = omega arith

-- A reply of fewer than 65536 zones, each a name of at most 32 bytes, is read back from its user
-- bytes and data with its flag and its zones.
pub parse_reply-reply_parts :
    (last : Bool) (zones : List Name)
    → All IsName zones
    → length zones < 65536
    → parse_reply (reply_parts last zones).0 (reply_parts last zones).1 ≡ some (reply last zones)
unfolding parse_reply reply_parts
parse_reply-reply_parts true zones v h =
    rw (count_word (length zones) h, names_counted-encode_names zones v)
parse_reply-reply_parts false zones v h =
    rw (count_word (length zones) h, names_counted-encode_names zones v)
