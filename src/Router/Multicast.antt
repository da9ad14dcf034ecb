-- ===== src/Router/Multicast.antt =====
-- The multicast address of a zone (src/wire/zip.rs) against the router's comparison of zone names
-- (src/router/table.rs).
use appletalk.Prelude.{ℕ, ◌%◌, ◌<◌, ◌≡◌, refl, true, [], ◌∷◌, map, ◌==◌, &&_iff, arith, All}
use mathlib.Core.Path.{ap₂}
use appletalk.Prelude.Bytes.{IsByte}
use appletalk.Wire.{Name}
use appletalk.Wire.Zip.Atp.{to_ascii_uppercase, zone_multicast}
use appletalk.Router.Table.Listings.{to_ascii_lowercase, eq_ignore_ascii_case}

same_upper :
    (c d : ℕ)
    → IsByte c
    → IsByte d
    → (to_ascii_lowercase c == to_ascii_lowercase d) ≡ true
    → to_ascii_uppercase (c % 256) ≡ to_ascii_uppercase (d % 256)
unfolding to_ascii_lowercase
same_upper c d h k e = ground arith

hashed :
    (a b : Name)
    → All IsByte a
    → All IsByte b
    → eq_ignore_ascii_case a b ≡ true
    → map (λ c. to_ascii_uppercase (c % 256)) a ≡ map (λ c. to_ascii_uppercase (c % 256)) b
unfolding eq_ignore_ascii_case
hashed [] [] v w e = refl
hashed [] (d ∷ ds) v w e = cc
hashed (c ∷ cs) [] v w e = cc
hashed (c ∷ cs) (d ∷ ds) (v, vs) (w, ws) e =
    let (head, tail) = (&&_iff _ _).0 e in
    ap₂ ◌∷◌ (same_upper c d v w head) (hashed cs ds vs ws tail)

-- Two spellings of a zone that the router takes for one have one multicast address, for names of
-- chars below 256, and the address's last octet is below 253.
pub zone_multicast_case :
    (a b : Name)
    → All IsByte a
    → All IsByte b
    → eq_ignore_ascii_case a b ≡ true
    → (zone_multicast a ≡ zone_multicast b) × ((zone_multicast a).m5 < 253)
unfolding zone_multicast
zone_multicast_case a b v w e = (rw (hashed a b v w e), omega arith)
