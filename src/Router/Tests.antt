-- ===== src/Router/Tests.antt =====
-- The multicast address of a zone at a concrete name.
use appletalk.Prelude.{◌≡◌, refl, true, [], ◌∷◌}
use appletalk.Wire.{Name}
use appletalk.Router.Table.Listings.{eq_ignore_ascii_case, to_ascii_lowercase}

abbrev lab : Name
lab = b'L' ∷ b'a' ∷ b'b' ∷ []

abbrev lab_capitals : Name
lab_capitals = b'L' ∷ b'A' ∷ b'B' ∷ []

one_zone : eq_ignore_ascii_case lab lab_capitals ≡ true
unfolding eq_ignore_ascii_case to_ascii_lowercase
one_zone = refl
