-- ===== src/Router/Table/Listings/Names.antt =====
-- The names in zone lists (src/router/table.rs, `add_zones` and `all_zones`).
use appletalk.Prelude.{
  ℕ, ◌≡◌, ◌↔◌, refl, ◌∙◌, inl, inr, Bool, true, false, ◌&&◌, ◌||◌, Option, none, some, List, [],
  ◌∷◌, ◌++◌, map, arith, All, All-append, any, is_some_and, Bool-cases,
}
use appletalk.Wire.{Name}
use appletalk.Router.Table.{Tables, ZoneList, zones_at, complete}
use appletalk.Router.Table.Settle.{starts}
use appletalk.Router.Table.Listings.{
  to_ascii_lowercase, eq_ignore_ascii_case, holds, extend_names, in_zone, gather, all_zones_loop,
  all_zones,
}

abbrev lower : Name → Name
lower = map to_ascii_lowercase

eq_ignore_ascii_case_iff : (m n : Name) → (eq_ignore_ascii_case m n ≡ true) ↔ (lower m ≡ lower n)
unfolding eq_ignore_ascii_case
eq_ignore_ascii_case_iff [] [] = (λ _. refl, λ _. refl)
eq_ignore_ascii_case_iff [] (d ∷ ds) = (λ e. cc, λ e. cc)
eq_ignore_ascii_case_iff (c ∷ cs) [] = (λ e. cc, λ e. cc)
eq_ignore_ascii_case_iff (c ∷ cs) (d ∷ ds) =
    let (there, back) = eq_ignore_ascii_case_iff cs ds in
    (λ e. ground (arith, there), λ e. ground (arith, back))

eq_ignore_ascii_case_trans :
    (l m n : Name)
    → eq_ignore_ascii_case l m ≡ true
    → eq_ignore_ascii_case m n ≡ true
    → eq_ignore_ascii_case l n ≡ true
eq_ignore_ascii_case_trans l m n p q =
    (eq_ignore_ascii_case_iff l n).1
      ((eq_ignore_ascii_case_iff l m).0 p ∙ (eq_ignore_ascii_case_iff m n).0 q)

holds-append_one :
    (held : List Name) (n z : Name)
    → holds (held ++ n ∷ []) z ≡ (holds held z || eq_ignore_ascii_case n z)
holds-append_one [] n z = ground arith
holds-append_one (h ∷ hs) n z = ground (arith, holds-append_one hs n z)

holds-cong :
    (held : List Name) (n z : Name)
    → holds held n ≡ true
    → eq_ignore_ascii_case n z ≡ true
    → holds held z ≡ true
holds-cong [] n z h e = h
holds-cong (x ∷ xs) n z h e = ground (arith, eq_ignore_ascii_case_trans x n z, holds-cong xs n z)

-- Extending a list loses no name and adds no other.
holds-extend_names :
    (held ns : List Name) (z : Name) → holds (extend_names held ns) z ≡ (holds held z || holds ns z)
unfolding extend_names
holds-extend_names held [] z = ground arith
holds-extend_names held (n ∷ ns) z = elim (Bool-cases (holds held n)) [
  | inl e ↦ rw e (ground (arith, holds-extend_names held ns z, holds-cong held n z))
  | inr e ↦
      rw e (ground (arith, holds-extend_names (held ++ n ∷ []) ns z, holds-append_one held n z))
]

-- No two names alike up to case.
abbrev pub IsDistinct : List Name → Type 0
IsDistinct [] = Unit
IsDistinct (n ∷ ns) = All (λ m. eq_ignore_ascii_case n m ≡ false) ns × IsDistinct ns

IsDistinct-append_one :
    (held : List Name) (n : Name)
    → holds held n ≡ false
    → IsDistinct held
    → IsDistinct (held ++ n ∷ [])
IsDistinct-append_one [] n e d = (tt, tt)
IsDistinct-append_one (h ∷ hs) n e (a, d) = (
  All-append (λ m. eq_ignore_ascii_case h m ≡ false) hs (n ∷ []) a (ground arith, tt),
  IsDistinct-append_one hs n (ground arith) d,
)

extend_names-IsDistinct :
    (held ns : List Name) → IsDistinct held → IsDistinct (extend_names held ns)
unfolding extend_names
extend_names-IsDistinct held [] d = d
extend_names-IsDistinct held (n ∷ ns) d = elim (Bool-cases (holds held n)) [
  | inl e ↦ rw e (extend_names-IsDistinct held ns d)
  | inr e ↦ rw e (extend_names-IsDistinct _ ns (IsDistinct-append_one held n e d))
]

gather-IsDistinct :
    (o : Option (ℕ × ZoneList)) (out : List Name) → IsDistinct out → IsDistinct (gather o out)
unfolding gather
gather-IsDistinct none out d = d
gather-IsDistinct (some z) out d = elim (Bool-cases (complete z.1)) [
  | inl e ↦ rw e (extend_names-IsDistinct out z.1.names d)
  | inr e ↦ rw e d
]

-- Whether a range's list is complete and names the zone.
abbrev names_zone : Name → Option (ℕ × ZoneList) → Bool
names_zone n o = is_some_and o (λ z. complete z.1 && holds z.1.names n)

holds-gather :
    (o : Option (ℕ × ZoneList)) (out : List Name) (n : Name)
    → holds (gather o out) n ≡ (holds out n || names_zone n o)
unfolding gather
holds-gather none out n = ground arith
holds-gather (some z) out n = ground (arith, holds-extend_names out z.1.names n)

all_zones_loop-IsDistinct :
    (t : Tables) (ss : List ℕ) (out : List Name)
    → IsDistinct out
    → IsDistinct (all_zones_loop t ss out)
unfolding all_zones_loop
all_zones_loop-IsDistinct t [] out d = d
all_zones_loop-IsDistinct t (s ∷ ss) out d =
    all_zones_loop-IsDistinct t ss _ (gather-IsDistinct (zones_at t s) out d)

holds-all_zones_loop :
    (t : Tables) (ss : List ℕ) (out : List Name) (n : Name)
    → holds (all_zones_loop t ss out) n ≡ (holds out n || any (in_zone t n) ss)
unfolding all_zones_loop in_zone
holds-all_zones_loop t [] out n = ground arith
holds-all_zones_loop t (s ∷ ss) out n = ground (
  arith,
  holds-all_zones_loop t ss (gather (zones_at t s) out) n,
  holds-gather (zones_at t s) out n,
)

-- The zone list has no name twice, also not in another case, and it has a name exactly when the
-- complete list of some range with an entry has it.
pub all_zones_lem :
    (t : Tables)
    → IsDistinct (all_zones t) × ((n : Name) → holds (all_zones t) n ≡ any (in_zone t n) (starts t))
unfolding all_zones
all_zones_lem t =
    (all_zones_loop-IsDistinct t (starts t) [] tt, holds-all_zones_loop t (starts t) [])
