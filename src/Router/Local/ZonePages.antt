-- ===== src/Router/Local/ZonePages.antt =====
-- src/router/local.rs: the pages of a zone list, one behind the other.
use mathlib.Core.List.{append-nil}
use appletalk.Prelude.{
  ℕ, zero, suc, ◌+◌, ◌-◌, ◌≤◌, ◌<◌, ◌≡◌, ◌≢◌, refl, sym, ap, ◌∙◌, inl, inr, true, false, some, List,
  [], ◌∷◌, ◌++◌, ◌==◌, ltb, min, drop, length, length-append, All, arith, Bool-cases, List-cases,
  ==_iff,
}
use appletalk.Wire.{Name}
use appletalk.Wire.Pstring.{IsName}
use appletalk.Wire.Zip.Atp.{reply, parse_reply, reply_parts, parse_reply-reply_parts}
use appletalk.Wire.Atp as Atp
use appletalk.Router.Local.{atp_max}
use appletalk.Router.Local.Zip.{fitting, list_response, user_bytes}
use appletalk.Router.Aurp.Pages.{utf8_len}

drop-nil : (n : ℕ) → drop {A = Name} n [] ≡ []
drop-nil zero = refl
drop-nil (suc n) = refl

pub drop-drop : (k m : ℕ) (xs : List Name) → drop (k + m) xs ≡ drop m (drop k xs)
drop-drop zero m xs = let z : 0 + m ≡ m = omega arith in rw z refl
drop-drop (suc k) m [] = drop-nil (suc k + m) ∙ sym (drop-nil m)
drop-drop (suc k) m (x ∷ xs) =
    let z : suc k + m ≡ suc (k + m) = omega arith in rw z (drop-drop k m xs)

drop_everything : (xs : List Name) → drop (length xs) xs ≡ []
drop_everything [] = refl
drop_everything (x ∷ xs) = drop_everything xs

pub length-drop : (k : ℕ) (xs : List Name) → length (drop k xs) ≡ length xs - k
length-drop zero xs = omega arith
length-drop (suc k) [] = omega arith
length-drop (suc k) (x ∷ xs) = omega (arith, length-drop k xs)

pub fitting-drop :
    (ns : List Name) (size : ℕ) → ns ≡ fitting size ns ++ drop (length (fitting size ns)) ns
unfolding fitting
fitting-drop [] size = refl
fitting-drop (n ∷ ns) size = elim (Bool-cases (ltb atp_max (size + (1 + min (utf8_len n) 32)))) [
  | inl e ↦ rw (e, fitting) refl
  | inr e ↦ rw (e, fitting) (ap (λ l. n ∷ l) (fitting-drop ns (size + (1 + min (utf8_len n) 32))))
]

fitting_nonempty : (ns : List Name) → ns ≢ [] → fitting 0 ns ≢ []
unfolding fitting
fitting_nonempty [] h = h
fitting_nonempty (n ∷ ns) h =
    let e : ltb atp_max (0 + (1 + min (utf8_len n) 32)) ≡ false = ground arith in
    rw (e, fitting) (λ q. cc)

fitting-All : (ns : List Name) (size : ℕ) → All IsName ns → All IsName (fitting size ns)
unfolding fitting
fitting-All [] size v = tt
fitting-All (n ∷ ns) size v = elim (Bool-cases (ltb atp_max (size + (1 + min (utf8_len n) 32)))) [
  | inl e ↦ rw (e, fitting) tt
  | inr e ↦ rw (e, fitting) (v.0, fitting-All ns (size + (1 + min (utf8_len n) 32)) v.1)
]

drop-All : (k : ℕ) (xs : List Name) → All IsName xs → All IsName (drop k xs)
drop-All zero xs v = v
drop-All (suc k) [] v = tt
drop-All (suc k) (x ∷ xs) v = drop-All k xs v.1

pub length-fitting : (ns : List Name) → length (fitting 0 ns) ≤ length ns
length-fitting ns =
    let q =
      ap (λ l. length l) (fitting-drop ns 0)
      ∙ length-append (fitting 0 ns) (drop (length (fitting 0 ns)) ns) in
    omega (arith, q)

pub page_lem :
    (tid : ℕ) (all : List Name) (k : ℕ)
    → All IsName all
    → length all < 65536
    → let names = fitting 0 (drop k all) in
      let r = list_response tid (drop (k + 1 - 1) all) in
      parse_reply (user_bytes r.user_bytes) r.bytes
      ≡ some (reply (length names == length (drop k all)) names)
unfolding list_response reply_parts Atp.response
page_lem tid all k v l =
    let d = drop k all in
    let z : k + 1 - 1 ≡ k = omega arith in
    let b = length-fitting d in
    let c = length-drop k all in
    rw z (
      parse_reply-reply_parts (length (fitting 0 d) == length d) (fitting 0 d)
        (fitting-All d 0 (drop-All k all v)) (omega arith))

-- A page that is not the last has a name at least.
pub short_page :
    (d : List Name) → (length (fitting 0 d) == length d) ≡ false → 1 ≤ length (fitting 0 d)
short_page d e = elim (List-cases (fitting 0 d)) [
  | inr (n, ns, q) ↦ rw q (omega arith)
  | inl q ↦ elim (List-cases d) [
    | inr (n, ns, p) ↦ absurd (fitting_nonempty d (λ h. cc) q)
    | inl p ↦ let h : true ≡ false = rw (q, p) at e in cc
  ]
]

pub whole_page : (d : List Name) → (length (fitting 0 d) == length d) ≡ true → fitting 0 d ≡ d
whole_page d e =
    let q = (==_iff (length (fitting 0 d)) (length d)).0 e in
    let s = fitting-drop d 0 in
    let z : drop (length (fitting 0 d)) d ≡ [] = rw q (drop_everything d) in
    sym (s ∙ ap (λ x. fitting 0 d ++ x) z ∙ append-nil (fitting 0 d))
