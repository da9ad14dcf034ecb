-- ===== src/Session/Reassembly.antt =====
-- The responses of one transaction put together, in whatever order they come (src/session.rs).
use appletalk.Prelude.{
  ℕ, zero, suc, ◌<◌, ◌≡◌, refl, sym, ◌⊎◌, inl, inr, Option, none, some, List, [], ◌∷◌, ◌++◌, ◌==◌,
  >>=-eq-some, Bool-cases, length, arith, All,
}
use appletalk.Wire.Atp.{Atp, eom}
use appletalk.Session.{Partial, new_partial, gather, take_if_complete, assign, receive}

-- The data of a message, its parts in order.
unfoldable pub concat : List (List ℕ) → List ℕ
concat [] = []
concat (x ∷ xs) = x ++ concat xs

abbrev pub nth : {A : Type 0} → ℕ → List A → Option A
nth i [] = none
nth zero (x ∷ xs) = some x
nth (suc i) (x ∷ xs) = nth i xs

unfoldable pub receive_all : Partial → List Atp → Partial
receive_all p [] = p
receive_all p (a ∷ rest) = receive_all (receive p a) rest

-- A response that carries one of the parts, and the mark of the end on the last one only.
pub record IsPart (parts : List (List ℕ)) (a : Atp) : Type 0 where
  pub part : nth a.bitmap parts ≡ some a.bytes
  pub seq : a.bitmap < 8
  pub end : eom a ≡ (suc a.bitmap == length parts)

abbrev pub Agree : List (List ℕ) → List (Option (List ℕ)) → Type 0
Agree [] segs = Unit
Agree (x ∷ xs) [] = Unit
Agree (x ∷ xs) (s ∷ segs) = ((s ≡ none) ⊎ (s ≡ some x)) × Agree xs segs

Agree-assign :
    (i : ℕ) (x : List ℕ) (parts : List (List ℕ)) (segs : List (Option (List ℕ)))
    → nth i parts ≡ some x
    → Agree parts segs
    → Agree parts (assign i (some x) segs)
unfolding assign
Agree-assign i x [] segs e h = tt
Agree-assign i x (y ∷ ys) [] e h = tt
Agree-assign zero x (y ∷ ys) (s ∷ segs) e (_, h) = (inr (sym e), h)
Agree-assign (suc i) x (y ∷ ys) (s ∷ segs) e (g, h) = (g, Agree-assign i x ys segs e h)

gather-Agree :
    (parts : List (List ℕ)) (segs : List (Option (List ℕ))) (out : List ℕ)
    → Agree parts segs
    → gather (length parts) segs ≡ some out
    → out ≡ concat parts
unfolding gather concat
gather-Agree [] segs out h e = cc
gather-Agree (x ∷ xs) [] out h e = cc
gather-Agree (x ∷ xs) (none ∷ segs) out h e = cc
gather-Agree (x ∷ xs) (some s ∷ segs) out (inl q, h) e = cc
gather-Agree (x ∷ xs) (some s ∷ segs) out (inr q, h) e =
    let (r, e', e'') = >>=-eq-some (gather (length xs) segs) (λ r. some (s ++ r)) out e in
    let rest = gather-Agree xs segs r h e' in cc

pub record Agrees (parts : List (List ℕ)) (p : Partial) : Type 0 where
  pub segments : Agree parts p.segments
  pub last : (p.last ≡ none) ⊎ ((k : ℕ) × (p.last ≡ some k) × (suc k ≡ length parts))

receive-Agrees :
    (parts : List (List ℕ)) (p : Partial) (a : Atp)
    → IsPart parts a
    → Agrees parts p
    → Agrees parts (receive p a)
unfolding receive
receive-Agrees parts p a v h = record {
  segments = Agree-assign a.bitmap a.bytes parts p.segments v.part h.segments;
  last = elim (Bool-cases (eom a)) [
    | inl e ↦ inr (a.bitmap, rw e, ground (arith, v.end))
    | inr e ↦ rw e h.last
  ];
}

pub receive_all-Agrees :
    (parts : List (List ℕ)) (p : Partial) (arrivals : List Atp)
    → All (IsPart parts) arrivals
    → Agrees parts p
    → Agrees parts (receive_all p arrivals)
unfolding receive_all
receive_all-Agrees parts p [] v h = h
receive_all-Agrees parts p (a ∷ rest) (v, vs) h =
    receive_all-Agrees parts (receive p a) rest vs (receive-Agrees parts p a v h)

pub take_if_complete-Agrees :
    (parts : List (List ℕ)) (p : Partial) (out : List ℕ)
    → Agrees parts p
    → take_if_complete p ≡ some out
    → out ≡ concat parts
unfolding take_if_complete
take_if_complete-Agrees parts p out h e =
    let (k, q, g) = >>=-eq-some p.last (λ last. gather (suc last) p.segments) out e in
    elim h.last [
      | inl w ↦ cc
      | inr (j, q', l) ↦
          gather-Agree parts p.segments out h.segments
            (let n : suc k ≡ length parts = cc in rw (← n) g)
    ]

nones : ℕ → List (Option (List ℕ))
nones zero = []
nones (suc n) = none ∷ nones n

Agree-nones : (n : ℕ) (parts : List (List ℕ)) → Agree parts (nones n)
unfolding nones
Agree-nones n [] = tt
Agree-nones zero (x ∷ xs) = tt
Agree-nones (suc n) (x ∷ xs) = (inl refl, Agree-nones n xs)

pub new_partial-Agrees : (parts : List (List ℕ)) (at : ℕ) → Agrees parts (new_partial at)
unfolding nones
new_partial-Agrees parts at = record { segments = Agree-nones 8 parts; last = inl refl }

-- Whatever comes out of responses that carry a message's parts, in any order, with any repeated or
-- missing, is the whole message, its parts in their order; each response carries the part of its
-- sequence number, below 8, and the mark of the end exactly on the last part.
pub take_if_complete-receive_all :
    (parts : List (List ℕ)) (at : ℕ) (arrivals : List Atp) (out : List ℕ)
    → All (IsPart parts) arrivals
    → take_if_complete (receive_all (new_partial at) arrivals) ≡ some out
    → out ≡ concat parts
take_if_complete-receive_all parts at arrivals out v e =
    take_if_complete-Agrees parts _ out
      (receive_all-Agrees parts (new_partial at) arrivals v (new_partial-Agrees parts at)) e
