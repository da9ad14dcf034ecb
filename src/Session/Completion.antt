-- ===== src/Session/Completion.antt =====
-- A message is complete when all its parts have come (src/session.rs).
use appletalk.Prelude.{
  ℕ, zero, suc, ◌-◌, ◌<◌, ◌≡◌, refl, ◌∙◌, inl, inr, true, Option, none, some, List, [], ◌∷◌, ◌++◌,
  ◌>>=◌, is_some, Bool-cases, length, arith, map, ==_iff, All, In,
}
use appletalk.Wire.Atp.{Atp, eom}
use appletalk.Session.{Partial, new_partial, gather, take_if_complete, assign, receive}
use appletalk.Session.Reassembly.{
  concat, nth, receive_all, IsPart, Agrees, receive_all-Agrees, take_if_complete-Agrees,
  new_partial-Agrees,
}

-- Where a part has come.
abbrev Held : ℕ → List (Option (List ℕ)) → Type 0
Held i segs = (s : List ℕ) × (nth i segs ≡ some (some s))

gather-Held :
    (n : ℕ) (segs : List (Option (List ℕ)))
    → ((i : ℕ) → i < n → Held i segs)
    → (out : List ℕ) × (gather n segs ≡ some out)
unfolding gather
gather-Held zero segs h = ([], refl)
gather-Held (suc n) [] h = let (s, e) = h 0 (omega arith) in cc
gather-Held (suc n) (none ∷ segs) h = let (s, e) = h 0 (omega arith) in cc
gather-Held (suc n) (some s ∷ segs) h =
    let (out, e) = gather-Held n segs (λ i lt. h (suc i) (omega arith)) in (s ++ out, rw (e, ◌>>=◌))

length-assign :
    (i : ℕ) (x : Option (List ℕ)) (segs : List (Option (List ℕ)))
    → length (assign i x segs) ≡ length segs
unfolding assign
length-assign i x [] = refl
length-assign zero x (s ∷ segs) = refl
length-assign (suc i) x (s ∷ segs) = omega (arith, length-assign i x segs)

Held-assign :
    (i : ℕ) (x : List ℕ) (segs : List (Option (List ℕ)))
    → i < length segs
    → Held i (assign i (some x) segs)
unfolding assign
Held-assign i x [] h = absurd (omega arith)
Held-assign zero x (s ∷ segs) h = (x, refl)
Held-assign (suc i) x (s ∷ segs) h = Held-assign i x segs (omega arith)

Held-assign_stays :
    (i j : ℕ) (x : List ℕ) (segs : List (Option (List ℕ)))
    → Held j segs
    → Held j (assign i (some x) segs)
unfolding assign
Held-assign_stays i j x [] h = h
Held-assign_stays zero zero x (s ∷ segs) h = (x, refl)
Held-assign_stays zero (suc j) x (s ∷ segs) h = h
Held-assign_stays (suc i) zero x (s ∷ segs) h = h
Held-assign_stays (suc i) (suc j) x (s ∷ segs) h = Held-assign_stays i j x segs h

-- What has come, and whether the end has, stays.
abbrev Arrived : List (List ℕ) → ℕ → Partial → Type 0
Arrived parts i p = Held i p.segments × (suc i ≡ length parts → is_some p.last ≡ true)

receive-Arrived :
    (parts : List (List ℕ)) (i : ℕ) (p : Partial) (a : Atp)
    → Arrived parts i p
    → Arrived parts i (receive p a)
unfolding receive
receive-Arrived parts i p a (h, l) = (
  Held-assign_stays a.bitmap i a.bytes p.segments h,
  λ e. elim (Bool-cases (eom a)) [ inl q ↦ rw q | inr q ↦ rw q (l e) ],
)

receive_all-Arrived :
    (parts : List (List ℕ)) (i : ℕ) (p : Partial) (arrivals : List Atp)
    → Arrived parts i p
    → Arrived parts i (receive_all p arrivals)
unfolding receive_all
receive_all-Arrived parts i p [] h = h
receive_all-Arrived parts i p (a ∷ rest) h =
    receive_all-Arrived parts i (receive p a) rest (receive-Arrived parts i p a h)

receive_part :
    (parts : List (List ℕ)) (p : Partial) (a : Atp)
    → length p.segments ≡ 8
    → IsPart parts a
    → Arrived parts a.bitmap (receive p a)
unfolding receive
receive_part parts p a h v = (
  Held-assign a.bitmap a.bytes p.segments (omega (arith, v.seq)),
  λ e. let q : eom a ≡ true = v.end ∙ (==_iff _ _).1 e in rw q,
)

length-receive : (p : Partial) (a : Atp) → length (receive p a).segments ≡ length p.segments
unfolding receive
length-receive p a = length-assign a.bitmap (some a.bytes) p.segments

arrived :
    (parts : List (List ℕ)) (i : ℕ) (p : Partial) (arrivals : List Atp)
    → length p.segments ≡ 8
    → All (IsPart parts) arrivals
    → In i (map (λ a. a.bitmap) arrivals)
    → Arrived parts i (receive_all p arrivals)
unfolding receive_all
arrived parts i p [] h v e = elim e [ ]
arrived parts i p (a ∷ rest) h (v, vs) (inl e) =
    receive_all-Arrived parts i (receive p a) rest (rw e (receive_part parts p a h v))
arrived parts i p (a ∷ rest) h (v, vs) (inr e) =
    arrived parts i (receive p a) rest (length-receive p a ∙ h) vs e

complete :
    (parts : List (List ℕ)) (p : Partial)
    → Agrees parts p
    → is_some p.last ≡ true
    → ((i : ℕ) → i < length parts → Held i p.segments)
    → take_if_complete p ≡ some (concat parts)
complete parts p v l h =
    let (out, e) = gather-Held (length parts) p.segments h in
    elim v.last [
      | inl w ↦ cc
      | inr (k, q, n) ↦
          let r : take_if_complete p ≡ some out =
            unfold take_if_complete in rw (q, ◌>>=◌) (rw n e) in
          rw (← take_if_complete-Agrees parts p out v r) r
    ]

-- When every part of a message of one part or more has come, in any order and with any repeated,
-- the message is complete and is the parts in their order; each response carries the part of its
-- sequence number, below 8, and the mark of the end exactly on the last part.
pub receive_all_complete :
    (parts : List (List ℕ)) (at : ℕ) (arrivals : List Atp)
    → 0 < length parts
    → All (IsPart parts) arrivals
    → ((i : ℕ) → i < length parts → In i (map (λ a. a.bitmap) arrivals))
    → take_if_complete (receive_all (new_partial at) arrivals) ≡ some (concat parts)
receive_all_complete parts at arrivals h v all =
    let here : (i : ℕ)
        → i < length parts
        → Arrived parts i (receive_all (new_partial at) arrivals) =
      λ i lt. arrived parts i (new_partial at) arrivals refl v (all i lt) in
    let end = (here (length parts - 1) (omega arith)).1 (omega arith) in
    complete parts _
      (receive_all-Agrees parts (new_partial at) arrivals v (new_partial-Agrees parts at)) end
      (λ i lt. (here i lt).0)
