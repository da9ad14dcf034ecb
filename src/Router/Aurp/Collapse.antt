-- ===== src/Router/Aurp/Collapse.antt =====
-- src/router/aurp.rs: a peer that is told the collapsed events believes what it would after all of them.
use appletalk.Prelude.{
  ℕ, ◌≤◌, ◌≡◌, refl, sym, ap, ◌∙◌, inl, inr, true, false, not, ◌&&◌, ◌||◌, Option, none, some, List,
  [], ◌∷◌, ◌==◌, filter, arith, Bool-cases, Option-cases, ==_iff, if◌then◌else◌,
}
use mathlib.Core.Path.{subst}
use appletalk.Wire.Aurp.{EventTuple}
use appletalk.Router.Aurp.Events.{na, nd, nrc, ndc, start, collapse, queue}

-- The distance at which a peer has a network, or `none`, after an event.
unfoldable pub believe : ℕ → EventTuple → Option ℕ → Option ℕ
believe n e b =
    if not (start e == n)
    then b
    else if e.code == na || e.code == ndc
    then some e.tuple.distance
    else if e.code == nd || e.code == nrc
    then none
    else b

unfoldable pub believe_all : ℕ → List EventTuple → Option ℕ → Option ℕ
believe_all n [] b = b
believe_all n (e ∷ es) b = believe_all n es (believe n e b)

-- The events of a sender while one packet is under way.
unfoldable pub queue_all : List EventTuple → List EventTuple → List EventTuple
queue_all pending [] = pending
queue_all pending (e ∷ es) = queue_all (queue pending e) es

-- A network is added only while it is not there.
abbrev pub IsHistory : ℕ → Option ℕ → List EventTuple → Type 0
IsHistory n b [] = Unit
IsHistory n b (e ∷ es) =
    (1 ≤ e.code)
    × (e.code ≤ 4)
    × (start e ≡ n → e.code ≡ na → b ≡ none)
    × IsHistory n (believe n e b) es

abbrev about : ℕ → List EventTuple → List EventTuple
about n es = filter (λ e. start e == n) es

abbrev to_list : Option EventTuple → List EventTuple
to_list none = []
to_list (some e) = e ∷ []

abbrev next_left : Option EventTuple → EventTuple → Option EventTuple
next_left none e = some e
next_left (some p) e = collapse p e

abbrev after : ℕ → Option EventTuple → Option ℕ → Option ℕ
after n none b = b
after n (some e) b = believe n e b

believe_other : (n : ℕ) (e : EventTuple) (b : Option ℕ) → (start e == n) ≡ false → believe n e b ≡ b
unfolding believe
believe_other n e b h = rw h refl

believe-about :
    (n : ℕ) (es : List EventTuple) (b : Option ℕ)
    → believe_all n es b ≡ believe_all n (about n es) b
unfolding believe_all
believe-about n [] b = refl
believe-about n (e ∷ es) b = elim (Bool-cases (start e == n)) [
  | inl h ↦ rw h (believe-about n es (believe n e b))
  | inr h ↦ rw (believe_other n e b h, h) (believe-about n es b)
]

start-collapse :
    (p e f : EventTuple) → start p ≡ start e → collapse p e ≡ some f → start f ≡ start e
unfolding collapse
start-collapse p e f s q = ground arith

queue_other :
    (n : ℕ) (pending : List EventTuple) (e : EventTuple)
    → (start e == n) ≡ false
    → about n (queue pending e) ≡ about n pending
unfolding queue
queue_other n [] e h = rw h refl
queue_other n (p ∷ ps) e h = elim (Bool-cases (start p == start e)) [
  | inr f ↦ elim (Bool-cases (start p == n)) [
    | inl g ↦ rw (f, g) (ap (λ x. p ∷ x) (queue_other n ps e h))
    | inr g ↦ rw (f, g) (queue_other n ps e h)
  ]
  | inl f ↦
      let s = (==_iff (start p) (start e)).0 f in
      let g : (start p == n) ≡ false = rw (← s) at h in
      elim (Option-cases (collapse p e)) [
        | inl c ↦ rw (f, c, g) refl
        | inr (x, c) ↦ rw (f, c, g, start-collapse p e x s c, h) refl
      ]
]

about-queue :
    (n : ℕ) (pending : List EventTuple) (e : EventTuple) (left : Option EventTuple)
    → start e ≡ n
    → about n pending ≡ to_list left
    → about n (queue pending e) ≡ to_list (next_left left e)
unfolding queue
about-queue n [] e none h q = rw ((==_iff (start e) n).1 h) refl
about-queue n [] e (some p) h q = cc
about-queue n (p ∷ ps) e left h q = elim (Bool-cases (start p == start e)) [
  | inr f ↦
      let g : (start p == n) ≡ false = rw (← h) f in
      let q' : about n ps ≡ to_list left = rw g at q in rw (f, g) (about-queue n ps e left h q')
  | inl f ↦
      (let s = (==_iff (start p) (start e)).0 f in
        let g : (start p == n) ≡ true = (==_iff (start p) n).1 (s ∙ h) in
        let g' : (start e == n) ≡ true = (==_iff (start e) n).1 h in
        elim left
            as (λ o.
              about n (p ∷ ps) ≡ to_list o → about n (queue (p ∷ ps) e) ≡ to_list (next_left o e)) [
                | none ↦ λ r. let r' : p ∷ about n ps ≡ [] = rw g at r in cc
                | some x ↦ λ r.
                    let r' : p ∷ about n ps ≡ x ∷ [] = rw g at r in
                    let y : x ≡ p = cc in
                    let z : about n ps ≡ [] = cc in
                    elim (Option-cases (collapse p e)) [
                      | inl c ↦ rw (y, f, c) z
                      | inr (w, c) ↦ rw (y, f, c, start-collapse p e w s c, g', z) refl
                    ]
              ]
          q)
]

collapse_believed :
    (n : ℕ) (left : Option EventTuple) (e : EventTuple) (b : Option ℕ)
    → start e ≡ n
    → 1 ≤ e.code
    → e.code ≤ 4
    → ((p : EventTuple) → left ≡ some p → (start p ≡ n) × (p.code ≡ na → b ≡ none))
    → after n (next_left left e) b ≡ believe n e (after n left b)
unfolding believe collapse
collapse_believed n none e b h l u k = refl
collapse_believed n (some p) e b h l u k = let (s, a) = k p refl in ground arith

abbrev Left : ℕ → Option EventTuple → Option ℕ → Type 0
Left n left b = (p : EventTuple) → left ≡ some p → (start p ≡ n) × (p.code ≡ na → b ≡ none)

next_left_lem :
    (n : ℕ) (left : Option EventTuple) (e : EventTuple) (b : Option ℕ)
    → start e ≡ n
    → (e.code ≡ na → after n left b ≡ none)
    → Left n left b
    → Left n (next_left left e) b
unfolding believe collapse
next_left_lem n none e b h a k p q =
    let y : e ≡ p = cc in subst (λ x. (start x ≡ n) × (x.code ≡ na → b ≡ none)) y (h, a)
next_left_lem n (some o) e b h a k p q =
    let (s, d) = k o refl in
    let g : (start o == n) ≡ true = (==_iff (start o) n).1 s in
    (
      start-collapse o e p (s ∙ sym h) q ∙ h,
      λ c. elim (Bool-cases (o.code == na)) [
        | inl x ↦ d ((==_iff o.code na).0 x)
        | inr x ↦ elim (Bool-cases ((o.code == nd || o.code == nrc) && e.code == na)) [
          | inl y ↦
              let z : collapse o e ≡ some (record { code = ndc; tuple = e.tuple }) = ground arith in
              let zz : some (record { code = ndc; tuple = e.tuple }) ≡ some p = sym z ∙ q in
              let w : record { code = ndc; tuple = e.tuple } ≡ p = cc in
              let v : p.code ≡ ndc = sym (ap (λ t. t.code) w) in omega arith
          | inr y ↦
              let z : collapse o e ≡ some e = ground arith in
              let w : e ≡ p = let zz : some e ≡ some p = sym z ∙ q in cc in
              let v : e.code ≡ na = rw w c in
              let u = a v in
              let u' : (if o.code == na || o.code == ndc
                    then some o.tuple.distance
                    else if o.code == nd || o.code == nrc
                    then none
                    else b)
                  ≡ none =
                rw g at u in
              ground arith
        ]
      ],
    )

left_believed :
    (n : ℕ) (left : Option EventTuple) (b : Option ℕ)
    → believe_all n (to_list left) b ≡ after n left b
unfolding believe_all
left_believed n none b = refl
left_believed n (some e) b = refl

queue_all-Left :
    (n : ℕ) (es pending : List EventTuple) (left : Option EventTuple) (b : Option ℕ)
    → about n pending ≡ to_list left
    → Left n left b
    → IsHistory n (after n left b) es
    → believe_all n (queue_all pending es) b ≡ believe_all n es (after n left b)
unfolding queue_all believe_all
queue_all-Left n [] pending left b q k h =
    believe-about n pending b ∙ ap (λ l. believe_all n l b) q ∙ left_believed n left b
queue_all-Left n (e ∷ es) pending left b q k (l, u, a, h) = elim (Bool-cases (start e == n)) [
  | inl s ↦
      let s' = (==_iff (start e) n).0 s in
      let c = collapse_believed n left e b s' l u k in
      queue_all-Left n es (queue pending e) (next_left left e) b (about-queue n pending e left s' q)
        (next_left_lem n left e b s' (a s') k) (rw c h)
      ∙ ap (λ x. believe_all n es x) c
  | inr s ↦
      let c = believe_other n e (after n left b) s in
      queue_all-Left n es (queue pending e) left b (queue_other n pending e s ∙ q) k (rw c at h)
      ∙ ap (λ x. believe_all n es x) (sym c)
]

-- For events with the codes NA, ND, NRC and NDC in which a network is added only while the peer does
-- not have it, the events queued from an empty list leave the peer with the same belief about the
-- network (gone, or the last distance) as all the events one after the other.
pub believe_all-queue_all :
    (n : ℕ) (es : List EventTuple) (b : Option ℕ)
    → IsHistory n b es
    → believe_all n (queue_all [] es) b ≡ believe_all n es b
believe_all-queue_all n es b h = queue_all-Left n es [] none b refl (λ p q. cc) h
