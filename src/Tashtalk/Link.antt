-- ===== src/Tashtalk/Link.antt =====
-- The decoder against the firmware's escapes (src/tashtalk.rs).
use appletalk.Prelude.{
  ℕ, zero, suc, ◌+◌, ◌-◌, ◌<◌, ◌≤◌, ◌≡◌, ◌⊎◌, ◌↔◌, refl, ap, ◌∙◌, true, false, Option, none, some,
  List, [], ◌∷◌, ◌++◌, length, length-append, take, arith, All,
}
use mathlib.Core.List.{append-nil}
use appletalk.Prelude.Bytes.{IsByte}
use appletalk.Wire.Llap.{Llap, parse, encode}
use appletalk.Tashtalk.{Decoder, new, max_frame, deliver, feed, fcs, fcs_residue_ok}
use appletalk.Tashtalk.Fcs.{fcs_residue_ok-fcs}

-- The bytes that the firmware sends for those of a frame, and its mark of the end of a good frame.
pub escape : List ℕ → List ℕ
escape [] = []
escape (zero ∷ bs) = 0x00 ∷ 0xff ∷ escape bs
escape (suc b ∷ bs) = suc b ∷ escape bs

abbrev pub good_end : List ℕ
good_end = 0x00 ∷ 0xfd ∷ []

-- The frames that a run of bytes completes, and the decoder after it.
pub feed_all : Decoder → List ℕ → Decoder × List Llap
feed_all d [] = (d, [])
feed_all d (b ∷ bs) = let rest = feed_all (feed d b).0 bs in (rest.0, frames (feed d b).1 ++ rest.1)
  where
    frames : Option Llap → List Llap
    frames none = []
    frames (some l) = l ∷ []

abbrev receiving : List ℕ → Decoder
receiving buf = record { buf = buf; escaped = false }

feed_all_silent :
    (d d' : Decoder) (b : ℕ) (bs : List ℕ)
    → feed d b ≡ (d', none)
    → feed_all d (b ∷ bs) ≡ feed_all d' bs
unfolding feed_all
feed_all_silent d d' b bs e = rw e

feed_literal :
    (buf : List ℕ) (b : ℕ)
    → length buf < max_frame
    → feed (receiving buf) (suc b) ≡ (receiving (buf ++ suc b ∷ []), none)
unfolding feed
feed_literal buf b h = ground arith

feed_escape : (buf : List ℕ) → feed (receiving buf) 0 ≡ (record { buf = buf; escaped = true }, none)
unfolding feed
feed_escape buf = refl

feed_zero :
    (buf : List ℕ)
    → length buf < max_frame
    → feed (record { buf = buf; escaped = true }) 0xff ≡ (receiving (buf ++ 0 ∷ []), none)
unfolding feed
feed_zero buf h = ground arith

append_assoc : (xs : List ℕ) (b : ℕ) (ys : List ℕ) → (xs ++ b ∷ []) ++ ys ≡ xs ++ b ∷ ys
append_assoc [] b ys = refl
append_assoc (x ∷ xs) b ys = ap (◌∷◌ x) (append_assoc xs b ys)

-- The decoder takes back what was escaped, as long as it fits.
feed_all-escape :
    (buf bs rest : List ℕ)
    → length buf + length bs ≤ max_frame
    → feed_all (receiving buf) (escape bs ++ rest) ≡ feed_all (receiving (buf ++ bs)) rest
unfolding escape
feed_all-escape buf [] rest h = rw (append-nil buf)
feed_all-escape buf (zero ∷ bs) rest h =
    feed_all_silent (receiving buf) _ 0 _ (feed_escape buf)
    ∙ feed_all_silent _ (receiving (buf ++ 0 ∷ [])) 0xff _ (feed_zero buf (omega arith))
    ∙ feed_all-escape (buf ++ 0 ∷ []) bs rest (omega (arith, length-append buf (0 ∷ [])))
    ∙ ap (λ c. feed_all (receiving c) rest) (append_assoc buf 0 bs)
feed_all-escape buf (suc b ∷ bs) rest h =
    feed_all_silent (receiving buf) (receiving (buf ++ suc b ∷ [])) (suc b) _
      (feed_literal buf b (omega arith))
    ∙ feed_all-escape (buf ++ suc b ∷ []) bs rest (omega (arith, length-append buf (suc b ∷ [])))
    ∙ ap (λ c. feed_all (receiving c) rest) (append_assoc buf (suc b) bs)

take_front : (xs ys : List ℕ) (n : ℕ) → n ≡ length xs → take n (xs ++ ys) ≡ xs
take_front [] [] n e = rw e
take_front [] (y ∷ ys) n e = rw e
take_front (x ∷ xs) ys zero e = absurd (omega arith)
take_front (x ∷ xs) ys (suc n) e = ap (◌∷◌ x) (take_front xs ys n (omega arith))

deliver-fcs :
    (frame : List ℕ)
    → All IsByte frame
    → 3 ≤ length frame
    → deliver (frame ++ fcs frame) ≡ parse frame
unfolding deliver
deliver-fcs frame v h =
    let len : length (frame ++ fcs frame) ≡ length frame + 2 =
      length-append frame (fcs frame) ∙ unfold fcs in refl in
    rw (fcs_residue_ok-fcs frame v) (
      rw (take_front frame (fcs frame) (length (frame ++ fcs frame) - 2) (omega arith))
        (ground arith))

feed_all-good_end_from :
    (buf : List ℕ) (l : Llap)
    → deliver buf ≡ some l
    → feed_all (receiving buf) good_end ≡ (new, l ∷ [])
unfolding feed_all feed
feed_all-good_end_from buf l e = rw e

-- A frame of bytes that parses comes out of a new decoder when the firmware sends it, escaped, with its
-- check sequence and the mark of a good frame, and the decoder is ready for the next one; the frame is
-- at most 603 bytes.
pub feed_all-good_end :
    (l : Llap)
    → All IsByte (encode l)
    → length (encode l) ≤ 603
    → parse (encode l) ≡ some l
    → feed_all new (escape (encode l ++ fcs (encode l)) ++ good_end) ≡ (new, l ∷ [])
feed_all-good_end l v h e =
    let len = length-append (encode l) (fcs (encode l)) in
    let two : length (fcs (encode l)) ≡ 2 = unfold fcs in refl in
    let three : 3 ≤ length (encode l) = unfold encode in omega arith in
    feed_all-escape [] (encode l ++ fcs (encode l)) good_end (omega arith)
    ∙ feed_all-good_end_from _ l (deliver-fcs (encode l) v three ∙ e)

-- A byte completes a frame exactly when it is the second byte of the mark of a good frame and what is
-- in the buffer has at least five bytes, checks out, and parses to that frame without its last two.
pub feed_iff :
    (d : Decoder) (byte : ℕ) (l : Llap)
    → ((feed d byte).1 ≡ some l) ↔ (
        (d.escaped ≡ true)
        × (byte ≡ 0xfd)
        × (5 ≤ length d.buf)
        × (fcs_residue_ok d.buf ≡ true)
        × (parse (take (length d.buf - 2) d.buf) ≡ some l))
unfolding feed deliver
feed_iff d byte l = (λ e. ground arith, λ e. ground arith)

-- A buffer within 605 bytes stays so, and a byte that completes an escape other than a literal zero
-- leaves the decoder as a new one, whatever went before.
pub feed-IsBounded :
    (d : Decoder) (byte : ℕ)
    → length d.buf ≤ max_frame
    → (length (feed d byte).0.buf ≤ max_frame)
      × (((d.escaped ≡ false) ⊎ (byte ≡ 0xff)) ⊎ ((feed d byte).0 ≡ new))
unfolding feed
feed-IsBounded d byte h =
    ground (arith, length-append d.buf (0 ∷ []), length-append d.buf (byte ∷ []))
