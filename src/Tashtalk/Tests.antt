-- ===== src/Tashtalk/Tests.antt =====
-- An address enquiry over the serial link.
use appletalk.Prelude.{
  ℕ, ◌≡◌, ◌≤◌, ◌⊎◌, ◌↔◌, refl, true, false, some, [], ◌∷◌, ◌++◌, ◌-◌, length, take, arith, All,
}
use appletalk.Prelude.Bytes.{IsByte}
use appletalk.Wire.Llap.{Llap, encode, parse, data_ok, is_control, llap_enq}
use appletalk.Tashtalk.{Decoder, new, max_frame, feed, fcs, fcs_residue_ok}
use appletalk.Tashtalk.Fcs.{fcs_residue_ok-fcs}
use appletalk.Tashtalk.Link.{
  escape, good_end, feed_all, feed_all-good_end, feed_iff, feed-IsBounded,
}

abbrev enquiry : Llap
enquiry = record { dst = 77; src = 77; typ = llap_enq; bytes = [] }

enquiry-AllIsByte : All IsByte (encode enquiry)
unfolding encode
enquiry-AllIsByte = (omega arith, (omega arith, (omega arith, tt)))

enquiry-parse : parse (encode enquiry) ≡ some enquiry
unfolding parse encode data_ok is_control
enquiry-parse = refl

enquiry_short : length (encode enquiry) ≤ 603
unfolding encode
enquiry_short = omega arith

fcs_residue_ok-fcs_example : fcs_residue_ok (encode enquiry ++ fcs (encode enquiry)) ≡ true
fcs_residue_ok-fcs_example = fcs_residue_ok-fcs (encode enquiry) enquiry-AllIsByte

feed_all-good_end_example :
    feed_all new (escape (encode enquiry ++ fcs (encode enquiry)) ++ good_end) ≡ (new, enquiry ∷ [])
feed_all-good_end_example = feed_all-good_end enquiry enquiry-AllIsByte enquiry_short enquiry-parse

abbrev full : Decoder
full = record { buf = encode enquiry ++ fcs (encode enquiry); escaped = true }

abbrev good : ℕ
good = 0xfd

abbrev bad : ℕ
bad = 0xfe

feed_iff_example : ((feed full good).1 ≡ some enquiry) ↔ (
    (true ≡ true)
    × (good ≡ 0xfd)
    × (5 ≤ length full.buf)
    × (fcs_residue_ok full.buf ≡ true)
    × (parse (take (length full.buf - 2) full.buf) ≡ some enquiry))
feed_iff_example = feed_iff full good enquiry

full_short : length full.buf ≤ max_frame
unfolding encode fcs
full_short = omega arith

feed-IsBounded_example :
    (length (feed full bad).0.buf ≤ max_frame)
    × (((true ≡ false) ⊎ (bad ≡ 0xff)) ⊎ ((feed full bad).0 ≡ new))
feed-IsBounded_example = feed-IsBounded full bad full_short
