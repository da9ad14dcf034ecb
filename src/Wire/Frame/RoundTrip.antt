-- ===== src/Wire/Frame/RoundTrip.antt =====
-- Ethernet frames written and read back (src/wire/mod.rs).
use appletalk.Prelude.{
  ℕ, ◌+◌, ◌-◌, ◌≤◌, ◌<◌, ◌≡◌, ap, ◌∙◌, ◌⊎◌, inl, inr, true, false, some, List, ◌++◌, ◌>>=◌, length,
  arith,
}
use appletalk.Prelude.Bytes.{IsU16, from_be-bytes}
use appletalk.Wire.Pstring.{split_at, split_at-append}
use appletalk.Wire.Frame.{
  MacAddr, Frame, ddp, aarp, discriminate, mac_bytes, parse_snap, parse_body, parse, zeros,
  type_field, contents, unpadded, encode,
}

abbrev padding : Frame → List ℕ
padding f = zeros (60 - length (unpadded f))

parse-encode_header :
    (f : Frame)
    → IsU16 (type_field f)
    → parse (encode f) ≡ parse_body f.dst f.src (type_field f) (contents f ++ padding f)
unfolding parse encode
parse-encode_header f h = rw (from_be-bytes (type_field f) h, ◌>>=◌)

-- A Phase 1 frame whose protocol is a 16-bit number above 1500 comes back with its padding to 60
-- bytes, since it has no length field to trim it by.
pub parse-encode_phase1 :
    (f : Frame)
    → f.snap ≡ false
    → IsU16 f.proto
    → 1500 < f.proto
    → parse (encode f)
      ≡ some (record f { payload = f.payload ++ zeros (60 - (14 + length f.payload)) })
parse-encode_phase1 f e h k =
    parse-encode_header f (unfold type_field in rw e h)
    ∙ unfold parse_body type_field contents unpadded mac_bytes in ground arith

length-contents : (f : Frame) → f.snap ≡ true → length (contents f) ≡ 8 + length f.payload
unfolding contents
length-contents f e = ground arith

parse_snap-contents :
    (f : Frame)
    → f.snap ≡ true
    → (f.proto ≡ ddp) ⊎ (f.proto ≡ aarp)
    → parse_snap f.dst f.src (contents f) ≡ some f
unfolding parse_snap contents discriminate split_at
parse_snap-contents f e (inl p) = rw (e, p)
parse_snap-contents f e (inr p) = rw (e, p)

type_field_snap :
    (f : Frame)
    → f.snap ≡ true
    → length f.payload ≤ 1492
    → (type_field f ≡ length (contents f)) × (type_field f ≤ 1500)
unfolding type_field
type_field_snap f e h = ground (arith, length-contents f e)

parse_body_snap :
    (dst src : MacAddr) (llc rest : List ℕ)
    → length llc ≤ 1500
    → parse_body dst src (length llc) (llc ++ rest) ≡ parse_snap dst src llc
unfolding parse_body
parse_body_snap dst src llc rest h = ground (arith, split_at-append llc rest)

-- A Phase 2 frame of one of the two protocols, with at most 1492 bytes of payload, comes back
-- exactly, Ethernet's padding trimmed by the length.
pub parse-encode_phase2 :
    (f : Frame)
    → f.snap ≡ true
    → (f.proto ≡ ddp) ⊎ (f.proto ≡ aarp)
    → length f.payload ≤ 1492
    → parse (encode f) ≡ some f
parse-encode_phase2 f e p h =
    let (len, short) = type_field_snap f e h in
    parse-encode_header f (omega arith)
    ∙ ap (λ n. parse_body f.dst f.src n (contents f ++ padding f)) len
    ∙ parse_body_snap f.dst f.src (contents f) (padding f) (omega arith)
    ∙ parse_snap-contents f e p
