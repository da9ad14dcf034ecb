-- ===== src/Wire/Packet/Stack.antt =====
-- The decode tree against the encoders of its layers (src/wire/mod.rs).
use appletalk.Prelude.{
  ℕ, ◌+◌, ◌≤◌, ◌≡◌, refl, ap, ◌∙◌, ◌⊎◌, inl, inr, true, false, none, some, List, [], ◌>>=◌, arith,
  All, length, is_some, Option-cases, ◌↔◌, sym,
}
use mathlib.Core.List.{append-nil}
use appletalk.Wire.Aarp
use appletalk.Wire.Aep
use appletalk.Wire.Atp
use appletalk.Wire.Atp.RoundTrip as AtpRoundTrip
use appletalk.Wire.Ddp
use appletalk.Wire.Ddp.RoundTrip as DdpRoundTrip
use appletalk.Wire.Frame
use appletalk.Wire.Frame.RoundTrip as FrameRoundTrip
use appletalk.Wire.Nbp
use appletalk.Wire.Nbp.RoundTrip as NbpRoundTrip
use appletalk.Wire.Rtmp
use appletalk.Wire.Rtmp.RoundTrip as RtmpRoundTrip
use appletalk.Wire.Zip
use appletalk.Wire.Zip.RoundTrip as ZipRoundTrip
use appletalk.Wire.Packet.{
  DdpBody, atp, rtmp, aep, nbp, zip, aarp, ddp, decode_ddp_body, decode_datagram, decode_body,
  decode,
}

-- The DDP type that a body travels under, and its bytes.
abbrev pub travels_as : DdpBody → ℕ × List ℕ
travels_as (atp a) = (3, Atp.encode a)
travels_as (rtmp r) = (Rtmp.ddp_type r, Rtmp.encode r)
travels_as (aep e) = (4, Aep.encode e)
travels_as (nbp n) = (2, Nbp.encode n)
travels_as (zip z) = (6, Zip.encode z)
travels_as DdpBody.unknown = (0, [])

-- A body that its protocol can carry.
abbrev pub IsBody : DdpBody → Type 0
IsBody (atp a) = AtpRoundTrip.IsPacket a
IsBody (rtmp r) = RtmpRoundTrip.IsPacket r
IsBody (aep e) = Unit
IsBody (nbp n) = All NbpRoundTrip.IsTuple n.tuples × (length n.tuples ≤ 15)
IsBody (zip z) = ZipRoundTrip.IsPacket z
IsBody DdpBody.unknown = Unit

ddp_type_cases : (r : Rtmp.Rtmp) → (Rtmp.ddp_type r ≡ 1) ⊎ (Rtmp.ddp_type r ≡ 5)
unfolding Rtmp.ddp_type
ddp_type_cases (Rtmp.routes sender range tuples) = inl refl
ddp_type_cases Rtmp.request = inr refl
ddp_type_cases (Rtmp.rdr split_horizon) = inr refl

-- A body is recognised by the DDP type that its protocol has, and read back.
pub decode_ddp_body-travels_as :
    (d : Ddp.Ddp) (b : DdpBody)
    → IsBody b
    → d.typ ≡ (travels_as b).0
    → d.bytes ≡ (travels_as b).1
    → decode_ddp_body d ≡ b
unfolding decode_ddp_body
decode_ddp_body-travels_as d (atp a) v t e = rw (t, e, AtpRoundTrip.parse-encode_atp a v)
decode_ddp_body-travels_as d (rtmp r) v t e =
    let read = RtmpRoundTrip.parse-encode_rtmp r v in
    elim (ddp_type_cases r) [ inl c ↦ rw (t, e, read) (rw c) | inr c ↦ rw (t, e, read) (rw c) ]
decode_ddp_body-travels_as d (aep a) v t e = rw (t, e, (Aep.parse_iff_aep (Aep.encode a) a).1 refl)
decode_ddp_body-travels_as d (nbp n) (v, h) t e = rw (t, e, NbpRoundTrip.parse-encode_nbp n v h)
decode_ddp_body-travels_as d (zip z) v t e = rw (t, e, ZipRoundTrip.parse-encode_zip z v)
decode_ddp_body-travels_as d DdpBody.unknown v t e = rw t

-- A body that its protocol can carry, in a datagram with its type and bytes, in a Phase 2 frame, is
-- decoded to all three layers, the datagram with the length that its data has; the datagram's
-- fields fit its header, and it has at most 1010 bytes of data.
pub decode-encode :
    (f : Frame.Frame) (d : Ddp.Ddp) (b : DdpBody)
    → f.snap ≡ true
    → f.proto ≡ Frame.ddp
    → f.payload ≡ Ddp.encode d
    → DdpRoundTrip.IsDatagram d
    → length d.bytes ≤ 1010
    → IsBody b
    → d.typ ≡ (travels_as b).0
    → d.bytes ≡ (travels_as b).1
    → decode (Frame.encode f)
      ≡ some (record { frame = f; body = ddp (record d { length = 13 + length d.bytes }) b })
unfolding decode decode_body decode_datagram
decode-encode f d b s p e v h body t bytes =
    let short : length f.payload ≤ 1492 = unfold Ddp.encode in rw e (omega arith) in
    rw (FrameRoundTrip.parse-encode_phase2 f s (inl p) short, ◌>>=◌)
      (rw (
        p,
        e,
        DdpRoundTrip.parse-encode_datagram d v h,
        decode_ddp_body-travels_as (record d { length = 13 + length d.bytes }) b body t bytes,
      ))

-- An address resolution packet whose operation and networks are 16-bit numbers, in a Phase 2 frame,
-- is decoded to the frame and the packet.
pub decode-encode-aarp :
    (f : Frame.Frame) (a : Aarp.Aarp)
    → f.snap ≡ true
    → f.proto ≡ Frame.aarp
    → f.payload ≡ Aarp.encode a
    → Aarp.IsPacket a
    → decode (Frame.encode f) ≡ some (record { frame = f; body = aarp a })
unfolding decode decode_body
decode-encode-aarp f a s p e v =
    let short : length f.payload ≤ 1492 =
      unfold Aarp.encode Aarp.encode_addr Frame.mac_bytes in rw e (omega arith) in
    let read = ap Aarp.parse (sym (append-nil (Aarp.encode a))) ∙ Aarp.parse-encode_aarp a [] v in
    rw (FrameRoundTrip.parse-encode_phase2 f s (inr p) short, ◌>>=◌) (rw (p, e, read))

decode_body_iff :
    (f : Frame.Frame)
    → (is_some (decode_body f) ≡ true) ↔ ((f.proto ≡ Frame.ddp) ⊎ (f.proto ≡ Frame.aarp))
unfolding decode_body
decode_body_iff f = (λ h. ground arith, λ h. elim h [ inl p ↦ rw p | inr p ↦ rw p ])

decode-some :
    (bytes : List ℕ) (f : Frame.Frame)
    → Frame.parse bytes ≡ some f
    → is_some (decode bytes) ≡ is_some (decode_body f)
unfolding decode
decode-some bytes f e =
    rw (e, ◌>>=◌) (elim (Option-cases (decode_body f)) [ inl q ↦ rw q | inr (b, q) ↦ rw q ])

decode-none : (bytes : List ℕ) → Frame.parse bytes ≡ none → is_some (decode bytes) ≡ false
unfolding decode
decode-none bytes e = rw e

-- What passes the filter is exactly the frames that parse with one of AppleTalk's two protocols: a
-- body that does not parse is no reason to drop a frame.
pub decode_iff :
    (bytes : List ℕ)
    → (is_some (decode bytes) ≡ true) ↔ (
        (f : Frame.Frame) × (Frame.parse bytes ≡ some f)
        × ((f.proto ≡ Frame.ddp) ⊎ (f.proto ≡ Frame.aarp)))
decode_iff bytes = (
  λ h. elim (Option-cases (Frame.parse bytes)) [
    | inl e ↦ let no = decode-none bytes e in absurd (ground arith)
    | inr (f, e) ↦ (f, e, (decode_body_iff f).0 (sym (decode-some bytes f e) ∙ h))
  ],
  λ (f, e, p). decode-some bytes f e ∙ (decode_body_iff f).1 p,
)
