-- ===== src/Wire/Frame.antt =====
-- src/wire/mod.rs: Ethernet addresses, and the frames that carry AppleTalk over Ethernet (ELAP).
-- `encode` returns the bytes that the source appends, its start being 0.
pub mod RoundTrip
use appletalk.Prelude.{
  ℕ, zero, suc, ◌+◌, ◌-◌, ◌%◌, Bool, true, false, Option, none, some, List, [], ◌∷◌, ◌++◌, ◌==◌,
  ◌&&◌, ◌>>=◌, ltb, leb, length, if◌then◌else◌,
}
use appletalk.Prelude.Bytes.{from_be, hi_byte, lo_byte}
use appletalk.Wire.Pstring.{split_at}

-- The six octets of a `MacAddr`.
pub record MacAddr : Type 0 where
  pub m0 : ℕ
  pub m1 : ℕ
  pub m2 : ℕ
  pub m3 : ℕ
  pub m4 : ℕ
  pub m5 : ℕ

unfoldable pub mac : List ℕ → Option MacAddr
mac (a ∷ b ∷ c ∷ d ∷ e ∷ f ∷ []) = some (record { m0 = a; m1 = b; m2 = c; m3 = d; m4 = e; m5 = f })
mac _ = none

unfoldable pub mac_bytes : MacAddr → List ℕ
mac_bytes m = m.m0 ∷ m.m1 ∷ m.m2 ∷ m.m3 ∷ m.m4 ∷ m.m5 ∷ []

abbrev pub ddp : ℕ
ddp = 0x809b

abbrev pub aarp : ℕ
aarp = 0x80f3

abbrev pub snap_ddp : List ℕ
snap_ddp = 0x08 ∷ 0x00 ∷ 0x07 ∷ 0x80 ∷ 0x9b ∷ []

abbrev pub snap_aarp : List ℕ
snap_aarp = 0x00 ∷ 0x00 ∷ 0x00 ∷ 0x80 ∷ 0xf3 ∷ []

pub record Frame : Type 0 where
  pub dst : MacAddr
  pub src : MacAddr
  pub proto : ℕ
  pub snap : Bool
  pub payload : List ℕ

unfoldable pub bytes_eq : List ℕ → List ℕ → Bool
bytes_eq [] [] = true
bytes_eq [] (b ∷ bs) = false
bytes_eq (a ∷ as') [] = false
bytes_eq (a ∷ as') (b ∷ bs) = (a == b) && bytes_eq as' bs

unfoldable pub discriminate : List ℕ → Option ℕ
unfolding bytes_eq
discriminate disc =
    if bytes_eq disc snap_ddp then some ddp else if bytes_eq disc snap_aarp then some aarp else none

-- DSAP, SSAP, control, the five bytes of the discriminator, and the payload.
unfoldable pub parse_snap : MacAddr → MacAddr → List ℕ → Option Frame
parse_snap dst src (a ∷ b ∷ c ∷ rest) =
    if a == 0xaa && (b == 0xaa && c == 0x03)
    then (do
      (disc, payload) ← split_at 5 rest
      proto ← discriminate disc
      some (record { dst = dst; src = src; proto = proto; snap = true; payload = payload }))
    else none
parse_snap dst src _ = none

-- A type above 1500 is Phase 1; below it is the length, which leaves Ethernet's padding out.
unfoldable pub parse_body : MacAddr → MacAddr → ℕ → List ℕ → Option Frame
parse_body dst src typelen body =
    if ltb 1500 typelen
    then some (record { dst = dst; src = src; proto = typelen; snap = false; payload = body })
    else split_at typelen body >>= λ (llc, _). parse_snap dst src llc

unfoldable pub parse : List ℕ → Option Frame
unfolding mac
parse (d0 ∷ d1 ∷ d2 ∷ d3 ∷ d4 ∷ d5 ∷ s0 ∷ s1 ∷ s2 ∷ s3 ∷ s4 ∷ s5 ∷ t0 ∷ t1 ∷ body) = do
  dst ← mac (d0 ∷ d1 ∷ d2 ∷ d3 ∷ d4 ∷ d5 ∷ [])
  src ← mac (s0 ∷ s1 ∷ s2 ∷ s3 ∷ s4 ∷ s5 ∷ [])
  parse_body dst src (from_be t0 t1) body
parse _ = none

abbrev pub zeros : ℕ → List ℕ
zeros zero = []
zeros (suc n) = 0 ∷ zeros n

-- `resize` to the 60-byte minimum.
unfoldable pub pad : List ℕ → List ℕ
pad out = out ++ zeros (60 - length out)

-- The length of LLC, SNAP and payload in Phase 2, and the protocol in Phase 1.
unfoldable pub type_field : Frame → ℕ
type_field f = if f.snap then (8 + length f.payload) % 65536 else f.proto

unfoldable pub contents : Frame → List ℕ
contents f =
    if f.snap
    then 0xaa ∷ 0xaa ∷ 0x03 ∷ ((if f.proto == aarp then snap_aarp else snap_ddp) ++ f.payload)
    else f.payload

unfoldable pub unpadded : Frame → List ℕ
unfolding mac_bytes
unpadded f =
    mac_bytes f.dst
    ++ (mac_bytes f.src ++ hi_byte (type_field f) ∷ lo_byte (type_field f) ∷ contents f)

unfoldable pub encode : Frame → List ℕ
unfolding pad unpadded
encode f = pad (unpadded f)
