-- ===== src/Wire/Packet.antt =====
-- src/wire/mod.rs: a captured frame, decoded as far down the stack as its bytes can be followed.
pub mod Stack
use appletalk.Prelude.{ℕ, Option, none, some, List, [], ◌∷◌, ◌==◌, ◌||◌, ◌>>=◌, if◌then◌else◌}
use appletalk.Wire.Aarp
use appletalk.Wire.Aep
use appletalk.Wire.Atp
use appletalk.Wire.Ddp
use appletalk.Wire.Frame
use appletalk.Wire.Nbp
use appletalk.Wire.Rtmp
use appletalk.Wire.Zip

pub data DdpBody : Type 0 where
  atp : Atp.Atp → DdpBody
  rtmp : Rtmp.Rtmp → DdpBody
  aep : Aep.Aep → DdpBody
  nbp : Nbp.Nbp → DdpBody
  zip : Zip.Zip → DdpBody
  unknown : DdpBody

pub data Body : Type 0 where
  aarp : Aarp.Aarp → Body
  ddp : Ddp.Ddp → DdpBody → Body
  unknown : Body

pub record Packet : Type 0 where
  pub frame : Frame.Frame
  pub body : Body

-- `Option::map_or`.
abbrev pub map_or {ℓ κ} : {A : Type ℓ} {B : Type κ} → B → (A → B) → Option A → B
map_or default f none = default
map_or default f (some a) = f a

unfoldable pub decode_ddp_body : Ddp.Ddp → DdpBody
decode_ddp_body d =
    if d.typ == 1 || d.typ == 5
    then map_or unknown rtmp (Rtmp.parse d.typ d.bytes)
    else if d.typ == 2
    then map_or unknown nbp (Nbp.parse d.bytes)
    else if d.typ == 3
    then map_or unknown atp (Atp.parse d.bytes)
    else if d.typ == 4
    then map_or unknown aep (Aep.parse d.bytes)
    else if d.typ == 6
    then map_or unknown zip (Zip.parse d.bytes)
    else unknown

unfoldable pub decode_datagram : List ℕ → Body
decode_datagram payload = map_or unknown (λ d. ddp d (decode_ddp_body d)) (Ddp.parse payload)

-- None for a frame that is not AppleTalk.
unfoldable pub decode_body : Frame.Frame → Option Body
unfolding decode_datagram
decode_body f =
    if f.proto == Frame.aarp
    then some (map_or unknown aarp (Aarp.parse f.payload))
    else if f.proto == Frame.ddp
    then some (decode_datagram f.payload)
    else none

unfoldable pub decode : List ℕ → Option Packet
unfolding decode_body
decode bytes = do
  frame ← Frame.parse bytes
  body ← decode_body frame
  some (record { frame = frame; body = body })
