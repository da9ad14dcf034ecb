-- ===== src/Tashtalk.antt =====
-- src/tashtalk.rs: the frame check sequence, the commands to the firmware and the decoder of its bytes.
pub mod Fcs
pub mod Link
mod Tests
use appletalk.Prelude.{
  ℕ, zero, suc, ◌+◌, ◌-◌, ◌*◌, ◌/◌, ◌%◌, ◌^◌, ◌<◌, ◌≡◌, refl, bit_and, bit_xor, Bool, true, false,
  not, Option, none, some, List, [], ◌∷◌, ◌++◌, ◌==◌, ◌&&◌, leb, ltb, length, take, if◌then◌else◌,
}
use appletalk.Wire.Frame.{zeros}
use appletalk.Wire.Llap.{Llap, parse, encode}

abbrev pub max_frame : ℕ
max_frame = 605

-- One turn of the loop over a byte's bits, on a `u16`.
unfoldable pub crc_shift : ℕ → ℕ
crc_shift crc = if bit_and crc 1 == 0 then crc / 2 else bit_xor (crc / 2) 0x8408

unfoldable pub crc_shifts : ℕ → ℕ → ℕ
crc_shifts zero crc = crc
crc_shifts (suc n) crc = crc_shifts n (crc_shift crc)

unfoldable pub crc_update : ℕ → ℕ → ℕ
crc_update crc byte = crc_shifts 8 (bit_xor crc byte)

unfoldable pub crc_fold : ℕ → List ℕ → ℕ
crc_fold crc [] = crc
crc_fold crc (b ∷ bs) = crc_fold (crc_update crc b) bs

-- Low byte first, inverted.
unfoldable pub fcs : List ℕ → List ℕ
fcs frame =
    let crc = crc_fold 0xffff frame in
    bit_xor (crc % 256) 0xff ∷ bit_xor (crc / 256 % 256) 0xff ∷ []

unfoldable pub fcs_residue_ok : List ℕ → Bool
fcs_residue_ok frame_with_fcs = crc_fold 0xffff frame_with_fcs == 0xf0b8

unfoldable pub frame_command : Llap → List ℕ
frame_command l = let frame = encode l in 0x01 ∷ (frame ++ fcs frame)

-- A `[u8]` with one element assigned; an index past the end, at which the source panics, changes
-- nothing.
abbrev pub assign : ℕ → ℕ → List ℕ → List ℕ
assign i x [] = []
assign zero x (b ∷ bs) = x ∷ bs
assign (suc i) x (b ∷ bs) = b ∷ assign i x bs

-- The command byte and a 32-byte bitmap.
unfoldable pub node_command : Option ℕ → List ℕ
node_command none = 0x02 ∷ zeros 32
node_command (some n) = assign (1 + n / 8) (2 ^ (n % 8)) (0x02 ∷ zeros 32)

unfoldable pub init_sequence : List ℕ
unfolding node_command
init_sequence = zeros 1024 ++ (node_command none ++ (0x03 ∷ 0x00 ∷ []))

pub record Decoder : Type 0 where
  pub buf : List ℕ
  pub escaped : Bool

abbrev pub new : Decoder
new = record { buf = []; escaped = false }

-- What does not fit is dropped.
abbrev pub push_byte : List ℕ → ℕ → List ℕ
push_byte buf b = if ltb (length buf) max_frame then buf ++ b ∷ [] else buf

-- The frame without its check sequence, when that is right.
unfoldable pub deliver : List ℕ → Option Llap
deliver buf =
    if leb 5 (length buf) && fcs_residue_ok buf then parse (take (length buf - 2) buf) else none

-- The decoder after one byte, and the frame that the byte completed.
unfoldable pub feed : Decoder → ℕ → Decoder × Option Llap
unfolding deliver
feed d byte =
    if not d.escaped
    then (if byte == 0x00
        then (record d { escaped = true }, none)
        else (record d { buf = push_byte d.buf byte }, none))
    else if byte == 0xff
    then (record { buf = push_byte d.buf 0; escaped = false }, none)
    else (new, if byte == 0xfd then deliver d.buf else none)
