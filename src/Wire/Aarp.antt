-- ===== src/Wire/Aarp.antt =====
-- src/wire/aarp.rs: address resolution packets. `encode` returns the bytes that the source appends.
use appletalk.Prelude.{ℕ, ◌≡◌, Option, none, some, List, [], ◌∷◌, ◌++◌, if◌then◌else◌, ◌>>=◌}
use appletalk.Prelude.Bytes.{IsU16, from_be, hi_byte, lo_byte, from_be-bytes}
use appletalk.Wire.{Addr}
use appletalk.Wire.Frame.{MacAddr, mac, mac_bytes, bytes_eq}

-- Hardware type 1, protocol 0x809b, 6-byte hardware and 4-byte protocol addresses.
abbrev pub preamble : List ℕ
preamble = 0x00 ∷ 0x01 ∷ 0x80 ∷ 0x9b ∷ 6 ∷ 4 ∷ []

pub record Aarp : Type 0 where
  pub op : ℕ
  pub src_hw : MacAddr
  pub src : Addr
  pub dst_hw : MacAddr
  pub dst : Addr

-- The four bytes of a protocol address; the first is not looked at.
unfoldable pub parse_addr : ℕ → ℕ → ℕ → ℕ → Addr
parse_addr a0 a1 a2 a3 = record { net = from_be a1 a2; node = a3 }

-- What follows the preamble; bytes after the 28 are not looked at.
unfoldable pub parse_fields : List ℕ → Option Aarp
unfolding parse_addr mac
parse_fields
      (h6 ∷ h7 ∷ h8 ∷ h9 ∷ h10 ∷ h11 ∷ h12 ∷ h13 ∷ h14 ∷ h15 ∷ h16 ∷ h17 ∷ h18 ∷ h19 ∷ h20 ∷ h21
        ∷ h22 ∷ h23 ∷ h24 ∷ h25 ∷ h26 ∷ h27 ∷ rest) =
    do
      src_hw ← mac (h8 ∷ h9 ∷ h10 ∷ h11 ∷ h12 ∷ h13 ∷ [])
      dst_hw ← mac (h18 ∷ h19 ∷ h20 ∷ h21 ∷ h22 ∷ h23 ∷ [])
      some (record {
        op = from_be h6 h7;
        src_hw = src_hw;
        src = parse_addr h14 h15 h16 h17;
        dst_hw = dst_hw;
        dst = parse_addr h24 h25 h26 h27;
      })
parse_fields _ = none

unfoldable pub parse : List ℕ → Option Aarp
unfolding parse_fields bytes_eq
parse (h0 ∷ h1 ∷ h2 ∷ h3 ∷ h4 ∷ h5 ∷ rest) =
    if bytes_eq (h0 ∷ h1 ∷ h2 ∷ h3 ∷ h4 ∷ h5 ∷ []) preamble then parse_fields rest else none
parse _ = none

unfoldable pub encode_addr : Addr → List ℕ
encode_addr a = 0 ∷ hi_byte a.net ∷ lo_byte a.net ∷ a.node ∷ []

unfoldable pub encode : Aarp → List ℕ
unfolding encode_addr mac_bytes
encode a =
    preamble
    ++ (hi_byte a.op
        ∷ lo_byte a.op
        ∷ (mac_bytes a.src_hw ++ (encode_addr a.src ++ (mac_bytes a.dst_hw ++ encode_addr a.dst))))

pub record IsPacket (a : Aarp) : Type 0 where
  pub op : IsU16 a.op
  pub src : IsU16 a.src.net
  pub dst : IsU16 a.dst.net

-- A packet whose operation and networks are 16-bit numbers is read back from its 28 bytes, with any
-- padding behind them.
pub parse-encode_aarp :
    (a : Aarp) (padding : List ℕ) → IsPacket a → parse (encode a ++ padding) ≡ some a
unfolding parse encode
parse-encode_aarp a padding v =
    rw (from_be-bytes a.op v.op, from_be-bytes a.src.net v.src, from_be-bytes a.dst.net v.dst)
