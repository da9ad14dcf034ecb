-- ===== src/Wire/Ddp/RoundTrip.antt =====
-- Datagrams written and read back, with both headers, and the checksum (src/wire/ddp.rs).
use appletalk.Prelude.{
  ℕ, ◌+◌, ◌*◌, ◌/◌, ◌%◌, ◌≤◌, ◌<◌, ◌≡◌, ◌≢◌, sym, bit_and, bit_or, some, List, [], ◌∷◌, length,
  arith,
}
use mathlib.Core.Path.{ap₂, ◌∙◌}
use appletalk.Prelude.Bytes.{IsU16, bit_and_3, bit_and_15, bit_or_fields4}
use appletalk.Wire.Ddp.{
  Ddp, parse, encode, lift, from_short, to_short_bytes, checksum_step, checksum_loop, checksum,
}

-- The fields have the widths of the struct, but for hops, which are the 4 bits of the header.
pub record IsDatagram (d : Ddp) : Type 0 where
  pub hops : d.hops < 16
  pub checksum : IsU16 d.checksum
  pub dst_net : IsU16 d.dst.net
  pub src_net : IsU16 d.src.net

pub first_byte :
    (hops len : ℕ)
    → hops < 16
    → bit_or (bit_and hops 0x0f * 4 % 256) (bit_and (len / 256 % 256) 0x03)
      ≡ hops * 4 + len / 256 % 4
first_byte hops len h =
    let fields = bit_or_fields4 (hops * 4 + len / 256 % 4) (omega arith) in
    let quarter : (hops * 4 + len / 256 % 4) / 4 * 4 ≡ bit_and hops 0x0f * 4 % 256 =
      omega (arith, bit_and_15 hops (omega arith)) in
    let rest : (hops * 4 + len / 256 % 4) % 4 ≡ bit_and (len / 256 % 256) 0x03 =
      omega (arith, bit_and_3 (len / 256 % 256) (omega arith)) in
    ap₂ bit_or (sym quarter) (sym rest) ∙ fields

-- A datagram that is written and read back is itself, with the length that its data has, if its
-- hops are below 16, its checksum and networks are 16-bit numbers, and it has at most 1010 bytes of
-- data, the most that the 10-bit length allows.
pub parse-encode_datagram :
    (d : Ddp)
    → IsDatagram d
    → length d.bytes ≤ 1010
    → parse (encode d) ≡ some (record d { length = 13 + length d.bytes })
unfolding parse encode
parse-encode_datagram d v h =
    let len : ℕ = (13 + length d.bytes) % 65536 in
    let first = first_byte d.hops len v.hops in
    rw
      (
        first,
        bit_and_15 ((d.hops * 4 + len / 256 % 4) / 4) (omega arith),
        bit_and_3 (d.hops * 4 + len / 256 % 4) (omega arith),
      )
      (ground arith)

-- A short header of a datagram with at most 1018 bytes of data, the most that the 10-bit length
-- allows, is read back with its sockets, type and data, and with the network and nodes that the
-- context supplies.
pub from_short-to_short_bytes :
    (d : Ddp) (net dst_node src_node : ℕ)
    → length d.bytes ≤ 1018
    → from_short (to_short_bytes d) net dst_node src_node
      ≡ some (lift d.dst_socket d.src_socket d.typ net dst_node src_node d.bytes)
unfolding from_short to_short_bytes
from_short-to_short_bytes d net dst_node src_node h =
    ground (arith, bit_and_3 ((5 + length d.bytes) % 65536 / 256 % 256))

checksum_step-IsU16 : (sum b : ℕ) → IsU16 (checksum_step sum b)
unfolding checksum_step
checksum_step-IsU16 sum b = omega arith

checksum_loop-IsU16 : (sum : ℕ) (bs : List ℕ) → IsU16 sum → IsU16 (checksum_loop sum bs)
unfolding checksum_loop
checksum_loop-IsU16 sum [] h = h
checksum_loop-IsU16 sum (b ∷ bs) h =
    checksum_loop-IsU16 (checksum_step sum b) bs (checksum_step-IsU16 sum b)

-- A checksum is a `u16`, and never the zero that means that there is none.
pub checksum_bounds : (bs : List ℕ) → (checksum bs ≢ 0) × IsU16 (checksum bs)
unfolding checksum
checksum_bounds bs = ground (arith, checksum_loop-IsU16 0 bs)
