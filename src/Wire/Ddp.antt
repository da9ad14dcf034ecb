-- ===== src/Wire/Ddp.antt =====
-- src/wire/ddp.rs: the datagram, its two headers and its checksum. `encode` returns the bytes that the
-- source appends.
pub mod RoundTrip
use appletalk.Prelude.{
  ℕ, ◌+◌, ◌*◌, ◌/◌, ◌%◌, bit_and, bit_or, Option, none, some, List, [], ◌∷◌, ◌++◌, ◌==◌, length,
  drop, if◌then◌else◌,
}
use appletalk.Prelude.Bytes.{from_be, hi_byte, lo_byte}
use appletalk.Wire.{Addr}

-- `wrapping_add`, then `rotate_left(1)`, on a `u16`.
unfoldable pub checksum_step : ℕ → ℕ → ℕ
checksum_step sum b = let s = (sum + b) % 65536 in s * 2 % 65536 + s / 32768

unfoldable pub checksum_loop : ℕ → List ℕ → ℕ
checksum_loop sum [] = sum
checksum_loop sum (b ∷ bs) = checksum_loop (checksum_step sum b) bs

-- A zero on the wire means that there is no checksum, so a zero sum is written as 0xffff.
unfoldable pub checksum : List ℕ → ℕ
checksum bytes = let sum = checksum_loop 0 bytes in if sum == 0 then 0xffff else sum

pub record Ddp : Type 0 where
  pub hops : ℕ
  pub length : ℕ
  pub checksum : ℕ
  pub dst : Addr
  pub dst_socket : ℕ
  pub src : Addr
  pub src_socket : ℕ
  pub typ : ℕ
  pub bytes : List ℕ

unfoldable pub parse : List ℕ → Option Ddp
parse (h0 ∷ h1 ∷ h2 ∷ h3 ∷ h4 ∷ h5 ∷ h6 ∷ h7 ∷ h8 ∷ h9 ∷ h10 ∷ h11 ∷ h12 ∷ rest) = some (record {
  hops = bit_and (h0 / 4) 0x0f;
  length = from_be (bit_and h0 0x03) h1;
  checksum = from_be h2 h3;
  dst = record { net = from_be h4 h5; node = h8 };
  dst_socket = h10;
  src = record { net = from_be h6 h7; node = h9 };
  src_socket = h11;
  typ = h12;
  bytes = rest;
})
parse _ = none

-- The extended length in the lifted datagram is a `u16`.
unfoldable pub lift : ℕ → ℕ → ℕ → ℕ → ℕ → ℕ → List ℕ → Ddp
lift h2 h3 h4 net dst_node src_node rest = record {
  hops = 0;
  length = (13 + length rest) % 65536;
  checksum = 0;
  dst = record { net = net; node = dst_node };
  dst_socket = h2;
  src = record { net = net; node = src_node };
  src_socket = h3;
  typ = h4;
  bytes = rest;
}

-- LocalTalk's 5-byte header: the 10-bit length must be that of what arrived.
unfoldable pub from_short : List ℕ → ℕ → ℕ → ℕ → Option Ddp
unfolding lift
from_short (h0 ∷ h1 ∷ h2 ∷ h3 ∷ h4 ∷ rest) net dst_node src_node =
    if from_be (bit_and h0 0x03) h1 == 5 + length rest
    then some (lift h2 h3 h4 net dst_node src_node rest)
    else none
from_short _ net dst_node src_node = none

unfoldable pub to_short_bytes : Ddp → List ℕ
to_short_bytes d =
    let len = (5 + length d.bytes) % 65536 in
    bit_and (len / 256 % 256) 0x03 ∷ len % 256 ∷ d.dst_socket ∷ d.src_socket ∷ d.typ ∷ d.bytes

unfoldable pub encode : Ddp → List ℕ
encode d =
    let len = (13 + length d.bytes) % 65536 in
    bit_or (bit_and d.hops 0x0f * 4 % 256) (bit_and (len / 256 % 256) 0x03)
    ∷ len % 256
    ∷ hi_byte d.checksum
    ∷ lo_byte d.checksum
    ∷ hi_byte d.dst.net
    ∷ lo_byte d.dst.net
    ∷ hi_byte d.src.net
    ∷ lo_byte d.src.net
    ∷ d.dst.node
    ∷ d.src.node
    ∷ d.dst_socket
    ∷ d.src_socket
    ∷ d.typ
    ∷ d.bytes

unfoldable pub compute_checksum : Ddp → ℕ
unfolding encode
compute_checksum d = checksum (drop 4 (encode d))
