-- ===== src/Wire/Llap.antt =====
-- src/wire/llap.rs: LocalTalk frames. `encode` returns the bytes that the source appends.
pub mod RoundTrip
use appletalk.Prelude.{
  ℕ, Bool, true, false, not, bit_and, Option, none, some, List, [], ◌∷◌, ◌++◌, ◌==◌, ◌||◌, ◌>>=◌,
  leb, ltb, length, if◌then◌else◌,
}
use appletalk.Prelude.Bytes.{from_be}

abbrev pub llap_short_ddp : ℕ
llap_short_ddp = 0x01

abbrev pub llap_long_ddp : ℕ
llap_long_ddp = 0x02

abbrev pub llap_enq : ℕ
llap_enq = 0x81

abbrev pub llap_ack : ℕ
llap_ack = 0x82

abbrev pub llap_rts : ℕ
llap_rts = 0x84

abbrev pub llap_cts : ℕ
llap_cts = 0x85

abbrev pub max_data : ℕ
max_data = 600

pub record Llap : Type 0 where
  pub dst : ℕ
  pub src : ℕ
  pub typ : ℕ
  pub bytes : List ℕ

unfoldable pub is_control : ℕ → Bool
is_control typ = typ == llap_enq || (typ == llap_ack || (typ == llap_rts || typ == llap_cts))

-- The low 10 bits of the first two bytes are the length of the data field, those bytes included.
unfoldable pub length_ok : List ℕ → Bool
length_ok (l0 ∷ l1 ∷ rest) = from_be (bit_and l0 0x03) l1 == length (l0 ∷ l1 ∷ rest)
length_ok _ = false

-- Control packets have no data; type 0 and the other types from 0x80 on are discarded.
unfoldable pub data_ok : ℕ → List ℕ → Bool
unfolding is_control length_ok
data_ok typ bytes =
    if is_control typ
    then length bytes == 0
    else if typ == 0 || leb 0x80 typ
    then false
    else if ltb max_data (length bytes)
    then false
    else length_ok bytes

unfoldable pub parse : List ℕ → Option Llap
unfolding data_ok
parse (h0 ∷ h1 ∷ h2 ∷ rest) =
    if data_ok h2 rest then some (record { dst = h0; src = h1; typ = h2; bytes = rest }) else none
parse _ = none

unfoldable pub control : ℕ → ℕ → ℕ → Llap
control dst src typ = record { dst = dst; src = src; typ = typ; bytes = [] }

unfoldable pub encode : Llap → List ℕ
encode l = l.dst ∷ l.src ∷ l.typ ∷ l.bytes
