-- ===== src/Wire/Nbp.antt =====
-- src/wire/nbp.rs: NBP packets. `encode` returns the bytes that the source appends.
pub mod RoundTrip
use Prim.Native.Nat.{min}
use appletalk.Prelude.{
  ℕ, zero, suc, ◌+◌, ◌*◌, ◌/◌, ◌%◌, bit_and, bit_or, Option, none, some, List, [], ◌∷◌, ◌++◌, ◌==◌,
  ◌>>=◌, length, if◌then◌else◌,
}
use appletalk.Prelude.Bytes.{from_be, hi_byte, lo_byte}
use appletalk.Wire.{Addr, Name}
use appletalk.Wire.Pstring.{pstring, put_pstring}

pub data NbpFunc : Type 0 where
  br_rq lk_up lk_up_reply fwd_req : NbpFunc

pub record NbpTuple : Type 0 where
  pub addr : Addr
  pub socket : ℕ
  pub enumerator : ℕ
  pub object : Name
  pub typ : Name
  pub zone : Name

unfoldable pub parse_names : Addr → ℕ → ℕ → List ℕ → Option (NbpTuple × List ℕ)
parse_names addr socket enumerator p = do
  (object, rest) ← pstring p
  (typ, rest') ← pstring rest
  (zone, rest'') ← pstring rest'
  some (
    record {
      addr = addr;
      socket = socket;
      enumerator = enumerator;
      object = object;
      typ = typ;
      zone = zone;
    },
    rest'',
  )

unfoldable pub parse_tuple : List ℕ → Option (NbpTuple × List ℕ)
unfolding parse_names
parse_tuple (h0 ∷ h1 ∷ h2 ∷ h3 ∷ h4 ∷ p) =
    parse_names (record { net = from_be h0 h1; node = h2 }) h3 h4 p
parse_tuple _ = none

unfoldable pub encode_tuple : NbpTuple → List ℕ
encode_tuple t =
    hi_byte t.addr.net
    ∷ lo_byte t.addr.net
    ∷ t.addr.node
    ∷ t.socket
    ∷ t.enumerator
    ∷ (put_pstring t.object ++ (put_pstring t.typ ++ put_pstring t.zone))

pub record Nbp : Type 0 where
  pub func : NbpFunc
  pub id : ℕ
  pub tuples : List NbpTuple

-- The high nibble of the first byte.
unfoldable pub parse_func : ℕ → Option NbpFunc
parse_func n =
    if n == 1
    then some br_rq
    else if n == 2
    then some lk_up
    else if n == 3
    then some lk_up_reply
    else if n == 4
    then some fwd_req
    else none

unfoldable pub func_code : NbpFunc → ℕ
func_code br_rq = 1
func_code lk_up = 2
func_code lk_up_reply = 3
func_code fwd_req = 4

-- `for _ in 0..count`; what is left over is ignored.
unfoldable pub parse_tuples : ℕ → List ℕ → Option (List NbpTuple)
parse_tuples zero rest = some []
parse_tuples (suc n) rest = do (t, r) ← parse_tuple rest; ts ← parse_tuples n r; some (t ∷ ts)

unfoldable pub parse : List ℕ → Option Nbp
parse (b0 ∷ id ∷ rest) = do
  func ← parse_func (b0 / 16)
  tuples ← parse_tuples (bit_and b0 0x0f) rest
  some (record { func = func; id = id; tuples = tuples })
parse _ = none

unfoldable pub encode_tuples : List NbpTuple → List ℕ
encode_tuples [] = []
encode_tuples (t ∷ ts) = encode_tuple t ++ encode_tuples ts

-- The count has four bits, and every tuple is written.
unfoldable pub encode : Nbp → List ℕ
unfolding func_code
encode n =
    bit_or (func_code n.func * 16 % 256) (min (length n.tuples) 15 % 256)
    ∷ n.id
    ∷ encode_tuples n.tuples
