-- ===== src/Wire/Nbp/RoundTrip.antt =====
-- NBP packets written and read back (src/wire/nbp.rs).
use Prim.Native.Nat.{min}
use mathlib.Core.List.{append_assoc}
use mathlib.Core.Path.{ap₂}
use appletalk.Prelude.{
  ℕ, ◌+◌, ◌*◌, ◌/◌, ◌%◌, ◌≤◌, ◌<◌, ◌≡◌, refl, ◌∙◌, bit_and, bit_or, some, List, [], ◌∷◌, ◌++◌,
  ◌>>=◌, length, arith, All,
}
use appletalk.Prelude.Bytes.{IsU16, from_be-bytes, bit_and_15, bit_or_fields16}
use appletalk.Wire.Pstring.{put_pstring, IsName, pstring-put_pstring}
use appletalk.Wire.Nbp.{
  NbpFunc, br_rq, lk_up, lk_up_reply, fwd_req, NbpTuple, Nbp, parse_names, parse_tuple,
  encode_tuple, parse_func, func_code, parse_tuples, parse, encode_tuples, encode,
}

pub record IsTuple (t : NbpTuple) : Type 0 where
  pub net : IsU16 t.addr.net
  pub object : IsName t.object
  pub typ : IsName t.typ
  pub zone : IsName t.zone

parse_names-put_pstring :
    (t : NbpTuple) (rest : List ℕ)
    → IsTuple t
    → parse_names t.addr t.socket t.enumerator
        (put_pstring t.object ++ (put_pstring t.typ ++ (put_pstring t.zone ++ rest)))
      ≡ some (t, rest)
unfolding parse_names
parse_names-put_pstring t rest v =
    rw
      (
        pstring-put_pstring t.object (put_pstring t.typ ++ (put_pstring t.zone ++ rest)) v.object,
        ◌>>=◌,
      )
      (rw (pstring-put_pstring t.typ (put_pstring t.zone ++ rest) v.typ, ◌>>=◌)
        (rw (pstring-put_pstring t.zone rest v.zone, ◌>>=◌)))

-- A name binding is read back, and what follows it is left.
pub parse_tuple-encode_tuple :
    (t : NbpTuple) (rest : List ℕ)
    → IsTuple t
    → parse_tuple (encode_tuple t ++ rest) ≡ some (t, rest)
unfolding parse_tuple encode_tuple
parse_tuple-encode_tuple t rest v =
    rw
      (
        append_assoc (put_pstring t.object),
        append_assoc (put_pstring t.typ),
        from_be-bytes t.addr.net v.net,
      )
      (parse_names-put_pstring t rest v)

parse_tuples-encode_tuples :
    (ts : List NbpTuple) → All IsTuple ts → parse_tuples (length ts) (encode_tuples ts) ≡ some ts
unfolding parse_tuples encode_tuples
parse_tuples-encode_tuples [] v = refl
parse_tuples-encode_tuples (t ∷ ts) (v, vs) =
    rw (parse_tuple-encode_tuple t (encode_tuples ts) v, ◌>>=◌)
      (rw (parse_tuples-encode_tuples ts vs, ◌>>=◌))

parse_func-func_code : (f : NbpFunc) → parse_func (func_code f) ≡ some f
unfolding parse_func func_code
parse_func-func_code br_rq = refl
parse_func-func_code lk_up = refl
parse_func-func_code lk_up_reply = refl
parse_func-func_code fwd_req = refl

func_code-bounds : (f : NbpFunc) → func_code f < 16
unfolding func_code
func_code-bounds br_rq = omega arith
func_code-bounds lk_up = omega arith
func_code-bounds lk_up_reply = omega arith
func_code-bounds fwd_req = omega arith

first_byte : (f n : ℕ) → f < 16 → n ≤ 15 → bit_or (f * 16 % 256) (min n 15 % 256) ≡ f * 16 + n
first_byte f n h k =
    let high : f * 16 % 256 ≡ (f * 16 + n) / 16 * 16 = omega arith in
    let low : min n 15 % 256 ≡ (f * 16 + n) % 16 = omega arith in
    ap₂ bit_or high low ∙ bit_or_fields16 (f * 16 + n) (omega arith)

-- A packet of at most 15 bindings, with 16-bit networks and names of at most 32 bytes, is read
-- back.
pub parse-encode_nbp :
    (n : Nbp) → All IsTuple n.tuples → length n.tuples ≤ 15 → parse (encode n) ≡ some n
unfolding parse encode
parse-encode_nbp n v h =
    let count = length n.tuples in
    let code = func_code n.func in
    let func : (code * 16 + count) / 16 ≡ code = omega (arith, func_code-bounds n.func) in
    let low : bit_and (code * 16 + count) 0x0f ≡ count =
      bit_and_15 (code * 16 + count) (omega (arith, func_code-bounds n.func)) ∙ omega arith in
    rw (first_byte code count (func_code-bounds n.func) h, func, low, parse_func-func_code n.func)
      (rw (parse_tuples-encode_tuples n.tuples v, ◌>>=◌))
