-- ===== src/Wire/Aep.antt =====
-- src/wire/aep.rs: echo packets. `encode` returns the bytes that the source appends.
use appletalk.Prelude.{
  ℕ, ◌≡◌, ◌↔◌, refl, Option, none, some, List, [], ◌∷◌, ◌==◌, if◌then◌else◌, ◌>>=◌, >>=-eq-some,
  arith,
}

pub data Echo : Type 0 where
  request reply : Echo

pub record Aep : Type 0 where
  pub func : Echo
  pub bytes : List ℕ

unfoldable pub parse_echo : ℕ → Option Echo
parse_echo b = if b == 1 then some request else if b == 2 then some reply else none

unfoldable pub parse : List ℕ → Option Aep
unfolding parse_echo
parse [] = none
parse (b ∷ rest) = parse_echo b >>= λ func. some (record { func = func; bytes = rest })

unfoldable pub echo_code : Echo → ℕ
echo_code request = 1
echo_code reply = 2

unfoldable pub encode : Aep → List ℕ
unfolding echo_code
encode a = echo_code a.func ∷ a.bytes

parse_echo-eq : (b : ℕ) (f : Echo) → parse_echo b ≡ some f → echo_code f ≡ b
unfolding parse_echo echo_code
parse_echo-eq b request e = ground arith
parse_echo-eq b reply e = ground arith

echo_parse : (f : Echo) → parse_echo (echo_code f) ≡ some f
unfolding parse_echo echo_code
echo_parse request = refl
echo_parse reply = refl

-- Parsing and writing are inverse: a packet parses from exactly one sequence of bytes, its own.
pub parse_iff_aep : (p : List ℕ) (a : Aep) → (parse p ≡ some a) ↔ (encode a ≡ p)
unfolding parse encode
parse_iff_aep [] a = (λ e. cc, λ e. cc)
parse_iff_aep (b ∷ rest) a = (
  λ e. let (f, q, r) = >>=-eq-some (parse_echo b) _ a e in ground (arith, parse_echo-eq b f q),
  λ e.
      let head : echo_code a.func ≡ b = ground arith in
      let tail : a.bytes ≡ rest = ground arith in rw (← head, ← tail) (rw (echo_parse a.func)),
)
