-- ===== src/Wire/Aurp/Options.antt =====
-- The options of an Open-Req and an Open-Rsp (src/wire/aurp.rs).
use appletalk.Prelude.{
  ℕ, ◌+◌, ◌%◌, Option, none, some, List, [], ◌∷◌, ◌==◌, length, ◌>>=◌, if◌then◌else◌,
}
use appletalk.Wire.Pstring.{split_at}
use appletalk.Wire.Items.{counted, encode_all}

-- The type byte and the data behind it.
unfoldable pub typed : List ℕ → Option (ℕ × List ℕ)
typed [] = none
typed (t ∷ bytes) = some (t, bytes)

-- The length counts the type byte and the data, so it is never 0.
unfoldable pub parse_option : List ℕ → Option ((ℕ × List ℕ) × List ℕ)
unfolding typed
parse_option [] = none
parse_option (len ∷ p) =
    if len == 0 then none else (do (t, rest) ← split_at len p; o ← typed t; some (o, rest))

unfoldable pub at_end {ℓ} : {A : Type ℓ} → A × List ℕ → Option A
at_end (a, []) = some a
at_end (a, b ∷ bs) = none

unfoldable pub parse_options : List ℕ → ℕ → Option (List (ℕ × List ℕ))
unfolding at_end
parse_options p count = counted parse_option count p >>= at_end

unfoldable pub encode_option : ℕ × List ℕ → List ℕ
encode_option (t, bytes) = (1 + length bytes) % 256 ∷ t ∷ bytes

unfoldable pub encode_options : List (ℕ × List ℕ) → List ℕ
encode_options options = length options % 256 ∷ encode_all encode_option options
