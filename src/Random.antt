-- ===== src/Random.antt =====
-- utils/random.go. What `rand.Int(rand.Reader, 62)` returns for each position is an argument; a
-- failure of the random source is a panic, and is not modelled.
pub mod Alphabet
use Prim.Native.String.{◌∷◌ as cons_char, [] as empty_text}
use Prim.Native.Char.{Char}
use goshorty.Prelude.{
  ℕ, zero, suc, ◌+◌, ◌<◌, String, ◌≡◌, ◌≢◌, Bool, true, refl, arith, if◌then◌else◌, ◌==◌, leb,
}
use goshorty.Prelude.Int.{ℤ, pos, negsuc}

abbrev pub charset : String
charset = "abcdefghijklmnopqrstuvwxyzABCDEFGHIJKLMNOPQRSTUVWXYZ0123456789"

abbrev pub code_length : ℕ
code_length = 6

-- `charset[index]` in front of a text. An index past the end, which `rand.Int` does not return,
-- gives nothing.
with_char : String → ℕ → String → String
with_char String.[] index rest = rest
with_char (String.◌∷◌ c s) zero rest = String.◌∷◌ c rest
with_char (String.◌∷◌ c s) (suc index) rest = with_char s index rest

-- `for i := range b { b[i] = charset[index] }`, from position `i` on.
fill : ℕ → ℕ → (ℕ → ℕ) → String
fill zero i draws = ""
fill (suc rounds) i draws = with_char charset (draws i) (fill rounds (suc i) draws)

unfoldable pub generate_short_code : ℤ → (ℕ → ℕ) → String
unfolding fill with_char
generate_short_code (pos (suc n)) draws = fill (suc n) 0 draws
generate_short_code _ draws = fill code_length 0 draws

unfoldable pub generate_id : (ℕ → ℕ) → String
unfolding generate_short_code
generate_id draws = generate_short_code (pos 16) draws

abbrev pub InRange : (ℕ → ℕ) → Type 0
InRange draws = (i : ℕ) → draws i < 62

test_code : generate_short_code (pos 3) (λ i. i + 25) ≡ "zAB"
unfolding generate_short_code
test_code = refl
