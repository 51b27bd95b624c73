-- ===== src/Observability/Ids.antt =====
-- The request IDs of observability.go.
use goshorty.Prelude.{
  ℕ, zero, suc, ◌*◌, ◌/◌, ◌%◌, ◌<◌, String, ◌≡◌, refl, true, false, List, [], ◌∷◌, some, All, arith,
  length, codes, Bool,
}
use goshorty.Observability.{
  is_request_id_char, all_chars, valid_request_id, char_at, hex_encode, new_request_id,
  request_id_for,
}

-- A character in front of a text.
char_at_lem :
    (p : ℕ → Bool) (s : String) (n : ℕ) (rest : String)
    → n < length (codes s)
    → all_chars p (codes s) ≡ true
    → (length (codes (char_at s n rest)) ≡ suc (length (codes rest)))
      × (all_chars p (codes (char_at s n rest)) ≡ all_chars p (codes rest))
unfolding char_at
char_at_lem p String.[] n rest h a = absurd (omega arith)
char_at_lem p (String.◌∷◌ c s) zero rest h a = (refl, ground arith)
char_at_lem p (String.◌∷◌ c s) (suc n) rest h a =
    char_at_lem p s n rest (omega arith) (ground arith)

abbrev digits : String
digits = "0123456789abcdef"

hex_encode_lem :
    (bytes : List ℕ)
    → All (λ b. b < 256) bytes
    → (length (codes (hex_encode bytes)) ≡ 2 * length bytes)
      × (all_chars is_request_id_char (codes (hex_encode bytes)) ≡ true)
unfolding hex_encode
hex_encode_lem [] h = (refl, refl)
hex_encode_lem (b ∷ bytes) h =
    let (size, good) = hex_encode_lem bytes h.1 in
    let low =
      char_at_lem is_request_id_char digits (b % 16) (hex_encode bytes) (omega arith) refl in
    let high =
      char_at_lem is_request_id_char digits (b / 16) (char_at digits (b % 16) (hex_encode bytes))
        (omega (arith, h.0)) refl in
    (ground (arith, size, low, high), ground (arith, good, low, high))

-- Every request has an ID of 8 to 64 letters, digits, dots, dashes and underscores: the client's, where
-- it has sent such a one, and otherwise one of 32 hexadecimal digits (if the random source gives bytes).
pub request_id_for-IsValid :
    (header : String) (bytes : List ℕ) (time_text : String)
    → length bytes ≡ 16
    → All (λ b. b < 256) bytes
    → let id = request_id_for header (some bytes) time_text in
      (valid_request_id id ≡ true)
      × (valid_request_id header ≡ true → id ≡ header)
      × (valid_request_id header ≡ false → length (codes id) ≡ 32)
unfolding request_id_for new_request_id
request_id_for-IsValid header bytes time_text size fits =
    let (long, good) = hex_encode_lem bytes fits in
    (ground (arith, long, good, size), λ h. ground (arith, h), λ h. ground (arith, h, long, size))
