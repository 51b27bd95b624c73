-- ===== src/Models/Cursor.antt =====
-- `EncodeCursor` and `DecodeCursor` of models/pagination.go. Go's JSON and base64url codecs are
-- parameters, with the round trips that their documentation states.
use goshorty.Prelude.{
  ℕ, ◌≡◌, ◌≢◌, [], ◌==◌, false, All, codes, String, Option, none, some, List, arith, Result, ok,
  err,
}

pub data CursorError : Type 0 where
  marshal_failed malformed_cursor : CursorError

-- `json.Marshal` and `json.Unmarshal` at one type.
pub record Json {ℓ} (A : Type ℓ) : Type ℓ where
  pub marshal : A → Option (List ℕ)
  pub unmarshal : List ℕ → Option A

-- `base64.RawURLEncoding`
pub record Base64 : Type 0 where
  pub encode_to_string : List ℕ → String
  pub decode_string : String → Option (List ℕ)

-- A text without the character of this number: 46 is a dot, 32 a space.
abbrev pub Lacks : ℕ → String → Type 0
Lacks n s = All (λ c. (c == n) ≡ false) (codes s)

abbrev pub NoDot : String → Type 0
NoDot = Lacks 46

pub record JsonLaws {ℓ} {A : Type ℓ} (json : Json A) : Type ℓ where
  pub bytes : A → List ℕ
  pub marshal_bytes : (a : A) → json.marshal a ≡ some (bytes a)
  pub unmarshal_bytes : (a : A) → json.unmarshal (bytes a) ≡ some a
  pub not_empty : (a : A) → bytes a ≢ []

pub record Base64Laws (b : Base64) : Type 0 where
  pub round_trip : (bytes : List ℕ) → b.decode_string (b.encode_to_string bytes) ≡ some bytes
  pub empty : (bytes : List ℕ) → b.encode_to_string bytes ≡ "" → bytes ≡ []
  -- The alphabet is letters, digits, `-` and `_`.
  pub no_dot : (bytes : List ℕ) → NoDot (b.encode_to_string bytes)
  pub no_space : (bytes : List ℕ) → Lacks 32 (b.encode_to_string bytes)

module _ {ℓ} {A : Type ℓ} (base64 : Base64) (json : Json A) where
  unfoldable pub encode_cursor : A → Result CursorError String
  encode_cursor v = elim (json.marshal v) [
    | none ↦ err marshal_failed
    | some b ↦ ok (base64.encode_to_string b)
  ]

  unfoldable pub decode_cursor : String → Result CursorError A
  decode_cursor raw = elim (base64.decode_string raw) [
    | none ↦ err malformed_cursor
    | some b ↦ elim (json.unmarshal b) [ none ↦ err malformed_cursor | some out ↦ ok out ]
  ]

  module _ (base64_laws : Base64Laws base64) (json_laws : JsonLaws json) where
    abbrev pub token_of : A → String
    token_of v = base64.encode_to_string (json_laws.bytes v)

    pub encode_cursor_lem : (v : A) → encode_cursor v ≡ ok (token_of v)
    unfolding encode_cursor
    encode_cursor_lem v = ground (arith, json_laws.marshal_bytes v)

    -- What `EncodeCursor` makes, `DecodeCursor` reads back.
    pub decode-encode_cursor : (v : A) → decode_cursor (token_of v) ≡ ok v
    unfolding decode_cursor
    decode-encode_cursor v =
        ground (arith, base64_laws.round_trip (json_laws.bytes v), json_laws.unmarshal_bytes v)

    -- No cursor is encoded as the empty text, which asks for the first page.
    pub token_of-ne-empty : (v : A) → token_of v ≢ ""
    token_of-ne-empty v e = json_laws.not_empty v (base64_laws.empty (json_laws.bytes v) e)
