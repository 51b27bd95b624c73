-- ===== src/Token/Verify.antt =====
-- What `VerifyToken` of services/token_service.go accepts.
use Prim.Native.String.{◌++◌ as append}
use goshorty.Prelude.{
  ℕ, ◌≤◌, String, true, false, not, ◌&&◌, ◌≡◌, ◌≢◌, ◌⊎◌, inl, inr, some, List, ok, length, str_eq,
  str_eq_iff, byte_len, Bool-cases, Option-cases, arith,
}
use goshorty.Prelude.Int.{ℤ, pos, ◌+ℤ◌, ◌-ℤ◌, ◌≤ℤ◌, ◌<ℤ◌, -ℤ_parts}
use goshorty.Models.Cursor.{Json, Base64}
use goshorty.Token.{
  TokenClaims, TokenService, whole_seconds, clock_skew, active_key_id, digest_size,
  max_token_length, is_signed, check_claims, read_payload, check_parts, verify_token, split_dot,
  bytes_eq,
}
use goshorty.Token.Signing.{bytes_eq→eq, append-split_dot}

module _ (base64 : Base64) (json : Json TokenClaims) (sign_bytes : String → String → List ℕ) where
  -- The claims are current, and made for this service.
  pub record Current (ts : TokenService) (now : ℤ) (claims : TokenClaims) : Type 0 where
    pub issued : pos 0 <ℤ claims.issued_at
    pub ordered : claims.issued_at <ℤ claims.expires_at
    pub not_future : claims.issued_at ≤ℤ now +ℤ clock_skew
    pub not_expired : now ≤ℤ claims.expires_at
    pub lifetime : claims.expires_at -ℤ claims.issued_at ≤ℤ whole_seconds ts.ttl
    pub known_key : (claims.kid ≡ "") ⊎ (claims.kid ≡ active_key_id)
    pub issuer : (ts.issuer ≡ "") ⊎ (claims.iss ≡ ts.issuer)
    pub audience : (ts.audience ≡ "") ⊎ (claims.aud ≡ ts.audience)

  -- The signature of `payload` by a key that the service knows.
  abbrev pub SignedBy : TokenService → String → List ℕ → Type 0
  SignedBy ts payload sig =
      (sig ≡ sign_bytes payload ts.secret_key)
      ⊎ ((ts.previous_key ≢ "") × (sig ≡ sign_bytes payload ts.previous_key))

  -- The token is a signed encoding of `claims`.
  pub record Carries (ts : TokenService) (token : String) (claims : TokenClaims) : Type 0 where
    pub payload : String
    pub sig_b64 : String
    pub sig : List ℕ
    pub claims_json : List ℕ
    pub parts : token ≡ append payload (append "." sig_b64)
    pub sig_decoded : base64.decode_string sig_b64 ≡ some sig
    pub sig_size : length sig ≡ digest_size
    pub signature : SignedBy ts payload sig
    pub payload_decoded : base64.decode_string payload ≡ some claims_json
    pub claims_decoded : json.unmarshal claims_json ≡ some claims

  either : (a b c d : String) → not (str_eq a b) && not (str_eq c d) ≡ false → (a ≡ b) ⊎ (c ≡ d)
  either a b c d h = elim (Bool-cases (str_eq a b)) [
    | inl e ↦ inl ((str_eq_iff a b).0 e)
    | inr n ↦ inr ((str_eq_iff c d).0 (ground arith))
  ]

  check_claims-Current :
      (ts : TokenService) (now : ℤ) (claims c : TokenClaims)
      → check_claims base64 json sign_bytes ts now claims ≡ ok c
      → (claims ≡ c) × Current ts now claims
  unfolding check_claims
  check_claims-Current ts now claims c h = (
    ground arith,
    record {
      issued = ground arith;
      ordered = ground arith;
      not_future = ground arith;
      not_expired = ground arith;
      lifetime = ground arith;
      known_key = either claims.kid "" claims.kid active_key_id (ground arith);
      issuer = either ts.issuer "" claims.iss ts.issuer (ground arith);
      audience = either ts.audience "" claims.aud ts.audience (ground arith);
    },
  )

  is_signed-SignedBy :
      (ts : TokenService) (payload : String) (sig : List ℕ)
      → is_signed base64 json sign_bytes ts payload sig ≡ true
      → SignedBy ts payload sig
  unfolding is_signed
  is_signed-SignedBy ts payload sig h =
      let active = sign_bytes payload ts.secret_key in
      let previous = sign_bytes payload ts.previous_key in
      elim (Bool-cases (bytes_eq sig active)) [
        | inl e ↦ inl (bytes_eq→eq sig active e)
        | inr n ↦ inr (
          λ none_set. ground (arith, str_eq_iff ts.previous_key ""),
          bytes_eq→eq sig previous (ground arith),
        )
      ]

  read_payload-Current :
      (ts : TokenService) (now : ℤ) (payload : String) (claims : TokenClaims)
      → read_payload base64 json sign_bytes ts now payload ≡ ok claims
      → (claims_json : List ℕ) × (base64.decode_string payload ≡ some claims_json)
        × (json.unmarshal claims_json ≡ some claims)
        × Current ts now claims
  unfolding read_payload
  read_payload-Current ts now payload claims h =
      elim (Option-cases (base64.decode_string payload)) [
        | inl bad ↦ absurd (ground arith)
        | inr (claims_json, decoded) ↦ elim (Option-cases (json.unmarshal claims_json)) [
          | inl bad ↦ absurd (ground arith)
          | inr (read, unmarshalled) ↦
              let (same, current) = check_claims-Current ts now read claims (ground arith) in
              (claims_json, decoded, rw same at unmarshalled, rw same at current)
        ]
      ]

  check_parts-Carries :
      (ts : TokenService) (now : ℤ) (token payload sig_b64 : String) (claims : TokenClaims)
      → token ≡ append payload (append "." sig_b64)
      → check_parts base64 json sign_bytes ts now payload sig_b64 ≡ ok claims
      → Carries ts token claims × Current ts now claims
  unfolding check_parts
  check_parts-Carries ts now token payload sig_b64 claims parts h =
      elim (Option-cases (base64.decode_string sig_b64)) [
        | inl bad ↦ absurd (ground arith)
        | inr (sig, sig_decoded) ↦
            let (claims_json, payload_decoded, claims_decoded, current) =
              read_payload-Current ts now payload claims (ground arith) in
            (
              record {
                payload = payload;
                sig_b64 = sig_b64;
                sig = sig;
                claims_json = claims_json;
                parts = parts;
                sig_decoded = sig_decoded;
                payload_decoded = payload_decoded;
                claims_decoded = claims_decoded;
                sig_size = ground arith;
                signature = is_signed-SignedBy ts payload sig (ground arith);
              },
              current,
            )
      ]

  -- A token that is accepted is within the size, carries the claims under a signature of a known key,
  -- and the claims are current.
  pub verify_token-Carries :
      (ts : TokenService) (now : ℤ) (token : String) (claims : TokenClaims)
      → verify_token base64 json sign_bytes ts now token ≡ ok claims
      → (byte_len token ≤ max_token_length)
        × (ts.secret_key ≢ "")
        × Carries ts token claims
        × Current ts now claims
  unfolding verify_token
  verify_token-Carries ts now token claims h = elim (Option-cases (split_dot token)) [
    | inl bad ↦ absurd (ground arith)
    | inr ((payload, sig_b64), cut) ↦
        let (carries, current) =
          check_parts-Carries ts now token payload sig_b64 claims
            (append-split_dot token payload sig_b64 cut) (ground arith) in
        (ground arith, λ unset. ground (arith, str_eq_iff ts.secret_key ""), carries, current)
  ]

  -- A service whose lifetime, in whole seconds, is not positive accepts no token: not even its own.
  pub verify_token-short_ttl :
      (ts : TokenService) (now : ℤ) (token : String) (claims : TokenClaims)
      → whole_seconds ts.ttl ≤ℤ pos 0
      → verify_token base64 json sign_bytes ts now token ≢ ok claims
  verify_token-short_ttl ts now token claims short h =
      let (fits, keyed, carries, current) = verify_token-Carries ts now token claims h in
      ground (arith, current.ordered, current.lifetime, -ℤ_parts claims.expires_at claims.issued_at)
