-- ===== src/Token/RoundTrip.antt =====
-- `VerifyToken` of services/token_service.go on what `GenerateToken` made.
use goshorty.Prelude.{
  ℕ, ◌≤◌, String, true, false, not, ◌&&◌, ◌≡◌, ◌≢◌, ◌⊎◌, inl, inr, Option, some, List, ok, err,
  length, str_eq, str_eq_iff, str_eq_refl, byte_len, arith, refl, if◌then◌else◌, ap, sym, ◌∙◌,
}
use goshorty.Prelude.Int.{ℤ, pos, ◌+ℤ◌, ltb_ℤ, ◌≤ℤ◌, ◌<ℤ◌, -ℤ_parts, +ℤ_parts}
use goshorty.Models.Cursor.{Json, Base64, JsonLaws, Base64Laws}
use goshorty.Token.{
  TokenClaims, TokenService, expired, whole_seconds, clock_skew, active_key_id, digest_size,
  max_token_length, is_signed, check_claims, read_payload, check_parts, verify_token, split_dot,
  generate_token, claims_of, signed,
}
use goshorty.Token.Signing.{bytes_eq_refl, split_dot-append}

module _ (base64 : Base64) (json : Json TokenClaims) (sign_bytes : String → String → List ℕ)
    (base64_laws : Base64Laws base64) (json_laws : JsonLaws json)
    (sign_size : (payload key : String) → length (sign_bytes payload key) ≡ digest_size) where
  -- The verifier accepts what the signer makes: it knows the key, and expects no more of the claims.
  pub record Trusts (verifier signer : TokenService) : Type 0 where
    pub signer_keyed : signer.secret_key ≢ ""
    pub verifier_keyed : verifier.secret_key ≢ ""
    pub key_known :
        (verifier.secret_key ≡ signer.secret_key) ⊎ (verifier.previous_key ≡ signer.secret_key)
    pub lives : pos 0 <ℤ whole_seconds signer.ttl
    pub lifetime : whole_seconds signer.ttl ≤ℤ whole_seconds verifier.ttl
    pub issuer : (verifier.issuer ≡ "") ⊎ (signer.issuer ≡ verifier.issuer)
    pub audience : (verifier.audience ≡ "") ⊎ (signer.audience ≡ verifier.audience)

  is_signed-known :
      (verifier signer : TokenService) (payload : String)
      → Trusts verifier signer
      → is_signed base64 json sign_bytes verifier payload (sign_bytes payload signer.secret_key)
        ≡ true
  unfolding is_signed
  is_signed-known verifier signer payload t = elim t.key_known [
    | inl active ↦ rw (active, bytes_eq_refl (sign_bytes payload signer.secret_key)) refl
    | inr previous ↦
        rw (previous, bytes_eq_refl (sign_bytes payload signer.secret_key))
          (ground (arith, str_eq_iff signer.secret_key "", t.signer_keyed))
  ]

  either_ok : (a b c d : String) → (a ≡ b) ⊎ (c ≡ d) → not (str_eq a b) && not (str_eq c d) ≡ false
  either_ok a b c d (inl h) = ground (arith, str_eq_iff a b)
  either_ok a b c d (inr h) = ground (arith, str_eq_iff c d)

  check_claims-of :
      (verifier signer : TokenService) (issued now : ℤ) (draws : ℕ → ℕ)
      (user_id username role : String) (version : Option ℕ)
      → Trusts verifier signer
      → pos 0 <ℤ issued
      → issued ≤ℤ now +ℤ clock_skew
      → let claims =
          claims_of base64 json sign_bytes signer issued draws user_id username role version in
        check_claims base64 json sign_bytes verifier now claims
        ≡ (if ltb_ℤ claims.expires_at now then err expired else ok claims)
  unfolding check_claims
  check_claims-of verifier signer issued now draws user_id username role version t started met =
      ground (
        arith,
        t.lives,
        t.lifetime,
        +ℤ_parts issued (whole_seconds signer.ttl),
        -ℤ_parts (issued +ℤ whole_seconds signer.ttl) issued,
        either_ok verifier.issuer "" signer.issuer verifier.issuer t.issuer,
        either_ok verifier.audience "" signer.audience verifier.audience t.audience,
        str_eq_refl active_key_id,
      )

  -- What the token of a call is.
  abbrev pub made_of : TokenService → TokenClaims → String
  made_of signer claims = signed base64 json sign_bytes signer.secret_key (json_laws.bytes claims)

  generated :
      (signer : TokenService) (issued : ℤ) (draws : ℕ → ℕ) (user_id username role : String)
      (version : Option ℕ)
      → signer.secret_key ≢ ""
      → let claims =
          claims_of base64 json sign_bytes signer issued draws user_id username role version in
        generate_token base64 json sign_bytes signer issued draws user_id username role version
        ≡ ok (made_of signer claims)
  unfolding generate_token
  generated signer issued draws user_id username role version keyed =
      let claims =
        claims_of base64 json sign_bytes signer issued draws user_id username role version in
      ground (arith, str_eq_iff signer.secret_key "", json_laws.marshal_bytes claims)

  check_parts-made :
      (verifier signer : TokenService) (now : ℤ) (claims : TokenClaims)
      → Trusts verifier signer
      → let payload = base64.encode_to_string (json_laws.bytes claims) in
        let sig = sign_bytes payload signer.secret_key in
        check_parts base64 json sign_bytes verifier now payload (base64.encode_to_string sig)
        ≡ check_claims base64 json sign_bytes verifier now claims
  unfolding check_parts read_payload
  check_parts-made verifier signer now claims t =
      let payload = base64.encode_to_string (json_laws.bytes claims) in
      let sig = sign_bytes payload signer.secret_key in
      rw
        (
          check_parts,
          base64_laws.round_trip sig,
          sign_size payload signer.secret_key,
          is_signed-known verifier signer payload t,
          read_payload,
          base64_laws.round_trip (json_laws.bytes claims),
          json_laws.unmarshal_bytes claims,
        )
        refl

  cut_made :
      (signer : TokenService) (claims : TokenClaims)
      → let payload = base64.encode_to_string (json_laws.bytes claims) in
        split_dot (made_of signer claims)
        ≡ some (payload, base64.encode_to_string (sign_bytes payload signer.secret_key))
  cut_made signer claims =
      let payload = base64.encode_to_string (json_laws.bytes claims) in
      split_dot-append payload _ (base64_laws.no_dot (json_laws.bytes claims))

  made_of-ne-empty : (signer : TokenService) (claims : TokenClaims) → made_of signer claims ≢ ""
  unfolding split_dot
  made_of-ne-empty signer claims e =
      let clash = sym (ap split_dot e) ∙ cut_made signer claims in ground (arith, clash)

  read_made :
      (verifier signer : TokenService) (now : ℤ) (claims : TokenClaims)
      → Trusts verifier signer
      → byte_len (made_of signer claims) ≤ max_token_length
      → verify_token base64 json sign_bytes verifier now (made_of signer claims)
        ≡ check_claims base64 json sign_bytes verifier now claims
  unfolding verify_token
  read_made verifier signer now claims t fits =
      let token = made_of signer claims in
      ground (
        arith,
        cut_made signer claims,
        check_parts-made verifier signer now claims t,
        t.verifier_keyed,
        str_eq_iff verifier.secret_key "",
        str_eq_iff token "",
        made_of-ne-empty signer claims,
      )

  -- A token that fits the size limit is made without an error, and until the second it expires in, a
  -- service that trusts the signer, with a clock at most 30 s behind, reads back its claims: their user,
  -- role and token version among them. From then on the token is refused as expired. (It is issued after
  -- 1970.)
  pub verify-generate_token :
      (verifier signer : TokenService) (issued now : ℤ) (draws : ℕ → ℕ)
      (user_id username role : String) (version : Option ℕ)
      → Trusts verifier signer
      → pos 0 <ℤ issued
      → issued ≤ℤ now +ℤ clock_skew
      → let claims =
          claims_of base64 json sign_bytes signer issued draws user_id username role version in
        byte_len (made_of signer claims) ≤ max_token_length
        → (generate_token base64 json sign_bytes signer issued draws user_id username role version
            ≡ ok (made_of signer claims))
          × (verify_token base64 json sign_bytes verifier now (made_of signer claims)
              ≡ (if ltb_ℤ claims.expires_at now then err expired else ok claims))
  verify-generate_token verifier signer issued now draws user_id username role version t started met
        fits =
      let claims =
        claims_of base64 json sign_bytes signer issued draws user_id username role version in
      (
        generated signer issued draws user_id username role version t.signer_keyed,
        read_made verifier signer now claims t fits
            ∙ check_claims-of verifier signer issued now draws user_id username role version t
                started met,
      )
