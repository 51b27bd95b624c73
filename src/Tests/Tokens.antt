-- ===== src/Tests/Tokens.antt =====
-- Examples of the theorems on tokens. The signature here is 32 zero bytes, whatever the key.
use goshorty.Prelude.{
  ℕ, suc, zero, ◌≤◌, String, ◌≡◌, ◌≢◌, refl, inl, inr, some, List, [], ◌∷◌, ok, byte_len, arith,
  str_eq_iff, ◌*◌,
}
use goshorty.Prelude.Int.{pos, ◌+ℤ◌, ◌≤ℤ◌}
use goshorty.Random.{generate_id}
use goshorty.Config.{second}
use goshorty.Token.{
  TokenService, TokenClaims, new_token_service, with_ttl, generate_token, verify_token, claims_of,
  clock_skew, max_token_length,
}
use goshorty.Token.Verify.{Carries, Current, verify_token-Carries, verify_token-short_ttl}
use goshorty.Token.RoundTrip.{Trusts, made_of, verify-generate_token}
use goshorty.Tests.Json.{test_base64, test_base64-laws, claims_json, claims_json-laws}

abbrev pub zeros : ℕ → List ℕ
zeros zero = []
zeros (suc n) = 0 ∷ zeros n

abbrev pub sign : String → String → List ℕ
sign payload key = zeros 32

abbrev pub signer : TokenService
signer = record {
  secret_key = "old";
  previous_key = "";
  ttl = pos (60 * second);
  issuer = "";
  audience = "";
}

-- The service after a rotation of the keys.
abbrev pub verifier : TokenService
verifier = record {
  secret_key = "new";
  previous_key = "old";
  ttl = pos (60 * second);
  issuer = "";
  audience = "";
}

abbrev pub draws : ℕ → ℕ
draws i = 0

abbrev pub claims : TokenClaims
claims = claims_of test_base64 claims_json sign signer (pos 10) draws "u" "a" "user" (some 2)

abbrev pub token : String
token =
    made_of test_base64 claims_json sign test_base64-laws claims_json-laws (λ payload key. refl)
      signer claims

verifier-Trusts :
    Trusts test_base64 claims_json sign test_base64-laws claims_json-laws
      (λ payload key. refl)
      verifier
      signer
verifier-Trusts = record {
  signer_keyed = λ e. ground (arith, (str_eq_iff "old" "").1 e);
  verifier_keyed = λ e. ground (arith, (str_eq_iff "new" "").1 e);
  key_known = inr refl;
  lives = omega arith;
  lifetime = omega arith;
  issuer = inl refl;
  audience = inl refl;
}

in_time : pos 10 ≤ℤ pos 40 +ℤ clock_skew
unfolding ◌+ℤ◌
in_time = omega arith

token-fits : byte_len token ≤ max_token_length
unfolding ◌+ℤ◌ generate_id
token-fits = omega arith

verify-generate_token_example :
    (generate_token test_base64 claims_json sign signer (pos 10) draws "u" "a" "user" (some 2)
      ≡ ok token)
    × (verify_token test_base64 claims_json sign verifier (pos 40) token ≡ ok claims)
unfolding ◌+ℤ◌
verify-generate_token_example =
    verify-generate_token test_base64 claims_json sign test_base64-laws claims_json-laws
      (λ payload key. refl) verifier signer (pos 10) (pos 40) draws "u" "a" "user" (some 2)
      verifier-Trusts (omega arith) in_time token-fits

pub accepted : verify_token test_base64 claims_json sign verifier (pos 40) token ≡ ok claims
accepted = verify-generate_token_example.1

verify_token-Carries_example :
    (byte_len token ≤ max_token_length)
    × (verifier.secret_key ≢ "")
    × Carries test_base64 claims_json sign verifier token claims
    × Current test_base64 claims_json sign verifier (pos 40) claims
verify_token-Carries_example =
    verify_token-Carries test_base64 claims_json sign verifier (pos 40) token claims accepted

abbrev brief : TokenService
brief = new_token_service "key" (with_ttl (pos 500000000) ∷ [])

verify_token-short_ttl_example :
    verify_token test_base64 claims_json sign brief (pos 40) token ≢ ok claims
unfolding new_token_service
verify_token-short_ttl_example =
    verify_token-short_ttl test_base64 claims_json sign brief (pos 40) token claims (omega arith)
