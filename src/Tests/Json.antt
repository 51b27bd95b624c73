-- ===== src/Tests/Json.antt =====
-- The examples' JSON and base64, with the laws of a codec.
use Prim.Native.Char.{code}
use goshorty.Prelude.{
  ℕ, zero, suc, String, ◌≡◌, ◌≢◌, refl, false, some, List, [], ◌∷◌, ap, arith, ◌==◌, if◌then◌else◌,
  ◌∙◌, sym,
}
use goshorty.Prelude.Int.{ℤ, pos, negsuc}
use goshorty.Models.{UrlCursor}
use goshorty.Models.Cursor.{Json, Base64, JsonLaws, Base64Laws, Lacks}
use goshorty.Token.{TokenClaims}
use goshorty.Tests.Codec.{put_text, get_text, get-put_text, put_int, get_int, get-put_int}

-- A number `n` is `n` times `a`, and then `b`.
abbrev unary : ℕ → String → String
unary zero rest = String.◌∷◌ "b" rest
unary (suc n) rest = String.◌∷◌ "a" (unary n rest)

abbrev to_unary : List ℕ → String
to_unary [] = ""
to_unary (n ∷ ns) = unary n (to_unary ns)

abbrev more : List ℕ → List ℕ
more [] = []
more (n ∷ ns) = suc n ∷ ns

abbrev from_unary : String → List ℕ
from_unary String.[] = []
from_unary (String.◌∷◌ c s) = if code c == 98 then 0 ∷ from_unary s else more (from_unary s)

from_unary-unary : (n : ℕ) (s : String) → from_unary (unary n s) ≡ n ∷ from_unary s
from_unary-unary zero s = refl
from_unary-unary (suc n) s = ap more (from_unary-unary n s)

from-to_unary : (ns : List ℕ) → from_unary (to_unary ns) ≡ ns
from-to_unary [] = refl
from-to_unary (n ∷ ns) = from_unary-unary n (to_unary ns) ∙ ap (◌∷◌ n) (from-to_unary ns)

module _ (x : ℕ) (not_a : (97 == x) ≡ false) (not_b : (98 == x) ≡ false) where
  unary-Lacks : (n : ℕ) (s : String) → Lacks x s → Lacks x (unary n s)
  unary-Lacks zero s h = (not_b, h)
  unary-Lacks (suc n) s h = (not_a, unary-Lacks n s h)

  to_unary-Lacks : (ns : List ℕ) → Lacks x (to_unary ns)
  to_unary-Lacks [] = tt
  to_unary-Lacks (n ∷ ns) = unary-Lacks n (to_unary ns) (to_unary-Lacks ns)

abbrev pub test_base64 : Base64
test_base64 = record { encode_to_string = to_unary; decode_string = λ s. some (from_unary s) }

pub test_base64-laws : Base64Laws test_base64
test_base64-laws = record {
  round_trip = λ ns. ap some (from-to_unary ns);
  empty = λ ns e. sym (from-to_unary ns) ∙ ap from_unary e;
  no_dot = to_unary-Lacks 46 refl refl;
  no_space = to_unary-Lacks 32 refl refl;
}

abbrev pub cursor_bytes : UrlCursor → List ℕ
cursor_bytes c = put_int c.created_at_unix_nano (put_text c.short_code [])

abbrev pub cursor_of_bytes : List ℕ → UrlCursor
cursor_of_bytes bs =
    let (at, bs₁) = get_int bs in
    let (code, _) = get_text bs₁ in record { created_at_unix_nano = at; short_code = code }

abbrev pub cursor_json : Json UrlCursor
cursor_json = record {
  marshal = λ c. some (cursor_bytes c);
  unmarshal = λ bs. some (cursor_of_bytes bs);
}

pub put_int-ne-nil : (z : ℤ) (rest : List ℕ) → put_int z rest ≢ []
put_int-ne-nil (pos n) rest e = ground arith
put_int-ne-nil (negsuc n) rest e = ground arith

pub cursor_read : (c : UrlCursor) → cursor_of_bytes (cursor_bytes c) ≡ c
cursor_read c = rw (get-put_int c.created_at_unix_nano _, get-put_text c.short_code []) refl

abbrev pub cursor_json-laws : JsonLaws cursor_json
cursor_json-laws = record {
  bytes = cursor_bytes;
  marshal_bytes = λ c. refl;
  unmarshal_bytes = λ c. ap some (cursor_read c);
  not_empty = λ c. put_int-ne-nil c.created_at_unix_nano _;
}

abbrev first_of : List ℕ → ℕ
first_of [] = 0
first_of (n ∷ _) = n

abbrev pub claims_bytes : TokenClaims → List ℕ
claims_bytes c = put_text c.jti (
    put_text c.user_id (
      put_text c.username (
        put_text c.role (
          put_text c.iss (
            put_text c.aud (
              put_text c.kid
                (put_int c.issued_at (put_int c.expires_at (c.token_version ∷ [])))))))))

abbrev pub claims_of_bytes : List ℕ → TokenClaims
claims_of_bytes b =
    let (jti, b₁) = get_text b in
    let (user_id, b₂) = get_text b₁ in
    let (username, b₃) = get_text b₂ in
    let (role, b₄) = get_text b₃ in
    let (iss, b₅) = get_text b₄ in
    let (aud, b₆) = get_text b₅ in
    let (kid, b₇) = get_text b₆ in
    let (issued_at, b₈) = get_int b₇ in
    let (expires_at, b₉) = get_int b₈ in
    record {
      jti = jti;
      user_id = user_id;
      username = username;
      role = role;
      token_version = first_of b₉;
      iss = iss;
      aud = aud;
      kid = kid;
      issued_at = issued_at;
      expires_at = expires_at;
    }

abbrev pub claims_json : Json TokenClaims
claims_json = record {
  marshal = λ c. some (claims_bytes c);
  unmarshal = λ b. some (claims_of_bytes b);
}

pub claims_read : (c : TokenClaims) → claims_of_bytes (claims_bytes c) ≡ c
claims_read c =
    rw
      (
        get-put_text c.jti _,
        get-put_text c.user_id _,
        get-put_text c.username _,
        get-put_text c.role _,
        get-put_text c.iss _,
        get-put_text c.aud _,
        get-put_text c.kid _,
        get-put_int c.issued_at _,
        get-put_int c.expires_at _,
      )
      refl

pub cons-ne-nil : (n : ℕ) (ns : List ℕ) → n ∷ ns ≢ []
cons-ne-nil n ns e = ground arith

abbrev pub claims_json-laws : JsonLaws claims_json
claims_json-laws = record {
  bytes = claims_bytes;
  marshal_bytes = λ c. refl;
  unmarshal_bytes = λ c. ap some (claims_read c);
  not_empty = λ c. cons-ne-nil _ _;
}
