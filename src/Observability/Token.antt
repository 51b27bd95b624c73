-- ===== src/Observability/Token.antt =====
-- Who may read the metrics of observability.go.
use Prim.Native.String.{◌++◌ as append}
use text.Mathlib.TextEquality.{Char-path}
use text.Mathlib.TextLemmas.{nil-append, cons-append}
use goshorty.Prelude.{
  String, ◌≡◌, refl, ap, sym, ◌∙◌, true, ◌⊎◌, some, arith, str_eq, str_eq_iff, str_eq_refl,
  Bool-cases, Option-cases, inl, inr, ◌↔◌,
}
use goshorty.Observability.{after_prefix, metrics_auth}

after_prefix-append : (p s : String) → after_prefix p (append p s) ≡ some s
unfolding after_prefix
after_prefix-append String.[] s = rw nil-append refl
after_prefix-append (String.◌∷◌ c p) s =
    rw (cons-append c p s) (ground (arith, after_prefix-append p s))

append-after_prefix : (p s t : String) → after_prefix p s ≡ some t → s ≡ append p t
unfolding after_prefix
append-after_prefix String.[] s t h = rw nil-append (ground arith)
append-after_prefix (String.◌∷◌ c p) String.[] t h = absurd (ground arith)
append-after_prefix (String.◌∷◌ c p) (String.◌∷◌ d s) t h =
    let same = Char-path c d (ground arith) in
    rw (cons-append c p t, same, append-after_prefix p s t (ground arith)) refl

-- The metrics are shown to everybody where no token is configured; where one is, exactly to requests
-- with the header `Bearer` and that token.
metrics_auth_iff :
    (expected_token authorization : String)
    → (metrics_auth expected_token authorization ≡ true)
      ↔ ((expected_token ≡ "") ⊎ (authorization ≡ append "Bearer " expected_token))
unfolding metrics_auth
metrics_auth_iff expected_token authorization = (shown, allowed)
  where
    shown :
        metrics_auth expected_token authorization ≡ true
        → (expected_token ≡ "") ⊎ (authorization ≡ append "Bearer " expected_token)
    shown h = elim (Bool-cases (str_eq expected_token "")) [
      | inl open_ ↦ inl ((str_eq_iff expected_token "").0 open_)
      | inr closed ↦ elim (Option-cases (after_prefix "Bearer " authorization)) [
        | inl missing ↦ inl (sym ((str_eq_iff "" expected_token).0 (ground arith)))
        | inr (t, cut) ↦
            let same : t ≡ expected_token = (str_eq_iff t expected_token).0 (ground arith) in
            inr (append-after_prefix "Bearer " authorization t cut ∙ ap (append "Bearer ") same)
      ]
    ]

    allowed :
        (expected_token ≡ "") ⊎ (authorization ≡ append "Bearer " expected_token)
        → metrics_auth expected_token authorization ≡ true
    allowed (inl none_set) = ground (arith, str_eq_iff expected_token "", none_set)
    allowed (inr sent) =
        let cut = ap (after_prefix "Bearer ") sent ∙ after_prefix-append "Bearer " expected_token in
        ground (arith, cut, str_eq_refl expected_token)
