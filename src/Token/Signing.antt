-- ===== src/Token/Signing.antt =====
-- The parts of a token, and the comparison of its signature.
use Prim.Native.String.{◌∷◌ as cons_char, ◌++◌ as append}
use Prim.Native.Char.{Char, code}
use text.Mathlib.TextEquality.{Char-path}
use mathlib.Core.Option
use text.Mathlib.TextLemmas.{nil-append, cons-append}
use goshorty.Prelude.{
  ℕ, String, true, ◌≡◌, refl, ◌==◌, Option, none, some, List, [], ◌∷◌, arith, Bool-cases, inl, inr,
  subst,
}
use goshorty.Models.Cursor.{NoDot}
use goshorty.Token.{split_dot, bytes_eq}

pub bytes_eq_refl : (bs : List ℕ) → bytes_eq bs bs ≡ true
unfolding bytes_eq
bytes_eq_refl [] = refl
bytes_eq_refl (b ∷ bs) = ground (arith, bytes_eq_refl bs)

pub bytes_eq→eq : (as_ bs : List ℕ) → bytes_eq as_ bs ≡ true → as_ ≡ bs
unfolding bytes_eq
bytes_eq→eq [] [] h = refl
bytes_eq→eq (a ∷ as_) (b ∷ bs) h = ground (arith, bytes_eq→eq as_ bs)
bytes_eq→eq [] (b ∷ bs) h = ground arith
bytes_eq→eq (a ∷ as_) [] h = ground arith

dotted : (s : String) → split_dot (append "." s) ≡ some ("", s)
unfolding split_dot
dotted s = rw (cons-append, nil-append) refl

-- A token is cut at its first dot.
pub split_dot-append : (p s : String) → NoDot p → split_dot (append p (append "." s)) ≡ some (p, s)
unfolding split_dot
split_dot-append String.[] s h = rw nil-append (dotted s)
split_dot-append (String.◌∷◌ c p) s (h, hs) =
    rw (cons-append c p (append "." s), split_dot, h, split_dot-append p s hs) refl

-- What the two parts are to the text they are cut from.
abbrev PartsOf : String → Option (String × String) → Type 0
PartsOf t none = Unit
PartsOf t (some (p, s)) = t ≡ append p (append "." s)

starts_with_dot : (c : Char) (s : String) → code c ≡ 46 → cons_char c s ≡ append "" (append "." s)
starts_with_dot c s h = rw (Char-path c "." h, nil-append, cons-append, nil-append) refl

longer :
    (c : Char) (t : String) (r : Option (String × String))
    → PartsOf t r
    → PartsOf (cons_char c t) (Option.map (λ (a, b). (cons_char c a, b)) r)
longer c t none h = tt
longer c t (some (p, s)) h = rw (h, cons-append c p (append "." s)) refl

split_dot-PartsOf : (t : String) → PartsOf t (split_dot t)
unfolding split_dot
split_dot-PartsOf String.[] = tt
split_dot-PartsOf (String.◌∷◌ c t) = elim (Bool-cases (code c == 46)) [
  | inl dot ↦ rw (split_dot, dot) (starts_with_dot c t (ground arith))
  | inr other ↦ rw (split_dot, other) (longer c t (split_dot t) (split_dot-PartsOf t))
]

pub append-split_dot : (t p s : String) → split_dot t ≡ some (p, s) → t ≡ append p (append "." s)
append-split_dot t p s h = subst (PartsOf t) h (split_dot-PartsOf t)
