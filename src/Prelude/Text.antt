-- ===== src/Prelude/Text.antt =====
-- Go strings. They are compared by their bytes, which for UTF-8 is the order of code points.
use Prim.Native.Nat.{ℕ, Ordering, compare as compare_ℕ}
use Prim.Native.Char.{code}
use Prim.Native.String.{[], ◌∷◌, len, compare, then}
use Prim.Native.String.compare
use mathlib.Core.Path.{◌≡◌, refl}
use mathlib.Core.Logic.{◌↔◌}
use mathlib.Core.Bool.{Bool, true, false}
use native.Mathlib.Omega.{arith}
use text.Mathlib.Text.{is_lt, ◌==◌}
use text.Mathlib.TextEquality.{eq_iff, path_by_compare}
use text.Mathlib.TextPositions.{eq_refl, compare_refl}
pub use Prim.Native.String.{String}

abbrev pub str_eq : String → String → Bool
str_eq s t = s == t

abbrev pub str_lt : String → String → Bool
str_lt s t = is_lt (compare s t)

-- `len` of a Go string counts its bytes.
abbrev pub byte_len : String → ℕ
byte_len = len

pub str_eq_iff : (s t : String) → (str_eq s t ≡ true) ↔ (s ≡ t)
str_eq_iff = eq_iff

pub str_eq_refl : (s : String) → str_eq s s ≡ true
str_eq_refl = eq_refl

pub str_lt_irrefl : (s : String) → str_lt s s ≡ false
str_lt_irrefl s = rw compare_refl refl

then_lt_trans :
    (a b c : ℕ) (o p q : Ordering)
    → (o ≡ Ordering.lt → p ≡ Ordering.lt → q ≡ Ordering.lt)
    → then (compare_ℕ a b) o ≡ Ordering.lt
    → then (compare_ℕ b c) p ≡ Ordering.lt
    → then (compare_ℕ a c) q ≡ Ordering.lt
then_lt_trans a b c o p q ih h k = ground arith

compare_trans :
    (s t u : String)
    → compare s t ≡ Ordering.lt
    → compare t u ≡ Ordering.lt
    → compare s u ≡ Ordering.lt
compare_trans [] [] u h k = k
compare_trans [] (d ∷ t) [] h k = ground (arith, compare.cons-nil d t)
compare_trans [] (d ∷ t) (e ∷ u) h k = compare.nil-cons e u
compare_trans (c ∷ s) [] u h k = ground (arith, compare.cons-nil c s)
compare_trans (c ∷ s) (d ∷ t) [] h k = ground (arith, compare.cons-nil d t)
compare_trans (c ∷ s) (d ∷ t) (e ∷ u) h k = rw compare.cons-cons (
    then_lt_trans (code c) (code d) (code e) (compare s t) (compare t u) (compare s u)
      (compare_trans s t u) (rw compare.cons-cons at h) (rw compare.cons-cons at k))

pub str_lt_trans : (s t u : String) → str_lt s t ≡ true → str_lt t u ≡ true → str_lt s u ≡ true
str_lt_trans s t u h k = ground (arith, compare_trans s t u)

then_flip :
    (a b : ℕ) (o p : Ordering)
    → (o ≡ Ordering.gt → p ≡ Ordering.lt)
    → then (compare_ℕ a b) o ≡ Ordering.gt
    → then (compare_ℕ b a) p ≡ Ordering.lt
then_flip a b o p ih h = ground arith

compare_flip : (s t : String) → compare s t ≡ Ordering.gt → compare t s ≡ Ordering.lt
compare_flip [] [] h = ground (arith, compare_refl [])
compare_flip [] (d ∷ t) h = ground (arith, compare.nil-cons d t)
compare_flip (c ∷ s) [] h = compare.nil-cons c s
compare_flip (c ∷ s) (d ∷ t) h = rw compare.cons-cons (
    then_flip (code c) (code d) (compare s t) (compare t s) (compare_flip s t)
      (rw compare.cons-cons at h))

-- Two strings that differ are ordered one way.
pub str_lt_total : (s t : String) → str_lt s t ≡ false → str_lt t s ≡ false → s ≡ t
str_lt_total s t h k = path_by_compare s t (ground (arith, compare_flip s t))

pub str_lt_asymm : (s t : String) → str_lt s t ≡ true → str_lt t s ≡ false
str_lt_asymm s t h = ground (arith, str_lt_trans s t s, str_lt_irrefl s)
