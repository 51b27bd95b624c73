-- ===== src/Tests/Codec.antt =====
-- A codec for the examples: JSON as a list of numbers, base64 in unary.
use Prim.Native.Nat.{Ordering, compare}
use Prim.Native.Char.{Char, char, code, nul, IsScalar}
use text.Mathlib.TextEquality.{Char-path}
use goshorty.Prelude.Int.{ℤ, pos, negsuc}
use goshorty.Prelude.{
  ℕ, zero, length, suc, String, ◌≡◌, refl, ◌⊎◌, inl, inr, List, [], ◌∷◌, ◌++◌, codes, subst, arith,
}

IsBelow : ℕ → ℕ → Type 0
IsBelow a b = compare a b ≡ Ordering.lt

abbrev Ordering-cases : (o : Ordering) → (o ≡ Ordering.lt) ⊎ (o ≡ Ordering.eq) ⊎ (o ≡ Ordering.gt)
Ordering-cases Ordering.lt = inl refl
Ordering-cases Ordering.eq = inr (inl refl)
Ordering-cases Ordering.gt = inr (inr refl)

abbrev low : (n : ℕ) → compare n 55296 ≡ Ordering.lt → IsScalar n
low n h = rw h tt

abbrev high :
    (n : ℕ)
    → compare n 55296 ≡ Ordering.gt
    → compare 57343 n ≡ Ordering.lt
    → compare n 1114112 ≡ Ordering.lt
    → IsScalar n
high n h k l = rw (h, k, l) tt

abbrev Cases : Ordering → Type 0
Cases o = (o ≡ Ordering.lt) ⊎ (o ≡ Ordering.eq) ⊎ (o ≡ Ordering.gt)

abbrev at_top :
    (n : ℕ)
    → compare n 55296 ≡ Ordering.gt
    → compare 57343 n ≡ Ordering.lt
    → Cases (compare n 1114112)
    → Char
at_top n g k (inl l) = char n (high n g k l)
at_top n g k (inr _) = nul

abbrev at_high : (n : ℕ) → compare n 55296 ≡ Ordering.gt → Cases (compare 57343 n) → Char
at_high n g (inl k) = at_top n g k (Ordering-cases (compare n 1114112))
at_high n g (inr _) = nul

abbrev at_low : (n : ℕ) → Cases (compare n 55296) → Char
at_low n (inl l) = char n (low n l)
at_low n (inr (inl e)) = nul
at_low n (inr (inr g)) = at_high n g (Ordering-cases (compare 57343 n))

abbrev char_of : ℕ → Char
char_of n = at_low n (Ordering-cases (compare n 55296))

only : (n : ℕ) → compare n 55296 ≡ Ordering.eq → n ≡ 55296
only n e = ground arith

at_top-code :
    (n : ℕ) (g : compare n 55296 ≡ Ordering.gt) (k : compare 57343 n ≡ Ordering.lt)
    (o : Cases (compare n 1114112))
    → IsScalar n
    → code (at_top n g k o) ≡ n
at_top-code n g k (inl l) p = refl
at_top-code n g k (inr (inl e)) p = absurd (rw (g, k, e) at p)
at_top-code n g k (inr (inr e)) p = absurd (rw (g, k, e) at p)

at_high-code :
    (n : ℕ) (g : compare n 55296 ≡ Ordering.gt) (o : Cases (compare 57343 n))
    → IsScalar n
    → code (at_high n g o) ≡ n
at_high-code n g (inl k) p = at_top-code n g k (Ordering-cases (compare n 1114112)) p
at_high-code n g (inr (inl e)) p = absurd (rw (g, e) at p)
at_high-code n g (inr (inr e)) p = absurd (rw (g, e) at p)

at_low-code : (n : ℕ) (o : Cases (compare n 55296)) → IsScalar n → code (at_low n o) ≡ n
at_low-code n (inl l) p = refl
at_low-code n (inr (inl e)) p = absurd (subst IsScalar (only n e) p)
at_low-code n (inr (inr g)) p = at_high-code n g (Ordering-cases (compare 57343 n)) p

char_of-code : (c : Char) → char_of (code c) ≡ c
char_of-code (char n p) = Char-path _ _ (at_low-code n (Ordering-cases (compare n 55296)) p)

-- A text as its length and its code points, in front of the rest.
abbrev text_of : ℕ → List ℕ → String × List ℕ
text_of zero bs = ("", bs)
text_of (suc n) [] = ("", [])
text_of (suc n) (b ∷ bs) = let (s, rest) = text_of n bs in (String.◌∷◌ (char_of b) s, rest)

abbrev pub put_text : String → List ℕ → List ℕ
put_text s rest = length (codes s) ∷ (codes s ++ rest)

abbrev pub get_text : List ℕ → String × List ℕ
get_text [] = ("", [])
get_text (n ∷ bs) = text_of n bs

text_of-codes :
    (s : String) (rest : List ℕ) → text_of (length (codes s)) (codes s ++ rest) ≡ (s, rest)
text_of-codes String.[] rest = refl
text_of-codes (String.◌∷◌ c s) rest = rw (char_of-code c, text_of-codes s rest) refl

pub get-put_text : (s : String) (rest : List ℕ) → get_text (put_text s rest) ≡ (s, rest)
get-put_text = text_of-codes

abbrev pub put_int : ℤ → List ℕ → List ℕ
put_int (pos n) rest = 0 ∷ n ∷ rest
put_int (negsuc n) rest = 1 ∷ n ∷ rest

abbrev pub get_int : List ℕ → ℤ × List ℕ
get_int (zero ∷ n ∷ rest) = (pos n, rest)
get_int (suc _ ∷ n ∷ rest) = (negsuc n, rest)
get_int _ = (pos 0, [])

pub get-put_int : (z : ℤ) (rest : List ℕ) → get_int (put_int z rest) ≡ (z, rest)
get-put_int (pos n) rest = refl
get-put_int (negsuc n) rest = refl
