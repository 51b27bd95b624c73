-- ===== src/Random/Alphabet.antt =====
-- The length and the characters of a code from utils/random.go.
use goshorty.Prelude.{
  ℕ, zero, suc, ◌<◌, String, ◌≡◌, ◌≢◌, refl, Bool, true, ◌||◌, ◌&&◌, List, [], ◌∷◌, arith, leb,
  length, All, ap, codes,
}
use goshorty.Prelude.Int.{ℤ, pos, negsuc}
use goshorty.Random.{charset, code_length, with_char, fill, generate_short_code, InRange}

abbrev pub is_alphanumeric : ℕ → Bool
is_alphanumeric c = (leb 48 c && leb c 57) || (leb 65 c && leb c 90) || (leb 97 c && leb c 122)

abbrev pub IsAlphanumeric : ℕ → Type 0
IsAlphanumeric c = is_alphanumeric c ≡ true

-- How long a code `GenerateShortCode(length)` makes.
abbrev pub length_of : ℤ → ℕ
length_of (pos (suc n)) = suc n
length_of _ = code_length

module _ (rest : String) where
  with_char-length :
      (s : String) (i : ℕ)
      → i < length (codes s)
      → length (codes (with_char s i rest)) ≡ suc (length (codes rest))
  unfolding with_char
  with_char-length String.[] i h = absurd (omega arith)
  with_char-length (String.◌∷◌ c s) zero h = refl
  with_char-length (String.◌∷◌ c s) (suc i) h = with_char-length s i (omega arith)

  with_char-IsAlphanumeric :
      (s : String) (i : ℕ)
      → All IsAlphanumeric (codes s)
      → All IsAlphanumeric (codes rest)
      → All IsAlphanumeric (codes (with_char s i rest))
  unfolding with_char
  with_char-IsAlphanumeric String.[] i hs hr = hr
  with_char-IsAlphanumeric (String.◌∷◌ c s) zero hs hr = (hs.0, hr)
  with_char-IsAlphanumeric (String.◌∷◌ c s) (suc i) hs hr = with_char-IsAlphanumeric s i hs.1 hr

all_alphanumeric : List ℕ → Bool
all_alphanumeric [] = true
all_alphanumeric (c ∷ cs) = is_alphanumeric c && all_alphanumeric cs

all_alphanumeric-All : (cs : List ℕ) → all_alphanumeric cs ≡ true → All IsAlphanumeric cs
unfolding all_alphanumeric
all_alphanumeric-All [] h = tt
all_alphanumeric-All (c ∷ cs) h = ground (arith, all_alphanumeric-All cs)

charset-IsAlphanumeric : All IsAlphanumeric (codes charset)
unfolding all_alphanumeric
charset-IsAlphanumeric = all_alphanumeric-All (codes charset) refl

fill-length : (n i : ℕ) (draws : ℕ → ℕ) → InRange draws → length (codes (fill n i draws)) ≡ n
unfolding fill
fill-length zero i draws h = refl
fill-length (suc n) i draws h =
    let longer = with_char-length (fill n (suc i) draws) charset (draws i) (h i) in
    omega (arith, longer, fill-length n (suc i) draws h)

fill-IsAlphanumeric : (n i : ℕ) (draws : ℕ → ℕ) → All IsAlphanumeric (codes (fill n i draws))
unfolding fill
fill-IsAlphanumeric zero i draws = tt
fill-IsAlphanumeric (suc n) i draws =
    with_char-IsAlphanumeric (fill n (suc i) draws) charset (draws i) charset-IsAlphanumeric
      (fill-IsAlphanumeric n (suc i) draws)

-- Whatever the random source returns below 62, the code has the length that was asked for, 6 where
-- that is not positive, and consists of letters and digits.
pub generate_short_code_lem :
    (n : ℤ) (draws : ℕ → ℕ)
    → InRange draws
    → (length (codes (generate_short_code n draws)) ≡ length_of n)
      × All IsAlphanumeric (codes (generate_short_code n draws))
unfolding generate_short_code
generate_short_code_lem (pos (suc n)) draws h =
    (fill-length (suc n) 0 draws h, fill-IsAlphanumeric (suc n) 0 draws)
generate_short_code_lem (pos zero) draws h =
    (fill-length 6 0 draws h, fill-IsAlphanumeric 6 0 draws)
generate_short_code_lem (negsuc n) draws h =
    (fill-length 6 0 draws h, fill-IsAlphanumeric 6 0 draws)

length_of-pos : (n : ℤ) → 0 < length_of n
length_of-pos (pos (suc n)) = omega arith
length_of-pos (pos zero) = omega arith
length_of-pos (negsuc n) = omega arith

-- So it is not empty.
pub generate_short_code-ne-empty :
    (n : ℤ) (draws : ℕ → ℕ) → InRange draws → generate_short_code n draws ≢ ""
generate_short_code-ne-empty n draws h e = absurd (
    omega (
      arith,
      length_of-pos n,
      (generate_short_code_lem n draws h).0,
      ap (λ (s : String). length (codes s)) e,
    ))
