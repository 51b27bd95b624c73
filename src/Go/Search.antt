-- ===== src/Go/Search.antt =====
-- `sort.Search(n, f)`, Go's binary search.
pub mod Sorted
use goshorty.Prelude.{
  ℕ, zero, suc, ◌+◌, ◌-◌, ◌/◌, ◌≤◌, ◌<◌, ◌≡◌, Bool, true, false, arith, ltb, if◌then◌else◌,
  Bool-cases, inl, inr, List, [], ◌∷◌, some, none, get_elem?, length, drop, keep_if, keep_if-All,
  All, refl, sym,
}

-- `for i < j { h := int(uint(i+j) >> 1); if !f(h) { i = h + 1 } else { j = h } }; return i`
search_loop : ℕ → (ℕ → Bool) → ℕ → ℕ → ℕ
search_loop zero f i j = i
search_loop (suc fuel) f i j =
    let h = (i + j) / 2 in
    let upper = search_loop fuel f (h + 1) j in
    let lower = search_loop fuel f i h in if ltb i j then (if f h then lower else upper) else i

-- Each round makes `j - i` smaller, so `n` rounds are enough.
unfoldable pub search : ℕ → (ℕ → Bool) → ℕ
unfolding search_loop
search n f = search_loop n f 0 n

abbrev Below : (ℕ → Bool) → ℕ → Type 0
Below f r = (k : ℕ) → k < r → f k ≡ false

abbrev From : (ℕ → Bool) → ℕ → ℕ → Type 0
From f n r = (k : ℕ) → r ≤ k → k < n → f k ≡ true

-- `r` is the first index at which `f` holds, or `n`.
pub record IsFirst (f : ℕ → Bool) (n r : ℕ) : Type 0 where
  pub within : r ≤ n
  pub below : (k : ℕ) → k < r → f k ≡ false
  pub above : (k : ℕ) → r ≤ k → k < n → f k ≡ true

module _ (f : ℕ → Bool) (n : ℕ) (mono : (a b : ℕ) → f a ≡ true → a ≤ b → b < n → f b ≡ true) where
  anti : (a b : ℕ) → f b ≡ false → a ≤ b → b < n → f a ≡ false
  anti a b h le lt = elim (Bool-cases (f a)) [
    | inl e ↦ absurd (cc (mono a b e le lt, h))
    | inr e ↦ e
  ]

  search_loop-IsFirst :
      (fuel i j : ℕ)
      → j - i ≤ fuel
      → i ≤ j
      → j ≤ n
      → Below f i
      → From f n j
      → IsFirst f n (search_loop fuel f i j)
  unfolding search_loop
  search_loop-IsFirst zero i j m le fits low high = record {
    within = omega arith;
    below = low;
    above = λ k a b. high k (omega arith) b;
  }
  search_loop-IsFirst (suc fuel) i j m le fits low high = elim (Bool-cases (ltb i j)) [
    | inr stop ↦
        rw stop
          (record { within = omega arith; below = low; above = λ k a b. high k (ground arith) b })
    | inl go ↦ elim (Bool-cases (f ((i + j) / 2))) [
      | inl hit ↦
          rw (go, hit)
            (search_loop-IsFirst fuel i ((i + j) / 2) (ground arith) (ground arith) (ground arith)
              low (λ k a b. mono ((i + j) / 2) k hit a b))
      | inr miss ↦
          rw (go, miss)
            (search_loop-IsFirst fuel ((i + j) / 2 + 1) j (ground arith) (ground arith) fits
              (λ k a. anti k ((i + j) / 2) miss (omega arith) (ground arith)) high)
    ]
  ]

  pub search-IsFirst : IsFirst f n (search n f)
  unfolding search
  search-IsFirst =
      search_loop-IsFirst n 0 n (omega arith) (omega arith) (omega arith)
        (λ k a. absurd (omega arith)) (λ k a b. absurd (omega arith))

-- Whether `p` holds of the element at an index, if there is one.
abbrev pub at {ℓ} : {A : Type ℓ} → (A → Bool) → List A → ℕ → Bool
at p xs i = elim (get_elem? xs i) [ none ↦ false | some x ↦ p x ]

module _ {ℓ} {A : Type ℓ} (p : A → Bool) where
  All-of_at :
      (xs : List A) → ((k : ℕ) → k < length xs → at p xs k ≡ true) → All (λ x. p x ≡ true) xs
  All-of_at [] h = tt
  All-of_at (x ∷ xs) h = (h 0 (omega arith), All-of_at xs (λ k lt. h (suc k) (omega arith)))

  -- From the first element on that passes the test, all pass: what is left is what the test keeps.
  pub drop-IsFirst :
      (xs : List A) (r : ℕ) → IsFirst (at p xs) (length xs) r → drop r xs ≡ keep_if p xs
  drop-IsFirst [] zero first = refl
  drop-IsFirst [] (suc r) first = refl
  drop-IsFirst (x ∷ xs) zero first =
      sym (keep_if-All p (x ∷ xs) (All-of_at (x ∷ xs) (λ k lt. first.above k (omega arith) lt)))
  drop-IsFirst (x ∷ xs) (suc r) first = ground (arith, drop-IsFirst xs r tail_first, first.below 0)
    where
      tail_first : IsFirst (at p xs) (length xs) r
      tail_first = record {
        within = omega (arith, first.within);
        below = λ k lt. first.below (suc k) (omega arith);
        above = λ k le lt. first.above (suc k) (omega arith) (omega arith);
      }
