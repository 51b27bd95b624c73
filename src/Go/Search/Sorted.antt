-- ===== src/Go/Search/Sorted.antt =====
-- `sort.Search` over a sorted slice, for a test that all passes after an element that passes it.
use goshorty.Prelude.{
  ℕ, zero, suc, ◌≤◌, ◌<◌, ◌≡◌, Bool, true, List, [], ◌∷◌, arith, length, drop, keep_if, All,
}
use goshorty.Go.Sort.{IsSorted}
use goshorty.Go.Search.{search, search-IsFirst, drop-IsFirst, at}

module _ {A : Type 0} (less : A → A → Bool) (p : A → Bool)
    (upward : (u v : A) → p u ≡ true → less u v ≡ true → p v ≡ true) where
  at-mono_head :
      (u : A) (xs : List A) (b : ℕ)
      → All (λ v. less u v ≡ true) xs
      → p u ≡ true
      → b < length xs
      → at p xs b ≡ true
  at-mono_head u [] b a h lt = absurd (omega arith)
  at-mono_head u (v ∷ xs) zero a h lt = upward u v h a.0
  at-mono_head u (v ∷ xs) (suc b) a h lt = at-mono_head u xs b a.1 h (omega arith)

  at_mono :
      (xs : List A)
      → IsSorted less xs
      → (a b : ℕ) → at p xs a ≡ true
      → a ≤ b
      → b < length xs
      → at p xs b ≡ true
  at_mono [] s a b h le lt = absurd (omega arith)
  at_mono (u ∷ xs) s zero zero h le lt = h
  at_mono (u ∷ xs) s zero (suc b) h le lt = at-mono_head u xs b s.0 h (omega arith)
  at_mono (u ∷ xs) s (suc a) zero h le lt = absurd (omega arith)
  at_mono (u ∷ xs) s (suc a) (suc b) h le lt = at_mono xs s.1 a b h (omega arith) (omega arith)

  -- The binary search finds where the part begins that passes the test.
  pub drop-search :
      (xs : List A) → IsSorted less xs → drop (search (length xs) (at p xs)) xs ≡ keep_if p xs
  drop-search xs s =
      drop-IsFirst p xs (search (length xs) (at p xs))
        (search-IsFirst (at p xs) (length xs) (at_mono xs s))
