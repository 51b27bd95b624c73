-- ===== src/Go/Sort/Filtered.antt =====
-- Sorting what a test lets through, or testing what has been sorted.
use goshorty.Prelude.{
  any, ◌≡◌, refl, Bool, true, false, List, [], ◌∷◌, arith, if◌then◌else◌, All, All-keep_if, keep_if,
  Bool-cases, inl, inr,
}
use goshorty.Go.Sort.{
  insert_sorted, slice_stable, IsSorted, StrictOrder, Distinct, slice_stable-IsSorted,
}

module _ {ℓ} {A : Type ℓ} (less : A → A → Bool) (order : StrictOrder less) (q : A → Bool) where
  insert_first :
      (x : A) (zs : List A) → All (λ z. less z x ≡ false) zs → insert_sorted less x zs ≡ x ∷ zs
  unfolding insert_sorted
  insert_first x [] h = refl
  insert_first x (z ∷ zs) h = ground (arith, h.0)

  later_too :
      (x y : A) (ys : List A)
      → less y x ≡ false
      → All (λ z. less y z ≡ true) ys
      → All (λ z. less z x ≡ false) ys
  later_too x y [] h s = tt
  later_too x y (z ∷ zs) h s = (ground (arith, h, s.0, order.trans y z x), later_too x y zs h s.1)

  keep_if-insert_sorted :
      (x : A) (ys : List A)
      → IsSorted less ys
      → keep_if q (insert_sorted less x ys)
        ≡ (if q x then insert_sorted less x (keep_if q ys) else keep_if q ys)
  unfolding insert_sorted
  keep_if-insert_sorted x [] s = ground arith
  keep_if-insert_sorted x (y ∷ ys) s = elim (Bool-cases (less y x)) [
    | inl first ↦ ground (arith, first, keep_if-insert_sorted x ys s.1)
    | inr after ↦
        let rest : All (λ z. less z x ≡ false) (y ∷ ys) = (after, later_too x y ys after s.0) in
        let kept = All-keep_if (λ z. less z x ≡ false) q (y ∷ ys) rest in
        let placed = insert_first x (keep_if q (y ∷ ys)) kept in ground (arith, after, placed)
  ]

  -- The two commute, where any two elements are ordered one way.
  pub keep_if-slice_stable :
      (xs : List A)
      → Distinct less xs
      → keep_if q (slice_stable less xs) ≡ slice_stable less (keep_if q xs)
  unfolding slice_stable
  keep_if-slice_stable [] d = refl
  keep_if-slice_stable (x ∷ xs) d =
      let sorted = slice_stable-IsSorted less order xs d.1 in
      ground
        (arith, keep_if-insert_sorted x (slice_stable less xs) sorted, keep_if-slice_stable xs d.1)

module _ {ℓ} {A : Type ℓ} (less : A → A → Bool) (q : A → Bool) where
  any-insert_sorted : (x : A) (xs : List A) → any q (insert_sorted less x xs) ≡ any q (x ∷ xs)
  unfolding insert_sorted
  any-insert_sorted x [] = refl
  any-insert_sorted x (y ∷ ys) = ground (arith, any-insert_sorted x ys)

  pub any-slice_stable : (xs : List A) → any q (slice_stable less xs) ≡ any q xs
  unfolding slice_stable
  any-slice_stable [] = refl
  any-slice_stable (x ∷ xs) =
      ground (arith, any-insert_sorted x (slice_stable less xs), any-slice_stable xs)
