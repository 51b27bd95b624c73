-- ===== src/Go/Sort/Same.antt =====
-- Sorted lists with the same elements.
use goshorty.Prelude.{
  ◌≡◌, refl, ap, sym, Bool, true, List, [], ◌∷◌, arith, All, subst, ◌⊎◌, inl, inr, Bool-cases,
  length, suc,
}
use goshorty.Go.Sort.{IsSorted, StrictOrder, insert_sorted, slice_stable}

-- An element of a list.
abbrev pub In : {A : Type 0} → A → List A → Type 0
In a [] = ⊥
In a (x ∷ xs) = (a ≡ x) ⊎ In a xs

pub All-In : {A : Type 0} (P : A → Type 0) (xs : List A) → All P xs → (a : A) → In a xs → P a
All-In P [] h a k = absurd k
All-In P (x ∷ xs) h a (inl e) = subst P (sym e) h.0
All-In P (x ∷ xs) h a (inr k) = All-In P xs h.1 a k

module _ {A : Type 0} (less : A → A → Bool) (order : StrictOrder less) where
  not_both : (a b : A) → less a b ≡ true → less b a ≡ true → ⊥
  not_both a b h k = ground (arith, order.asymm a b h)

  -- The heads of two sorted lists with the same elements are the same.
  same_head :
      (x y : A) (xs ys : List A)
      → IsSorted less (x ∷ xs)
      → IsSorted less (y ∷ ys)
      → In x (y ∷ ys)
      → In y (x ∷ xs)
      → x ≡ y
  same_head x y xs ys s t (inl e) k = e
  same_head x y xs ys s t (inr h) (inl e) = sym e
  same_head x y xs ys s t (inr h) (inr k) = absurd (
      not_both x y (All-In (λ z. less x z ≡ true) xs s.0 y k)
        (All-In (λ z. less y z ≡ true) ys t.0 x h))

  -- An element of the tail is not the head.
  In-tail : (x a : A) (xs ys : List A) → IsSorted less (x ∷ xs) → In a xs → In a (x ∷ ys) → In a ys
  In-tail x a xs ys s k (inr h) = h
  In-tail x a xs ys s k (inl e) =
      let above : less x a ≡ true = All-In (λ z. less x z ≡ true) xs s.0 a k in
      absurd (
        not_both x a above
          (subst (λ z. less a z ≡ true) e (subst (λ z. less z a ≡ true) (sym e) above)))

  -- Two sorted lists with the same elements are the same.
  pub sorted_unique :
      (xs ys : List A)
      → IsSorted less xs
      → IsSorted less ys
      → ((a : A) → In a xs → In a ys)
      → ((a : A) → In a ys → In a xs)
      → xs ≡ ys
  sorted_unique [] [] s t f g = refl
  sorted_unique [] (y ∷ ys) s t f g = absurd (g y (inl refl))
  sorted_unique (x ∷ xs) [] s t f g = absurd (f x (inl refl))
  sorted_unique (x ∷ xs) (y ∷ ys) s t f g =
      let e = same_head x y xs ys s t (f x (inl refl)) (g y (inl refl)) in
      let to : (a : A) → In a xs → In a ys =
        λ a k. In-tail x a xs ys s k (subst (λ z. In a (z ∷ ys)) (sym e) (f a (inr k))) in
      let from : (a : A) → In a ys → In a xs =
        λ a k. In-tail y a ys xs t k (subst (λ z. In a (z ∷ xs)) e (g a (inr k))) in
      subst (λ z. x ∷ xs ≡ z ∷ ys) e (ap (◌∷◌ x) (sorted_unique xs ys s.1 t.1 to from))

-- Sorting keeps the elements, and their number.
module _ {A : Type 0} (less : A → A → Bool) where
  one_later :
      (a x y : A) (ys zs : List A) → (In a (x ∷ ys) → In a zs) → In a (x ∷ y ∷ ys) → In a (y ∷ zs)
  one_later a x y ys zs f (inl same) = inr (f (inl same))
  one_later a x y ys zs f (inr (inl same)) = inl same
  one_later a x y ys zs f (inr (inr h)) = inr (f (inr h))

  one_earlier :
      (a x y : A) (ys zs : List A) → (In a zs → In a (x ∷ ys)) → In a (y ∷ zs) → In a (x ∷ y ∷ ys)
  one_earlier a x y ys zs f (inl same) = inr (inl same)
  one_earlier a x y ys zs f (inr h) = elim (f h) [ inl same ↦ inl same | inr l ↦ inr (inr l) ]

  insert_sorted-In : (a x : A) (xs : List A) → In a (x ∷ xs) → In a (insert_sorted less x xs)
  unfolding insert_sorted
  insert_sorted-In a x [] k = k
  insert_sorted-In a x (y ∷ ys) k =
      let later = one_later a x y ys (insert_sorted less x ys) (insert_sorted-In a x ys) k in
      elim (Bool-cases (less y x)) [
        | inr e ↦ rw (insert_sorted, e) k
        | inl e ↦ rw (insert_sorted, e) later
      ]

  In-insert_sorted : (a x : A) (xs : List A) → In a (insert_sorted less x xs) → In a (x ∷ xs)
  unfolding insert_sorted
  In-insert_sorted a x [] k = k
  In-insert_sorted a x (y ∷ ys) k =
      let earlier = one_earlier a x y ys (insert_sorted less x ys) (In-insert_sorted a x ys) in
      elim (Bool-cases (less y x)) [
        | inr e ↦
            let step : insert_sorted less x (y ∷ ys) ≡ x ∷ y ∷ ys = ground (arith, e) in
            subst (In a) step k
        | inl e ↦
            let step : insert_sorted less x (y ∷ ys) ≡ y ∷ insert_sorted less x ys =
              ground (arith, e) in
            earlier (subst (In a) step k)
      ]

  pub slice_stable-In : (a : A) (xs : List A) → In a xs → In a (slice_stable less xs)
  unfolding slice_stable
  slice_stable-In a [] k = k
  slice_stable-In a (x ∷ xs) (inl e) = insert_sorted-In a x (slice_stable less xs) (inl e)
  slice_stable-In a (x ∷ xs) (inr k) =
      insert_sorted-In a x (slice_stable less xs) (inr (slice_stable-In a xs k))

  pub In-slice_stable : (a : A) (xs : List A) → In a (slice_stable less xs) → In a xs
  unfolding slice_stable
  In-slice_stable a [] k = k
  In-slice_stable a (x ∷ xs) k = elim (In-insert_sorted a x (slice_stable less xs) k) [
    | inl e ↦ inl e
    | inr h ↦ inr (In-slice_stable a xs h)
  ]

  length-insert_sorted : (x : A) (xs : List A) → length (insert_sorted less x xs) ≡ suc (length xs)
  unfolding insert_sorted
  length-insert_sorted x [] = refl
  length-insert_sorted x (y ∷ ys) = ground (arith, length-insert_sorted x ys)

  pub length-slice_stable : (xs : List A) → length (slice_stable less xs) ≡ length xs
  unfolding slice_stable
  length-slice_stable [] = refl
  length-slice_stable (x ∷ xs) =
      ground (arith, length-insert_sorted x (slice_stable less xs), length-slice_stable xs)
