-- ===== src/Go/Sort.antt =====
-- `sort.SliceStable(xs, less)`: the stable sort by `less`, as an insertion sort. A stable sort has one
-- result, so the choice of algorithm is not seen.
pub mod Filtered
pub mod Same
use mathlib.Core.List.{Perm}
use mathlib.Core.List.Perm
use goshorty.Prelude.{
  keep_if, keep_if-All, All-middle, subst, ◌++◌, ◌≡◌, Bool, true, false, ◌⊎◌, inl, inr, List, [],
  ◌∷◌, arith, if◌then◌else◌, All, All-imp, Bool-cases,
}

module _ {ℓ} {A : Type ℓ} where
  -- `x` goes before the first element that is not less than it.
  unfoldable pub insert_sorted : (A → A → Bool) → A → List A → List A
  insert_sorted less x [] = x ∷ []
  insert_sorted less x (y ∷ ys) =
      let later = y ∷ insert_sorted less x ys in if less y x then later else x ∷ y ∷ ys

  unfoldable pub slice_stable : (A → A → Bool) → List A → List A
  unfolding insert_sorted
  slice_stable less [] = []
  slice_stable less (x ∷ xs) = insert_sorted less x (slice_stable less xs)

  abbrev pub IsSorted : (A → A → Bool) → List A → Type 0
  IsSorted less [] = Unit
  IsSorted less (x ∷ xs) = All (λ y. less x y ≡ true) xs × IsSorted less xs

  -- A strict order, as a Boolean test.
  pub record StrictOrder (less : A → A → Bool) : Type ℓ where
    pub asymm : (x y : A) → less x y ≡ true → less y x ≡ false
    pub trans : (x y z : A) → less x y ≡ true → less y z ≡ true → less x z ≡ true

  -- Any two elements of the list, at different places, are ordered one way.
  abbrev pub Apart : (A → A → Bool) → A → A → Type 0
  Apart less x y = (less x y ≡ true) ⊎ (less y x ≡ true)

  abbrev pub Distinct : (A → A → Bool) → List A → Type 0
  Distinct less [] = Unit
  Distinct less (x ∷ xs) = All (Apart less x) xs × Distinct less xs

  pub insert_sorted-perm :
      (less : A → A → Bool) (x : A) (xs : List A) → Perm (insert_sorted less x xs) (x ∷ xs)
  unfolding insert_sorted
  insert_sorted-perm less x [] = Perm.rfl
  insert_sorted-perm less x (y ∷ ys) = elim (Bool-cases (less y x)) [
    | inl e ↦
        rw (e, insert_sorted)
          (Perm.trans (Perm.cons y (insert_sorted-perm less x ys)) (Perm.swap x y ys))
    | inr e ↦ rw (e, insert_sorted) Perm.rfl
  ]

  pub slice_stable-perm : (less : A → A → Bool) (xs : List A) → Perm (slice_stable less xs) xs
  unfolding slice_stable
  slice_stable-perm less [] = Perm.rfl
  slice_stable-perm less (x ∷ xs) =
      Perm.trans (insert_sorted-perm less x (slice_stable less xs))
        (Perm.cons x (slice_stable-perm less xs))

  pub All-insert_sorted {κ} :
      (P : A → Type κ) (less : A → A → Bool) (x : A) (xs : List A)
      → P x
      → All P xs
      → All P (insert_sorted less x xs)
  unfolding insert_sorted
  All-insert_sorted P less x [] p h = (p, tt)
  All-insert_sorted P less x (y ∷ ys) p h = ground (arith, All-insert_sorted P less x ys p h.1)

  pub All-slice_stable {κ} :
      (P : A → Type κ) (less : A → A → Bool) (xs : List A) → All P xs → All P (slice_stable less xs)
  unfolding slice_stable
  All-slice_stable P less [] h = tt
  All-slice_stable P less (x ∷ xs) h =
      All-insert_sorted P less x (slice_stable less xs) h.0 (All-slice_stable P less xs h.1)

  module _ (less : A → A → Bool) (o : StrictOrder less) where
    insert_sorted-IsSorted :
        (x : A) (xs : List A)
        → All (Apart less x) xs
        → IsSorted less xs
        → IsSorted less (insert_sorted less x xs)
    unfolding insert_sorted
    insert_sorted-IsSorted x [] a s = (tt, tt)
    insert_sorted-IsSorted x (y ∷ ys) a s = elim (Bool-cases (less y x)) [
      | inl e ↦
          rw (e, insert_sorted)
            (
              All-insert_sorted (λ z. less y z ≡ true) less x ys e s.0,
              insert_sorted-IsSorted x ys a.1 s.1,
            )
      | inr e ↦
          let first : less x y ≡ true = ground (arith, a.0) in
          rw (e, insert_sorted)
            (
              (
                first,
                All-imp (λ z. less y z ≡ true) (λ z. less x z ≡ true) (λ z h. o.trans x y z first h)
                    ys s.0,
              ),
              s,
            )
    ]

    -- A sort of elements that are pairwise ordered is strictly ascending.
    pub slice_stable-IsSorted :
        (xs : List A) → Distinct less xs → IsSorted less (slice_stable less xs)
    unfolding slice_stable
    slice_stable-IsSorted [] d = tt
    slice_stable-IsSorted (x ∷ xs) d =
        insert_sorted-IsSorted x (slice_stable less xs)
          (All-slice_stable (Apart less x) less xs d.0) (slice_stable-IsSorted xs d.1)

module _ {ℓ} {A : Type ℓ} (less : A → A → Bool) (o : StrictOrder less) where
  irrefl : (x : A) → less x x ≡ false
  irrefl x = elim (Bool-cases (less x x)) [ inl e ↦ o.asymm x x e | inr e ↦ e ]

  not-less_of_sorted :
      (xs : List A) (l : A) (ys : List A)
      → IsSorted less (xs ++ l ∷ ys)
      → keep_if (less l) (xs ++ l ∷ ys) ≡ ys
  not-less_of_sorted [] l ys s = ground (arith, irrefl l, keep_if-All (less l) ys s.0)
  not-less_of_sorted (x ∷ xs) l ys s =
      let before : less x l ≡ true = All-middle (λ y. less x y ≡ true) xs l ys s.0 in
      ground (arith, o.asymm x l before, not-less_of_sorted xs l ys s.1)

  -- In an ascending list, the elements that an element is less than are those that follow it.
  pub keep_if-less :
      (all xs : List A) (l : A) (ys : List A)
      → IsSorted less all
      → all ≡ xs ++ l ∷ ys
      → keep_if (less l) all ≡ ys
  keep_if-less all xs l ys s e = rw e (not-less_of_sorted xs l ys (subst (IsSorted less) e s))
