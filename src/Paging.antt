-- ===== src/Paging.antt =====
-- The page arithmetic that storage/storage.go and storage/user.go share (`URLListResult`,
-- `UserListResult`, and the slice `visible[start:end]`).
pub mod Walk
use goshorty.Prelude.{
  ℕ, zero, suc, ◌+◌, ◌-◌, ◌≤◌, ◌≡◌, refl, ap, Bool, false, List, [], ◌∷◌, arith, leb, ltb, min,
  length, take, drop, length-drop, if◌then◌else◌, Bool-cases, inl, inr,
}

pub record ListResult (A : Type 0) : Type 0 where
  pub items : List A
  pub total : ℕ
  pub has_more : Bool

module _ {A : Type 0} where
  -- From `total := len(all)` on, once `start` is known.
  unfoldable pub slice_from : ℕ → List A → ℕ → ListResult A
  slice_from start all limit =
      let total = length all in
      let end = min (start + limit) total in
      if leb total start then record { items = []; total = total; has_more = false } else record {
        items = take (end - start) (drop start all);
        total = total;
        has_more = ltb end total;
      }

  -- A page: the first `limit` elements of `rest`, and whether there are more.
  abbrev pub page_of : ℕ → ℕ → List A → ListResult A
  page_of total limit rest = record {
    items = take limit rest;
    total = total;
    has_more = ltb limit (length rest);
  }

  take-min : (limit : ℕ) (xs : List A) → take (min limit (length xs)) xs ≡ take limit xs
  take-min zero xs = rw (zero_min (length xs))
    where
      zero_min : (n : ℕ) → min 0 n ≡ 0
      zero_min n = omega arith
  take-min (suc limit) [] = rw (min_zero (suc limit))
    where
      min_zero : (n : ℕ) → min n 0 ≡ 0
      min_zero n = omega arith
  take-min (suc limit) (x ∷ xs) = rw (min_suc limit (length xs)) (ap (◌∷◌ x) (take-min limit xs))
    where
      min_suc : (m n : ℕ) → min (suc m) (suc n) ≡ suc (min m n)
      min_suc m n = omega arith

  drop_all : (n : ℕ) (xs : List A) → length xs ≤ n → drop n xs ≡ []
  drop_all zero [] h = refl
  drop_all zero (x ∷ xs) h = absurd (omega arith)
  drop_all (suc n) [] h = refl
  drop_all (suc n) (x ∷ xs) h = drop_all n xs (omega arith)

  take_nil : (n : ℕ) → take {A = A} n [] ≡ []
  take_nil zero = refl
  take_nil (suc n) = refl

  -- The slice is the page of what is left from `start` on.
  pub slice_from-page_of :
      (start : ℕ) (all : List A) (limit : ℕ)
      → slice_from start all limit ≡ page_of (length all) limit (drop start all)
  unfolding slice_from
  slice_from-page_of start all limit = elim (Bool-cases (leb (length all) start)) [
    | inl past ↦ rw (past, drop_all start all (ground arith), take_nil limit) (ground arith)
    | inr inside ↦
        let width : min (start + limit) (length all) - start ≡ min limit (length (drop start all)) =
          ground (arith, length-drop start all) in
        rw (inside, width, take-min limit (drop start all)) (ground (arith, length-drop start all))
  ]
