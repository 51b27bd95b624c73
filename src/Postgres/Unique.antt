-- ===== src/Postgres/Unique.antt =====
-- Rows of which no two have the same key, under the statements of storage/postgres.go.
use goshorty.Prelude.{
  String, ◌≡◌, refl, sym, subst, Bool, true, false, not, List, [], ◌∷◌, arith, str_eq, All,
  All-keep_if, Bool-cases, inl, inr, keep_if, Result,
}
use goshorty.Postgres.{
  Tables, Fate, answered, answer_lost, not_run, conclude, first_where, update_where, delete_where,
  has_row,
}

module _ {A : Type 0} where
  pub missing-All :
      (p : A → Bool) (rows : List A) → has_row p rows ≡ false → All (λ r. p r ≡ false) rows
  unfolding first_where
  missing-All p [] h = tt
  missing-All p (r ∷ rs) h = ground (arith, missing-All p rs)

  pub All-update_where {κ} :
      (P : A → Type κ) (p : A → Bool) (f : A → A) (rows : List A)
      → ((r : A) → P r → P (f r))
      → All P rows
      → All P (update_where p f rows)
  unfolding update_where
  All-update_where P p f [] k h = tt
  All-update_where P p f (r ∷ rs) k h =
      ground (arith, h.0, k r h.0, All-update_where P p f rs k h.1)

  pub no_update :
      (p : A → Bool) (f : A → A) (rows : List A)
      → All (λ r. p r ≡ false) rows
      → update_where p f rows ≡ rows
  unfolding update_where
  no_update p f [] h = refl
  no_update p f (r ∷ rs) h = ground (arith, h.0, no_update p f rs h.1)

  pub All-kept :
      (P : A → Type 0) (p : A → Bool) (rows : List A)
      → All (λ r. p r ≡ true → P r) rows
      → All P (keep_if p rows)
  All-kept P p [] h = tt
  All-kept P p (r ∷ rs) h = ground (arith, All-kept P p rs h.1, h.0)

-- A call leaves the tables as they were or as its statement leaves them.
pub conclude_lem {ℓ κ} :
    (P : Tables → Type 0) {E : Type ℓ} {A : Type κ} (fate : Fate) (e : E) (tables : Tables)
    (r : Result E A × Tables)
    → P tables
    → P r.1
    → P (conclude fate e tables r).1
conclude_lem P answered e tables r v w = w
conclude_lem P answer_lost e tables r v w = w
conclude_lem P not_run e tables r v w = v

module _ {A : Type 0} (key : A → String) where
  -- The rows have other keys than `k`.
  abbrev pub Apart : String → List A → Type 0
  Apart k = All (λ q. str_eq (key q) k ≡ false)

  abbrev pub UniqueBy : List A → Type 0
  UniqueBy [] = Unit
  UniqueBy (r ∷ rs) = Apart (key r) rs × UniqueBy rs

  pub delete-UniqueBy :
      (p : A → Bool) (rows : List A) → UniqueBy rows → UniqueBy (delete_where p rows)
  delete-UniqueBy p [] h = tt
  delete-UniqueBy p (r ∷ rs) h =
      let others = All-keep_if (λ q. str_eq (key q) (key r) ≡ false) (λ q. not (p q)) rs h.0 in
      ground (arith, delete-UniqueBy p rs h.1, others)

  -- An update that keeps the key of each row that it changes.
  module _ (p : A → Bool) (f : A → A) (same_key : (r : A) → p r ≡ true → key (f r) ≡ key r) where
    update-Apart : (k : String) (rows : List A) → Apart k rows → Apart k (update_where p f rows)
    unfolding update_where
    update-Apart k [] h = tt
    update-Apart k (r ∷ rs) h = ground (arith, h.0, update-Apart k rs h.1, same_key r)

    pub update-UniqueBy : (rows : List A) → UniqueBy rows → UniqueBy (update_where p f rows)
    unfolding update_where
    update-UniqueBy [] h = tt
    update-UniqueBy (r ∷ rs) h =
        let rest = update-UniqueBy rs h.1 in
        let others = update-Apart (key r) rs h.0 in
        elim (Bool-cases (p r)) [
          | inr miss ↦ rw (update_where, miss) (others, rest)
          | inl hit ↦
              rw (update_where, hit)
                (subst (λ k. Apart k (update_where p f rs)) (sym (same_key r hit)) others, rest)
        ]
