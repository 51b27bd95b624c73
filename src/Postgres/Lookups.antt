-- ===== src/Postgres/Lookups.antt =====
-- The row with a key, before and after an update that keeps keys, in storage/postgres.go.
use goshorty.Prelude.{
  String, ◌≡◌, refl, Bool, true, false, Option, none, some, List, [], ◌∷◌, arith, str_eq,
  str_eq_iff, Bool-cases, inl, inr, if◌then◌else◌,
}
use goshorty.Postgres.{first_where, update_where, delete_where}
use goshorty.Postgres.Unique.{UniqueBy, Apart}

module _ {A : Type 0} where
  pub first_where-passes :
      (p : A → Bool) (rows : List A) (r : A) → first_where p rows ≡ some r → p r ≡ true
  unfolding first_where
  first_where-passes p [] r h = absurd (ground arith)
  first_where-passes p (q ∷ rows) r h = elim (Bool-cases (p q)) [
    | inl hit ↦ ground (arith, hit, h)
    | inr miss ↦ first_where-passes p rows r (ground (arith, miss, h))
  ]

  abbrev pub changed_row : (A → Bool) → (A → A) → Option A → Option A
  changed_row p f none = none
  changed_row p f (some r) = some (if p r then f r else r)

  -- A search that does not see the change.
  pub first_where-update_where :
      (q p : A → Bool) (f : A → A) (rows : List A)
      → ((r : A) → q (f r) ≡ q r)
      → first_where q (update_where p f rows) ≡ changed_row p f (first_where q rows)
  unfolding first_where update_where
  first_where-update_where q p f [] same = refl
  first_where-update_where q p f (r ∷ rows) same =
      ground (arith, same r, first_where-update_where q p f rows same)

module _ {A : Type 0} (key : A → String) where
  abbrev pub has_key : String → A → Bool
  has_key k r = str_eq (key r) k

  Apart-first_where :
      (p : A → Bool) (k : String) (rows : List A) (r : A)
      → Apart key k rows
      → first_where p rows ≡ some r
      → str_eq (key r) k ≡ false
  unfolding first_where
  Apart-first_where p k [] r h e = absurd (ground arith)
  Apart-first_where p k (q ∷ rows) r h e = elim (Bool-cases (p q)) [
    | inl hit ↦ ground (arith, hit, e, h.0)
    | inr miss ↦ Apart-first_where p k rows r h.1 (ground (arith, miss, e))
  ]

  -- A row that a search finds is the first with its key.
  pub first_where-has_key :
      (p : A → Bool) (rows : List A) (r : A)
      → UniqueBy key rows
      → first_where p rows ≡ some r
      → first_where (has_key (key r)) rows ≡ some r
  unfolding first_where
  first_where-has_key p [] r u h = absurd (ground arith)
  first_where-has_key p (q ∷ rows) r u h = elim (Bool-cases (p q)) [
    | inl hit ↦ ground (arith, hit, h, str_eq_iff (key r) (key r))
    | inr miss ↦
        let later : first_where p rows ≡ some r = ground (arith, miss, h) in
        let other = Apart-first_where p (key q) rows r u.0 later in
        ground (
          arith,
          other,
          str_eq_iff (key q) (key r),
          str_eq_iff (key r) (key q),
          first_where-has_key p rows r u.1 later,
        )
  ]

  -- A row that a search by key finds among those that are left is the one that it found before.
  pub first_where-kept :
      (k : String) (p : A → Bool) (rows : List A) (r : A)
      → UniqueBy key rows
      → first_where (has_key k) (delete_where p rows) ≡ some r
      → first_where (has_key k) rows ≡ some r
  unfolding first_where
  first_where-kept k p [] r u h = h
  first_where-kept k p (q ∷ rows) r u h = elim (Bool-cases (has_key k q)) [
    | inr miss ↦
        let later : first_where (has_key k) (delete_where p rows) ≡ some r =
          ground (arith, miss, h) in
        ground (arith, miss, first_where-kept k p rows r u.1 later)
    | inl hit ↦ elim (Bool-cases (p q)) [
      | inr stays ↦ ground (arith, hit, stays, h)
      | inl goes ↦
          let later : first_where (has_key k) (delete_where p rows) ≡ some r =
            ground (arith, goes, h) in
          let there = first_where-kept k p rows r u.1 later in
          let other = Apart-first_where (has_key k) (key q) rows r u.0 there in
          let bears = first_where-passes (has_key k) rows r there in
          absurd (
            ground (
              arith,
              other,
              bears,
              str_eq_iff (key r) k,
              str_eq_iff (key q) k,
              str_eq_iff (key r) (key q),
              hit,
            ))
    ]
  ]
