-- ===== src/Go/Map.antt =====
-- A Go `map[string]V`: an association list in the order in which one `range` loop would visit it.
-- Go fixes no such order; the theorems on lists of entries hold for each.
use goshorty.Prelude.{
  String, refl, Bool, false, not, Option, none, some, List, [], ◌∷◌, arith, str_eq, str_eq_iff,
  if◌then◌else◌, All, keep_if, Bool-cases, inl, inr, ◌≡◌, subst,
}

abbrev pub Map {ℓ} : Type ℓ → Type ℓ
Map V = List (String × V)

-- What a lookup finds after a loop that drops entries: the entry, unless the loop dropped it.
abbrev pub unless {ℓ} : {A : Type ℓ} → (A → Bool) → Option A → Option A
unless drop none = none
unless drop (some v) = if drop v then none else some v

module _ {ℓ} {V : Type ℓ} where
  -- `v, ok := m[k]`
  unfoldable pub lookup : String → Map V → Option V
  lookup k [] = none
  lookup k ((j, v) ∷ m) = if str_eq j k then some v else lookup k m

  -- `delete(m, k)`
  unfoldable pub delete : String → Map V → Map V
  delete k [] = []
  delete k ((j, v) ∷ m) = let rest = delete k m in if str_eq j k then rest else (j, v) ∷ rest

  -- `m[k] = v`
  unfoldable pub insert : String → V → Map V → Map V
  insert k v m = (k, v) ∷ delete k m

  -- `for k, v := range m { if drop(v) { delete(m, k) } }`
  unfoldable pub delete_if : (V → Bool) → Map V → Map V
  delete_if drop = keep_if (λ (_, v). not (drop v))

  abbrev pub Absent : String → Map V → Type 0
  Absent k = All (λ (j, _). str_eq j k ≡ false)

  -- A key stands once.
  abbrev pub Unique : Map V → Type 0
  Unique [] = Unit
  Unique ((k, _) ∷ m) = Absent k m × Unique m

  pub lookup-delete :
      (k j : String) (m : Map V) → lookup j (delete k m) ≡ (if str_eq k j then none else lookup j m)
  unfolding lookup delete
  lookup-delete k j [] = ground arith
  lookup-delete k j ((i, v) ∷ m) =
      ground (arith, lookup-delete k j m, str_eq_iff i k, str_eq_iff i j, str_eq_iff k j)

  pub lookup-insert :
      (k j : String) (v : V) (m : Map V)
      → lookup j (insert k v m) ≡ (if str_eq k j then some v else lookup j m)
  unfolding insert lookup
  lookup-insert k j v m = ground (arith, lookup-delete k j m)

  pub lookup-Absent : (k : String) (m : Map V) → Absent k m → lookup k m ≡ none
  unfolding lookup
  lookup-Absent k [] h = refl
  lookup-Absent k ((j, v) ∷ m) h = ground (arith, lookup-Absent k m h.1)

  Absent-delete : (k j : String) (m : Map V) → Absent j m → Absent j (delete k m)
  unfolding delete
  Absent-delete k j [] h = tt
  Absent-delete k j ((i, v) ∷ m) h = ground (arith, Absent-delete k j m h.1)

  pub Absent-delete_self : (k : String) (m : Map V) → Absent k (delete k m)
  unfolding delete
  Absent-delete_self k [] = tt
  Absent-delete_self k ((i, v) ∷ m) = ground (arith, Absent-delete_self k m)

  pub delete-Unique : (k : String) (m : Map V) → Unique m → Unique (delete k m)
  unfolding delete
  delete-Unique k [] u = tt
  delete-Unique k ((i, v) ∷ m) u = ground (arith, delete-Unique k m u.1, Absent-delete k i m u.0)

  pub insert-Unique : (k : String) (v : V) (m : Map V) → Unique m → Unique (insert k v m)
  unfolding insert
  insert-Unique k v m u = (Absent-delete_self k m, delete-Unique k m u)

  Absent-delete_if :
      (drop : V → Bool) (k : String) (m : Map V) → Absent k m → Absent k (delete_if drop m)
  unfolding delete_if
  Absent-delete_if drop k [] h = tt
  Absent-delete_if drop k ((i, v) ∷ m) h = ground (arith, Absent-delete_if drop k m h.1)

  pub delete_if-Unique : (drop : V → Bool) (m : Map V) → Unique m → Unique (delete_if drop m)
  unfolding delete_if
  delete_if-Unique drop [] u = tt
  delete_if-Unique drop ((i, v) ∷ m) u =
      ground (arith, delete_if-Unique drop m u.1, Absent-delete_if drop i m u.0)

  pub lookup-delete_if :
      (drop : V → Bool) (k : String) (m : Map V)
      → Unique m
      → lookup k (delete_if drop m) ≡ unless drop (lookup k m)
  unfolding lookup delete_if
  lookup-delete_if drop k [] u = refl
  lookup-delete_if drop k ((i, v) ∷ m) u = ground (
    arith,
    lookup-delete_if drop k m u.1,
    lookup-Absent i m u.0,
    lookup-Absent i (delete_if drop m) (Absent-delete_if drop i m u.0),
    str_eq_iff i k,
  )

module _ {ℓ κ} {V : Type ℓ} (P : String × V → Type κ) where
  pub All-delete : (k : String) (m : Map V) → All P m → All P (delete k m)
  unfolding delete
  All-delete k [] h = tt
  All-delete k ((i, v) ∷ m) h = ground (arith, All-delete k m h.1)

  -- What holds of every entry holds of the one that a lookup finds.
  pub lookup-All : (k : String) (m : Map V) {v : V} → All P m → lookup k m ≡ some v → P (k, v)
  unfolding lookup
  lookup-All k [] h e = cc
  lookup-All k ((i, w) ∷ m) {v} h e = elim (Bool-cases (str_eq i k)) [
    | inr miss ↦ lookup-All k m h.1 (ground arith)
    | inl hit ↦
        let same_key : i ≡ k = (str_eq_iff i k).0 hit in
        let same_value : w ≡ v = ground arith in subst P (λ n. (same_key n, same_value n)) h.0
  ]

pub ruleset map_laws = (lookup-delete, lookup-insert)
