-- ===== src/Postgres/Visits.antt =====
-- `GetAndIncrement` of storage/postgres.go, as a client sees it.
use goshorty.Prelude.{
  suc, ◌≤◌, ◌<◌, String, ◌≡◌, refl, ap, subst, true, ◌&&◌, ◌⊎◌, inl, inr, Option, none, some, List,
  [], ◌∷◌, Result, ok, err, arith, str_eq, str_eq_iff, if◌then◌else◌, is_some, Option-cases,
  Bool-cases, leb,
}
use goshorty.Prelude.Int.{ℤ}
use goshorty.Models.{UrlData}
use goshorty.Storage.{StorageError, key_not_found, storage_failed}
use goshorty.Postgres.{Tables, Fate, answered, answer_lost, not_run, first_where, update_where}
use goshorty.Postgres.Urls.{
  has_code, is_live, run_increment, get_and_increment, one_visit, bigint_bound,
}
use goshorty.Postgres.View.{view, Others, UniqueCodes, no_live}

abbrev pub visited : Option UrlData → Option UrlData
visited none = none
visited (some row) = some (one_visit row)

no_update :
    (now : ℤ) (code : String) (rows : List UrlData)
    → Others code rows
    → update_where (is_live now code) one_visit rows ≡ rows
unfolding update_where
no_update now code [] h = refl
no_update now code (r ∷ rs) h = ground (arith, h.0, no_update now code rs h.1)

-- The one row of the code has one visit more, where it is live.
update_where-visited :
    (now : ℤ) (code : String) (rows : List UrlData) (t : ℤ) (j : String)
    → UniqueCodes rows
    → first_where (is_live t j) (update_where (is_live now code) one_visit rows) ≡ (
        if is_some (first_where (is_live now code) rows) && str_eq code j
        then visited (first_where (is_live t j) rows)
        else first_where (is_live t j) rows)
unfolding first_where update_where
update_where-visited now code [] t j u = ground arith
update_where-visited now code (r ∷ rs) t j u = elim (Bool-cases (has_code code r)) [
  | inr miss ↦ ground (
    arith,
    update_where-visited now code rs t j u.1,
    miss,
    str_eq_iff code j,
    ap (λ c. has_code c r),
  )
  | inl hit ↦
      let same = (str_eq_iff r.short_code code).0 hit in
      let others : Others code rs = subst (λ c. Others c rs) same u.0 in
      let elsewhere : str_eq code j ≡ true → first_where (is_live t j) rs ≡ none =
        λ e. no_live t j rs (subst (λ c. Others c rs) ((str_eq_iff code j).0 e) others) in
      ground (arith, hit, same, no_update now code rs others, no_live now code rs others, elsewhere)
]

-- The live row of the code has been answered with one visit more and has it now; no other code changes.
pub record IsCounted (now : ℤ) (code : String) (tables after : Tables) (old : UrlData)
    : Type 0 where
  pub found : view now tables code ≡ some old
  pub in_range : suc old.visits < bigint_bound
  pub stands :
      (t : ℤ) (j : String)
      → view t after j ≡ (if str_eq code j then visited (view t tables j) else view t tables j)

abbrev pub VisitOutcome : ℤ → String → Tables → Result StorageError UrlData × Tables → Type 0
VisitOutcome now code tables (answer, after) =
    ((old : UrlData) × (answer ≡ ok (one_visit old)) × IsCounted now code tables after old)
    ⊎ ((answer ≡ err key_not_found) × (view now tables code ≡ none) × (after ≡ tables))
    ⊎ ((answer ≡ err storage_failed)
        × ((after ≡ tables) ⊎ ((old : UrlData) × IsCounted now code tables after old)))

-- The outcome of the statement where it is carried out and answered: a count out of range fails.
abbrev pub RunVisitOutcome : ℤ → String → Tables → Result StorageError UrlData × Tables → Type 0
RunVisitOutcome now code tables (answer, after) =
    ((old : UrlData) × (answer ≡ ok (one_visit old)) × IsCounted now code tables after old)
    ⊎ ((answer ≡ err key_not_found) × (view now tables code ≡ none) × (after ≡ tables))
    ⊎ ((answer ≡ err storage_failed)
        × ((old : UrlData) × (view now tables code ≡ some old)
            × (bigint_bound ≤ suc old.visits)
            × (after ≡ tables)))

module _ (now : ℤ) (code : String) (tables : Tables) (unique : UniqueCodes tables.urls) where
  pub run_increment-Outcome : RunVisitOutcome now code tables (run_increment now code tables)
  unfolding run_increment
  run_increment-Outcome = elim (Option-cases (view now tables code)) [
    | inl h ↦ rw (run_increment, h) (inr (inl (refl, refl, refl)))
    | inr (old, h) ↦ elim (Bool-cases (leb bigint_bound (suc old.visits))) [
      | inl full ↦
          rw (run_increment, h, full) (inr (inr (refl, (old, refl, ground (arith, full), refl))))
      | inr fits ↦
          rw (run_increment, h, fits)
            (inl (
              old,
              refl,
              record {
                found = h;
                in_range = ground arith;
                stands =
                    λ t j. ground (arith, h, update_where-visited now code tables.urls t j unique);
              },
            ))
    ]
  ]

  pub lost_visit :
      (r : Result StorageError UrlData × Tables)
      → RunVisitOutcome now code tables r
      → (r.1 ≡ tables) ⊎ ((old : UrlData) × IsCounted now code tables r.1 old)
  lost_visit r (inl (old, answer, counted)) = inr (old, counted)
  lost_visit r (inr (inl (answer, missing, same))) = inl same
  lost_visit r (inr (inr (answer, (old, found, full, same)))) = inl same

  -- Whatever becomes of the call, `GetAndIncrement` counts at most one visit, on the live row of its code
  -- and on no other: one where it answers that row, none where it answers that there is no such row, and
  -- none or one where it answers another error. A count never leaves the range of an int64.
  pub get_and_increment-Outcome :
      (fate : Fate) → VisitOutcome now code tables (get_and_increment fate now code tables)
  unfolding get_and_increment
  get_and_increment-Outcome answered = elim run_increment-Outcome [
    | inl done ↦ inl done
    | inr (inl missing) ↦ inr (inl missing)
    | inr (inr (answer, (old, found, full, same))) ↦ inr (inr (answer, inl same))
  ]
  get_and_increment-Outcome answer_lost =
      inr (inr (refl, lost_visit (run_increment now code tables) run_increment-Outcome))
  get_and_increment-Outcome not_run = inr (inr (refl, inl refl))
