-- ===== src/Postgres/View.antt =====
-- What a client can see of the URLs in storage/postgres.go: at each time, the live row under each code.
use goshorty.Prelude.{
  ◌≤◌, String, ◌≡◌, refl, ap, sym, ◌∙◌, subst, Bool, true, false, not, ◌&&◌, ◌⊎◌, inl, inr, Option,
  none, some, List, [], ◌∷◌, Result, ok, err, arith, str_eq, str_eq_iff, str_eq_refl, if◌then◌else◌,
  is_some, All, Option-cases, Bool-cases, leb,
}
use goshorty.Prelude.Int.{ℤ, ltb_ℤ, leb_ℤ}
use goshorty.Models.{UrlData}
use goshorty.Storage.{StorageError, key_exists, storage_failed}
use goshorty.Postgres.{
  Tables, Fate, answered, answer_lost, not_run, PgError, map_postgres_error, first_where,
  update_where, has_row,
}
use goshorty.Postgres.Unique.{UniqueBy}
use goshorty.Postgres.Urls.{
  has_code, is_live, storage_error, url_violation, url_row, run_set, set_if_absent, bigint_bound,
}

-- The row that `code` stands for at time `t`.
abbrev pub view : ℤ → Tables → String → Option UrlData
view t tables code = first_where (is_live t code) tables.urls

abbrev pub Others : String → List UrlData → Type 0
Others code = All (λ q. has_code code q ≡ false)

-- The constraint `UNIQUE (short_code)`.
abbrev pub UniqueCodes : List UrlData → Type 0
UniqueCodes = UniqueBy (λ r. r.short_code)

abbrev pub while_live : ℤ → UrlData → Option UrlData
while_live t row = if ltb_ℤ t row.expires_at then some row else none

pub no_live :
    (t : ℤ) (code : String) (rows : List UrlData)
    → Others code rows
    → first_where (is_live t code) rows ≡ none
unfolding first_where
no_live t code [] h = refl
no_live t code (r ∷ rs) h = ground (arith, h.0, no_live t code rs h.1)

pub missing-Others :
    (code : String) (rows : List UrlData)
    → first_where (has_code code) rows ≡ none
    → Others code rows
unfolding first_where
missing-Others code [] h = tt
missing-Others code (r ∷ rs) h = ground (arith, missing-Others code rs)

-- The one row of a code is live or not.
live_row :
    (t : ℤ) (code : String) (rows : List UrlData) (old : UrlData)
    → UniqueCodes rows
    → first_where (has_code code) rows ≡ some old
    → first_where (is_live t code) rows ≡ while_live t old
unfolding first_where
live_row t code [] old u h = absurd (ground arith)
live_row t code (r ∷ rs) old u h = elim (Bool-cases (has_code code r)) [
  | inr miss ↦ ground (arith, live_row t code rs old u.1)
  | inl hit ↦
      let same = (str_eq_iff r.short_code code).0 hit in
      let others : Others code rs = subst (λ c. Others c rs) same u.0 in
      ground (arith, no_live t code rs others)
]

-- The update of `SetIfAbsent`, seen under its code and under another.
replaced_dead :
    (t : ℤ) (code : String) (row : UrlData) (rows : List UrlData)
    → has_code code row ≡ true
    → ltb_ℤ t row.expires_at ≡ false
    → first_where (is_live t code) (update_where (has_code code) (λ r. row) rows) ≡ none
unfolding first_where update_where
replaced_dead t code row [] c d = refl
replaced_dead t code row (r ∷ rs) c d = ground (arith, replaced_dead t code row rs c d)

replaced_here :
    (t : ℤ) (code : String) (row old : UrlData) (rows : List UrlData)
    → has_code code row ≡ true
    → first_where (has_code code) rows ≡ some old
    → first_where (is_live t code) (update_where (has_code code) (λ r. row) rows) ≡ while_live t row
unfolding first_where update_where
replaced_here t code row old [] c h = absurd (ground arith)
replaced_here t code row old (r ∷ rs) c h =
    ground (arith, replaced_here t code row old rs c, replaced_dead t code row rs c)

replaced_elsewhere :
    (t : ℤ) (code j : String) (row : UrlData) (rows : List UrlData)
    → has_code code row ≡ true
    → str_eq code j ≡ false
    → first_where (is_live t j) (update_where (has_code code) (λ r. row) rows)
      ≡ first_where (is_live t j) rows
unfolding first_where update_where
replaced_elsewhere t code j row [] c n = refl
replaced_elsewhere t code j row (r ∷ rs) c n = ground (
  arith,
  replaced_elsewhere t code j row rs c n,
  str_eq_iff row.short_code code,
  str_eq_iff r.short_code code,
)

-- `SetIfAbsent` answers that a code is taken exactly while a live row stands under it. It has changed
-- the tables only if the code was free; it then stands for the new row until that expires, under the
-- rounded times, and no other code changes.
pub record IsFiledRow (stamp : ℤ → ℤ) (now : ℤ) (code : String) (u : UrlData)
    (tables after : Tables) : Type 0 where
  pub was_free : view now tables code ≡ none
  pub stands :
      (t : ℤ) (j : String)
      → view t after j
        ≡ (if str_eq code j then while_live t (url_row stamp code u) else view t tables j)

-- The constraints that the row of `u` can break: the range of the count, the primary key, and the
-- creator.
abbrev pub Refuses : UrlData → Tables → Type 0
Refuses u tables =
    (bigint_bound ≤ u.visits)
    ⊎ (has_row (λ r. str_eq r.id u.id) tables.urls ≡ true)
    ⊎ (has_row (λ v. str_eq v.id u.created_by) tables.users ≡ false)

-- The outcome of the statement where it is carried out and answered.
abbrev pub RunSetOutcome :
    (ℤ → ℤ) → ℤ → String → UrlData → Tables → Result StorageError (Unit {0}) × Tables → Type 0
RunSetOutcome stamp now code u tables (answer, after) =
    ((answer ≡ ok tt) × IsFiledRow stamp now code u tables after)
    ⊎ ((answer ≡ err (key_exists code))
        × (is_some (view now tables code) ≡ true)
        × (after ≡ tables))
    ⊎ ((answer ≡ err storage_failed) × Refuses u tables × (after ≡ tables))

abbrev pub SetOutcome :
    (ℤ → ℤ) → ℤ → String → UrlData → Tables → Result StorageError (Unit {0}) × Tables → Type 0
SetOutcome stamp now code u tables (answer, after) =
    ((answer ≡ ok tt) × IsFiledRow stamp now code u tables after)
    ⊎ ((answer ≡ err (key_exists code))
        × (is_some (view now tables code) ≡ true)
        × (after ≡ tables))
    ⊎ ((answer ≡ err storage_failed)
        × ((after ≡ tables) ⊎ IsFiledRow stamp now code u tables after))

module _ (stamp : ℤ → ℤ) (now : ℤ) (code : String) (u : UrlData) (tables : Tables) where
  abbrev row : UrlData
  row = url_row stamp code u

  own_code : has_code code row ≡ true
  own_code = str_eq_refl code

  inserted-IsFiledRow :
      first_where (has_code code) tables.urls ≡ none
      → IsFiledRow stamp now code u tables (record tables { urls = row ∷ tables.urls })
  unfolding first_where
  inserted-IsFiledRow h =
      let others = missing-Others code tables.urls h in
      record {
        was_free = no_live now code tables.urls others;
        stands = λ t j. ground (
          arith,
          no_live t code tables.urls others,
          str_eq_iff code j,
          ap (λ c. first_where (is_live t c) tables.urls),
        );
      }

  updated-IsFiledRow :
      (old : UrlData)
      → UniqueCodes tables.urls
      → first_where (has_code code) tables.urls ≡ some old
      → leb_ℤ old.expires_at now ≡ true
      → IsFiledRow stamp now code u tables
          (record tables { urls = update_where (has_code code) (λ r. row) tables.urls })
  updated-IsFiledRow old unique h expired = record {
    was_free = ground (arith, live_row now code tables.urls old unique h);
    stands = λ t j. elim (Bool-cases (str_eq code j)) [
      | inr other ↦ ground (arith, replaced_elsewhere t code j row tables.urls own_code other)
      | inl same ↦
          let e = (str_eq_iff code j).0 same in
          let here = replaced_here t code row old tables.urls own_code h in
          rw same (
            ap
              (λ c. first_where (is_live t c) (update_where (has_code code) (λ r. row) tables.urls))
              (sym e)
            ∙ here)
    ];
  }

  -- None of the constraints is the one that `mapPostgresError` takes for a taken code.
  abbrev Fails : PgError → Type 0
  Fails e = storage_error code (map_postgres_error (some e)) ≡ storage_failed

  found-Fails : (c e : PgError) → some c ≡ some e → Fails c → Fails e
  found-Fails c e h f = let same : c ≡ e = ground arith in subst Fails same f

  violation-Fails :
      (replaced : UrlData → Bool) (e : PgError)
      → url_violation replaced row tables ≡ some e
      → Fails e
  unfolding url_violation map_postgres_error
  violation-Fails replaced e h =
      elim (Bool-cases (has_row (λ r. str_eq r.id row.id && not (replaced r)) tables.urls)) [
        | inl a ↦ found-Fails _ e (rw a at h) refl
        | inr a ↦ elim (Bool-cases (not (has_row (λ u. str_eq u.id row.created_by) tables.users))) [
          | inl c ↦ found-Fails _ e (rw (a, c) at h) refl
          | inr c ↦ absurd (ground (arith, a, c))
        ]
      ]

  has_row-imp :
      (p q : UrlData → Bool) (rows : List UrlData)
      → ((r : UrlData) → p r ≡ true → q r ≡ true)
      → has_row p rows ≡ true
      → has_row q rows ≡ true
  unfolding first_where
  has_row-imp p q [] f h = h
  has_row-imp p q (r ∷ rs) f h = ground (arith, f r, has_row-imp p q rs f)

  violation-Refuses :
      (replaced : UrlData → Bool) (e : PgError)
      → url_violation replaced row tables ≡ some e
      → Refuses u tables
  unfolding url_violation
  violation-Refuses replaced e h =
      let id_taken : UrlData → Bool = λ r. str_eq r.id row.id && not (replaced r) in
      elim (Bool-cases (has_row id_taken tables.urls)) [
        | inl a ↦ inr (
            inl (
              has_row-imp id_taken (λ r. str_eq r.id u.id) tables.urls
                (λ r both. ground (arith, both)) a))
        | inr a ↦ elim (Bool-cases (has_row (λ v. str_eq v.id row.created_by) tables.users)) [
          | inl c ↦ absurd (ground (arith, a, c))
          | inr c ↦ inr (inr c)
        ]
      ]

  pub run_set-Outcome :
      UniqueCodes tables.urls
      → RunSetOutcome stamp now code u tables (run_set stamp now code u tables)
  unfolding run_set map_postgres_error
  run_set-Outcome unique = elim (Bool-cases (leb bigint_bound row.visits)) [
    | inl big ↦ rw (run_set, big) (inr (inr (refl, inl (ground (arith, big)), refl)))
    | inr small ↦ elim (Option-cases (first_where (has_code code) tables.urls)) [
      | inl h ↦ elim (Option-cases (url_violation (λ r. false) row tables)) [
        | inr (e, bad) ↦
            rw (run_set, small, h, bad)
              (inr (
                inr (
                  ap err (violation-Fails (λ r. false) e bad),
                  violation-Refuses (λ r. false) e bad,
                  refl,
                )))
        | inl fine ↦ rw (run_set, small, h, fine) (inl (refl, inserted-IsFiledRow h))
      ]
      | inr (old, h) ↦ elim (Bool-cases (leb_ℤ old.expires_at now)) [
        | inr alive ↦
            let seen : is_some (view now tables code) ≡ true =
              ground (arith, live_row now code tables.urls old unique h) in
            rw (run_set, small, h, alive) (inr (inl (refl, seen, refl)))
        | inl expired ↦ elim (Option-cases (url_violation (has_code code) row tables)) [
          | inr (e, bad) ↦
              rw (run_set, small, h, expired, bad)
                (inr (
                  inr (
                    ap err (violation-Fails (has_code code) e bad),
                    violation-Refuses (has_code code) e bad,
                    refl,
                  )))
          | inl fine ↦
              rw (run_set, small, h, expired, fine)
                (inl (refl, updated-IsFiledRow old unique h expired))
        ]
      ]
    ]
  ]

  pub lost-Outcome :
      (r : Result StorageError (Unit {0}) × Tables)
      → RunSetOutcome stamp now code u tables r
      → (r.1 ≡ tables) ⊎ IsFiledRow stamp now code u tables r.1
  lost-Outcome r (inl (answer, set)) = inr set
  lost-Outcome r (inr (inl (answer, taken, same))) = inl same
  lost-Outcome r (inr (inr (answer, why, same))) = inl same

  -- Whatever becomes of the call, `SetIfAbsent` answers success only if it has put the row, with its
  -- rounded times, under a code that had no live row, with no other code changed; it answers that the
  -- code is taken only while a live row stands under it, and then changes nothing; and where it answers
  -- another error, it has done one or the other.
  pub set_if_absent-Outcome :
      (fate : Fate)
      → UniqueCodes tables.urls
      → SetOutcome stamp now code u tables (set_if_absent stamp fate now code u tables)
  unfolding set_if_absent
  set_if_absent-Outcome answered unique = elim (run_set-Outcome unique) [
    | inl done ↦ inl done
    | inr (inl taken) ↦ inr (inl taken)
    | inr (inr (answer, why, same)) ↦ inr (inr (answer, inl same))
  ]
  set_if_absent-Outcome answer_lost unique =
      inr (inr (refl, lost-Outcome (run_set stamp now code u tables) (run_set-Outcome unique)))
  set_if_absent-Outcome not_run unique = inr (inr (refl, inl refl))
