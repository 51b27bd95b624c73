-- ===== src/Postgres/Cleanup.antt =====
-- `RunCleanup` of storage/postgres.go is not seen by a client.
use goshorty.Prelude.{
  ℕ, zero, suc, String, ◌≡◌, refl, ◌∙◌, Bool, true, false, List, [], ◌∷◌, arith, str_eq, str_eq_iff,
  All, All-imp, take, keep_if,
}
use goshorty.Prelude.Int.{ℤ, ltb_ℤ, ◌≤ℤ◌}
use goshorty.Go.Sort.{slice_stable, All-slice_stable}
use goshorty.Models.{UrlData}
use goshorty.Storage.{Signal, stop, tick}
use goshorty.Postgres.{
  Tables, Fate, answered, answer_lost, not_run, first_where, delete_where, has_row,
}
use goshorty.Postgres.Unique.{UniqueBy, All-kept, delete-UniqueBy}
use goshorty.Postgres.Urls.{is_live, id_in, has_expired, batch, delete_expired_urls, run_cleanup}
use goshorty.Postgres.View.{view}

-- The primary key.
abbrev pub UniqueIds : List UrlData → Type 0
UniqueIds = UniqueBy (λ r. r.id)

module _ {ℓ} {A : Type ℓ} where
  All-take : (P : A → Type 0) (n : ℕ) (xs : List A) → All P xs → All P (take n xs)
  All-take P zero xs h = tt
  All-take P (suc n) [] h = tt
  All-take P (suc n) (x ∷ xs) h = (h.0, All-take P n xs h.1)

  no_row : (p : A → Bool) (xs : List A) → All (λ x. p x ≡ false) xs → has_row p xs ≡ false
  unfolding first_where
  no_row p [] h = refl
  no_row p (x ∷ xs) h = ground (arith, h.0, no_row p xs h.1)

-- The rows of a batch have other IDs than a row that has not expired.
Spared : ℤ → List UrlData → UrlData → Type 0
Spared now rows r = All (λ q. has_expired now q ≡ true → str_eq q.id r.id ≡ false) rows

Spared-id_in :
    (now : ℤ) (limit : ℕ) (rows : List UrlData) (r : UrlData)
    → Spared now rows r
    → id_in (batch now limit rows) r ≡ false
unfolding Spared
Spared-id_in now limit rows r h =
    let P : UrlData → Type 0 = λ q. str_eq q.id r.id ≡ false in
    let less : UrlData → UrlData → Bool = λ a b. ltb_ℤ a.expires_at b.expires_at in
    let kept = All-kept P (has_expired now) rows h in
    let sorted = All-slice_stable P less (keep_if (has_expired now) rows) kept in
    no_row (λ q. str_eq q.id r.id) (batch now limit rows)
      (All-take P limit (slice_stable less (keep_if (has_expired now) rows)) sorted)

-- A batch deletes no row that is live later, so each code keeps its live row.
delete_expired-view :
    (now : ℤ) (limit : ℕ) (rows removed : List UrlData) (t : ℤ) (j : String)
    → All (λ r. is_live t j r ≡ true → id_in removed r ≡ false) rows
    → first_where (is_live t j) (delete_where (id_in removed) rows) ≡ first_where (is_live t j) rows
unfolding first_where
delete_expired-view now limit [] removed t j h = refl
delete_expired-view now limit (r ∷ rs) removed t j h =
    ground (arith, h.0, delete_expired-view now limit rs removed t j h.1)

-- What has not expired at `t` is spared at `now`, by the primary key.
live-Spared :
    (now t : ℤ) (rows : List UrlData)
    → UniqueIds rows
    → now ≤ℤ t
    → All (λ r. ltb_ℤ t r.expires_at ≡ true → Spared now rows r) rows
unfolding Spared
live-Spared now t [] u le = tt
live-Spared now t (r ∷ rs) u le = (
  λ alive. (λ gone. ground (arith, alive, gone), All-imp _ _ (λ q other gone. other) rs u.0),
  All-imp2 rs u.0 (live-Spared now t rs u.1 le),
)
  where
    All-imp2 :
        (qs : List UrlData)
        → All (λ q. str_eq q.id r.id ≡ false) qs
        → All (λ q. ltb_ℤ t q.expires_at ≡ true → Spared now rs q) qs
        → All (λ q. ltb_ℤ t q.expires_at ≡ true → Spared now (r ∷ rs) q) qs
    All-imp2 [] a b = tt
    All-imp2 (q ∷ qs) a b = (
      λ alive. (λ gone. ground (arith, a.0, str_eq_iff q.id r.id, str_eq_iff r.id q.id), b.0 alive),
      All-imp2 qs a.1 b.1,
    )

batch-view :
    (now : ℤ) (limit : ℕ) (tables : Tables) (t : ℤ) (j : String)
    → UniqueIds tables.urls
    → now ≤ℤ t
    → view t (delete_expired_urls now limit tables) j ≡ view t tables j
unfolding delete_expired_urls
batch-view now limit tables t j unique le =
    let rows = tables.urls in
    delete_expired-view now limit rows (batch now limit rows) t j (
      All-imp (λ r. ltb_ℤ t r.expires_at ≡ true → Spared now rows r)
        (λ r. is_live t j r ≡ true → id_in (batch now limit rows) r ≡ false)
        (λ r h alive. Spared-id_in now limit rows r (h (ground (arith, alive)))) rows
        (live-Spared now t rows unique le))

kept :
    (now : ℤ) (limit : ℕ) (tables : Tables)
    → UniqueIds tables.urls
    → UniqueIds (delete_expired_urls now limit tables).urls
unfolding delete_expired_urls
kept now limit tables u =
    delete-UniqueBy (λ r. r.id) (id_in (batch now limit tables.urls)) tables.urls u

-- The ticks come no later than `t`.
abbrev pub TicksBy : ℤ → List (Signal × Fate) → Type 0
TicksBy t [] = Unit
TicksBy t ((stop, fate) ∷ signals) = TicksBy t signals
TicksBy t ((tick now, fate) ∷ signals) = (now ≤ℤ t) × TicksBy t signals

-- Whatever ticks the cleanup has received by time `t`, of whatever batch size, and whatever has become of
-- its calls, each code stands for the row that it would stand for without it. (IDs are unique.)
pub run_cleanup-view :
    (batch_size : ℕ) (signals : List (Signal × Fate)) (t : ℤ) (tables : Tables) (j : String)
    → UniqueIds tables.urls
    → TicksBy t signals
    → view t (run_cleanup batch_size signals tables) j ≡ view t tables j
unfolding run_cleanup
run_cleanup-view batch_size [] t tables j u b = refl
run_cleanup-view batch_size ((stop, fate) ∷ signals) t tables j u b = refl
run_cleanup-view batch_size ((tick now, not_run) ∷ signals) t tables j u b =
    run_cleanup-view batch_size signals t tables j u b.1
run_cleanup-view batch_size ((tick now, answered) ∷ signals) t tables j u b =
    run_cleanup-view batch_size signals t (delete_expired_urls now batch_size tables) j
      (kept now batch_size tables u) b.1
    ∙ batch-view now batch_size tables t j u b.0
run_cleanup-view batch_size ((tick now, answer_lost) ∷ signals) t tables j u b =
    run_cleanup-view batch_size signals t (delete_expired_urls now batch_size tables) j
      (kept now batch_size tables u) b.1
    ∙ batch-view now batch_size tables t j u b.0
