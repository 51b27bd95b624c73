-- ===== src/Postgres/Clearing.antt =====
-- `RunCleanup` of storage/postgres.go comes to an end with the expired rows.
use goshorty.Prelude.{
  ℕ, zero, suc, ◌+◌, ◌*◌, ◌≤◌, ◌≡◌, refl, Bool, true, false, ◌&&◌, ◌||◌, List, [], ◌∷◌, arith,
  str_eq_refl, All, All-imp, Bool-cases, inl, inr, length, keep_if, take,
}
use goshorty.Prelude.Int.{ℤ, ltb_ℤ, ◌≤ℤ◌}
use goshorty.Go.Sort.{insert_sorted, slice_stable}
use goshorty.Models.{UrlData}
use goshorty.Storage.{Signal, stop, tick}
use goshorty.Postgres.{
  Tables, Fate, answered, answer_lost, not_run, first_where, delete_where, has_row,
}
use goshorty.Postgres.Urls.{id_in, has_expired, batch, delete_expired_urls, run_cleanup}

abbrev pub expired_rows : ℤ → Tables → List UrlData
expired_rows now tables = keep_if (has_expired now) tables.urls

-- The ticks come at `now` or later.
abbrev pub TicksFrom : ℤ → List (Signal × Fate) → Type 0
TicksFrom now [] = Unit
TicksFrom now ((stop, fate) ∷ signals) = TicksFrom now signals
TicksFrom now ((tick at_tick, fate) ∷ signals) = (now ≤ℤ at_tick) × TicksFrom now signals

-- How many of the calls the database carries out before the loop is told to stop.
abbrev pub carried_out : List (Signal × Fate) → ℕ
carried_out [] = 0
carried_out ((stop, fate) ∷ signals) = 0
carried_out ((tick now, not_run) ∷ signals) = carried_out signals
carried_out ((tick now, answered) ∷ signals) = suc (carried_out signals)
carried_out ((tick now, answer_lost) ∷ signals) = suc (carried_out signals)

abbrev by_expiry : UrlData → UrlData → Bool
by_expiry a b = ltb_ℤ a.expires_at b.expires_at

abbrev count : (UrlData → Bool) → List UrlData → ℕ
count p rows = length (keep_if p rows)

-- The rows that had expired by `now` come first.
abbrev ExpiredFirst : ℤ → List UrlData → Type 0
ExpiredFirst now [] = Unit
ExpiredFirst now (r ∷ rs) =
    (has_row (has_expired now) rs ≡ true → has_expired now r ≡ true) × ExpiredFirst now rs

has_row-insert_sorted :
    (p : UrlData → Bool) (x : UrlData) (rows : List UrlData)
    → has_row p (insert_sorted by_expiry x rows) ≡ (p x || has_row p rows)
unfolding first_where insert_sorted
has_row-insert_sorted p x [] = ground arith
has_row-insert_sorted p x (r ∷ rs) = ground (arith, has_row-insert_sorted p x rs)

insert_sorted-ExpiredFirst :
    (now : ℤ) (x : UrlData) (rows : List UrlData)
    → ExpiredFirst now rows
    → ExpiredFirst now (insert_sorted by_expiry x rows)
unfolding first_where insert_sorted
insert_sorted-ExpiredFirst now x [] f = (λ h. absurd (ground arith), tt)
insert_sorted-ExpiredFirst now x (r ∷ rs) f = elim (Bool-cases (by_expiry r x)) [
  | inl before ↦ rw before (
    λ h. ground (arith, before, h, has_row-insert_sorted (has_expired now) x rs, f.0),
    insert_sorted-ExpiredFirst now x rs f.1,
  )
  | inr after ↦ rw after (λ h. ground (arith, after, h, f.0), f)
]

slice_stable-ExpiredFirst :
    (now : ℤ) (rows : List UrlData) → ExpiredFirst now (slice_stable by_expiry rows)
unfolding slice_stable
slice_stable-ExpiredFirst now [] = tt
slice_stable-ExpiredFirst now (r ∷ rs) =
    insert_sorted-ExpiredFirst now r (slice_stable by_expiry rs) (slice_stable-ExpiredFirst now rs)

module _ (p : UrlData → Bool) where
  count-none : (rows : List UrlData) → has_row p rows ≡ false → count p rows ≡ 0
  unfolding first_where
  count-none [] h = refl
  count-none (r ∷ rs) h = ground (arith, count-none rs)

  count-insert_sorted :
      (x : UrlData) (rows : List UrlData)
      → count p (insert_sorted by_expiry x rows) ≡ count p (x ∷ rows)
  unfolding insert_sorted
  count-insert_sorted x [] = refl
  count-insert_sorted x (r ∷ rs) = ground (arith, count-insert_sorted x rs)

  count-slice_stable : (rows : List UrlData) → count p (slice_stable by_expiry rows) ≡ count p rows
  unfolding slice_stable
  count-slice_stable [] = refl
  count-slice_stable (r ∷ rs) =
      ground (arith, count-insert_sorted r (slice_stable by_expiry rs), count-slice_stable rs)

  count-take : (n : ℕ) (rows : List UrlData) → count p (take n rows) ≤ count p rows
  count-take zero rows = omega arith
  count-take (suc n) [] = omega arith
  count-take (suc n) (r ∷ rs) = ground (arith, count-take n rs)

  count-keep_if :
      (q : UrlData → Bool) (rows : List UrlData) → count p (keep_if q rows) ≤ count p rows
  count-keep_if q [] = omega arith
  count-keep_if q (r ∷ rs) = ground (arith, count-keep_if q rs)

  count-split :
      (gone : UrlData → Bool) (rows : List UrlData)
      → count p rows ≡ count p (delete_where gone rows) + count (λ r. p r && gone r) rows
  count-split gone [] = refl
  count-split gone (r ∷ rs) = ground (arith, count-split gone rs)

  count-and :
      (q : UrlData → Bool) (rows : List UrlData)
      → All (λ r. q r ≡ true) rows
      → count (λ r. p r && q r) rows ≡ count p rows
  count-and q [] a = refl
  count-and q (r ∷ rs) a = ground (arith, a.0, count-and q rs a.1)

-- The first `n` rows have `n` that had expired, or all.
count-first :
    (now : ℤ) (m n : ℕ) (rows : List UrlData)
    → ExpiredFirst now rows
    → count (has_expired now) rows ≤ m + n
    → count (has_expired now) rows ≤ m + count (has_expired now) (take n rows)
unfolding first_where
count-first now m zero rows f h = omega (arith, h)
count-first now m (suc n) [] f h = omega arith
count-first now m (suc n) (r ∷ rs) f h =
    ground (arith, f.0, count-none (has_expired now) rs, count-first now m n rs f.1)

count-expired :
    (now later : ℤ) (rows : List UrlData)
    → now ≤ℤ later
    → count (has_expired now) (keep_if (has_expired later) rows) ≡ count (has_expired now) rows
count-expired now later [] le = refl
count-expired now later (r ∷ rs) le = ground (arith, count-expired now later rs le)

id_in_self : (rows : List UrlData) → All (λ r. id_in rows r ≡ true) rows
unfolding first_where
id_in_self [] = tt
id_in_self (r ∷ rs) = (
  ground (arith, str_eq_refl r.id),
  All-imp (λ q. id_in rs q ≡ true) (λ q. id_in (r ∷ rs) q ≡ true) (λ q h. ground (arith, h)) rs
      (id_in_self rs),
)

-- A batch of `size` rows takes as many of those that had expired by `now`, or all.
batch-clears :
    (now later : ℤ) (size m : ℕ) (tables : Tables)
    → now ≤ℤ later
    → length (expired_rows now tables) ≤ m + size
    → length (expired_rows now (delete_expired_urls later size tables)) ≤ m
unfolding delete_expired_urls
batch-clears now later size m tables le bound =
    let rows = tables.urls in
    let p = has_expired now in
    let due = keep_if (has_expired later) rows in
    let oldest = slice_stable by_expiry due in
    let taken = batch later size rows in
    let gone = id_in taken in
    let hit : UrlData → Bool = λ r. p r && gone r in
    let all_due = count-expired now later rows le in
    let reordered = count-slice_stable p due in
    let first_ones =
      count-first now m size oldest (slice_stable-ExpiredFirst now due)
        (omega (arith, bound, all_due, reordered)) in
    let own = count-and p gone taken (id_in_self taken) in
    let of_oldest = count-take hit size oldest in
    let of_due = count-slice_stable hit due in
    let of_rows = count-keep_if hit (has_expired later) rows in
    let split = count-split p gone rows in
    omega (arith, all_due, reordered, first_ones, own, of_oldest, of_due, of_rows, split)

no_rows : {A : Type 0} (xs : List A) → length xs ≤ 0 → xs ≡ []
no_rows [] h = refl
no_rows (x ∷ xs) h = absurd (omega (arith, h))

-- Once the batches that the database has deleted for the cleanup have room for all rows that had
-- expired by `now`, none of these rows is left, whatever became of the calls between and whether the
-- answers came. (The ticks come at `now` or later.)
pub run_cleanup-expired_rows :
    (now : ℤ) (size : ℕ) (signals : List (Signal × Fate)) (tables : Tables)
    → TicksFrom now signals
    → length (expired_rows now tables) ≤ carried_out signals * size
    → expired_rows now (run_cleanup size signals tables) ≡ []
unfolding run_cleanup
run_cleanup-expired_rows now size [] tables from enough =
    no_rows (expired_rows now tables) (omega (arith, enough))
run_cleanup-expired_rows now size ((stop, fate) ∷ signals) tables from enough =
    no_rows (expired_rows now tables) (omega (arith, enough))
run_cleanup-expired_rows now size ((tick later, not_run) ∷ signals) tables from enough =
    run_cleanup-expired_rows now size signals tables from.1 enough
run_cleanup-expired_rows now size ((tick later, answered) ∷ signals) tables from enough =
    run_cleanup-expired_rows now size signals (delete_expired_urls later size tables) from.1 (
      batch-clears now later size (carried_out signals * size) tables from.0
        (omega (arith, enough)))
run_cleanup-expired_rows now size ((tick later, answer_lost) ∷ signals) tables from enough =
    run_cleanup-expired_rows now size signals (delete_expired_urls later size tables) from.1 (
      batch-clears now later size (carried_out signals * size) tables from.0
        (omega (arith, enough)))
