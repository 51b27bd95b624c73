-- ===== src/Postgres/Contract.antt =====
-- The PostgreSQL store of storage/postgres.go as a `URLStore`.
use goshorty.Prelude.{
  ℕ, suc, ◌≤◌, ◌++◌, String, ◌≡◌, ◌≢◌, refl, ap, ◌∙◌, Bool, false, ◌⊎◌, inl, inr, Option, none,
  some, List, [], ◌∷◌, Result, ok, err, arith, str_eq, if◌then◌else◌, All, All-middle, All-keep_if,
  length, keep_if, subst,
}
use mathlib.Core.Path.{fun_ext}
use goshorty.Prelude.Int.{ℤ, ltb_ℤ}
use goshorty.Go.Sort.{slice_stable-IsSorted, All-slice_stable, keep_if-less, IsSorted}
use goshorty.Paging.{page_of}
use goshorty.Models.{UrlData, UrlCursor}
use goshorty.Models.Keyset.{cursor_of}
use goshorty.Storage.{StorageError, storage_failed, is_first_page}
use goshorty.UrlStore.{
  UrlStore, StoreModel, UrlStoreLaws, SetOutcome, GetOutcome, VisitOutcome, DeleteOutcome, IsFiled,
  IsCounted, SameView, visited, zero_cursor,
}
use goshorty.Postgres.{Tables, Fate, answered}
use goshorty.Postgres.Urls.{
  in_scope, listed_before, past, set_if_absent, get, delete_key, get_and_increment, get_all_for,
  list_urls, stats_for, one_visit, bigint_bound,
}
use goshorty.Postgres.View
use goshorty.Postgres.View.{view, UniqueCodes}
use goshorty.Postgres.Visits
use goshorty.Postgres.Pages.{IsCollation, listing, listed_before-StrictOrder, kept-Distinct}
use goshorty.Postgres.Listed.{listing-shown, listing_complete}
use goshorty.Postgres.Valid.{Valid, set_if_absent-Valid, get_and_increment-Valid, delete_key-Valid}
use goshorty.Postgres.Cases.{
  set_if_absent-cases, get_and_increment-cases, delete_key-cases, get-cases, scan-eq,
  list_urls-cases,
}

pub record ValidTables (stamp : ℤ → ℤ) : Type 0 where
  pub tables : Tables
  pub valid : Valid stamp tables

-- What a call meets: the database's time, and what becomes of it. The second statement of `ListURLs` has
-- a time of its own, and other requests may have changed the tables before it.
pub record Call (stamp : ℤ → ℤ) : Type 0 where
  pub now : ℤ
  pub fate : Fate
  pub later : ℤ
  pub meanwhile : ValidTables stamp → ValidTables stamp

-- The time that the database keeps is kept as it is, and its collation is an order.
pub record DatabaseLaws (stamp : ℤ → ℤ) (precedes : String → String → Bool) : Type 0 where
  pub idempotent : (t : ℤ) → stamp (stamp t) ≡ stamp t
  pub collation : IsCollation precedes

module _ (stamp : ℤ → ℤ) (precedes : String → String → Bool)
    (laws : DatabaseLaws stamp precedes) where
  abbrev moved :
      {A : Type 0} (r : Result StorageError A × Tables)
      → Valid stamp r.1
      → Result StorageError A × ValidTables stamp
  moved r v = (r.0, record { tables = r.1; valid = v })

  abbrev pub postgres_store : UrlStore (Call stamp) (ValidTables stamp)
  postgres_store = record {
    set_if_absent = λ c code u db.
        moved (set_if_absent stamp c.fate c.now code u db.tables)
          (set_if_absent-Valid stamp laws.idempotent c.fate c.now code u db.tables db.valid);
    get = λ c code db. get c.fate c.now code db.tables;
    delete_key = λ c code db.
        moved (delete_key c.fate c.now code db.tables)
          (delete_key-Valid stamp laws.idempotent c.fate c.now code db.tables db.valid);
    get_and_increment = λ c code db.
        moved (get_and_increment c.fate c.now code db.tables)
          (get_and_increment-Valid stamp laws.idempotent c.fate c.now code db.tables db.valid);
    get_all_for = λ c user_id role db. get_all_for c.fate c.now user_id role db.tables;
    list_urls = λ c user_id role cursor limit db.
        list_urls stamp precedes c.fate c.now c.later user_id role cursor limit db.tables
          (c.meanwhile db).tables;
    stats_for = λ c user_id role db. stats_for c.fate c.now user_id role db.tables;
  }

  -- It is down where the answer of a call does not come, refuses a row that breaks a constraint, and
  -- cannot raise a count beyond the range of an int64.
  abbrev pub postgres_model : StoreModel (Call stamp) (ValidTables stamp)
  postgres_model = record {
    Valid = λ db. Unit;
    time = λ c. c.now;
    later = λ c. c.later;
    between = λ c db. c.meanwhile db;
    view = λ t db code. view t db.tables code;
    listing = λ now user_id role db. listing precedes now user_id role db.tables;
    before = listed_before precedes;
    after = λ cursor rows. keep_if (past stamp precedes cursor) rows;
    alive = ltb_ℤ;
    round = stamp;
    counted = one_visit;
    IsDown = λ c. c.fate ≢ answered;
    Refuses = λ u db. View.Refuses u db.tables;
    IsFull = λ u. bigint_bound ≤ suc u.visits;
  }

  unchanged :
      (db after : ValidTables stamp) → after.tables ≡ db.tables → SameView postgres_model db after
  unchanged db after same t j = ap (λ (tables : Tables). view t tables j) same

  filed :
      (now : ℤ) (u : UrlData) (db after : ValidTables stamp)
      → View.IsFiledRow stamp now u.short_code u db.tables after.tables
      → IsFiled postgres_model now u db after
  filed now u db after f = record { was_free = f.was_free; stands = f.stands }

  set-Outcome :
      (c : Call stamp) (u : UrlData) (db : ValidTables stamp)
      → SetOutcome postgres_model c u db (postgres_store.set_if_absent c u.short_code u db)
  set-Outcome c u db =
      let after = (postgres_store.set_if_absent c u.short_code u db).1 in
      elim (set_if_absent-cases stamp c.fate c.now u db.tables db.valid.unique) [
        | inl (answer, f) ↦ inl (answer, filed c.now u db after f)
        | inr (inl (answer, taken, same)) ↦ inr (inl (answer, taken, unchanged db after same))
        | inr (inr (answer, inl (refused, same))) ↦
            inr (inr (answer, inl (refused, unchanged db after same)))
        | inr (inr (answer, inr (down, inl same))) ↦
            inr (inr (answer, inr (down, inl (unchanged db after same))))
        | inr (inr (answer, inr (down, inr f))) ↦
            inr (inr (answer, inr (down, inr (filed c.now u db after f))))
      ]

  visited-eq : (o : Option UrlData) → Visits.visited o ≡ visited postgres_model o
  visited-eq none = refl
  visited-eq (some u) = refl

  counted :
      (now : ℤ) (code : String) (db after : ValidTables stamp) (old : UrlData)
      → Visits.IsCounted now code db.tables after.tables old
      → IsCounted postgres_model code db after
  counted now code db after old n t j =
      n.stands t j
      ∙ ap (λ o. if str_eq code j then o else view t db.tables j) (visited-eq (view t db.tables j))

  visit-Outcome :
      (c : Call stamp) (code : String) (db : ValidTables stamp)
      → VisitOutcome postgres_model c code db (postgres_store.get_and_increment c code db)
  visit-Outcome c code db =
      let after = (postgres_store.get_and_increment c code db).1 in
      elim (get_and_increment-cases c.fate c.now code db.tables db.valid.unique) [
        | inl (old, answer, n) ↦ inl (old, n.found, answer, counted c.now code db after old n)
        | inr (inl (answer, missing, same)) ↦ inr (inl (answer, missing, unchanged db after same))
        | inr (inr (answer, inl (old, found, full, same))) ↦
            inr (inr (answer, inl (old, found, full, unchanged db after same)))
        | inr (inr (answer, inr (down, inl same))) ↦
            inr (inr (answer, inr (down, inl (unchanged db after same))))
        | inr (inr (answer, inr (down, inr (old, n)))) ↦ inr (
            inr (
              answer,
              inr (down, inr (ground (arith, n.found), counted c.now code db after old n)),
            ))
      ]

  delete-Outcome :
      (c : Call stamp) (code : String) (db : ValidTables stamp)
      → DeleteOutcome postgres_model c code db (postgres_store.delete_key c code db)
  delete-Outcome c code db =
      let after = (postgres_store.delete_key c code db).1 in
      elim (delete_key-cases c.fate c.now code db.tables) [
        | inl (answer, gone) ↦ inl (answer, gone)
        | inr (inl (answer, missing, gone)) ↦ inr (inl (answer, missing, gone))
        | inr (inr (answer, down, inl same)) ↦
            inr (inr (answer, down, inl (unchanged db after same)))
        | inr (inr (answer, down, inr gone)) ↦ inr (inr (answer, down, inr gone))
      ]

  get-Outcome :
      (c : Call stamp) (code : String) (db : ValidTables stamp)
      → GetOutcome postgres_model c code db (postgres_store.get c code db)
  get-Outcome c code db = elim (get-cases c.fate c.now code db.tables) [
    | inl answer ↦ inl (answer ∙ scan-eq (view c.now db.tables code))
    | inr lost ↦ inr lost
  ]

  list_page :
      (c : Call stamp) (user_id role : String) (cursor : UrlCursor) (limit : ℕ)
      (db : ValidTables stamp)
      → let counted_urls = listing precedes c.now user_id role db.tables in
        let urls = listing precedes c.later user_id role (c.meanwhile db).tables in
        let answer = postgres_store.list_urls c user_id role cursor limit db in
        (answer
          ≡ ok (page_of (length counted_urls) limit (keep_if (past stamp precedes cursor) urls)))
        ⊎ ((answer ≡ err storage_failed) × (c.fate ≢ answered))
  list_page c user_id role cursor limit db =
      list_urls-cases stamp precedes laws.collation c.fate c.now c.later user_id role cursor limit
        db.tables (c.meanwhile db).tables (c.meanwhile db).valid.unique

  listing-IsSorted :
      (now : ℤ) (user_id role : String) (db : ValidTables stamp)
      → IsSorted (listed_before precedes) (listing precedes now user_id role db.tables)
  listing-IsSorted now user_id role db =
      slice_stable-IsSorted (listed_before precedes)
        (listed_before-StrictOrder precedes laws.collation)
        (keep_if (in_scope now user_id role) db.tables.urls)
        (kept-Distinct precedes laws.collation (in_scope now user_id role) db.tables.urls
          db.valid.unique)

  list_first : (rows : List UrlData) → keep_if (past stamp precedes zero_cursor) rows ≡ rows
  list_first [] = refl
  list_first (r ∷ rs) = ap (◌∷◌ r) (list_first rs)

  -- What is past a row that keeps its time comes after it in the list.
  past-cursor_of :
      (last u : UrlData)
      → stamp last.created_at ≡ last.created_at
      → is_first_page (cursor_of last) ≡ false
      → past stamp precedes (cursor_of last) u ≡ listed_before precedes last u
  past-cursor_of last u stamped named = rw (named, stamped) (ground arith)

  list_next :
      (now : ℤ) (user_id role : String) (db : ValidTables stamp) (earlier : List UrlData)
      (last : UrlData) (ys : List UrlData)
      → let urls = listing precedes now user_id role db.tables in
        urls ≡ earlier ++ last ∷ ys
        → is_first_page (cursor_of last) ≡ false
        → keep_if (past stamp precedes (cursor_of last)) urls ≡ ys
  list_next now user_id role db earlier last ys whole named =
      let IsStamped : UrlData → Type 0 = λ r. stamp r.created_at ≡ r.created_at in
      let urls = listing precedes now user_id role db.tables in
      let scope = keep_if (in_scope now user_id role) db.tables.urls in
      let all_stamped =
        All-slice_stable IsStamped (listed_before precedes) scope
          (All-keep_if IsStamped (in_scope now user_id role) db.tables.urls db.valid.stamped) in
      let stamped =
        All-middle IsStamped earlier last ys (subst (All IsStamped) whole all_stamped) in
      ap (λ (p : UrlData → Bool). keep_if p urls)
        (fun_ext (λ u. past-cursor_of last u stamped named))
      ∙ keep_if-less (listed_before precedes) (listed_before-StrictOrder precedes laws.collation)
          urls earlier last ys (listing-IsSorted now user_id role db) whole

  -- The PostgreSQL store keeps the contract, for its live rows and their listing, where times are
  -- rounded, calls get lost, constraints refuse rows, and anything may come between the two statements of
  -- `ListURLs`. (The database keeps the times that it has kept, and its collation orders any two texts.)
  pub postgres_store-laws : UrlStoreLaws postgres_model postgres_store
  postgres_store-laws = record {
    get-Outcome = get-Outcome;
    set-Outcome = set-Outcome;
    visit-Outcome = visit-Outcome;
    delete-Outcome = delete-Outcome;
    counted_lem = λ u. refl;
    list_page = λ c user_id role cursor limit db valid. list_page c user_id role cursor limit db;
    between-Valid = λ c db valid. tt;
    before-StrictOrder = listed_before-StrictOrder precedes laws.collation;
    listing-IsListing = λ now user_id role db valid. record {
      sorted = listing-IsSorted now user_id role db;
      shown = listing-shown now user_id role precedes db.tables db.valid.unique;
      complete = listing_complete now user_id role precedes db.tables;
    };
    list_first = list_first;
    list_next = λ now user_id role db valid. list_next now user_id role db;
  }
