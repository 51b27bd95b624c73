-- ===== src/UrlStore/Memory.antt =====
-- The in-memory store of storage/storage.go as a `URLStore`.
use goshorty.Prelude.{
  String, ◌≢◌, refl, ap, inl, inr, ok, err, arith, is_some, Bool-cases, Option-cases,
}
use goshorty.Prelude.Int.{ℤ, leb_ℤ}
use goshorty.Models.{UrlData, newer_than}
use goshorty.Models.Keyset.{newer_than-StrictOrder}
use goshorty.Storage
use goshorty.Storage.{Storage, StorageError, key_not_found, bump_visits}
use goshorty.Storage.Invariant.{Inv}
use goshorty.Storage.View
use goshorty.Storage.Listing
use goshorty.Storage.Visible
use goshorty.UrlStore.{
  UrlStore, StoreModel, UrlStoreLaws, SetOutcome, VisitOutcome, DeleteOutcome, IsGone,
}

abbrev pub memory_store : UrlStore ℤ Storage
memory_store = record {
  set_if_absent = Storage.set_if_absent;
  get = Storage.get;
  delete_key = λ now code s. Storage.delete_key code s;
  get_and_increment = Storage.get_and_increment;
  get_all_for = λ now user_id role s. ok (Storage.get_all_for now user_id role s);
  list_urls =
      λ now user_id role cursor limit s. ok (Storage.list_urls now user_id role cursor limit s);
  stats_for = λ now user_id role s. ok (Storage.stats_for now user_id role s);
}

-- It keeps times as they are, is never down, and takes every URL.
abbrev pub memory_model : StoreModel ℤ Storage
memory_model = record {
  Valid = Inv;
  time = λ now. now;
  later = λ now. now;
  between = λ now s. s;
  view = View.view;
  listing = Listing.visible_urls;
  before = newer_than;
  after = Listing.after_cursor;
  alive = leb_ℤ;
  round = λ t. t;
  counted = bump_visits;
  IsDown = λ now. ⊥;
  Refuses = λ u s. ⊥;
  IsFull = λ u. ⊥;
}

set-Outcome :
    (now : ℤ) (u : UrlData) (s : Storage)
    → SetOutcome memory_model now u s (Storage.set_if_absent now u.short_code u s)
set-Outcome now u s =
    let (answer, seen) = View.set_if_absent-view now u.short_code u s in
    elim (Bool-cases (is_some (View.view now s u.short_code))) [
      | inl taken ↦ inr (inl (ground (arith, answer), taken, λ t j. ground (arith, seen t j)))
      | inr free ↦ inl (
        ground (arith, answer),
        record { was_free = ground arith; stands = λ t j. ground (arith, seen t j) },
      )
    ]

visit-Outcome :
    (now : ℤ) (code : String) (s : Storage)
    → VisitOutcome memory_model now code s (Storage.get_and_increment now code s)
visit-Outcome now code s =
    let (answer, seen) = View.get_and_increment-view now code s in
    elim (Option-cases (View.view now s code)) [
      | inl missing ↦ inr (inl (ground (arith, answer), missing, λ t j. ground (arith, seen t j)))
      | inr (old, found) ↦ inl (old, found, ground (arith, answer), λ t j. ground (arith, seen t j))
    ]

delete-Outcome :
    (now : ℤ) (code : String) (s : Storage)
    → DeleteOutcome memory_model now code s (Storage.delete_key code s)
delete-Outcome now code s =
    let gone : IsGone memory_model now code s (Storage.delete_key code s).1 =
      λ t j le. View.delete_key-view code s t j in
    elim (View.delete_key-answer now code s) [
      | inl deleted ↦ inl (deleted, gone)
      | inr (answer, missing) ↦ inr (inl (answer, missing, gone))
    ]

-- The in-memory store keeps the contract, for its live entries and their sorted listing.
pub memory_store-laws : UrlStoreLaws memory_model memory_store
memory_store-laws = record {
  get-Outcome = λ now code s. inl (View.get-view now code s);
  set-Outcome = set-Outcome;
  visit-Outcome = visit-Outcome;
  delete-Outcome = delete-Outcome;
  counted_lem = λ u. refl;
  list_page = λ now user_id role cursor limit s v.
      inl (ap ok (Listing.list_urls_lem now user_id role cursor limit s v));
  between-Valid = λ now s v. v;
  before-StrictOrder = newer_than-StrictOrder;
  listing-IsListing = λ now user_id role s v. record {
    sorted = Listing.visible_urls-IsSorted now user_id role s v;
    shown = Visible.visible_urls-shown now user_id role s v;
    complete = Visible.visible_urls_complete now user_id role s v;
  };
  list_first = λ urls. refl;
  list_next = λ now user_id role s v before last ys e named.
      Listing.after_cursor-cursor_of (Listing.visible_urls now user_id role s) before last ys
        (Listing.visible_urls-IsSorted now user_id role s v) named e;
}

-- It answers every visit.
pub visit-ne-failed :
    (now : ℤ) (code : String) (s : Storage)
    → (Storage.get_and_increment now code s).0 ≢ err Storage.storage_failed
visit-ne-failed now code s failed = elim (Option-cases (View.view now s code)) [
  | inl missing ↦ ground (arith, (View.get_and_increment-view now code s).0, missing, failed)
  | inr (old, found) ↦ ground (arith, (View.get_and_increment-view now code s).0, found, failed)
]
