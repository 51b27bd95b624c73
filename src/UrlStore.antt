-- ===== src/UrlStore.antt =====
-- `URLStore` of storage/interfaces.go: the store that the URL service is given, and what the service
-- may rely on. The time argument is what the call's own `time.Now()`, or `NOW()`, returns.
pub mod Memory
pub mod Listed
use goshorty.Prelude.{
  ℕ, String, ◌≡◌, Bool, true, false, ◌⊎◌, Option, none, some, List, ◌∷◌, ◌++◌, Result, ok, err,
  length, str_eq, if◌then◌else◌, is_some, ◌||◌, All, any,
}
use goshorty.Prelude.Int.{ℤ, pos, ◌≤ℤ◌}
use goshorty.Go.Sort.{IsSorted, StrictOrder}
use goshorty.Paging.{ListResult, page_of}
use goshorty.Models.{UrlData, UrlCursor, role_admin}
use goshorty.Models.Keyset.{cursor_of}
use goshorty.Storage.{StorageError, key_not_found, key_exists, storage_failed, Stats, is_first_page}
use goshorty.Storage.View.{found_or_missing}

abbrev pub zero_cursor : UrlCursor
zero_cursor = record { created_at_unix_nano = pos 0; short_code = "" }

-- `E` is what a call meets: its time at least.
pub record UrlStore (E S : Type 0) : Type 0 where
  pub set_if_absent : E → String → UrlData → S → Result StorageError (Unit {0}) × S
  pub get : E → String → S → Result StorageError UrlData
  pub delete_key : E → String → S → Result StorageError (Unit {0}) × S
  pub get_and_increment : E → String → S → Result StorageError UrlData × S
  pub get_all_for : E → String → String → S → Result StorageError (List UrlData)
  pub list_urls : E → String → String → UrlCursor → ℕ → S → Result StorageError (ListResult UrlData)
  pub stats_for : E → String → String → S → Result StorageError Stats

-- What a store's states stand for: at each time, the URL under each code, and the URLs that a caller
-- may see, in the order of the pages.
pub record StoreModel (E S : Type 0) : Type 1 where
  pub Valid : S → Type 0
  pub time : E → ℤ
  -- What the second statement of a call that has two meets, as `ListURLs` may: its time, and its state.
  pub later : E → ℤ
  pub between : E → S → S
  pub view : ℤ → S → String → Option UrlData
  pub listing : ℤ → String → String → S → List UrlData
  -- The order of the pages, and the part of a listing that lies after a cursor.
  pub before : UrlData → UrlData → Bool
  pub after : UrlCursor → List UrlData → List UrlData
  -- Whether a URL of some expiry is live at a time, how the store keeps a time, and a URL with one
  -- visit more.
  pub alive : ℤ → ℤ → Bool
  pub round : ℤ → ℤ
  pub counted : UrlData → UrlData
  -- The reasons for `storage_failed`: a call whose answer does not come, a URL that the store does not
  -- take, and a count of visits that it cannot raise.
  pub IsDown : E → Type 0
  pub Refuses : UrlData → S → Type 0
  pub IsFull : UrlData → Type 0

module _ {E S : Type 0} (model : StoreModel E S) where
  open model use {
    Valid, time, later, between, view, listing, before, after, alive, round, counted, IsDown,
    Refuses, IsFull,
  }

  -- A URL as the store keeps it, and while it is live.
  abbrev pub stored : UrlData → UrlData
  stored u = record u { expires_at = round u.expires_at; created_at = round u.created_at }

  abbrev pub standing : ℤ → UrlData → Option UrlData
  standing t u = if alive t u.expires_at then some u else none

  abbrev pub visited : Option UrlData → Option UrlData
  visited none = none
  visited (some u) = some (counted u)

  -- Every code stands for the same URL at every time.
  abbrev pub SameView : S → S → Type 0
  SameView s s' = (t : ℤ) (j : String) → view t s' j ≡ view t s j

  -- `u` stands under its code, which was free at `now`, and nothing else has changed.
  pub record IsFiled (now : ℤ) (u : UrlData) (s s' : S) : Type 0 where
    pub was_free : view now s u.short_code ≡ none
    pub stands :
        (t : ℤ) (j : String)
        → view t s' j ≡ (if str_eq u.short_code j then standing t (stored u) else view t s j)

  -- The URL under the code has one visit more, and nothing else has changed.
  abbrev pub IsCounted : String → S → S → Type 0
  IsCounted code s s' =
      (t : ℤ) (j : String)
      → view t s' j ≡ (if str_eq code j then visited (view t s j) else view t s j)

  -- From `now` on there is no URL under the code, and nothing else has changed.
  abbrev pub IsGone : ℤ → String → S → S → Type 0
  IsGone now code s s' =
      (t : ℤ) (j : String) → now ≤ℤ t → view t s' j ≡ (if str_eq code j then none else view t s j)

  -- What each operation may answer, and what it has done by then. A call whose answer does not come
  -- has been carried out or not.
  abbrev pub SetOutcome : E → UrlData → S → Result StorageError (Unit {0}) × S → Type 0
  SetOutcome e u s (answer, s') =
      ((answer ≡ ok tt) × IsFiled (time e) u s s')
      ⊎ ((answer ≡ err (key_exists u.short_code))
          × (is_some (view (time e) s u.short_code) ≡ true)
          × SameView s s')
      ⊎ ((answer ≡ err storage_failed)
          × ((Refuses u s × SameView s s')
              ⊎ (IsDown e × (SameView s s' ⊎ IsFiled (time e) u s s'))))

  abbrev pub GetOutcome : E → String → S → Result StorageError UrlData → Type 0
  GetOutcome e code s answer =
      (answer ≡ found_or_missing (view (time e) s code))
      ⊎ ((answer ≡ err storage_failed) × IsDown e)

  abbrev pub VisitOutcome : E → String → S → Result StorageError UrlData × S → Type 0
  VisitOutcome e code s (answer, s') =
      ((old : UrlData) × (view (time e) s code ≡ some old)
        × (answer ≡ ok (counted old))
        × IsCounted code s s')
      ⊎ ((answer ≡ err key_not_found) × (view (time e) s code ≡ none) × SameView s s')
      ⊎ ((answer ≡ err storage_failed)
          × (((old : UrlData) × (view (time e) s code ≡ some old) × IsFull old × SameView s s')
              ⊎ (IsDown e
                  × (SameView s s'
                      ⊎ ((is_some (view (time e) s code) ≡ true) × IsCounted code s s')))))

  abbrev pub DeleteOutcome : E → String → S → Result StorageError (Unit {0}) × S → Type 0
  DeleteOutcome e code s (answer, s') =
      ((answer ≡ ok tt) × IsGone (time e) code s s')
      ⊎ ((answer ≡ err key_not_found) × (view (time e) s code ≡ none) × IsGone (time e) code s s')
      ⊎ ((answer ≡ err storage_failed) × IsDown e × (SameView s s' ⊎ IsGone (time e) code s s'))

  abbrev pub may_list : String → String → UrlData → Bool
  may_list user_id role u = str_eq role role_admin || str_eq u.created_by user_id

  -- The URLs are in strict order, and they are just those that stand under their codes and that the
  -- caller may see.
  pub record IsListing (now : ℤ) (user_id role : String) (s : S) (urls : List UrlData)
      : Type 0 where
    pub sorted : IsSorted before urls
    pub shown :
        All (λ u. (view now s u.short_code ≡ some u) × (may_list user_id role u ≡ true)) urls
    pub complete :
        (u : UrlData)
        → view now s u.short_code ≡ some u
        → may_list user_id role u ≡ true
        → any (λ v. str_eq v.short_code u.short_code) urls ≡ true

  -- The contract of the operations, in these terms. A URL is set under its own code.
  pub record UrlStoreLaws (store : UrlStore E S) : Type 0 where
    pub get-Outcome : (e : E) (code : String) (s : S) → GetOutcome e code s (store.get e code s)
    pub set-Outcome :
        (e : E) (u : UrlData) (s : S) → SetOutcome e u s (store.set_if_absent e u.short_code u s)
    pub visit-Outcome :
        (e : E) (code : String) (s : S) → VisitOutcome e code s (store.get_and_increment e code s)
    pub delete-Outcome :
        (e : E) (code : String) (s : S) → DeleteOutcome e code s (store.delete_key e code s)
    -- A visit changes the count only.
    pub counted_lem : (u : UrlData) → counted u ≡ record u { visits = (counted u).visits }
    pub list_page :
        (e : E) (user_id role : String) (cursor : UrlCursor) (limit : ℕ) (s : S)
        → Valid s
        → let counted_urls = listing (time e) user_id role s in
          let urls = listing (later e) user_id role (between e s) in
          (store.list_urls e user_id role cursor limit s
            ≡ ok (page_of (length counted_urls) limit (after cursor urls)))
          ⊎ ((store.list_urls e user_id role cursor limit s ≡ err storage_failed) × IsDown e)
    pub between-Valid : (e : E) (s : S) → Valid s → Valid (between e s)
    pub before-StrictOrder : StrictOrder before
    pub listing-IsListing :
        (now : ℤ) (user_id role : String) (s : S)
        → Valid s
        → IsListing now user_id role s (listing now user_id role s)
    -- The zero cursor stands for the whole listing, and that of a URL for what follows it.
    pub list_first : (urls : List UrlData) → after zero_cursor urls ≡ urls
    pub list_next :
        (now : ℤ) (user_id role : String) (s : S)
        → Valid s
        → (earlier : List UrlData) (last : UrlData) (ys : List UrlData)
        → listing now user_id role s ≡ earlier ++ last ∷ ys
        → is_first_page (cursor_of last) ≡ false
        → after (cursor_of last) (listing now user_id role s) ≡ ys
