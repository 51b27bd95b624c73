-- ===== src/Storage.antt =====
-- storage/storage.go: the in-memory URL store. `now` is what the call's `time.Now()` returns; each
-- method holds the lock throughout, so it is one step. An entry owns its copy of the data.
pub mod View
pub mod Invariant
pub mod Listing
pub mod Visible
use goshorty.Prelude.{
  ℕ, suc, ◌+◌, ◌-◌, String, Bool, true, false, not, ◌&&◌, Option, none, some, List, [], ◌∷◌, Result,
  ok, err, leb, ltb, min, length, take, drop, get_elem?, str_eq, if◌then◌else◌,
}
use goshorty.Prelude.Int.{ℤ, pos, ltb_ℤ, eqb_ℤ}
use goshorty.Go.Map.{Map, lookup, insert, delete, delete_if}
use goshorty.Go.Sort.{slice_stable}
use goshorty.Go.Search.{search}
use goshorty.Paging.{ListResult, slice_from}
use goshorty.Models.{UrlData, UrlCursor, role_admin, add64, newer_than, after_keyset}

pub data StorageError : Type 0 where
  key_not_found : StorageError
  key_exists : String → StorageError
  storage_failed : StorageError

pub record StorageEntry : Type 0 where
  pub url_data : UrlData
  pub expires_at : ℤ

pub record Storage : Type 0 where
  pub entries : Map StorageEntry

abbrev pub UrlListResult : Type 0
UrlListResult = ListResult UrlData

pub record Stats : Type 0 where
  pub total_urls : ℕ
  pub total_visits : ℕ

-- `now.After(t)`
abbrev pub after : ℤ → ℤ → Bool
after now t = ltb_ℤ t now

unfoldable pub new_storage : Storage
new_storage = record { entries = [] }

store_entry : String → UrlData → Storage → Storage
store_entry code u s = record s {
  entries = insert code (record { url_data = u; expires_at = u.expires_at }) s.entries;
}

unfoldable pub set_if_absent :
    ℤ → String → UrlData → Storage → Result StorageError (Unit {0}) × Storage
unfolding store_entry
set_if_absent now code u s = elim (lookup code s.entries) [
  | none ↦ (ok tt, store_entry code u s)
  | some entry ↦
      if not (after now entry.expires_at)
      then (err (key_exists code), s)
      else (ok tt, store_entry code u s)
]

unfoldable pub get : ℤ → String → Storage → Result StorageError UrlData
get now code s = elim (lookup code s.entries) [
  | none ↦ err key_not_found
  | some entry ↦ if after now entry.expires_at then err key_not_found else ok entry.url_data
]

-- The delete does not look at the time.
unfoldable pub delete_key : String → Storage → Result StorageError (Unit {0}) × Storage
delete_key code s = elim (lookup code s.entries) [
  | none ↦ (err key_not_found, s)
  | some entry ↦ (ok tt, record s { entries = delete code s.entries })
]

abbrev pub bump_visits : UrlData → UrlData
bump_visits u = record u { visits = add64 u.visits 1 }

unfoldable pub get_and_increment : ℤ → String → Storage → Result StorageError UrlData × Storage
get_and_increment now code s = elim (lookup code s.entries) [
  | none ↦ (err key_not_found, s)
  | some entry ↦ if after now entry.expires_at then (err key_not_found, s) else (
    ok (bump_visits entry.url_data),
    record s {
      entries = insert code (record entry { url_data = bump_visits entry.url_data }) s.entries;
    },
  )
]

-- The two guards of each listing loop, passed.
abbrev pub is_visible : ℤ → String → String → StorageEntry → Bool
is_visible now user_id role entry =
    if after now entry.expires_at
    then false
    else if not (str_eq role role_admin) && not (str_eq entry.url_data.created_by user_id)
    then false
    else true

unfoldable pub collect_visible : ℤ → String → String → Map StorageEntry → List UrlData
collect_visible now user_id role [] = []
collect_visible now user_id role ((_, entry) ∷ m) =
    let rest = collect_visible now user_id role m in
    if is_visible now user_id role entry then entry.url_data ∷ rest else rest

unfoldable pub get_all_for : ℤ → String → String → Storage → List UrlData
unfolding collect_visible
get_all_for now user_id role s = collect_visible now user_id role s.entries

-- `visible[i].AfterKeyset(cursor)`; `sort.Search` asks it of indices below the length only.
abbrev pub after_at : List UrlData → UrlCursor → ℕ → Bool
after_at visible cursor i = elim (get_elem? visible i) [
  | none ↦ false
  | some u ↦ after_keyset u cursor
]

abbrev pub is_first_page : UrlCursor → Bool
is_first_page cursor = eqb_ℤ cursor.created_at_unix_nano (pos 0) && str_eq cursor.short_code ""

-- `start`, by binary search unless this is the first page.
page_start : List UrlData → UrlCursor → ℕ
page_start visible cursor =
    if is_first_page cursor then 0 else search (length visible) (after_at visible cursor)

unfoldable pub list_urls : ℤ → String → String → UrlCursor → ℕ → Storage → UrlListResult
unfolding page_start collect_visible
list_urls now user_id role cursor limit s =
    let visible = slice_stable newer_than (collect_visible now user_id role s.entries) in
    slice_from (page_start visible cursor) visible limit

stats_loop : ℤ → String → String → Map StorageEntry → Stats → Stats
stats_loop now user_id role [] acc = acc
stats_loop now user_id role ((_, entry) ∷ m) acc = stats_loop now user_id role m (
    if is_visible now user_id role entry
    then record {
      total_urls = suc acc.total_urls;
      total_visits = add64 acc.total_visits entry.url_data.visits;
    }
    else acc)

unfoldable pub stats_for : ℤ → String → String → Storage → Stats
unfolding stats_loop
stats_for now user_id role s =
    stats_loop now user_id role s.entries (record { total_urls = 0; total_visits = 0 })

-- What the `select` of `cleanupExpired` receives: the closed `stop` channel or a tick.
pub data Signal : Type 0 where
  stop : Signal
  tick : ℤ → Signal

-- The body of the ticker's case, at the time that its `time.Now()` returns.
unfoldable pub cleanup_tick : ℤ → Storage → Storage
cleanup_tick now s = record s {
  entries = delete_if (λ entry. after now entry.expires_at) s.entries;
}

-- The goroutine, over what it receives.
unfoldable pub cleanup_expired : List Signal → Storage → Storage
unfolding cleanup_tick
cleanup_expired [] s = s
cleanup_expired (stop ∷ signals) s = s
cleanup_expired (tick now ∷ signals) s = cleanup_expired signals (cleanup_tick now s)
