-- ===== src/Storage/View.antt =====
-- What a client can see of the in-memory store: at each time, the live URL under each code.
use goshorty.Prelude.{
  String, ◌≡◌, refl, true, not, ◌&&◌, Option, none, some, List, [], ◌∷◌, Result, ok, err, arith,
  str_eq, str_eq_iff, if◌then◌else◌, is_some, ◌⊎◌, inl, inr, Option-cases,
}
use goshorty.Prelude.Int.{ℤ, ◌≤ℤ◌}
use goshorty.Go.Map.{
  lookup, Unique, lookup-insert, lookup-delete, lookup-delete_if, delete_if-Unique,
}
use goshorty.Models.{UrlData}
use goshorty.Storage.{
  Storage, StorageEntry, StorageError, key_not_found, key_exists, after, set_if_absent, get,
  delete_key, get_and_increment, bump_visits, Signal, stop, tick, cleanup_tick, cleanup_expired,
}

abbrev live : ℤ → Option StorageEntry → Option UrlData
live t none = none
live t (some e) = if after t e.expires_at then none else some e.url_data

-- The URL that `code` stands for at time `t`.
unfoldable pub view : ℤ → Storage → String → Option UrlData
view t s code = live t (lookup code s.entries)

-- A URL while it has not expired.
abbrev pub until_expiry : ℤ → UrlData → Option UrlData
until_expiry t u = if after t u.expires_at then none else some u

abbrev pub found_or_missing : Option UrlData → Result StorageError UrlData
found_or_missing none = err key_not_found
found_or_missing (some u) = ok u

abbrev pub bump_view : Option UrlData → Option UrlData
bump_view none = none
bump_view (some u) = some (bump_visits u)

-- `Get` answers the live URL of the code, or that there is none.
pub get-view :
    (now : ℤ) (code : String) (s : Storage) → get now code s ≡ found_or_missing (view now s code)
unfolding get view
get-view now code s = ground arith

-- `SetIfAbsent` refuses a code exactly while a live URL stands under it, and then changes nothing;
-- otherwise the code stands for the new URL until that expires. No other code changes.
pub set_if_absent-view :
    (now : ℤ) (code : String) (u : UrlData) (s : Storage)
    → let taken = is_some (view now s code) in
      let (answer, s') = set_if_absent now code u s in
      (answer ≡ (if taken then err (key_exists code) else ok tt))
      × ((t : ℤ) (j : String)
          → view t s' j ≡ (if not taken && str_eq code j then until_expiry t u else view t s j))
unfolding set_if_absent view
set_if_absent-view now code u s = (
  ground arith,
  λ t j.
      ground (
        arith,
        lookup-insert code j (record { url_data = u; expires_at = u.expires_at }) s.entries,
      ),
)

-- `GetAndIncrement` answers the live URL with one more visit and stores that count; nothing else
-- that a client can see changes.
pub get_and_increment-view :
    (now : ℤ) (code : String) (s : Storage)
    → let found = view now s code in
      let (answer, s') = get_and_increment now code s in
      (answer ≡ found_or_missing (bump_view found))
      × ((t : ℤ) (j : String)
          → view t s' j
            ≡ (if is_some found && str_eq code j then bump_view (view t s j) else view t s j))
unfolding get_and_increment view
get_and_increment-view now code s =
    (ground arith, λ t j. elim-entry (lookup code s.entries) refl t j)
  where
    elim-entry :
        (o : Option StorageEntry)
        → lookup code s.entries ≡ o
        → (t : ℤ) (j : String)
        → view t (get_and_increment now code s).1 j ≡ (
            if is_some (view now s code) && str_eq code j
            then bump_view (view t s j)
            else view t s j)
    elim-entry none e t j = ground (arith)
    elim-entry (some entry) e t j = ground (
      arith,
      lookup-insert code j (record entry { url_data = bump_visits entry.url_data }) s.entries,
      str_eq_iff code j,
    )

-- `Delete` leaves no URL under its code and does not touch the others.
pub delete_key-view :
    (code : String) (s : Storage) (t : ℤ) (j : String)
    → view t (delete_key code s).1 j ≡ (if str_eq code j then none else view t s j)
unfolding delete_key view
delete_key-view code s t j = ground (arith, lookup-delete code j s.entries, str_eq_iff code j)

-- It succeeds, or there is no URL under the code.
pub delete_key-answer :
    (now : ℤ) (code : String) (s : Storage)
    → ((delete_key code s).0 ≡ ok tt)
      ⊎ (((delete_key code s).0 ≡ err key_not_found) × (view now s code ≡ none))
unfolding delete_key view
delete_key-answer now code s = elim (Option-cases (lookup code s.entries)) [
  | inl missing ↦ inr (ground (arith, missing), ground (arith, missing))
  | inr (entry, found) ↦ inl (ground (arith, found))
]

-- Time passes: what had expired at one time has expired later.
pub after_mono : (now t e : ℤ) → now ≤ℤ t → after now e ≡ true → after t e ≡ true
after_mono now t e le h = ground arith

cleanup_tick-view :
    (now t : ℤ) (s : Storage) (j : String)
    → Unique s.entries
    → now ≤ℤ t
    → view t (cleanup_tick now s) j ≡ view t s j
unfolding cleanup_tick view
cleanup_tick-view now t s j u le =
    ground (arith, lookup-delete_if (λ e. after now e.expires_at) j s.entries u)

-- The ticks of a run of the goroutine come no later than `t`.
abbrev pub TicksBy : ℤ → List Signal → Type 0
TicksBy t [] = Unit
TicksBy t (stop ∷ signals) = TicksBy t signals
TicksBy t (tick now ∷ signals) = (now ≤ℤ t) × TicksBy t signals

-- The cleanup goroutine is not seen: whatever it has received by time `t`, each code stands for the
-- URL that it would stand for without it.
pub cleanup_expired-view :
    (signals : List Signal) (t : ℤ) (s : Storage) (j : String)
    → Unique s.entries
    → TicksBy t signals
    → view t (cleanup_expired signals s) j ≡ view t s j
unfolding cleanup_expired
cleanup_expired-view [] t s j u b = refl
cleanup_expired-view (stop ∷ signals) t s j u b = refl
cleanup_expired-view (tick now ∷ signals) t s j u b =
    let kept : Unique (cleanup_tick now s).entries =
      unfold cleanup_tick in delete_if-Unique (λ e. after now e.expires_at) s.entries u in
    cc (
      cleanup_expired-view signals t (cleanup_tick now s) j kept b.1,
      cleanup_tick-view now t s j u b.0,
    )
