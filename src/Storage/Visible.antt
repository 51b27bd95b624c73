-- ===== src/Storage/Visible.antt =====
-- What the listings of storage/storage.go show, against what stands under the codes.
use goshorty.Prelude.{
  ◌≡◌, ◌||◌, true, false, String, [], ◌∷◌, some, arith, All, All-zip, any, str_eq, str_eq_iff,
  All-imp, Option-cases, Bool-cases, inl, inr, ◌∙◌,
}
use goshorty.Prelude.Int.{ℤ}
use goshorty.Go.Map.{Map, Unique, Absent, lookup}
use goshorty.Go.Sort.{All-slice_stable}
use goshorty.Go.Sort.Filtered.{any-slice_stable}
use goshorty.Models.{UrlData, newer_than, role_admin}
use goshorty.Storage.{Storage, StorageEntry, after, collect_visible}
use goshorty.Storage.Invariant.{Inv, IsFiled}
use goshorty.Storage.View.{view}
use goshorty.Storage.Listing.{visible_urls}

module _ (now : ℤ) (user_id role : String) where
  abbrev entry_of : UrlData → StorageEntry
  entry_of u = record { url_data = u; expires_at = u.expires_at }

  abbrev IsShown : Map StorageEntry → UrlData → Type 0
  IsShown m u =
      (lookup u.short_code m ≡ some (entry_of u))
      × (after now u.expires_at ≡ false)
      × ((str_eq role role_admin || str_eq u.created_by user_id) ≡ true)

  abbrev Elsewhere : String → UrlData → Type 0
  Elsewhere key u = str_eq key u.short_code ≡ false

  collect_visible-Elsewhere :
      (key : String) (m : Map StorageEntry)
      → Absent key m
      → All IsFiled m
      → All (Elsewhere key) (collect_visible now user_id role m)
  unfolding collect_visible
  collect_visible-Elsewhere key [] a f = tt
  collect_visible-Elsewhere key ((k, e) ∷ m) a f = ground (
    arith,
    collect_visible-Elsewhere key m a.1 f.1,
    f.0.0,
    str_eq_iff k key,
    str_eq_iff key e.url_data.short_code,
  )

  collect_visible-IsShown :
      (m : Map StorageEntry)
      → Unique m
      → All IsFiled m
      → All (IsShown m) (collect_visible now user_id role m)
  unfolding collect_visible lookup
  collect_visible-IsShown [] u f = tt
  collect_visible-IsShown ((k, e) ∷ m) u f =
      let rest =
        All-zip (IsShown m) (Elsewhere k) (IsShown ((k, e) ∷ m))
          (λ x shown other. ground (arith, shown, other)) (collect_visible now user_id role m)
          (collect_visible-IsShown m u.1 f.1) (collect_visible-Elsewhere k m u.0 f.1) in
      ground (arith, rest, f.0, str_eq_iff k e.url_data.short_code)

  collect_visible-any :
      (code : String) (m : Map StorageEntry) (e : StorageEntry)
      → All IsFiled m
      → lookup code m ≡ some e
      → after now e.expires_at ≡ false
      → (str_eq role role_admin || str_eq e.url_data.created_by user_id) ≡ true
      → any (λ v. str_eq v.short_code code) (collect_visible now user_id role m) ≡ true
  unfolding collect_visible lookup
  collect_visible-any code [] e f found alive may = absurd (ground arith)
  collect_visible-any code ((k, e') ∷ m) e f found alive may = elim (Bool-cases (str_eq k code)) [
    | inr other ↦ ground (arith, other, collect_visible-any code m e f.1)
    | inl here ↦
        let same : e' ≡ e = ground (arith, here, found) in
        let due : after now e'.expires_at ≡ false = rw same alive in
        let allowed : (str_eq role role_admin || str_eq e'.url_data.created_by user_id) ≡ true =
          rw same may in
        let named : str_eq e'.url_data.short_code code ≡ true = rw f.0.0 here in
        ground (arith, due, allowed, named)
  ]

  view-entry :
      (code : String) (u : UrlData) (s : Storage)
      → view now s code ≡ some u
      → (e : StorageEntry) × (lookup code s.entries ≡ some e)
        × (after now e.expires_at ≡ false)
        × (e.url_data ≡ u)
  unfolding view
  view-entry code u s h = elim (Option-cases (lookup code s.entries)) [
    | inl missing ↦ absurd (ground (arith, missing))
    | inr (e, found) ↦ (e, found, ground (arith, found), ground (arith, found))
  ]

  pub visible_urls-shown :
      (s : Storage)
      → Inv s
      → All
          (λ u.
            (view now s u.short_code ≡ some u)
            × ((str_eq role role_admin || str_eq u.created_by user_id) ≡ true))
          (visible_urls now user_id role s)
  unfolding visible_urls view
  visible_urls-shown s v =
      let P : UrlData → Type 0 = λ u.
        (view now s u.short_code ≡ some u)
        × ((str_eq role role_admin || str_eq u.created_by user_id) ≡ true) in
      All-slice_stable P newer_than (collect_visible now user_id role s.entries) (
        All-imp (IsShown s.entries) P (λ u h. (ground (arith, h), h.2))
          (collect_visible now user_id role s.entries)
          (collect_visible-IsShown s.entries v.unique v.filed))

  pub visible_urls_complete :
      (s : Storage)
      → Inv s
      → (u : UrlData) → view now s u.short_code ≡ some u
      → (str_eq role role_admin || str_eq u.created_by user_id) ≡ true
      → any (λ v. str_eq v.short_code u.short_code) (visible_urls now user_id role s) ≡ true
  unfolding visible_urls
  visible_urls_complete s v u h may =
      let (e, found, alive, same) = view-entry u.short_code u s h in
      any-slice_stable newer_than (λ v. str_eq v.short_code u.short_code)
        (collect_visible now user_id role s.entries)
      ∙ collect_visible-any u.short_code s.entries e v.filed found alive (rw same may)
