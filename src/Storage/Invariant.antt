-- ===== src/Storage/Invariant.antt =====
-- The invariant of the in-memory store (storage/storage.go), over every step that the program makes.
use goshorty.Prelude.{String, ◌≡◌, refl, arith, All, All-keep_if, not, Option-cases, inl, inr}
use goshorty.Prelude.Int.{ℤ}
use goshorty.Go.Map.{
  Unique, lookup, insert, insert-Unique, delete-Unique, delete_if-Unique, delete_if, All-delete,
  lookup-All,
}
use goshorty.Models.{UrlData}
use goshorty.Storage.{
  Storage, StorageEntry, after, new_storage, set_if_absent, delete_key, get_and_increment,
  cleanup_tick, bump_visits,
}

-- The entry is filed under its short code, with the data's own expiry.
abbrev pub IsFiled : String × StorageEntry → Type 0
IsFiled (key, e) = (e.url_data.short_code ≡ key) × (e.expires_at ≡ e.url_data.expires_at)

pub record Inv (s : Storage) : Type 0 where
  pub unique : Unique s.entries
  pub filed : All IsFiled s.entries

-- One step of the store: a method of some request, or a tick of the cleanup. `SetIfAbsent` is called
-- with the code of its data.
pub data Step (s : Storage) : Storage → Type 0 where
  sets : (now : ℤ) (u : UrlData) → Step s (set_if_absent now u.short_code u s).1
  deletes : (code : String) → Step s (delete_key code s).1
  visits : (now : ℤ) (code : String) → Step s (get_and_increment now code s).1
  cleans : (now : ℤ) → Step s (cleanup_tick now s)

pub data Reach : Storage → Type 0 where
  start : Reach new_storage
  next : {s s' : Storage} → Reach s → Step s s' → Reach s'

insert-Inv :
    (code : String) (e : StorageEntry) (s : Storage)
    → IsFiled (code, e)
    → Inv s
    → Inv (record s { entries = insert code e s.entries })
insert-Inv code e s f v = record {
  unique = insert-Unique code e s.entries v.unique;
  filed = unfold insert in (f, All-delete IsFiled code s.entries v.filed);
}

set_if_absent-Inv :
    (now : ℤ) (u : UrlData) (s : Storage) → Inv s → Inv (set_if_absent now u.short_code u s).1
unfolding set_if_absent
set_if_absent-Inv now u s v = ground (
  arith,
  insert-Inv u.short_code (record { url_data = u; expires_at = u.expires_at }) s (refl, refl) v,
)

delete_key-Inv : (code : String) (s : Storage) → Inv s → Inv (delete_key code s).1
unfolding delete_key
delete_key-Inv code s v =
    ground (arith, delete-Unique code s.entries v.unique, All-delete IsFiled code s.entries v.filed)

get_and_increment-Inv :
    (now : ℤ) (code : String) (s : Storage) → Inv s → Inv (get_and_increment now code s).1
unfolding get_and_increment
get_and_increment-Inv now code s v = elim (Option-cases (lookup code s.entries)) [
  | inl e ↦ rw (e, get_and_increment) v
  | inr (entry, e) ↦
      let filed = lookup-All IsFiled code s.entries v.filed e in
      let entry' : StorageEntry = record entry { url_data = bump_visits entry.url_data } in
      rw (e, get_and_increment) (ground (arith, insert-Inv code entry' s filed v))
]

cleanup_tick-Inv : (now : ℤ) (s : Storage) → Inv s → Inv (cleanup_tick now s)
unfolding cleanup_tick delete_if
cleanup_tick-Inv now s v = record {
  unique = delete_if-Unique (λ e. after now e.expires_at) s.entries v.unique;
  filed = All-keep_if IsFiled (λ (_, e). not (after now e.expires_at)) s.entries v.filed;
}

pub Step-Inv : {s s' : Storage} → Step s s' → Inv s → Inv s'
Step-Inv {s} (sets now u) v = set_if_absent-Inv now u s v
Step-Inv {s} (deletes code) v = delete_key-Inv code s v
Step-Inv {s} (visits now code) v = get_and_increment-Inv now code s v
Step-Inv {s} (cleans now) v = cleanup_tick-Inv now s v

-- In every state that the store can reach, a code has one entry at most, filed under the short code
-- of its data and expiring with it.
pub Reach-Inv : {s : Storage} → Reach s → Inv s
unfolding new_storage
Reach-Inv start = record { unique = tt; filed = tt }
Reach-Inv (next r st) = Step-Inv st (Reach-Inv r)
