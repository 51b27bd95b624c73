-- ===== src/Limiter/Window.antt =====
-- How many requests of one client a route lets through in one window (handlers/security.go).
use goshorty.Prelude.{
  ℕ, suc, ◌+◌, ◌-◌, ◌≤◌, ◌≡◌, true, false, not, ◌&&◌, String, Option, none, some, List, [], ◌∷◌,
  All, arith, min, length, str_eq, str_eq_iff, str_eq_refl, if◌then◌else◌, Bool-cases, inl, inr,
  refl,
}
use goshorty.Prelude.Int.{ℤ, pos, ◌-ℤ◌, leb_ℤ}
use goshorty.Go.Map.{Map, lookup, insert, delete, lookup-insert}
use goshorty.Limiter.{RateWindow, max_entries, is_over, counted, clean_up, limit_request, decide}

-- How many of the requests are the client's.
abbrev pub asked : String → List (ℤ × String) → ℕ
asked key [] = 0
asked key ((_, k) ∷ requests) =
    if str_eq k key then suc (asked key requests) else asked key requests

module _ (visited : Map RateWindow → List String) (limit window : ℤ) where
  -- How many requests under `key` the route lets through, among the requests of all its clients.
  unfoldable pub admitted : String → List (ℤ × String) → Map RateWindow → ℕ
  admitted key [] entries = 0
  admitted key ((now, k) ∷ requests) entries =
      let (decision, entries') = limit_request visited limit window now k entries in
      let rest = admitted key requests entries' in
      if str_eq k key && not decision.exceeded then suc rest else rest

length-delete : (k : String) (m : Map RateWindow) → length (delete k m) ≤ length m
unfolding delete
length-delete k [] = omega arith
length-delete k ((j, w) ∷ m) = ground (arith, length-delete k m)

module _ (visited : Map RateWindow → List String) (limit : ℕ) (window : ℤ) (key : String) where
  -- The requests come before the window that starts at `start` is over.
  abbrev pub Within : ℤ → List (ℤ × String) → Type 0
  Within start = All (λ (now, _). leb_ℤ window (now -ℤ start) ≡ false)

  small-table :
      (now : ℤ) (k : String) (w : RateWindow) (entries : Map RateWindow)
      → suc (length entries) ≤ max_entries
      → clean_up visited window now (insert k w entries) ≡ insert k w entries
  unfolding clean_up insert
  small-table now k w entries small = ground (arith, length-delete k entries)

  length-insert :
      (k : String) (w : RateWindow) (entries : Map RateWindow)
      → length (insert k w entries) ≤ suc (length entries)
  unfolding insert
  length-insert k w entries = omega (arith, length-delete k entries)

  -- A request where the table has room.
  request-small :
      (now : ℤ) (k : String) (entries : Map RateWindow)
      → suc (length entries) ≤ max_entries
      → let w = counted window now (lookup k entries) in
        limit_request visited (pos limit) window now k entries
        ≡ (decide (pos limit) window now w, insert k w entries)
  unfolding limit_request
  request-small now k entries small =
      rw (small-table now k (counted window now (lookup k entries)) entries small) refl

  -- With a window of `key` open.
  admitted-more :
      (requests : List (ℤ × String)) (entries : Map RateWindow) (w : RateWindow)
      → lookup key entries ≡ some w
      → Within w.start requests
      → length entries + length requests ≤ max_entries
      → admitted visited (pos limit) window key requests entries
        ≡ min (asked key requests) (limit - w.count)
  unfolding admitted
  admitted-more [] entries w found within small = omega arith
  admitted-more ((now, k) ∷ requests) entries w found within small =
      let w₁ : RateWindow = counted window now (lookup k entries) in
      let step = request-small now k entries (omega arith) in
      let size = length-insert k w₁ entries in
      elim (Bool-cases (str_eq k key)) [
        | inl mine ↦
            let same : k ≡ key = (str_eq_iff k key).0 mine in
            let w' : RateWindow = record { start = w.start; count = suc w.count } in
            let grown : w₁ ≡ w' = rw (same, found, within.0) refl in
            let rest =
              admitted-more requests (insert k w' entries) w'
                (rw (lookup-insert k key w' entries, mine) refl) within.1
                (omega (arith, length-insert k w' entries)) in
            rw (step, grown) (ground (arith, rest, mine))
        | inr other ↦
            let rest =
              admitted-more requests (insert k w₁ entries) w
                (rw (lookup-insert k key w₁ entries, other) found) within.1 (omega (arith, size)) in
            rw step (ground (arith, rest, other))
      ]

  -- A request at `now` opens a new window.
  abbrev pub IsOpening : ℤ → Option RateWindow → Type 0
  IsOpening now none = Unit
  IsOpening now (some w) = is_over window now w ≡ true

  opened :
      (now : ℤ) (o : Option RateWindow)
      → IsOpening now o
      → counted window now o ≡ record { start = now; count = 1 }
  opened now none h = refl
  opened now (some w) h = rw h refl

  -- From the request that opens a client's window on, of all its requests before the window is over the
  -- route lets through the first `limit`, whatever other clients ask in between, as long as the table
  -- has room for every request.
  pub admitted-min :
      (now : ℤ) (requests : List (ℤ × String)) (entries : Map RateWindow)
      → IsOpening now (lookup key entries)
      → Within now requests
      → suc (length entries + length requests) ≤ max_entries
      → admitted visited (pos limit) window key ((now, key) ∷ requests) entries
        ≡ min (suc (asked key requests)) limit
  unfolding admitted
  admitted-min now requests entries fresh within small =
      let w : RateWindow = record { start = now; count = 1 } in
      let rest =
        admitted-more requests (insert key w entries) w
          (rw (lookup-insert key key w entries, str_eq_refl key) refl) within
          (omega (arith, length-insert key w entries)) in
      rw (request-small now key entries (omega arith), opened now (lookup key entries) fresh)
        (ground (arith, rest, str_eq_refl key))
