-- ===== src/Limiter/Bound.antt =====
-- The size of the table of handlers/security.go's rate limiter.
use goshorty.Prelude.{
  ◌≤◌, ◌≡◌, Bool, true, false, ◌||◌, String, List, [], ◌∷◌, All, arith, length, str_eq, str_eq_iff,
}
use goshorty.Prelude.Int.{ℤ}
use goshorty.Go.Map.{Map, lookup, insert, delete, delete_if}
use goshorty.Limiter.{RateWindow, max_entries, is_over, counted, evict, clean_up, limit_request}

abbrev pub contains : List String → String → Bool
contains [] k = false
contains (j ∷ ks) k = str_eq j k || contains ks k

-- A loop over these keys meets every entry.
abbrev pub Visits : List String → Map RateWindow → Type 0
Visits keys = All (λ (k, _). contains keys k ≡ true)

delete-Visits :
    (key : String) (keys : List String) (m : Map RateWindow)
    → Visits (key ∷ keys) m
    → Visits keys (delete key m)
unfolding delete
delete-Visits key keys [] v = tt
delete-Visits key keys ((j, w) ∷ m) v =
    ground (arith, delete-Visits key keys m v.1, v.0, str_eq_iff j key, str_eq_iff key j)

evict-bound :
    (keys : List String) (m : Map RateWindow) → Visits keys m → length (evict keys m) ≤ max_entries
unfolding evict
evict-bound [] [] v = omega arith
evict-bound [] ((j, w) ∷ m) v = ground (arith, v.0)
evict-bound (key ∷ keys) m v =
    ground (arith, evict-bound keys (delete key m) (delete-Visits key keys m v))

clean_up-bound :
    (visited : Map RateWindow → List String)
    → ((m : Map RateWindow) → Visits (visited m) m)
    → (window now : ℤ) (entries : Map RateWindow)
    → length (clean_up visited window now entries) ≤ max_entries
unfolding clean_up
clean_up-bound visited all window now entries =
    let live : Map RateWindow = delete_if (is_over window now) entries in
    ground (arith, evict-bound (visited live) live (all live))

-- After every request, the table holds at most 10,000 windows, in whatever order the loop visits them.
pub limit_request-bound :
    (visited : Map RateWindow → List String)
    → ((m : Map RateWindow) → Visits (visited m) m)
    → (limit window now : ℤ) (key : String) (entries : Map RateWindow)
    → length (limit_request visited limit window now key entries).1 ≤ max_entries
unfolding limit_request
limit_request-bound visited all limit window now key entries =
    clean_up-bound visited all window now
      (insert key (counted window now (lookup key entries)) entries)
