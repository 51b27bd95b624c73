-- ===== src/Limiter.antt =====
-- handlers/security.go: the fixed-window rate limiter. A request is its scope, the address of its client
-- and its time; the middleware's lock makes its work on the table one step. Gin's `ClientIP` is the
-- argument `client_ip`, and the order of Go's second `range` over the table is the argument `visited`.
pub mod Window
pub mod Bound
use Prim.Native.String.{◌++◌ as append}
use goshorty.Prelude.{
  ℕ, zero, suc, String, Bool, Option, none, some, List, [], ◌∷◌, leb, ltb, length, if◌then◌else◌,
}
use goshorty.Prelude.Int.{ℤ, pos, ◌-ℤ◌, ltb_ℤ, leb_ℤ}
use goshorty.Go.Map.{Map, lookup, insert, delete, delete_if}
use goshorty.Token.{whole_seconds}

pub record RateWindow : Type 0 where
  pub start : ℤ
  pub count : ℕ

-- What the middleware puts into the headers, and whether it answers 429 itself.
pub record Decision : Type 0 where
  pub exceeded : Bool
  pub remaining : ℤ
  pub retry_after : ℤ

abbrev pub max_entries : ℕ
max_entries = 10000

-- `now.Sub(w.start) >= window`
abbrev pub is_over : ℤ → ℤ → RateWindow → Bool
is_over window now w = leb_ℤ window (now -ℤ w.start)

-- The window of a key, or a new one, with this request counted.
abbrev pub counted : ℤ → ℤ → Option RateWindow → RateWindow
counted window now none = record { start = now; count = 1 }
counted window now (some w) =
    if is_over window now w
    then record { start = now; count = 1 }
    else record { start = w.start; count = suc w.count }

-- The second loop of the cleanup, over the keys as it visits them.
unfoldable pub evict : List String → Map RateWindow → Map RateWindow
evict [] entries = entries
evict (key ∷ keys) entries =
    let rest = evict keys (delete key entries) in
    if leb (length entries) max_entries then entries else rest

unfoldable pub clean_up : (Map RateWindow → List String) → ℤ → ℤ → Map RateWindow → Map RateWindow
unfolding evict
clean_up visited window now entries =
    let live = delete_if (is_over window now) entries in
    if ltb max_entries (length entries) then evict (visited live) live else entries

abbrev pub at_least : ℤ → ℤ → ℤ
at_least low z = if ltb_ℤ z low then low else z

-- (The code takes the difference of two float64 numbers of seconds, which may round differently by a
-- second where the exact difference is within rounding of a whole second.)
abbrev pub decide : ℤ → ℤ → ℤ → RateWindow → Decision
decide limit window now entry = record {
  exceeded = ltb_ℤ limit (pos entry.count);
  remaining = at_least (pos 0) (limit -ℤ pos entry.count);
  retry_after = at_least (pos 1) (whole_seconds (window -ℤ (now -ℤ entry.start)));
}

abbrev pub key_of : String → String → String
key_of key_scope client_ip = append key_scope (append ":" client_ip)

-- `Limit`, from taking the lock to releasing it.
unfoldable pub limit_request :
    (Map RateWindow → List String) → ℤ → ℤ → ℤ → String → Map RateWindow → Decision × Map RateWindow
unfolding clean_up
limit_request visited limit window now key entries =
    let entry = counted window now (lookup key entries) in
    (decide limit window now entry, clean_up visited window now (insert key entry entries))

-- The middleware of a route, for the key of its scope and client.
abbrev pub limit_route :
    (Map RateWindow → List String)
    → String
    → ℤ
    → ℤ
    → ℤ
    → String
    → Map RateWindow
    → Decision × Map RateWindow
limit_route visited key_scope limit window now client_ip =
    limit_request visited limit window now (key_of key_scope client_ip)
