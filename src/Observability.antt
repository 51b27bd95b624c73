-- ===== src/Observability.antt =====
-- observability.go: the request metrics, the request IDs, and the token of the metrics route. Each call
-- of `Observe` is one step, under its lock. A `time.Duration` is the 64-bit pattern of its nanoseconds.
pub mod Counts
pub mod Ids
pub mod Token
use goshorty.Prelude.{
  ℕ, zero, suc, ◌/◌, ◌%◌, String, Bool, true, false, not, ◌&&◌, ◌||◌, ◌==◌, Option, none, some,
  List, [], ◌∷◌, ltb, leb, length, map, str_eq, str_lt, codes, if◌then◌else◌,
}
use Prim.Native.Char.{code}
use goshorty.Models.{add64}
use goshorty.Go.Sort.{slice_stable}

pub record MetricKey : Type 0 where
  pub method : String
  pub route : String
  pub status : ℕ

pub record RequestMetric : Type 0 where
  pub count : ℕ
  pub duration_nanos : ℕ

pub record HttpMetrics : Type 0 where
  pub requests : List (MetricKey × RequestMetric)

unfoldable pub new_http_metrics : HttpMetrics
new_http_metrics = record { requests = [] }

abbrev pub same_key : MetricKey → MetricKey → Bool
same_key a b = str_eq a.method b.method && str_eq a.route b.route && a.status == b.status

-- The zero metric for a key that the map lacks.
unfoldable pub metric_at : MetricKey → List (MetricKey × RequestMetric) → RequestMetric
metric_at key [] = record { count = 0; duration_nanos = 0 }
metric_at key ((k, v) ∷ m) = if same_key k key then v else metric_at key m

unfoldable pub set_metric :
    MetricKey → RequestMetric → List (MetricKey × RequestMetric) → List (MetricKey × RequestMetric)
set_metric key value [] = (key, value) ∷ []
set_metric key value ((k, v) ∷ m) =
    let rest = set_metric key value m in if same_key k key then (k, value) ∷ m else (k, v) ∷ rest

abbrev pub route_label : String → String
route_label route = if str_eq route "" then "unmatched" else route

unfoldable pub observe : String → String → ℕ → ℕ → HttpMetrics → HttpMetrics
unfolding metric_at set_metric
observe method route status duration m =
    let key : MetricKey = record { method = method; route = route_label route; status = status } in
    let value = metric_at key m.requests in
    record {
      requests =
          set_metric key
            (record {
              count = add64 value.count 1;
              duration_nanos = add64 value.duration_nanos duration;
            })
            m.requests;
    }

-- The order of the lines that `Handler` writes: by route, method and status.
abbrev pub key_less : MetricKey × RequestMetric → MetricKey × RequestMetric → Bool
key_less (a, _) (b, _) =
    if not (str_eq a.route b.route)
    then str_lt a.route b.route
    else if not (str_eq a.method b.method)
    then str_lt a.method b.method
    else ltb a.status b.status

-- What `Handler` writes, before it is formatted.
unfoldable pub samples : HttpMetrics → List (MetricKey × RequestMetric)
samples m = slice_stable key_less m.requests

-- `[A-Za-z0-9._-]`
abbrev pub is_request_id_char : ℕ → Bool
is_request_id_char c =
    (leb 65 c && leb c 90)
    || (leb 97 c && leb c 122)
    || (leb 48 c && leb c 57)
    || c == 46
    || c == 95
    || c == 45

abbrev pub all_chars : (ℕ → Bool) → List ℕ → Bool
all_chars p [] = true
all_chars p (c ∷ cs) = p c && all_chars p cs

-- `validRequestID.MatchString`
abbrev pub valid_request_id : String → Bool
valid_request_id id =
    leb 8 (length (codes id))
    && (leb (length (codes id)) 64 && all_chars is_request_id_char (codes id))

-- `hex.EncodeToString`
abbrev hex_digits : String
hex_digits = "0123456789abcdef"

unfoldable pub char_at : String → ℕ → String → String
char_at String.[] index rest = rest
char_at (String.◌∷◌ c s) zero rest = String.◌∷◌ c rest
char_at (String.◌∷◌ c s) (suc index) rest = char_at s index rest

unfoldable pub hex_encode : List ℕ → String
unfolding char_at
hex_encode [] = ""
hex_encode (b ∷ bytes) =
    let rest = hex_encode bytes in char_at hex_digits (b / 16) (char_at hex_digits (b % 16) rest)

-- `rand.Read` fills the 16 bytes, or fails: then the time in base 36 is the ID.
unfoldable pub new_request_id : Option (List ℕ) → String → String
unfolding hex_encode
new_request_id none time_text = time_text
new_request_id (some bytes) time_text = hex_encode bytes

-- The ID of a request with this `X-Request-ID` header.
unfoldable pub request_id_for : String → Option (List ℕ) → String → String
unfolding new_request_id
request_id_for header bytes time_text =
    if not (valid_request_id header) then new_request_id bytes time_text else header

-- `strings.TrimPrefix(s, prefix)`, where `strings.HasPrefix(s, prefix)`.
unfoldable pub after_prefix : String → String → Option String
after_prefix String.[] s = some s
after_prefix (String.◌∷◌ c p) String.[] = none
after_prefix (String.◌∷◌ c p) (String.◌∷◌ d s) =
    let rest = after_prefix p s in if code c == code d then rest else none

-- The test passes, or the request is answered 401.
unfoldable pub metrics_auth : String → String → Bool
unfolding after_prefix
metrics_auth expected_token authorization =
    if str_eq expected_token ""
    then true
    else str_eq (elim (after_prefix "Bearer " authorization) [ none ↦ "" | some t ↦ t ])
        expected_token
