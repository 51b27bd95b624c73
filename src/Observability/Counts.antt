-- ===== src/Observability/Counts.antt =====
-- What the metrics of observability.go count.
use goshorty.Prelude.{
  ℕ, suc, ◌+◌, ◌%◌, ◌^◌, String, ◌≡◌, true, false, List, [], ◌∷◌, arith, str_eq_iff, str_eq_refl,
  if◌then◌else◌, ap, subst,
}
use goshorty.Models.{add64}
use goshorty.Observability.{
  MetricKey, RequestMetric, HttpMetrics, same_key, metric_at, set_metric, observe, route_label,
}

-- A request as `Observe` is told of it.
pub record Observation : Type 0 where
  pub method : String
  pub route : String
  pub status : ℕ
  pub duration : ℕ

abbrev pub observed_key : Observation → MetricKey
observed_key o = record { method = o.method; route = route_label o.route; status = o.status }

unfoldable pub observe_all : List Observation → HttpMetrics → HttpMetrics
observe_all [] m = m
observe_all (o ∷ os) m = observe_all os (observe o.method o.route o.status o.duration m)

-- How many of the requests have the key.
abbrev pub occurrences : MetricKey → List Observation → ℕ
occurrences key [] = 0
occurrences key (o ∷ os) =
    let rest = occurrences key os in if same_key (observed_key o) key then suc rest else rest

abbrev pub total_duration : MetricKey → List Observation → ℕ
total_duration key [] = 0
total_duration key (o ∷ os) =
    let rest = total_duration key os in
    if same_key (observed_key o) key then o.duration + rest else rest

same_key_refl : (k : MetricKey) → same_key k k ≡ true
same_key_refl k = ground (arith, str_eq_refl k.method, str_eq_refl k.route)

same_key→eq : (a b : MetricKey) → same_key a b ≡ true → a ≡ b
same_key→eq a b h = ground (arith, str_eq_iff a.method b.method, str_eq_iff a.route b.route)

same_key-cong : (i k j : MetricKey) → same_key i k ≡ true → same_key i j ≡ same_key k j
same_key-cong i k j h = ap (λ (a : MetricKey). same_key a j) (same_key→eq i k h)

both_keys :
    (i k j : MetricKey) → same_key i k ≡ false → same_key i j ≡ true → same_key k j ≡ true → ⊥
both_keys i k j miss hi hk =
    let other : same_key i j ≡ false =
      subst (λ (a : MetricKey). same_key i a ≡ false) (same_key→eq k j hk) miss in
    ground arith

metric_at-set :
    (k j : MetricKey) (v : RequestMetric) (m : List (MetricKey × RequestMetric))
    → metric_at j (set_metric k v m) ≡ (if same_key k j then v else metric_at j m)
unfolding metric_at set_metric
metric_at-set k j v [] = ground arith
metric_at-set k j v ((i, w) ∷ m) =
    let both = both_keys i k j in ground (arith, metric_at-set k j v m, same_key-cong i k j, both)

metric_at-observe :
    (key : MetricKey) (o : Observation) (m : HttpMetrics)
    → metric_at key (observe o.method o.route o.status o.duration m).requests ≡ (
        if same_key (observed_key o) key
        then record {
          count = add64 (metric_at key m.requests).count 1;
          duration_nanos = add64 (metric_at key m.requests).duration_nanos o.duration;
        }
        else metric_at key m.requests)
unfolding observe
metric_at-observe key o m =
    let value = metric_at (observed_key o) m.requests in
    let set =
      metric_at-set (observed_key o) key
        (record {
          count = add64 value.count 1;
          duration_nanos = add64 value.duration_nanos o.duration;
        })
        m.requests in
    let at_key : same_key (observed_key o) key ≡ true → value ≡ metric_at key m.requests =
      λ h. ap (λ (k : MetricKey). metric_at k m.requests) (same_key→eq (observed_key o) key h) in
    ground (arith, set, at_key)

-- After any requests, each key (method, route template, status) counts the requests that had it, and
-- sums their durations, both modulo 2^64; unmatched routes share one label.
pub observe_all-counts :
    (key : MetricKey) (os : List Observation) (m : HttpMetrics)
    → let before = metric_at key m.requests in
      let after = metric_at key (observe_all os m).requests in
      (after.count % 2 ^ 64 ≡ (before.count + occurrences key os) % 2 ^ 64)
      × (after.duration_nanos % 2 ^ 64 ≡ (before.duration_nanos + total_duration key os) % 2 ^ 64)
unfolding observe_all add64
observe_all-counts key [] m = (ground arith, ground arith)
observe_all-counts key (o ∷ os) m =
    let first = metric_at-observe key o m in
    let (count, duration) =
      observe_all-counts key os (observe o.method o.route o.status o.duration m) in
    (ground (arith, first, count), ground (arith, first, duration))
