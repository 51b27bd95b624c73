-- ===== src/Tests/Observability.antt =====
-- Examples of the theorems on the middleware and the metrics.
use goshorty.Prelude.{
  ℕ, zero, suc, ◌%◌, ◌^◌, String, ◌≡◌, some, none, [], ◌∷◌, arith, All, suc, ◌<◌,
}
use goshorty.Go.Map.{lookup}
use goshorty.Middleware.{cors_middleware}
use goshorty.Middleware.Cors.{cors_middleware_lem}
use goshorty.Observability.{MetricKey, new_http_metrics, metric_at, request_id_for}
use goshorty.Observability.Counts.{Observation, observe_all, observe_all-counts}
use goshorty.Tests.Tokens.{zeros}

abbrev visit : Observation
visit = record { method = "GET"; route = "/r/:code"; status = 302; duration = 5 }

abbrev miss : Observation
miss = record { method = "GET"; route = ""; status = 404; duration = 7 }

abbrev visits : MetricKey
visits = record { method = "GET"; route = "/r/:code"; status = 302 }

observe_all-counts_example :
    let after =
      metric_at visits (observe_all (visit ∷ miss ∷ visit ∷ []) new_http_metrics).requests in
    (after.count % 2 ^ 64 ≡ 2) × (after.duration_nanos % 2 ^ 64 ≡ 10)
unfolding metric_at new_http_metrics
observe_all-counts_example = observe_all-counts visits (visit ∷ miss ∷ visit ∷ []) new_http_metrics

zeros-Small : (n : ℕ) → All (λ b. b < 256) (zeros n)
zeros-Small zero = tt
zeros-Small (suc n) = (omega arith, zeros-Small n)

abbrev given_id : String
given_id = request_id_for "short" (some (zeros 16)) "t"

abbrev secret_token : String
secret_token = "token"

abbrev sent : String
sent = "Bearer token"

cors_middleware_lem_example :
    let answer = cors_middleware ("https://a.example/" ∷ []) "GET" "https://a.example" in
    (lookup "Access-Control-Allow-Origin" answer.headers ≡ some "https://a.example")
    × (answer.aborted ≡ none)
unfolding goshorty.Config.Env.trim_right
cors_middleware_lem_example =
    cors_middleware_lem ("https://a.example/" ∷ []) "GET" "https://a.example"
