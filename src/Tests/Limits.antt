-- ===== src/Tests/Limits.antt =====
-- Examples of the rate limiter's theorems.
use goshorty.Prelude.{
  ℕ, ◌≤◌, String, ◌≡◌, refl, List, [], ◌∷◌, map, length, arith, All, All-imp, true, str_eq_refl,
}
use goshorty.Prelude.Int.{ℤ, pos}
use goshorty.Go.Map.{Map}
use goshorty.Limiter.{RateWindow, max_entries, limit_request, key_of}
use goshorty.Limiter.Bound.{contains, Visits, limit_request-bound}
use goshorty.Limiter.Window.{admitted, admitted-min}

-- The keys in the order of the list.
abbrev in_order : Map RateWindow → List String
in_order [] = []
in_order ((k, w) ∷ m) = k ∷ in_order m

in_order-Visits : (m : Map RateWindow) → Visits (in_order m) m
in_order-Visits [] = tt
in_order-Visits ((k, w) ∷ m) = (
  rw (str_eq_refl k) refl,
  All-imp (λ (j, _). contains (in_order m) j ≡ true) (λ (j, _). contains (k ∷ in_order m) j ≡ true)
      (λ (j, _) h. ground (arith, h)) m (in_order-Visits m),
)

abbrev login : String
login = key_of "login" "10.0.0.1"

abbrev burst : List (ℤ × String)
burst = (pos 2, login) ∷ (pos 3, "login:10.0.0.2") ∷ (pos 3, login) ∷ (pos 4, login) ∷ []

limit_request-bound_example :
    length (limit_request in_order (pos 2) (pos 60) (pos 1) login []).1 ≤ max_entries
limit_request-bound_example =
    limit_request-bound in_order in_order-Visits (pos 2) (pos 60) (pos 1) login []

admitted-min_example : admitted in_order (pos 2) (pos 60) login ((pos 1, login) ∷ burst) [] ≡ 2
unfolding goshorty.Go.Map.lookup goshorty.Prelude.Int.◌-ℤ◌
admitted-min_example =
    admitted-min in_order 2 (pos 60) login (pos 1) burst [] tt (refl, (refl, (refl, (refl, tt))))
      (omega arith)
