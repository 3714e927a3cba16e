-- ===== src/RateLimit/Tests.antt =====
-- Runs of the rate limiter, and the theorems at inputs that meet their hypotheses.
use dev_search.Prelude.{ℕ, ◌≡◌, refl, none, some, List, [], ◌∷◌, arith, ◌<◌, true}
use dev_search.RateLimit.{rate_limit_script, reserve_domain_access}
use dev_search.RateLimit.Spacing.{grants, SpacedFrom, grants-Spaced}
use dev_search.RateLimit.Retry.{
  second_access_waits, retry_waits, AllPositive, retry_waits-AllPositive,
}

abbrev three_calls : List (ℕ × ℕ)
three_calls = (1000, 50) ∷ (1010, 50) ∷ (990, 50) ∷ []

three_grants : grants none three_calls ≡ (1000, 50) ∷ (1050, 50) ∷ (1100, 50) ∷ []
unfolding grants rate_limit_script
three_grants = refl

grants-Spaced_example : SpacedFrom 0 (grants none three_calls)
grants-Spaced_example = grants-Spaced three_calls

always_denied : retry_waits (some 1050) 1010 50 (0 ∷ 20 ∷ []) ≡ 40 ∷ 50 ∷ 30 ∷ []
unfolding retry_waits rate_limit_script
always_denied = refl

retry_waits-AllPositive_example : AllPositive (retry_waits (some 1050) 1010 50 (0 ∷ 20 ∷ []))
retry_waits-AllPositive_example =
    retry_waits-AllPositive 1050 1010 50 (0 ∷ 20 ∷ []) (omega arith) (omega arith)

second_access_waits_example :
    (wait : ℕ) × ((reserve_domain_access
        (λ d. d)
        true
        (reserve_domain_access (λ d. d) true none 1000 5).1
        2000
        5).0
      ≡ some wait)
    × (0 < wait)
second_access_waits_example = second_access_waits (λ d. d) 1000 2000 5 (λ d. refl) (omega arith)
