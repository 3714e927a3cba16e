-- ===== src/RateLimit/Retry.antt =====
-- A denied call reserves a time too, so a caller that comes back at its time is denied again.
use dev_search.Prelude.{
  ℕ, true, refl, max, ◌*◌, ◌+◌, ◌<◌, ◌≡◌, Option, none, some, List, [], ◌∷◌, arith,
}
use dev_search.RateLimit.{rate_limit_script, reserve_domain_access, millisecond, min_delay}
use dev_search.RateLimit.Spacing.{script_stores, script_waits}

-- One job calls the script; when it is told to wait it calls again after the wait and some lateness. The
-- waits that it is told.
unfoldable pub retry_waits : Option ℕ → ℕ → ℕ → List ℕ → List ℕ
retry_waits stored now delay [] = (rate_limit_script stored now delay).0 ∷ []
retry_waits stored now delay (late ∷ lates) =
    let (wait, next) = rate_limit_script stored now delay in
    wait ∷ retry_waits (some next) (now + wait + late) delay lates

abbrev pub AllPositive : List ℕ → Type 0
AllPositive [] = Unit {0}
AllPositive (w ∷ ws) = (0 < w) × AllPositive ws

abbrev pub AllBelow : ℕ → List ℕ → Type 0
AllBelow n [] = Unit {0}
AllBelow n (x ∷ xs) = (x < n) × AllBelow n xs

-- A job that is denied once, and comes back each time less than one delay after the time it was given, is
-- denied every time, although it is the only one that asks.
pub retry_waits-AllPositive :
    (next now delay : ℕ) (lates : List ℕ)
    → now < next
    → AllBelow delay lates
    → AllPositive (retry_waits (some next) now delay lates)
unfolding retry_waits
retry_waits-AllPositive next now delay [] h b = (omega (arith, script_waits next now delay), tt)
retry_waits-AllPositive next now delay (late ∷ lates) h b =
    let (wait, after) = rate_limit_script (some next) now delay in
    (
      omega (arith, script_waits next now delay),
      retry_waits-AllPositive after (now + wait + late) delay lates
          (omega (arith, script_stores (some next) now delay)) b.1,
    )

-- With a client that writes a duration as its number of nanoseconds, a second access to a domain is told to
-- wait when it comes less than 5,000,000,000 milliseconds after the first, however short the crawl delay.
pub second_access_waits :
    (duration_arg : ℕ → ℕ) (now later crawl_delay : ℕ)
    → ((d : ℕ) → duration_arg d ≡ d)
    → later < now + 5_000_000_000
    → (wait : ℕ) × ((reserve_domain_access duration_arg true
          (reserve_domain_access duration_arg true none now crawl_delay).1
          later
          crawl_delay).0
        ≡ some wait)
      × (0 < wait)
unfolding reserve_domain_access
second_access_waits duration_arg now later crawl_delay nanoseconds soon =
    let delay = duration_arg (max crawl_delay min_delay) in
    let next = (rate_limit_script none now delay).1 in
    (
      (rate_limit_script (some next) later delay).0 * millisecond,
      refl,
      omega (
        arith,
        nanoseconds (max crawl_delay min_delay),
        script_stores none now delay,
        script_waits next later delay,
      ),
    )
