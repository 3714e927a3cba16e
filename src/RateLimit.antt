-- ===== src/RateLimit.antt =====
-- internal/scraper/scripts/rateLimter.go and `reserveDomainAccess` of
-- internal/scraper/crawler/processes.go: the access times of a domain.
-- The script runs alone on the server and touches one key, so its state is the value of that key: `none`
-- when the key is missing. Times are milliseconds, durations nanoseconds. How the Redis client writes a
-- duration into an argument is the parameter `duration_arg`.
mod Spacing
mod Retry
mod Tests
use dev_search.Prelude.{
  ℕ, ◌+◌, ◌-◌, ◌*◌, max, Bool, Option, none, some, List, [], ◌∷◌, ltb, if◌then◌else◌,
}
use dev_search.Scoring.{second}

-- The Lua script: the wait that it returns, and the value that it stores.
unfoldable pub rate_limit_script : Option ℕ → ℕ → ℕ → ℕ × ℕ
rate_limit_script stored now delay =
    let next_allowed : ℕ = elim stored [ none ↦ now | some n ↦ n ] in
    let next = if ltb next_allowed now then now else next_allowed in (next - now, next + delay)

abbrev pub millisecond : ℕ
millisecond = 1_000_000

-- `max(meta.CrawlDelay, 5*time.Second)`
abbrev pub min_delay : ℕ
min_delay = 5 * second

-- The wait as a duration and the value stored; `none` is an error of the call, after which the value is
-- taken to be the old one.
unfoldable pub reserve_domain_access : (ℕ → ℕ) → Bool → Option ℕ → ℕ → ℕ → Option ℕ × Option ℕ
reserve_domain_access duration_arg answers stored now crawl_delay =
    let (wait, next) = rate_limit_script stored now (duration_arg (max crawl_delay min_delay)) in
    if answers then (some (wait * millisecond), some next) else (none, stored)
