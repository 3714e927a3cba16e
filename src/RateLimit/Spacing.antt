-- ===== src/RateLimit/Spacing.antt =====
-- The times that the script hands out for one domain are as far apart as the delays ask.
use dev_search.Prelude.{ℕ, ◌+◌, ◌≤◌, ◌≡◌, Option, none, some, List, [], ◌∷◌, arith}
use dev_search.RateLimit.{rate_limit_script}

pub script_stores :
    (stored : Option ℕ) (now delay : ℕ)
    → (rate_limit_script stored now delay).1 ≡ now + (rate_limit_script stored now delay).0 + delay
unfolding rate_limit_script
script_stores stored now delay = ground arith

pub script_waits : (next now delay : ℕ) → next ≤ now + (rate_limit_script (some next) now delay).0
unfolding rate_limit_script
script_waits next now delay = ground arith

-- Runs of the script, one after the other, each at its time and with its delay: the time handed out,
-- which is the time of the call and the wait, with the delay.
unfoldable pub grants : Option ℕ → List (ℕ × ℕ) → List (ℕ × ℕ)
grants stored [] = []
grants stored ((now, delay) ∷ calls) =
    let (wait, next) = rate_limit_script stored now delay in
    (now + wait, delay) ∷ grants (some next) calls

-- Each time is at least the one before and the delay asked for there.
abbrev pub SpacedFrom : ℕ → List (ℕ × ℕ) → Type 0
SpacedFrom earliest [] = Unit {0}
SpacedFrom earliest ((t, delay) ∷ rest) = (earliest ≤ t) × SpacedFrom (t + delay) rest

grants-SpacedFrom : (next : ℕ) (calls : List (ℕ × ℕ)) → SpacedFrom next (grants (some next) calls)
unfolding grants
grants-SpacedFrom next [] = tt
grants-SpacedFrom next ((now, delay) ∷ calls) = (
  script_waits next now delay,
  rw (← script_stores (some next) now delay)
      (grants-SpacedFrom (rate_limit_script (some next) now delay).1 calls),
)

-- Whatever the times of the calls, even if the clocks of the callers disagree, the times handed out by the
-- script for a domain follow one another by at least the delay of the earlier call.
pub grants-Spaced : (calls : List (ℕ × ℕ)) → SpacedFrom 0 (grants none calls)
unfolding grants
grants-Spaced [] = tt
grants-Spaced ((now, delay) ∷ calls) = (
  omega arith,
  rw (← script_stores none now delay)
      (grants-SpacedFrom (rate_limit_script none now delay).1 calls),
)
