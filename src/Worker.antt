-- ===== src/Worker.antt =====
-- internal/scraper/worker/worker.go: what the crawl worker does with the end of a job, and the counters of
-- internal/scraper/stats/stats.go. A text is the list of its code points where it is searched; an `int` has
-- 64 bits.
pub mod Twice
pub mod Report
mod Tests
use Prim.Native.String.{String}
use dev_search.Prelude.{
  ℕ, zero, suc, ◌+◌, ◌-◌, ◌*◌, ◌%◌, ◌^◌, ◌≡◌, Bool, true, false, ◌&&◌, ◌||◌, Option, none, some,
  List, [], ◌∷◌, ◌++◌, ltb, leb, ◌==◌, if◌then◌else◌,
}
use dev_search.Prelude.Int.{ℤ, pos, negsuc, neg}
use dev_search.Prelude.Strings.{split, digits}
use dev_search.Prelude.Text.{codes, has_prefix}
use dev_search.Prelude.Decimal.{text_of}
use dev_search.Scoring.{second}
use dev_search.RateLimit.{millisecond}
use dev_search.Redis.{Redis}
use dev_search.Queue.{Job, Result, Key, Value, QueueError}
use dev_search.Queue.Ops.{requeue_with_delay, complete_job}

pub record CrawlStats : Type 0 where
  pub processed_pages : ℕ
  pub duplicates : ℕ
  pub errors : ℕ
  pub bytes_fetched : ℕ
  pub fetch_latency_ns : ℕ
  pub fetch_count : ℕ

unfoldable pub increment_processed : CrawlStats → CrawlStats
increment_processed c = record c { processed_pages = c.processed_pages + 1 }

unfoldable pub increment_duplicate : CrawlStats → CrawlStats
increment_duplicate c = record c { duplicates = c.duplicates + 1 }

unfoldable pub increment_error : CrawlStats → CrawlStats
increment_error c = record c { errors = c.errors + 1 }

unfoldable pub add_bytes : ℕ → CrawlStats → CrawlStats
add_bytes n c = record c { bytes_fetched = c.bytes_fetched + n }

unfoldable pub add_fetch_latency : ℕ → CrawlStats → CrawlStats
add_fetch_latency d c = record c {
  fetch_latency_ns = c.fetch_latency_ns + d;
  fetch_count = c.fetch_count + 1;
}

-- The ID that `NewWorker` gives; `fresh` is a new UUID.
unfoldable pub worker_id : String → String → String
worker_id worker_name fresh = text_of (codes worker_name ++ (b'-' ∷ codes fresh))

-- An error of the handler: whether it wraps `ErrRateLimited`, and its text.
pub record JobError : Type 0 where
  pub wraps_rate_limited : Bool
  pub text : String

-- How the run of a job ends: with the error of the handler, or by the timeout of 5 minutes.
pub data Outcome : Type 0 where
  returned : Option JobError → Outcome
  timed_out : Outcome

abbrev pub error_of : Outcome → Option JobError
error_of (returned err) = err
error_of timed_out =
    some (record { wraps_rate_limited = false; text = "Job processing timed out after 5m0s" })

unfoldable pub retry_later : Option JobError → Bool
retry_later none = false
retry_later (some err) =
    err.wraps_rate_limited || has_prefix (codes err.text) (codes "rate limited")

abbrev pub limited : ℕ → (ℕ → ℤ) → Option ℕ → Option ℤ
limited bound sign none = none
limited bound sign (some n) = if leb n bound then some (sign n) else none

unfoldable pub unsigned : ℕ → (ℕ → ℤ) → List ℕ → Option ℤ
unsigned bound sign [] = none
unsigned bound sign (c ∷ cs) = limited bound sign (digits 0 (c ∷ cs))

-- `strconv.Atoi`: an optional sign, then digits; `none` where it is out of range or no number.
unfoldable pub atoi : List ℕ → Option ℤ
atoi [] = none
atoi (c ∷ cs) =
    if c == 45
    then unsigned (2 ^ 63) neg cs
    else if c == 43
    then unsigned (2 ^ 63 - 1) pos cs
    else unsigned (2 ^ 63 - 1) pos (c ∷ cs)

-- The 64-bit number that is n modulo 2 ^ 64.
unfoldable pub wrap : ℕ → ℤ
wrap n = let v = n % 2 ^ 64 in if ltb v (2 ^ 63) then pos v else negsuc (2 ^ 64 - v - 1)

-- `time.Duration(ms) * time.Millisecond`
unfoldable pub milliseconds : ℤ → ℤ
milliseconds (pos ms) = wrap (ms * millisecond)
milliseconds (negsuc ms) = wrap ((2 ^ 64 - (ms + 1) % 2 ^ 64) * millisecond)

-- `time.Second * time.Duration(1 << n)`
unfoldable pub shifted_second : ℕ → ℤ
shifted_second n = wrap (second * 2 ^ n)

unfoldable pub retry_delay : ℕ → List ℕ → ℤ
retry_delay retry_count error_msg = elim (split b':' error_msg) [
  | _ ∷ ms ∷ [] ↦ elim (atoi ms) [ none ↦ shifted_second retry_count | some n ↦ milliseconds n ]
  | _ ↦ shifted_second retry_count
]

module _ (r : Redis Key Value) (namespace : String) where
  open r use {Store}

  -- `RequeueWithDelay` with a delay that may be negative; only the sum of the time and the delay counts.
  unfoldable pub requeue_in : ℕ → Job → ℤ → Store → Store × Option QueueError
  requeue_in now job (pos delay) s = requeue_with_delay r namespace now job delay s
  requeue_in now job (negsuc n) s = requeue_with_delay r namespace (now - (n + 1)) job 0 s

  -- `completeTask` up to the call of `CompleteJob`. An error is logged only.
  unfoldable pub settle : ℕ → Job → Bool → Bool → List ℕ → Store → CrawlStats → Store × CrawlStats
  settle now job true later error_msg s c = (s, increment_processed c)
  settle now job false true error_msg s c =
      ((requeue_in now job (retry_delay job.retry_count error_msg) s).0, c)
  settle now job false false error_msg s c = (s, increment_error c)

  -- The result's time of finishing is read before the requeue, at now, and `CompleteJob` runs at done.
  unfoldable pub complete_task :
      ℕ
      → ℕ
      → String
      → Job
      → Bool
      → Bool
      → String
      → ℤ
      → Store
      → CrawlStats
      → Job × Store × CrawlStats
  complete_task now done worker_id job success later error_msg duration s c =
      let result : Result = record {
        job_id = job.id;
        success = success;
        error = error_msg;
        duration = duration;
        worker_id = worker_id;
        finished_at = now;
      } in
      let (t, counted) = settle now job success later (codes error_msg) s c in
      let (after, u, err) = complete_job r namespace done job result worker_id t in
      (after, u, counted)

  unfoldable pub process_task :
      ℕ → ℕ → String → Job → Outcome → ℤ → Store → CrawlStats → Job × Store × CrawlStats
  process_task now done worker_id job outcome duration s c = elim (error_of outcome) [
    | none ↦ complete_task now done worker_id job true false "" duration s c
    | some err ↦
        complete_task now done worker_id job false (retry_later (some err)) err.text duration s c
  ]
