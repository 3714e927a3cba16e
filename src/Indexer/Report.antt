-- ===== src/Indexer/Report.antt =====
-- What `humanDuration` shows, and `FinalReport` of internal/indexer/stats.go. A float is given as the quotient that it
-- rounds.
use native.Mathlib.Nat.{div-mul-le_self, lt-mul-div-succ}
use dev_search.Prelude.{
  inl, inr, ℕ, ◌+◌, ◌*◌, ◌/◌, ◌%◌, ◌≤◌, ◌<◌, ◌≡◌, arith, ltb, if◌then◌else◌, Bool-cases,
}
use dev_search.Indexer.Counters.{Balanced}
use dev_search.Scoring.{second}
use dev_search.Indexer.{
  IndexerStats, Shown, hours_minutes_seconds, minutes_seconds, seconds, round_second,
  human_duration,
}

-- The seconds that a text stands for.
unfoldable pub total : Shown → ℕ
total (hours_minutes_seconds h m s) = 3600 * h + 60 * m + s
total (minutes_seconds m s) = 60 * m + s
total (seconds s) = s

-- Minutes and seconds are below 60, and no leading part is 0.
unfoldable pub IsNormal : Shown → Type 0
IsNormal (hours_minutes_seconds h m s) = (0 < h) × (m < 60) × (s < 60)
IsNormal (minutes_seconds m s) = (0 < m) × (m < 60) × (s < 60)
IsNormal (seconds s) = s < 60

round_second_lem :
    (d : ℕ)
    → (k : ℕ) × (round_second d ≡ k * second)
      × (2 * (k * second) ≤ 2 * d + second)
      × (2 * d ≤ 2 * (k * second) + second)
unfolding round_second
round_second_lem d = elim (Bool-cases (ltb (d % second + d % second) second)) [
  | inl low ↦ (d / second, rw (low) ground arith, ground arith, ground arith)
  | inr high ↦ (d / second + 1, rw (high) ground arith, ground arith, ground arith)
]

-- The text stands for the duration rounded to whole seconds: its parts add up to it, are in range, and the
-- duration is at most half a second away.
pub human_duration_lem :
    (d : ℕ)
    → IsNormal (human_duration d)
      × (2 * (total (human_duration d) * second) ≤ 2 * d + second)
      × (2 * d ≤ 2 * (total (human_duration d) * second) + second)
unfolding human_duration IsNormal total
human_duration_lem d = let (k, e, low, high) = round_second_lem d in rw (e) ground arith

pub record Quotient : Type 0 where
  pub numerator : ℕ
  pub denominator : ℕ

-- An average of latencies in nanoseconds, which the report shows in milliseconds.
unfoldable pub average : ℕ → ℕ → ℕ
average latency count = if ltb 0 count then latency / count else 0

-- n in the time of d nanoseconds, per second.
abbrev pub per_second : ℕ → ℕ → Quotient
per_second n d = record { numerator = n * second; denominator = d }

-- The lines of the report.
pub record IndexerReport : Type 0 where
  pub elapsed_time : Shown
  pub processed : ℕ
  pub successful : ℕ
  pub failed : ℕ
  pub retried : ℕ
  pub msgs_per_second : Quotient
  pub avg_index : ℕ
  pub avg_db : ℕ

unfoldable pub final_report : ℕ → IndexerStats → IndexerReport
final_report elapsed c = record {
  elapsed_time = human_duration elapsed;
  processed = c.processed_msgs;
  successful = c.success_msgs;
  failed = c.failed_msgs;
  retried = c.retried_msgs;
  msgs_per_second = per_second c.processed_msgs elapsed;
  avg_index = average c.index_latency_ns c.index_count;
  avg_db = average c.db_latency_ns c.db_count;
}

-- The average is the greatest whole number of nanoseconds that fits into the sum so many times.
pub average_lem :
    (latency count : ℕ)
    → 0 < count
    → (average latency count * count ≤ latency) × (latency < (average latency count + 1) * count)
unfolding average
average_lem latency count some_counted = elim (Bool-cases (ltb 0 count)) [
  | inl e ↦
      rw (e) (div-mul-le_self latency count, ground (arith, lt-mul-div-succ latency some_counted))
  | inr e ↦ absurd (ground arith)
]

-- The report of balanced counters: what was processed is what was successful and what failed, the retries are
-- among the failures, and the average of the indexing times, multiplied by the messages processed, differs from
-- the sum of these times by less than a nanosecond for each message.
pub final_report-Balanced :
    (elapsed : ℕ) (c : IndexerStats)
    → Balanced c
    → 0 < c.processed_msgs
    → ((final_report elapsed c).processed
        ≡ (final_report elapsed c).successful + (final_report elapsed c).failed)
      × ((final_report elapsed c).retried ≤ (final_report elapsed c).failed)
      × ((final_report elapsed c).avg_index * (final_report elapsed c).processed
          ≤ c.index_latency_ns)
      × (c.index_latency_ns
          < ((final_report elapsed c).avg_index + 1) * (final_report elapsed c).processed)
unfolding final_report
final_report-Balanced elapsed c (sum, timed, few) any =
    let (low, high) = average_lem c.index_latency_ns c.processed_msgs any in
    (sum, few, rw (timed) low, rw (timed) high)
