-- ===== src/Worker/Report.antt =====
-- `FinalReport` of internal/scraper/stats/stats.go, with its `humanDuration`, which is the indexer's. A float is given as
-- the quotient that it rounds.
use dev_search.Prelude.{ℕ, zero, suc, ◌+◌, ◌-◌, ◌*◌, ◌/◌, ◌≤◌, ◌≡◌, refl, ltb, if◌then◌else◌, arith}
use dev_search.Prelude.Int.{ℤ, pos, neg, ◌-ℤ◌, ◌≤ℤ◌}
use dev_search.Scoring.{second, minute}
use dev_search.Indexer.{Shown, hours_minutes_seconds, minutes_seconds, seconds, round_second}
use dev_search.Indexer as Indexer
use dev_search.Indexer.Report.{Quotient, average, per_second}
use dev_search.Worker.{CrawlStats}

unfoldable pub human_duration : ℕ → Shown
human_duration d =
    let d0 = round_second d in
    let h = d0 / (60 * minute) in
    let d1 = d0 - h * (60 * minute) in
    let m = d1 / minute in
    let d2 = d1 - m * minute in
    let s = d2 / second in
    if ltb 0 h
    then hours_minutes_seconds h m s
    else if ltb 0 m
    then minutes_seconds m s
    else seconds s

-- Both programs show a duration alike.
human_duration_same : (d : ℕ) → human_duration d ≡ Indexer.human_duration d
unfolding human_duration Indexer.human_duration
human_duration_same d = refl

-- The lines of the report. The ratio of duplicates is shown in percent, the latency in milliseconds and the bytes in
-- megabytes.
pub record CrawlReport : Type 0 where
  pub elapsed_time : Shown
  pub pages_crawled : ℕ
  pub unique_pages : ℤ
  pub pages_per_second : Quotient
  pub duplicate_ratio : Quotient
  pub errors : ℕ
  pub bytes_downloaded : ℕ
  pub avg_fetch_latency : ℕ

unfoldable pub final_report : ℕ → CrawlStats → CrawlReport
final_report elapsed c = record {
  elapsed_time = human_duration elapsed;
  pages_crawled = c.processed_pages;
  unique_pages = pos c.processed_pages -ℤ pos c.duplicates;
  pages_per_second = per_second c.processed_pages elapsed;
  duplicate_ratio =
      if ltb 0 c.processed_pages
      then record { numerator = c.duplicates; denominator = c.processed_pages }
      else record { numerator = 0; denominator = 1 };
  errors = c.errors;
  bytes_downloaded = c.bytes_fetched;
  avg_fetch_latency = average c.fetch_latency_ns c.fetch_count;
}

less_than_errors : (p d e : ℕ) → d ≤ p + e → neg e ≤ℤ (pos p -ℤ pos d)
unfolding ◌-ℤ◌
less_than_errors p d zero h = ground arith
less_than_errors p d (suc e) h = ground arith

-- The unique pages are no less than minus the errors, if the duplicates are at most the pages and the errors together.
pub unique_lem :
    (elapsed : ℕ) (c : CrawlStats)
    → c.duplicates ≤ c.processed_pages + c.errors
    → neg (final_report elapsed c).errors ≤ℤ (final_report elapsed c).unique_pages
unfolding final_report
unique_lem elapsed c h = less_than_errors c.processed_pages c.duplicates c.errors h
