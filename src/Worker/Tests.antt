-- ===== src/Worker/Tests.antt =====
-- Runs of the crawl worker, and its theorem at an input that meets its hypotheses.
use dev_search.Prelude.{◌+◌, ◌*◌, ◌^◌, ◌≡◌, ◌≢◌, refl, true, false, some, arith}
use dev_search.Prelude.Int.{pos}
use dev_search.Prelude.Text.{codes}
use dev_search.Scoring.{second}
use dev_search.Queue.{Job, retry_key, job_json, wire, new_job, marshal, marshal_or_empty, unix}
use dev_search.Queue.Memory.{server, nothing}
use dev_search.Queue.Ops.{after_failure}
use dev_search.Prelude.Strings.{split, digits}
use dev_search.Worker.{
  CrawlStats, unsigned, atoi, wrap, milliseconds, shifted_second, retry_delay, complete_task,
}
use dev_search.Worker.Twice.{complete_task_twice}

abbrev no_stats : CrawlStats
no_stats = record {
  processed_pages = 0;
  duplicates = 0;
  errors = 0;
  bytes_fetched = 0;
  fetch_latency_ns = 0;
  fetch_count = 0;
}

abbrev link : Job
link = new_job "7" 4000 "https://go.dev/doc"

named_wait : retry_delay 0 (codes "rate limited:250") ≡ pos 250_000_000
unfolding retry_delay split atoi unsigned digits milliseconds wrap
named_wait = refl

no_wait : retry_delay 2 (codes "rate limited") ≡ pos 4_000_000_000
unfolding retry_delay split shifted_second wrap
no_wait = refl

complete_task_twice_example :
    ((server.entry
          (complete_task server "crawl" 5000 6000 "w1" link false true "rate limited:250"
            (pos 9)
            nothing
            no_stats).1
          (retry_key "crawl")).zset
        (job_json (wire link))
      ≡ some (unix (5000 + 250_000_000)))
    × ((server.entry
            (complete_task server "crawl" 5000 6000 "w1" link false true "rate limited:250"
              (pos 9)
              nothing
              no_stats).1
            (retry_key "crawl")).zset
          (marshal_or_empty (after_failure link))
        ≡ some (unix (6000 + second * 2 ^ (link.retry_count + 1))))
    × (marshal_or_empty (after_failure link) ≢ job_json (wire link))
unfolding new_job marshal retry_delay split atoi unsigned digits milliseconds wrap
complete_task_twice_example =
    complete_task_twice server "crawl" 5000 6000 "w1" link "rate limited:250" (pos 9) nothing
      no_stats 250_000_000 (job_json (wire link)) (λ cs s. refl) (omega arith) refl refl
