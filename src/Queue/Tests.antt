-- ===== src/Queue/Tests.antt =====
-- Runs of the queues on the server in memory, and the theorems at inputs that meet their hypotheses.
use native.Mathlib.Decide.{ℕ_discrete}
use dev_search.Prelude.{
  ℕ, ◌+◌, ◌*◌, ◌^◌, ◌<◌, ◌≤◌, ◌≡◌, ◌↔◌, refl, ap, false, ◌⊎◌, none, some, List, [], ◌∷◌, ◌++◌,
  arith,
}
use dev_search.Prelude.Int.{pos}
use dev_search.Scoring.{PriorityStatus, critical, high, normal, low, second, score_to_priority}
use dev_search.Redis.Memory.{Memory, Cell}
use dev_search.Queue.{
  Job, inflight, dead, Result, Key, retry_key, failed_key, job_key, Value, plain, job_json, new_job,
  marshal, marshal_or_empty, unmarshal, wire, unix, processing_timeout,
}
use dev_search.Queue.Memory.{server, nothing}
use dev_search.Queue.Ops.{
  prepared, after_failure, enqueue, dequeue, deliver, start, complete_job, process_retry_jobs,
  reap_stale_processing_jobs,
}
use dev_search.Queue.Ready.{ready_list, enqueue-dequeue}
use dev_search.Queue.Fail.{failures, failures-dead, complete_job_failure}
use dev_search.Queue.Wake.{adds_all, process_retry_jobs-ready, process_retry_jobs-retry}
use dev_search.Queue.Reap.{Stamped, reap_stale_processing_jobs_idle}

abbrev link : Job
link = new_job "7" 4000 "https://go.dev/doc"

abbrev result : Result
result = record {
  job_id = "7";
  success = false;
  error = "reset";
  duration = pos 3;
  worker_id = "w1";
  finished_at = 4500;
}

pushed :
    ready_list server "crawl" (enqueue server "crawl" 5000 link nothing).1 low
    ≡ job_json (wire (prepared 5000 link)) ∷ []
unfolding enqueue prepared marshal new_job score_to_priority
pushed = refl

abbrev all_queues : List PriorityStatus
all_queues = critical ∷ high ∷ normal ∷ low ∷ []

abbrev taken_link : Job
taken_link = record (wire (prepared 5000 link)) { status = inflight; visibility_start = 6000 }

enqueue-dequeue_example : taken_link ≡ record (wire (enqueue server "crawl" 5000 link nothing).0) {
  status = inflight;
  visibility_start = 6000;
}
unfolding enqueue prepared marshal new_job score_to_priority dequeue deliver start unmarshal
enqueue-dequeue_example =
    enqueue-dequeue server "crawl" all_queues "w1" 5000 6000 nothing link taken_link (λ p. refl)
      refl refl

failures-dead_example : ((failures 5 link).status ≡ dead) ↔ (5 ≤ 5)
unfolding new_job
failures-dead_example = failures-dead 5 link refl (λ e. cc)

complete_job_failure_example :
    ((complete_job server "crawl" 5000 link result "w1" nothing).0 ≡ after_failure link)
    × (((link.retry_count < 4)
          × ((server.entry
                  (complete_job server "crawl" 5000 link result "w1" nothing).1
                  (retry_key "crawl")).zset
                (marshal_or_empty (after_failure link))
              ≡ some (unix (5000 + second * 2 ^ (link.retry_count + 1)))))
        ⊎ ((4 ≤ link.retry_count)
            × ((server.entry
                  (complete_job server "crawl" 5000 link result "w1" nothing).1
                  (failed_key "crawl")).list
                ≡ marshal_or_empty (after_failure link)
                  ∷ (server.entry nothing (failed_key "crawl")).list)))
unfolding complete_job
complete_job_failure_example =
    complete_job_failure server "crawl" 5000 link result "w1" nothing refl refl

-- The retry set holds the job, due at second m.
abbrev waiting : ℕ → Memory Key Value
waiting m = record {
  now = 5000;
  cells = λ k. record {
    list = [];
    members = job_json link ∷ [];
    scores = λ v. some m;
    text = none;
    deadline = none;
  };
}

process_retry_jobs-retry_example :
    ((9 ≤ unix 5000)
      × ((server.entry
              (process_retry_jobs server "crawl" 5000 (waiting 9)).0
              (retry_key "crawl")).zset
            (job_json link)
          ≡ none))
    ⊎ ((unix 5000 < 9)
        × ((server.entry
                (process_retry_jobs server "crawl" 5000 (waiting 9)).0
                (retry_key "crawl")).zset
              (job_json link)
            ≡ some 9))
unfolding process_retry_jobs unix unmarshal new_job ℕ_discrete
process_retry_jobs-retry_example =
    process_retry_jobs-retry server "crawl" 5000 (waiting 9) (job_json link) link 9 refl refl refl

process_retry_jobs-ready_example :
    ready_list server "crawl" (process_retry_jobs server "crawl" 5000 (waiting 0)).0 low
    ≡ [] ++ adds_all 5000 low (job_json link ∷ [])
unfolding process_retry_jobs unix
process_retry_jobs-ready_example =
    process_retry_jobs-ready server "crawl" 5000 (waiting 0) (job_json link ∷ []) low refl refl

abbrev flying : Job
flying = record link { status = inflight; visibility_start = 5000 }

-- Every record is that of a job in flight since 5000, and every list names the job 7.
abbrev flying_cells : Key → Cell Value
flying_cells (job_key id) = record {
  list = [];
  members = [];
  scores = λ v. none;
  text = some (job_json flying);
  deadline = some (5000 + processing_timeout);
}
flying_cells _ = record {
  list = plain "7" ∷ [];
  members = [];
  scores = λ v. none;
  text = none;
  deadline = none;
}

abbrev in_flight : ℕ → Memory Key Value
in_flight n = record { now = n; cells = flying_cells }

flying-Stamped : (n : ℕ) → Stamped server "crawl" 0 (in_flight n)
unfolding unmarshal new_job
flying-Stamped n id value job e good =
    let here : job_json flying ≡ value = cc in
    let back : flying ≡ job = cc (ap unmarshal here, good) in
    (5000, refl, rw (← back) (omega arith))

reap_stale_processing_jobs_idle_example :
    (reap_stale_processing_jobs server "crawl" "w1"
      (8000 + processing_timeout)
      (in_flight (8000 + processing_timeout))).0
    ≡ in_flight (8000 + processing_timeout)
reap_stale_processing_jobs_idle_example =
    reap_stale_processing_jobs_idle server "crawl" 0 (8000 + processing_timeout) "w1"
      (in_flight (8000 + processing_timeout)) (flying-Stamped (8000 + processing_timeout))
      (λ id value job e good. omega arith) (omega arith)
