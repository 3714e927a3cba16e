-- ===== src/Queue/Ops.antt =====
-- The methods of `Queue`, in internal/scraper/queues/queue.go. Each takes the namespace, the time and the
-- store, and gives the store after it. The clock is read once for a call.
use Prim.Native.String.{String}
use dev_search.Prelude.{
  ℕ, ◌+◌, ◌*◌, Bool, true, false, Option, none, some, List, [], ◌∷◌, ◌++◌, map, max, leb, ◌==◌,
  if◌then◌else◌,
}
use dev_search.Prelude.Int.{pos, ◌-ℤ◌, ltb_ℤ}
use dev_search.Redis.{
  Redis, Command, rpush, lpush, lrem, set, del, expire, zadd, zrem, Pop, popped, timed_out, failed,
  Reply,
}
use dev_search.Scoring.{PriorityStatus, since, score_to_priority, apply_aging}
use dev_search.Queue.{
  Job, ready, inflight, finished, dead, Result, Key, ready_key, processing_key, results_key,
  failed_key, retry_key, job_key, Value, plain, result_json, max_retries, processing_timeout,
  result_ttl, marshal, marshal_or_empty, unmarshal, unix, backoff, QueueError, marshal_error,
  redis_error, unmarshal_error, Dequeued, got, no_job, refused,
}

abbrev pub outcome : Bool → Option QueueError
outcome true = none
outcome false = some redis_error

-- The job that `Enqueue` pushes.
unfoldable pub prepared : ℕ → Job → Job
prepared now job =
    let score =
      if job.last_enqueued_at == 0
      then job.base_score
      else apply_aging job.base_score (since now job.last_enqueued_at) in
    record job { priority = some (score_to_priority score); last_enqueued_at = now }

-- The job that `CompleteJob` leaves after a failure.
unfoldable pub after_failure : Job → Job
after_failure job =
    let tries = job.retry_count + 1 in
    let lowered = job.base_score -ℤ pos (max 10 (tries * 10)) in
    let score = if ltb_ℤ lowered (pos 0) then pos 10 else lowered in
    if leb max_retries tries
    then record job { retry_count = tries; status = dead }
    else record job {
      retry_count = tries;
      base_score = score;
      priority = some (score_to_priority score);
    }

-- The job that `ProcessRetryJobs` pushes.
unfoldable pub woken : ℕ → Job → Job
woken now job =
    let score = apply_aging job.base_score (since now job.last_enqueued_at) in
    record job {
      base_score = score;
      priority = some (score_to_priority score);
      last_enqueued_at = now;
      status = ready;
    }

module _ (r : Redis Key Value) (namespace : String) where
  open r use {Store, exec, blpop, zrange_by_score, lrange, get}

  unfoldable pub enqueue : ℕ → Job → Store → Job × Store × Option QueueError
  enqueue now job s =
      let job' = prepared now job in
      elim (marshal job') [
        | none ↦ (job', s, some marshal_error)
        | some value ↦
            let (t, okay) = exec (rpush (ready_key namespace job'.priority) value ∷ []) s in
            (job', t, outcome okay)
      ]

  unfoldable pub requeue_with_delay : ℕ → Job → ℕ → Store → Store × Option QueueError
  requeue_with_delay now job delay s = elim (marshal job) [
    | none ↦ (s, some marshal_error)
    | some value ↦
        let (t, okay) = exec (zadd (retry_key namespace) (unix (now + delay)) value ∷ []) s in
        (t, outcome okay)
  ]

  -- `Dequeue` from the pipeline on. An error of the pipeline is logged only.
  unfoldable pub start : String → ℕ → Job → Store → Dequeued × Store
  start worker_id now job t =
      let job' : Job = record job { status = inflight; visibility_start = now } in
      (
        got job',
        (exec
            (set (job_key job.id) (marshal_or_empty job') processing_timeout
              ∷ lpush (processing_key worker_id) (plain job.id)
              ∷ expire (processing_key worker_id) processing_timeout
              ∷ [])
            t).0,
      )

  -- `Dequeue` from the answer of BLPOP on.
  unfoldable pub deliver : String → ℕ → Pop Key Value → Store → Dequeued × Store
  deliver worker_id now timed_out t = (no_job, t)
  deliver worker_id now failed t = (refused redis_error, t)
  deliver worker_id now (popped key value) t = elim (unmarshal value) [
    | none ↦ (refused unmarshal_error, t)
    | some job ↦ start worker_id now job t
  ]

  -- `queues` are the priorities in the order in which they are served.
  unfoldable pub dequeue : List PriorityStatus → String → ℕ → Store → Dequeued × Store
  dequeue queues worker_id now s =
      let (answer, t) = blpop (map (λ p. ready_key namespace (some p)) queues) s in
      deliver worker_id now answer t

  -- The last command of the pipeline of `CompleteJob` after a failure.
  unfoldable pub failure_command : ℕ → Job → Command Key Value
  failure_command now job' =
      if leb max_retries job'.retry_count
      then lpush (failed_key namespace) (marshal_or_empty job')
      else zadd (retry_key namespace) (unix (now + backoff job'.retry_count))
          (marshal_or_empty job')

  unfoldable pub complete_job : ℕ → Job → Result → String → Store → Job × Store × Option QueueError
  complete_job now job result worker_id s =
      let job' : Job =
        if result.success then record job { status = finished } else after_failure job in
      let last : List (Command Key Value) =
        if result.success then [] else failure_command now job' ∷ [] in
      let (t, okay) =
        exec
          (lrem (processing_key worker_id) (plain job.id)
            ∷ del (job_key job.id)
            ∷ set (results_key job.id) (result_json result) result_ttl
            ∷ last)
          s in
      (job', t, outcome okay)

  -- The body of the loop of `ProcessRetryJobs`.
  unfoldable pub wake : ℕ → Value → List (Command Key Value)
  wake now value = elim (unmarshal value) [
    | none ↦ []
    | some job ↦
        rpush (ready_key namespace (woken now job).priority) (marshal_or_empty (woken now job))
        ∷ zrem (retry_key namespace) value
        ∷ []
  ]

  unfoldable pub wake_all : ℕ → List Value → List (Command Key Value)
  wake_all now [] = []
  wake_all now (value ∷ values) = wake now value ++ wake_all now values

  unfoldable pub process_retry_jobs : ℕ → Store → Store × Option QueueError
  process_retry_jobs now s = elim (zrange_by_score (retry_key namespace) (unix now) s) [
    | none ↦ (s, some redis_error)
    | some [] ↦ (s, none)
    | some (value ∷ values) ↦
        let (t, okay) = exec (wake_all now (value ∷ values)) s in (t, outcome okay)
  ]

  -- The body of the loop of `ReapStaleProcessingJobs`; `false` ends the loop with an error. Only IDs are
  -- pushed on the list that it walks.
  unfoldable pub reap_one : String → ℕ → Value → Store → Store × Bool
  reap_one worker_id now (plain job_id) s = elim (get (job_key job_id) s) [
    | Reply.found value ↦ elim (unmarshal value) [
      | none ↦ (s, true)
      | some job ↦
          let job' : Job = record job { status = ready; last_enqueued_at = now } in
          let requeued =
            exec
              (lrem (processing_key worker_id) (plain job_id)
                ∷ del (job_key job_id)
                ∷ rpush (ready_key namespace job.priority) (marshal_or_empty job')
                ∷ [])
              s in
          if ltb_ℤ (since now job.visibility_start) (pos processing_timeout)
          then (s, true)
          else requeued
    ]
    | _ ↦ (s, true)
  ]
  reap_one worker_id now value s = (s, true)

  unfoldable pub reap_all : String → ℕ → List Value → Store → Store × Option QueueError
  reap_all worker_id now [] s = (s, none)
  reap_all worker_id now (value ∷ values) s =
      let (t, okay) = reap_one worker_id now value s in
      let rest = reap_all worker_id now values t in if okay then rest else (t, some redis_error)

  unfoldable pub reap_stale_processing_jobs : String → ℕ → Store → Store × Option QueueError
  reap_stale_processing_jobs worker_id now s = elim (lrange (processing_key worker_id) s) [
    | none ↦ (s, some redis_error)
    | some values ↦ reap_all worker_id now values s
  ]
