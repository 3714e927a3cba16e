-- ===== src/Worker/Twice.antt =====
-- What becomes of a job that met the rate limit.
use Prim.Native.String.{String}
use dev_search.Prelude.{
  ℕ, ◌+◌, ◌*◌, ◌^◌, ◌<◌, ◌≤◌, ◌≡◌, ◌≢◌, ◌⊎◌, inl, inr, refl, ◌∙◌, Bool, true, false, none, some,
  List, arith,
}
use dev_search.Prelude.Int.{ℤ, pos}
use dev_search.Prelude.Text.{codes}
use dev_search.Scoring.{second}
use dev_search.Redis.{Redis, Command}
use dev_search.Queue.{Job, Result, Key, retry_key, Value, marshal, marshal_or_empty, unix}
use dev_search.Queue.Ops.{after_failure, requeue_with_delay, complete_job, outcome}
use dev_search.Queue.Fail.{complete_job_failure, complete_job_keeps}
use dev_search.Worker.{CrawlStats, retry_delay, requeue_in, settle, complete_task}

other_text :
    (job : Job) (value : Value)
    → marshal job ≡ some value
    → marshal_or_empty (after_failure job) ≢ value
unfolding marshal marshal_or_empty after_failure
other_text job value good = λ e. ground arith

module _ (r : Redis Key Value) (namespace : String) where
  open r use {Store, entry, apply, exec, exec_ok, zadd_self}

  -- No pipeline fails.
  abbrev pub Sends : Type 0
  Sends = (cs : List (Command Key Value)) (s : Store) → (exec cs s).1 ≡ true

  requeue_scores :
      (now : ℕ) (job : Job) (delay : ℕ) (s : Store) (value : Value)
      → Sends
      → marshal job ≡ some value
      → (entry (requeue_with_delay r namespace now job delay s).0 (retry_key namespace)).zset value
        ≡ some (unix (now + delay))
  unfolding requeue_with_delay
  requeue_scores now job delay s value sends good =
      rw (good, requeue_with_delay)
        (rw (exec_ok _ s (sends _ s))
          (zadd_self (retry_key namespace) (unix (now + delay)) value s))

  outcome_sent : (okay : Bool) → okay ≡ true → outcome okay ≡ none
  outcome_sent okay e = ground arith

  complete_job_sent :
      (now : ℕ) (job : Job) (result : Result) (worker_id : String) (s : Store)
      → Sends
      → (complete_job r namespace now job result worker_id s).2 ≡ none
  unfolding complete_job
  complete_job_sent now job result worker_id s sends = outcome_sent _ (sends _ s)

  -- On a server on which no pipeline fails, a job that can be marshalled and has fewer than four retries counted,
  -- and that is to be retried later, after a wait of at least 0, is in the retry set twice after `completeTask`:
  -- with the text of the job as it was, due after the wait, and with the different text of a failure with a
  -- higher count, due after the backoff.
  pub complete_task_twice :
      (now finish : ℕ) (worker_id : String) (job : Job) (error_msg : String) (duration : ℤ)
      (s : Store) (c : CrawlStats) (delay : ℕ) (value : Value)
      → Sends
      → job.retry_count < 4
      → marshal job ≡ some value
      → retry_delay job.retry_count (codes error_msg) ≡ pos delay
      → ((entry
              (complete_task r namespace now finish worker_id job false true error_msg duration s
                c).1
              (retry_key namespace)).zset
            value
          ≡ some (unix (now + delay)))
        × ((entry
                (complete_task r namespace now finish worker_id job false true error_msg duration s
                  c).1
                (retry_key namespace)).zset
              (marshal_or_empty (after_failure job))
            ≡ some (unix (finish + second * 2 ^ (job.retry_count + 1))))
        × (marshal_or_empty (after_failure job) ≢ value)
  unfolding complete_task settle requeue_in
  complete_task_twice now finish worker_id job error_msg duration s c delay value sends few good
        waits =
      let result : Result = record {
        job_id = job.id;
        success = false;
        error = error_msg;
        duration = duration;
        worker_id = worker_id;
        finished_at = now;
      } in
      let t = (requeue_with_delay r namespace now job delay s).0 in
      let apart = other_text job value good in
      let sent = complete_job_sent finish job result worker_id t sends in
      rw (waits) (
        complete_job_keeps r namespace finish job result worker_id t value refl sent few apart
            ∙ requeue_scores now job delay s value sends good,
        filed_again job few
            (complete_job_failure r namespace finish job result worker_id t refl sent).1,
        apart,
      )
    where
      filed_again :
          {A B : Type 0} (job : Job)
          → job.retry_count < 4
          → ((job.retry_count < 4) × A) ⊎ ((4 ≤ job.retry_count) × B)
          → A
      filed_again job few (inl (l, a)) = a
      filed_again job few (inr (m, b)) = absurd (omega arith)
