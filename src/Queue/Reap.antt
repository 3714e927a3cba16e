-- ===== src/Queue/Reap.antt =====
-- `ReapStaleProcessingJobs` against the expiry of the records that it reads.
use Prim.Native.String.{String}
use dev_search.Prelude.{
  ℕ, ◌+◌, ◌≡◌, ◌≤◌, ◌<◌, ◌⊎◌, inl, inr, refl, ap, ◌∙◌, true, Option, none, some, List, [], ◌∷◌,
  arith, Option-cases,
}
use dev_search.Prelude.Int.{pos, ltb_ℤ}
use dev_search.Redis.{Redis, Entry, Reply, set, lpush, expire}
use dev_search.Scoring.{since}
use dev_search.Queue.{
  Job, inflight, Key, job_key, processing_key, Value, plain, job_json, result_json,
  marshal_or_empty, unmarshal, processing_timeout, QueueError, got,
}
use dev_search.Queue.Ops.{reap_one, reap_all, reap_stale_processing_jobs, start}

module _ (r : Redis Key Value) (namespace : String) where
  open r use {
    Store, entry, clock, apply, exec, get, lrange, exec_ok, entry_other, clock_apply, set_deadline,
    set_text, get_live, get_before_deadline,
  }

  -- Every record of a job on the server expires processing_timeout after a time that is at most lag after
  -- the job's visibility start.
  abbrev pub Stamped : ℕ → Store → Type 0
  Stamped lag s =
      (id : String) (value : Value) (job : Job)
      → (entry s (job_key id)).text ≡ some value
      → unmarshal value ≡ some job
      → (written : ℕ) × ((entry s (job_key id)).deadline ≡ some (written + processing_timeout))
        × (written ≤ job.visibility_start + lag)

  -- No recorded job became stale within the last lag nanoseconds.
  abbrev pub NoneJustStale : ℕ → ℕ → Store → Type 0
  NoneJustStale lag now s =
      (id : String) (value : Value) (job : Job)
      → (entry s (job_key id)).text ≡ some value
      → unmarshal value ≡ some job
      → (now < job.visibility_start + processing_timeout)
        ⊎ (job.visibility_start + processing_timeout + lag ≤ now)

  reap_one_idle :
      (lag now : ℕ) (worker_id : String) (value : Value) (s : Store)
      → Stamped lag s
      → NoneJustStale lag now s
      → now ≤ clock s
      → reap_one r namespace worker_id now value s ≡ (s, true)
  unfolding reap_one
  reap_one_idle lag now worker_id (job_json job) s stamped none_stale late = refl
  reap_one_idle lag now worker_id (result_json result) s stamped none_stale late = refl
  reap_one_idle lag now worker_id (plain id) s stamped none_stale late =
      by_reply (get (job_key id) s) refl
    where
      by_job :
          (value : Value)
          → get (job_key id) s ≡ Reply.found value
          → (job : Job) → unmarshal value ≡ some job
          → ltb_ℤ (since now job.visibility_start) (pos processing_timeout) ≡ true
      by_job value g job good =
          let text = get_live (job_key id) s value g in
          let (written, expiry, soon) = stamped id value job text good in
          ground (
            arith,
            none_stale id value job text good,
            get_before_deadline (job_key id) s value (written + processing_timeout) g expiry,
          )

      by_reply :
          (reply : Reply Value)
          → get (job_key id) s ≡ reply
          → reap_one r namespace worker_id now (plain id) s ≡ (s, true)
      by_reply (Reply.found value) g = elim (Option-cases (unmarshal value)) [
        | inl bad ↦ rw (g, reap_one) (rw (bad, reap_one) refl)
        | inr (job, good) ↦
            rw (g, reap_one) (rw (good, reap_one) (rw (by_job value g job good) refl))
      ]
      by_reply Reply.missing g = rw (g, reap_one) refl
      by_reply Reply.error g = rw (g, reap_one) refl

  reap_all_idle :
      (lag now : ℕ) (worker_id : String) (values : List Value) (s : Store)
      → Stamped lag s
      → NoneJustStale lag now s
      → now ≤ clock s
      → reap_all r namespace worker_id now values s ≡ (s, none)
  unfolding reap_all
  reap_all_idle lag now worker_id [] s stamped none_stale late = refl
  reap_all_idle lag now worker_id (value ∷ values) s stamped none_stale late =
      rw (reap_one_idle lag now worker_id value s stamped none_stale late)
        (reap_all_idle lag now worker_id values s stamped none_stale late)

  -- Where every record of a job was written at most lag after the job's visibility start, and no recorded
  -- job passed its timeout within the last lag, the reaper changes nothing: a job that is not stale is left
  -- alone, and the record of a stale one has expired. With a lag of 0 the second condition always holds, so
  -- the reaper never requeues a job.
  pub reap_stale_processing_jobs_idle :
      (lag now : ℕ) (worker_id : String) (s : Store)
      → Stamped lag s
      → NoneJustStale lag now s
      → now ≤ clock s
      → (reap_stale_processing_jobs r namespace worker_id now s).0 ≡ s
  unfolding reap_stale_processing_jobs
  reap_stale_processing_jobs_idle lag now worker_id s stamped none_stale late =
      elim (Option-cases (lrange (processing_key worker_id) s)) [
        | inl down ↦ rw (down, reap_stale_processing_jobs) refl
        | inr (values, listed) ↦
            rw (listed, reap_stale_processing_jobs)
              (ap (λ (p : Store × Option QueueError). p.0)
                (reap_all_idle lag now worker_id values s stamped none_stale late))
      ]

  listed_other :
      (worker_id id : String) (s : Store)
      → entry
          (apply
            (expire (processing_key worker_id) processing_timeout)
            (apply (lpush (processing_key worker_id) (plain id)) s))
          (job_key id)
        ≡ entry s (job_key id)
  listed_other worker_id id s =
      entry_other (expire (processing_key worker_id) processing_timeout) _ (job_key id) (λ e. cc)
      ∙ entry_other (lpush (processing_key worker_id) (plain id)) s (job_key id) (λ e. cc)

  -- When every command of the pipeline of `Dequeue` succeeds, the job's record holds its text, in flight
  -- since now, and expires processing_timeout after the server's time.
  pub start-records :
      (worker_id : String) (now : ℕ) (job : Job) (t : Store)
      → (exec
          (set
              (job_key job.id)
              (marshal_or_empty (record job { status = inflight; visibility_start = now }))
              processing_timeout
            ∷ lpush (processing_key worker_id) (plain job.id)
            ∷ expire (processing_key worker_id) processing_timeout
            ∷ [])
          t).1
        ≡ true
      → ((start r namespace worker_id now job t).0
          ≡ got (record job { status = inflight; visibility_start = now }))
        × ((entry (start r namespace worker_id now job t).1 (job_key job.id)).text
            ≡ some (marshal_or_empty (record job { status = inflight; visibility_start = now })))
        × ((entry (start r namespace worker_id now job t).1 (job_key job.id)).deadline
            ≡ some (clock t + processing_timeout))
  unfolding start
  start-records worker_id now job t sent =
      let job' : Job = record job { status = inflight; visibility_start = now } in
      let written = apply (set (job_key job.id) (marshal_or_empty job') processing_timeout) t in
      let kept = listed_other worker_id job.id written in
      rw (exec_ok _ t sent) (
        refl,
        ap (λ (e : Entry Value). e.text) kept
            ∙ set_text (job_key job.id) (marshal_or_empty job') processing_timeout t,
        ap (λ (e : Entry Value). e.deadline) kept
            ∙ set_deadline (job_key job.id) (marshal_or_empty job') processing_timeout t
                (omega arith),
      )
