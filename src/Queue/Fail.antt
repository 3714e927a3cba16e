-- ===== src/Queue/Fail.antt =====
-- A failed job: its score, its next try and its end.
use Prim.Native.String.{String}
use dev_search.Prelude.{
  ℕ, zero, suc, ◌+◌, ◌*◌, ◌^◌, ◌≤◌, ◌<◌, ◌≡◌, ◌≢◌, ◌↔◌, ◌⊎◌, inl, inr, refl, ap, ◌∙◌, Bool, true,
  false, none, some, ◌∷◌, arith, leb, dec_lt,
}
use dev_search.Prelude.Int.{pos, ◌-ℤ◌, ◌≤ℤ◌, max_ℤ}
use dev_search.Redis.{Redis, Entry, lpush, lrem, set, del, zadd}
use dev_search.Scoring.{second}
use dev_search.Queue.{
  Job, dead, Result, Key, failed_key, retry_key, results_key, job_key, processing_key, Value, plain,
  result_json, max_retries, result_ttl, marshal_or_empty, unix, backoff,
}
use dev_search.Queue.Ops.{after_failure, failure_command, complete_job, outcome}

-- A job with a score of at least 0 keeps such a score when it fails, and no failure raises the score above
-- both the old one and 10.
pub after_failure_score :
    (job : Job)
    → pos 0 ≤ℤ job.base_score
    → (pos 0 ≤ℤ (after_failure job).base_score)
      × ((after_failure job).base_score ≤ℤ max_ℤ job.base_score (pos 10))
unfolding after_failure ◌-ℤ◌
after_failure_score job h = ground arith

-- The job after n failures, with whatever the queue does to its other fields in between left out.
unfoldable pub failures : ℕ → Job → Job
failures zero job = job
failures (suc n) job = after_failure (failures n job)

failures-retry_count : (n : ℕ) (job : Job) → (failures n job).retry_count ≡ job.retry_count + n
unfolding failures after_failure
failures-retry_count zero job = omega arith
failures-retry_count (suc n) job = ground (arith, failures-retry_count n job)

after_failure-dead :
    (job : Job) → job.status ≢ dead → ((after_failure job).status ≡ dead) ↔ (4 ≤ job.retry_count)
unfolding after_failure
after_failure-dead job alive = (λ h. ground arith, λ h. ground arith)

alive_after :
    (job : Job) → job.retry_count < 4 → job.status ≢ dead → (after_failure job).status ≢ dead
unfolding after_failure
alive_after job few alive = λ e. alive (ground arith)

dead_after : (job : Job) → 4 ≤ job.retry_count → (after_failure job).status ≡ dead
unfolding after_failure
dead_after job many = ground arith

alive_until :
    (n : ℕ) (job : Job)
    → job.retry_count ≡ 0
    → job.status ≢ dead
    → n < 5
    → (failures n job).status ≢ dead
unfolding failures
alive_until zero job fresh alive h = alive
alive_until (suc n) job fresh alive h =
    alive_after (failures n job) (omega (arith, failures-retry_count n job))
      (alive_until n job fresh alive (omega arith))

dead_from : (n : ℕ) (job : Job) → job.retry_count ≡ 0 → 5 ≤ n → (failures n job).status ≡ dead
unfolding failures
dead_from zero job fresh h = absurd (omega arith)
dead_from (suc n) job fresh h =
    dead_after (failures n job) (omega (arith, failures-retry_count n job))

-- A job that has not failed before is given up at its fifth failure, and not earlier.
pub failures-dead :
    (n : ℕ) (job : Job)
    → job.retry_count ≡ 0
    → job.status ≢ dead
    → ((failures n job).status ≡ dead) ↔ (5 ≤ n)
failures-dead n job fresh alive = (
  λ gone. elim (dec_lt n 5) [
    | yes early ↦ absurd (alive_until n job fresh alive early gone)
    | no late ↦ omega arith
  ],
  dead_from n job fresh,
)

outcome-eq-none : (okay : Bool) → outcome okay ≡ none → okay ≡ true
outcome-eq-none okay h = ground arith

module _ (r : Redis Key Value) (namespace : String) where
  open r use {Store, entry, apply, exec, exec_ok, entry_other, lpush_list, zadd_self, zadd_other}

  -- The store that the first three commands of `CompleteJob` leave.
  cleaned : Job → Result → String → Store → Store
  cleaned job result worker_id s =
      apply (set (results_key job.id) (result_json result) result_ttl)
        (apply (del (job_key job.id)) (apply (lrem (processing_key worker_id) (plain job.id)) s))

  -- Those commands leave the failed list and the retry set alone.
  cleaned_other :
      (job : Job) (result : Result) (worker_id : String) (s : Store) (k : Key)
      → (results_key job.id ≢ k)
      → (job_key job.id ≢ k)
      → (processing_key worker_id ≢ k)
      → entry (cleaned job result worker_id s) k ≡ entry s k
  unfolding cleaned
  cleaned_other job result worker_id s k a b c =
      entry_other (set (results_key job.id) (result_json result) result_ttl) _ k a
      ∙ (entry_other (del (job_key job.id)) _ k b
          ∙ entry_other (lrem (processing_key worker_id) (plain job.id)) s k c)

  -- The command that files a failed job.
  failure_command_retry :
      (now : ℕ) (job : Job)
      → job.retry_count < 4
      → failure_command r namespace now (after_failure job)
        ≡ zadd
            (retry_key namespace)
            (unix (now + second * 2 ^ (job.retry_count + 1)))
            (marshal_or_empty (after_failure job))
  unfolding failure_command backoff
  failure_command_retry now job few = rw (retries job) (rw (not_yet job few))
    where
      retries : (job : Job) → (after_failure job).retry_count ≡ job.retry_count + 1
      retries job = unfold after_failure in ground arith

      not_yet : (job : Job) → job.retry_count < 4 → leb max_retries (job.retry_count + 1) ≡ false
      not_yet job few = ground arith

  failure_command_dead :
      (now : ℕ) (job : Job)
      → 4 ≤ job.retry_count
      → failure_command r namespace now (after_failure job)
        ≡ lpush (failed_key namespace) (marshal_or_empty (after_failure job))
  unfolding failure_command
  failure_command_dead now job many = rw (spent job many)
    where
      spent :
          (job : Job) → 4 ≤ job.retry_count → leb max_retries (after_failure job).retry_count ≡ true
      spent job many = unfold after_failure in ground arith

  -- Filing a failed job on a store whose failed list is that of s.
  filed :
      (now : ℕ) (job : Job) (s t : Store)
      → entry t (failed_key namespace) ≡ entry s (failed_key namespace)
      → let u = apply (failure_command r namespace now (after_failure job)) t in
        ((job.retry_count < 4)
          × ((entry u (retry_key namespace)).zset (marshal_or_empty (after_failure job))
              ≡ some (unix (now + second * 2 ^ (job.retry_count + 1)))))
        ⊎ ((4 ≤ job.retry_count)
            × ((entry u (failed_key namespace)).list
                ≡ marshal_or_empty (after_failure job) ∷ (entry s (failed_key namespace)).list))
  filed now job s t same = elim (dec_lt job.retry_count 4) [
    | yes few ↦ inl (few, rw (failure_command_retry now job few) (zadd_self _ _ _ t))
    | no many ↦
        let enough : 4 ≤ job.retry_count = omega arith in
        inr (
          enough,
          rw (failure_command_dead now job enough) (
              lpush_list _ _ t
              ∙ ap (λ (e : Entry Value). marshal_or_empty (after_failure job) ∷ e.list) same),
        )
  ]

  -- Where a failed job goes when every command of `CompleteJob` succeeds: with fewer than four failures
  -- before it, into the retry set, due after 2, 4, 8 or 16 seconds; else to the head of the failed list.
  pub complete_job_failure :
      (now : ℕ) (job : Job) (result : Result) (worker_id : String) (s : Store)
      → result.success ≡ false
      → (complete_job r namespace now job result worker_id s).2 ≡ none
      → ((complete_job r namespace now job result worker_id s).0 ≡ after_failure job)
        × (((job.retry_count < 4)
              × ((entry
                      (complete_job r namespace now job result worker_id s).1
                      (retry_key namespace)).zset
                    (marshal_or_empty (after_failure job))
                  ≡ some (unix (now + second * 2 ^ (job.retry_count + 1)))))
            ⊎ ((4 ≤ job.retry_count)
                × ((entry
                      (complete_job r namespace now job result worker_id s).1
                      (failed_key namespace)).list
                    ≡ marshal_or_empty (after_failure job)
                      ∷ (entry s (failed_key namespace)).list)))
  unfolding complete_job
  complete_job_failure now job result worker_id s failing sent =
      let lost = record result { success = false } in
      rw failing (
        refl,
        rw (exec_ok _ s (outcome-eq-none _ (rw failing at sent))) (
            unfold cleaned in
            filed now job s (cleaned job lost worker_id s) (
              cleaned_other job lost worker_id s (failed_key namespace) (λ e. cc) (λ e. cc)
                (λ e. cc))),
      )

  -- The job's own text is the only member of the retry set that `CompleteJob` may add or move.
  pub complete_job_keeps :
      (now : ℕ) (job : Job) (result : Result) (worker_id : String) (s : Store) (other : Value)
      → result.success ≡ false
      → (complete_job r namespace now job result worker_id s).2 ≡ none
      → job.retry_count < 4
      → marshal_or_empty (after_failure job) ≢ other
      → (entry (complete_job r namespace now job result worker_id s).1 (retry_key namespace)).zset
          other
        ≡ (entry s (retry_key namespace)).zset other
  unfolding complete_job cleaned
  complete_job_keeps now job result worker_id s other failing sent few ne =
      let lost = record result { success = false } in
      rw (failing) (
        rw (exec_ok _ s (outcome-eq-none _ (rw (failing) at sent))) (
          rw (failure_command_retry now job few) (
            zadd_other (retry_key namespace) _ _ other (cleaned job lost worker_id s) ne
            ∙ ap (λ (e : Entry Value). e.zset other)
                (cleaned_other job lost worker_id s (retry_key namespace) (λ e. cc) (λ e. cc)
                  (λ e. cc)))))
