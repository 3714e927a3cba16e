-- ===== src/Program/Account.antt =====
-- The duplicates that the scraper counts, against the jobs that it counts.
use Prim.Native.String.{String}
use dev_search.Prelude.{
  ℕ, ◌+◌, ◌≤◌, ◌≡◌, inl, inr, refl, subst, Bool, true, false, not, ◌||◌, if◌then◌else◌, Option,
  none, some, List, [], ◌∷◌, ◌++◌, arith, tally, tally-append,
}
use dev_search.Prelude.Int.{ℤ, neg, ◌≤ℤ◌}
use dev_search.Prelude.Text.{codes, has_prefix}
use dev_search.Simhash.Index.{new_sim_index-Stores}
use dev_search.Simhash.Separation.{Separated}
use dev_search.Redis.{Redis}
use dev_search.Queue.{Job, Key, Value, Dequeued, got, no_job, refused}
use dev_search.Worker.{
  CrawlStats, JobError, Outcome, returned, timed_out, increment_processed, increment_error,
  retry_later, settle, complete_task, process_task,
}
use dev_search.Worker.Report.{final_report, unique_lem}
use dev_search.Program.{Env, Kind, crawler, parser, queue_name}
use dev_search.Program.Run.{
  Task, asking, waiting, abandoned, ended, taken, id_of, busy, System, Step, Reach, started,
}
use dev_search.Program.Sound.{exec_to-Kept}
use dev_search.Program.Stopped.{Stopped}

-- 1 for a job that will be counted as processed or as an error, or may have been counted as a duplicate.
credit : Task → ℕ
credit (asking kind) = 0
credit (waiting kind job) = 0
credit (abandoned kind job) = 0
credit (ended kind job (returned none)) = 1
credit (ended kind job (returned (some err))) = 0
credit (ended kind job timed_out) = 1

-- 1 for a handler that may count a duplicate after its job was given up.
debt : Task → ℕ
debt (asking kind) = 0
debt (waiting kind job) = 0
debt (abandoned kind job) = 1
debt (ended kind job outcome) = 0

-- The duplicates are as before, and k jobs at least are counted.
abbrev Counts : ℕ → CrawlStats → CrawlStats → Type 0
Counts k c d =
    (d.duplicates ≡ c.duplicates)
    × (k + (c.processed_pages + c.errors) ≤ d.processed_pages + d.errors)

module _ (r : Redis Key Value) (namespace : String) where
  settle-Counts :
      (now : ℕ) (job : Job) (success later : Bool) (error_msg : List ℕ) (s : r.Store)
      (c : CrawlStats)
      → Counts
          (if success || not later then 1 else 0)
          c
          (settle r namespace now job success later error_msg s c).1
  unfolding settle increment_processed increment_error
  settle-Counts now job true later error_msg s c = (refl, omega arith)
  settle-Counts now job false true error_msg s c = (refl, omega arith)
  settle-Counts now job false false error_msg s c = (refl, omega arith)

  -- The jobs that are counted when one is completed. A job that was given up is no rate limit.
  process_task-Counts :
      (kind : Kind) (now done : ℕ) (worker_id : String) (job : Job) (outcome : Outcome)
      (duration : ℤ) (s : r.Store) (c : CrawlStats)
      → Counts
          (credit (ended kind job outcome))
          c
          (process_task r namespace now done worker_id job outcome duration s c).2
  unfolding process_task complete_task credit retry_later has_prefix
  process_task-Counts kind now done worker_id job (returned none) duration s c =
      settle-Counts now job true false (codes "") s c
  process_task-Counts kind now done worker_id job (returned (some err)) duration s c =
      let (same, more) =
        settle-Counts now job false (retry_later (some err)) (codes err.text) s c in
      (same, omega arith)
  process_task-Counts kind now done worker_id job timed_out duration s c =
      settle-Counts now job false false _ s c

module _ (env : Env) (fresh : Kind → String) where
  -- What was counted as duplicates, and still may be, is covered.
  abbrev Covered : System env → Type 0
  Covered s =
      Separated s.state.index
      × (s.state.stats.duplicates + tally debt s.tasks
          ≤ (s.state.stats.processed_pages + s.state.stats.errors) + tally credit s.tasks)

  taken_nothing :
      (kind : Kind) (answer : Dequeued) (before behind : List Task)
      → (tally debt (before ++ taken kind answer behind) ≡ tally debt (before ++ behind))
        × (tally credit (before ++ taken kind answer behind) ≡ tally credit (before ++ behind))
  unfolding taken debt credit
  taken_nothing kind (got job) before behind =
      let owed = tally-append debt before behind (waiting kind job) in
      let own = tally-append credit before behind (waiting kind job) in (omega arith, omega arith)
  taken_nothing kind no_job before behind = (refl, refl)
  taken_nothing kind (refused err) before behind = (refl, refl)

  moved :
      (f : Task → ℕ) (tasks before behind : List Task) (task : Task)
      → tasks ≡ before ++ task ∷ behind
      → tally f tasks ≡ f task + tally f (before ++ behind)
  moved f tasks before behind task at = rw (at) (tally-append f before behind task)

  put :
      (f : Task → ℕ) (before behind : List Task) (task : Task)
      → tally f (before ++ task ∷ behind) ≡ f task + tally f (before ++ behind)
  put f before behind task = tally-append f before behind task

  credit_nil :
      (kind : Kind) (job : Job) (err : Option JobError)
      → some err ≡ some none
      → credit (ended kind job (returned err)) ≡ 1
  unfolding credit
  credit_nil kind job none e = refl
  credit_nil kind job (some err) e = cc

  step-Covered : (s t : System env) → Step env fresh s t → Covered s → Covered t
  unfolding debt credit
  step-Covered s t (Step.loops kind e f) (sep, h) = (sep, omega arith)
  step-Covered s t (Step.takes kind now answer q before behind at e) (sep, h) =
      let owed = moved debt s.tasks before behind (asking kind) at in
      let own = moved credit s.tasks before behind (asking kind) at in
      let (owed', own') = taken_nothing kind answer before behind in (sep, omega arith)
  step-Covered s t (Step.answers kind meets job err u before behind at e) (sep, h) =
      let (apart, jobs, errs, dups) = exec_to-Kept env kind meets job s.state u (some err) e sep in
      let owed = moved debt s.tasks before behind (waiting kind job) at in
      let own = moved credit s.tasks before behind (waiting kind job) at in
      let owed' = put debt before behind (ended kind job (returned err)) in
      let own' = put credit before behind (ended kind job (returned err)) in
      (
        apart,
        elim dups [
          | inl (same, more) ↦ omega arith
          | inr (nil, one, more) ↦ let full = credit_nil kind job err nil in omega arith
        ],
      )
  step-Covered s t (Step.gives_up kind job before behind at) (sep, h) =
      let owed = moved debt s.tasks before behind (waiting kind job) at in
      let own = moved credit s.tasks before behind (waiting kind job) at in
      let owed' =
        tally-append debt before (abandoned kind job ∷ behind) (ended kind job timed_out) in
      let own' =
        tally-append credit before (abandoned kind job ∷ behind) (ended kind job timed_out) in
      let owed'' = put debt before behind (abandoned kind job) in
      let own'' = put credit before behind (abandoned kind job) in (sep, omega arith)
  step-Covered s t (Step.answers_late kind meets job err u before behind at e) (sep, h) =
      let (apart, jobs, errs, dups) = exec_to-Kept env kind meets job s.state u (some err) e sep in
      let owed = moved debt s.tasks before behind (abandoned kind job) at in
      let own = moved credit s.tasks before behind (abandoned kind job) at in
      (apart, elim dups [ inl (same, more) ↦ omega arith | inr (nil, one, more) ↦ omega arith ])
  step-Covered s t (Step.completes kind now done job after outcome duration q c before behind at e)
        (sep, h) =
      let owed = moved debt s.tasks before behind (ended kind job outcome) at in
      let own = moved credit s.tasks before behind (ended kind job outcome) at in
      let (same, more) =
        subst
          (λ (x : Job × env.redis.Store × CrawlStats).
            Counts (credit (ended kind job outcome)) s.state.stats x.2)
          e
          (process_task-Counts env.redis (queue_name kind) kind now done (id_of fresh kind) job
            outcome duration s.state.queue s.state.stats) in
      (sep, omega arith)
  step-Covered s t (Step.wakes kind now) h = h
  step-Covered s t (Step.reaps kind now) h = h
  step-Covered s t Step.stops_parser h = h
  step-Covered s t (Step.stops_crawler e f) h = h
  step-Covered s t (Step.passes q m limits messages) h = h

  Reach-Covered : (s t : System env) → Reach env fresh s t → Covered s → Covered t
  Reach-Covered s t Reach.here h = h
  Reach-Covered s t (Reach.next {t = u} run step) h =
      step-Covered u t step (Reach-Covered s u run h)

  -- A job with credit keeps a worker busy.
  credit-busy : (tasks : List Task) → tally credit tasks ≤ busy crawler tasks + busy parser tasks
  unfolding credit busy
  credit-busy [] = omega arith
  credit-busy (asking kind ∷ tasks) = let rest = credit-busy tasks in omega arith
  credit-busy (waiting kind job ∷ tasks) = let rest = credit-busy tasks in omega arith
  credit-busy (abandoned kind job ∷ tasks) = let rest = credit-busy tasks in omega arith
  credit-busy (ended crawler job (returned none) ∷ tasks) =
      let rest = credit-busy tasks in omega arith
  credit-busy (ended crawler job (returned (some err)) ∷ tasks) =
      let rest = credit-busy tasks in omega arith
  credit-busy (ended crawler job timed_out ∷ tasks) = let rest = credit-busy tasks in omega arith
  credit-busy (ended parser job (returned none) ∷ tasks) =
      let rest = credit-busy tasks in omega arith
  credit-busy (ended parser job (returned (some err)) ∷ tasks) =
      let rest = credit-busy tasks in omega arith
  credit-busy (ended parser job timed_out ∷ tasks) = let rest = credit-busy tasks in omega arith

  -- When both workers have been stopped and their goroutines have returned, the unique pages of the report, the
  -- difference of the pages and the duplicates, are no less than minus its errors, in whatever order the steps came
  -- and with handlers that were given up.
  pub Reach-unique_pages :
      (objects : env.obj.Store) (queue : env.redis.Store) (metas : env.meta_redis.Store)
      (limits : String → Option ℕ) (url_metas : env.url_metas.Store) (messages : env.streams.Store)
      (t : System env) (elapsed : ℕ)
      → Reach env fresh (started env objects queue metas limits url_metas messages) t
      → Stopped env fresh t
      → neg (final_report elapsed t.state.stats).errors
        ≤ℤ (final_report elapsed t.state.stats).unique_pages
  Reach-unique_pages objects queue metas limits url_metas messages t elapsed run off =
      let (sep, h) =
        Reach-Covered (started env objects queue metas limits url_metas messages) t run
          (([], new_sim_index-Stores, tt), omega arith) in
      let idle = credit-busy t.tasks in
      let one = (off crawler).1 in
      let two = (off parser).1 in unique_lem elapsed t.state.stats (omega arith)
