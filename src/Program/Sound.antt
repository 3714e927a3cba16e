-- ===== src/Program/Sound.antt =====
-- What holds of the scraper in every order of its goroutines' steps.
use Prim.Native.String.{String}
use dev_search.Prelude.{
  ℕ, ◌≤◌, ◌≡◌, ◌+◌, ◌<◌, ◌⊎◌, inl, inr, refl, subst, Bool, true, false, Option, none, some, List,
  [], arith,
}
use dev_search.Prelude.Int.{ℤ}
use dev_search.Prelude.Text.{codes}
use dev_search.Simhash.Index.{Stores, new_sim_index-Stores}
use dev_search.Simhash.Separation.{Apart, Separated}
use dev_search.Redis.{Redis}
use dev_search.Queue.{Job, Key, Value}
use dev_search.Worker.{
  CrawlStats, JobError, Outcome, returned, timed_out, increment_processed, increment_error,
  retry_later, settle, complete_task, process_task,
}
use dev_search.Crawler.Handlers.{CrawlError}
use dev_search.Crawler.Whole.{fetch_and_store_raw-Ends}
use dev_search.Program.{
  Env, State, Kind, crawler, parser, queue_name, crawl_env, crawl_part, Meets, exec, crawl_answer,
}
use dev_search.Program.Run.{id_of, System, Step, Reach, started}

module _ (env : Env) where
  -- What a run of a handler does to the index and the counters: it keeps the fingerprints apart, does not count
  -- jobs, and counts a duplicate at most once, for a page that it fetched and if it returns nil.
  abbrev pub Kept : Option (Option JobError) → State env → State env → Type 0
  Kept answer s t =
      Separated t.index
      × (t.stats.processed_pages ≡ s.stats.processed_pages)
      × (t.stats.errors ≡ s.stats.errors)
      × (((t.stats.duplicates ≡ s.stats.duplicates) × (s.stats.fetch_count ≤ t.stats.fetch_count))
          ⊎ ((answer ≡ some none)
              × (t.stats.duplicates ≡ s.stats.duplicates + 1)
              × (s.stats.fetch_count < t.stats.fetch_count)))

  answers_nil : (err : Option CrawlError) → err ≡ none → crawl_answer env err ≡ some none
  unfolding crawl_answer
  answers_nil none e = refl
  answers_nil (some err) e = cc

  exec-Kept :
      (kind : Kind) (meets : Meets) (job : Job) (s : State env)
      → Separated s.index
      → Kept (exec env kind meets job s).0 s (exec env kind meets job s).1
  unfolding exec
  exec-Kept parser meets job s sep = (sep, refl, refl, inl (refl, omega arith))
  exec-Kept crawler meets job s sep =
      let (apart, counted, dups) =
        fetch_and_store_raw-Ends (crawl_env env) s.stats.processed_pages s.stats.errors
          s.stats.duplicates s.stats.fetch_count meets.crawl job (crawl_part env s)
          (sep, (refl, refl), refl, omega arith) in
      (
        apart,
        counted.0,
        counted.1,
        elim dups [
          | inl kept ↦ inl kept
          | inr (nil, one, more) ↦ inr (answers_nil _ nil, one, more)
        ],
      )

  pub exec_to-Kept :
      (kind : Kind) (meets : Meets) (job : Job) (s t : State env)
      (answer : Option (Option JobError))
      → exec env kind meets job s ≡ (answer, t)
      → Separated s.index
      → Kept answer s t
  exec_to-Kept kind meets job s t answer e sep =
      subst (λ (x : Option (Option JobError) × State env). Kept x.0 s x.1) e
        (exec-Kept kind meets job s sep)

-- The counters of fetches and duplicates are as before.
abbrev SameFetches : CrawlStats → CrawlStats → Type 0
SameFetches c d = (d.duplicates ≡ c.duplicates) × (d.fetch_count ≡ c.fetch_count)

module _ (r : Redis Key Value) (namespace : String) where
  settle_fetches :
      (now : ℕ) (job : Job) (success later : Bool) (error_msg : List ℕ) (s : r.Store)
      (c : CrawlStats)
      → SameFetches c (settle r namespace now job success later error_msg s c).1
  unfolding settle increment_processed increment_error
  settle_fetches now job true later error_msg s c = (refl, refl)
  settle_fetches now job false true error_msg s c = (refl, refl)
  settle_fetches now job false false error_msg s c = (refl, refl)

  process_task_fetches :
      (now done : ℕ) (worker_id : String) (job : Job) (outcome : Outcome) (duration : ℤ)
      (s : r.Store) (c : CrawlStats)
      → SameFetches c (process_task r namespace now done worker_id job outcome duration s c).2
  unfolding process_task complete_task
  process_task_fetches now done worker_id job (returned none) duration s c =
      settle_fetches now job true false (codes "") s c
  process_task_fetches now done worker_id job (returned (some err)) duration s c =
      settle_fetches now job false (retry_later (some err)) (codes err.text) s c
  process_task_fetches now done worker_id job timed_out duration s c =
      settle_fetches now job false _ _ s c

module _ (env : Env) (fresh : Kind → String) where
  abbrev Fine : State env → Type 0
  Fine s = Separated s.index × (s.stats.duplicates ≤ s.stats.fetch_count)

  exec-Fine :
      (kind : Kind) (meets : Meets) (job : Job) (s t : State env)
      (answer : Option (Option JobError))
      → exec env kind meets job s ≡ (answer, t)
      → Fine s
      → Fine t
  exec-Fine kind meets job s t answer e (sep, few) =
      let (apart, jobs, errs, dups) = exec_to-Kept env kind meets job s t answer e sep in
      (apart, elim dups [ inl (same, more) ↦ omega arith | inr (nil, one, more) ↦ omega arith ])

  step-Fine : (s t : System env) → Step env fresh s t → Fine s.state → Fine t.state
  step-Fine s t (Step.loops kind e f) h = h
  step-Fine s t (Step.takes kind now answer q before behind at e) h = h
  step-Fine s t (Step.answers kind meets job err u before behind at e) h =
      exec-Fine kind meets job s.state u (some err) e h
  step-Fine s t (Step.gives_up kind job before behind at) h = h
  step-Fine s t (Step.answers_late kind meets job err u before behind at e) h =
      exec-Fine kind meets job s.state u (some err) e h
  step-Fine s t (Step.completes kind now done job after outcome duration q c before behind at e)
        (sep, few) =
      let (dups, fetches) =
        process_task_fetches env.redis (queue_name kind) now done (id_of fresh kind) job outcome
          duration s.state.queue s.state.stats in
      let (dups', fetches') =
        subst (λ (x : Job × env.redis.Store × CrawlStats). SameFetches s.state.stats x.2) e
          (dups, fetches) in
      (sep, omega arith)
  step-Fine s t (Step.wakes kind now) h = h
  step-Fine s t (Step.reaps kind now) h = h
  step-Fine s t Step.stops_parser h = h
  step-Fine s t (Step.stops_crawler e f) h = h
  step-Fine s t (Step.passes q m limits messages) h = h

  Reach-Fine : (s t : System env) → Reach env fresh s t → Fine s.state → Fine t.state
  Reach-Fine s t Reach.here h = h
  Reach-Fine s t (Reach.next {t = u} run step) h = step-Fine u t step (Reach-Fine s u run h)

  -- From the start of the workers on, on servers in any state and in whatever order the steps of the goroutines
  -- come, with handlers that are late and workers that are stopped, the index holds fingerprints of which any
  -- two differ in more than 3 digits, and no more duplicates are counted than fetches.
  pub Reach-Separated :
      (objects : env.obj.Store) (queue : env.redis.Store) (metas : env.meta_redis.Store)
      (limits : String → Option ℕ) (url_metas : env.url_metas.Store) (messages : env.streams.Store)
      (t : System env)
      → Reach env fresh (started env objects queue metas limits url_metas messages) t
      → ((hs : List ℕ) × Stores t.state.index hs × Apart hs)
        × (t.state.stats.duplicates ≤ t.state.stats.fetch_count)
  Reach-Separated objects queue metas limits url_metas messages t run =
      Reach-Fine (started env objects queue metas limits url_metas messages) t run
        (([], new_sim_index-Stores, tt), omega arith)
