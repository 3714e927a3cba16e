-- ===== src/Program/Run.antt =====
-- cmd/scraper/main.go and internal/scraper/worker/worker.go: the goroutines of the scraper, as steps that come
-- in any order. One call of the queue, one run of a handler and one tick of a timer is a step.
use Prim.Native.String.{String}
use dev_search.Prelude.{
  ℕ, ◌<◌, ◌≡◌, Bool, true, false, Option, some, List, [], ◌∷◌, ◌++◌, if◌then◌else◌, tally,
}
use dev_search.Prelude.Int.{ℤ}
use dev_search.Simhash.{new_sim_index}
use dev_search.Queue.{Job, Dequeued, got, no_job, refused}
use dev_search.Queue.Ops.{dequeue, process_retry_jobs, reap_stale_processing_jobs}
use dev_search.Worker.{CrawlStats, JobError, Outcome, returned, timed_out, worker_id, process_task}
use dev_search.Program.{
  Env, State, Kind, crawler, parser, queue_name, worker_name, concurrency, priority_queues, Meets,
  exec,
}

abbrev pub no_stats : CrawlStats
no_stats = record {
  processed_pages = 0;
  duplicates = 0;
  errors = 0;
  bytes_fetched = 0;
  fetch_latency_ns = 0;
  fetch_count = 0;
}

-- A goroutine of `processTasks` that has looked at the context and is about to call `Dequeue`; or a job in
-- `processTask`: its handler runs and the worker waits; the worker has the outcome; or the worker gave the
-- handler up, and it runs on.
pub data Task : Type 0 where
  asking : Kind → Task
  waiting abandoned : Kind → Job → Task
  ended : Kind → Job → Outcome → Task

-- What an iteration of `processTasks` goes on with, put in front of other tasks.
unfoldable pub taken : Kind → Dequeued → List Task → List Task
taken kind (got job) tasks = waiting kind job ∷ tasks
taken kind no_job tasks = tasks
taken kind (refused err) tasks = tasks

abbrev pub same_kind : Kind → Kind → Bool
same_kind crawler crawler = true
same_kind parser parser = true
same_kind crawler parser = false
same_kind parser crawler = false

abbrev pub own : Kind → Task → ℕ
own kind (asking k) = if same_kind kind k then 1 else 0
own kind (waiting k job) = if same_kind kind k then 1 else 0
own kind (abandoned k job) = 0
own kind (ended k job outcome) = if same_kind kind k then 1 else 0

-- The goroutines of a worker that are past the look at the context. The others return when it is cancelled.
unfoldable pub busy : Kind → List Task → ℕ
busy kind tasks = tally (own kind) tasks

abbrev pub parser_stopped : (Kind → Bool) → Kind → Bool
parser_stopped stopped parser = true
parser_stopped stopped crawler = stopped crawler

-- `stopped` are the workers whose context is cancelled.
pub record System (env : Env) : Type 0 where
  pub state : State env
  pub tasks : List Task
  pub stopped : Kind → Bool

abbrev pub id_of : (Kind → String) → Kind → String
id_of fresh kind = worker_id (worker_name kind) (fresh kind)

-- A tick of the timer that `main` starts for a queue.
abbrev pub retry_tick : (env : Env) → Kind → ℕ → State env → State env
retry_tick env kind now s = record s {
  queue = (process_retry_jobs env.redis (queue_name kind) now s.queue).0;
}

-- A tick of the timer that `Start` starts for a worker. An error is logged only.
abbrev pub reaper_tick : (env : Env) → String → Kind → ℕ → State env → State env
reaper_tick env id kind now s = record s {
  queue = (reap_stale_processing_jobs env.redis (queue_name kind) id now s.queue).0;
}

-- `fresh` are the UUIDs of the workers.
module _ (env : Env) (fresh : Kind → String) where
  pub data Step : System env → System env → Type 0 where
    loops :
        {s : System env} (kind : Kind)
        → s.stopped kind ≡ false
        → busy kind s.tasks < concurrency kind
        → Step s (record s { tasks = asking kind ∷ s.tasks })
    takes :
        {s : System env} (kind : Kind) (now : ℕ) (answer : Dequeued) (q : env.redis.Store)
        (before behind : List Task)
        → s.tasks ≡ before ++ asking kind ∷ behind
        → dequeue env.redis (queue_name kind) priority_queues (id_of fresh kind) now s.state.queue
          ≡ (answer, q)
        → Step s (record s {
          state = record s.state { queue = q };
          tasks = before ++ taken kind answer behind;
        })
    answers :
        {s : System env} (kind : Kind) (meets : Meets) (job : Job) (err : Option JobError)
        (t : State env) (before behind : List Task)
        → s.tasks ≡ before ++ waiting kind job ∷ behind
        → exec env kind meets job s.state ≡ (some err, t)
        → Step s (record s { state = t; tasks = before ++ ended kind job (returned err) ∷ behind })
    gives_up :
        {s : System env} (kind : Kind) (job : Job) (before behind : List Task)
        → s.tasks ≡ before ++ waiting kind job ∷ behind
        → Step s
            (record s { tasks = before ++ ended kind job timed_out ∷ abandoned kind job ∷ behind })
    answers_late :
        {s : System env} (kind : Kind) (meets : Meets) (job : Job) (err : Option JobError)
        (t : State env) (before behind : List Task)
        → s.tasks ≡ before ++ abandoned kind job ∷ behind
        → exec env kind meets job s.state ≡ (some err, t)
        → Step s (record s { state = t; tasks = before ++ behind })
    completes :
        {s : System env} (kind : Kind) (now done : ℕ) (job after : Job) (outcome : Outcome)
        (duration : ℤ) (q : env.redis.Store) (c : CrawlStats) (before behind : List Task)
        → s.tasks ≡ before ++ ended kind job outcome ∷ behind
        → process_task env.redis
            (queue_name kind)
            now
            done
            (id_of fresh kind)
            job
            outcome
            duration
            s.state.queue
            s.state.stats
          ≡ (after, q, c)
        → Step s
            (record s { state = record s.state { queue = q; stats = c }; tasks = before ++ behind })
    wakes :
        {s : System env} (kind : Kind) (now : ℕ)
        → Step s (record s { state = retry_tick env kind now s.state })
    -- The reaper may find a tick and the cancelled context at once, and then take the tick.
    reaps :
        {s : System env} (kind : Kind) (now : ℕ)
        → Step s (record s { state = reaper_tick env (id_of fresh kind) kind now s.state })
    -- The parser's worker is stopped first, and waited for.
    stops_parser : {s : System env} → Step s (record s { stopped = parser_stopped s.stopped })
    stops_crawler :
        {s : System env}
        → s.stopped parser ≡ true
        → busy parser s.tasks ≡ 0
        → Step s (record s { stopped = λ kind. true })
    -- Keys expire, and the indexer reads the stream.
    passes :
        {s : System env} (q : env.redis.Store) (m : env.meta_redis.Store)
        (limits : String → Option ℕ) (messages : env.streams.Store)
        → Step s (record s {
          state = record s.state { queue = q; metas = m; limits = limits; messages = messages };
        })

  pub data Reach (s : System env) : System env → Type 0 where
    here : Reach s s
    next : {t u : System env} → Reach s t → Step t u → Reach s u

-- The system when the workers start, on servers in any state.
abbrev pub started :
    (env : Env)
    → env.obj.Store
    → env.redis.Store
    → env.meta_redis.Store
    → (String → Option ℕ)
    → env.url_metas.Store
    → env.streams.Store
    → System env
started env objects queue metas limits url_metas messages = record {
  state = record {
    index = new_sim_index;
    stats = no_stats;
    objects = objects;
    queue = queue;
    metas = metas;
    limits = limits;
    url_metas = url_metas;
    messages = messages;
  };
  tasks = [];
  stopped = λ kind. false;
}
