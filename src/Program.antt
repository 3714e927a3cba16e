-- ===== src/Program.antt =====
-- cmd/scraper/main.go: the queues, the workers and the seeds of the scraper. The state is all that its parts
-- share: the index, the counters and the servers.
pub mod Run
pub mod Sound
pub mod Stopped
mod Account
mod Seeds
mod Handover
mod Boot
mod Tests
mod ParserTests
use Prim.Native.String.{String}
use dev_search.Prelude.{ℕ, ◌≡◌, Bool, true, false, Option, none, some, List, [], ◌∷◌, ◌++◌}
use dev_search.Prelude.Int.{pos, ◌+ℤ◌}
use dev_search.Scoring.{PriorityStatus, critical, high, normal, low}
use dev_search.Simhash.{SimhashIndex, new_sim_index}
use dev_search.Redis.{Redis}
use dev_search.Queue.{Job, Key, Value, new_job, QueueError}
use dev_search.Queue.Ops.{enqueue}
use dev_search.Storage.{ObjectServer}
use dev_search.Cleaning.{Reader}
use dev_search.Streams.{StreamServer}
use dev_search.Document.{Record}
use dev_search.Worker.{CrawlStats, JobError}
use dev_search.Normalizer.{Library}
use dev_search.Parsing.{Pages, ParsePayload}
use dev_search.Parsing.Links.{MetaServer}
use dev_search.Parsing.Handler as Parse
use dev_search.Parsing.Handler.{Parser, ParseError, extract_text_and_store}
use dev_search.Parsing.Errors as ParseErrors
use dev_search.Crawler.{user_agent, MetaText, Net}
use dev_search.Crawler.Handlers as Crawler
use dev_search.Crawler.Handlers.{CrawlError, fetch_and_store_raw}
use dev_search.Crawler.Errors as CrawlErrors

abbrev pub priority_queues : List PriorityStatus
priority_queues = critical ∷ high ∷ normal ∷ low ∷ []

abbrev pub seed_urls : List String
seed_urls =
    "https://go.dev/doc/" ∷ "https://doc.rust-lang.org/book/" ∷ "https://docs.python.org/3/"
    ∷ "https://developer.mozilla.org/en-US/docs/Web/JavaScript" ∷ "https://docs.docker.com/"
    ∷ "https://kubernetes.io/docs/" ∷ "https://redis.io/docs/"
    ∷ "https://github.com/donnemartin/system-design-primer"
    ∷ "https://github.com/codecrafters-io/build-your-own-x"
    ∷ "https://github.com/public-apis/public-apis" ∷ []

-- The job for a seed, with a fresh ID.
unfoldable pub seed_job : String → ℕ → String → Job
seed_job id now url =
    let job = new_job id now url in
    record job { typ = "crawl"; base_score = job.base_score +ℤ pos 100 }

-- The loop over the seeds: `new_id` is the fresh ID for a URL, and `time` when its job is enqueued. An error of
-- `Enqueue` is logged only.
unfoldable pub enqueue_seeds :
    (r : Redis Key Value) → (String → String) → (String → ℕ) → List String → r.Store → r.Store
enqueue_seeds r new_id time [] s = s
enqueue_seeds r new_id time (url ∷ urls) s =
    enqueue_seeds r new_id time urls
      (enqueue r "frontier" (time url) (seed_job (new_id url) (time url) url) s).1

-- The code that is not the program's own, and the servers. The details are the texts of the errors that an
-- error wraps.
pub record Env : Type 1 where
  pub net : Net
  pub reader : Reader
  pub sum64 : String → ℕ
  pub duration_arg : ℕ → ℕ
  pub obj : ObjectServer
  pub redis : Redis Key Value
  pub meta_redis : Redis String MetaText
  pub pages : Pages
  pub lib : Library
  pub url_metas : MetaServer
  pub streams : StreamServer
  pub new_id : List ℕ → String
  pub payload_of : String → Option ParsePayload
  pub marshal_record : Record → Option String
  pub from_bytes : List ℕ → String
  pub crawl_detail : CrawlError → String
  pub parse_detail : ParseError → String

abbrev pub crawl_env : Env → Crawler.Env
crawl_env env = record {
  net = env.net;
  reader = env.reader;
  sum64 = env.sum64;
  duration_arg = env.duration_arg;
  obj = env.obj;
  redis = env.redis;
  meta_redis = env.meta_redis;
  parse_queue = "parser";
}

abbrev pub parser_of : Env → Parser
parser_of env = record {
  links = record {
    pages = env.pages;
    lib = env.lib;
    metas = env.url_metas;
    redis = env.redis;
    frontier = "frontier";
    new_id = env.new_id;
  };
  obj = env.obj;
  streams = env.streams;
  stream = "parser-events";
  payload_of = env.payload_of;
  marshal_record = env.marshal_record;
  from_bytes = env.from_bytes;
}

-- `queue` holds the keys of both queues.
pub record State (env : Env) : Type 0 where
  pub index : SimhashIndex
  pub stats : CrawlStats
  pub objects : env.obj.Store
  pub queue : env.redis.Store
  pub metas : env.meta_redis.Store
  pub limits : String → Option ℕ
  pub url_metas : env.url_metas.Store
  pub messages : env.streams.Store

-- The two workers.
pub data Kind : Type 0 where
  crawler parser : Kind

abbrev pub queue_name : Kind → String
queue_name crawler = "frontier"
queue_name parser = "parser"

abbrev pub concurrency : Kind → ℕ
concurrency crawler = 8
concurrency parser = 6

abbrev pub worker_name : Kind → String
worker_name crawler = user_agent
worker_name parser = "Parser"

-- What a run of a handler meets.
pub record Meets : Type 0 where
  pub crawl : Crawler.Run
  pub parse : Parse.Run

module _ (env : Env) where
  abbrev pub crawl_part : State env → Crawler.Crawl (crawl_env env)
  crawl_part s = record {
    index = s.index;
    objects = s.objects;
    queue = s.queue;
    metas = s.metas;
    limits = s.limits;
    stats = s.stats;
  }

  abbrev pub put_crawl : Crawler.Crawl (crawl_env env) → State env → State env
  put_crawl t s = record s {
    index = t.index;
    objects = t.objects;
    queue = t.queue;
    metas = t.metas;
    limits = t.limits;
    stats = t.stats;
  }

  abbrev pub parse_part : State env → Parse.Parsed (parser_of env)
  parse_part s = record {
    objects = s.objects;
    metas = s.url_metas;
    queue = s.queue;
    messages = s.messages;
  }

  abbrev pub put_parse : Parse.Parsed (parser_of env) → State env → State env
  put_parse t s = record s {
    objects = t.objects;
    url_metas = t.metas;
    queue = t.queue;
    messages = t.messages;
  }

  -- The error that the worker gets; `none` is a panic, which ends the program.
  unfoldable pub crawl_answer : Option CrawlError → Option (Option JobError)
  crawl_answer none = some none
  crawl_answer (some Crawler.panicked) = none
  crawl_answer (some err) = some (some (CrawlErrors.job_error err (env.crawl_detail err)))

  unfoldable pub parse_answer : Option ParseError → Option (Option JobError)
  parse_answer none = some none
  parse_answer (some Parse.panicked) = none
  parse_answer (some err) = some (some (ParseErrors.job_error err (env.parse_detail err)))

  -- `crawlExec` and `parseExec`.
  unfoldable pub exec : Kind → Meets → Job → State env → Option (Option JobError) × State env
  exec crawler meets job s =
      let (err, t) = fetch_and_store_raw (crawl_env env) meets.crawl job (crawl_part s) in
      (crawl_answer err, put_crawl t s)
  exec parser meets job s =
      let (err, t) = extract_text_and_store (parser_of env) meets.parse job (parse_part s) in
      (parse_answer err, put_parse t s)
