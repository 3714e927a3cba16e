-- ===== src/Program/Tests.antt =====
-- Runs of the scraper, and its theorems on them.
use Prim.Native.String.{String}
use dev_search.Prelude.{
  ℕ, ◌+◌, ap, sym, ◌<◌, ◌≤◌, ◌≡◌, ◌≢◌, refl, arith, Bool, true, false, Option, none, some, List, [],
  ◌∷◌, ◌++◌, map,
}
use dev_search.Prelude.Int.{pos, neg, ◌+ℤ◌, ◌≤ℤ◌}
use dev_search.Prelude.Text.{string_discrete}
use dev_search.Prelude.Decimal.{text_of}
use dev_search.Scoring.{critical, score_to_priority}
use dev_search.Simhash.Index.{Stores}
use dev_search.Simhash.Separation.{Apart}
use dev_search.Redis.Memory.{empty_cell}
use dev_search.Redis.Memory.Server.{memory}
use dev_search.Queue.{Job, inflight, wire, new_job, marshal, unmarshal}
use dev_search.Queue.Ops.{enqueue, prepared, dequeue, deliver, start as dequeue_start}
use dev_search.Queue.Memory.{server, nothing}
use dev_search.Queue.Ready.{ready_list}
use dev_search.Storage.Memory.{objects}
use dev_search.Streams.Memory.{lists}
use dev_search.Streams.Tests.{groups}
use dev_search.Storage.{ensure_bucket}
use dev_search.Streams.Setup.{new_msg_stream, ensure_group, accepted}
use dev_search.Parsing.{new_parse_payload}
use dev_search.Parsing.Memory.{meta_memory}
use dev_search.Parsing.Tests.{pages, lib}
use dev_search.Crawler.{MetaText}
use dev_search.Crawler.Handlers.{Crawl, store_page, fetch_and_store_raw, visit}
use dev_search.Crawler.Tests.{net, reader, meta_discrete}
use dev_search.Worker.{timed_out}
use dev_search.Worker.Report.{final_report}
use dev_search.Program.{
  Env, Kind, crawler, parser, Meets, seed_urls, seed_job, enqueue_seeds, exec, crawl_answer,
}
use dev_search.Program.Run.{taken, busy, abandoned, System, Step, Reach, started}
use dev_search.Program.Sound.{Reach-Separated}
use dev_search.Program.Stopped.{Stopped, Reach-Stopped}
use dev_search.Program.Account.{Reach-unique_pages}
use dev_search.Program.Seeds.{seed_text}
use dev_search.Program.Boot.{Machine, boot_scraper, boot_seeds}

abbrev pub env : Env
env = record {
  net = net;
  reader = reader;
  sum64 = λ text. 7;
  duration_arg = λ d. d;
  obj = objects;
  redis = server;
  meta_redis = memory string_discrete meta_discrete;
  pages = pages;
  lib = lib;
  url_metas = meta_memory;
  streams = lists;
  new_id = λ url. text_of url;
  payload_of = λ text. some (new_parse_payload "html/9.html" 9 "html");
  marshal_record = λ page. some "{}";
  from_bytes = λ bytes. text_of bytes;
  crawl_detail = λ err. "";
  parse_detail = λ err. "";
}

abbrev pub id_of : String → String
id_of url = url

abbrev pub at_start : String → ℕ
at_start url = 64_000_000_000_000_000_000

abbrev machine : Machine groups objects server
machine = record { groups = []; objects = λ key. none; queue = nothing }

boot_seeds_example :
    ((boot_scraper groups objects server id_of at_start true machine).0 ≡ true)
    × (ready_list server "frontier"
          (boot_scraper groups objects server id_of at_start true machine).1.queue
          critical
        ≡ [] ++ map (seed_text server id_of at_start) seed_urls)
unfolding new_msg_stream ensure_group accepted ensure_bucket
boot_seeds_example =
    boot_seeds groups objects server id_of at_start machine (λ cs s. refl) refl refl

abbrev pub ids : Kind → String
ids crawler = "1"
ids parser = "2"

abbrev pub begun : System env
begun =
    started env (λ key. none)
      (enqueue_seeds server id_of at_start ("https://go.dev/doc/" ∷ []) nothing)
      (record { now = 5000; cells = λ key. empty_cell }) (λ key. none) (λ key. none)
      (record { added = []; unread = []; acked = [] })

record Ran : Type 0 where
  last : System env
  reach : Reach env ids begun last

abbrev pub meets : Meets
meets = record {
  crawl = record {
    now = 64_000_000_001_000_000_000;
    limiter_answers = true;
    took = 5;
    job_id = "7";
  };
  parse = record { now = 64_000_000_002_000_000_000; msg_id = "m" };
}

-- The job of the seed, as the crawler gets it.
abbrev pub seed : Job
seed =
    record (wire (
      prepared 64_000_000_000_000_000_000
        (seed_job "https://go.dev/doc/" 64_000_000_000_000_000_000 "https://go.dev/doc/"))) {
          status = inflight;
          visibility_start = 64_000_000_000_500_000_000;
        }

-- The crawler takes a seed.
unfoldable took_seed : Ran
unfolding enqueue_seeds enqueue seed_job new_job marshal prepared score_to_priority ◌+ℤ◌ dequeue
    deliver dequeue_start unmarshal taken busy
took_seed = record {
  last = _;
  reach =
      Reach.next (Reach.next Reach.here (Step.loops crawler refl (omega arith)))
        (Step.takes crawler 64_000_000_000_500_000_000 _ _ [] [] refl refl);
}

-- The worker gives the handler up, completes the job, and both workers are stopped.
unfoldable given_up : Ran
unfolding took_seed taken busy
given_up = record {
  last = _;
  reach =
      Reach.next
        (Reach.next
          (Reach.next
            (Reach.next took_seed.reach
              (Step.gives_up {s = took_seed.last} crawler seed [] [] refl))
            (Step.completes crawler 64_000_000_002_000_000_000 64_000_000_003_000_000_000 seed _
              timed_out (pos 9) _ _ [] (abandoned crawler seed ∷ []) refl refl))
          Step.stops_parser)
        (Step.stops_crawler refl refl);
}

record Late : Type 0 where
  last : System env
  reach : Reach env ids given_up.last last

-- The handler still crawls the page.
unfoldable crawled_late : Late
unfolding given_up took_seed taken prepared seed_job new_job score_to_priority ◌+ℤ◌ exec
    fetch_and_store_raw visit crawl_answer dev_search.Crawler.get_domain_metadata
    dev_search.Crawler.fetch_metadata dev_search.Crawler.fetch_robots
    dev_search.Crawler.is_allowed_by_robots dev_search.Crawler.Handlers.go_on
    dev_search.RateLimit.reserve_domain_access dev_search.RateLimit.rate_limit_script
    dev_search.Crawler.Handlers.unix_milli dev_search.Prelude.Strings.same_text
    dev_search.Normalizer.hostname dev_search.Normalizer.host_port dev_search.Prelude.Strings.split
    dev_search.Crawler.Handlers.fetch_page dev_search.Crawler.fetch_req
    dev_search.Crawler.Handlers.keep_page dev_search.Cleaning.clean_data
    dev_search.Cleaning.clean_html dev_search.Cleaning.finish dev_search.Cleaning.collapse
    dev_search.Cleaning.is_blank dev_search.Prelude.Strings.is_space
    dev_search.Prelude.Strings.trim_space dev_search.Prelude.Strings.trim_left
    dev_search.Prelude.Strings.trim_right dev_search.Crawler.Handlers.fingerprint
    dev_search.Simhash.shingles dev_search.Cleaning.tokenize dev_search.Document.fields
    dev_search.Simhash.is_near_duplicate dev_search.Simhash.any_within dev_search.Simhash.candidates
    dev_search.Simhash.partition_hash dev_search.Simhash.new_sim_index dev_search.Simhash.collect
    dev_search.Crawler.Handlers.store_page dev_search.Storage.store_raw_data
    dev_search.Crawler.Handlers.queue_parse
crawled_late = record {
  last = _;
  reach =
      Reach.next Reach.here
        (Step.answers_late {s = given_up.last} crawler meets seed _ _ [] [] refl refl);
}

joined : (s t u : System env) → Reach env ids s t → Reach env ids t u → Reach env ids s u
joined s t u first Reach.here = first
joined s t u first (Reach.next {t = v} rest step) = Reach.next (joined s t v first rest) step

Reach-Separated_example :
    ((hs : List ℕ) × Stores crawled_late.last.state.index hs × Apart hs)
    × (crawled_late.last.state.stats.duplicates ≤ crawled_late.last.state.stats.fetch_count)
Reach-Separated_example =
    Reach-Separated env ids (λ key. none)
      (enqueue_seeds server id_of at_start ("https://go.dev/doc/" ∷ []) nothing)
      (record { now = 5000; cells = λ key. empty_cell }) (λ key. none) (λ key. none)
      (record { added = []; unread = []; acked = [] }) crawled_late.last
      (joined begun given_up.last crawled_late.last given_up.reach crawled_late.reach)

all-Stopped : Stopped env ids given_up.last
unfolding given_up busy took_seed
all-Stopped crawler = (refl, refl)
all-Stopped parser = (refl, refl)

Reach-Stopped_example :
    Stopped env ids crawled_late.last
    × (crawled_late.last.state.stats.processed_pages ≡ given_up.last.state.stats.processed_pages)
    × (crawled_late.last.state.stats.errors ≡ given_up.last.state.stats.errors)
Reach-Stopped_example =
    Reach-Stopped env ids (λ key. none)
      (enqueue_seeds server id_of at_start ("https://go.dev/doc/" ∷ []) nothing)
      (record { now = 5000; cells = λ key. empty_cell }) (λ key. none) (λ key. none)
      (record { added = []; unread = []; acked = [] }) given_up.last crawled_late.last
      given_up.reach all-Stopped crawled_late.reach

Reach-unique_pages_example :
    neg (final_report 90_000_000_000 given_up.last.state.stats).errors
    ≤ℤ (final_report 90_000_000_000 given_up.last.state.stats).unique_pages
Reach-unique_pages_example =
    Reach-unique_pages env ids (λ key. none)
      (enqueue_seeds server id_of at_start ("https://go.dev/doc/" ∷ []) nothing)
      (record { now = 5000; cells = λ key. empty_cell }) (λ key. none) (λ key. none)
      (record { added = []; unread = []; acked = [] }) given_up.last 90_000_000_000 given_up.reach
      all-Stopped
