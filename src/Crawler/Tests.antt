-- ===== src/Crawler/Tests.antt =====
-- The theorems on the crawler at concrete inputs.
use native.Mathlib.Decide.{ℕ_discrete}
use dev_search.Prelude.{◌*◌, ◌≡◌, ◌⊎◌, refl, true, none, some, [], arith}
use dev_search.Prelude.Int.{pos}
use dev_search.Prelude.Text.{codes, string_discrete}
use dev_search.Prelude.Strings.{is_space, trim_space, trim_left, trim_right}
use dev_search.Simhash.{new_sim_index}
use dev_search.Simhash.Index.{new_sim_index-Stores}
use dev_search.RateLimit.{millisecond}
use dev_search.Redis.Memory.{empty_cell}
use dev_search.Redis.Memory.Server.{memory}
use dev_search.Queue.Memory.{server, nothing}
use dev_search.Storage.Memory.{objects}
use dev_search.Cleaning.{Reader, clean_data, clean_html, finish, collapse, is_blank}
use dev_search.Worker.{increment_duplicate, retry_delay}
use dev_search.Normalizer.{Url}
use dev_search.Crawler.{MetaText, Net}
use dev_search.Crawler.Handlers.{
  Env, Run, Crawl, rate_limited, parse_job, keep_page, fetch_and_store_raw,
}
use dev_search.Crawler.Errors.{job_error, retry_delay-job_error}
use dev_search.Crawler.Again.{keep_page_again}
use dev_search.Crawler.Guards.{Untouched, Granted, fetch_and_store_raw_guards}

abbrev pub docs : Url
docs = record {
  scheme = codes "https";
  user = none;
  host = codes "go.dev";
  path = codes "/doc";
  raw_query = [];
  fragment = [];
}

-- Every URL is that of the page, and every answer the text "hi".
abbrev pub net : Net
net = record {
  parse_url = λ url. some docs;
  url_string = λ u. "https://go.dev/doc";
  request_okay = λ url. true;
  send_robots = λ agent url. some (record { status = 200; body = some [] });
  send = λ agent url. some (record { status = 404; body = some (codes "hi") });
  robots_from_bytes = λ body. none;
  readme_of = λ body. none;
  decode_base64 = λ text. none;
  marshal_payload = λ payload. some "{}";
}

abbrev pub reader : Reader
reader = record {
  page_text = λ html. some html;
  badges = λ md. md;
  images = λ md. md;
  links = λ md. md;
  lower = λ c. c;
}

abbrev pub meta_discrete : Discrete MetaText
meta_discrete = hlevel (ℕ_discrete, string_discrete)

abbrev env : Env
env = record {
  net = net;
  reader = reader;
  sum64 = λ text. 7;
  duration_arg = λ d. d;
  obj = objects;
  redis = server;
  meta_redis = memory string_discrete meta_discrete;
  parse_queue = "parse";
}

abbrev run : Run
run = record { now = 64_000_000_000_000_000_000; limiter_answers = true; took = 5; job_id = "7" }

abbrev start : Crawl env
start = record {
  index = new_sim_index;
  objects = λ key. none;
  queue = nothing;
  metas = record { now = 5000; cells = λ key. empty_cell };
  limits = λ key. none;
  stats = record {
    processed_pages = 0;
    duplicates = 0;
    errors = 0;
    bytes_fetched = 0;
    fetch_latency_ns = 0;
    fetch_count = 0;
  };
}

retry_delay-job_error_example :
    retry_delay 2 (codes (job_error (rate_limited (1500 * millisecond)) "").text)
    ≡ pos (1500 * millisecond)
retry_delay-job_error_example = retry_delay-job_error 1500 2 "" (omega arith)

keep_page_again_example :
    keep_page env run "https://go.dev/b"
      (codes "hi")
      (keep_page env run "https://go.dev/a" (codes "hi") start).1
    ≡ (
      none,
      record (keep_page env run "https://go.dev/a" (codes "hi") start).1 {
        stats =
            increment_duplicate (keep_page env run "https://go.dev/a" (codes "hi") start).1.stats;
      },
    )
unfolding clean_data trim_space trim_left trim_right clean_html finish collapse is_blank is_space
keep_page_again_example =
    keep_page_again env run run "https://go.dev/a" "https://go.dev/b" (codes "hi") (codes "hi")
      start new_sim_index-Stores refl

fetch_and_store_raw_guards_example :
    Untouched env start
      (fetch_and_store_raw env run (parse_job run "https://go.dev/doc" "") start).1
    ⊎ Granted env run (parse_job run "https://go.dev/doc" "") start
fetch_and_store_raw_guards_example =
    fetch_and_store_raw_guards env run (parse_job run "https://go.dev/doc" "") start
