-- ===== src/Crawler/Handlers.antt =====
-- `FetchAndStoreRaw` and `processGithubRepo` of internal/scraper/crawler/processes.go.
use Prim.Native.String.{String}
use mathlib.Core.Option
use dev_search.Prelude.{
  ℕ, ◌-◌, ◌*◌, ◌/◌, Bool, true, false, Option, none, some, List, [], ◌∷◌, ◌++◌, map, ltb,
  if◌then◌else◌,
}
use dev_search.Prelude.Text.{codes, string_discrete}
use dev_search.Prelude.Strings.{same_text, split, trim_left, trim_right}
use dev_search.Prelude.Decimal.{text_of}
use dev_search.Simhash.{
  SimhashIndex, shingle_size, max_hamming_dist, shingles, sim_hash, is_near_duplicate, compute_hash,
}
use dev_search.RateLimit.{reserve_domain_access}
use dev_search.Redis.{Redis}
use dev_search.Queue.{Job, Key, Value, RawMessage, new_job}
use dev_search.Queue.Ops.{enqueue}
use dev_search.Storage.{ObjectKey, ObjectServer, is_empty_name, object_name, store_raw_data}
use dev_search.Cleaning.{Reader, source_html, source_md, clean_data, tokenize}
use dev_search.Document.{byte_length}
use dev_search.Worker.{CrawlStats, increment_duplicate, add_bytes, add_fetch_latency}
use dev_search.Normalizer.{Url, hostname}
use dev_search.Normalizer.Paths.{is_slash}
use dev_search.Parsing.{new_parse_payload}
use dev_search.Crawler.{
  DomainMeta, MetaText, Net, fetch_req, is_allowed_by_robots, get_domain_metadata,
}

-- `rate_limited` wraps `ErrRateLimited`. A wait is in nanoseconds. `panicked` is no error but the end of the
-- program.
pub data CrawlError : Type 0 where
  bad_url meta_failed robots_failed limiter_failed clean_failed store_failed payload_failed
        enqueue_failed :
      CrawlError
  readme_failed base64_failed clean_md_failed store_md_failed panicked : CrawlError
  rate_limited : ℕ → CrawlError
  fetch_failed empty_name empty_payload invalid_repo fetch_repo_failed missing_payload :
      String → CrawlError

-- What a run meets outside the program: the time, whether the script answers, how long the fetch takes, and
-- the fresh ID.
pub record Run : Type 0 where
  pub now : ℕ
  pub limiter_answers : Bool
  pub took : ℕ
  pub job_id : String

-- `metas` and `limits` are the keys `domainmeta:%s` and `ratelimit:%s` of Redis, `queue` those of the queue.
pub record State (O Q M : Type 0) : Type 0 where
  pub index : SimhashIndex
  pub objects : O
  pub queue : Q
  pub metas : M
  pub limits : String → Option ℕ
  pub stats : CrawlStats

-- `time.Now().UnixMilli()`, the year 1970 being 719162 days after the year 1.
unfoldable pub unix_milli : ℕ → ℕ
unix_milli now = now / 1_000_000 - 719_162 * 86_400_000

abbrev pub set_limit : String → Option ℕ → (String → Option ℕ) → String → Option ℕ
set_limit key value limits other = elim (string_discrete other key) [
  | yes e ↦ value
  | no ne ↦ limits other
]

-- The fingerprint of a cleaned text; `none` is a panic.
unfoldable pub fingerprint : (String → ℕ) → List ℕ → Option ℕ
fingerprint sum64 cleaned =
    Option.map (sim_hash sum64) (shingles (map text_of (tokenize cleaned)) shingle_size)

-- `strings.Split(strings.Trim(path, "/"), "/")`
unfoldable pub path_parts : List ℕ → List (List ℕ)
path_parts path = split b'/' (trim_right is_slash (trim_left is_slash path))

abbrev pub repo_url : List ℕ → List ℕ → String
repo_url owner repo = text_of (codes "https://github.com/" ++ (owner ++ (codes "/" ++ repo)))

abbrev pub readme_api : List ℕ → List ℕ → String
readme_api owner repo =
    text_of
      (codes "https://api.github.com/repos/" ++ (owner ++ (codes "/" ++ (repo ++ codes "/readme"))))

abbrev pub parse_job : Run → String → String → Job
parse_job run url payload = record (new_job run.job_id run.now url) {
  typ = "parse";
  payload = RawMessage.json payload;
}

-- What the crawler is given: the code that is not the program's own, the servers, and the queue's name.
pub record Env : Type 1 where
  pub net : Net
  pub reader : Reader
  pub sum64 : String → ℕ
  pub duration_arg : ℕ → ℕ
  pub obj : ObjectServer
  pub redis : Redis Key Value
  pub meta_redis : Redis String MetaText
  pub parse_queue : String

abbrev pub Crawl : Env → Type 0
Crawl env = State env.obj.Store env.redis.Store env.meta_redis.Store

module _ (env : Env) where
  open env use {net, reader, sum64, duration_arg, obj, redis, meta_redis, parse_queue}

  -- The parse job, from the payload on; `empty` is the error for a payload without bytes.
  unfoldable pub queue_parse :
      Run → CrawlError → String → ObjectKey → ℕ → String → Crawl env → Option CrawlError × Crawl env
  queue_parse run empty url name hash typ s =
      elim (net.marshal_payload (new_parse_payload (object_name name) hash typ)) [
        | none ↦ (some payload_failed, s)
        | some payload ↦
            let (job, t, err) =
              enqueue redis parse_queue run.now (parse_job run url payload) s.queue in
            elim (codes payload) [
              | [] ↦ (some empty, s)
              | c ∷ cs ↦
                  (elim err [ none ↦ none | some e ↦ some enqueue_failed ], record s { queue = t })
            ]
      ]

  -- The page is unique: it is stored, and a job to parse it is queued.
  unfoldable pub store_page : Run → String → List ℕ → ℕ → Crawl env → Option CrawlError × Crawl env
  store_page run url body hash s =
      let (name, objects) = store_raw_data obj (text_of body) url "html" hash s.objects in
      let t : Crawl env = record s { objects = objects } in
      elim name [
        | none ↦ (some store_failed, t)
        | some key ↦
            if is_empty_name key
            then (some (empty_name url), t)
            else queue_parse run (empty_payload url) url key hash "html" t
      ]

  unfoldable pub store_readme :
      Run → String → List ℕ → ℕ → Crawl env → Option CrawlError × Crawl env
  store_readme run url body hash s =
      let (name, objects) = store_raw_data obj (text_of body) url "github" hash s.objects in
      let t : Crawl env = record s { objects = objects } in
      elim name [
        | none ↦ (some store_md_failed, t)
        | some key ↦ queue_parse run (missing_payload run.job_id) url key hash "md" t
      ]

  -- From the body on. The index is changed before the page is stored.
  unfoldable pub keep_page : Run → String → List ℕ → Crawl env → Option CrawlError × Crawl env
  keep_page run url body s = elim (clean_data reader body source_html) [
    | none ↦ (some clean_failed, s)
    | some cleaned ↦ elim (fingerprint sum64 cleaned) [
      | none ↦ (some panicked, s)
      | some hash ↦
          let (index, dup) = is_near_duplicate s.index hash max_hamming_dist in
          let t : Crawl env = record s { index = index } in
          if dup
          then (none, record t { stats = increment_duplicate t.stats })
          else store_page run url body (compute_hash sum64 (text_of cleaned)) t
    ]
  ]

  unfoldable pub fetch_page : Run → String → String → Crawl env → Option CrawlError × Crawl env
  fetch_page run url raw_url s = elim (fetch_req net raw_url) [
    | none ↦ (some (fetch_failed raw_url), s)
    | some body ↦
        keep_page run url body
          (record s { stats = add_bytes (byte_length body) (add_fetch_latency run.took s.stats) })
  ]

  -- From the decoded text of the README on. What is stored is the answer of the API, not that text.
  unfoldable pub keep_readme :
      Run → String → List ℕ → List ℕ → Crawl env → Option CrawlError × Crawl env
  keep_readme run url body decoded s = elim (clean_data reader decoded source_md) [
    | none ↦ (some clean_md_failed, s)
    | some cleaned ↦ elim (fingerprint sum64 cleaned) [
      | none ↦ (some panicked, s)
      | some hash ↦
          let (index, dup) = is_near_duplicate s.index hash max_hamming_dist in
          let t : Crawl env = record s { index = index } in
          if dup
          then (none, t)
          else store_readme run url body (compute_hash sum64 (text_of cleaned)) t
    ]
  ]

  unfoldable pub read_repo : Run → List ℕ → List ℕ → Crawl env → Option CrawlError × Crawl env
  read_repo run owner repo s = elim (fetch_req net (readme_api owner repo)) [
    | none ↦ (some (fetch_repo_failed (readme_api owner repo)), s)
    | some body ↦ elim (net.readme_of body) [
      | none ↦ (some readme_failed, s)
      | some readme ↦ elim (string_discrete readme.encoding "base64") [
        | no ne ↦ (none, s)
        | yes e ↦ elim (net.decode_base64 readme.content) [
          | none ↦ (some base64_failed, s)
          | some decoded ↦ keep_readme run (repo_url owner repo) body decoded s
        ]
      ]
    ]
  ]

  unfoldable pub process_github_repo : Run → Url → Crawl env → Option CrawlError × Crawl env
  process_github_repo run parsed s = elim (path_parts parsed.path) [
    | owner ∷ repo ∷ rest ↦ read_repo run owner repo s
    | _ ↦ (some (invalid_repo (net.url_string parsed)), s)
  ]

  -- From the answer of the rate limiter on.
  unfoldable pub go_on : Run → String → Url → Option ℕ → Crawl env → Option CrawlError × Crawl env
  go_on run url parsed none s = (some limiter_failed, s)
  go_on run url parsed (some wait) s =
      if ltb 0 wait
      then (some (rate_limited wait), s)
      else if same_text (hostname parsed.host) (codes "github.com")
      then process_github_repo run parsed s
      else fetch_page run url (net.url_string parsed) s

  -- From the metadata of the domain on.
  unfoldable pub visit : Run → String → Url → DomainMeta → Crawl env → Option CrawlError × Crawl env
  visit run url parsed meta s = elim (is_allowed_by_robots net meta (net.url_string parsed)) [
    | none ↦ (some robots_failed, s)
    | some false ↦ (none, s)
    | some true ↦
        let domain = text_of (hostname parsed.host) in
        let (wait, next) =
          reserve_domain_access duration_arg run.limiter_answers (s.limits domain)
            (unix_milli run.now) meta.crawl_delay in
        go_on run url parsed wait (record s { limits = set_limit domain next s.limits })
  ]

  unfoldable pub fetch_and_store_raw : Run → Job → Crawl env → Option CrawlError × Crawl env
  fetch_and_store_raw run job s = elim (net.parse_url job.url) [
    | none ↦ (some bad_url, s)
    | some parsed ↦
        let (meta, metas) =
          get_domain_metadata net meta_redis run.now (hostname parsed.host) parsed.scheme s.metas in
        let t : Crawl env = record s { metas = metas } in
        elim meta [ none ↦ (some meta_failed, t) | some found ↦ visit run job.url parsed found t ]
  ]
