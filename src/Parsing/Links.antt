-- ===== src/Parsing/Links.antt =====
-- The links of a page: `normalizePageURL`, `getUrlMeta` and the loop of `ExtractTextAndStore` over them, in
-- internal/scraper/parsing/parsing.go.
use Prim.Native.String.{String}
use dev_search.Prelude.{
  ℕ, ◌≡◌, ◌≢◌, Bool, true, false, Option, none, some, List, [], ◌∷◌, if◌then◌else◌,
}
use dev_search.Prelude.Int.{ℤ, pos, ◌+ℤ◌}
use dev_search.Prelude.Decimal.{text_of}
use dev_search.Prelude.Strings.{trim_space}
use dev_search.Scoring.{UrlMeta, new_url_meta, classify_url, score_dev_url}
use dev_search.Redis.{Redis}
use dev_search.Queue.{Job, Key, Value, new_job}
use dev_search.Queue.Ops.{enqueue}
use dev_search.Normalizer.{Url, Library, hostname, run_normalization_pipeline}
use dev_search.Parsing.{Pages}
use dev_search.Parsing.Extract.{is_empty}

-- The text under `urlmeta:%s`: the JSON text of metadata, or any other.
pub data MetaText : Type 0 where
  url_meta_json : UrlMeta → MetaText
  plain : String → MetaText

-- The keys `urlmeta:%s` of Redis. SETNX answers whether it wrote; `none` is an error, as for GET, and the
-- Boolean of SET says whether it succeeded. SETNX writes exactly to a key that is missing, and a command
-- touches its own key only. Both take an expiry; with one of 0 a key does not expire, and of a key that is written
-- with another one nothing is assumed.
pub record MetaServer : Type 1 where
  pub Store : Type 0
  pub lookup : Store → List ℕ → Option MetaText
  pub set_nx : List ℕ → MetaText → ℕ → Store → Store × Option Bool
  pub get : List ℕ → Store → Option (Option MetaText)
  pub set : List ℕ → MetaText → ℕ → Store → Store × Bool
  pub set_nx_added :
      (key : List ℕ) (text : MetaText) (s : Store)
      → (set_nx key text 0 s).1 ≡ some true
      → (lookup s key ≡ none) × (lookup (set_nx key text 0 s).0 key ≡ some text)
  pub set_nx_refused :
      (key : List ℕ) (text : MetaText) (s : Store)
      → (set_nx key text 0 s).1 ≡ some false
      → (lookup s key ≢ none) × ((set_nx key text 0 s).0 ≡ s)
  pub set_nx_other :
      (key : List ℕ) (text : MetaText) (s : Store) (other : List ℕ)
      → key ≢ other
      → lookup (set_nx key text 0 s).0 other ≡ lookup s other
  pub get_lookup :
      (key : List ℕ) (s : Store) (answer : Option MetaText)
      → get key s ≡ some answer
      → lookup s key ≡ answer
  pub set_text :
      (key : List ℕ) (text : MetaText) (s : Store)
      → lookup s key ≢ none
      → lookup (set key text 0 s).0 key ≢ none
  pub set_other :
      (key : List ℕ) (text : MetaText) (s : Store) (other : List ℕ)
      → key ≢ other
      → lookup (set key text 0 s).0 other ≡ lookup s other

-- What `normalizePageURL` returns: a URL or an error. A canonical URL that cannot be resolved against the nil
-- pointer is a panic.
pub data Normal : Type 0 where
  normal : List ℕ → Normal
  unusable panics : Normal

abbrev pub of_pipeline : Option (List ℕ) → Normal
of_pipeline none = unusable
of_pipeline (some url) = normal url

-- `lib` is what the normalizer uses. `new_id` is the fresh ID of the job for a URL.
pub record Env : Type 1 where
  pub pages : Pages
  pub lib : Library
  pub metas : MetaServer
  pub redis : Redis Key Value
  pub frontier : String
  pub new_id : List ℕ → String

pub record State (M Q : Type 0) : Type 0 where
  pub metas : M
  pub queue : Q

abbrev pub Crawled : Env → Type 0
Crawled env = State env.metas.Store env.redis.Store

-- `extractCanonicalURL`; `none` is an error, and the empty text stands for no canonical URL.
unfoldable pub extract_canonical_url : Pages → List ℕ → Option (List ℕ)
extract_canonical_url pages raw_html = elim (pages.canonical raw_html) [
  | none ↦ none
  | some none ↦ some []
  | some (some href) ↦ some (trim_space href)
]

module _ (env : Env) where
  open env use {pages, lib, metas, redis, frontier, new_id}

  unfoldable pub normalize_page_url : List ℕ → List ℕ → Normal
  normalize_page_url raw_url canonical =
      if is_empty canonical
      then of_pipeline (run_normalization_pipeline lib raw_url)
      else elim (pages.parse_url canonical) [
        | none ↦ of_pipeline (run_normalization_pipeline lib raw_url)
        | some canon_parsed ↦ elim (pages.resolve (pages.parse_url raw_url) canon_parsed) [
          | none ↦ panics
          | some resolved ↦ of_pipeline (run_normalization_pipeline lib (pages.url_string resolved))
        ]
      ]

  -- `none` is an error, `some none` the nil pointer for a URL that is not known.
  unfoldable pub get_url_meta : List ℕ → metas.Store → Option (Option UrlMeta)
  get_url_meta current_url s = elim (metas.get current_url s) [
    | none ↦ none
    | some none ↦ some none
    | some (some (url_meta_json meta)) ↦ some (some meta)
    | some (some (plain text)) ↦ none
  ]

  -- The URL was known: one more link leads to it. An error of SET is passed over.
  unfoldable pub count_link : List ℕ → metas.Store → metas.Store
  count_link url s = elim (get_url_meta url s) [
    | some (some meta) ↦
        (metas.set url (url_meta_json (record meta { inbound_links = meta.inbound_links +ℤ pos 1 }))
          0 s).0
    | _ ↦ s
  ]

  abbrev pub crawl_job : ℕ → List ℕ → UrlMeta → Job
  crawl_job now url meta = record (new_job (new_id url) now (text_of url)) {
    typ = "crawl";
    base_score = score_dev_url now meta;
  }

  abbrev pub found_meta : ℕ → ℤ → Url → UrlMeta
  found_meta now next_depth parsed =
      classify_url pages.lower (record { path = parsed.path; raw_query = parsed.raw_query })
        (new_url_meta now next_depth)

  -- The loop's body from the answer of SETNX on.
  unfoldable pub settle_link :
      ℕ → List ℕ → UrlMeta → metas.Store × Option Bool → redis.Store → Crawled env
  settle_link now url meta (m, none) q = record { metas = m; queue = q }
  settle_link now url meta (m, some false) q = record { metas = count_link url m; queue = q }
  settle_link now url meta (m, some true) q = record {
    metas = m;
    queue = (enqueue redis frontier now (crawl_job now url meta) q).1;
  }

  -- The loop's body for a normalized URL.
  unfoldable pub visit_link : ℕ → ℤ → List ℕ → Crawled env → Crawled env
  visit_link now next_depth url s = elim (pages.parse_url url) [
    | none ↦ s
    | some parsed ↦
        let meta = found_meta now next_depth parsed in
        if is_empty (hostname parsed.host)
        then s
        else settle_link now url meta (metas.set_nx url (url_meta_json meta) 0 s.metas) s.queue
  ]

  -- The loop; `false` is a panic.
  unfoldable pub follow_links : ℕ → ℤ → List ℕ → List (List ℕ) → Crawled env → Crawled env × Bool
  follow_links now next_depth canonical [] s = (s, true)
  follow_links now next_depth canonical (u ∷ us) s = elim (normalize_page_url u canonical) [
    | panics ↦ (s, false)
    | unusable ↦ follow_links now next_depth canonical us s
    | normal url ↦ follow_links now next_depth canonical us (visit_link now next_depth url s)
  ]
