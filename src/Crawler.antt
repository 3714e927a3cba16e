-- ===== src/Crawler.antt =====
-- internal/scraper/crawler/processes.go: from a URL to a stored page and a job to parse it.
-- A text that is fetched is the list of its code points. Of other code, package url is `parse_url` and
-- `url_string`, the robots.txt parser `robots_from_bytes`, the HTTP clients `send_robots` and `send`, and the
-- JSON and Base64 readers are functions of `Net`; `none` is an error of each.
pub mod Handlers
pub mod Errors
mod Again
mod Kept
pub mod Whole
mod Guards
pub mod Publish
pub mod Tests
use Prim.Native.String.{String}
use dev_search.Prelude.{
  ℕ, ◌+◌, ◌-◌, ◌*◌, ◌/◌, max, Bool, true, false, Option, none, some, List, [], ◌∷◌, ◌++◌, ltb,
  if◌then◌else◌,
}
use dev_search.Prelude.Int.{ℤ, pos, negsuc}
use dev_search.Prelude.Text.{codes}
use dev_search.Prelude.Decimal.{text_of}
use dev_search.Scoring.{second, minute}
use dev_search.RateLimit.{min_delay}
use dev_search.Redis.{Redis, set, Reply}
use dev_search.Normalizer.{Url}
use dev_search.Parsing.{ParsePayload}

abbrev pub user_agent : String
user_agent = "Dev_Search/1.0"

pub record DomainMeta : Type 0 where
  pub host : String
  pub robots_raw : List ℕ
  pub next_allowed_time : ℕ
  pub crawl_delay : ℕ

-- The text under `domainmeta:%s`: the JSON text of metadata, or any other.
pub data MetaText : Type 0 where
  meta_json : DomainMeta → MetaText
  plain : String → MetaText

-- `none` where the body cannot be read.
pub record Response : Type 0 where
  pub status : ℕ
  pub body : Option (List ℕ)

-- The rules of a robots.txt for a user agent.
pub record Group : Type 0 where
  pub crawl_delay : ℤ
  pub test : List ℕ → Bool

pub record GithubReadme : Type 0 where
  pub content : List ℕ
  pub encoding : String

-- `request_okay` says that a request can be made of the URL. The clients answer for a user agent, `none` for
-- that of package http.
pub record Net : Type 0 where
  pub parse_url : String → Option Url
  pub url_string : Url → String
  pub request_okay : String → Bool
  pub send_robots : Option String → String → Option Response
  pub send : Option String → String → Option Response
  pub robots_from_bytes : List ℕ → Option (String → Group)
  pub readme_of : List ℕ → Option GithubReadme
  pub decode_base64 : List ℕ → Option (List ℕ)
  pub marshal_payload : ParsePayload → Option String

abbrev pub body_of : Option Response → Option (List ℕ)
body_of none = none
body_of (some response) = response.body

abbrev pub day : ℕ
day = 24 * 60 * minute

abbrev pub delay_of : ℤ → ℕ
delay_of (pos n) = if ltb 0 n then n else 5 * second
delay_of (negsuc n) = 5 * second

module _ (net : Net) where
  open net use {parse_url, request_okay, send_robots, send, robots_from_bytes}

  unfoldable pub fetch_robots : String → Option (List ℕ)
  fetch_robots robots_url =
      if request_okay robots_url then body_of (send_robots none robots_url) else none

  unfoldable pub fetch_req : String → Option (List ℕ)
  fetch_req raw_url =
      if request_okay raw_url then body_of (send (some user_agent) raw_url) else none

  unfoldable pub is_allowed_by_robots : DomainMeta → String → Option Bool
  is_allowed_by_robots meta raw_url = elim (parse_url raw_url) [
    | none ↦ none
    | some parsed ↦ elim meta.robots_raw [
      | [] ↦ some true
      | c ∷ cs ↦ elim (robots_from_bytes (c ∷ cs)) [
        | none ↦ some true
        | some find_group ↦ some ((find_group user_agent).test parsed.path)
      ]
    ]
  ]

  -- The delay that `getDomainMetadata` reads off a robots.txt.
  unfoldable pub robots_delay : List ℕ → ℕ
  robots_delay body = elim (robots_from_bytes body) [
    | none ↦ 5 * second
    | some find_group ↦ delay_of (find_group user_agent).crawl_delay
  ]

abbrev pub robots_url : List ℕ → List ℕ → String
robots_url scheme domain = text_of (scheme ++ (codes "://" ++ (domain ++ codes "/robots.txt")))

module _ (net : Net) (r : Redis String MetaText) where
  open r use {Store, exec, get}

  -- The function that `getDomainMetadata` gives to the group; one call for a domain runs at a time.
  unfoldable pub fetch_metadata : ℕ → List ℕ → List ℕ → Store → Option DomainMeta × Store
  fetch_metadata now domain scheme s = elim (fetch_robots net (robots_url scheme domain)) [
    | none ↦ (none, s)
    | some body ↦
        let meta : DomainMeta = record {
          host = text_of domain;
          robots_raw = body;
          next_allowed_time = now;
          crawl_delay = robots_delay net body;
        } in
        let (t, okay) = exec (set (text_of domain) (meta_json meta) day ∷ []) s in
        (if okay then some meta else none, t)
  ]

  unfoldable pub get_domain_metadata : ℕ → List ℕ → List ℕ → Store → Option DomainMeta × Store
  get_domain_metadata now domain scheme s = elim (get (text_of domain) s) [
    | Reply.found (meta_json meta) ↦ (some meta, s)
    | Reply.found (plain text) ↦ (none, s)
    | Reply.missing ↦ fetch_metadata now domain scheme s
    | Reply.error ↦ (none, s)
  ]
