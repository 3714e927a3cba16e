-- ===== src/Scoring.antt =====
-- internal/scraper/queues/score.go: how a URL's features become a score, and a score a queue.
-- A `time.Time` is the number of nanoseconds since the year 1, in which the zero time is 0. A duration is
-- a number of nanoseconds, and like every `int` here a ℤ; its `Minutes` and `Seconds` are floats that the
-- code cuts to an `int` and caps at 30, below which the cut float is the exact quotient.
pub mod Bounds
pub mod Priorities
pub mod Classify
mod Tests
use dev_search.Prelude.{
  ℕ, zero, suc, ◌+◌, ◌*◌, ◌-◌, Bool, true, false, not, ◌&&◌, ◌||◌, List, [], ◌∷◌, map, leb, ◌==◌,
  if◌then◌else◌,
}
use dev_search.Prelude.Text.{codes, contains_text}
use dev_search.Prelude.Int.{ℤ, pos, negsuc, ◌+ℤ◌, ◌-ℤ◌, ◌*ℤ◌, leb_ℤ, min_ℤ, quot, sub_ℕ}

pub data PriorityStatus : Type 0 where
  critical high normal low : PriorityStatus

-- Nanoseconds.
abbrev pub second : ℕ
second = 1_000_000_000

abbrev pub minute : ℕ
minute = 60_000_000_000

-- `time.Since(t)`
abbrev pub since : ℕ → ℕ → ℤ
since now t = sub_ℕ now t

pub record UrlMeta : Type 0 where
  pub depth : ℤ
  pub has_query_params : Bool
  pub is_docs : Bool
  pub is_api : Bool
  pub has_code_blocks : Bool
  pub inbound_links : ℤ
  pub is_blog : Bool
  pub first_seen_at : ℕ

unfoldable pub new_url_meta : ℕ → ℤ → UrlMeta
new_url_meta now depth = record {
  depth = depth;
  has_query_params = false;
  is_docs = false;
  is_api = false;
  has_code_blocks = false;
  inbound_links = pos 0;
  is_blog = false;
  first_seen_at = now;
}

-- The two fields of a `url.URL` that are read here, as code points.
pub record UrlParts : Type 0 where
  pub path : List ℕ
  pub raw_query : List ℕ

abbrev pub is_empty : List ℕ → Bool
is_empty [] = true
is_empty (c ∷ cs) = false

-- `lower` is `unicode.ToLower`, which `strings.ToLower` applies to each code point.
unfoldable pub classify_url : (ℕ → ℕ) → UrlParts → UrlMeta → UrlMeta
classify_url lower u meta =
    let path = map lower u.path in
    let docs =
      contains_text path (codes "/docs/")
      || contains_text path (codes "/guide/")
      || contains_text path (codes "/tutorial/") in
    let api = contains_text path (codes "/api/") || contains_text path (codes "/reference/") in
    let blog = contains_text path (codes "/blog/") || contains_text path (codes "/post/") in
    record meta {
      is_docs = if docs then true else meta.is_docs;
      is_api = if api then true else meta.is_api;
      is_blog = if blog then true else meta.is_blog;
      has_query_params = if is_empty u.raw_query then meta.has_query_params else true;
    }

-- The score at the time `now`.
unfoldable pub score_dev_url : ℕ → UrlMeta → ℤ
score_dev_url now u =
    let age = min_ℤ (quot (since now u.first_seen_at) minute) (pos 30) in
    quot (pos 30 -ℤ age) 2
    +ℤ (if leb_ℤ u.depth (pos 2) then pos 30 else pos 0)
    +ℤ (if not u.has_query_params then pos 10 else pos 0)
    +ℤ (if u.is_docs then pos 40 else pos 0)
    +ℤ (if u.is_api then pos 35 else pos 0)
    +ℤ (if u.has_code_blocks then pos 30 else pos 0)
    +ℤ min_ℤ (u.inbound_links *ℤ pos 3) (pos 30)
    -ℤ (if u.is_blog then pos 15 else pos 0)

unfoldable pub score_to_priority : ℤ → PriorityStatus
score_to_priority score =
    if leb_ℤ (pos 90) score
    then critical
    else if leb_ℤ (pos 60) score
    then high
    else if leb_ℤ (pos 30) score
    then normal
    else low

unfoldable pub apply_aging : ℤ → ℤ → ℤ
apply_aging base_score waited = base_score +ℤ min_ℤ (quot waited (30 * second)) (pos 30)
