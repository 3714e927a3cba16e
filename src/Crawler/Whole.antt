-- ===== src/Crawler/Whole.antt =====
-- The index and the counters through a whole run of the crawler.
use Prim.Native.String.{String}
use dev_search.Prelude.{
  ℕ, ◌≡◌, inl, inr, true, false, Bool-cases, Option, none, some, Option-cases, List, List-cases,
  arith, ltb,
}
use dev_search.Prelude.Text.{codes, string_discrete}
use dev_search.Prelude.Strings.{same_text}
use dev_search.Queue.{Job}
use dev_search.Worker.{add_bytes, add_fetch_latency}
use dev_search.Normalizer.{Url, hostname}
use dev_search.Crawler.{
  GithubReadme, DomainMeta, fetch_req, is_allowed_by_robots, get_domain_metadata,
}
use dev_search.Crawler.Handlers.{
  CrawlError, base64_failed, Env, Run, Crawl, path_parts, readme_api, repo_url, fetch_page,
  keep_readme, read_repo, process_github_repo, go_on, visit, fetch_and_store_raw,
}
use dev_search.Crawler.Kept.{Before, Ends, stays, keep_page-Ends, keep_readme-Ends}

module _ (env : Env) (processed failed dups fetches : ℕ) where
  abbrev pub Starts : Crawl env → Type 0
  Starts s = Before env processed failed dups fetches s.index s.stats

  abbrev pub Done : Option CrawlError × Crawl env → Type 0
  Done x = Ends env processed failed dups fetches x

  kept : (err : Option CrawlError) (s : Crawl env) → Starts s → Done (err, s)
  kept err s h = stays env processed failed dups fetches err s h

  fetch_page-Ends :
      (run : Run) (url raw_url : String) (s : Crawl env)
      → Starts s
      → Done (fetch_page env run url raw_url s)
  unfolding fetch_page add_bytes add_fetch_latency
  fetch_page-Ends run url raw_url s (sep, counted, same, few) =
      elim (Option-cases (fetch_req env.net raw_url)) [
        | inl bad ↦ rw (bad, fetch_page) (kept _ s (sep, counted, same, few))
        | inr (body, e) ↦
            rw (e, fetch_page)
              (keep_page-Ends env processed failed dups fetches run url body _
                (sep, counted, same, omega arith))
      ]

  abbrev decoded_or :
      Run
      → List ℕ
      → List ℕ
      → List ℕ
      → (readme : GithubReadme) → Crawl env
      → Dec (readme.encoding ≡ "base64")
      → Option CrawlError × Crawl env
  decoded_or run owner repo body readme s same = elim same as (λ x. Option CrawlError × Crawl env) [
    | no ne ↦ (none, s)
    | yes e ↦ elim (env.net.decode_base64 readme.content) as (λ x. Option CrawlError × Crawl env) [
      | none ↦ (some base64_failed, s)
      | some decoded ↦ keep_readme env run (repo_url owner repo) body decoded s
    ]
  ]

  decoded-Ends :
      (run : Run) (owner repo body : List ℕ) (readme : GithubReadme) (s : Crawl env)
      → Starts s
      → (same : Dec (readme.encoding ≡ "base64"))
      → Done (decoded_or run owner repo body readme s same)
  decoded-Ends run owner repo body readme s h (no ne) = kept _ s h
  decoded-Ends run owner repo body readme s h (yes e) =
      elim (Option-cases (env.net.decode_base64 readme.content)) [
        | inl bad ↦ rw (bad, decoded_or) (kept _ s h)
        | inr (decoded, g) ↦
            rw (g, decoded_or)
              (keep_readme-Ends env processed failed dups fetches run (repo_url owner repo) body
                decoded s h)
      ]

  read_repo-Ends :
      (run : Run) (owner repo : List ℕ) (s : Crawl env)
      → Starts s
      → Done (read_repo env run owner repo s)
  unfolding read_repo
  read_repo-Ends run owner repo s h =
      elim (Option-cases (fetch_req env.net (readme_api owner repo))) [
        | inl bad ↦ rw (bad, read_repo) (kept _ s h)
        | inr (body, e) ↦
            rw (e, read_repo)
              (elim (Option-cases (env.net.readme_of body)) [
                | inl bad ↦ rw (bad, read_repo) (kept _ s h)
                | inr (readme, f) ↦
                    rw (f, read_repo)
                      (decoded-Ends run owner repo body readme s h
                        (string_discrete readme.encoding "base64"))
              ])
      ]

  process_github_repo-Ends :
      (run : Run) (parsed : Url) (s : Crawl env)
      → Starts s
      → Done (process_github_repo env run parsed s)
  unfolding process_github_repo
  process_github_repo-Ends run parsed s h = elim (List-cases (path_parts parsed.path)) [
    | inl e ↦ rw (e, process_github_repo) (kept _ s h)
    | inr (owner, rest, e) ↦ elim (List-cases rest) [
      | inl f ↦ rw (e, f, process_github_repo) (kept _ s h)
      | inr (repo, others, f) ↦ rw (e, f, process_github_repo) (read_repo-Ends run owner repo s h)
    ]
  ]

  go_on-Ends :
      (run : Run) (url : String) (parsed : Url) (wait : Option ℕ) (s : Crawl env)
      → Starts s
      → Done (go_on env run url parsed wait s)
  unfolding go_on
  go_on-Ends run url parsed none s h = kept _ s h
  go_on-Ends run url parsed (some wait) s h = elim (Bool-cases (ltb 0 wait)) [
    | inl waits ↦ rw (waits) (kept _ s h)
    | inr now ↦
        rw (now) (elim (Bool-cases (same_text (hostname parsed.host) (codes "github.com"))) [
          | inl github ↦ rw (github) (process_github_repo-Ends run parsed s h)
          | inr other ↦ rw (other) (fetch_page-Ends run url _ s h)
        ])
  ]

  visit-Ends :
      (run : Run) (url : String) (parsed : Url) (meta : DomainMeta) (s : Crawl env)
      → Starts s
      → Done (visit env run url parsed meta s)
  unfolding visit
  visit-Ends run url parsed meta s h =
      elim (Option-cases (is_allowed_by_robots env.net meta (env.net.url_string parsed))) [
        | inl bad ↦ rw (bad, visit) (kept _ s h)
        | inr (true, e) ↦ rw (e, visit) (go_on-Ends run url parsed _ _ h)
        | inr (false, e) ↦ rw (e, visit) (kept _ s h)
      ]

  -- A run of the crawler keeps the fingerprints of the index apart, counts at most one duplicate, for a page that
  -- it fetched, and only when it returns nil, and does not count jobs.
  pub fetch_and_store_raw-Ends :
      (run : Run) (job : Job) (s : Crawl env) → Starts s → Done (fetch_and_store_raw env run job s)
  unfolding fetch_and_store_raw
  fetch_and_store_raw-Ends run job s h = elim (Option-cases (env.net.parse_url job.url)) [
    | inl bad ↦ rw (bad, fetch_and_store_raw) (kept _ s h)
    | inr (parsed, e) ↦
        rw (e, fetch_and_store_raw)
          (elim (Option-cases
            (get_domain_metadata env.net env.meta_redis run.now (hostname parsed.host) parsed.scheme
              s.metas).0) [
                | inl bad ↦ rw (bad, fetch_and_store_raw) (kept _ s h)
                | inr (meta, found) ↦
                    rw (found, fetch_and_store_raw) (visit-Ends run job.url parsed meta _ h)
              ])
  ]
