-- ===== src/Crawler/Guards.antt =====
-- What must hold before a page is fetched.
use Prim.Native.String.{String}
use dev_search.Prelude.{
  ℕ, ◌≡◌, ◌⊎◌, refl, true, Bool-cases, inl, inr, Option, none, some, Option-cases, arith, ltb,
}
use dev_search.Prelude.Decimal.{text_of}
use dev_search.RateLimit.{reserve_domain_access}
use dev_search.Queue.{Job}
use dev_search.Normalizer.{Url, hostname}
use dev_search.Crawler.{DomainMeta, is_allowed_by_robots, get_domain_metadata}
use dev_search.Crawler.Handlers.{
  Env, Run, Crawl, unix_milli, set_limit, go_on, visit, fetch_and_store_raw,
}

module _ (env : Env) where
  -- The index, the stored objects, the queue and the counters are as before.
  abbrev pub Untouched : Crawl env → Crawl env → Type 0
  Untouched s t =
      (t.index ≡ s.index) × (t.objects ≡ s.objects) × (t.queue ≡ s.queue) × (t.stats ≡ s.stats)

  abbrev pub access : Run → Url → DomainMeta → Crawl env → Option ℕ
  access run parsed meta s =
      (reserve_domain_access env.duration_arg run.limiter_answers
        (s.limits (text_of (hostname parsed.host))) (unix_milli run.now) meta.crawl_delay).0

  -- The URL is valid, the metadata of its domain is there, its robots.txt allows it, and no wait is asked.
  abbrev pub Granted : Run → Job → Crawl env → Type 0
  Granted run job s =
      (parsed : Url) × (meta : DomainMeta) × (env.net.parse_url job.url ≡ some parsed)
      × ((get_domain_metadata env.net env.meta_redis run.now (hostname parsed.host) parsed.scheme
            s.metas).0
          ≡ some meta)
      × (is_allowed_by_robots env.net meta (env.net.url_string parsed) ≡ some true)
      × (access run parsed meta s ≡ some 0)

  go_on_guards :
      (run : Run) (url : String) (parsed : Url) (wait : Option ℕ) (s : Crawl env)
      → Untouched s (go_on env run url parsed wait s).1 ⊎ (wait ≡ some 0)
  unfolding go_on
  go_on_guards run url parsed none s = inl (refl, refl, refl, refl)
  go_on_guards run url parsed (some wait) s = elim (Bool-cases (ltb 0 wait)) [
    | inl waits ↦ inl (rw (waits) (refl, refl, refl, refl))
    | inr now ↦ inr (ground arith)
  ]

  visit_guards :
      (run : Run) (url : String) (parsed : Url) (meta : DomainMeta) (s : Crawl env)
      → Untouched s (visit env run url parsed meta s).1
        ⊎ ((is_allowed_by_robots env.net meta (env.net.url_string parsed) ≡ some true)
            × (access run parsed meta s ≡ some 0))
  unfolding visit
  visit_guards run url parsed meta s =
      elim (Option-cases (is_allowed_by_robots env.net meta (env.net.url_string parsed))) [
        | inl bad ↦ inl (rw (bad, visit) (refl, refl, refl, refl))
        | inr (allowed, e) ↦
            rw (e, visit)
              (elim (Bool-cases allowed) [
                | inr no_way ↦ inl (rw (no_way) (refl, refl, refl, refl))
                | inl okay ↦
                    let domain = text_of (hostname parsed.host) in
                    let (wait, next) =
                      reserve_domain_access env.duration_arg run.limiter_answers (s.limits domain)
                        (unix_milli run.now) meta.crawl_delay in
                    rw (okay)
                      (elim (go_on_guards run url parsed wait
                        (record s { limits = set_limit domain next s.limits })) [
                          | inl kept ↦ inl kept
                          | inr none_left ↦ inr (refl, none_left)
                        ])
              ])
      ]

  -- A run leaves the index, the stored objects, the queue and the counters as they were, unless the URL is
  -- valid, the metadata of its domain is known, the robots.txt allows the path and the rate limiter asks for no
  -- wait.
  pub fetch_and_store_raw_guards :
      (run : Run) (job : Job) (s : Crawl env)
      → Untouched s (fetch_and_store_raw env run job s).1 ⊎ Granted run job s
  unfolding fetch_and_store_raw
  fetch_and_store_raw_guards run job s = elim (Option-cases (env.net.parse_url job.url)) [
    | inl bad ↦ inl (rw (bad, fetch_and_store_raw) (refl, refl, refl, refl))
    | inr (parsed, e) ↦
        elim (Option-cases
          (get_domain_metadata env.net env.meta_redis run.now (hostname parsed.host) parsed.scheme
            s.metas).0) [
              | inl bad ↦ inl (rw (e, fetch_and_store_raw) (rw (bad) (refl, refl, refl, refl)))
              | inr (meta, found) ↦
                  rw (e, fetch_and_store_raw)
                    (rw (found)
                      (elim (visit_guards run job.url parsed meta (record s {
                        metas =
                            (get_domain_metadata env.net env.meta_redis run.now
                              (hostname parsed.host) parsed.scheme s.metas).1;
                      })) [
                        | inl kept ↦ inl kept
                        | inr (allowed, now) ↦ inr (parsed, meta, refl, found, allowed, now)
                      ]))
            ]
  ]
