-- ===== src/Crawler/Kept.antt =====
-- The index and the counters through a run of the crawler.
use Prim.Native.String.{String}
use dev_search.Prelude.{
  ℕ, ◌^◌, ◌<◌, ◌≤◌, ◌+◌, ◌⊎◌, ◌≡◌, inl, inr, refl, Bool-cases, Option, none, some, Option-cases,
  List, map, List-cases, arith,
}
use dev_search.Prelude.Text.{codes}
use dev_search.Prelude.Decimal.{text_of}
use dev_search.Simhash.{
  SimhashIndex, max_hamming_dist, shingle_size, shingles, sim_hash, is_near_duplicate,
}
use dev_search.Simhash.Fingerprint.{sim_hash-lt}
use dev_search.Simhash.Separation.{Separated, is_near_duplicate-Separated}
use dev_search.Storage.{object_name, ObjectKey, store_raw_data, is_empty_name}
use dev_search.Cleaning.{source_html, source_md, clean_data, tokenize}
use dev_search.Worker.{CrawlStats, increment_duplicate}
use dev_search.Parsing.{new_parse_payload}
use dev_search.Crawler.Handlers.{
  CrawlError, Env, Run, Crawl, fingerprint, queue_parse, store_page, store_readme, keep_page,
  keep_readme,
}

module _ (env : Env) where
  -- The index and the counters are as before.
  abbrev pub Same : Crawl env → Crawl env → Type 0
  Same s t = (t.index ≡ s.index) × (t.stats ≡ s.stats)

  queue_parse-Same :
      (run : Run) (empty : CrawlError) (url : String) (name : ObjectKey) (hash : ℕ) (typ : String)
      (s : Crawl env)
      → Same s (queue_parse env run empty url name hash typ s).1
  unfolding queue_parse
  queue_parse-Same run empty url name hash typ s =
      elim (Option-cases
        (env.net.marshal_payload (new_parse_payload (object_name name) hash typ))) [
          | inl bad ↦ rw (bad, queue_parse) (refl, refl)
          | inr (payload, good) ↦
              rw (good, queue_parse)
                (elim (List-cases (codes payload)) [
                  | inl e ↦ rw (e, queue_parse) (refl, refl)
                  | inr (c, cs, e) ↦ rw (e, queue_parse) (refl, refl)
                ])
        ]

  pub store_page-Same :
      (run : Run) (url : String) (body : List ℕ) (hash : ℕ) (s : Crawl env)
      → Same s (store_page env run url body hash s).1
  unfolding store_page
  store_page-Same run url body hash s =
      elim (Option-cases (store_raw_data env.obj (text_of body) url "html" hash s.objects).0) [
        | inl bad ↦ rw (bad, store_page) (refl, refl)
        | inr (key, good) ↦
            rw (good, store_page)
              (elim (Bool-cases (is_empty_name key)) [
                | inl e ↦ rw (e) (refl, refl)
                | inr e ↦ rw (e) (queue_parse-Same run _ url key hash "html" _)
              ])
      ]

  pub store_readme-Same :
      (run : Run) (url : String) (body : List ℕ) (hash : ℕ) (s : Crawl env)
      → Same s (store_readme env run url body hash s).1
  unfolding store_readme
  store_readme-Same run url body hash s =
      elim (Option-cases (store_raw_data env.obj (text_of body) url "github" hash s.objects).0) [
        | inl bad ↦ rw (bad, store_readme) (refl, refl)
        | inr (key, good) ↦ rw (good, store_readme) (queue_parse-Same run _ url key hash "md" _)
      ]

module _ (env : Env) (processed failed dups fetches : ℕ) where
  abbrev pub Counted : CrawlStats → Type 0
  Counted c = (c.processed_pages ≡ processed) × (c.errors ≡ failed)

  -- What holds before a run, with the counts there, and after a fetch.
  abbrev pub Before : SimhashIndex → CrawlStats → Type 0
  Before index c = Separated index × Counted c × (c.duplicates ≡ dups) × (fetches ≤ c.fetch_count)

  abbrev pub Fetched : SimhashIndex → CrawlStats → Type 0
  Fetched index c = Separated index × Counted c × (c.duplicates ≡ dups) × (fetches < c.fetch_count)

  -- What holds after a run: a duplicate was counted only for a page that was fetched, when the run returns nil.
  abbrev pub After : Option CrawlError → SimhashIndex → CrawlStats → Type 0
  After err index c =
      Separated index
      × Counted c
      × (((c.duplicates ≡ dups) × (fetches ≤ c.fetch_count))
          ⊎ ((err ≡ none) × (c.duplicates ≡ dups + 1) × (fetches < c.fetch_count)))

  abbrev pub Ends : Option CrawlError × Crawl env → Type 0
  Ends x = After x.0 x.1.index x.1.stats

  pub stays : (err : Option CrawlError) (s : Crawl env) → Before s.index s.stats → Ends (err, s)
  stays err s (sep, counted, same, fewer) = (sep, counted, inl (same, fewer))

  missed : (err : Option CrawlError) (s : Crawl env) → Fetched s.index s.stats → Ends (err, s)
  missed err s (sep, counted, same, fewer) = (sep, counted, inl (same, omega arith))

  Same-Ends :
      (s : Crawl env) (x : Option CrawlError × Crawl env)
      → Same env s x.1
      → Before s.index s.stats
      → Ends x
  Same-Ends s (err, t) (e, f) h = stays err t (rw (e, f) h)

  seen :
      (s : Crawl env)
      → Fetched s.index s.stats
      → Ends (none, record s { stats = increment_duplicate s.stats })
  unfolding increment_duplicate
  seen s (sep, counted, same, fewer) = (sep, counted, inr (refl, omega arith, fewer))

  store_page-Ends :
      (run : Run) (url : String) (body : List ℕ) (hash : ℕ) (s : Crawl env)
      → Before s.index s.stats
      → Ends (store_page env run url body hash s)
  store_page-Ends run url body hash s h =
      Same-Ends s (store_page env run url body hash s) (store_page-Same env run url body hash s) h

  store_readme-Ends :
      (run : Run) (url : String) (body : List ℕ) (hash : ℕ) (s : Crawl env)
      → Before s.index s.stats
      → Ends (store_readme env run url body hash s)
  store_readme-Ends run url body hash s h =
      Same-Ends s (store_readme env run url body hash s) (store_readme-Same env run url body hash s)
        h

  fingerprint-lt :
      (cleaned : List ℕ) (hash : ℕ) → fingerprint env.sum64 cleaned ≡ some hash → hash < 2 ^ 64
  unfolding fingerprint
  fingerprint-lt cleaned hash e =
      elim (Option-cases (shingles (map text_of (tokenize cleaned)) shingle_size)) [
        | inl bad ↦ cc (rw (bad) at e)
        | inr (shs, good) ↦
            let same : sim_hash env.sum64 shs ≡ hash = cc (rw (good) at e) in
            rw (← same) (sim_hash-lt env.sum64 shs)
      ]

  -- The index after a screening, in place of the index before.
  abbrev screened : ℕ → Crawl env → Crawl env
  screened hash s = record s { index = (is_near_duplicate s.index hash max_hamming_dist).0 }

  pub keep_page-Ends :
      (run : Run) (url : String) (body : List ℕ) (s : Crawl env)
      → Fetched s.index s.stats
      → Ends (keep_page env run url body s)
  unfolding keep_page
  keep_page-Ends run url body s h = elim (Option-cases (clean_data env.reader body source_html)) [
    | inl bad ↦ rw (bad, keep_page) (missed _ s h)
    | inr (cleaned, good) ↦
        rw (good, keep_page)
          (elim (Option-cases (fingerprint env.sum64 cleaned)) [
            | inl panics ↦ rw (panics, keep_page) (missed _ s h)
            | inr (hash, e) ↦
                let next =
                  is_near_duplicate-Separated s.index hash h.0 (fingerprint-lt cleaned hash e) in
                rw (e, keep_page)
                  (elim (Bool-cases (is_near_duplicate s.index hash max_hamming_dist).1) [
                    | inl dup ↦ rw (dup) (seen (screened hash s) (next, h.1, h.2, h.3))
                    | inr new ↦ rw (new) (
                        store_page-Ends run url body _ (screened hash s)
                          (next, h.1, h.2, omega (arith, h.3)))
                  ])
          ])
  ]

  pub keep_readme-Ends :
      (run : Run) (url : String) (body decoded : List ℕ) (s : Crawl env)
      → Before s.index s.stats
      → Ends (keep_readme env run url body decoded s)
  unfolding keep_readme
  keep_readme-Ends run url body decoded s h =
      elim (Option-cases (clean_data env.reader decoded source_md)) [
        | inl bad ↦ rw (bad, keep_readme) (stays _ s h)
        | inr (cleaned, good) ↦
            rw (good, keep_readme)
              (elim (Option-cases (fingerprint env.sum64 cleaned)) [
                | inl panics ↦ rw (panics, keep_readme) (stays _ s h)
                | inr (hash, e) ↦
                    let next =
                      is_near_duplicate-Separated s.index hash h.0
                        (fingerprint-lt cleaned hash e) in
                    rw (e, keep_readme)
                      (elim (Bool-cases (is_near_duplicate s.index hash max_hamming_dist).1) [
                        | inl dup ↦ rw (dup) (stays _ (screened hash s) (next, h.1, h.2, h.3))
                        | inr new ↦ rw (new) (
                            store_readme-Ends run url body _ (screened hash s)
                              (next, h.1, h.2, h.3))
                      ])
              ])
      ]
