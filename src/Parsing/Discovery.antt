-- ===== src/Parsing/Discovery.antt =====
-- Which links of a page become crawl jobs.
use dev_search.Prelude.{
  ℕ, ◌≡◌, ◌⊎◌, inl, inr, refl, ap, subst, ◌∙◌, Bool, true, false, Bool-cases, Option, none, some,
  Option-cases, List, [], ◌∷◌, arith, if◌then◌else◌,
}
use dev_search.Prelude.Int.{ℤ}
use dev_search.Prelude.Strings.{one_of}
use dev_search.Scoring.{UrlMeta}
use dev_search.Queue.Ops.{enqueue}
use dev_search.Normalizer.{Url, hostname}
use dev_search.Parsing.Extract.{is_empty}
use dev_search.Parsing.Links.{
  url_meta_json, Normal, normal, unusable, panics, Env, Crawled, normalize_page_url, count_link,
  crawl_job, found_meta, settle_link, visit_link, follow_links,
}
use dev_search.Parsing.Known.{Knows, Answers, count_link-Knows, added-Knows}

pub Normal-cases :
    (n : Normal) → ((n ≡ panics) ⊎ (n ≡ unusable)) ⊎ ((url : List ℕ) × (n ≡ normal url))
Normal-cases panics = inl (inl refl)
Normal-cases unusable = inl (inr refl)
Normal-cases (normal url) = inr (url, refl)

module _ (env : Env) where
  open env use {pages, lib, metas, redis, frontier}

  -- The parsed URL, if it is one with a host.
  abbrev pub page_at : List ℕ → Option Url
  page_at url = elim (pages.parse_url url) [
    | none ↦ none
    | some parsed ↦ if is_empty (hostname parsed.host) then none else some parsed
  ]

  -- The pages that the links lead to and that are not seen, each once and in order.
  abbrev pub new_pages : List (List ℕ) → List ℕ → List (List ℕ) → List (List ℕ × Url)
  new_pages seen canonical [] = []
  new_pages seen canonical (u ∷ us) = elim (normalize_page_url env u canonical) [
    | panics ↦ []
    | unusable ↦ new_pages seen canonical us
    | normal url ↦ elim (page_at url) [
      | none ↦ new_pages seen canonical us
      | some parsed ↦
          if one_of seen url
          then new_pages seen canonical us
          else (url, parsed) ∷ new_pages (url ∷ seen) canonical us
    ]
  ]

  abbrev pub enqueue_pages : ℕ → ℤ → List (List ℕ × Url) → redis.Store → redis.Store
  enqueue_pages now next_depth [] q = q
  enqueue_pages now next_depth ((url, parsed) ∷ rest) q =
      enqueue_pages now next_depth rest
        (enqueue redis frontier now (crawl_job env now url (found_meta env now next_depth parsed))
          q).1

  settle_new :
      (now : ℕ) (url : List ℕ) (meta : UrlMeta) (p : metas.Store × Option Bool) (q : redis.Store)
      → p.1 ≡ some true
      → settle_link env now url meta p q ≡ record {
        metas = p.0;
        queue = (enqueue redis frontier now (crawl_job env now url meta) q).1;
      }
  unfolding settle_link
  settle_new now url meta (m, none) q e = cc
  settle_new now url meta (m, some true) q e = refl
  settle_new now url meta (m, some false) q e = ground arith

  settle_old :
      (now : ℕ) (url : List ℕ) (meta : UrlMeta) (p : metas.Store × Option Bool) (q : redis.Store)
      → p.1 ≡ some false
      → settle_link env now url meta p q ≡ record { metas = count_link env url p.0; queue = q }
  unfolding settle_link
  settle_old now url meta (m, none) q e = cc
  settle_old now url meta (m, some true) q e = ground arith
  settle_old now url meta (m, some false) q e = refl

  page_parsed :
      (url : List ℕ) (parsed : Url)
      → page_at url ≡ some parsed
      → (pages.parse_url url ≡ some parsed) × (is_empty (hostname parsed.host) ≡ false)
  page_parsed url parsed page = elim (Option-cases (pages.parse_url url)) [
    | inl bad ↦ cc (rw (bad, page_at) at page)
    | inr (p, e) ↦ elim (Bool-cases (is_empty (hostname p.host))) [
      | inl no_host ↦ cc (rw (no_host) at (rw (e, page_at) at page))
      | inr host ↦
          let same : p ≡ parsed = cc (rw (host) at (rw (e, page_at) at page)) in
          (e ∙ ap some same, subst (λ (q : Url). is_empty (hostname q.host) ≡ false) same host)
    ]
  ]

  visit_page :
      (now : ℕ) (next_depth : ℤ) (url : List ℕ) (parsed : Url) (s : Crawled env)
      → page_at url ≡ some parsed
      → visit_link env now next_depth url s
        ≡ settle_link env now url
            (found_meta env now next_depth parsed)
            (metas.set_nx url (url_meta_json (found_meta env now next_depth parsed)) 0 s.metas)
            s.queue
  unfolding visit_link
  visit_page now next_depth url parsed s page =
      let (e, host) = page_parsed url parsed page in rw (e, visit_link) (rw (host) refl)

  visit_no_page :
      (now : ℕ) (next_depth : ℤ) (url : List ℕ) (s : Crawled env)
      → page_at url ≡ none
      → visit_link env now next_depth url s ≡ s
  unfolding visit_link
  visit_no_page now next_depth url s page = elim (Option-cases (pages.parse_url url)) [
    | inl bad ↦ rw (bad, visit_link) refl
    | inr (p, e) ↦ elim (Bool-cases (is_empty (hostname p.host))) [
      | inl no_host ↦ rw (e, visit_link) (rw (no_host) refl)
      | inr host ↦ cc (rw (host) at (rw (e, page_at) at page))
    ]
  ]

  visit_new :
      (now : ℕ) (next_depth : ℤ) (url : List ℕ) (parsed : Url) (seen : List (List ℕ))
      (s : Crawled env)
      → Answers env
      → Knows env s.metas seen
      → page_at url ≡ some parsed
      → one_of seen url ≡ false
      → ((visit_link env now next_depth url s).queue
          ≡ enqueue_pages now next_depth ((url, parsed) ∷ []) s.queue)
        × Knows env (visit_link env now next_depth url s).metas (url ∷ seen)
  visit_new now next_depth url parsed seen s answers knows page new =
      let meta = found_meta env now next_depth parsed in
      let reply = metas.set_nx url (url_meta_json meta) 0 s.metas in
      elim (Option-cases reply.1) [
        | inl failed ↦ absurd (answers url (url_meta_json meta) s.metas failed)
        | inr (false, refused) ↦
            cc
              ((knows url).0 (metas.set_nx_refused url (url_meta_json meta) s.metas refused).0, new)
        | inr (true, added) ↦ rw (visit_page now next_depth url parsed s page) (
            rw (settle_new now url meta reply s.queue added)
              (refl, added-Knows env url (url_meta_json meta) s.metas seen knows added))
      ]

  visit_seen :
      (now : ℕ) (next_depth : ℤ) (url : List ℕ) (parsed : Url) (seen : List (List ℕ))
      (s : Crawled env)
      → Answers env
      → Knows env s.metas seen
      → page_at url ≡ some parsed
      → one_of seen url ≡ true
      → ((visit_link env now next_depth url s).queue ≡ s.queue)
        × Knows env (visit_link env now next_depth url s).metas seen
  visit_seen now next_depth url parsed seen s answers knows page old =
      let meta = found_meta env now next_depth parsed in
      let reply = metas.set_nx url (url_meta_json meta) 0 s.metas in
      elim (Option-cases reply.1) [
        | inl failed ↦ absurd (answers url (url_meta_json meta) s.metas failed)
        | inr (true, added) ↦
            absurd ((knows url).1 old (metas.set_nx_added url (url_meta_json meta) s.metas added).0)
        | inr (false, refused) ↦
            let (known, same) = metas.set_nx_refused url (url_meta_json meta) s.metas refused in
            rw (visit_page now next_depth url parsed s page) (
              rw (settle_old now url meta reply s.queue refused)
                (refl, rw (same) (count_link-Knows env url s.metas seen knows known)))
      ]

  -- Where SETNX does not fail and the URLs with metadata are those seen, the loop over the links of a page
  -- leaves the queue as the run of `Enqueue` over the new pages does: the normalized links in their order,
  -- less those without a host, those seen, and those met before on the page.
  pub follow_links_lem :
      (now : ℕ) (next_depth : ℤ) (canonical : List ℕ) (links seen : List (List ℕ)) (s : Crawled env)
      → Answers env
      → Knows env s.metas seen
      → (follow_links env now next_depth canonical links s).0.queue
        ≡ enqueue_pages now next_depth (new_pages seen canonical links) s.queue
  unfolding follow_links
  follow_links_lem now next_depth canonical [] seen s answers knows = refl
  follow_links_lem now next_depth canonical (u ∷ us) seen s answers knows =
      elim (Normal-cases (normalize_page_url env u canonical)) [
        | inl (inl e) ↦ rw (e, follow_links, new_pages) refl
        | inl (inr e) ↦
            rw (e, follow_links, new_pages)
              (follow_links_lem now next_depth canonical us seen s answers knows)
        | inr (url, e) ↦
            rw (e, follow_links, new_pages)
              (elim (Option-cases (page_at url)) [
                | inl no_page ↦ rw (visit_no_page now next_depth url s no_page) (
                    rw (no_page)
                      (follow_links_lem now next_depth canonical us seen s answers knows))
                | inr (parsed, page) ↦ elim (Bool-cases (one_of seen url)) [
                  | inl old ↦
                      let (queued, known) =
                        visit_seen now next_depth url parsed seen s answers knows page old in
                      rw (page) (
                        rw (old) (
                          follow_links_lem now next_depth canonical us seen
                            (visit_link env now next_depth url s) answers known
                          ∙ ap (enqueue_pages now next_depth (new_pages seen canonical us)) queued))
                  | inr new ↦
                      let (queued, known) =
                        visit_new now next_depth url parsed seen s answers knows page new in
                      rw (page) (
                        rw (new) (
                          follow_links_lem now next_depth canonical us (url ∷ seen)
                            (visit_link env now next_depth url s) answers known
                          ∙ ap (enqueue_pages now next_depth (new_pages (url ∷ seen) canonical us))
                              queued))
                ]
              ])
      ]
