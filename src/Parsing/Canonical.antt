-- ===== src/Parsing/Canonical.antt =====
-- The loop over the links again: new URLs only, and links that a canonical URL replaces.
use dev_search.Prelude.{
  ℕ, ◌≡◌, ◌⊎◌, inl, inr, refl, sym, ap, ◌∙◌, true, false, Bool-cases, Option, none, some,
  Option-cases, List, [], ◌∷◌, if◌then◌else◌,
}
use dev_search.Prelude.Int.{ℤ}
use dev_search.Prelude.Strings.{one_of, same_text_refl}
use dev_search.Normalizer.{Url}
use dev_search.Parsing.Extract.{is_empty}
use dev_search.Parsing.Links.{
  Normal, normal, unusable, panics, Env, Crawled, normalize_page_url, follow_links,
}
use dev_search.Parsing.Known.{Knows, Answers}
use dev_search.Parsing.Discovery.{Normal-cases, page_at, new_pages, enqueue_pages, follow_links_lem}

module _ (env : Env) where
  open env use {pages, redis, frontier}

  -- None of the URLs is in the list, and no two are the same.
  abbrev pub Fresh : List (List ℕ) → List (List ℕ × Url) → Type 0
  Fresh seen [] = Unit {0}
  Fresh seen ((url, parsed) ∷ rest) = (one_of seen url ≡ false) × Fresh (url ∷ seen) rest

  new_pages-Fresh :
      (canonical : List ℕ) (links seen : List (List ℕ))
      → Fresh seen (new_pages env seen canonical links)
  new_pages-Fresh canonical [] seen = tt
  new_pages-Fresh canonical (u ∷ us) seen =
      elim (Normal-cases (normalize_page_url env u canonical)) [
        | inl (inl e) ↦ rw (e, new_pages) tt
        | inl (inr e) ↦ rw (e, new_pages) (new_pages-Fresh canonical us seen)
        | inr (url, e) ↦
            rw (e, new_pages)
              (elim (Option-cases (page_at env url)) [
                | inl no_page ↦ rw (no_page) (new_pages-Fresh canonical us seen)
                | inr (parsed, page) ↦ elim (Bool-cases (one_of seen url)) [
                  | inl old ↦ rw (page) (rw (old) (new_pages-Fresh canonical us seen))
                  | inr new ↦ rw (page) (rw (new) (new, new_pages-Fresh canonical us (url ∷ seen)))
                ]
              ])
      ]

  -- Where SETNX does not fail and the URLs with metadata are those seen, the loop over the links queues crawl
  -- jobs for URLs that were not seen, and for none twice.
  pub follow_links-Fresh :
      (now : ℕ) (next_depth : ℤ) (canonical : List ℕ) (links seen : List (List ℕ)) (s : Crawled env)
      → Answers env
      → Knows env s.metas seen
      → (found : List (List ℕ × Url)) × Fresh seen found
        × ((follow_links env now next_depth canonical links s).0.queue
            ≡ enqueue_pages env now next_depth found s.queue)
  follow_links-Fresh now next_depth canonical links seen s answers knows = (
    new_pages env seen canonical links,
    new_pages-Fresh canonical links seen,
    follow_links_lem env now next_depth canonical links seen s answers knows,
  )

  new_pages_seen :
      (canonical url : List ℕ) (links seen : List (List ℕ))
      → ((u : List ℕ) → normalize_page_url env u canonical ≡ normal url)
      → (page_at env url ≡ none) ⊎ (one_of seen url ≡ true)
      → new_pages env seen canonical links ≡ []
  new_pages_seen canonical url [] seen all why = refl
  new_pages_seen canonical url (u ∷ us) seen all (inl no_page) =
      rw (all u, new_pages) (rw (no_page) (new_pages_seen canonical url us seen all (inl no_page)))
  new_pages_seen canonical url (u ∷ us) seen all (inr old) = elim (Option-cases (page_at env url)) [
    | inl no_page ↦
        rw (all u, new_pages) (rw (no_page) (new_pages_seen canonical url us seen all (inr old)))
    | inr (parsed, page) ↦
        rw (all u, new_pages)
          (rw (page) (rw (old) (new_pages_seen canonical url us seen all (inr old))))
  ]

  -- The page that a link leads to: if it is a URL with a host, and was not seen.
  abbrev pub unseen : List (List ℕ) → List ℕ → List (List ℕ × Url)
  unseen seen url = elim (page_at env url) [
    | none ↦ []
    | some parsed ↦ if one_of seen url then [] else (url, parsed) ∷ []
  ]

  -- What is found on a page all of whose links lead to one target.
  unfoldable pub found_once : List (List ℕ) → Normal → List (List ℕ) → List (List ℕ × Url)
  found_once seen target [] = []
  found_once seen panics (u ∷ us) = []
  found_once seen unusable (u ∷ us) = []
  found_once seen (normal url) (u ∷ us) = unseen seen url

  nothing_unseen :
      (seen : List (List ℕ)) (url : List ℕ)
      → (page_at env url ≡ none) ⊎ (one_of seen url ≡ true)
      → unseen seen url ≡ []
  nothing_unseen seen url (inl no_page) = rw (no_page, unseen) refl
  nothing_unseen seen url (inr old) = elim (Option-cases (page_at env url)) [
    | inl no_page ↦ rw (no_page, unseen) refl
    | inr (parsed, page) ↦ rw (page, unseen) (rw (old) refl)
  ]

  unseen_page :
      (seen : List (List ℕ)) (url : List ℕ) (parsed : Url)
      → page_at env url ≡ some parsed
      → one_of seen url ≡ false
      → unseen seen url ≡ (url, parsed) ∷ []
  unseen_page seen url parsed page new = rw (page, unseen) (rw (new) refl)

  unusable_nothing : (seen links : List (List ℕ)) → found_once seen unusable links ≡ []
  unfolding found_once
  unusable_nothing seen [] = refl
  unusable_nothing seen (u ∷ us) = refl

  new_pages_of_one :
      (canonical : List ℕ) (target : Normal) (links seen : List (List ℕ))
      → ((u : List ℕ) → normalize_page_url env u canonical ≡ target)
      → new_pages env seen canonical links ≡ found_once seen target links
  unfolding one_of found_once
  new_pages_of_one canonical target [] seen all = refl
  new_pages_of_one canonical panics (u ∷ us) seen all = rw (all u, new_pages) refl
  new_pages_of_one canonical unusable (u ∷ us) seen all =
      rw (all u, new_pages)
        (new_pages_of_one canonical unusable us seen all ∙ unusable_nothing seen us)
  new_pages_of_one canonical (normal url) (u ∷ us) seen all =
      elim (Option-cases (page_at env url)) [
        | inl no_page ↦
            new_pages_seen canonical url (u ∷ us) seen all (inl no_page)
            ∙ sym (nothing_unseen seen url (inl no_page))
        | inr (parsed, page) ↦ elim (Bool-cases (one_of seen url)) [
          | inl old ↦
              new_pages_seen canonical url (u ∷ us) seen all (inr old)
              ∙ sym (nothing_unseen seen url (inr old))
          | inr new ↦ rw (unseen_page seen url parsed page new) (
              rw (all u, new_pages)
                (rw (page) (
                  rw (new) (
                    ap (λ ps. (url, parsed) ∷ ps)
                      (new_pages_seen canonical url us (url ∷ seen) all
                        (inr (rw (same_text_refl url) refl)))))))
        ]
      ]

  same_target :
      (canonical : List ℕ) (canon_parsed : Url) (u v : List ℕ)
      → is_empty canonical ≡ false
      → pages.parse_url canonical ≡ some canon_parsed
      → ((base other : Option Url)
          → pages.resolve base canon_parsed ≡ pages.resolve other canon_parsed)
      → normalize_page_url env u canonical ≡ normalize_page_url env v canonical
  unfolding normalize_page_url
  same_target canonical canon_parsed u v given parsed absolute =
      rw (given, normalize_page_url)
        (rw (parsed) (rw (absolute (pages.parse_url u) (pages.parse_url v)) refl))

  -- Where SETNX does not fail and the URLs with metadata are those seen, of a page with a canonical URL that does
  -- not depend on the base it is resolved against, as an absolute one, every link is normalized to one and the
  -- same target, and the loop leaves the queue as `Enqueue` of one crawl job for this target does, if the page
  -- has a link and the target is a URL with a host that was not seen, and else as it was.
  pub follow_links_canonical :
      (now : ℕ) (next_depth : ℤ) (canonical : List ℕ) (canon_parsed : Url)
      (links seen : List (List ℕ)) (s : Crawled env)
      → Answers env
      → Knows env s.metas seen
      → is_empty canonical ≡ false
      → pages.parse_url canonical ≡ some canon_parsed
      → ((base other : Option Url)
          → pages.resolve base canon_parsed ≡ pages.resolve other canon_parsed)
      → (target : Normal) × ((u : List ℕ) → normalize_page_url env u canonical ≡ target)
        × ((follow_links env now next_depth canonical links s).0.queue
            ≡ enqueue_pages env now next_depth (found_once seen target links) s.queue)
  follow_links_canonical now next_depth canonical canon_parsed links seen s answers knows given
        parsed absolute =
      let target = normalize_page_url env [] canonical in
      let all : (u : List ℕ) → normalize_page_url env u canonical ≡ target =
        λ u. same_target canonical canon_parsed u [] given parsed absolute in
      (
        target,
        all,
        follow_links_lem env now next_depth canonical links seen s answers knows
            ∙ ap (λ found. enqueue_pages env now next_depth found s.queue)
                (new_pages_of_one canonical target links seen all),
      )
