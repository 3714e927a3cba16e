-- ===== src/Scoring/Tests.antt =====
-- Runs of the scoring code, and the theorems at inputs that meet their hypotheses.
use dev_search.Prelude.{◌*◌, ◌≡◌, refl, true, false, []}
use dev_search.Prelude.Text.{codes, contains_text, has_prefix}
use dev_search.Prelude.Int.{pos, negsuc, ◌≤ℤ◌, ◌+ℤ◌, ◌-ℤ◌, ◌*ℤ◌, quot}
use dev_search.Scoring.Bounds.{discovered_bounds}
use dev_search.Scoring.{
  UrlParts, UrlMeta, high, second, minute, new_url_meta, classify_url, score_dev_url,
  score_to_priority, apply_aging,
}

abbrev docs_page : UrlParts
docs_page = record { path = codes "/docs/api/list.html"; raw_query = [] }

abbrev old_blog : UrlMeta
old_blog = record {
  depth = pos 9;
  has_query_params = true;
  is_docs = false;
  is_api = false;
  has_code_blocks = false;
  inbound_links = pos 0;
  is_blog = true;
  first_seen_at = 0;
}

lowest_score : score_dev_url (60 * minute) old_blog ≡ negsuc 14
unfolding score_dev_url quot ◌+ℤ◌ ◌-ℤ◌ ◌*ℤ◌
lowest_score = refl

-- The points of a documentation page with an API part, one link away from a seed.
docs_page_score :
    score_dev_url 7 (classify_url (λ c. c) docs_page (new_url_meta 7 (pos 1))) ≡ pos 130
unfolding score_dev_url quot ◌+ℤ◌ ◌-ℤ◌ ◌*ℤ◌ classify_url new_url_meta contains_text has_prefix
docs_page_score = refl

twenty_steps : score_to_priority (apply_aging (pos 40) (pos (600 * second))) ≡ high
unfolding score_to_priority apply_aging quot ◌+ℤ◌
twenty_steps = refl

abbrev seen_page : UrlMeta
seen_page = classify_url (λ c. c) docs_page old_blog

discovered_bounds_example :
    (pos 0 ≤ℤ score_dev_url 7 (classify_url (λ c. c) docs_page (new_url_meta 7 (pos 1))))
    × (score_dev_url 7 (classify_url (λ c. c) docs_page (new_url_meta 7 (pos 1))) ≤ℤ pos 130)
discovered_bounds_example = discovered_bounds (λ c. c) 7 (pos 1) docs_page
