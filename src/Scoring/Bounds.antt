-- ===== src/Scoring/Bounds.antt =====
-- How large and how small a score can be.
use dev_search.Prelude.{ℕ, ◌≤◌, ◌≡◌, refl, ap, Bool, not, arith, if◌then◌else◌}
use dev_search.Prelude.Int.{
  ℤ, pos, negsuc, ◌-ℤ◌, ◌*ℤ◌, ◌≤ℤ◌, leb_ℤ, min_ℤ, quot, pos_part, neg_part, int_laws,
}
use dev_search.Scoring.{UrlMeta, UrlParts, minute, since, new_url_meta, classify_url, score_dev_url}

bonus_bounds :
    (b : Bool) (n : ℕ)
    → (pos 0 ≤ℤ (if b then pos n else pos 0)) × ((if b then pos n else pos 0) ≤ℤ pos n)
bonus_bounds b n = ground arith

-- The points for freshness.
freshness : ℕ → ℕ → ℤ
freshness now seen = quot (pos 30 -ℤ min_ℤ (quot (since now seen) minute) (pos 30)) 2

freshness_bounds :
    (now seen : ℕ) → seen ≤ now → (pos 0 ≤ℤ freshness now seen) × (freshness now seen ≤ℤ pos 15)
unfolding freshness quot ◌-ℤ◌
freshness_bounds now seen h = ground arith

inbound_bounds :
    (n : ℤ)
    → pos 0 ≤ℤ n
    → (pos 0 ≤ℤ min_ℤ (n *ℤ pos 3) (pos 30)) × (min_ℤ (n *ℤ pos 3) (pos 30) ≤ℤ pos 30)
unfolding ◌*ℤ◌
inbound_bounds n h = ground arith

-- A URL first seen no later than now, with no negative link count, scores between -15 and 190.
pub score_dev_url_bounds :
    (now : ℕ) (u : UrlMeta)
    → u.first_seen_at ≤ now
    → pos 0 ≤ℤ u.inbound_links
    → (negsuc 14 ≤ℤ score_dev_url now u) × (score_dev_url now u ≤ℤ pos 190)
unfolding score_dev_url freshness
score_dev_url_bounds now u seen links = omega (
  int_laws,
  freshness_bounds now u.first_seen_at seen,
  bonus_bounds (leb_ℤ u.depth (pos 2)) 30,
  bonus_bounds (not u.has_query_params) 10,
  bonus_bounds u.is_docs 40,
  bonus_bounds u.is_api 35,
  bonus_bounds u.has_code_blocks 30,
  inbound_bounds u.inbound_links links,
  bonus_bounds u.is_blog 15,
)

freshness_new : (now : ℕ) → freshness now now ≡ pos 15
unfolding freshness quot ◌-ℤ◌
freshness_new now = ground arith

no_links : min_ℤ (pos 0 *ℤ pos 3) (pos 30) ≡ pos 0
unfolding ◌*ℤ◌
no_links = refl

-- A URL scored as soon as it is discovered and classified gets between 0 and 130 points: no link and no
-- code block is known of it, and it is fresh.
pub discovered_bounds :
    (lower : ℕ → ℕ) (now : ℕ) (depth : ℤ) (u : UrlParts)
    → let meta = classify_url lower u (new_url_meta now depth) in
      (pos 0 ≤ℤ score_dev_url now meta) × (score_dev_url now meta ≤ℤ pos 130)
unfolding score_dev_url classify_url new_url_meta freshness
discovered_bounds lower now depth u =
    let meta = classify_url lower u (new_url_meta now depth) in
    omega (
      int_laws,
      ap pos_part (freshness_new now),
      ap neg_part (freshness_new now),
      bonus_bounds (leb_ℤ meta.depth (pos 2)) 30,
      bonus_bounds (not meta.has_query_params) 10,
      bonus_bounds meta.is_docs 40,
      bonus_bounds meta.is_api 35,
      ap pos_part no_links,
      ap neg_part no_links,
      bonus_bounds meta.is_blog 15,
    )
