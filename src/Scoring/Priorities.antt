-- ===== src/Scoring/Priorities.antt =====
-- Scores against the four queues, and how aging moves a job between them.
use dev_search.Prelude.{ℕ, ◌+◌, ◌*◌, ◌/◌, ◌≤◌, ◌≡◌, arith}
use dev_search.Prelude.Int.{ℤ, pos, negsuc, ◌+ℤ◌, ◌≤ℤ◌, min_ℤ, quot, int_laws, +ℤ_parts}
use dev_search.Scoring.{
  PriorityStatus, critical, high, normal, low, second, score_to_priority, apply_aging,
}

-- The place of a queue among the four, the most urgent first.
abbrev pub rank : PriorityStatus → ℕ
rank critical = 0
rank high = 1
rank normal = 2
rank low = 3

-- A higher score is never served by a less urgent queue.
pub score_to_priority_mono :
    (a b : ℤ) → a ≤ℤ b → rank (score_to_priority b) ≤ rank (score_to_priority a)
unfolding score_to_priority
score_to_priority_mono a b h = ground arith

-- Thirty points are at most one queue.
priority_step :
    (a b : ℤ) → b ≤ℤ a +ℤ pos 30 → rank (score_to_priority a) ≤ rank (score_to_priority b) + 1
unfolding score_to_priority
priority_step a b h = ground (arith, +ℤ_parts a (pos 30))

aging_bounds :
    (base waited : ℤ)
    → pos 0 ≤ℤ waited
    → (base ≤ℤ apply_aging base waited) × (apply_aging base waited ≤ℤ base +ℤ pos 30)
unfolding apply_aging quot
aging_bounds base (pos w) h = omega (int_laws, capped (w / (30 * second)))
  where
    capped : (n : ℕ) → (pos 0 ≤ℤ min_ℤ (pos n) (pos 30)) × (min_ℤ (pos n) (pos 30) ≤ℤ pos 30)
    capped n = ground arith
aging_bounds base (negsuc w) h = absurd (omega arith)

-- For a wait that is not negative, aging adds between 0 and 30 points, and moves a job to a queue that is
-- as urgent or one step more urgent.
pub apply_aging_one_step :
    (base waited : ℤ)
    → pos 0 ≤ℤ waited
    → (base ≤ℤ apply_aging base waited)
      × (apply_aging base waited ≤ℤ base +ℤ pos 30)
      × (rank (score_to_priority (apply_aging base waited)) ≤ rank (score_to_priority base))
      × (rank (score_to_priority base) ≤ rank (score_to_priority (apply_aging base waited)) + 1)
apply_aging_one_step base waited h =
    let (more, capped) = aging_bounds base waited h in
    (
      more,
      capped,
      score_to_priority_mono base (apply_aging base waited) more,
      priority_step base (apply_aging base waited) capped,
    )

-- A job that has waited fifteen minutes or longer has gained all thirty points.
pub apply_aging_full :
    (base : ℤ) (waited : ℕ) → 900 * second ≤ waited → apply_aging base (pos waited) ≡ base +ℤ pos 30
unfolding apply_aging quot
apply_aging_full base waited h = ground arith
