-- ===== src/Indexer/Counters.antt =====
-- The counters that the indexer's worker keeps.
use dev_search.Prelude.{ℕ, ◌+◌, ◌≤◌, ◌≡◌, Bool, true, false, arith}
use dev_search.Streams.{Msg, StreamServer}
use dev_search.Indexer.{
  IndexerStats, increment_processed, increment_success, increment_failure, increment_retry,
  add_index_latency, Outcome, success, count_outcome, complete_msg_processing, process_message,
}

-- Every message that was processed succeeded or failed, was timed once, and only a failure is a retry.
abbrev pub Balanced : IndexerStats → Type 0
Balanced c =
    (c.processed_msgs ≡ c.success_msgs + c.failed_msgs)
    × (c.index_count ≡ c.processed_msgs)
    × (c.retried_msgs ≤ c.failed_msgs)

module _ (r : StreamServer) where
  open r use {Store}

  -- Processing a message, however it ends, keeps the counters balanced: what was processed is what succeeded
  -- and what failed, each was timed once, and the retries are among the failures.
  pub process_message-Balanced :
      (outcome : Outcome) (duration : ℕ) (msg : Msg) (s : Store) (c : IndexerStats)
      → Balanced c
      → Balanced (process_message r outcome duration msg s c).2
  unfolding process_message complete_msg_processing count_outcome increment_processed
      increment_success increment_failure increment_retry add_index_latency
  process_message-Balanced outcome duration msg s c b = by_success (success outcome)
    where
      by_success :
          (okay : Bool)
          → Balanced (increment_processed (count_outcome msg okay (add_index_latency duration c)))
      by_success true = ground arith
      by_success false = ground arith
