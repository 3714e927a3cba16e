-- ===== src/Indexer.antt =====
-- internal/indexer: the counters of stats.go and the worker of worker/worker.go. A duration is a number of
-- nanoseconds; those measured here are on the monotonic clock, so they are at least 0.
mod Counters
pub mod Report
mod Run
mod Quiet
mod Batch
mod Schedule
mod Tests
use Prim.Native.String.{String}
use dev_search.Prelude.{
  ℕ, ◌+◌, ◌-◌, ◌*◌, ◌/◌, ◌%◌, ◌≡◌, Bool, true, false, Option, none, some, List, [], ◌∷◌, ltb,
  if◌then◌else◌,
}
use dev_search.Scoring.{second, minute}
use dev_search.Streams.{Msg, MsgStatus, processing, StreamServer, StreamError, complete_message}

-- The counters of the package; an atomic addition is one step.
pub record IndexerStats : Type 0 where
  pub processed_msgs : ℕ
  pub success_msgs : ℕ
  pub failed_msgs : ℕ
  pub retried_msgs : ℕ
  pub index_latency_ns : ℕ
  pub index_count : ℕ
  pub db_latency_ns : ℕ
  pub db_count : ℕ

abbrev pub no_stats : IndexerStats
no_stats = record {
  processed_msgs = 0;
  success_msgs = 0;
  failed_msgs = 0;
  retried_msgs = 0;
  index_latency_ns = 0;
  index_count = 0;
  db_latency_ns = 0;
  db_count = 0;
}

unfoldable pub increment_processed : IndexerStats → IndexerStats
increment_processed c = record c { processed_msgs = c.processed_msgs + 1 }

unfoldable pub increment_success : IndexerStats → IndexerStats
increment_success c = record c { success_msgs = c.success_msgs + 1 }

unfoldable pub increment_failure : IndexerStats → IndexerStats
increment_failure c = record c { failed_msgs = c.failed_msgs + 1 }

unfoldable pub increment_retry : IndexerStats → IndexerStats
increment_retry c = record c { retried_msgs = c.retried_msgs + 1 }

unfoldable pub add_index_latency : ℕ → IndexerStats → IndexerStats
add_index_latency d c = record c {
  index_latency_ns = c.index_latency_ns + d;
  index_count = c.index_count + 1;
}

unfoldable pub add_db_latency : ℕ → IndexerStats → IndexerStats
add_db_latency d c = record c { db_latency_ns = c.db_latency_ns + d; db_count = c.db_count + 1 }

-- The three formats of `humanDuration`.
pub data Shown : Type 0 where
  hours_minutes_seconds : ℕ → ℕ → ℕ → Shown
  minutes_seconds : ℕ → ℕ → Shown
  seconds : ℕ → Shown

-- `d.Round(time.Second)` of a duration of at least 0: half a second is rounded up.
unfoldable pub round_second : ℕ → ℕ
round_second d = let r = d % second in if ltb (r + r) second then d - r else d + (second - r)

unfoldable pub human_duration : ℕ → Shown
human_duration d =
    let d0 = round_second d in
    let h = d0 / (60 * minute) in
    let d1 = d0 - h * (60 * minute) in
    let m = d1 / minute in
    let d2 = d1 - m * minute in
    let s = d2 / second in
    if ltb 0 h
    then hours_minutes_seconds h m s
    else if ltb 0 m
    then minutes_seconds m s
    else seconds s

-- How the run of a message ends: with the error of the handler, or by the timeout of 15 minutes.
pub data Outcome : Type 0 where
  returned : Option String → Outcome
  timed_out : Outcome

unfoldable pub success : Outcome → Bool
success (returned none) = true
success (returned (some err)) = false
success timed_out = false

-- The counters in `completeMsgProcessing`.
unfoldable pub count_outcome : Msg → Bool → IndexerStats → IndexerStats
count_outcome msg true c = increment_success c
count_outcome msg false c =
    if ltb 0 msg.retry_count then increment_retry (increment_failure c) else increment_failure c

module _ (r : StreamServer) where
  open r use {Store}

  -- An error of `CompleteMessage` is logged only.
  unfoldable pub complete_msg_processing :
      Msg → Bool → Store → IndexerStats → Msg × Store × IndexerStats
  complete_msg_processing msg okay s c =
      let (after, t, err) = complete_message r msg okay "parser-events" "indexer-group" s in
      (after, t, count_outcome msg okay c)

  unfoldable pub process_message :
      Outcome → ℕ → Msg → Store → IndexerStats → Msg × Store × IndexerStats
  process_message outcome duration msg s c =
      let taken : Msg = record msg { status = processing } in
      let (after, t, counted) =
        complete_msg_processing taken (success outcome) s (add_index_latency duration c) in
      (after, t, increment_processed counted)

  -- The loop of `processMessages` over the messages of an answer; how each ends, and after what time, is given.
  unfoldable pub process_messages :
      (Msg → Outcome) → (Msg → ℕ) → List Msg → Store → IndexerStats → Store × IndexerStats
  process_messages outcome duration [] s c = (s, c)
  process_messages outcome duration (msg ∷ msgs) s c =
      let (after, t, counted) = process_message (outcome msg) (duration msg) msg s c in
      process_messages outcome duration msgs t counted
