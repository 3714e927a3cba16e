-- ===== src/Indexer/Tests.antt =====
-- The theorems of the indexer's worker at concrete inputs.
use dev_search.Prelude.{◌≡◌, refl, some, [], ◌∷◌, inl}
use dev_search.Queue.{RawMessage}
use dev_search.Streams.{new_msg}
use dev_search.Streams.Memory.{Lists, lists}
use dev_search.Indexer.{
  no_stats, hours_minutes_seconds, round_second, human_duration, returned, process_messages,
}
use dev_search.Indexer.Batch.{process_messages-Acked}

abbrev empty_lists : Lists
empty_lists = record { added = []; unread = []; acked = [] }

shown : human_duration 3_725_500_000_000 ≡ hours_minutes_seconds 1 2 6
unfolding human_duration round_second
shown = refl

process_messages-Acked_example :
    lists.Acked
      (process_messages lists
        (λ msg. returned (some "no object"))
        (λ msg. 900)
        (new_msg "m" RawMessage.absent ∷ [])
        empty_lists
        no_stats).0
      "parser-events"
      "indexer-group"
      (new_msg "m" RawMessage.absent).stream_id
process_messages-Acked_example =
    process_messages-Acked lists (λ msg. returned (some "no object")) (λ msg. 900)
      (new_msg "m" RawMessage.absent ∷ []) empty_lists no_stats (new_msg "m" RawMessage.absent)
      (λ stream group id s. refl) (inl refl)
