-- ===== src/Indexer/Batch.antt =====
-- The messages of one answer of the stream.
use Prim.Native.String.{String}
use dev_search.Prelude.{ℕ, ◌≡◌, inl, inr, subst, sym, Bool, true, false, List, [], ◌∷◌}
use dev_search.Redis.{In}
use dev_search.Streams.{Msg, processing, StreamServer, complete_message}
use dev_search.Streams.Lifecycle.{retry-Acked}
use dev_search.Indexer.{
  IndexerStats, Outcome, success, complete_msg_processing, process_message, process_messages,
}

module _ (r : StreamServer) where
  open r use {Store, Acked, xack, xack_keeps, xack_acked}

  -- No acknowledgement fails.
  abbrev pub Acks : Type 0
  Acks = (stream group id : String) (s : Store) → (xack stream group id s).1 ≡ true

  abbrev AckedIn : Store → String → Type 0
  AckedIn s id = Acked s "parser-events" "indexer-group" id

  -- A completed message leaves what was acknowledged, and is acknowledged.
  complete_message-Acked :
      (msg : Msg) (okay : Bool) (s : Store) (id : String)
      → Acks
      → AckedIn (xack "parser-events" "indexer-group" msg.stream_id s).0 id
      → AckedIn (complete_message r msg okay "parser-events" "indexer-group" s).1 id
  unfolding complete_message
  complete_message-Acked msg true s id acks a =
      rw (acks "parser-events" "indexer-group" msg.stream_id s) a
  complete_message-Acked msg false s id acks a =
      rw (acks "parser-events" "indexer-group" msg.stream_id s)
        (retry-Acked r msg "parser-events" "parser-events" "indexer-group" id _ a)

  processed-Acked :
      (outcome : Outcome) (duration : ℕ) (msg : Msg) (s : Store) (c : IndexerStats) (id : String)
      → Acks
      → AckedIn (xack "parser-events" "indexer-group" msg.stream_id s).0 id
      → AckedIn (process_message r outcome duration msg s c).1 id
  unfolding process_message complete_msg_processing
  processed-Acked outcome duration msg s c id acks a =
      complete_message-Acked (record msg { status = processing }) (success outcome) s id acks a

  batch_keeps :
      (outcome : Msg → Outcome) (duration : Msg → ℕ) (msgs : List Msg) (s : Store)
      (c : IndexerStats) (id : String)
      → Acks
      → AckedIn s id
      → AckedIn (process_messages r outcome duration msgs s c).0 id
  unfolding process_messages
  batch_keeps outcome duration [] s c id acks a = a
  batch_keeps outcome duration (msg ∷ msgs) s c id acks a =
      batch_keeps outcome duration msgs _ _ id acks (
        processed-Acked (outcome msg) (duration msg) msg s c id acks (
          xack_keeps "parser-events" "indexer-group" msg.stream_id s "parser-events" "indexer-group"
            id a))

  -- Where no acknowledgement fails, the loop over the messages of an answer acknowledges each of them, however
  -- its handler ends.
  pub process_messages-Acked :
      (outcome : Msg → Outcome) (duration : Msg → ℕ) (msgs : List Msg) (s : Store)
      (c : IndexerStats) (msg : Msg)
      → Acks
      → In msg msgs
      → Acked
          (process_messages r outcome duration msgs s c).0
          "parser-events"
          "indexer-group"
          msg.stream_id
  unfolding process_messages
  process_messages-Acked outcome duration [] s c msg acks i = elim i [ ]
  process_messages-Acked outcome duration (m ∷ ms) s c msg acks (inl e) =
      batch_keeps outcome duration ms _ _ msg.stream_id acks (
        processed-Acked (outcome m) (duration m) m s c msg.stream_id acks (
          subst
            (λ (x : Msg).
              AckedIn (xack "parser-events" "indexer-group" m.stream_id s).0 x.stream_id)
            (sym e)
            (xack_acked "parser-events" "indexer-group" m.stream_id s (acks _ _ m.stream_id s))))
  process_messages-Acked outcome duration (m ∷ ms) s c msg acks (inr i) =
      process_messages-Acked outcome duration ms _ _ msg acks i
