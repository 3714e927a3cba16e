-- ===== src/Indexer/Quiet.antt =====
-- The counters of the indexer's worker under every interleaving of its goroutines.
use Prim.Native.String.{String}
use dev_search.Prelude.{
  ℕ, zero, suc, ◌+◌, ◌≤◌, ◌≡◌, refl, Bool-cases, inl, inr, Option-cases, List, [], ◌∷◌, ◌++◌, arith,
  tally, tally-append,
}
use dev_search.Queue.{RawMessage}
use dev_search.Storage.{get_object}
use dev_search.Storage.Names.{key_of_name}
use dev_search.Streams.{StreamServer}
use dev_search.Indexer.{
  IndexerStats, increment_processed, increment_success, increment_failure, increment_retry,
  add_index_latency, add_db_latency,
}
use dev_search.Indexer.Counters.{Balanced}
use dev_search.Document.{Document}
use dev_search.Document.Save.{insert_inverted_index}
use dev_search.Document.Handler.{
  IndexError, Index, Indexed, indexed_as, save, create_and_store_indexed_document,
}
use dev_search.Indexer.Run.{
  Goroutine, top, stopped, timed, failed, counted, settled, start, Memory, Move, Worker, Step,
  Reach, started,
}

-- 1 for a goroutine that has added the latency of a message that is not yet counted as processed.
unfoldable in_latency : Goroutine → ℕ
in_latency (timed msg okay msgs) = 1
in_latency (failed msg msgs) = 1
in_latency (counted msg okay msgs) = 1
in_latency (settled msgs) = 1
in_latency g = 0

-- 1 for one that has counted the outcome of such a message.
unfoldable in_outcome : Goroutine → ℕ
in_outcome (failed msg msgs) = 1
in_outcome (counted msg okay msgs) = 1
in_outcome (settled msgs) = 1
in_outcome g = 0

-- 1 for one that has counted a failure and may count a retry.
unfoldable in_failure : Goroutine → ℕ
in_failure (failed msg msgs) = 1
in_failure g = 0

-- All goroutines have returned.
abbrev pub AllStopped : List Goroutine → Type 0
AllStopped [] = Unit {0}
AllStopped (g ∷ gs) = (g ≡ stopped) × AllStopped gs

tally-start : (f : Goroutine → ℕ) (n : ℕ) → f top ≡ 0 → tally f (start n) ≡ 0
unfolding start
tally-start f zero e = refl
tally-start f (suc n) e = ground (arith, tally-start f n e)

tally-AllStopped :
    (f : Goroutine → ℕ) (gs : List Goroutine) → f stopped ≡ 0 → AllStopped gs → tally f gs ≡ 0
tally-AllStopped f [] e all = refl
tally-AllStopped f (g ∷ gs) e all = rw (all.0) (ground (arith, tally-AllStopped f gs e all.1))

-- What was processed and what is under way add up, for the latencies and for the outcomes, and each retry is
-- among the failures.
abbrev Adds : ℕ → ℕ → ℕ → IndexerStats → Type 0
Adds late out owed c =
    (c.index_count ≡ c.processed_msgs + late)
    × (c.success_msgs + c.failed_msgs ≡ c.processed_msgs + out)
    × (c.retried_msgs + owed ≤ c.failed_msgs)

module _ (ix : Index) where
  save-Adds :
      (took k j i : ℕ) (doc : Document) (s : Indexed ix)
      → Adds k j i s.stats
      → Adds k j i (save ix took doc s).1.stats
  unfolding save add_db_latency
  save-Adds took k j i doc s a =
      elim (Bool-cases (insert_inverted_index ix.db ix.hex doc s.rows).1) [
        | inl okay ↦ rw (okay) a
        | inr bad ↦ rw (bad) a
      ]

  -- The handler adds to the latencies of the database only.
  handler-Adds :
      (took k j i : ℕ) (payload : RawMessage) (s : Indexed ix)
      → Adds k j i s.stats
      → Adds k j i (create_and_store_indexed_document ix took payload s).1.stats
  unfolding create_and_store_indexed_document
  handler-Adds took k j i payload s a = elim (Option-cases (ix.record_of payload)) [
    | inl bad ↦ rw (bad, create_and_store_indexed_document) a
    | inr (page, read) ↦
        rw (read, create_and_store_indexed_document)
          (elim (Option-cases (get_object ix.obj (key_of_name page.text_object_key) s.objects)) [
            | inl missing ↦ rw (missing, create_and_store_indexed_document) a
            | inr (raw, found) ↦
                rw (found, create_and_store_indexed_document)
                  (save-Adds took k j i (indexed_as ix page raw) s a)
          ])
  ]

module _ (ix : Index) (r : StreamServer) (consumer : String)
    (text_of_error : IndexError → String) where
  move-Adds :
      (k j i : ℕ) (s t : Memory ix r consumer text_of_error) (g h : Goroutine)
      → Move ix r consumer text_of_error s g t h
      → Adds (in_latency g + k) (in_outcome g + j) (in_failure g + i) s.indexed.stats
      → Adds (in_latency h + k) (in_outcome h + j) (in_failure h + i) t.indexed.stats
  unfolding in_latency in_outcome in_failure add_index_latency increment_processed increment_success
      increment_failure increment_retry
  move-Adds k j i s t g h (Move.stop e) a = a
  move-Adds k j i s t g h (Move.goes_on e) a = a
  move-Adds k j i s t g h (Move.get_fails now u e) a = a
  move-Adds k j i s t g h (Move.get now msgs u e) a = a
  move-Adds k j i s t g h Move.again a = a
  move-Adds k j i s t g h (Move.process msg msgs) a = a
  move-Adds k j i s t g h (Move.answers msg msgs took duration) a =
      let kept = handler-Adds ix took (0 + k) (0 + j) (0 + i) msg.payload s.indexed a in
      ground arith
  move-Adds k j i s t g h (Move.times_out msg msgs duration) a = ground arith
  move-Adds k j i s t g h (Move.succeeds msg msgs) a = ground arith
  move-Adds k j i s t g h (Move.fails msg msgs) a = ground arith
  move-Adds k j i s t g h (Move.fails_again msg msgs e) a = ground arith
  move-Adds k j i s t g h (Move.fails_first msg msgs e) a = ground arith
  move-Adds k j i s t g h (Move.completes msg after okay msgs u err e) a = a
  move-Adds k j i s t g h (Move.processes msgs) a = ground arith

  -- The invariant of the worker.
  abbrev Consistent : Worker ix r consumer text_of_error → Type 0
  Consistent s =
      Adds (tally in_latency s.goroutines) (tally in_outcome s.goroutines)
        (tally in_failure s.goroutines) s.shared.indexed.stats

  step-Consistent :
      (s t : Worker ix r consumer text_of_error)
      → Step ix r consumer text_of_error s t
      → Consistent s
      → Consistent t
  step-Consistent s t (Step.moves {t = u} {g} {h} before behind at move) c =
      rw
        (
          tally-append in_latency before behind h,
          tally-append in_outcome before behind h,
          tally-append in_failure before behind h,
        )
        (move-Adds (tally in_latency (before ++ behind)) (tally in_outcome (before ++ behind))
          (tally in_failure (before ++ behind)) s.shared u g h move
          (rw
            (
              at,
              tally-append in_latency before behind g,
              tally-append in_outcome before behind g,
              tally-append in_failure before behind g,
            )
            at c))
  step-Consistent s t (Step.ends_late took msg before behind at) c =
      handler-Adds ix took (tally in_latency s.goroutines) (tally in_outcome s.goroutines)
        (tally in_failure s.goroutines) msg.payload s.shared.indexed c
  step-Consistent s t Step.cancel c = c
  step-Consistent s t (Step.publishes u) c = c

  Reach-Consistent :
      (s t : Worker ix r consumer text_of_error)
      → Reach ix r consumer text_of_error s t
      → Consistent s
      → Consistent t
  Reach-Consistent s t Reach.here c = c
  Reach-Consistent s t (Reach.next {t = u} run step) c =
      step-Consistent u t step (Reach-Consistent s u run c)

  -- When all goroutines of a worker that was started with any number of them have returned, as they have when
  -- `Stop` returns, the counters balance, in whatever order the goroutines' steps came: what was processed is
  -- what succeeded and what failed, each message was timed once, and the retries are among the failures.
  pub Reach-Balanced :
      (concurrency : ℕ) (messages : r.Store) (objects : ix.obj.Store) (rows : ix.db.Store)
      (t : Worker ix r consumer text_of_error)
      → Reach ix r consumer text_of_error
          (started ix r consumer text_of_error concurrency messages objects rows)
          t
      → AllStopped t.goroutines
      → Balanced t.shared.indexed.stats
  unfolding in_latency in_outcome in_failure
  Reach-Balanced concurrency messages objects rows t run all =
      let a =
        Reach-Consistent (started ix r consumer text_of_error concurrency messages objects rows) t
          run
          (rw
            (
              tally-start in_latency concurrency refl,
              tally-start in_outcome concurrency refl,
              tally-start in_failure concurrency refl,
            )
            (refl, refl, omega arith)) in
      let late = tally-AllStopped in_latency t.goroutines refl all in
      let out = tally-AllStopped in_outcome t.goroutines refl all in
      let owed = tally-AllStopped in_failure t.goroutines refl all in ground arith
