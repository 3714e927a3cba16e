-- ===== src/Indexer/Run.antt =====
-- internal/indexer/worker/worker.go: the goroutines of the worker, as steps. A step is one atomic addition
-- to a counter, one call of the stream or one call of the handler, and the goroutines' steps come in any
-- order. The two additions of `AddIndexLatency` are one step with the end of the wait for the handler.
use Prim.Native.String.{String}
use dev_search.Prelude.{
  ℕ, zero, suc, ◌≡◌, Bool, true, false, Option, none, some, List, [], ◌∷◌, ◌++◌, ltb,
}
use dev_search.Streams.{Msg, processing, StreamServer, StreamError, get_msg, complete_message}
use dev_search.Indexer.{
  IndexerStats, no_stats, increment_processed, add_index_latency, Outcome, returned, timed_out,
  success, increment_success, increment_failure, increment_retry,
}
use dev_search.Document.Handler.{IndexError, Index, Indexed, create_and_store_indexed_document}

-- Where a goroutine stands: at the top of the loop of `processMessages`; past its look at the context; in its
-- loop over the messages that are left; in `processMessage`, before the handler has answered, after the latency
-- was added, after a failure was counted but no retry yet, after the outcome was counted, and after
-- `completeMsgProcessing`; and after the return.
pub data Goroutine : Type 0 where
  top asking stopped : Goroutine
  batch : List Msg → Goroutine
  running : Msg → List Msg → Goroutine
  timed : Msg → Bool → List Msg → Goroutine
  failed : Msg → List Msg → Goroutine
  counted : Msg → Bool → List Msg → Goroutine
  settled : List Msg → Goroutine

-- `late` are the messages whose handler still runs after the timeout.
pub record Shared (M I : Type 0) : Type 0 where
  pub messages : M
  pub indexed : I
  pub cancelled : Bool
  pub late : List Msg

pub record System (M I : Type 0) : Type 0 where
  pub shared : Shared M I
  pub goroutines : List Goroutine

unfoldable pub start : ℕ → List Goroutine
start zero = []
start (suc n) = top ∷ start n

abbrev pub answer : (IndexError → String) → Option IndexError → Outcome
answer text_of_error none = returned none
answer text_of_error (some err) = returned (some (text_of_error err))

-- `text_of_error` is the text of the handler's error.
module _ (ix : Index) (r : StreamServer) (consumer : String)
    (text_of_error : IndexError → String) where
  abbrev pub Memory : Type 0
  Memory = Shared r.Store (Indexed ix)

  abbrev pub count : (IndexerStats → IndexerStats) → Memory → Memory
  count f s = record s { indexed = record s.indexed { stats = f s.indexed.stats } }

  abbrev pub handle : ℕ → Msg → Memory → Memory
  handle took msg s = record s {
    indexed = (create_and_store_indexed_document ix took msg.payload s.indexed).1;
  }

  -- A step of one goroutine.
  pub data Move : Memory → Goroutine → Memory → Goroutine → Type 0 where
    stop : {s : Memory} → s.cancelled ≡ true → Move s top s stopped
    goes_on : {s : Memory} → s.cancelled ≡ false → Move s top s asking
    get_fails :
        {s : Memory} (now : ℕ) (t : r.Store)
        → get_msg r "parser-events" "indexer-group" consumer now s.messages ≡ (none, t)
        → Move s asking (record s { messages = t }) top
    get :
        {s : Memory} (now : ℕ) (msgs : List Msg) (t : r.Store)
        → get_msg r "parser-events" "indexer-group" consumer now s.messages ≡ (some msgs, t)
        → Move s asking (record s { messages = t }) (batch msgs)
    again : {s : Memory} → Move s (batch []) s top
    process :
        {s : Memory} (msg : Msg) (msgs : List Msg)
        → Move s (batch (msg ∷ msgs)) s (running (record msg { status = processing }) msgs)
    answers :
        {s : Memory} (msg : Msg) (msgs : List Msg) (took duration : ℕ)
        → Move s (running msg msgs) (count (add_index_latency duration) (handle took msg s)) (
            timed msg
              (success (
                answer text_of_error
                  (create_and_store_indexed_document ix took msg.payload s.indexed).0))
              msgs)
    times_out :
        {s : Memory} (msg : Msg) (msgs : List Msg) (duration : ℕ)
        → Move s
            (running msg msgs)
            (count (add_index_latency duration) (record s { late = msg ∷ s.late }))
            (timed msg (success timed_out) msgs)
    succeeds :
        {s : Memory} (msg : Msg) (msgs : List Msg)
        → Move s (timed msg true msgs) (count increment_success s) (counted msg true msgs)
    fails :
        {s : Memory} (msg : Msg) (msgs : List Msg)
        → Move s (timed msg false msgs) (count increment_failure s) (failed msg msgs)
    fails_again :
        {s : Memory} (msg : Msg) (msgs : List Msg)
        → ltb 0 msg.retry_count ≡ true
        → Move s (failed msg msgs) (count increment_retry s) (counted msg false msgs)
    fails_first :
        {s : Memory} (msg : Msg) (msgs : List Msg)
        → ltb 0 msg.retry_count ≡ false
        → Move s (failed msg msgs) s (counted msg false msgs)
    completes :
        {s : Memory} (msg after : Msg) (okay : Bool) (msgs : List Msg) (t : r.Store)
        (err : Option StreamError)
        → complete_message r msg okay "parser-events" "indexer-group" s.messages ≡ (after, t, err)
        → Move s (counted msg okay msgs) (record s { messages = t }) (settled msgs)
    processes :
        {s : Memory} (msgs : List Msg)
        → Move s (settled msgs) (count increment_processed s) (batch msgs)

  abbrev pub Worker : Type 0
  Worker = System r.Store (Indexed ix)

  -- A step of the worker: of a goroutine, of a handler that is late, of `Stop`, or of another program on the
  -- stream.
  pub data Step : Worker → Worker → Type 0 where
    moves :
        {s : Worker} {t : Memory} {g h : Goroutine} (before behind : List Goroutine)
        → s.goroutines ≡ before ++ g ∷ behind
        → Move s.shared g t h
        → Step s (record { shared = t; goroutines = before ++ h ∷ behind })
    ends_late :
        {s : Worker} (took : ℕ) (msg : Msg) (before behind : List Msg)
        → s.shared.late ≡ before ++ msg ∷ behind
        → Step s
            (record s { shared = record (handle took msg s.shared) { late = before ++ behind } })
    cancel : {s : Worker} → Step s (record s { shared = record s.shared { cancelled = true } })
    publishes :
        {s : Worker} (t : r.Store) → Step s (record s { shared = record s.shared { messages = t } })

  pub data Reach (s : Worker) : Worker → Type 0 where
    here : Reach s s
    next : {t u : Worker} → Reach s t → Step t u → Reach s u

  -- The worker after `Start`.
  abbrev pub started : ℕ → r.Store → ix.obj.Store → ix.db.Store → Worker
  started concurrency messages objects rows = record {
    shared = record {
      messages = messages;
      indexed = record { objects = objects; rows = rows; stats = no_stats };
      cancelled = false;
      late = [];
    };
    goroutines = start concurrency;
  }
