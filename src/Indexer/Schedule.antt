-- ===== src/Indexer/Schedule.antt =====
-- A run of the indexer's worker with two goroutines, by its steps.
use Prim.Native.String.{String}
use dev_search.Prelude.{◌≡◌, refl, some, [], ◌∷◌}
use dev_search.Streams.{decode, decode_all, get_msg, read_new, new_msg, unmarshal, complete_message}
use dev_search.Streams.Memory.{lists}
use dev_search.Streams.Tests.{two_entries, read_event}
use dev_search.Indexer.Counters.{Balanced}
use dev_search.Indexer.Run.{top, stopped, start, Move, Worker, Step, Reach, started}
use dev_search.Indexer.Quiet.{Reach-Balanced}
use dev_search.Document.Memory.{no_tables}
use dev_search.Document.Handler.{IndexError}
use dev_search.Document.Tests.{index}

abbrev error_name : IndexError → String
error_name err = "not indexed"

abbrev begun : Worker index lists "w1" error_name
begun = started index lists "w1" error_name 2 two_entries (λ key. some "maps") no_tables

abbrev Runs : Worker index lists "w1" error_name → Type 0
Runs = Reach index lists "w1" error_name begun

read_two :
    get_msg lists "parser-events" "indexer-group" "w1" 70 two_entries
    ≡ (some (read_event ∷ []), record two_entries { unread = [] })
unfolding get_msg read_new decode_all decode unmarshal new_msg
read_two = refl

record Run : Type 0 where
  last : Worker index lists "w1" error_name
  reach : Runs last

-- The first goroutine takes two entries, of which one is a message, the handler answers, the second finds
-- that the worker is cancelled, and the first ends its batch before it does.
unfoldable run : Run
unfolding start complete_message dev_search.Indexer.success
    dev_search.Document.Handler.create_and_store_indexed_document dev_search.Document.Handler.save
    dev_search.Storage.get_object dev_search.Document.Save.insert_inverted_index
    dev_search.Document.Save.copy_rows dev_search.Document.new_record
    dev_search.Document.build_index dev_search.Document.index_words dev_search.Document.index_word
    dev_search.Document.is_stopword dev_search.Prelude.Strings.same_text
    dev_search.Document.byte_length dev_search.Document.increment dev_search.Document.stemmer
    dev_search.Document.cleaned dev_search.Document.tokenize dev_search.Document.fields
    dev_search.Document.new_document
run = record {
  last = _;
  reach =
      Reach.next
        (Reach.next
          (Reach.next
            (Reach.next
              (Reach.next
                (Reach.next
                  (Reach.next
                    (Reach.next
                      (Reach.next
                        (Reach.next
                          (Reach.next Reach.here
                            (Step.moves [] (top ∷ []) refl (Move.goes_on refl)))
                          (Step.moves [] (top ∷ []) refl (
                            Move.get 70 (read_event ∷ []) (record two_entries { unread = [] })
                              read_two)))
                        (Step.moves [] (top ∷ []) refl (Move.process read_event [])))
                      (Step.moves [] (top ∷ []) refl (Move.answers _ [] 5 9)))
                    (Step.cancel))
                  (Step.moves (_ ∷ []) [] refl (Move.stop refl)))
                (Step.moves [] (stopped ∷ []) refl (Move.succeeds _ [])))
              (Step.moves [] (stopped ∷ []) refl (Move.completes _ _ _ [] _ _ refl)))
            (Step.moves [] (stopped ∷ []) refl (Move.processes [])))
          (Step.moves [] (stopped ∷ []) refl Move.again))
        (Step.moves [] (stopped ∷ []) refl (Move.stop refl));
}

Reach-Balanced_example : Balanced run.last.shared.indexed.stats
unfolding run
Reach-Balanced_example =
    Reach-Balanced index lists "w1" error_name 2 two_entries (λ key. some "maps") no_tables run.last
      run.reach (refl, (refl, tt))
