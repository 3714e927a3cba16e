-- ===== src/Streams/Tests.antt =====
-- Runs of the stream, and the theorems at inputs that meet their hypotheses.
use Prim.Native.String.{String}
use dev_search.Prelude.{
  ◌+◌, ◌<◌, ◌≤◌, ◌≡◌, ◌↔◌, ◌⊎◌, inr, refl, sym, subst, Bool, true, false, Option, none, some, List,
  [], ◌∷◌, ◌++◌,
}
use dev_search.Prelude.Text.{codes, has_prefix, contains_text, string_discrete}
use dev_search.Redis.{In}
use dev_search.Redis.Memory.{same_refl, member, member_iff}
use dev_search.Streams.Setup.{GroupServer, Later, names, new_msg_stream, new_msg_stream_again}
use dev_search.Queue.{RawMessage}
use dev_search.Streams.{
  Msg, dead, max_retries, new_msg, Data, msg_json, plain, marshal, unmarshal, StreamEntry, decode,
  decode_all, get_msg, read_new, retry, complete_message,
}
use dev_search.Streams.Lifecycle.{complete_message_failure}
use dev_search.Streams.Delivery.{Carries, Answers, get_msg_delivers}
use dev_search.Streams.Memory.{Lists, lists}

abbrev pub event : Msg
event = new_msg "parser-stream-1" (RawMessage.json "{}")

abbrev pub two_entries : Lists
two_entries = record {
  added = plain "x" ∷ msg_json event ∷ [];
  unread = plain "x" ∷ msg_json event ∷ [];
  acked = [];
}

abbrev pub read_event : Msg
read_event = record event { stream_id = "1-0"; last_fetched_at = 70 }

one_read :
    (get_msg lists "parser-events" "indexer-group" "w1" 70 two_entries).0 ≡ some (read_event ∷ [])
unfolding get_msg read_new decode_all decode unmarshal new_msg
one_read = refl

get_msg_delivers_example :
    (entries : List StreamEntry) × Answers lists "parser-events" "indexer-group" "w1" two_entries
      entries
    × ((msg : Msg)
        → In msg (read_event ∷ [])
          ↔ ((entry : StreamEntry) × In entry entries × Carries 70 entry msg))
unfolding get_msg read_new decode_all decode unmarshal new_msg
get_msg_delivers_example =
    get_msg_delivers lists "parser-events" "indexer-group" "w1" 70 two_entries (read_event ∷ [])
      refl

complete_message_failure_example :
    lists.Acked
      (complete_message lists read_event false "parser-events" "indexer-group" two_entries).1
      "parser-events"
      "indexer-group"
      read_event.stream_id
    × (((read_event.retry_count < max_retries)
          × ((complete_message lists read_event false "parser-events" "indexer-group" two_entries).0
              ≡ record read_event { retry_count = read_event.retry_count + 1 })
          × ((body : Data) × (marshal
                  (record read_event { retry_count = read_event.retry_count + 1 })
                ≡ some body)
              × (lists.log
                    (complete_message lists read_event false "parser-events" "indexer-group"
                      two_entries).1
                    "parser-events"
                  ≡ lists.log two_entries "parser-events" ++ body ∷ [])))
        ⊎ ((max_retries ≤ read_event.retry_count)
            × ((complete_message lists read_event false "parser-events" "indexer-group"
                  two_entries).0
                ≡ record read_event { retry_count = read_event.retry_count + 1; status = dead })
            × (lists.log
                  (complete_message lists read_event false "parser-events" "indexer-group"
                    two_entries).1
                  "parser-events"
                ≡ lists.log two_entries "parser-events")))
unfolding complete_message retry marshal new_msg
complete_message_failure_example =
    complete_message_failure lists read_event "parser-events" "indexer-group" two_entries refl

abbrev pub group_discrete : Discrete (String × String)
group_discrete = hlevel (string_discrete)

abbrev pub made :
    String × String → Bool → List (String × String) → List (String × String) × Option String
made pair true s = (s, some "BUSYGROUP Consumer Group name already exists")
made pair false s = (pair ∷ s, none)

pub made_has :
    (pair : String × String) (s : List (String × String)) (b : Bool)
    → member group_discrete pair s ≡ b
    → (made pair b s).1 ≡ none
    → member group_discrete pair (made pair b s).0 ≡ true
made_has pair s true is e = cc
made_has pair s false is e = rw (same_refl group_discrete pair) refl

pub made_refuses :
    (pair : String × String) (s : List (String × String)) (b : Bool)
    → b ≡ true
    → (text : String) × (made pair b s ≡ (s, some text))
      × (contains_text (codes text) (codes "BUSYGROUP") ≡ true)
unfolding contains_text has_prefix
made_refuses pair s true e = ("BUSYGROUP Consumer Group name already exists", refl, refl)
made_refuses pair s false e = cc

pub more_groups :
    (pair other : String × String) (s t : List (String × String))
    → t ≡ other ∷ s
    → member group_discrete pair s ≡ true
    → member group_discrete pair t ≡ true
more_groups pair other s t e has = (member_iff group_discrete pair t).1 (
    subst (λ (l : List (String × String)). In pair l) (sym e)
      (inr ((member_iff group_discrete pair s).0 has)))

-- A server with the groups that were made.
abbrev pub groups : GroupServer
groups = record {
  Store = List (String × String);
  HasGroup = λ s stream group. member group_discrete (stream, group) s ≡ true;
  xgroup_create_mkstream =
      λ stream group from s. made (stream, group) (member group_discrete (stream, group) s) s;
  create_makes = λ stream group from s e.
      made_has (stream, group) s (member group_discrete (stream, group) s) refl e;
  create_refused = λ stream group from s has.
      made_refuses (stream, group) s (member group_discrete (stream, group) s) has;
  Other = λ s t. (pair : String × String) × (t ≡ pair ∷ s);
  other_keeps = λ s t stream group made has. more_groups (stream, group) made.0 s t made.1 has;
}

-- The names of the scraper's stream are those that the indexer's worker completes messages under.
indexer_names :
    names "parser" "indexer"
    ≡ record { namespace = "parser"; stream_name = "parser-events"; group_name = "indexer-group" }
unfolding names
indexer_names = refl

-- Another group is made after the first one.
abbrev later_groups : List (String × String)
later_groups = ("docs-events", "docs-group") ∷ (new_msg_stream groups "parser" "indexer" []).1

new_msg_stream_again_example :
    ((new_msg_stream groups "parser" "indexer" []).2 ≡ true)
    × (new_msg_stream groups "parser" "indexer" later_groups
        ≡ (names "parser" "indexer", later_groups, true))
new_msg_stream_again_example =
    new_msg_stream_again groups "parser" "indexer" [] later_groups refl
      (Later.after Later.at_once (("docs-events", "docs-group"), refl))
