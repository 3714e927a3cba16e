-- ===== src/Streams.antt =====
-- internal/streams/message.go and stream.go: messages on a Redis stream, read by a consumer group.
pub mod Lifecycle
mod Delivery
pub mod Setup
pub mod Memory
pub mod Tests
use Prim.Native.String.{String}
use dev_search.Prelude.{
  ℕ, ◌+◌, ◌≡◌, ◌≢◌, ◌<◌, ◌≤◌, Bool, true, false, Option, none, some, List, [], ◌∷◌, ◌++◌, leb,
  if◌then◌else◌,
}
use dev_search.Queue.{RawMessage, wire_payload}

-- `idle` is the constant READY. FAILED is never set.
pub data MsgStatus : Type 0 where
  unset idle processing done failed dead : MsgStatus

pub record Msg : Type 0 where
  pub id : String
  pub stream_id : String
  pub retry_count : ℕ
  pub payload : RawMessage
  pub status : MsgStatus
  pub added_at : ℕ
  pub last_fetched_at : ℕ

abbrev pub max_retries : ℕ
max_retries = 5

-- The fresh ID is that of the call.
unfoldable pub new_msg : String → RawMessage → Msg
new_msg id payload = record {
  id = id;
  stream_id = "";
  retry_count = 0;
  payload = payload;
  status = idle;
  added_at = 0;
  last_fetched_at = 0;
}

-- The field "data" of an entry: the JSON text of a message, a text that is none, or no text.
pub data Data : Type 0 where
  msg_json : Msg → Data
  plain : String → Data
  no_data : Data

abbrev pub wire : Msg → Msg
wire msg = record msg { payload = wire_payload msg.payload }

unfoldable pub marshal : Msg → Option Data
marshal msg = elim msg.payload [ RawMessage.malformed text ↦ none | _ ↦ some (msg_json (wire msg)) ]

unfoldable pub unmarshal : Data → Option Msg
unmarshal (msg_json msg) = some msg
unmarshal (plain text) = none
unmarshal no_data = none

pub record StreamEntry : Type 0 where
  pub stream_id : String
  pub body : Data

-- A server with streams, and what Redis documents of them. XREADGROUP answers the entries of each stream
-- read, `some []` for nil, and XAUTOCLAIM entries of the stream; `none` is an error. For an ID other than `>`
-- the answer names the stream even where it has no entry. `log` is what was added to a stream, in order, and
-- `Acked` says that the entry of an ID was acknowledged.
pub record StreamServer : Type 1 where
  pub Store : Type 0
  pub log : Store → String → List Data
  pub Acked : Store → String → String → String → Type 0
  pub xadd : String → Data → Store → Store × Bool
  pub xack : String → String → String → Store → Store × Bool
  pub read_group :
      String → String → String → String → Store → Option (List (List StreamEntry)) × Store
  pub auto_claim : String → String → String → Store → Option (List StreamEntry) × Store
  pub xadd_log :
      (stream : String) (body : Data) (s : Store)
      → (xadd stream body s).1 ≡ true
      → log (xadd stream body s).0 stream ≡ log s stream ++ body ∷ []
  pub xadd_keeps :
      (stream : String) (body : Data) (s : Store) (name group id : String)
      → Acked s name group id
      → Acked (xadd stream body s).0 name group id
  pub xack_log :
      (stream group id name : String) (s : Store) → log (xack stream group id s).0 name ≡ log s name
  pub xack_keeps :
      (stream group id : String) (s : Store) (name other acked : String)
      → Acked s name other acked
      → Acked (xack stream group id s).0 name other acked
  pub xack_acked :
      (stream group id : String) (s : Store)
      → (xack stream group id s).1 ≡ true
      → Acked (xack stream group id s).0 stream group id
  pub pending_answers :
      (stream group consumer : String) (s : Store)
      → (read_group stream group consumer "0" s).0 ≢ some []

pub data StreamError : Type 0 where
  marshal_error add_error ack_error : StreamError

-- The loop of `GetMsg` over the entries: those that are no message are passed over.
unfoldable pub decode : ℕ → StreamEntry → List Msg
decode now entry = elim (unmarshal entry.body) [
  | none ↦ []
  | some msg ↦ record msg { stream_id = entry.stream_id; last_fetched_at = now } ∷ []
]

unfoldable pub decode_all : ℕ → List StreamEntry → List Msg
decode_all now [] = []
decode_all now (entry ∷ entries) = decode now entry ++ decode_all now entries

-- The entries of all streams of an answer.
abbrev pub all_entries : List (List StreamEntry) → List StreamEntry
all_entries [] = []
all_entries (entries ∷ streams) = entries ++ all_entries streams

module _ (r : StreamServer) where
  open r use {Store, xadd, xack, read_group, auto_claim}

  unfoldable pub add_msg : String → ℕ → Msg → Store → Msg × Store × Option StreamError
  add_msg stream now msg s =
      let msg' : Msg = record msg { added_at = now } in
      elim (marshal msg') [
        | none ↦ (msg', s, some marshal_error)
        | some body ↦
            let (t, okay) = xadd stream body s in (msg', t, if okay then none else some add_error)
      ]

  -- `GetMsg` from the answer to XAUTOCLAIM on.
  unfoldable pub claimed : ℕ → Option (List StreamEntry) × Store → Option (List Msg) × Store
  claimed now (none, s) = (none, s)
  claimed now (some entries, s) = (some (decode_all now entries), s)

  -- `GetMsg` from the answer to the second read on, and from the answer to the first.
  unfoldable pub read_again :
      String
      → String
      → String
      → ℕ
      → Option (List (List StreamEntry)) × Store
      → Option (List Msg) × Store
  read_again stream group consumer now (none, s) = (none, s)
  read_again stream group consumer now (some [], s) =
      claimed now (auto_claim stream group consumer s)
  read_again stream group consumer now (some (entries ∷ streams), s) =
      (some (decode_all now (all_entries (entries ∷ streams))), s)

  unfoldable pub read_new :
      String
      → String
      → String
      → ℕ
      → Option (List (List StreamEntry)) × Store
      → Option (List Msg) × Store
  read_new stream group consumer now (none, s) = (none, s)
  read_new stream group consumer now (some [], s) =
      read_again stream group consumer now (read_group stream group consumer "0" s)
  read_new stream group consumer now (some (entries ∷ streams), s) =
      (some (decode_all now (all_entries (entries ∷ streams))), s)

  unfoldable pub get_msg : String → String → String → ℕ → Store → Option (List Msg) × Store
  get_msg stream group consumer now s =
      read_new stream group consumer now (read_group stream group consumer ">" s)

  -- `CompleteMessage` after the acknowledgement of a message that failed. The sleep before the message is
  -- added again takes time only.
  unfoldable pub retry : String → Msg → Store → Msg × Store × Option StreamError
  retry stream msg t =
      let msg' : Msg = record msg { retry_count = msg.retry_count + 1 } in
      let again : Msg × Store × Option StreamError = elim (marshal msg') [
        | none ↦ (msg', t, some marshal_error)
        | some body ↦
            let (u, okay) = xadd stream body t in (msg', u, if okay then none else some add_error)
      ] in
      if leb msg'.retry_count max_retries then again else (record msg' { status = dead }, t, none)

  unfoldable pub complete_message :
      Msg → Bool → String → String → Store → Msg × Store × Option StreamError
  complete_message msg success stream group s =
      let (t, okay) = xack stream group msg.stream_id s in
      let settled : Msg × Store × Option StreamError =
        if success then (record msg { status = done }, t, none) else retry stream msg t in
      if okay then settled else (msg, t, some ack_error)
