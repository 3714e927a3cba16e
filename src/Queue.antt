-- ===== src/Queue.antt =====
-- internal/scraper/queues/job.go and queue.go: jobs and the Redis keys they move between.
-- A `time.Time` is the number of nanoseconds since the year 1, the zero time 0. The formats of the keys are
-- the constructors of `Key`; a stored JSON text is the value that it stands for.
pub mod Ops
pub mod Ready
pub mod Fail
mod Wake
mod Reap
pub mod Memory
mod Tests
use Prim.Native.String.{String}
use dev_search.Prelude.{
  ℕ, zero, suc, ◌+◌, ◌-◌, ◌*◌, ◌/◌, ◌^◌, Bool, true, false, Option, none, some, List, [], ◌∷◌, map,
  leb, ◌==◌, if◌then◌else◌,
}
use dev_search.Prelude.Int.{ℤ, pos}
use dev_search.Scoring.{PriorityStatus, second, minute}

-- `unset` is the empty text.
pub data JobStatus : Type 0 where
  unset ready inflight finished dead : JobStatus

-- `json.RawMessage`: nil, a JSON text, or a text that is no JSON.
pub data RawMessage : Type 0 where
  absent : RawMessage
  json : String → RawMessage
  malformed : String → RawMessage

-- `Priority` is empty until a job is enqueued.
pub record Job : Type 0 where
  pub id : String
  pub url : String
  pub typ : String
  pub payload : RawMessage
  pub status : JobStatus
  pub priority : Option PriorityStatus
  pub retry_count : ℕ
  pub base_score : ℤ
  pub visibility_start : ℕ
  pub created_at : ℕ
  pub last_enqueued_at : ℕ
  pub error_msg : String

pub record Result : Type 0 where
  pub job_id : String
  pub success : Bool
  pub error : String
  pub duration : ℤ
  pub worker_id : String
  pub finished_at : ℕ

abbrev pub max_retries : ℕ
max_retries = 5

abbrev pub processing_timeout : ℕ
processing_timeout = 5 * minute

abbrev pub result_ttl : ℕ
result_ttl = 24 * 60 * minute

-- The formats ReadyKey, ProcessingKey, ResultsKey, FailedKey and RetryKey, and "job:" + ID.
pub data Key : Type 0 where
  ready_key : String → Option PriorityStatus → Key
  processing_key : String → Key
  results_key : String → Key
  failed_key : String → Key
  retry_key : String → Key
  job_key : String → Key

-- A stored value: the JSON text of a job or a result, or any other text.
pub data Value : Type 0 where
  job_json : Job → Value
  result_json : Result → Value
  plain : String → Value

-- The fresh ID and the time are those of the call.
unfoldable pub new_job : String → ℕ → String → Job
new_job id now raw_url = record {
  id = id;
  url = raw_url;
  typ = "";
  payload = absent;
  status = ready;
  priority = none;
  retry_count = 0;
  base_score = pos 10;
  visibility_start = 0;
  created_at = now;
  last_enqueued_at = 0;
  error_msg = "";
}

-- `json.Marshal` writes a nil payload as `null`, which is read back as the text `null`, and refuses a
-- payload that is no JSON.
abbrev pub wire_payload : RawMessage → RawMessage
wire_payload absent = json "null"
wire_payload (json text) = json text
wire_payload (malformed text) = malformed text

abbrev pub wire : Job → Job
wire job = record job { payload = wire_payload job.payload }

unfoldable pub marshal : Job → Option Value
marshal job = elim job.payload [ malformed text ↦ none | _ ↦ some (job_json (wire job)) ]

-- `data, _ := json.Marshal(job)`: after an error the bytes are nil, and an empty text is stored.
unfoldable pub marshal_or_empty : Job → Value
marshal_or_empty job = elim (marshal job) [ none ↦ plain "" | some v ↦ v ]

-- A result has no field of a job, so it is read as the zero job.
abbrev pub zero_job : Job
zero_job = record {
  id = "";
  url = "";
  typ = "";
  payload = absent;
  status = unset;
  priority = none;
  retry_count = 0;
  base_score = pos 0;
  visibility_start = 0;
  created_at = 0;
  last_enqueued_at = 0;
  error_msg = "";
}

unfoldable pub unmarshal : Value → Option Job
unmarshal (job_json job) = some job
unmarshal (result_json result) = some zero_job
unmarshal (plain text) = none

-- `t.Unix()`: whole seconds since 1970, which is 719162 days after the year 1.
unfoldable pub unix : ℕ → ℕ
unix t = t / second - 719_162 * 86_400

-- `time.Second * time.Duration(1 << n)`
unfoldable pub backoff : ℕ → ℕ
backoff n = second * 2 ^ n

pub data QueueError : Type 0 where
  marshal_error redis_error unmarshal_error : QueueError

-- What `Dequeue` returns: a job, nil, or an error.
pub data Dequeued : Type 0 where
  got : Job → Dequeued
  no_job : Dequeued
  refused : QueueError → Dequeued
