-- ===== src/Program/Handover.antt =====
-- From the crawler to the parser: the page that one stores is the page that the other reads.
use Prim.Native.String.{String}
use dev_search.Prelude.{ℕ, ◌<◌, ◌^◌, ◌≡◌, arith, refl, ap, ◌∙◌, none, some, List, []}
use dev_search.Prelude.Text.{codes}
use dev_search.Prelude.Decimal.{text_of}
use dev_search.Scoring.{PriorityStatus}
use dev_search.Queue.{Job, inflight, new_job, wire, marshal, got}
use dev_search.Queue.Ops.{enqueue, dequeue, prepared}
use dev_search.Queue.Ready.{ready_list, enqueue-dequeue}
use dev_search.Storage.{html_object, object_name}
use dev_search.Storage.Names.{key_of_name, key_of_name-html_object}
use dev_search.Normalizer.{Url}
use dev_search.Parsing.{ParsePayload, new_parse_payload}
use dev_search.Parsing.Handler as Parse
use dev_search.Parsing.Handler.{payload_text, parse_page, extract_text_and_store}
use dev_search.Crawler.Handlers.{Run, Crawl, parse_job, store_page}
use dev_search.Crawler.Publish.{store_page_publishes, store_page_enqueues}
use dev_search.Program.{Env, priority_queues, crawl_env, parser_of}

module _ (env : Env) where
  -- The payload of a fetched web page.
  abbrev pub page_payload : ℕ → ParsePayload
  page_payload hash = new_parse_payload (object_name (html_object hash)) hash "html"

  -- The payload of a web page is read as it was written.
  abbrev pub ReadsBack : Type 0
  ReadsBack =
      (hash : ℕ) (text : String)
      → hash < 2 ^ 64
      → env.net.marshal_payload (page_payload hash) ≡ some text
      → env.payload_of text ≡ some (page_payload hash)

  -- The name in the payload is that of the page's object.
  page_payload_key :
      (hash : ℕ) → hash < 2 ^ 64 → key_of_name (page_payload hash).object_key ≡ html_object hash
  unfolding new_parse_payload
  page_payload_key hash small = key_of_name-html_object hash (omega arith)

  pushed_job :
      (run : Run) (url payload : String) (q : env.redis.Store)
      → (enqueue env.redis "parser" run.now (parse_job run url payload) q).0
        ≡ prepared run.now (parse_job run url payload)
  unfolding enqueue marshal prepared new_job
  pushed_job run url payload q = refl

  -- The parse job as the parser gets it.
  abbrev pub taken_job : Run → String → String → ℕ → Job
  taken_job run url text later = record (wire (prepared run.now (parse_job run url text))) {
    status = inflight;
    visibility_start = later;
  }

  reaches :
      (run : Run) (url text : String) (later : ℕ) (meets : Parse.Run) (payload : ParsePayload)
      (parsed : Url) (t : Parse.Parsed (parser_of env))
      → env.pages.parse_url (codes url) ≡ some parsed
      → env.payload_of text ≡ some payload
      → extract_text_and_store (parser_of env) meets (taken_job run url text later) t
        ≡ parse_page (parser_of env) meets (taken_job run url text later) parsed payload t
  unfolding extract_text_and_store prepared new_job
  reaches run url text later meets payload parsed t valid read =
      rw (valid, extract_text_and_store) (rw (read, extract_text_and_store) refl)

  -- When the crawler has stored a page under a 64-bit hash and queued its parse job while the parser's ready
  -- lists were empty, and the parser's worker then gets a job, the handler works on the payload that the
  -- crawler wrote, and the page is the content of the object that this payload names, provided that the
  -- payloads of web pages with 64-bit hashes are read as they are written and the page's URL is valid.
  pub store_page_handover :
      (run : Run) (url : String) (body : List ℕ) (hash : ℕ) (s : Crawl (crawl_env env))
      (worker_id : String) (later : ℕ) (job : Job) (parsed : Url)
      → ReadsBack
      → hash < 2 ^ 64
      → ((p : PriorityStatus) → ready_list env.redis "parser" s.queue p ≡ [])
      → (store_page (crawl_env env) run url body hash s).0 ≡ none
      → (dequeue env.redis "parser" priority_queues worker_id later
          (store_page (crawl_env env) run url body hash s).1.queue).0
        ≡ got job
      → env.pages.parse_url (codes url) ≡ some parsed
      → ((meets : Parse.Run) (t : Parse.Parsed (parser_of env))
          → extract_text_and_store (parser_of env) meets job t
            ≡ parse_page (parser_of env) meets job parsed (page_payload hash) t)
        × (env.obj.content
              (store_page (crawl_env env) run url body hash s).1.objects
              (key_of_name (page_payload hash).object_key)
            ≡ some (text_of body))
  store_page_handover run url body hash s worker_id later job parsed back small empty done taken
        valid =
      let (text, good, full, queue, sent) =
        store_page_enqueues (crawl_env env) run url body hash s done in
      let (other, same, stored, ready) =
        store_page_publishes (crawl_env env) run url body hash s done in
      let found =
        enqueue-dequeue env.redis "parser" priority_queues worker_id run.now later s.queue
          (parse_job run url text) job empty sent (rw (queue) at taken) in
      let job_is : job ≡ taken_job run url text later =
        found
        ∙ ap (λ (j : Job). record (wire j) { status = inflight; visibility_start = later })
            (pushed_job run url text s.queue) in
      (
        (λ meets t. rw (job_is) (
            reaches run url text later meets (page_payload hash) parsed t valid
              (back hash text small good))),
        rw (page_payload_key hash small) stored,
      )
