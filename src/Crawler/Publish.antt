-- ===== src/Crawler/Publish.antt =====
-- A page that is kept: what is stored, and the job that is queued.
use Prim.Native.String.{String}
use dev_search.Prelude.{
  ℕ, ◌≡◌, ◌≢◌, refl, ap, ◌∙◌, Bool, true, false, Bool-cases, inl, inr, Option, none, some,
  Option-cases, List-cases, List, [], ◌∷◌, ◌++◌,
}
use dev_search.Prelude.Text.{codes}
use dev_search.Prelude.Decimal.{text_of}
use dev_search.Scoring.{low, score_to_priority}
use dev_search.Queue.{job_json, QueueError, new_job, marshal}
use dev_search.Queue.Ops.{enqueue, prepared}
use dev_search.Queue.Ready.{ready_list, enqueue_ready}
use dev_search.Storage.{ObjectKey, html_object, object_name, store_raw_data}
use dev_search.Parsing.{new_parse_payload}
use dev_search.Crawler.Handlers.{
  CrawlError, enqueue_failed, store_failed, Env, Run, Crawl, parse_job, queue_parse, store_page,
  empty_payload,
}

module _ (env : Env) where
  open env use {net, obj, redis, parse_queue}

  -- No error of `Enqueue` is left.
  sent_by :
      (err : Option QueueError)
      → (elim err [ none ↦ none | some e ↦ some enqueue_failed ]) ≡ none
      → err ≡ none
  sent_by none h = refl
  sent_by (some e) h = cc

  enqueue_parse :
      (run : Run) (url payload : String) (s : redis.Store)
      → (enqueue redis parse_queue run.now (parse_job run url payload) s).2 ≡ none
      → ready_list redis parse_queue
          (enqueue redis parse_queue run.now (parse_job run url payload) s).1
          low
        ≡ ready_list redis parse_queue s low
          ++ (job_json (prepared run.now (parse_job run url payload)) ∷ [])
  unfolding enqueue marshal prepared new_job score_to_priority
  enqueue_parse run url payload s sent =
      enqueue_ready redis parse_queue run.now (parse_job run url payload) s low _ sent refl refl

  queue_parse_publishes :
      (run : Run) (empty : CrawlError) (url : String) (name : ObjectKey) (hash : ℕ) (typ : String)
      (s : Crawl env)
      → (queue_parse env run empty url name hash typ s).0 ≡ none
      → (payload : String) × (net.marshal_payload (new_parse_payload (object_name name) hash typ)
          ≡ some payload)
        × ((queue_parse env run empty url name hash typ s).1.objects ≡ s.objects)
        × (ready_list redis parse_queue (queue_parse env run empty url name hash typ s).1.queue low
            ≡ ready_list redis parse_queue s.queue low
              ++ (job_json (prepared run.now (parse_job run url payload)) ∷ []))
  unfolding queue_parse
  queue_parse_publishes run empty url name hash typ s done =
      elim (Option-cases (net.marshal_payload (new_parse_payload (object_name name) hash typ))) [
        | inl bad ↦ cc (rw (bad, queue_parse) at done)
        | inr (payload, okay) ↦ elim (List-cases (codes payload)) [
          | inl e ↦ cc (rw (e) at rw (okay, queue_parse) at done)
          | inr (c, cs, e) ↦
              rw (okay, queue_parse)
                (rw (e) (
                  payload,
                  refl,
                  refl,
                  enqueue_parse run url payload s.queue
                      (sent_by _ (rw (e) at rw (okay, queue_parse) at done)),
                ))
        ]
      ]

  abbrev put_page : List ℕ → ℕ → Crawl env → obj.Store × Bool
  put_page body hash s = obj.put (html_object hash) (text_of body) "text/html" s.objects

  store_page_failed :
      (run : Run) (url : String) (body : List ℕ) (hash : ℕ) (s : Crawl env)
      → (put_page body hash s).1 ≡ false
      → (store_page env run url body hash s).0 ≡ some store_failed
  unfolding store_page store_raw_data
  store_page_failed run url body hash s bad = rw (bad, store_page, store_raw_data) refl

  store_page_stored :
      (run : Run) (url : String) (body : List ℕ) (hash : ℕ) (s : Crawl env)
      → (put_page body hash s).1 ≡ true
      → store_page env run url body hash s
        ≡ queue_parse env run
            (empty_payload url)
            url
            (html_object hash)
            hash
            "html"
            (record s { objects = (put_page body hash s).0 })
  unfolding store_page store_raw_data
  store_page_stored run url body hash s okay = rw (okay, store_page, store_raw_data) refl

  -- When the part of `FetchAndStoreRaw` that stores a unique page and queues its parse job returns nil, the
  -- page is the content of the object with the hash given, and a parse job with the payload that names this
  -- object stands at the end of the ready list of priority low.
  pub store_page_publishes :
      (run : Run) (url : String) (body : List ℕ) (hash : ℕ) (s : Crawl env)
      → (store_page env run url body hash s).0 ≡ none
      → (payload : String) × (net.marshal_payload
            (new_parse_payload (object_name (html_object hash)) hash "html")
          ≡ some payload)
        × (obj.content (store_page env run url body hash s).1.objects (html_object hash)
            ≡ some (text_of body))
        × (ready_list redis parse_queue (store_page env run url body hash s).1.queue low
            ≡ ready_list redis parse_queue s.queue low
              ++ (job_json (prepared run.now (parse_job run url payload)) ∷ []))
  store_page_publishes run url body hash s done = elim (Bool-cases (put_page body hash s).1) [
    | inr bad ↦ cc (done, store_page_failed run url body hash s bad)
    | inl okay ↦
        let stored = store_page_stored run url body hash s okay in
        let t : Crawl env = record s { objects = (put_page body hash s).0 } in
        let (payload, good, kept, queued) =
          queue_parse_publishes run (empty_payload url) url (html_object hash) hash "html" t
            (rw (stored) at done) in
        rw (stored) (
          payload,
          good,
          ap (λ o. obj.content o (html_object hash)) kept
              ∙ obj.put_content (html_object hash) (text_of body) "text/html" s.objects okay,
          queued,
        )
  ]

  queue_parse_enqueues :
      (run : Run) (empty : CrawlError) (url : String) (name : ObjectKey) (hash : ℕ) (typ : String)
      (s : Crawl env)
      → (queue_parse env run empty url name hash typ s).0 ≡ none
      → (payload : String) × (net.marshal_payload (new_parse_payload (object_name name) hash typ)
          ≡ some payload)
        × (codes payload ≢ [])
        × ((queue_parse env run empty url name hash typ s).1.queue
            ≡ (enqueue redis parse_queue run.now (parse_job run url payload) s.queue).1)
        × ((enqueue redis parse_queue run.now (parse_job run url payload) s.queue).2 ≡ none)
  unfolding queue_parse
  queue_parse_enqueues run empty url name hash typ s done =
      elim (Option-cases (net.marshal_payload (new_parse_payload (object_name name) hash typ))) [
        | inl bad ↦ cc (rw (bad, queue_parse) at done)
        | inr (payload, okay) ↦ elim (List-cases (codes payload)) [
          | inl e ↦ cc (rw (e) at rw (okay, queue_parse) at done)
          | inr (c, cs, e) ↦
              rw (okay, queue_parse)
                (rw (e) (
                  payload,
                  refl,
                  (λ f. cc),
                  refl,
                  sent_by _ (rw (e) at rw (okay, queue_parse) at done),
                ))
        ]
      ]

  -- A page that is stored leaves its parse job by one `Enqueue`, which succeeds.
  pub store_page_enqueues :
      (run : Run) (url : String) (body : List ℕ) (hash : ℕ) (s : Crawl env)
      → (store_page env run url body hash s).0 ≡ none
      → (payload : String) × (net.marshal_payload
            (new_parse_payload (object_name (html_object hash)) hash "html")
          ≡ some payload)
        × (codes payload ≢ [])
        × ((store_page env run url body hash s).1.queue
            ≡ (enqueue redis parse_queue run.now (parse_job run url payload) s.queue).1)
        × ((enqueue redis parse_queue run.now (parse_job run url payload) s.queue).2 ≡ none)
  store_page_enqueues run url body hash s done = elim (Bool-cases (put_page body hash s).1) [
    | inr bad ↦ cc (done, store_page_failed run url body hash s bad)
    | inl okay ↦
        let same = store_page_stored run url body hash s okay in
        rw (same) (
          queue_parse_enqueues run (empty_payload url) url (html_object hash) hash "html"
            (record s { objects = (put_page body hash s).0 }) (rw (same) at done))
  ]
