-- ===== src/Parsing/Handler.antt =====
-- `ExtractTextAndStore` of internal/scraper/parsing/parsing.go.
use Prim.Native.String.{String}
use dev_search.Prelude.{ℕ, Option, none, some, List, [], ◌∷◌, if◌then◌else◌}
use dev_search.Prelude.Int.{pos, ◌+ℤ◌}
use dev_search.Prelude.Text.{codes, string_discrete}
use dev_search.Prelude.Decimal.{text_of}
use dev_search.Scoring.{UrlMeta}
use dev_search.Queue.{Job, RawMessage}
use dev_search.Normalizer.{Url}
use dev_search.Storage.{ObjectServer, store_text_data, get_object}
use dev_search.Storage.Names.{key_of_name}
use dev_search.Streams.{StreamServer, new_msg, add_msg}
use dev_search.Document.{Record, new_record}
use dev_search.Parsing.{ParsePayload, ParsedPage, generate_snippet}
use dev_search.Parsing.Extract.{is_empty, extract_according_to_type}
use dev_search.Parsing.Links as Links
use dev_search.Parsing.Links.{extract_canonical_url, get_url_meta, found_meta, follow_links}

-- `panicked` is no error but the end of the program.
pub data ParseError : Type 0 where
  empty_payload bad_url bad_payload no_key get_failed extract_failed store_failed meta_failed
        marshal_failed :
      ParseError
  panicked : ParseError

-- `payload_of` and `marshal_record` are package json, where `none` is an error, and `from_bytes` the text of
-- bytes of which some may be no character.
pub record Parser : Type 1 where
  pub links : Links.Env
  pub obj : ObjectServer
  pub streams : StreamServer
  pub stream : String
  pub payload_of : String → Option ParsePayload
  pub marshal_record : Record → Option String
  pub from_bytes : List ℕ → String

-- The time, and the fresh ID of the message.
pub record Run : Type 0 where
  pub now : ℕ
  pub msg_id : String

pub record State (O M Q S : Type 0) : Type 0 where
  pub objects : O
  pub metas : M
  pub queue : Q
  pub messages : S

abbrev pub Parsed : Parser → Type 0
Parsed p = State p.obj.Store p.links.metas.Store p.links.redis.Store p.streams.Store

-- The bytes of a payload, if there are any.
abbrev pub payload_text : RawMessage → Option String
payload_text RawMessage.absent = none
payload_text (RawMessage.json text) = some text
payload_text (RawMessage.malformed text) = elim (codes text) [ [] ↦ none | c ∷ cs ↦ some text ]

module _ (p : Parser) where
  open p use {links, obj, streams, stream, payload_of, marshal_record, from_bytes}

  abbrev pub current_meta : Run → Url → Option UrlMeta → UrlMeta
  current_meta run parsed none = found_meta links run.now (pos 0) parsed
  current_meta run parsed (some meta) = meta

  abbrev pub page_record : Job → ParsePayload → ParsedPage → UrlMeta → Record
  page_record job payload page meta =
      new_record payload.hash job.url (text_of page.title) (from_bytes (generate_snippet page.text))
        payload.object_key meta.inbound_links

  -- From the record's text on. An error of `AddMsg` or of the canonical URL is logged only.
  unfoldable pub publish :
      Run → List ℕ → ParsedPage → UrlMeta → String → Parsed p → Option ParseError × Parsed p
  publish run raw page meta text s =
      let (msg, messages, err) =
        add_msg streams stream run.now (new_msg run.msg_id (RawMessage.json text)) s.messages in
      let canonical : List ℕ = elim (extract_canonical_url links.pages raw) [
        | none ↦ []
        | some canonical ↦ canonical
      ] in
      let (crawled, okay) =
        follow_links links run.now (meta.depth +ℤ pos 1) canonical page.links
          (record { metas = s.metas; queue = s.queue }) in
      (
        if okay then none else some panicked,
        record s { metas = crawled.metas; queue = crawled.queue; messages = messages },
      )

  -- From the page's text on.
  unfoldable pub keep_text :
      Run → Job → Url → ParsePayload → List ℕ → ParsedPage → Parsed p → Option ParseError × Parsed p
  keep_text run job parsed payload raw page s =
      let (objects, okay) = store_text_data obj (text_of page.text) payload.hash s.objects in
      let t : Parsed p = record s { objects = objects } in
      if okay
      then elim (get_url_meta links (codes job.url) t.metas) [
        | none ↦ (some meta_failed, t)
        | some known ↦
            let meta : UrlMeta = record (current_meta run parsed known) {
              has_code_blocks = page.has_code_blocks;
            } in
            elim (marshal_record (page_record job payload page meta)) [
              | none ↦ (some marshal_failed, t)
              | some text ↦ publish run raw page meta text t
            ]
      ]
      else (some store_failed, t)

  -- From the payload on.
  unfoldable pub parse_page :
      Run → Job → Url → ParsePayload → Parsed p → Option ParseError × Parsed p
  parse_page run job parsed payload s =
      if is_empty (codes payload.object_key)
      then (some no_key, s)
      else elim (get_object obj (key_of_name payload.object_key) s.objects) [
        | none ↦ (some get_failed, s)
        | some raw ↦ elim (extract_according_to_type links.pages (codes raw) payload.typ parsed) [
          | none ↦ (some extract_failed, s)
          | some page ↦ keep_text run job parsed payload (codes raw) page s
        ]
      ]

  unfoldable pub extract_text_and_store : Run → Job → Parsed p → Option ParseError × Parsed p
  extract_text_and_store run job s = elim (string_discrete job.typ "parse") [
    | no ne ↦ (none, s)
    | yes e ↦ elim (payload_text job.payload) [
      | none ↦ (some empty_payload, s)
      | some text ↦ elim (links.pages.parse_url (codes job.url)) [
        | none ↦ (some bad_url, s)
        | some parsed ↦ elim (payload_of text) [
          | none ↦ (some bad_payload, s)
          | some payload ↦ parse_page run job parsed payload s
        ]
      ]
    ]
  ]
