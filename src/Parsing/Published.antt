-- ===== src/Parsing/Published.antt =====
-- What a parse job leaves when it returns nil.
use Prim.Native.String.{String}
use dev_search.Prelude.{
  ℕ, ◌≡◌, ◌⊎◌, inl, inr, refl, ap, ◌∙◌, false, Bool-cases, none, some, Option-cases, List, [], ◌∷◌,
  ◌++◌,
}
use dev_search.Prelude.Text.{codes}
use dev_search.Prelude.Decimal.{text_of}
use dev_search.Scoring.{UrlMeta}
use dev_search.Queue.{Job, RawMessage}
use dev_search.Normalizer.{Url}
use dev_search.Storage.{text_object, store_text_data}
use dev_search.Streams.{Data, msg_json, new_msg, marshal, add_msg}
use dev_search.Parsing.{ParsePayload, ParsedPage}
use dev_search.Parsing.Links.{get_url_meta}
use dev_search.Parsing.Handler.{Parser, Run, Parsed, current_meta, page_record, publish, keep_text}

module _ (p : Parser) where
  open p use {links, obj, streams, stream, marshal_record}

  -- The message with the record's text.
  abbrev pub message : Run → String → Data
  message run text =
      msg_json (record (new_msg run.msg_id (RawMessage.json text)) { added_at = run.now })

  -- The message stands at the end of the stream, or it was not added.
  abbrev pub SentOrLost : Run → String → streams.Store → streams.Store → Type 0
  SentOrLost run text s t =
      (streams.log t stream ≡ streams.log s stream ++ (message run text ∷ []))
      ⊎ ((streams.xadd stream (message run text) s).1 ≡ false)

  add_msg_sent :
      (run : Run) (text : String) (s : streams.Store)
      → SentOrLost run text s
          (add_msg streams stream run.now (new_msg run.msg_id (RawMessage.json text)) s).1
  unfolding add_msg marshal new_msg
  add_msg_sent run text s = elim (Bool-cases (streams.xadd stream (message run text) s).1) [
    | inl okay ↦ inl (streams.xadd_log stream (message run text) s okay)
    | inr bad ↦ inr bad
  ]

  publish_sent :
      (run : Run) (raw : List ℕ) (page : ParsedPage) (meta : UrlMeta) (text : String) (s : Parsed p)
      → SentOrLost run text s.messages (publish p run raw page meta text s).1.messages
        × ((publish p run raw page meta text s).1.objects ≡ s.objects)
  unfolding publish
  publish_sent run raw page meta text s = (add_msg_sent run text s.messages, refl)

  -- When the part of the handler from the page's text on returns nil, the text is the content of the object
  -- with the payload's hash, and the message with the page's record stands at the end of the stream, or else
  -- it could not be added, and is lost.
  pub keep_text_lem :
      (run : Run) (job : Job) (parsed : Url) (payload : ParsePayload) (raw : List ℕ)
      (page : ParsedPage) (s : Parsed p)
      → (keep_text p run job parsed payload raw page s).0 ≡ none
      → (obj.content
            (keep_text p run job parsed payload raw page s).1.objects
            (text_object payload.hash)
          ≡ some (text_of page.text))
        × ((meta : UrlMeta) × (text : String) × (marshal_record
                (page_record p job payload page meta)
              ≡ some text)
            × SentOrLost run text s.messages
                (keep_text p run job parsed payload raw page s).1.messages)
  unfolding keep_text store_text_data
  keep_text_lem run job parsed payload raw page s done =
      let put = obj.put (text_object payload.hash) (text_of page.text) "text" s.objects in
      let t : Parsed p = record s { objects = put.0 } in
      elim (Bool-cases put.1) [
        | inr bad ↦ cc (rw (bad, keep_text) at done)
        | inl okay ↦ elim (Option-cases (get_url_meta links (codes job.url) s.metas)) [
          | inl failed ↦ cc (rw (failed) at (rw (okay, keep_text, store_text_data) at done))
          | inr (known, e) ↦
              let meta : UrlMeta = record (current_meta p run parsed known) {
                has_code_blocks = page.has_code_blocks;
              } in
              elim (Option-cases (marshal_record (page_record p job payload page meta))) [
                | inl bad ↦
                    cc (rw (bad) at (rw (e) at (rw (okay, keep_text, store_text_data) at done)))
                | inr (text, f) ↦
                    let (sent, kept) = publish_sent run raw page meta text t in
                    rw (okay, keep_text, store_text_data)
                      (rw (e) (
                        rw (f) (
                          (ap (λ o. obj.content o (text_object payload.hash)) kept
                              ∙ obj.put_content (text_object payload.hash) (text_of page.text)
                                  "text" s.objects okay),
                          (meta, text, f, sent),
                        )))
              ]
        ]
      ]
