-- ===== src/Program/ParserTests.antt =====
-- The crawler hands a page over to the parser.
use Prim.Native.String.{String}
use native.Mathlib.Decide.{ℕ_discrete}
use dev_search.Prelude.{ℕ, ap, sym, ◌≡◌, refl, arith, Option, none, some, List, [], ◌++◌, ◌∙◌}
use dev_search.Prelude.Text.{codes}
use dev_search.Prelude.Decimal.{
  text_of, decimal, decimal_digits, decimal-Low, digits-decimal, codes-text_of, Low-append,
}
use dev_search.Scoring.{score_to_priority}
use dev_search.Redis.Memory.{empty_cell}
use dev_search.Queue.{new_job, marshal, unmarshal}
use dev_search.Queue.Ops.{enqueue, prepared, dequeue, deliver, start as dequeue_start}
use dev_search.Queue.Memory.{nothing}
use dev_search.Storage.{html_object, object_name}
use dev_search.Storage.Names.{key_of_name, number_between, number_between_own}
use dev_search.Parsing.{ParsePayload, new_parse_payload}
use dev_search.Parsing.Handler as Parse
use dev_search.Parsing.Handler.{parse_page, extract_text_and_store}
use dev_search.Program.Handover.{taken_job, page_payload, ReadsBack, store_page_handover}
use dev_search.Parsing.Tests.{docs}
use dev_search.Crawler.{MetaText}
use dev_search.Crawler.Handlers.{Crawl, store_page, fetch_and_store_raw, visit}
use dev_search.Crawler.Tests.{net}
use dev_search.Program.{crawl_env, parser_of, crawl_part, Env}
use dev_search.Program.Run.{started}
use dev_search.Program.Tests.{env, meets}

-- A payload is written as its hash.
abbrev page_text : ℕ → List ℕ
page_text hash = codes "{\"hash\":" ++ (decimal hash ++ codes "}")

abbrev parsed_payload : Option ℕ → Option ParsePayload
parsed_payload none = none
parsed_payload (some hash) = some (new_parse_payload (object_name (html_object hash)) hash "html")

abbrev hash_env : Env
hash_env = record env {
  net = record net { marshal_payload = λ payload. some (text_of (page_text payload.hash)) };
  payload_of =
      λ text. parsed_payload (number_between (codes "{\"hash\":") (codes "}") (codes text));
}

read_back : ReadsBack hash_env
unfolding new_parse_payload
read_back hash text small written =
    let same : text_of (page_text hash) ≡ text = cc in
    let name : codes (text_of (page_text hash)) ≡ page_text hash = codes-text_of (page_text hash) (
      Low-append (codes "{\"hash\":") (decimal hash ++ codes "}")
        (
          omega arith,
          (
            omega arith,
            (
              omega arith,
              (omega arith, (omega arith, (omega arith, (omega arith, (omega arith, tt))))),
            ),
          ),
        )
        (Low-append (decimal hash) (codes "}") (decimal-Low hash) (omega arith, tt))) in
    let read : number_between (codes "{\"hash\":") (codes "}") (codes text) ≡ some hash =
      ap (λ (t : String). number_between (codes "{\"hash\":") (codes "}") (codes t)) (sym same)
      ∙ (ap (number_between (codes "{\"hash\":") (codes "}")) name
          ∙ (number_between_own (codes "{\"hash\":") (codes "}") (decimal hash)
              ∙ digits-decimal hash (omega arith))) in
    ap parsed_payload read

abbrev fetched : Crawl (crawl_env hash_env)
fetched =
    crawl_part hash_env
      (started hash_env (λ key. none) nothing (record { now = 5000; cells = λ key. empty_cell })
        (λ key. none) (λ key. none) (record { added = []; unread = []; acked = [] })).state

store_page_handover_example :
    ((run : Parse.Run) (t : Parse.Parsed (parser_of hash_env))
      → extract_text_and_store
          (parser_of hash_env)
          run
          (taken_job hash_env meets.crawl "https://go.dev/doc" "{\"hash\":9}" 70)
          t
        ≡ parse_page
            (parser_of hash_env)
            run
            (taken_job hash_env meets.crawl "https://go.dev/doc" "{\"hash\":9}" 70)
            docs
            (page_payload hash_env 9)
            t)
    × ((store_page
            (crawl_env hash_env)
            meets.crawl
            "https://go.dev/doc"
            (codes "hi")
            9
            fetched).1.objects
          (key_of_name (page_payload hash_env 9).object_key)
        ≡ some (text_of (codes "hi")))
unfolding store_page dev_search.Storage.store_raw_data dev_search.Crawler.Handlers.queue_parse
    new_parse_payload ℕ_discrete enqueue marshal prepared dequeue deliver score_to_priority new_job
    unmarshal dequeue_start decimal decimal_digits
store_page_handover_example =
    store_page_handover hash_env meets.crawl "https://go.dev/doc" (codes "hi") 9 fetched "Parser-2"
      70 (taken_job hash_env meets.crawl "https://go.dev/doc" "{\"hash\":9}" 70) docs read_back
      (omega arith) (λ p. refl) refl refl refl
