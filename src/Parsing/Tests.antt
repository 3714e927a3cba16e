-- ===== src/Parsing/Tests.antt =====
-- The theorems on parsing at concrete inputs.
use Prim.Native.String.{String}
use dev_search.Prelude.{ℕ, ◌≤◌, ◌≡◌, ◌⊎◌, refl, false, none, some, List, [], ◌∷◌, ◌++◌, length}
use dev_search.Prelude.Int.{pos}
use dev_search.Prelude.Text.{codes}
use dev_search.Prelude.Decimal.{text_of}
use dev_search.Prelude.Strings.{one_of}
use dev_search.Scoring.{UrlMeta}
use dev_search.Queue.Memory.{server, nothing}
use dev_search.Queue.{new_job}
use dev_search.Normalizer.{Url, Library}
use dev_search.Storage.{text_object, store_text_data}
use dev_search.Storage.Memory.{objects}
use dev_search.Streams.Memory.{lists}
use dev_search.Parsing.{Pages, ParsePayload, ParsedPage, generate_snippet}
use dev_search.Parsing.Links.{Env, Crawled, Normal, normalize_page_url, follow_links, get_url_meta}
use dev_search.Parsing.Memory.{meta_memory, meta_memory-answers}
use dev_search.Parsing.Snippets.{whole, CutAt, generate_snippet_lem}
use dev_search.Parsing.Known.{Knows}
use dev_search.Parsing.Discovery.{new_pages, enqueue_pages, follow_links_lem}
use dev_search.Parsing.Canonical.{Fresh, found_once, follow_links-Fresh, follow_links_canonical}
use dev_search.Parsing.Handler.{Parser, Run, Parsed, page_record, publish, keep_text}
use dev_search.Parsing.Published.{SentOrLost, keep_text_lem}

abbrev pub docs : Url
docs = record {
  scheme = codes "https";
  user = none;
  host = codes "go.dev";
  path = codes "/doc";
  raw_query = [];
  fragment = [];
}

-- Every text is the URL of one page.
abbrev pub pages : Pages
pages = record {
  parse_url = λ url. some docs;
  url_string = λ u. codes "https://go.dev/doc";
  resolve = λ base u. some u;
  walk = λ md. [];
  anchors = λ html. some (codes "/a" ∷ codes "/b" ∷ []);
  article = λ html base. some (codes "Go", codes "hi");
  title_text = λ html. [];
  canonical = λ html. some (some (codes "https://go.dev/doc"));
  lower = λ c. c;
}

abbrev pub lib : Library
lib = record {
  lower = λ c. c;
  parse_ip = λ host. none;
  parse_query = λ q. [];
  encode = λ q. [];
  parse_url = λ url. some docs;
  url_string = λ u. codes "https://go.dev/doc";
}

abbrev env : Env
env = record {
  pages = pages;
  lib = lib;
  metas = meta_memory;
  redis = server;
  frontier = "crawl";
  new_id = λ url. "7";
}

abbrev start : Crawled env
start = record { metas = λ key. none; queue = nothing }

abbrev two_links : List (List ℕ)
two_links = codes "/a" ∷ codes "/b" ∷ []

abbrev canonical : List ℕ
canonical = codes "https://go.dev/doc"

nothing_known : Knows env start.metas []
unfolding one_of
nothing_known url = ((λ known. absurd (known refl)), λ e. cc)

generate_snippet_lem_example :
    (length (generate_snippet (codes "a\nb")) ≤ 203)
    × ((generate_snippet (codes "a\nb") ≡ whole (codes "a\nb"))
        ⊎ ((head : List ℕ) × (tail : List ℕ) × (whole (codes "a\nb") ≡ head ++ tail)
            × (generate_snippet (codes "a\nb") ≡ head ++ codes "...")
            × CutAt head tail))
generate_snippet_lem_example = generate_snippet_lem (codes "a\nb")

follow_links_lem_example :
    (follow_links env 5000 (pos 1) [] two_links start).0.queue
    ≡ enqueue_pages env 5000 (pos 1) (new_pages env [] [] two_links) nothing
follow_links_lem_example =
    follow_links_lem env 5000 (pos 1) [] two_links [] start meta_memory-answers nothing_known

follow_links-Fresh_example :
    (found : List (List ℕ × Url)) × Fresh env [] found
    × ((follow_links env 5000 (pos 1) [] two_links start).0.queue
        ≡ enqueue_pages env 5000 (pos 1) found nothing)
follow_links-Fresh_example =
    follow_links-Fresh env 5000 (pos 1) [] two_links [] start meta_memory-answers nothing_known

follow_links_canonical_example :
    (target : Normal) × ((u : List ℕ) → normalize_page_url env u canonical ≡ target)
    × ((follow_links env 5000 (pos 1) canonical two_links start).0.queue
        ≡ enqueue_pages env 5000 (pos 1) (found_once env [] target two_links) nothing)
follow_links_canonical_example =
    follow_links_canonical env 5000 (pos 1) canonical docs two_links [] start meta_memory-answers
      nothing_known refl refl (λ base other. refl)

abbrev parser : Parser
parser = record {
  links = env;
  obj = objects;
  streams = lists;
  stream = "docs";
  payload_of = λ text. none;
  marshal_record = λ page. some "{}";
  from_bytes = λ bytes. text_of bytes;
}

abbrev before : Parsed parser
before = record {
  objects = λ key. none;
  metas = λ key. none;
  queue = nothing;
  messages = record { added = []; unread = []; acked = [] };
}

abbrev run : Run
run = record { now = 5000; msg_id = "m" }

abbrev payload : ParsePayload
payload = record { object_key = "html/9.html"; hash = 9; typ = "html" }

abbrev page : ParsedPage
page = record { text = codes "hi"; title = codes "Go"; links = []; has_code_blocks = false }

keep_text_lem_example :
    ((keep_text parser run
          (new_job "7" 4000 "https://go.dev")
          docs
          payload
          (codes "<p>")
          page
          before).1.objects
        (text_object 9)
      ≡ some (text_of (codes "hi")))
    × ((meta : UrlMeta) × (text : String) × (parser.marshal_record
            (page_record parser (new_job "7" 4000 "https://go.dev") payload page meta)
          ≡ some text)
        × SentOrLost parser run text before.messages
            (keep_text parser run
              (new_job "7" 4000 "https://go.dev")
              docs
              payload
              (codes "<p>")
              page
              before).1.messages)
unfolding keep_text store_text_data get_url_meta publish follow_links
keep_text_lem_example =
    keep_text_lem parser run (new_job "7" 4000 "https://go.dev") docs payload (codes "<p>") page
      before refl
