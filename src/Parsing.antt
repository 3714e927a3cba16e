-- ===== src/Parsing.antt =====
-- internal/scraper/parsing/parsing.go: what is taken from a stored page, and what becomes of its links.
-- A text is the list of its code points, and where the code counts bytes, of the bytes of its UTF-8 encoding.
-- Of other code, package url, the HTML reader, the readable part of a page and the Markdown parser are
-- functions of `Pages`; `none` is an error of each.
pub mod Extract
pub mod Links
pub mod Snippets
pub mod Known
pub mod Discovery
mod Canonical
pub mod Handler
pub mod Errors
pub mod Memory
mod Published
pub mod Tests
use Prim.Native.String.{String}
use dev_search.Prelude.{
  ℕ, ◌+◌, ◌/◌, ◌%◌, ◌≡◌, ◌≢◌, Bool, true, false, Option, none, some, List, [], ◌∷◌, ◌++◌, ltb, leb,
  ◌==◌, if◌then◌else◌, length, take, map,
}
use dev_search.Prelude.Text.{codes}
use dev_search.Prelude.Strings.{trim_space}
use dev_search.Scoring.{UrlMeta}
use dev_search.Normalizer.{Url}

-- `Type` is "html" or "md".
pub record ParsePayload : Type 0 where
  pub object_key : String
  pub hash : ℕ
  pub typ : String

unfoldable pub new_parse_payload : String → ℕ → String → ParsePayload
new_parse_payload object_key hash typ = record { object_key = object_key; hash = hash; typ = typ }

pub record ParsedPage : Type 0 where
  pub text : List ℕ
  pub title : List ℕ
  pub links : List (List ℕ)
  pub has_code_blocks : Bool

-- A node of a Markdown document, as far as it is looked at: the level and texts of a heading, a text, the
-- destination of a link, the URL of an automatic link, the lines of a code block, or any other node.
pub data Node : Type 0 where
  heading : ℕ → List (List ℕ) → Node
  text_node link auto_link : List ℕ → Node
  fenced_code_block : List (List ℕ) → Node
  other_node : Node

-- `resolve` is `ResolveReference`, where no base is the nil pointer and no result a panic. `walk` gives the
-- nodes of a document in the order in which they are entered, `anchors` the `href` of each link, `canonical`
-- the `href` of the canonical link, if there is one, and `article` the title and the text of a page.
pub record Pages : Type 0 where
  pub parse_url : List ℕ → Option Url
  pub url_string : Url → List ℕ
  pub resolve : Option Url → Url → Option Url
  pub walk : List ℕ → List Node
  pub anchors : List ℕ → Option (List (List ℕ))
  pub article : List ℕ → Url → Option (List ℕ × List ℕ)
  pub title_text : List ℕ → List ℕ
  pub canonical : List ℕ → Option (Option (List ℕ))
  pub lower : ℕ → ℕ

-- The bytes of a character.
abbrev pub utf8 : ℕ → List ℕ
utf8 c =
    if ltb c 0x80
    then c ∷ []
    else if ltb c 0x800
    then (0xc0 + c / 64) ∷ (0x80 + c % 64) ∷ []
    else if ltb c 0x10000
    then (0xe0 + c / 4096) ∷ (0x80 + c / 64 % 64) ∷ (0x80 + c % 64) ∷ []
    else (0xf0 + c / 262_144) ∷ (0x80 + c / 4096 % 64) ∷ (0x80 + c / 64 % 64) ∷ (0x80 + c % 64) ∷ []

unfoldable pub encode : List ℕ → List ℕ
encode [] = []
encode (c ∷ cs) = utf8 c ++ encode cs

abbrev pub max_len : ℕ
max_len = 200

-- `strings.ReplaceAll(text, "\n", " ")`
abbrev pub unbroken : ℕ → ℕ
unbroken c = if c == 10 then 32 else c

-- `text[:strings.LastIndex(text, " ")]`, `none` where there is no space.
unfoldable pub before_last_space : List ℕ → Option (List ℕ)
before_last_space [] = none
before_last_space (c ∷ cs) = elim (before_last_space cs) [
  | some before ↦ some (c ∷ before)
  | none ↦ if c == 32 then some [] else none
]

-- The snippet cut at a space that is not its first byte.
unfoldable pub cut_snippet : List ℕ → List ℕ
cut_snippet snippet = elim (before_last_space snippet) [
  | some (c ∷ before) ↦ c ∷ before
  | _ ↦ snippet
]

unfoldable pub generate_snippet : List ℕ → List ℕ
generate_snippet text =
    let bytes = encode (map unbroken (trim_space text)) in
    if leb (length bytes) max_len then bytes else cut_snippet (take max_len bytes) ++ codes "..."
