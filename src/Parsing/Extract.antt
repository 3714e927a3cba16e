-- ===== src/Parsing/Extract.antt =====
-- `extractHtml`, `extractLinks` and `extractMd` of internal/scraper/parsing/parsing.go.
use Prim.Native.String.{String}
use mathlib.Core.Option
use dev_search.Prelude.{
  ℕ, Bool, true, false, ◌||◌, ◌&&◌, Option, none, some, List, [], ◌∷◌, ◌++◌, map, ◌==◌,
  if◌then◌else◌,
}
use dev_search.Prelude.Text.{codes, has_prefix, contains_text, string_discrete}
use dev_search.Prelude.Strings.{trim_space, one_of}
use dev_search.Normalizer.{Url}
use dev_search.Parsing.{
  ParsedPage, Pages, Node, heading, text_node, link, auto_link, fenced_code_block, other_node,
}

abbrev pub is_empty : List ℕ → Bool
is_empty [] = true
is_empty (c ∷ cs) = false

-- Whether the text begins with one of the texts.
unfoldable pub begins_with : List (List ℕ) → List ℕ → Bool
begins_with [] s = false
begins_with (p ∷ ps) s = has_prefix s p || begins_with ps s

abbrev pub no_pages : List (List ℕ)
no_pages = map codes ("javascript:" ∷ "mailto:" ∷ "#" ∷ "tel:" ∷ [])

abbrev pub no_md_pages : List (List ℕ)
no_md_pages = map codes ("#" ∷ "mailto:" ∷ "javascript:" ∷ [])

abbrev pub skipped_sections : List (List ℕ)
skipped_sections = map codes ("license" ∷ "contributors" ∷ "contributing" ∷ "support" ∷ [])

-- The texts of a node, one after the other.
abbrev pub concat_texts : List (List ℕ) → List ℕ
concat_texts [] = []
concat_texts (t ∷ ts) = t ++ concat_texts ts

-- What the walk over a Markdown document has gathered.
pub record Walk : Type 0 where
  pub title : List ℕ
  pub text : List ℕ
  pub urls : List (List ℕ)
  pub skip_section : Bool
  pub has_code_blocks : Bool

abbrev pub write_line : List ℕ → List ℕ → List ℕ
write_line [] text = text
write_line (c ∷ cs) text = text ++ ((c ∷ cs) ++ (10 ∷ []))

module _ (pages : Pages) where
  open pages use {parse_url, url_string, resolve, walk, anchors, article, title_text, lower}

  -- The absolute URL of a link; `none` where it is no URL.
  unfoldable pub absolute : Url → List ℕ → Option (List ℕ)
  absolute base_url dest = elim (parse_url dest) [
    | none ↦ none
    | some parsed ↦ Option.map url_string (resolve (some base_url) parsed)
  ]

  -- The function that `extractLinks` runs on each link.
  unfoldable pub extract_link : Url → List ℕ → Option (List ℕ)
  extract_link base_url href =
      let trimmed = trim_space href in
      if is_empty trimmed || begins_with no_pages trimmed then none else absolute base_url trimmed

  unfoldable pub extract_each : Url → List (List ℕ) → List (List ℕ)
  extract_each base_url [] = []
  extract_each base_url (href ∷ hrefs) =
      let rest = extract_each base_url hrefs in
      elim (extract_link base_url href) [ none ↦ rest | some url ↦ url ∷ rest ]

  unfoldable pub extract_links : List ℕ → Url → Option (List (List ℕ))
  extract_links raw_html base_url = Option.map (extract_each base_url) (anchors raw_html)

  unfoldable pub extract_html : List ℕ → Url → Option ParsedPage
  extract_html raw_html base_url = elim (article raw_html base_url) [
    | none ↦ none
    | some (title, main_text) ↦ elim (extract_links raw_html base_url) [
      | none ↦ none
      | some links ↦ some (record {
        text = trim_space main_text;
        title = if is_empty title then trim_space (title_text raw_html) else title;
        links = links;
        has_code_blocks = contains_text raw_html (codes "<code");
      })
    ]
  ]

  -- A URL is added once.
  unfoldable pub add_url : Url → List ℕ → Walk → Walk
  add_url base_url dest w = elim (absolute base_url dest) [
    | none ↦ w
    | some url ↦ if one_of w.urls url then w else record w { urls = w.urls ++ (url ∷ []) }
  ]

  unfoldable pub enter_heading : ℕ → List ℕ → Walk → Walk
  enter_heading level title w =
      let titled : Walk = record w {
        title = if level == 1 && is_empty w.title then title else w.title;
      } in
      if one_of skipped_sections (map lower title)
      then record titled { skip_section = true }
      else record titled { skip_section = false; text = write_line title titled.text }

  -- The function that `extractMd` gives to `ast.Walk`, on entering a node.
  unfoldable pub enter : Url → Node → Walk → Walk
  enter base_url (heading level texts) w = enter_heading level (trim_space (concat_texts texts)) w
  enter base_url (text_node text) w =
      if w.skip_section then w else record w { text = write_line (trim_space text) w.text }
  enter base_url (link destination) w =
      let dest = trim_space destination in
      if w.skip_section
      then w
      else if is_empty dest || begins_with no_md_pages dest
      then w
      else add_url base_url dest w
  enter base_url (auto_link url) w =
      let dest = trim_space url in
      if w.skip_section then w else if is_empty dest then w else add_url base_url dest w
  enter base_url (fenced_code_block lines) w = record w { has_code_blocks = true }
  enter base_url other_node w = w

  unfoldable pub enter_all : Url → List Node → Walk → Walk
  enter_all base_url [] w = w
  enter_all base_url (node ∷ nodes) w = enter_all base_url nodes (enter base_url node w)

  unfoldable pub extract_md : List ℕ → Url → Option ParsedPage
  extract_md raw_md base_url =
      let w = enter_all base_url (walk raw_md) (record {
        title = [];
        text = [];
        urls = [];
        skip_section = false;
        has_code_blocks = false;
      }) in
      some (record {
        text = w.text;
        title = w.title;
        links = w.urls;
        has_code_blocks = w.has_code_blocks;
      })

  unfoldable pub extract_according_to_type : List ℕ → String → Url → Option ParsedPage
  extract_according_to_type raw typ base_url = elim (string_discrete typ "md") [
    | yes e ↦ extract_md raw base_url
    | no ne ↦ extract_html raw base_url
  ]
