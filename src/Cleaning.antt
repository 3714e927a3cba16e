-- ===== src/Cleaning.antt =====
-- internal/scraper/deduplication/clean.go, and `Tokenize` of simhash.go: the text of a page that is hashed.
-- A text is the list of its code points. The HTML parser, `unicode.ToLower` and the three regular expressions
-- on the links of a Markdown text are parameters.
mod Words
mod Tests
use dev_search.Prelude.{
  ℕ, Bool, false, not, ◌||◌, Option, some, List, [], ◌∷◌, map, ◌==◌, if◌then◌else◌,
}
use mathlib.Core.Option
use dev_search.Prelude.Strings.{is_space, trim_space}
use dev_search.Document.{fields}

pub data SourceType : Type 0 where
  source_html source_md other_source : SourceType

-- `page_text` is the text of a page without its scripts, styles, menus, footers and asides, `none` where the
-- page cannot be read. The others replace the badges, the images and the links of a Markdown text.
pub record Reader : Type 0 where
  pub page_text : List ℕ → Option (List ℕ)
  pub badges : List ℕ → List ℕ
  pub images : List ℕ → List ℕ
  pub links : List ℕ → List ℕ
  pub lower : ℕ → ℕ

-- `\s`
unfoldable pub is_blank : ℕ → Bool
is_blank c = c == 9 || c == 10 || c == 12 || c == 13 || c == 32

-- `\s+` replaced by a space; the flag says that the character before is blank.
unfoldable pub collapse : Bool → List ℕ → List ℕ
collapse after_blank [] = []
collapse after_blank (c ∷ cs) =
    let rest = collapse (is_blank c) cs in
    if is_blank c then (if after_blank then rest else 32 ∷ rest) else c ∷ rest

-- One of the characters of `mdSyntax`.
unfoldable pub is_md_syntax : ℕ → Bool
is_md_syntax c =
    c == b'>' || c == b'#' || c == b'*' || c == b'_' || c == b'`' || c == b'~' || c == b'-'

unfoldable pub drop_md_syntax : List ℕ → List ℕ
drop_md_syntax [] = []
drop_md_syntax (c ∷ cs) = let rest = drop_md_syntax cs in if is_md_syntax c then rest else c ∷ rest

module _ (reader : Reader) where
  open reader use {page_text, badges, images, links, lower}

  unfoldable pub finish : List ℕ → List ℕ
  finish text = trim_space (map lower (collapse false text))

  unfoldable pub clean_html : List ℕ → Option (List ℕ)
  clean_html html = Option.map finish (page_text html)

  unfoldable pub clean_markdown : List ℕ → List ℕ
  clean_markdown md = finish (drop_md_syntax (links (images (badges md))))

  -- `none` is an error.
  unfoldable pub clean_data : List ℕ → SourceType → Option (List ℕ)
  clean_data raw source_html = clean_html raw
  clean_data raw source_md = some (clean_markdown raw)
  clean_data raw other_source = some []

-- `strings.Fields`
unfoldable pub tokenize : List ℕ → List (List ℕ)
tokenize text = fields (λ c. not (is_space c)) [] text
