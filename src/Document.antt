-- ===== src/Document.antt =====
-- internal/indexer/indexDocument.go and record.go: the terms of a page and how often each occurs.
-- A text is the list of its code points. Package unicode is the parameters `is_letter_or_number` and `lower`,
-- and the Porter stemmer, of a package outside the repository, the parameter `stem_string`.
mod Terms
pub mod Save
pub mod Memory
mod Counts
pub mod Changed
pub mod Handler
mod Again
pub mod Tests
use Prim.Native.String.{String}
use dev_search.Prelude.{
  ℕ, ◌+◌, ◌≡◌, Bool, true, false, not, ◌&&◌, ◌||◌, Option, none, some, List, [], ◌∷◌, ◌++◌, map,
  ltb, ◌==◌, if◌then◌else◌,
}
use dev_search.Prelude.Int.{ℤ}
use dev_search.Prelude.Text.{codes}
use dev_search.Prelude.Strings.{same_text}

abbrev pub Text : Type 0
Text = List ℕ

abbrev pub stopwords : List String
stopwords =
    "a" ∷ "an" ∷ "the" ∷ "is" ∷ "am" ∷ "are" ∷ "was" ∷ "were" ∷ "be" ∷ "been" ∷ "being" ∷ "have"
    ∷ "has" ∷ "had" ∷ "having" ∷ "do" ∷ "does" ∷ "did" ∷ "doing" ∷ "and" ∷ "or" ∷ "but" ∷ "if"
    ∷ "because" ∷ "as" ∷ "until" ∷ "while" ∷ "i" ∷ "we" ∷ "me" ∷ "myself" ∷ "our" ∷ "ours" ∷ "of"
    ∷ "at" ∷ "by" ∷ "for" ∷ "with" ∷ "about" ∷ "against" ∷ "between" ∷ "into" ∷ "through" ∷ "during"
    ∷ "before" ∷ "after" ∷ "above" ∷ "below" ∷ "to" ∷ "from" ∷ "up" ∷ "down" ∷ "in" ∷ "out" ∷ "on"
    ∷ "off" ∷ "over" ∷ "under" ∷ "again" ∷ "further" ∷ "then" ∷ "once" ∷ "yourself" ∷ "ourselves"
    ∷ "here" ∷ "there" ∷ "when" ∷ "where" ∷ "why" ∷ "how" ∷ "all" ∷ "any" ∷ "both" ∷ "each" ∷ "few"
    ∷ "more" ∷ "most" ∷ "other" ∷ "some" ∷ "such" ∷ "you" ∷ "yours" ∷ "he" ∷ "she" ∷ "it" ∷ "only"
    ∷ "own" ∷ "same" ∷ "so" ∷ "than" ∷ "too" ∷ "very" ∷ "can" ∷ "will" ∷ "just" ∷ "should" ∷ "now"
    ∷ []

unfoldable pub is_stopword : List String → Text → Bool
is_stopword [] word = false
is_stopword (s ∷ ss) word = same_text (codes s) word || is_stopword ss word

-- `len(word)`: the bytes of the UTF-8 encoding.
abbrev pub utf8_size : ℕ → ℕ
utf8_size c = if ltb c 128 then 1 else if ltb c 2048 then 2 else if ltb c 65_536 then 3 else 4

unfoldable pub byte_length : Text → ℕ
byte_length [] = 0
byte_length (c ∷ cs) = utf8_size c + byte_length cs

-- `map[string]int`: each key once, in the order of insertion.
abbrev pub InvertedIndex : Type 0
InvertedIndex = List (Text × ℕ)

-- `d.InvertedIndex[word]++`
unfoldable pub increment : Text → InvertedIndex → InvertedIndex
increment word [] = (word, 1) ∷ []
increment word ((term, freq) ∷ rest) =
    let others = increment word rest in
    if same_text word term then (term, freq + 1) ∷ rest else (term, freq) ∷ others

pub record Record : Type 0 where
  pub id : ℕ
  pub url : String
  pub text_object_key : String
  pub title : String
  pub snippet : String
  pub inbound_links : ℤ

unfoldable pub new_record : ℕ → String → String → String → String → ℤ → Record
new_record hash raw_url title snippet object_key inbound_links = record {
  id = hash;
  url = raw_url;
  text_object_key = object_key;
  title = title;
  snippet = snippet;
  inbound_links = inbound_links;
}

pub record Document : Type 0 where
  pub page : Record
  pub inverted_index : InvertedIndex

unfoldable pub new_document : Record → Document
new_document page = record { page = page; inverted_index = [] }

abbrev pub is_empty : Text → Bool
is_empty [] = true
is_empty (c ∷ cs) = false

-- A field ends: it counts if it is not empty.
abbrev pub flush : Text → List Text → List Text
flush [] words = words
flush (c ∷ cs) words = (c ∷ cs) ∷ words

module _ (is_letter_or_number : ℕ → Bool) where
  -- `strings.FieldsFunc`, with the field that is being read.
  unfoldable pub fields : Text → Text → List Text
  fields field [] = flush field []
  fields field (c ∷ cs) =
      let longer = fields (field ++ c ∷ []) cs in
      let rest = fields [] cs in if is_letter_or_number c then longer else flush field rest

  unfoldable pub tokenize : Text → List Text
  tokenize text = fields [] text

  -- `strings.Map` that drops all other characters.
  unfoldable pub cleaned : Text → Text
  cleaned [] = []
  cleaned (c ∷ cs) = if is_letter_or_number c then c ∷ cleaned cs else cleaned cs

module _ (is_letter_or_number : ℕ → Bool) (lower : ℕ → ℕ) (stem_string : Text → Text) where
  unfoldable pub stemmer : Text → Text
  stemmer word = stem_string (cleaned is_letter_or_number word)

  -- The body of the loop of `BuildIndex`.
  unfoldable pub index_word : Text → InvertedIndex → InvertedIndex
  index_word word index =
      let lowered = map lower word in
      let stemmed = stemmer lowered in
      if is_stopword stopwords lowered
      then index
      else if is_empty stemmed
      then index
      else if ltb 50 (byte_length stemmed)
      then index
      else increment stemmed index

  unfoldable pub index_words : List Text → InvertedIndex → InvertedIndex
  index_words [] index = index
  index_words (word ∷ words) index = index_words words (index_word word index)

  unfoldable pub build_index : Document → Text → Document
  build_index d text = record d {
    inverted_index = index_words (tokenize is_letter_or_number text) d.inverted_index;
  }
