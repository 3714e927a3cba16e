-- ===== src/Document/Counts.antt =====
-- What `BuildIndex` counts.
use dev_search.Prelude.{
  ℕ, ◌+◌, ◌≡◌, ap, Bool, true, false, Bool-cases, inl, inr, Option, none, some, List, [], ◌∷◌, map,
  arith, ltb, if◌then◌else◌,
}
use dev_search.Prelude.Strings.{same_text, same_text_sound}
use dev_search.Document.{
  Text, stopwords, is_stopword, byte_length, InvertedIndex, increment, Document, is_empty, tokenize,
  stemmer, index_word, index_words, build_index,
}

-- The count of a term; a term that is not in the map has none.
unfoldable pub freq : Text → InvertedIndex → ℕ
freq word [] = 0
freq word ((term, n) ∷ rest) =
    let others = freq word rest in if same_text word term then n else others

unfoldable pub one_if : Bool → ℕ
one_if true = 1
one_if false = 0

freq-increment :
    (word added : Text) (index : InvertedIndex)
    → freq word (increment added index) ≡ freq word index + one_if (same_text word added)
unfolding freq increment one_if
freq-increment word added [] = ground arith
freq-increment word added ((term, n) ∷ rest) = elim (Bool-cases (same_text added term)) [
  | inl same ↦ rw (same) ground (arith, ap (same_text word) (same_text_sound added term same))
  | inr other ↦ rw (other) (elim (Bool-cases (same_text word term)) [
    | inl here ↦
        let apart : same_text word added ≡ false = elim (Bool-cases (same_text word added)) [
          | inl e ↦ cc (ap (λ x. same_text x term) (same_text_sound word added e), here, other)
          | inr e ↦ e
        ] in
        rw (here, apart) (omega arith)
    | inr there ↦ rw (there) (freq-increment word added rest)
  ])
]

module _ (is_letter_or_number : ℕ → Bool) (lower : ℕ → ℕ) (stem_string : Text → Text) where
  -- The term that a word is indexed under: none for a stop word, and none if its stem is empty or has more
  -- than 50 bytes.
  unfoldable pub term_of : Text → Option Text
  term_of word =
      let stemmed = stemmer is_letter_or_number lower stem_string (map lower word) in
      if is_stopword stopwords (map lower word)
      then none
      else if is_empty stemmed
      then none
      else if ltb 50 (byte_length stemmed)
      then none
      else some stemmed

  unfoldable pub is_term : Text → Option Text → ℕ
  is_term term none = 0
  is_term term (some found) = one_if (same_text term found)

  -- How many of the words are indexed under the term.
  unfoldable pub occurrences : Text → List Text → ℕ
  occurrences term [] = 0
  occurrences term (word ∷ words) = is_term term (term_of word) + occurrences term words

  freq-index_word :
      (term word : Text) (index : InvertedIndex)
      → freq term (index_word is_letter_or_number lower stem_string word index)
        ≡ freq term index + is_term term (term_of word)
  unfolding index_word term_of is_term
  freq-index_word term word index =
      let stemmed = stemmer is_letter_or_number lower stem_string (map lower word) in
      elim (Bool-cases (is_stopword stopwords (map lower word))) [
        | inl stop ↦ rw (stop) (omega arith)
        | inr go ↦ rw (go) (elim (Bool-cases (is_empty stemmed)) [
          | inl nothing ↦ rw (nothing) (omega arith)
          | inr thing ↦ rw (thing) (elim (Bool-cases (ltb 50 (byte_length stemmed))) [
            | inl long ↦ rw (long) (omega arith)
            | inr short ↦ rw (short) (freq-increment term stemmed index)
          ])
        ])
      ]

  freq-index_words :
      (term : Text) (words : List Text) (index : InvertedIndex)
      → freq term (index_words is_letter_or_number lower stem_string words index)
        ≡ freq term index + occurrences term words
  unfolding index_words occurrences
  freq-index_words term [] index = omega arith
  freq-index_words term (word ∷ words) index = omega (
    arith,
    freq-index_words term words (index_word is_letter_or_number lower stem_string word index),
    freq-index_word term word index,
  )

  -- `BuildIndex` adds to the count of each term the number of words of the text that are indexed under it:
  -- those that are no stop words in lower case and whose stem is that term, not empty and of at most 50 bytes.
  pub freq-build_index :
      (d : Document) (text term : Text)
      → freq term (build_index is_letter_or_number lower stem_string d text).inverted_index
        ≡ freq term d.inverted_index + occurrences term (tokenize is_letter_or_number text)
  unfolding build_index
  freq-build_index d text term =
      freq-index_words term (tokenize is_letter_or_number text) d.inverted_index
