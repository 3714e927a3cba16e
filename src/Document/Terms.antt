-- ===== src/Document/Terms.antt =====
-- What may stand in an inverted index, and the words of a text.
use dev_search.Prelude.{
  ℕ, ◌≡◌, ◌≤◌, ◌<◌, refl, ◌∙◌, Bool, true, false, Bool-cases, inl, inr, List, [], ◌∷◌, ◌++◌, map,
  arith, ltb,
}
use dev_search.Prelude.Strings.{same_text}
use dev_search.Document.{
  Text, stopwords, is_stopword, byte_length, InvertedIndex, increment, Document, is_empty, flush,
  fields, tokenize, stemmer, index_word, index_words, build_index,
}

-- No entry has the key.
abbrev pub Absent : Text → InvertedIndex → Type 0
Absent key [] = Unit {0}
Absent key ((term, n) ∷ rest) = (same_text key term ≡ false) × Absent key rest

-- Each key stands once, is not empty and has at most 50 bytes, and each count is at least 1.
abbrev pub IsValid : InvertedIndex → Type 0
IsValid [] = Unit {0}
IsValid ((term, n) ∷ rest) =
    (is_empty term ≡ false) × (byte_length term ≤ 50) × (0 < n) × Absent term rest × IsValid rest

Absent-increment :
    (key word : Text) (index : InvertedIndex)
    → same_text key word ≡ false
    → Absent key index
    → Absent key (increment word index)
unfolding increment
Absent-increment key word [] apart absent = (apart, tt)
Absent-increment key word ((term, n) ∷ rest) apart (here, there) =
    elim (Bool-cases (same_text word term)) [
      | inl same ↦ rw (same) (here, there)
      | inr other ↦ rw (other) (here, Absent-increment key word rest apart there)
    ]

same_text_sym : (a b : Text) → same_text a b ≡ same_text b a
unfolding same_text
same_text_sym [] [] = refl
same_text_sym [] (c ∷ cs) = refl
same_text_sym (b ∷ bs) [] = refl
same_text_sym (b ∷ bs) (c ∷ cs) = ground (arith, same_text_sym bs cs)

increment-IsValid :
    (word : Text) (index : InvertedIndex)
    → is_empty word ≡ false
    → byte_length word ≤ 50
    → IsValid index
    → IsValid (increment word index)
unfolding increment
increment-IsValid word [] full short valid = (full, short, omega arith, tt, tt)
increment-IsValid word ((term, n) ∷ rest) full short (f, s, pos, absent, valid) =
    elim (Bool-cases (same_text word term)) [
      | inl same ↦ rw (same) (f, s, omega arith, absent, valid)
      | inr other ↦ rw (other) (
        f,
        s,
        pos,
        Absent-increment term word rest (same_text_sym term word ∙ other) absent,
        increment-IsValid word rest full short valid,
      )
    ]

module _ (is_letter_or_number : ℕ → Bool) (lower : ℕ → ℕ) (stem_string : Text → Text) where
  index_word-IsValid :
      (word : Text) (index : InvertedIndex)
      → IsValid index
      → IsValid (index_word is_letter_or_number lower stem_string word index)
  unfolding index_word
  index_word-IsValid word index valid =
      let stemmed = stemmer is_letter_or_number lower stem_string (map lower word) in
      elim (Bool-cases (is_stopword stopwords (map lower word))) [
        | inl stop ↦ rw (stop) valid
        | inr go ↦ rw (go) (elim (Bool-cases (is_empty stemmed)) [
          | inl nothing ↦ rw (nothing) valid
          | inr thing ↦ rw (thing) (elim (Bool-cases (ltb 50 (byte_length stemmed))) [
            | inl long ↦ rw (long) valid
            | inr short ↦ rw (short) (increment-IsValid stemmed index thing (ground arith) valid)
          ])
        ])
      ]

  index_words-IsValid :
      (words : List Text) (index : InvertedIndex)
      → IsValid index
      → IsValid (index_words is_letter_or_number lower stem_string words index)
  unfolding index_words
  index_words-IsValid [] index valid = valid
  index_words-IsValid (word ∷ words) index valid =
      index_words-IsValid words _ (index_word-IsValid word index valid)

  -- `BuildIndex` keeps the index such that each term stands in it once, is not empty, has at most 50 bytes
  -- and has a count of at least 1.
  pub build_index-IsValid :
      (d : Document) (text : Text)
      → IsValid d.inverted_index
      → IsValid (build_index is_letter_or_number lower stem_string d text).inverted_index
  unfolding build_index
  build_index-IsValid d text valid =
      index_words-IsValid (tokenize is_letter_or_number text) d.inverted_index valid

module _ (is_letter_or_number : ℕ → Bool) where
  -- Every character is a letter or a number.
  abbrev pub IsField : Text → Type 0
  IsField [] = Unit {0}
  IsField (c ∷ cs) = (is_letter_or_number c ≡ true) × IsField cs

  abbrev pub AllWords : List Text → Type 0
  AllWords [] = Unit {0}
  AllWords (word ∷ words) = (is_empty word ≡ false) × IsField word × AllWords words

  flush-AllWords :
      (field : Text) (words : List Text)
      → IsField field
      → AllWords words
      → AllWords (flush field words)
  flush-AllWords [] words ok all = all
  flush-AllWords (c ∷ cs) words ok all = (refl, ok, all)

  IsField-snoc :
      (field : Text) (c : ℕ)
      → IsField field
      → is_letter_or_number c ≡ true
      → IsField (field ++ c ∷ [])
  IsField-snoc [] c ok h = (h, tt)
  IsField-snoc (b ∷ bs) c (here, ok) h = (here, IsField-snoc bs c ok h)

  fields-AllWords :
      (field text : Text) → IsField field → AllWords (fields is_letter_or_number field text)
  unfolding fields
  fields-AllWords field [] ok = flush-AllWords field [] ok tt
  fields-AllWords field (c ∷ cs) ok = elim (Bool-cases (is_letter_or_number c)) [
    | inl letter ↦
        rw (letter) (fields-AllWords (field ++ c ∷ []) cs (IsField-snoc field c ok letter))
    | inr other ↦ rw (other) (flush-AllWords field _ ok (fields-AllWords [] cs tt))
  ]

  -- Every word of a text is not empty and consists of letters and numbers.
  pub tokenize-AllWords : (text : Text) → AllWords (tokenize is_letter_or_number text)
  unfolding tokenize
  tokenize-AllWords text = fields-AllWords [] text tt
