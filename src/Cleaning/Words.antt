-- ===== src/Cleaning/Words.antt =====
-- The words of a cleaned text.
use mathlib.Core.List.{reverse, reverse-reverse, reverse-append, reverse_aux}
use dev_search.Prelude.{
  ℕ, ◌≡◌, refl, sym, ap, ◌∙◌, Bool, true, false, not, Bool-cases, inl, inr, List, [], ◌∷◌, ◌++◌,
  map, arith,
}
use dev_search.Prelude.Strings.{is_space, trim_left, trim_right, trim_space}
use dev_search.Document.{fields, flush}
use dev_search.Cleaning.{Reader, is_blank, collapse, finish, tokenize}

abbrev in_word : ℕ → Bool
in_word c = not (is_space c)

abbrev AllSpaces : List ℕ → Type 0
AllSpaces [] = Unit {0}
AllSpaces (c ∷ cs) = (is_space c ≡ true) × AllSpaces cs

AllSpaces-reverse_aux : (s t : List ℕ) → AllSpaces s → AllSpaces t → AllSpaces (reverse_aux s t)
AllSpaces-reverse_aux [] t a b = b
AllSpaces-reverse_aux (c ∷ cs) t (here, a) b = AllSpaces-reverse_aux cs (c ∷ t) a (here, b)

dropped : (t : List ℕ) → (head : List ℕ) × (t ≡ head ++ trim_left is_space t) × AllSpaces head
unfolding trim_left
dropped [] = ([], refl, tt)
dropped (c ∷ cs) = elim (Bool-cases (is_space c)) [
  | inl space ↦
      let (head, e, all) = dropped cs in (c ∷ head, rw (space) (ap (λ t. c ∷ t) e), (space, all))
  | inr word ↦ ([], rw (word) refl, tt)
]

dropped_right :
    (s : List ℕ) → (tail : List ℕ) × (s ≡ trim_right is_space s ++ tail) × AllSpaces tail
unfolding trim_right
dropped_right s =
    let (head, e, all) = dropped (reverse s) in
    (
      reverse head,
      sym (reverse-reverse s)
          ∙ (ap reverse e ∙ reverse-append head (trim_left is_space (reverse s))),
      AllSpaces-reverse_aux head [] all tt,
    )

fields_of_spaces :
    (field tail : List ℕ) → AllSpaces tail → fields in_word field tail ≡ flush field []
unfolding fields
fields_of_spaces field [] all = refl
fields_of_spaces field (c ∷ cs) (space, all) =
    rw (space) (ap (flush field) (fields_of_spaces [] cs all))

fields_before_spaces :
    (field s tail : List ℕ)
    → AllSpaces tail
    → fields in_word field (s ++ tail) ≡ fields in_word field s
unfolding fields
fields_before_spaces field [] tail all = fields_of_spaces field tail all
fields_before_spaces field (c ∷ cs) tail all = elim (Bool-cases (is_space c)) [
  | inl space ↦ rw (space) (ap (flush field) (fields_before_spaces [] cs tail all))
  | inr word ↦ rw (word) (fields_before_spaces (field ++ c ∷ []) cs tail all)
]

kept_left : (c : ℕ) (cs : List ℕ) → is_space c ≡ false → trim_left is_space (c ∷ cs) ≡ c ∷ cs
unfolding trim_left
kept_left c cs word = rw (word) refl

fields-trim_left : (t : List ℕ) → fields in_word [] (trim_left is_space t) ≡ fields in_word [] t
unfolding fields trim_left
fields-trim_left [] = refl
fields-trim_left (c ∷ cs) = elim (Bool-cases (is_space c)) [
  | inl space ↦ rw (space) (fields-trim_left cs)
  | inr word ↦ ap (fields in_word []) (kept_left c cs word)
]

fields-trim_space : (t : List ℕ) → fields in_word [] (trim_space t) ≡ fields in_word [] t
unfolding trim_space
fields-trim_space t =
    let (tail, e, all) = dropped_right (trim_left is_space t) in
    sym (fields_before_spaces [] (trim_right is_space (trim_left is_space t)) tail all)
    ∙ (ap (fields in_word []) (sym e) ∙ fields-trim_left t)

blank_is_space : (c : ℕ) → is_blank c ≡ true → is_space c ≡ true
unfolding is_blank is_space
blank_is_space c h = ground arith

space_is_space : is_space 32 ≡ true
unfolding is_space
space_is_space = refl

fields-collapse :
    (field t : List ℕ)
    → (fields in_word field (collapse false t) ≡ fields in_word field t)
      × (fields in_word [] (collapse true t) ≡ fields in_word [] t)
unfolding fields collapse
fields-collapse field [] = (refl, refl)
fields-collapse field (c ∷ cs) = elim (Bool-cases (is_blank c)) [
  | inl blank ↦ rw (blank) (
      rw (blank_is_space c blank, space_is_space)
        (ap (flush field) (fields-collapse [] cs).1, (fields-collapse [] cs).1))
  | inr other ↦ rw (other) (elim (Bool-cases (is_space c)) [
    | inl space ↦ rw (space) (ap (flush field) (fields-collapse [] cs).0, (fields-collapse [] cs).0)
    | inr word ↦
        rw (word) ((fields-collapse (field ++ c ∷ []) cs).0, (fields-collapse (c ∷ []) cs).0)
  ])
]

module _ (lower : ℕ → ℕ) (keeps : (c : ℕ) → is_space (lower c) ≡ is_space c) where
  map-append_one : (s : List ℕ) (c : ℕ) → map lower s ++ (lower c ∷ []) ≡ map lower (s ++ (c ∷ []))
  map-append_one [] c = refl
  map-append_one (d ∷ s) c = ap (λ t. lower d ∷ t) (map-append_one s c)

  flush-map :
      (field : List ℕ) (words : List (List ℕ))
      → flush (map lower field) (map (map lower) words) ≡ map (map lower) (flush field words)
  flush-map [] words = refl
  flush-map (c ∷ cs) words = refl

  fields-map :
      (field t : List ℕ)
      → fields in_word (map lower field) (map lower t) ≡ map (map lower) (fields in_word field t)
  unfolding fields
  fields-map field [] = flush-map field []
  fields-map field (c ∷ cs) = elim (Bool-cases (is_space c)) [
    | inl space ↦
        rw (keeps c, space)
          (ap (flush (map lower field)) (fields-map [] cs) ∙ flush-map field (fields in_word [] cs))
    | inr word ↦
        rw (keeps c, word)
          (ap (λ f. fields in_word f (map lower cs)) (map-append_one field c)
            ∙ fields-map (field ++ c ∷ []) cs)
  ]

-- The words of a cleaned text are the words of the text in lower case, where lower case makes no space and
-- removes none: neither the layout nor the case of a page changes what it is hashed from.
pub tokenize-finish :
    (reader : Reader) (text : List ℕ)
    → ((c : ℕ) → is_space (reader.lower c) ≡ is_space c)
    → tokenize (finish reader text) ≡ map (map reader.lower) (tokenize text)
unfolding tokenize finish
tokenize-finish reader text keeps =
    fields-trim_space (map reader.lower (collapse false text))
    ∙ (fields-map reader.lower keeps [] (collapse false text)
        ∙ ap (map (map reader.lower)) (fields-collapse [] text).0)
