-- ===== src/Normalizer/Base.antt =====
-- What `BaseNormalizer` does with the query and with hosts that look like IPv4 addresses.
use dev_search.Prelude.{
  ℕ, ◌+◌, ◌/◌, ◌%◌, ◌<◌, ◌≡◌, ◌↔◌, inl, inr, refl, ap, ◌∙◌, true, false, some, List, [], ◌∷◌, ◌++◌,
  map, arith, Bool-cases, leb, ◌==◌, dec_lt,
}
use dev_search.Prelude.Strings.{
  one_of, join, is_digit, digits, is_space, trim_left, NoChar, NoChar-append, NoCharInAny,
  split-join,
}
use dev_search.Redis.{In}
use dev_search.Normalizer.{
  Url, Library, trash, delete_keys, base_normalize, leading_digits, scan_number, decimal_byte,
  normalize_parts, normalize_ipv4,
}

delete_keys_iff :
    (keys : List (List ℕ)) (query : List (List ℕ × List ℕ)) (key value : List ℕ)
    → In (key, value) (delete_keys keys query) ↔ (In (key, value) query × (one_of keys key ≡ false))
unfolding delete_keys
delete_keys_iff keys [] key value = ((λ i. elim i [ ]), λ (i, e). elim i [ ])
delete_keys_iff keys ((k, v) ∷ rest) key value =
    let ih = delete_keys_iff keys rest key value in
    elim (Bool-cases (one_of keys k)) [
      | inl gone ↦ rw (gone) (
        (λ i. let (j, e) = ih.0 i in (inr j, e)),
        λ (i, e). elim i [
          | inl same ↦ cc (ap (λ (p : List ℕ × List ℕ). one_of keys p.0) same, gone, e)
          | inr j ↦ ih.1 (j, e)
        ],
      )
      | inr kept ↦ rw (kept) (
        (λ i. elim i [
          | inl same ↦ (inl same, ap (λ (p : List ℕ × List ℕ). one_of keys p.0) same ∙ kept)
          | inr j ↦ let (k, e) = ih.0 j in (inr k, e)
        ]),
        λ (i, e). elim i [ inl same ↦ inl same | inr j ↦ inr (ih.1 (j, e)) ],
      )
    ]

-- The query that `BaseNormalizer` writes has just the parameters of the old one whose key is none of the five
-- tracking keys.
pub base_normalize_query :
    (lib : Library) (u : Url)
    → (kept : List (List ℕ × List ℕ)) × ((base_normalize lib u).raw_query ≡ lib.encode kept)
      × ((key value : List ℕ)
          → In (key, value) kept
            ↔ (In (key, value) (lib.parse_query u.raw_query) × (one_of trash key ≡ false)))
unfolding base_normalize
base_normalize_query lib u = (
  delete_keys trash (lib.parse_query u.raw_query),
  refl,
  delete_keys_iff trash (lib.parse_query u.raw_query),
)

-- The text does not begin with a digit.
abbrev pub NoDigitFirst : List ℕ → Type 0
NoDigitFirst [] = Unit {0}
NoDigitFirst (c ∷ cs) = is_digit c ≡ false

leading_digits-NoDigitFirst : (t : List ℕ) → NoDigitFirst t → leading_digits t ≡ []
unfolding leading_digits
leading_digits-NoDigitFirst [] h = refl
leading_digits-NoDigitFirst (c ∷ cs) h = rw (h) refl

abbrev AllDigits : List ℕ → Type 0
AllDigits [] = Unit {0}
AllDigits (c ∷ cs) = (is_digit c ≡ true) × AllDigits cs

leading_digits-append :
    (ds t : List ℕ) → AllDigits ds → NoDigitFirst t → leading_digits (ds ++ t) ≡ ds
unfolding leading_digits
leading_digits-append [] t all h = leading_digits-NoDigitFirst t h
leading_digits-append (c ∷ cs) t (here, all) h =
    rw (here) (ap (λ x. c ∷ x) (leading_digits-append cs t all h))

digit-is_space : (c : ℕ) → is_digit c ≡ true → is_space c ≡ false
unfolding is_digit is_space
digit-is_space c h = ground arith

digit_no_sign : (c : ℕ) → is_digit c ≡ true → ((c == b'+') ≡ false) × ((c == b'-') ≡ false)
unfolding is_digit
digit_no_sign c h = (ground arith, ground arith)

scan_digits :
    (c : ℕ) (cs t : List ℕ)
    → AllDigits (c ∷ cs)
    → NoDigitFirst t
    → scan_number ((c ∷ cs) ++ t) ≡ digits 0 (c ∷ cs)
unfolding scan_number trim_left
scan_digits c cs t all h =
    let (plus, minus) = digit_no_sign c all.0 in
    rw (digit-is_space c all.0)
      (rw (plus, minus) (rw (leading_digits-append (c ∷ cs) t all h) refl))

decimal_byte_shape :
    (n : ℕ)
    → n < 256
    → (c : ℕ) × (cs : List ℕ) × (decimal_byte n ≡ c ∷ cs)
      × AllDigits (c ∷ cs)
      × (digits 0 (c ∷ cs) ≡ some n)
unfolding decimal_byte digits is_digit
decimal_byte_shape n small = elim (dec_lt n 10) [
  | yes one ↦ (48 + n, [], ground arith, ground arith, ground arith)
  | no more ↦ elim (dec_lt n 100) [
    | yes two ↦ (48 + n / 10, (48 + n % 10) ∷ [], ground arith, ground arith, ground arith)
    | no three ↦ (
      48 + n / 100,
      (48 + n / 10 % 10) ∷ (48 + n % 10) ∷ [],
      ground arith,
      ground arith,
      ground arith,
    )
  ]
]

scan_decimal_byte :
    (n : ℕ) (t : List ℕ) → n < 256 → NoDigitFirst t → scan_number (decimal_byte n ++ t) ≡ some n
scan_decimal_byte n t small h =
    let (c, cs, e, all, value) = decimal_byte_shape n small in
    rw (e) (scan_digits c cs t all h ∙ value)

-- Each label is the number of a byte and what follows it: no digit, and no dot anywhere.
abbrev pub AreLabels : List (ℕ × List ℕ) → Type 0
AreLabels [] = Unit {0}
AreLabels ((n, t) ∷ rest) = (n < 256) × NoDigitFirst t × NoChar b'.' t × AreLabels rest

abbrev pub label : ℕ × List ℕ → List ℕ
label (n, t) = decimal_byte n ++ t

abbrev pub number_of : ℕ × List ℕ → List ℕ
number_of (n, t) = decimal_byte n

normalize_parts-label :
    (labels : List (ℕ × List ℕ))
    → AreLabels labels
    → normalize_parts (map label labels) ≡ some (map number_of labels)
unfolding normalize_parts
normalize_parts-label [] h = refl
normalize_parts-label ((n, t) ∷ rest) (small, first, dots, h) =
    let in_range : leb n 255 ≡ true = ground arith in
    rw (scan_decimal_byte n t small first, normalize_parts)
      (rw (in_range) (rw (normalize_parts-label rest h) refl))

digit-NoChar : (ds : List ℕ) → AllDigits ds → NoChar b'.' ds
digit-NoChar [] h = tt
digit-NoChar (c ∷ cs) (here, h) = (digit_no_dot c here, digit-NoChar cs h)
  where
    digit_no_dot : (c : ℕ) → is_digit c ≡ true → (c == b'.') ≡ false
    digit_no_dot c h = unfold is_digit in ground arith

label-NoChar : (n : ℕ) (t : List ℕ) → n < 256 → NoChar b'.' t → NoChar b'.' (decimal_byte n ++ t)
label-NoChar n t small h =
    let (c, cs, e, all, value) = decimal_byte_shape n small in
    rw (e) (NoChar-append b'.' (c ∷ cs) t (digit-NoChar (c ∷ cs) all) h)

labels-NoCharInAny :
    (labels : List (ℕ × List ℕ)) → AreLabels labels → NoCharInAny b'.' (map label labels)
labels-NoCharInAny [] h = tt
labels-NoCharInAny ((n, t) ∷ rest) (small, first, dots, h) =
    (label-NoChar n t small dots, labels-NoCharInAny rest h)

-- `normalizeIPv4` reads of each of four labels the number at its beginning, and forgets the rest: four
-- numbers of bytes stay as they are, and a name whose four labels only begin with such numbers becomes the
-- address of these numbers.
pub normalize_ipv4_labels :
    (p q r s : ℕ × List ℕ)
    → AreLabels (p ∷ q ∷ r ∷ s ∷ [])
    → normalize_ipv4 (join b'.' (map label (p ∷ q ∷ r ∷ s ∷ [])))
      ≡ join b'.' (map number_of (p ∷ q ∷ r ∷ s ∷ []))
unfolding normalize_ipv4
normalize_ipv4_labels p q r s h =
    rw
      (split-join b'.' (label p) (label q ∷ label r ∷ label s ∷ [])
        (labels-NoCharInAny (p ∷ q ∷ r ∷ s ∷ []) h))
      (rw (normalize_parts-label (p ∷ q ∷ r ∷ s ∷ []) h) refl)
