-- ===== src/Prelude/Strings.antt =====
-- More of package strings, on lists of code points.
use mathlib.Core.List.{reverse, reverse-reverse, reverse-append}
use dev_search.Prelude.{
  ℕ, ◌+◌, ◌-◌, ◌*◌, ◌≡◌, inl, inr, refl, sym, ap, ◌∙◌, Bool, true, false, ◌&&◌, ◌||◌, Option, none,
  some, List, [], ◌∷◌, ◌++◌, arith, leb, ◌==◌, if◌then◌else◌, length, drop, Bool-cases,
}
use dev_search.Prelude.Text.{has_prefix}

-- `s == t`
unfoldable pub same_text : List ℕ → List ℕ → Bool
same_text [] [] = true
same_text [] (c ∷ cs) = false
same_text (b ∷ bs) [] = false
same_text (b ∷ bs) (c ∷ cs) = b == c && same_text bs cs

pub same_text_sound : (a b : List ℕ) → same_text a b ≡ true → a ≡ b
unfolding same_text
same_text_sound [] [] h = refl
same_text_sound [] (c ∷ cs) h = cc
same_text_sound (b ∷ bs) [] h = cc
same_text_sound (b ∷ bs) (c ∷ cs) h = ground (arith, same_text_sound bs cs)

pub same_text_refl : (a : List ℕ) → same_text a a ≡ true
unfolding same_text
same_text_refl [] = refl
same_text_refl (c ∷ cs) = ground (arith, same_text_refl cs)

-- Whether one of the texts is the text.
unfoldable pub one_of : List (List ℕ) → List ℕ → Bool
one_of [] s = false
one_of (t ∷ ts) s = same_text t s || one_of ts s

-- `strings.Split(s, string(sep))`
unfoldable pub split : ℕ → List ℕ → List (List ℕ)
split sep [] = [] ∷ []
split sep (c ∷ cs) =
    let rest = split sep cs in
    if c == sep
    then [] ∷ rest
    else elim rest [ [] ↦ (c ∷ []) ∷ [] | part ∷ parts ↦ (c ∷ part) ∷ parts ]

-- `strings.Join(parts, string(sep))`
unfoldable pub join : ℕ → List (List ℕ) → List ℕ
join sep [] = []
join sep (part ∷ []) = part
join sep (part ∷ next ∷ parts) = part ++ (sep ∷ join sep (next ∷ parts))

unfoldable pub is_digit : ℕ → Bool
is_digit c = leb 48 c && leb c 57

-- The value of decimal digits after n; `none` at another character.
unfoldable pub digits : ℕ → List ℕ → Option ℕ
unfolding is_digit
digits n [] = some n
digits n (c ∷ cs) = let rest = digits (n * 10 + (c - 48)) cs in if is_digit c then rest else none

-- `unicode.IsSpace`
unfoldable pub is_space : ℕ → Bool
is_space c =
    (leb 9 c && leb c 13)
    || c == 32
    || c == 0x85
    || c == 0xa0
    || c == 0x1680
    || (leb 0x2000 c && leb c 0x200a)
    || c == 0x2028
    || c == 0x2029
    || c == 0x202f
    || c == 0x205f
    || c == 0x3000

-- `strings.TrimLeftFunc`
unfoldable pub trim_left : (ℕ → Bool) → List ℕ → List ℕ
trim_left drops [] = []
trim_left drops (c ∷ cs) = let rest = trim_left drops cs in if drops c then rest else c ∷ cs

-- `strings.TrimRightFunc`
unfoldable pub trim_right : (ℕ → Bool) → List ℕ → List ℕ
trim_right drops s = reverse (trim_left drops (reverse s))

-- `strings.TrimSpace`
unfoldable pub trim_space : List ℕ → List ℕ
trim_space s = trim_right is_space (trim_left is_space s)

-- `strings.HasSuffix`
unfoldable pub has_suffix : List ℕ → List ℕ → Bool
has_suffix s p = has_prefix (reverse s) (reverse p)

-- `strings.CutSuffix`; `none` where the text does not end so.
unfoldable pub cut_suffix : List ℕ → List ℕ → Option (List ℕ)
cut_suffix s p = if has_suffix s p then some (reverse (drop (length p) (reverse s))) else none

-- The text does not end in a character that is dropped.
pub trim_right_last :
    (drops : ℕ → Bool) (s before : List ℕ) (c : ℕ)
    → trim_right drops s ≡ before ++ c ∷ []
    → drops c ≡ false
unfolding trim_right trim_left
trim_right_last drops s before c e = first (reverse s) back
  where
    back : trim_left drops (reverse s) ≡ c ∷ reverse before
    back =
        sym (reverse-reverse (trim_left drops (reverse s)))
        ∙ (ap reverse e ∙ reverse-append before (c ∷ []))

    first : (t : List ℕ) → trim_left drops t ≡ c ∷ reverse before → drops c ≡ false
    first [] e = cc
    first (d ∷ ds) e = elim (Bool-cases (drops d)) [
      | inl gone ↦ first ds (rw (gone) at e)
      | inr kept ↦ ground arith
    ]

trim_left_suffix :
    (drops : ℕ → Bool) (t : List ℕ) → (head : List ℕ) × (t ≡ head ++ trim_left drops t)
unfolding trim_left
trim_left_suffix drops [] = ([], refl)
trim_left_suffix drops (d ∷ ds) = elim (Bool-cases (drops d)) [
  | inl gone ↦
      let (head, e) = trim_left_suffix drops ds in (d ∷ head, rw (gone) (ap (λ t. d ∷ t) e))
  | inr kept ↦ ([], rw (kept) refl)
]

-- What is left of a text is its beginning.
pub trim_right_prefix :
    (drops : ℕ → Bool) (s : List ℕ) → (tail : List ℕ) × (s ≡ trim_right drops s ++ tail)
unfolding trim_right
trim_right_prefix drops s =
    let (head, e) = trim_left_suffix drops (reverse s) in
    (
      reverse head,
      sym (reverse-reverse s) ∙ (ap reverse e ∙ reverse-append head (trim_left drops (reverse s))),
    )

-- The character does not stand in the text.
abbrev pub NoChar : ℕ → List ℕ → Type 0
NoChar sep [] = Unit {0}
NoChar sep (c ∷ cs) = ((c == sep) ≡ false) × NoChar sep cs

pub NoChar-append : (sep : ℕ) (s t : List ℕ) → NoChar sep s → NoChar sep t → NoChar sep (s ++ t)
NoChar-append sep [] t a b = b
NoChar-append sep (c ∷ cs) t (here, a) b = (here, NoChar-append sep cs t a b)

pub split_one : (sep : ℕ) (part : List ℕ) → NoChar sep part → split sep part ≡ part ∷ []
unfolding split
split_one sep [] h = refl
split_one sep (c ∷ cs) (here, h) = rw (here) (rw (split_one sep cs h, split) refl)

pub split-append :
    (sep : ℕ) (part rest : List ℕ)
    → NoChar sep part
    → split sep (part ++ (sep ∷ rest)) ≡ part ∷ split sep rest
unfolding split
split-append sep [] rest h = ground arith
split-append sep (c ∷ cs) rest (here, h) = rw (here) (rw (split-append sep cs rest h, split) refl)

abbrev pub NoCharInAny : ℕ → List (List ℕ) → Type 0
NoCharInAny sep [] = Unit {0}
NoCharInAny sep (part ∷ parts) = NoChar sep part × NoCharInAny sep parts

-- Texts that are joined are found again by the split.
pub split-join :
    (sep : ℕ) (part : List ℕ) (parts : List (List ℕ))
    → NoCharInAny sep (part ∷ parts)
    → split sep (join sep (part ∷ parts)) ≡ part ∷ parts
unfolding join
split-join sep part [] (here, h) = split_one sep part here
split-join sep part (next ∷ parts) (here, h) =
    split-append sep part (join sep (next ∷ parts)) here
    ∙ ap (λ ps. part ∷ ps) (split-join sep next parts h)
