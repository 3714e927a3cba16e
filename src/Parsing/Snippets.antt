-- ===== src/Parsing/Snippets.antt =====
-- The snippet of a page.
use mathlib.Core.List.{append-nil, append_assoc}
use dev_search.Prelude.{
  ℕ, ◌+◌, ◌≡◌, ◌≤◌, ◌<◌, ◌⊎◌, inl, inr, refl, sym, ap, ◌∙◌, Bool-cases, some, Option-cases, List,
  [], ◌∷◌, ◌++◌, arith, leb, ◌==◌, length, take, drop, map, take-append-drop, length-take,
  length-append, ==_iff,
}
use dev_search.Prelude.Text.{codes}
use dev_search.Prelude.Strings.{trim_space}
use dev_search.Parsing.{encode, unbroken, before_last_space, cut_snippet, generate_snippet}

-- The bytes that a snippet is cut from.
abbrev pub whole : List ℕ → List ℕ
whole text = encode (map unbroken (trim_space text))

space_follows :
    (s before : List ℕ)
    → before_last_space s ≡ some before
    → (after : List ℕ) × (s ≡ before ++ (32 ∷ after))
unfolding before_last_space
space_follows [] before e = cc
space_follows (c ∷ cs) before e = elim (Option-cases (before_last_space cs)) [
  | inr (p, found) ↦
      let (after, split) = space_follows cs p found in
      (after, longer cs p after split (rw (found, before_last_space) at e))
  | inl not_found ↦ elim (Bool-cases (c == 32)) [
    | inl space ↦
        (cs, here cs (rw (space) at rw (not_found, before_last_space) at e) ((==_iff c 32).0 space))
    | inr other ↦ cc (rw (other) at rw (not_found, before_last_space) at e)
  ]
]
  where
    longer :
        (cs p after : List ℕ)
        → cs ≡ p ++ (32 ∷ after)
        → some (c ∷ p) ≡ some before
        → c ∷ cs ≡ before ++ (32 ∷ after)
    longer cs p after split e =
        let f : c ∷ p ≡ before = cc in ap (λ t. c ∷ t) split ∙ ap (λ t. t ++ (32 ∷ after)) f

    here : (cs : List ℕ) → some [] ≡ some before → c ≡ 32 → c ∷ cs ≡ before ++ (32 ∷ cs)
    here cs e same = cc

-- The head is where a snippet is cut.
abbrev pub CutAt : List ℕ → List ℕ → Type 0
CutAt head tail = ((after : List ℕ) × (tail ≡ 32 ∷ after)) ⊎ (length head ≡ 200)

cut_at :
    (s : List ℕ)
    → (tail : List ℕ) × (s ≡ cut_snippet s ++ tail)
      × (((after : List ℕ) × (tail ≡ 32 ∷ after)) ⊎ (tail ≡ []))
unfolding cut_snippet
cut_at s = elim (Option-cases (before_last_space s)) [
  | inl no_space ↦ ([], rw (no_space, cut_snippet) (sym (append-nil s)), inr refl)
  | inr ([], e) ↦ ([], rw (e, cut_snippet) (sym (append-nil s)), inr refl)
  | inr (c ∷ cs, e) ↦
      let (after, split) = space_follows s (c ∷ cs) e in
      (32 ∷ after, rw (e, cut_snippet) split, inl (after, refl))
]

cut_lem :
    (bytes : List ℕ)
    → 200 < length bytes
    → (head : List ℕ) × (tail : List ℕ) × (bytes ≡ head ++ tail)
      × (cut_snippet (take 200 bytes) ≡ head)
      × CutAt head tail
      × (length head ≤ 200)
cut_lem bytes long =
    let (tail, split, cut) = cut_at (take 200 bytes) in
    let head = cut_snippet (take 200 bytes) in
    let size : length (take 200 bytes) ≡ length head + length tail =
      ap length split ∙ length-append head tail in
    let limit : length (take 200 bytes) ≡ 200 = length-take 200 bytes ∙ omega arith in
    (
      head,
      tail ++ drop 200 bytes,
      sym (take-append-drop 200 bytes)
          ∙ (ap (λ t. t ++ drop 200 bytes) split ∙ append_assoc head tail (drop 200 bytes)),
      refl,
      elim cut [
        | inl (after, e) ↦ inl (after ++ drop 200 bytes, ap (λ t. t ++ drop 200 bytes) e)
        | inr e ↦ inr (omega (arith, ap length e))
      ],
      omega arith,
    )

-- A snippet has at most 203 bytes. It is the trimmed text with spaces for its line breaks, or the beginning of
-- that with three dots, cut before a space or after 200 bytes.
pub generate_snippet_lem :
    (text : List ℕ)
    → (length (generate_snippet text) ≤ 203)
      × ((generate_snippet text ≡ whole text)
          ⊎ ((head : List ℕ) × (tail : List ℕ) × (whole text ≡ head ++ tail)
              × (generate_snippet text ≡ head ++ codes "...")
              × CutAt head tail))
unfolding generate_snippet
generate_snippet_lem text = elim (Bool-cases (leb (length (whole text)) 200)) [
  | inl short ↦ rw (short) ((ground arith), inl refl)
  | inr long ↦
      let (head, tail, split, cut, place, small) = cut_lem (whole text) (ground arith) in
      rw (long) (
        rw (cut)
          (omega (arith, length-append head (codes "...")), inr (head, tail, split, refl, place)))
]
