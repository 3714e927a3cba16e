-- ===== src/Normalizer/Docs.antt =====
-- What `DocsNormalizer` leaves of an address.
use mathlib.Core.List.{reverse, reverse-reverse, reverse-append, reverse-cons, map-append}
use dev_search.Prelude.{
  ℕ, zero, suc, ◌≡◌, ◌≢◌, ◌⊎◌, inl, inr, refl, sym, ap, ap₂, ◌∙◌, true, not, ◌&&◌, List, [], ◌∷◌,
  ◌++◌, map, Bool-cases, List-cases, drop, length,
}
use dev_search.Prelude.Text.{codes, contains_text, has_prefix_sound}
use dev_search.Prelude.Strings.{has_suffix, cut_suffix}
use dev_search.Normalizer.Paths.{base}
use dev_search.Normalizer.{Url, strip_locale, index_names, strip_index, add_slash, docs_normalize}

-- The path is empty, or ends in a slash, or its last element has a dot, as a file has.
abbrev pub HasEnd : List ℕ → Type 0
HasEnd path =
    (path ≡ [])
    ⊎ (((before : List ℕ) × (path ≡ before ++ codes "/"))
        ⊎ ((path ≢ []) × (contains_text (base path) (codes ".") ≡ true)))

has_suffix_sound : (s p : List ℕ) → has_suffix s p ≡ true → (before : List ℕ) × (s ≡ before ++ p)
unfolding has_suffix
has_suffix_sound s p h =
    let (after, e) = has_prefix_sound (reverse s) (reverse p) h in
    (
      reverse after,
      sym (reverse-reverse s)
          ∙ (ap reverse e
              ∙ (reverse-append (reverse p) after
                  ∙ ap (λ t. reverse after ++ t) (reverse-reverse p))),
    )

add_slash-HasEnd : (path : List ℕ) → HasEnd (add_slash path)
unfolding add_slash
add_slash-HasEnd path = elim (Bool-cases (has_suffix path (codes "/"))) [
  | inl ends ↦ rw (ends) (inr (inl (has_suffix_sound path (codes "/") ends)))
  | inr open_end ↦ elim (Bool-cases (contains_text (base path) (codes "."))) [
    | inl file ↦
        rw (open_end, file)
          (elim (List-cases path) [ inl e ↦ inl e | inr (c, cs, e) ↦ inr (inr ((λ f. cc), file)) ])
    | inr page ↦ rw (open_end, page) (inr (inl (path, refl)))
  ]
]

map-reverse : (f : ℕ → ℕ) (s : List ℕ) → map f (reverse s) ≡ reverse (map f s)
map-reverse f [] = refl
map-reverse f (c ∷ cs) =
    ap (map f) (reverse-cons c cs)
    ∙ (map-append f (reverse cs) (c ∷ [])
        ∙ (ap (λ t. t ++ f c ∷ []) (map-reverse f cs) ∙ sym (reverse-cons (f c) (map f cs))))

module _ (lower : ℕ → ℕ) (lower_twice : (c : ℕ) → lower (lower c) ≡ lower c) where
  abbrev IsLower : List ℕ → Type 0
  IsLower s = map lower s ≡ s

  map-IsLower : (s : List ℕ) → IsLower (map lower s)
  map-IsLower [] = refl
  map-IsLower (c ∷ cs) = ap₂ ◌∷◌ (lower_twice c) (map-IsLower cs)

  IsLower-tail : (c : ℕ) (cs : List ℕ) → IsLower (c ∷ cs) → IsLower cs
  IsLower-tail c cs h = cc

  drop-IsLower : (n : ℕ) (s : List ℕ) → IsLower s → IsLower (drop n s)
  drop-IsLower zero s h = h
  drop-IsLower (suc n) [] h = h
  drop-IsLower (suc n) (c ∷ cs) h = drop-IsLower n cs (IsLower-tail c cs h)

  reverse-IsLower : (s : List ℕ) → IsLower s → IsLower (reverse s)
  reverse-IsLower s h = map-reverse lower s ∙ ap reverse h

  strip_index-IsLower :
      (names : List (List ℕ)) (path : List ℕ) → IsLower path → IsLower (strip_index names path)
  unfolding strip_index cut_suffix
  strip_index-IsLower [] path h = h
  strip_index-IsLower (name ∷ names) path h = elim (Bool-cases (has_suffix path name)) [
    | inl ends ↦
        rw (ends, strip_index, cut_suffix)
          (reverse-IsLower (drop (length name) (reverse path))
            (drop-IsLower (length name) (reverse path) (reverse-IsLower path h)))
    | inr other ↦ rw (other, strip_index, cut_suffix) (strip_index-IsLower names path h)
  ]

  add_slash-IsLower : (path : List ℕ) → lower b'/' ≡ b'/' → IsLower path → IsLower (add_slash path)
  unfolding add_slash
  add_slash-IsLower path slash h =
      elim (Bool-cases
        (not (has_suffix path (codes "/")) && not (contains_text (base path) (codes ".")))) [
          | inl page ↦
              rw (page) (map-append lower path (codes "/") ∙ ap₂ ◌++◌ h (ap (λ c. c ∷ []) slash))
          | inr other ↦ rw (other) h
        ]

  -- Where lower case is stable and leaves the slash alone, `DocsNormalizer` leaves an address without a query,
  -- whose path is in lower case, and is empty, ends in a slash, or has a dot in its last element.
  pub docs_normalize_lem :
      (u : Url)
      → lower b'/' ≡ b'/'
      → ((docs_normalize lower u).raw_query ≡ [])
        × (map lower (docs_normalize lower u).path ≡ (docs_normalize lower u).path)
        × HasEnd (docs_normalize lower u).path
  unfolding docs_normalize
  docs_normalize_lem u slash = (
    refl,
    add_slash-IsLower _ slash (
        strip_index-IsLower index_names (map lower (strip_locale u.path))
          (map-IsLower (strip_locale u.path))),
    add_slash-HasEnd (strip_index index_names (map lower (strip_locale u.path))),
  )
