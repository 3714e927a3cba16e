-- ===== src/Normalizer/Git.antt =====
-- What `GitNormalizer` leaves of an address.
use mathlib.Core.List.{reverse, reverse-reverse, reverse-append, append_assoc, append-nil, map}
use dev_search.Prelude.{
  ℕ, zero, suc, ◌≡◌, ◌≢◌, ◌⊎◌, inl, inr, refl, sym, ap, ◌∙◌, Bool, true, false, none, List, [], ◌∷◌,
  ◌++◌, arith, Bool-cases, drop, ◌==◌, if◌then◌else◌,
}
use dev_search.Prelude.Text.{codes, contains_text, has_prefix, contains_text_iff}
use dev_search.Prelude.Strings.{trim_right_last, trim_right_prefix}
use dev_search.Normalizer.Paths.{is_slash}
use dev_search.Normalizer.{
  Url, banned_git_paths, drop_banned, after_slash, ascii_lower, strip_git_extension, is_line_ref,
  git_normalize,
}

-- None of the texts stands in the path.
abbrev pub NoneIn : List (List ℕ) → List ℕ → Type 0
NoneIn [] path = Unit {0}
NoneIn (p ∷ ps) path = (contains_text path p ≡ false) × NoneIn ps path

abbrev BeginsWith : List ℕ → List ℕ → Type 0
BeginsWith s t = (tail : List ℕ) × (s ≡ t ++ tail)

BeginsWith-trans : (s t u : List ℕ) → BeginsWith s t → BeginsWith t u → BeginsWith s u
BeginsWith-trans s t u (a, e) (b, f) = (b ++ a, e ∙ (ap (λ x. x ++ a) f ∙ append_assoc u b a))

contains_text-BeginsWith :
    (s t p : List ℕ) → BeginsWith s t → contains_text s p ≡ false → contains_text t p ≡ false
contains_text-BeginsWith s t p (tail, e) absent = elim (Bool-cases (contains_text t p)) [
  | inl there ↦
      let (before, after, f) = (contains_text_iff t p).0 there in
      let whole : s ≡ before ++ (p ++ (after ++ tail)) =
        e
        ∙ (ap (λ x. x ++ tail) f
            ∙ (append_assoc before (p ++ after) tail
                ∙ ap (λ x. before ++ x) (append_assoc p after tail))) in
      cc ((contains_text_iff s p).1 (before, after ++ tail, whole), absent)
  | inr out ↦ out
]

NoneIn-BeginsWith : (ps : List (List ℕ)) (s t : List ℕ) → BeginsWith s t → NoneIn ps s → NoneIn ps t
NoneIn-BeginsWith [] s t b none_in = tt
NoneIn-BeginsWith (p ∷ ps) s t b (here, there) =
    (contains_text-BeginsWith s t p b here, NoneIn-BeginsWith ps s t b there)

drop_banned-nil : (ps : List (List ℕ)) → drop_banned ps [] ≡ []
unfolding drop_banned
drop_banned-nil [] = refl
drop_banned-nil (p ∷ ps) = elim (Bool-cases (contains_text [] p)) [
  | inl e ↦ rw (e) (drop_banned-nil ps)
  | inr e ↦ rw (e) (drop_banned-nil ps)
]

drop_banned_cases :
    (ps : List (List ℕ)) (path : List ℕ)
    → (drop_banned ps path ≡ []) ⊎ ((drop_banned ps path ≡ path) × NoneIn ps path)
unfolding drop_banned
drop_banned_cases [] path = inr (refl, tt)
drop_banned_cases (p ∷ ps) path = elim (Bool-cases (contains_text path p)) [
  | inl found ↦ inl (rw (found) (drop_banned-nil ps))
  | inr absent ↦ rw (absent) (elim (drop_banned_cases ps path) [
    | inl gone ↦ inl gone
    | inr (kept, others) ↦ inr (kept, (refl, others))
  ])
]

empty-NoneIn : NoneIn banned_git_paths []
unfolding contains_text has_prefix
empty-NoneIn = ground arith

drop_banned-NoneIn : (path : List ℕ) → NoneIn banned_git_paths (drop_banned banned_git_paths path)
drop_banned-NoneIn path = elim (drop_banned_cases banned_git_paths path) [
  | inl gone ↦ rw (gone) empty-NoneIn
  | inr (kept, absent) ↦ rw (kept) absent
]

drop_end : (n : ℕ) (s : List ℕ) → (head : List ℕ) × (s ≡ head ++ drop n s)
drop_end zero s = ([], refl)
drop_end (suc n) [] = ([], refl)
drop_end (suc n) (c ∷ cs) = let (head, e) = drop_end n cs in (c ∷ head, ap (λ t. c ∷ t) e)

after_slash_end : (s : List ℕ) → (head : List ℕ) × (s ≡ head ++ after_slash s)
after_slash_end [] = ([], refl)
after_slash_end (c ∷ cs) = elim (Bool-cases (c == b'/')) [
  | inl slash ↦ (c ∷ [], rw (slash) refl)
  | inr other ↦ ([], rw (other) refl)
]

strip_git_extension_begins : (path : List ℕ) → BeginsWith path (strip_git_extension path)
unfolding strip_git_extension
strip_git_extension_begins path =
    let tail = after_slash (reverse path) in
    elim (Bool-cases (has_prefix (map ascii_lower tail) (codes "tig."))) [
      | inl named ↦
          let (slash, e) = after_slash_end (reverse path) in
          let (name, f) = drop_end 4 tail in
          rw (named) (
            reverse (slash ++ name),
            sym (reverse-reverse path)
                ∙ (ap reverse
                      (e ∙ (ap (λ x. slash ++ x) f ∙ sym (append_assoc slash name (drop 4 tail))))
                    ∙ reverse-append (slash ++ name) (drop 4 tail)),
          )
      | inr plain ↦ rw (plain) ([], sym (append-nil path))
    ]

-- Whatever the address, `GitNormalizer` leaves one with the scheme https and no user, a path that names none
-- of the banned pages and does not end in a slash, and a fragment that is empty or a range of lines.
pub git_normalize_lem :
    (u : Url)
    → ((git_normalize u).scheme ≡ codes "https")
      × ((git_normalize u).user ≡ none)
      × NoneIn banned_git_paths (git_normalize u).path
      × ((before : List ℕ) → (git_normalize u).path ≢ before ++ b'/' ∷ [])
      × (((git_normalize u).fragment ≡ []) ⊎ (is_line_ref (git_normalize u).fragment ≡ true))
unfolding git_normalize
git_normalize_lem u =
    let path = drop_banned banned_git_paths u.path in
    (
      refl,
      refl,
      NoneIn-BeginsWith banned_git_paths path _
          (BeginsWith-trans path (strip_git_extension path) _ (strip_git_extension_begins path)
            (trim_right_prefix is_slash (strip_git_extension path)))
          (drop_banned-NoneIn u.path),
      (λ before e. cc (trim_right_last is_slash (strip_git_extension path) before b'/' e)),
      by_line (is_line_ref u.fragment) refl,
    )
  where
    by_line :
        (b : Bool)
        → is_line_ref u.fragment ≡ b
        → ((if b then u.fragment else []) ≡ [])
          ⊎ (is_line_ref (if b then u.fragment else []) ≡ true)
    by_line true e = inr e
    by_line false e = inl refl
