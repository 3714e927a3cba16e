-- ===== src/Parsing/Known.antt =====
-- The URLs with metadata, through the commands on their keys.
use dev_search.Prelude.{
  ℕ, ◌≡◌, ◌≢◌, ◌↔◌, ◌⊎◌, inl, inr, refl, subst, true, false, ◌||◌, Bool-cases, none, some,
  Option-cases, List, ◌∷◌,
}
use dev_search.Prelude.Strings.{one_of, same_text, same_text_sound, same_text_refl}
use dev_search.Parsing.Links.{MetaText, Env, get_url_meta, count_link}

pub same_or_ne : (a b : List ℕ) → (a ≡ b) ⊎ ((a ≢ b) × (same_text a b ≡ false))
same_or_ne a b = elim (Bool-cases (same_text a b)) [
  | inl e ↦ inl (same_text_sound a b e)
  | inr e ↦ inr ((λ p. cc (e, subst (λ c. same_text a c ≡ true) p (same_text_refl a))), e)
]

both : {A B C : Type 0} → A ↔ B → B ↔ C → A ↔ C
both f g = ((λ a. g.0 (f.0 a)), λ c. f.1 (g.1 c))

module _ (env : Env) where
  open env use {pages, lib, metas, redis, frontier}

  -- The URLs with metadata are those of the list.
  abbrev pub Knows : metas.Store → List (List ℕ) → Type 0
  Knows m seen = (url : List ℕ) → (metas.lookup m url ≢ none) ↔ (one_of seen url ≡ true)

  -- SETNX does not fail.
  abbrev pub Answers : Type 0
  Answers =
      (key : List ℕ) (text : MetaText) (m : metas.Store) → (metas.set_nx key text 0 m).1 ≢ none

  set_known :
      (url : List ℕ) (text : MetaText) (m : metas.Store)
      → metas.lookup m url ≢ none
      → (other : List ℕ)
      → (metas.lookup (metas.set url text 0 m).0 other ≢ none) ↔ (metas.lookup m other ≢ none)
  set_known url text m known other = elim (same_or_ne url other) [
    | inl e ↦
        subst (λ o. (metas.lookup (metas.set url text 0 m).0 o ≢ none) ↔ (metas.lookup m o ≢ none))
          e ((λ h. known), λ h. metas.set_text url text m known)
    | inr (ne, f) ↦ rw (metas.set_other url text m other ne) ((λ h. h), λ h. h)
  ]

  pub count_known :
      (url : List ℕ) (m : metas.Store)
      → metas.lookup m url ≢ none
      → (other : List ℕ)
      → (metas.lookup (count_link env url m) other ≢ none) ↔ (metas.lookup m other ≢ none)
  unfolding count_link
  count_known url m known other = elim (Option-cases (get_url_meta env url m)) [
    | inl bad ↦ rw (bad, count_link) ((λ h. h), λ h. h)
    | inr (none, e) ↦ rw (e, count_link) ((λ h. h), λ h. h)
    | inr (some meta, e) ↦ rw (e, count_link) (set_known url _ m known other)
  ]

  pub count_link-Knows :
      (url : List ℕ) (m : metas.Store) (seen : List (List ℕ))
      → Knows m seen
      → metas.lookup m url ≢ none
      → Knows (count_link env url m) seen
  count_link-Knows url m seen knows known other = both (count_known url m known other) (knows other)

  pub added-Knows :
      (url : List ℕ) (text : MetaText) (m : metas.Store) (seen : List (List ℕ))
      → Knows m seen
      → (metas.set_nx url text 0 m).1 ≡ some true
      → Knows (metas.set_nx url text 0 m).0 (url ∷ seen)
  unfolding one_of
  added-Knows url text m seen knows added other = elim (same_or_ne url other) [
    | inl e ↦
        subst
          (λ o.
            (metas.lookup (metas.set_nx url text 0 m).0 o ≢ none)
            ↔ ((same_text url o || one_of seen o) ≡ true))
          e
          (
            (λ h. rw (same_text_refl url) refl),
            λ h gone. cc ((metas.set_nx_added url text m added).1, gone),
          )
    | inr (ne, f) ↦ rw (f, metas.set_nx_other url text m other ne) (knows other)
  ]
