-- ===== src/Scoring/Classify.antt =====
-- What `ClassifyURL` reads off a URL.
use dev_search.Prelude.{
  ℕ, ◌≡◌, ◌≢◌, ◌↔◌, ◌⊎◌, inl, inr, refl, Bool, true, ◌||◌, List, [], ◌∷◌, map, arith, if◌then◌else◌,
}
use dev_search.Prelude.Text.{codes, Infix, contains_text, contains_text_iff}
use dev_search.Scoring.{UrlParts, UrlMeta, is_empty, classify_url}

-- A flag that is set where one of two parts is found.
either_part :
    (path p q : List ℕ) (m : Bool)
    → ((if contains_text path p || contains_text path q then true else m) ≡ true)
      ↔ ((m ≡ true) ⊎ Infix p path ⊎ Infix q path)
either_part path p q m = (found, set_by)
  where
    found :
        (if contains_text path p || contains_text path q then true else m) ≡ true
        → (m ≡ true) ⊎ Infix p path ⊎ Infix q path
    found h = elim (split (contains_text path p) (contains_text path q) h) [
      | inl before ↦ inl before
      | inr (inl e) ↦ inr (inl ((contains_text_iff path p).0 e))
      | inr (inr e) ↦ inr (inr ((contains_text_iff path q).0 e))
    ]
      where
        split :
            (a b : Bool)
            → (if a || b then true else m) ≡ true
            → (m ≡ true) ⊎ (a ≡ true) ⊎ (b ≡ true)
        split a b h = ground arith

    set_by :
        (m ≡ true) ⊎ Infix p path ⊎ Infix q path
        → (if contains_text path p || contains_text path q then true else m) ≡ true
    set_by (inl before) = ground arith
    set_by (inr (inl e)) = ground (arith, (contains_text_iff path p).1 e)
    set_by (inr (inr e)) = ground (arith, (contains_text_iff path q).1 e)

any_part :
    (path p q r : List ℕ) (m : Bool)
    → ((if contains_text path p || contains_text path q || contains_text path r then true else m)
        ≡ true)
      ↔ ((m ≡ true) ⊎ Infix p path ⊎ Infix q path ⊎ Infix r path)
any_part path p q r m = (found, set_by)
  where
    found :
        (if contains_text path p || contains_text path q || contains_text path r then true else m)
          ≡ true
        → (m ≡ true) ⊎ Infix p path ⊎ Infix q path ⊎ Infix r path
    found h = elim (split (contains_text path p) (contains_text path q) (contains_text path r) h) [
      | inl before ↦ inl before
      | inr (inl e) ↦ inr (inl ((contains_text_iff path p).0 e))
      | inr (inr (inl e)) ↦ inr (inr (inl ((contains_text_iff path q).0 e)))
      | inr (inr (inr e)) ↦ inr (inr (inr ((contains_text_iff path r).0 e)))
    ]
      where
        split :
            (a b c : Bool)
            → (if a || b || c then true else m) ≡ true
            → (m ≡ true) ⊎ (a ≡ true) ⊎ (b ≡ true) ⊎ (c ≡ true)
        split a b c h = ground arith

    set_by :
        (m ≡ true) ⊎ Infix p path ⊎ Infix q path ⊎ Infix r path
        → (if contains_text path p || contains_text path q || contains_text path r then true else m)
          ≡ true
    set_by (inl before) = ground arith
    set_by (inr (inl e)) = ground (arith, (contains_text_iff path p).1 e)
    set_by (inr (inr (inl e))) = ground (arith, (contains_text_iff path q).1 e)
    set_by (inr (inr (inr e))) = ground (arith, (contains_text_iff path r).1 e)

query_mark :
    (q : List ℕ) (m : Bool) → ((if is_empty q then m else true) ≡ true) ↔ ((m ≡ true) ⊎ (q ≢ []))
query_mark [] m = ((λ e. inl e), λ d. elim d [ inl e ↦ e | inr ne ↦ absurd (ne refl) ])
query_mark (c ∷ q) m = ((λ e. inr (λ empty. cc)), λ d. refl)

module _ (lower : ℕ → ℕ) (u : UrlParts) (meta : UrlMeta) where
  -- `ClassifyURL` marks a URL as documentation, as an API or as a blog exactly when it was marked before or
  -- its path, in lower case, has one of the parts that stand for these, and as one with a query exactly
  -- when it was marked before or its query is not empty.
  pub classify_url_marks :
      (((classify_url lower u meta).is_docs ≡ true) ↔ (
        (meta.is_docs ≡ true)
        ⊎ Infix (codes "/docs/") (map lower u.path)
        ⊎ Infix (codes "/guide/") (map lower u.path)
        ⊎ Infix (codes "/tutorial/") (map lower u.path)))
      × (((classify_url lower u meta).is_api ≡ true) ↔ (
          (meta.is_api ≡ true)
          ⊎ Infix (codes "/api/") (map lower u.path)
          ⊎ Infix (codes "/reference/") (map lower u.path)))
      × (((classify_url lower u meta).is_blog ≡ true) ↔ (
          (meta.is_blog ≡ true)
          ⊎ Infix (codes "/blog/") (map lower u.path)
          ⊎ Infix (codes "/post/") (map lower u.path)))
      × (((classify_url lower u meta).has_query_params ≡ true)
          ↔ ((meta.has_query_params ≡ true) ⊎ (u.raw_query ≢ [])))
  unfolding classify_url
  classify_url_marks = (
    any_part (map lower u.path) (codes "/docs/") (codes "/guide/") (codes "/tutorial/")
        meta.is_docs,
    either_part (map lower u.path) (codes "/api/") (codes "/reference/") meta.is_api,
    either_part (map lower u.path) (codes "/blog/") (codes "/post/") meta.is_blog,
    query_mark u.raw_query meta.has_query_params,
  )
