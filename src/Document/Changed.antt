-- ===== src/Document/Changed.antt =====
-- A page whose text has changed since it was indexed: it has its URL and another hash.
use Prim.Native.String.{String}
use dev_search.Prelude.{
  ℕ, ◌≡◌, ◌≢◌, inl, inr, refl, sym, subst, true, false, some, Option-cases, [], ◌∷◌,
}
use dev_search.Document.{InvertedIndex, Document}
use dev_search.Document.Save.{Database, copy_rows, insert_inverted_index}

module _ (r : Database) (hex : ℕ → String) where
  open r use {
    Store, Tx, Page, HasPage, begin, insert_document, copy_from, commit, begin_pages, insert_page,
    insert_clash, copy_pages, commit_pages,
  }

  -- No page is stored under the hash.
  abbrev pub NoPage : Store → String → Type 0
  NoPage s hash = (url : String) → ¬ Page s hash url

  copied_page :
      (tx after : Tx) (rows : InvertedIndex) (hash own url : String)
      → copy_rows r hex hash rows tx ≡ some after
      → HasPage tx own url
      → HasPage after own url
  unfolding copy_rows
  copied_page tx after [] hash own url e has =
      let same : tx ≡ after = cc in subst (λ (t : Tx). HasPage t own url) same has
  copied_page tx after (row ∷ rows) hash own url e has =
      copy_pages tx after (row ∷ rows) hash own url e has

  -- After a call that returns nil, a page whose hash was not stored is stored with its URL.
  insert_inverted_index_page :
      (doc : Document) (s : Store)
      → NoPage s (hex doc.page.id)
      → (insert_inverted_index r hex doc s).1 ≡ true
      → Page (insert_inverted_index r hex doc s).0 (hex doc.page.id) doc.page.url
  unfolding insert_inverted_index
  insert_inverted_index_page doc s free saved = elim (Option-cases (begin s)) [
    | inl down ↦ cc (rw (down, insert_inverted_index) at saved)
    | inr (tx, open_tx) ↦ elim (Option-cases (insert_document (hex doc.page.id) doc.page tx)) [
      | inl bad ↦ cc (rw (open_tx, bad, insert_inverted_index) at saved)
      | inr (inserted, good) ↦
          elim (Option-cases (copy_rows r hex (hex doc.page.id) doc.inverted_index inserted)) [
            | inl clash ↦ cc (rw (open_tx, good, clash, insert_inverted_index) at saved)
            | inr (after, fits) ↦
                let has : HasPage inserted (hex doc.page.id) doc.page.url =
                  elim (insert_page tx inserted doc.page (hex doc.page.id) good) [
                    | inl own ↦ own
                    | inr (url, old) ↦
                        absurd (free url ((begin_pages s tx (hex doc.page.id) url open_tx).0 old))
                  ] in
                rw (open_tx, good, fits, insert_inverted_index)
                  (commit_pages after s (hex doc.page.id) doc.page.url
                    (rw (open_tx, good, fits, insert_inverted_index) at saved)
                    (copied_page inserted after doc.inverted_index (hex doc.page.id)
                      (hex doc.page.id) doc.page.url fits has))
          ]
    ]
  ]

  -- A page whose URL is stored under another hash, and its own hash not, cannot be saved.
  insert_inverted_index_refused :
      (doc : Document) (s : Store) (other : String)
      → Page s other doc.page.url
      → other ≢ hex doc.page.id
      → NoPage s (hex doc.page.id)
      → insert_inverted_index r hex doc s ≡ (s, false)
  unfolding insert_inverted_index
  insert_inverted_index_refused doc s other there ne free = elim (Option-cases (begin s)) [
    | inl down ↦ rw (down, insert_inverted_index) refl
    | inr (tx, open_tx) ↦
        let refused =
          insert_clash tx doc.page (hex doc.page.id) other
            ((begin_pages s tx other doc.page.url open_tx).1 there) ne
            (λ url has. free url ((begin_pages s tx (hex doc.page.id) url open_tx).0 has)) in
        rw (open_tx, insert_inverted_index) (rw (refused, insert_inverted_index) refl)
  ]

  -- A new page that was saved and whose text has changed since, so that it comes with its URL and a hash that is
  -- not stored, cannot be saved: the call fails and changes nothing.
  pub insert_inverted_index_changed :
      (doc changed : Document) (s : Store)
      → NoPage s (hex doc.page.id)
      → (insert_inverted_index r hex doc s).1 ≡ true
      → changed.page.url ≡ doc.page.url
      → hex doc.page.id ≢ hex changed.page.id
      → NoPage (insert_inverted_index r hex doc s).0 (hex changed.page.id)
      → insert_inverted_index r hex changed (insert_inverted_index r hex doc s).0
        ≡ ((insert_inverted_index r hex doc s).0, false)
  insert_inverted_index_changed doc changed s free saved same ne fresh =
      insert_inverted_index_refused changed (insert_inverted_index r hex doc s).0 (hex doc.page.id)
        (subst (λ (u : String). Page (insert_inverted_index r hex doc s).0 (hex doc.page.id) u)
          (sym same) (insert_inverted_index_page doc s free saved))
        ne fresh
