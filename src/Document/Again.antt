-- ===== src/Document/Again.antt =====
-- A message that is delivered again, in internal/indexer/processes.go.
use Prim.Native.String.{String}
use dev_search.Prelude.{
  ℕ, ◌≡◌, refl, sym, ap, ◌∙◌, subst, Bool-cases, inl, inr, none, some, Option-cases, List, [], ◌∷◌,
}
use dev_search.Redis.{In}
use dev_search.Queue.{RawMessage}
use dev_search.Storage.{get_object}
use dev_search.Storage.Names.{key_of_name}
use dev_search.Document.{Text, Record, InvertedIndex, Document}
use dev_search.Document.Save.{
  Database, copy_rows, insert_inverted_index, insert_inverted_index_again,
  insert_inverted_index_stores,
}
use dev_search.Document.Handler.{
  not_saved, Index, Indexed, indexed_as, save, create_and_store_indexed_document, saved, handled,
  not_saved_twice,
}

module _ (r : Database) (hex : ℕ → String) where
  open r use {
    Store, Tx, Stored, HasRow, begin, insert_document, commit, begin_sees, insert_keeps, copy_keeps,
    commit_failed, commit_stores,
  }

  copy_rows_keeps :
      (tx after : Tx) (rows : InvertedIndex) (own : String) (term : Text) (hash : String)
      → copy_rows r hex own rows tx ≡ some after
      → HasRow tx term hash
      → HasRow after term hash
  unfolding copy_rows
  copy_rows_keeps tx after [] own term hash e has =
      let same : tx ≡ after = cc in subst (λ (t : Tx). HasRow t term hash) same has
  copy_rows_keeps tx after (row ∷ rows) own term hash e has =
      copy_keeps tx after (row ∷ rows) own term hash e has

  commit_keeps :
      (tx : Tx) (s : Store) (term : Text) (hash : String)
      → HasRow tx term hash
      → Stored s term hash
      → Stored (commit tx s).0 term hash
  commit_keeps tx s term hash has stored = elim (Bool-cases (commit tx s).1) [
    | inl okay ↦ commit_stores tx s term hash okay has
    | inr bad ↦ commit_failed tx s term hash bad stored
  ]

  -- A row that is stored stays, whatever document is saved, and however the call ends.
  insert_inverted_index_keeps :
      (doc : Document) (s : Store) (term : Text) (hash : String)
      → Stored s term hash
      → Stored (insert_inverted_index r hex doc s).0 term hash
  unfolding insert_inverted_index
  insert_inverted_index_keeps doc s term hash stored = elim (Option-cases (begin s)) [
    | inl down ↦ rw (down, insert_inverted_index) stored
    | inr (tx, open_tx) ↦
        rw (open_tx, insert_inverted_index)
          (elim (Option-cases (insert_document (hex doc.page.id) doc.page tx)) [
            | inl bad ↦ rw (bad, insert_inverted_index) stored
            | inr (inserted, good) ↦
                let seen = begin_sees s tx term hash open_tx stored in
                let kept =
                  insert_keeps tx inserted doc.page term hash (hex doc.page.id) good seen in
                rw (good, insert_inverted_index)
                  (elim (Option-cases
                    (copy_rows r hex (hex doc.page.id) doc.inverted_index inserted)) [
                      | inl clash ↦ rw (clash, insert_inverted_index) stored
                      | inr (after, fits) ↦
                          rw (fits, insert_inverted_index)
                            (commit_keeps after s term hash
                              (copy_rows_keeps inserted after doc.inverted_index (hex doc.page.id)
                                term hash fits kept)
                              stored)
                    ])
          ])
  ]

module _ (ix : Index) where
  open ix use {obj, db, record_of, hex}

  -- The messages that are handled in turn, each with the time that its save takes.
  unfoldable pub handle_all : List (ℕ × RawMessage) → Indexed ix → Indexed ix
  handle_all [] s = s
  handle_all ((took, payload) ∷ rest) s =
      handle_all rest (create_and_store_indexed_document ix took payload s).1

  abbrev Keeps : Text → String → Indexed ix → Indexed ix → Type 0
  Keeps term hash s t = (t.objects ≡ s.objects) × db.Stored t.rows term hash

  save-Keeps :
      (took : ℕ) (doc : Document) (s : Indexed ix) (term : Text) (hash : String)
      → db.Stored s.rows term hash
      → Keeps term hash s (save ix took doc s).1
  unfolding save
  save-Keeps took doc s term hash stored =
      let kept = insert_inverted_index_keeps db hex doc s.rows term hash stored in
      elim (Bool-cases (insert_inverted_index db hex doc s.rows).1) [
        | inl okay ↦ rw (okay) (refl, kept)
        | inr bad ↦ rw (bad) (refl, kept)
      ]

  handler-Keeps :
      (took : ℕ) (payload : RawMessage) (s : Indexed ix) (term : Text) (hash : String)
      → db.Stored s.rows term hash
      → Keeps term hash s (create_and_store_indexed_document ix took payload s).1
  unfolding create_and_store_indexed_document
  handler-Keeps took payload s term hash stored = elim (Option-cases (record_of payload)) [
    | inl bad ↦ rw (bad, create_and_store_indexed_document) (refl, stored)
    | inr (page, read) ↦
        rw (read, create_and_store_indexed_document)
          (elim (Option-cases (get_object obj (key_of_name page.text_object_key) s.objects)) [
            | inl missing ↦ rw (missing, create_and_store_indexed_document) (refl, stored)
            | inr (raw, found) ↦
                rw (found, create_and_store_indexed_document)
                  (save-Keeps took (indexed_as ix page raw) s term hash stored)
          ])
  ]

  handle_all-Keeps :
      (msgs : List (ℕ × RawMessage)) (s : Indexed ix) (term : Text) (hash : String)
      → db.Stored s.rows term hash
      → Keeps term hash s (handle_all msgs s)
  unfolding handle_all
  handle_all-Keeps [] s term hash stored = (refl, stored)
  handle_all-Keeps ((took, payload) ∷ rest) s term hash stored =
      let (same, kept) = handler-Keeps took payload s term hash stored in
      let (same', kept') =
        handle_all-Keeps rest (create_and_store_indexed_document ix took payload s).1 term hash
          kept in
      (same' ∙ same, kept')

  -- A message whose document has a term and was indexed once fails when it is delivered again, and changes
  -- nothing, whatever messages were handled in between and however they ended: its record and object are the
  -- same, and the save ends in an error.
  pub create_and_store_twice :
      (took later : ℕ) (payload : RawMessage) (page : Record) (raw : String) (term : Text) (n : ℕ)
      (s : Indexed ix) (between : List (ℕ × RawMessage))
      → record_of payload ≡ some page
      → get_object obj (key_of_name page.text_object_key) s.objects ≡ some raw
      → In (term, n) (indexed_as ix page raw).inverted_index
      → (create_and_store_indexed_document ix took payload s).0 ≡ none
      → create_and_store_indexed_document ix later payload
          (handle_all between (create_and_store_indexed_document ix took payload s).1)
        ≡ (
          some not_saved,
          handle_all between (create_and_store_indexed_document ix took payload s).1,
        )
  create_and_store_twice took later payload page raw term n s between read found has done =
      let doc = indexed_as ix page raw in
      let first = handled ix took payload page raw s read found in
      let u = (save ix took doc s).1 in
      let (okay, rows, objects) = saved ix took doc s (rw (first) at done) in
      let stored : db.Stored u.rows term (hex doc.page.id) =
        subst (λ (x : db.Store). db.Stored x term (hex doc.page.id)) (sym rows)
          (insert_inverted_index_stores db hex doc s.rows term n has okay) in
      let (same, kept) = handle_all-Keeps between u term (hex doc.page.id) stored in
      let t = handle_all between u in
      rw (first) (
        handled ix later payload page raw t read
          (ap (get_object obj (key_of_name page.text_object_key)) (same ∙ objects) ∙ found)
        ∙ not_saved_twice ix later doc t
            (insert_inverted_index_again db hex doc t.rows term n has kept))
