-- ===== src/Document/Save.antt =====
-- `insertInvertedIndex` of internal/indexer/indexDocument.go, on the tables of
-- internal/storage/db/schema.sql.
use Prim.Native.String.{String}
use dev_search.Prelude.{
  ℕ, ◌≡◌, ◌≢◌, ◌↔◌, ◌⊎◌, inl, inr, refl, Bool, true, false, Option, none, some, Option-cases, [],
  ◌∷◌,
}
use dev_search.Redis.{In}
use dev_search.Document.{Text, Record, InvertedIndex, Document}

-- The database, and what PostgreSQL promises of the two tables: `none` is an error. `HasRow` and `Stored` say
-- that inverted_index has a row for a term and a page, as a transaction sees it and as it was committed.
-- The primary key (term, content_hash) refuses a second such row. `Page` and `HasPage` say that documents has a row
-- for a hash and a URL; a hash that is there is passed over, and the unique URL refuses a second row with it.
-- No row goes when others are added.
pub record Database : Type 1 where
  pub Store : Type 0
  pub Tx : Type 0
  pub Stored : Store → Text → String → Type 0
  pub HasRow : Tx → Text → String → Type 0
  pub begin : Store → Option Tx
  pub insert_document : String → Record → Tx → Option Tx
  pub copy_from : String → InvertedIndex → Tx → Option Tx
  pub commit : Tx → Store → Store × Bool
  pub Page : Store → String → String → Type 0
  pub HasPage : Tx → String → String → Type 0
  pub begin_pages :
      (s : Store) (tx : Tx) (hash url : String)
      → begin s ≡ some tx
      → HasPage tx hash url ↔ Page s hash url
  pub insert_page :
      (tx after : Tx) (page : Record) (own : String)
      → insert_document own page tx ≡ some after
      → HasPage after own page.url ⊎ ((url : String) × HasPage tx own url)
  pub insert_clash :
      (tx : Tx) (page : Record) (own other : String)
      → HasPage tx other page.url
      → other ≢ own
      → ((url : String) → ¬ HasPage tx own url)
      → insert_document own page tx ≡ none
  pub copy_pages :
      (tx after : Tx) (rows : InvertedIndex) (hash own url : String)
      → copy_from hash rows tx ≡ some after
      → HasPage tx own url
      → HasPage after own url
  pub commit_pages :
      (tx : Tx) (s : Store) (hash url : String)
      → (commit tx s).1 ≡ true
      → HasPage tx hash url
      → Page (commit tx s).0 hash url
  pub begin_sees :
      (s : Store) (tx : Tx) (term : Text) (hash : String)
      → begin s ≡ some tx
      → Stored s term hash
      → HasRow tx term hash
  pub insert_keeps :
      (tx after : Tx) (page : Record) (term : Text) (hash own : String)
      → insert_document own page tx ≡ some after
      → HasRow tx term hash
      → HasRow after term hash
  pub copy_adds :
      (tx after : Tx) (rows : InvertedIndex) (hash : String) (term : Text) (n : ℕ)
      → copy_from hash rows tx ≡ some after
      → In (term, n) rows
      → HasRow after term hash
  pub copy_clash :
      (tx : Tx) (rows : InvertedIndex) (hash : String) (term : Text) (n : ℕ)
      → In (term, n) rows
      → HasRow tx term hash
      → copy_from hash rows tx ≡ none
  pub copy_keeps :
      (tx after : Tx) (rows : InvertedIndex) (own : String) (term : Text) (hash : String)
      → copy_from own rows tx ≡ some after
      → HasRow tx term hash
      → HasRow after term hash
  pub commit_failed :
      (tx : Tx) (s : Store) (term : Text) (hash : String)
      → (commit tx s).1 ≡ false
      → Stored s term hash
      → Stored (commit tx s).0 term hash
  pub commit_stores :
      (tx : Tx) (s : Store) (term : Text) (hash : String)
      → (commit tx s).1 ≡ true
      → HasRow tx term hash
      → Stored (commit tx s).0 term hash

-- `hex` is the format `%x`.
module _ (r : Database) (hex : ℕ → String) where
  open r use {
    Store, Tx, Stored, HasRow, begin, insert_document, copy_from, commit, begin_sees, insert_keeps,
    copy_adds, copy_clash, commit_stores,
  }

  -- The rows are copied if there are any.
  unfoldable pub copy_rows : String → InvertedIndex → Tx → Option Tx
  copy_rows hash [] tx = some tx
  copy_rows hash (row ∷ rows) tx = copy_from hash (row ∷ rows) tx

  -- The store after the call, and whether it returns nil. A transaction that is not committed is rolled back.
  unfoldable pub insert_inverted_index : Document → Store → Store × Bool
  insert_inverted_index doc s = elim (begin s) [
    | none ↦ (s, false)
    | some tx ↦ elim (insert_document (hex doc.page.id) doc.page tx) [
      | none ↦ (s, false)
      | some inserted ↦ elim (copy_rows (hex doc.page.id) doc.inverted_index inserted) [
        | none ↦ (s, false)
        | some copied ↦ commit copied s
      ]
    ]
  ]

  copy_rows_adds :
      (tx after : Tx) (rows : InvertedIndex) (hash : String) (term : Text) (n : ℕ)
      → copy_rows hash rows tx ≡ some after
      → In (term, n) rows
      → HasRow after term hash
  unfolding copy_rows
  copy_rows_adds tx after [] hash term n e i = elim i [ ]
  copy_rows_adds tx after (row ∷ rows) hash term n e i =
      copy_adds tx after (row ∷ rows) hash term n e i

  copy_rows_clash :
      (tx : Tx) (rows : InvertedIndex) (hash : String) (term : Text) (n : ℕ)
      → In (term, n) rows
      → HasRow tx term hash
      → copy_rows hash rows tx ≡ none
  unfolding copy_rows
  copy_rows_clash tx [] hash term n i has = elim i [ ]
  copy_rows_clash tx (row ∷ rows) hash term n i has = copy_clash tx (row ∷ rows) hash term n i has

  -- A page one of whose terms is stored for it already cannot be saved: the call fails and changes nothing.
  pub insert_inverted_index_again :
      (doc : Document) (s : Store) (term : Text) (n : ℕ)
      → In (term, n) doc.inverted_index
      → Stored s term (hex doc.page.id)
      → insert_inverted_index doc s ≡ (s, false)
  unfolding insert_inverted_index
  insert_inverted_index_again doc s term n i stored = elim (Option-cases (begin s)) [
    | inl down ↦ rw (down, insert_inverted_index) refl
    | inr (tx, open_tx) ↦
        rw (open_tx, insert_inverted_index)
          (elim (Option-cases (insert_document (hex doc.page.id) doc.page tx)) [
            | inl bad ↦ rw (bad, insert_inverted_index) refl
            | inr (inserted, good) ↦
                let seen = begin_sees s tx term (hex doc.page.id) open_tx stored in
                let kept =
                  insert_keeps tx inserted doc.page term (hex doc.page.id) (hex doc.page.id) good
                    seen in
                rw (good, insert_inverted_index)
                  (rw
                    (
                      copy_rows_clash inserted doc.inverted_index (hex doc.page.id) term n i kept,
                      insert_inverted_index,
                    )
                    refl)
          ])
  ]

  -- After a call that returns nil, every term of the page is stored for it.
  pub insert_inverted_index_stores :
      (doc : Document) (s : Store) (term : Text) (n : ℕ)
      → In (term, n) doc.inverted_index
      → (insert_inverted_index doc s).1 ≡ true
      → Stored (insert_inverted_index doc s).0 term (hex doc.page.id)
  unfolding insert_inverted_index
  insert_inverted_index_stores doc s term n i saved = elim (Option-cases (begin s)) [
    | inl down ↦ cc (rw (down, insert_inverted_index) at saved)
    | inr (tx, open_tx) ↦ elim (Option-cases (insert_document (hex doc.page.id) doc.page tx)) [
      | inl bad ↦ cc (rw (open_tx, bad, insert_inverted_index) at saved)
      | inr (inserted, good) ↦
          elim (Option-cases (copy_rows (hex doc.page.id) doc.inverted_index inserted)) [
            | inl clash ↦ cc (rw (open_tx, good, clash, insert_inverted_index) at saved)
            | inr (copied, fits) ↦
                rw (open_tx, good, fits, insert_inverted_index)
                  (commit_stores copied s term (hex doc.page.id)
                    (rw (open_tx, good, fits, insert_inverted_index) at saved)
                    (copy_rows_adds inserted copied doc.inverted_index (hex doc.page.id) term n fits
                      i))
          ]
    ]
  ]

  -- A page that has a term and has been saved cannot be saved again: the second call fails and changes
  -- nothing.
  pub insert_inverted_index_twice :
      (doc : Document) (s : Store) (term : Text) (n : ℕ)
      → In (term, n) doc.inverted_index
      → (insert_inverted_index doc s).1 ≡ true
      → insert_inverted_index doc (insert_inverted_index doc s).0
        ≡ ((insert_inverted_index doc s).0, false)
  insert_inverted_index_twice doc s term n i saved =
      insert_inverted_index_again doc (insert_inverted_index doc s).0 term n i
        (insert_inverted_index_stores doc s term n i saved)
