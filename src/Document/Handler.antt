-- ===== src/Document/Handler.antt =====
-- `CreateAndStoreIndexedDocument` of internal/indexer/processes.go.
use Prim.Native.String.{String}
use dev_search.Prelude.{
  ℕ, ◌≡◌, refl, Bool, true, false, Bool-cases, inl, inr, Option, none, some, if◌then◌else◌,
}
use dev_search.Prelude.Text.{codes}
use dev_search.Queue.{RawMessage}
use dev_search.Storage.{ObjectServer, get_object}
use dev_search.Storage.Names.{key_of_name}
use dev_search.Indexer.{IndexerStats, add_db_latency}
use dev_search.Document.{Text, Record, Document, new_document, build_index}
use dev_search.Document.Save.{Database, insert_inverted_index}

pub data IndexError : Type 0 where
  bad_record no_object not_saved : IndexError

-- `record_of` is `json.Unmarshal`, where `none` is an error, and `hex` the format `%x`. The others are the
-- parameters of `BuildIndex`.
pub record Index : Type 1 where
  pub obj : ObjectServer
  pub db : Database
  pub record_of : RawMessage → Option Record
  pub hex : ℕ → String
  pub is_letter_or_number : ℕ → Bool
  pub lower : ℕ → ℕ
  pub stem_string : Text → Text

pub record State (O D : Type 0) : Type 0 where
  pub objects : O
  pub rows : D
  pub stats : IndexerStats

abbrev pub Indexed : Index → Type 0
Indexed ix = State ix.obj.Store ix.db.Store

module _ (ix : Index) where
  open ix use {obj, db, record_of, hex, is_letter_or_number, lower, stem_string}

  abbrev pub indexed_as : Record → String → Document
  indexed_as page raw =
      build_index is_letter_or_number lower stem_string (new_document page) (codes raw)

  -- From the data on; `took` is the time that the save takes.
  unfoldable pub save : ℕ → Document → Indexed ix → Option IndexError × Indexed ix
  save took doc s =
      let (rows, okay) = insert_inverted_index db hex doc s.rows in
      if okay
      then (none, record s { rows = rows; stats = add_db_latency took s.stats })
      else (some not_saved, record s { rows = rows })

  unfoldable pub create_and_store_indexed_document :
      ℕ → RawMessage → Indexed ix → Option IndexError × Indexed ix
  create_and_store_indexed_document took payload s = elim (record_of payload) [
    | none ↦ (some bad_record, s)
    | some page ↦ elim (get_object obj (key_of_name page.text_object_key) s.objects) [
      | none ↦ (some no_object, s)
      | some raw ↦ save took (indexed_as page raw) s
    ]
  ]

  pub saved :
      (took : ℕ) (doc : Document) (s : Indexed ix)
      → (save took doc s).0 ≡ none
      → ((insert_inverted_index db hex doc s.rows).1 ≡ true)
        × ((save took doc s).1.rows ≡ (insert_inverted_index db hex doc s.rows).0)
        × ((save took doc s).1.objects ≡ s.objects)
  unfolding save
  saved took doc s done = elim (Bool-cases (insert_inverted_index db hex doc s.rows).1) [
    | inl okay ↦ rw (okay) (refl, refl, refl)
    | inr bad ↦ cc (rw (bad) at done)
  ]

  pub handled :
      (took : ℕ) (payload : RawMessage) (page : Record) (raw : String) (s : Indexed ix)
      → record_of payload ≡ some page
      → get_object obj (key_of_name page.text_object_key) s.objects ≡ some raw
      → create_and_store_indexed_document took payload s ≡ save took (indexed_as page raw) s
  unfolding create_and_store_indexed_document
  handled took payload page raw s read found =
      rw (read, create_and_store_indexed_document) (rw (found) refl)

  pub not_saved_twice :
      (took : ℕ) (doc : Document) (s : Indexed ix)
      → insert_inverted_index db hex doc s.rows ≡ (s.rows, false)
      → save took doc s ≡ (some not_saved, s)
  unfolding save
  not_saved_twice took doc s clash = rw (clash) refl
