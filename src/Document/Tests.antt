-- ===== src/Document/Tests.antt =====
-- A run of the index, and the theorems at that input. The tests take ASCII letters and digits, and a stemmer
-- that drops a last `s`.
use Prim.Native.String.{String}
use dev_search.Prelude.{
  inl, inr, ap, sym, true, false, some, List, ℕ, ◌+◌, ◌≡◌, refl, Bool, ◌&&◌, ◌||◌, [], ◌∷◌, leb,
  ◌==◌, if◌then◌else◌,
}
use dev_search.Prelude.Int.{pos}
use dev_search.Prelude.Text.{codes, string_discrete}
use dev_search.Prelude.Strings.{same_text}
use dev_search.Document.{
  Text, is_stopword, byte_length, increment, Document, Record, new_record, new_document, fields,
  tokenize, cleaned, stemmer, index_word, index_words, build_index,
}
use dev_search.Document.Counts.{freq, occurrences, freq-build_index}
use dev_search.Document.Memory.{tables, no_tables}
use dev_search.Document.Handler.{Index, Indexed, not_saved, save, create_and_store_indexed_document}
use dev_search.Document.Again.{handle_all, create_and_store_twice}
use dev_search.Indexer.{no_stats}
use dev_search.Queue.{RawMessage}
use dev_search.Storage.{html_object, object_name, get_object}
use dev_search.Storage.Memory.{objects}
use dev_search.Document.Save.{copy_rows, insert_inverted_index}
use dev_search.Document.Changed.{insert_inverted_index_changed}
use dev_search.Document.Terms.{IsValid, build_index-IsValid}

abbrev pub ascii : ℕ → Bool
ascii c = (leb 97 c && leb c 122) || (leb 65 c && leb c 90) || (leb 48 c && leb c 57)

abbrev pub ascii_lower : ℕ → ℕ
ascii_lower c = if leb 65 c && leb c 90 then c + 32 else c

abbrev pub singular : Text → Text
singular [] = []
singular (c ∷ []) = if c == 115 then [] else c ∷ []
singular (c ∷ d ∷ cs) = let rest = singular (d ∷ cs) in c ∷ rest

abbrev page : Document
page = new_document (new_record 7 "https://go.dev" "Go" "" "text/7" (pos 0))

abbrev words : Text
words = codes "The maps, map & Go"

indexed :
    (build_index ascii ascii_lower singular page words).inverted_index
    ≡ (codes "map", 2) ∷ (codes "go", 1) ∷ []
unfolding build_index index_words index_word is_stopword same_text byte_length increment stemmer
    cleaned tokenize fields new_document
indexed = refl

freq-build_index_example :
    freq (codes "map") (build_index ascii ascii_lower singular page words).inverted_index
    ≡ freq (codes "map") page.inverted_index
      + occurrences ascii ascii_lower singular (codes "map") (tokenize ascii words)
freq-build_index_example = freq-build_index ascii ascii_lower singular page words (codes "map")

build_index-IsValid_example :
    IsValid (build_index ascii ascii_lower singular page words).inverted_index
unfolding new_document
build_index-IsValid_example = build_index-IsValid ascii ascii_lower singular page words tt

abbrev counted : Document
counted = record { page = page.page; inverted_index = (codes "map", 2) ∷ (codes "go", 1) ∷ [] }

-- An index whose every message has the record of the page 9, and where every object is one text.
abbrev pub page_nine : Record
page_nine = new_record 9 "https://go.dev" "Go" "" (object_name (html_object 9)) (pos 0)

abbrev pub index : Index
index = record {
  obj = objects;
  db = tables;
  record_of = λ payload. some page_nine;
  hex = λ id. "9";
  is_letter_or_number = ascii;
  lower = ascii_lower;
  stem_string = singular;
}

abbrev before : Indexed index
before = record { objects = λ key. some "maps"; rows = no_tables; stats = no_stats }

-- Another message is handled before the first one comes again.
abbrev between : List (ℕ × RawMessage)
between = (3, RawMessage.json "[]") ∷ []

create_and_store_twice_example :
    create_and_store_indexed_document index 6 (RawMessage.json "{}") (
      handle_all index between
        (create_and_store_indexed_document index 5 (RawMessage.json "{}") before).1)
    ≡ (
      some not_saved,
      handle_all index between
          (create_and_store_indexed_document index 5 (RawMessage.json "{}") before).1,
    )
unfolding create_and_store_indexed_document save get_object insert_inverted_index copy_rows
    new_record build_index index_words index_word is_stopword same_text byte_length increment
    stemmer cleaned tokenize fields new_document
create_and_store_twice_example =
    create_and_store_twice index 5 6 (RawMessage.json "{}") page_nine "maps" (codes "map") 1 before
      between refl refl (inl refl) refl

-- The same URL with another text.
abbrev changed : Document
changed = record {
  page = new_record 8 "https://go.dev" "Go" "" (object_name (html_object 8)) (pos 0);
  inverted_index = (codes "map", 1) ∷ [];
}

abbrev first : Document
first = record { page = page_nine; inverted_index = (codes "map", 2) ∷ [] }

abbrev hex_of : ℕ → String
hex_of id = if id == 9 then "9" else "8"

abbrev is_yes : {A : Type 0} → Dec A → Bool
is_yes (yes a) = true
is_yes (no na) = false

nine :
    {h u k v : String}
    → ◌≡◌ {A = String × String} (h, u) (k, v)
    → is_yes (string_discrete h "9") ≡ is_yes (string_discrete k "9")
nine e = ap (λ (x : String × String). is_yes (string_discrete x.0 "9")) e

apart : true ≡ false → ⊥
apart e = cc

insert_inverted_index_changed_example :
    insert_inverted_index tables hex_of changed
      (insert_inverted_index tables hex_of first no_tables).0
    ≡ ((insert_inverted_index tables hex_of first no_tables).0, false)
unfolding insert_inverted_index copy_rows new_record
insert_inverted_index_changed_example =
    insert_inverted_index_changed tables hex_of first changed no_tables (λ url i. i) refl refl
      (λ e. apart (ap (λ (x : String). is_yes (string_discrete x "9")) e))
      (λ url i. elim i [ inl e ↦ apart (sym (nine e)) | inr j ↦ j ])
