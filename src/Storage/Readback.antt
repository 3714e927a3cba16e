-- ===== src/Storage/Readback.antt =====
-- What is read of what was stored.
use Prim.Native.String.{String}
use dev_search.Prelude.{ℕ, ◌≡◌, ◌≢◌, Bool-cases, inl, inr, some}
use dev_search.Prelude.Text.{string_discrete}
use dev_search.Storage.{
  ObjectKey, md_object, html_object, text_object, ObjectServer, raw_key, raw_type, store_raw_data,
  store_text_data, get_object,
}

raw_key-ne : (typ : String) (hash other : ℕ) → text_object other ≢ raw_key typ hash
raw_key-ne typ hash other = by_type (string_discrete typ "github")
  where
    by_type :
        (d : Dec (typ ≡ "github"))
        → text_object other ≢ (elim d [ yes e ↦ md_object hash | no ne ↦ html_object hash ])
    by_type (yes e) h = cc
    by_type (no ne) h = cc

module _ (r : ObjectServer) where
  open r use {Store, content, put, get, put_content, put_other, get_content}

  -- A page that `StoreRawData` stored under a name is what `GetObject` reads under that name, if it reads
  -- anything, also when the text of a page was stored in between, whatever the hashes.
  pub get_object-store_raw_data :
      (raw url typ text read : String) (hash other : ℕ) (name : ObjectKey) (s : Store)
      → (store_raw_data r raw url typ hash s).0 ≡ some name
      → get_object r name (store_text_data r text other (store_raw_data r raw url typ hash s).1).0
        ≡ some read
      → read ≡ raw
  unfolding store_raw_data store_text_data get_object
  get_object-store_raw_data raw url typ text read hash other name s stored found =
      elim (Bool-cases (put (raw_key typ hash) raw (raw_type typ) s).1) [
        | inl okay ↦
            let t = (put (raw_key typ hash) raw (raw_type typ) s).0 in
            let here : raw_key typ hash ≡ name = cc (rw (okay) at stored) in
            let kept =
              put_other (text_object other) (raw_key typ hash) text "text" t
                (raw_key-ne typ hash other) in
            let got =
              get_content (raw_key typ hash) (put (text_object other) text "text" t).0 read
                (rw (← here) at found) in
            cc (got, kept, put_content (raw_key typ hash) raw (raw_type typ) s okay)
        | inr bad ↦ cc (rw (bad) at stored)
      ]
