-- ===== src/Storage.antt =====
-- internal/storage/minioStore.go: the object store. The formats of the object names are the constructors of
-- `ObjectKey`. What MinIO documents is the interface `ObjectServer`, of one bucket.
mod Readback
pub mod Memory
pub mod Names
use Prim.Native.String.{String}
use dev_search.Prelude.{ℕ, ◌≡◌, ◌≢◌, Bool, true, false, Option, none, some, ◌++◌, if◌then◌else◌}
use dev_search.Prelude.Text.{codes, string_discrete}
use dev_search.Prelude.Decimal.{text_of, decimal}

-- `md/%d.md`, `html/%d.html`, `text/%d`, and any other name.
pub data ObjectKey : Type 0 where
  md_object html_object text_object : ℕ → ObjectKey
  named : String → ObjectKey

-- `put` and `make_bucket` also say whether they succeeded; `none` is an error. An object is written under its
-- own name only.
pub record ObjectServer : Type 1 where
  pub Store : Type 0
  pub content : Store → ObjectKey → Option String
  pub put : ObjectKey → String → String → Store → Store × Bool
  pub get : ObjectKey → Store → Option String
  pub bucket_exists : Store → Option Bool
  pub make_bucket : Store → Store × Bool
  pub put_content :
      (k : ObjectKey) (raw content_type : String) (s : Store)
      → (put k raw content_type s).1 ≡ true
      → content (put k raw content_type s).0 k ≡ some raw
  pub put_other :
      (k j : ObjectKey) (raw content_type : String) (s : Store)
      → k ≢ j
      → content (put k raw content_type s).0 j ≡ content s j
  pub get_content :
      (k : ObjectKey) (s : Store) (raw : String) → get k s ≡ some raw → content s k ≡ some raw

abbrev pub raw_key : String → ℕ → ObjectKey
raw_key typ hash = elim (string_discrete typ "github") [
  | yes e ↦ md_object hash
  | no ne ↦ html_object hash
]

abbrev pub raw_type : String → String
raw_type typ = elim (string_discrete typ "github") [ yes e ↦ "text/markdown" | no ne ↦ "text/html" ]

-- `key == ""`
abbrev pub is_empty_name : ObjectKey → Bool
is_empty_name (named name) = elim (string_discrete name "") [ yes e ↦ true | no ne ↦ false ]
is_empty_name name = false

abbrev pub object_name : ObjectKey → String
object_name (md_object hash) = text_of (codes "md/" ++ (decimal hash ++ codes ".md"))
object_name (html_object hash) = text_of (codes "html/" ++ (decimal hash ++ codes ".html"))
object_name (text_object hash) = text_of (codes "text/" ++ decimal hash)
object_name (named name) = name

module _ (r : ObjectServer) where
  open r use {Store, put, get, bucket_exists, make_bucket}

  -- The store after the call, and whether it returns nil.
  unfoldable pub ensure_bucket : Store → Store × Bool
  ensure_bucket s = elim (bucket_exists s) [
    | none ↦ (s, false)
    | some true ↦ (s, true)
    | some false ↦ make_bucket s
  ]

  -- `none` is the error, with an empty name.
  unfoldable pub store_raw_data : String → String → String → ℕ → Store → Option ObjectKey × Store
  store_raw_data raw url typ hash s =
      let (t, okay) = put (raw_key typ hash) raw (raw_type typ) s in
      (if okay then some (raw_key typ hash) else none, t)

  unfoldable pub store_text_data : String → ℕ → Store → Store × Bool
  store_text_data text hash s = put (text_object hash) text "text" s

  -- `none` is an error, of the call or of the read.
  unfoldable pub get_object : ObjectKey → Store → Option String
  get_object name s = get name s
