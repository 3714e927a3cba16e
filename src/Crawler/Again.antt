-- ===== src/Crawler/Again.antt =====
-- A page whose text was seen: what a second run does with it.
use Prim.Native.String.{String}
use dev_search.Prelude.{
  ℕ, ◌^◌, ◌<◌, ◌≡◌, refl, true, Bool-cases, inl, inr, none, some, Option-cases, List-cases, List,
  map, arith,
}
use dev_search.Prelude.Text.{codes}
use dev_search.Prelude.Decimal.{text_of}
use dev_search.Simhash.{max_hamming_dist, sim_hash, is_near_duplicate, compute_hash}
use dev_search.Simhash.Index.{Stores}
use dev_search.Simhash.Fingerprint.{sim_hash-lt}
use dev_search.Simhash.Windows.{shingles_of_three}
use dev_search.Simhash.Contract.{is_near_duplicate_again}
use dev_search.Storage.{object_name, is_empty_name, ObjectKey, store_raw_data}
use dev_search.Cleaning.{source_html, clean_data, tokenize}
use dev_search.Worker.{increment_duplicate}
use dev_search.Parsing.{new_parse_payload}
use dev_search.Crawler.Handlers.{
  CrawlError, Env, Run, Crawl, fingerprint, queue_parse, store_page, keep_page,
}

-- `Shingles` does not panic at size 3, and a fingerprint has 64 bits.
pub fingerprint_total :
    (sum64 : String → ℕ) (cleaned : List ℕ)
    → (hash : ℕ) × (fingerprint sum64 cleaned ≡ some hash) × (hash < 2 ^ 64)
unfolding fingerprint
fingerprint_total sum64 cleaned =
    let (shs, e, l) = shingles_of_three (map text_of (tokenize cleaned)) in
    (sim_hash sum64 shs, rw (e) refl, sim_hash-lt sum64 shs)

module _ (env : Env) where
  open env use {net, reader, sum64, obj}

  queue_parse_index :
      (run : Run) (empty : CrawlError) (url : String) (name : ObjectKey) (hash : ℕ) (typ : String)
      (s : Crawl env)
      → (queue_parse env run empty url name hash typ s).1.index ≡ s.index
  unfolding queue_parse
  queue_parse_index run empty url name hash typ s =
      elim (Option-cases (net.marshal_payload (new_parse_payload (object_name name) hash typ))) [
        | inl bad ↦ rw (bad, queue_parse) refl
        | inr (payload, okay) ↦
            rw (okay, queue_parse)
              (elim (List-cases (codes payload)) [
                | inl e ↦ rw (e) refl
                | inr (c, cs, e) ↦ rw (e) refl
              ])
      ]

  store_page_index :
      (run : Run) (url : String) (body : List ℕ) (hash : ℕ) (s : Crawl env)
      → (store_page env run url body hash s).1.index ≡ s.index
  unfolding store_page
  store_page_index run url body hash s =
      elim (Option-cases (store_raw_data obj (text_of body) url "html" hash s.objects).0) [
        | inl bad ↦ rw (bad, store_page) refl
        | inr (key, okay) ↦
            rw (okay, store_page)
              (elim (Bool-cases (is_empty_name key)) [
                | inl empty ↦ rw (empty) refl
                | inr named ↦ rw (named) (queue_parse_index run _ url key hash "html" _)
              ])
      ]

  keep_page_index :
      (run : Run) (url : String) (body cleaned : List ℕ) (hash : ℕ) (s : Crawl env)
      → clean_data reader body source_html ≡ some cleaned
      → fingerprint sum64 cleaned ≡ some hash
      → (keep_page env run url body s).1.index ≡ (is_near_duplicate s.index hash max_hamming_dist).0
  unfolding keep_page
  keep_page_index run url body cleaned hash s good print =
      rw (good, keep_page)
        (rw (print) (elim (Bool-cases (is_near_duplicate s.index hash max_hamming_dist).1) [
          | inl dup ↦ rw (dup) refl
          | inr new ↦
              rw (new) (store_page_index run url body (compute_hash sum64 (text_of cleaned)) _)
        ]))

  keep_page_duplicate :
      (run : Run) (url : String) (body cleaned : List ℕ) (hash : ℕ) (s : Crawl env)
      → clean_data reader body source_html ≡ some cleaned
      → fingerprint sum64 cleaned ≡ some hash
      → is_near_duplicate s.index hash max_hamming_dist ≡ (s.index, true)
      → keep_page env run url body s ≡ (none, record s { stats = increment_duplicate s.stats })
  unfolding keep_page
  keep_page_duplicate run url body cleaned hash s good print dup =
      rw (good, keep_page) (rw (print) (rw (dup) refl))

  -- Of the part of `FetchAndStoreRaw` from the fetched body on, with an index that stores 64-bit fingerprints:
  -- when a body is cleaned without an error, then after the run a second run with the same body returns nil
  -- and changes nothing but the count of duplicates. This holds however the first run ended, also when it
  -- could not store the page or queue its parse job.
  pub keep_page_again :
      (first again : Run) (url later_url : String) (body cleaned : List ℕ) {hs : List ℕ}
      (s : Crawl env)
      → Stores s.index hs
      → clean_data reader body source_html ≡ some cleaned
      → keep_page env again later_url body (keep_page env first url body s).1 ≡ (
        none,
        record (keep_page env first url body s).1 {
          stats = increment_duplicate (keep_page env first url body s).1.stats;
        },
      )
  keep_page_again first again url later_url body cleaned {hs} s st good =
      let (hash, print, small) = fingerprint_total sum64 cleaned in
      let seen = keep_page_index first url body cleaned hash s good print in
      keep_page_duplicate again later_url body cleaned hash (keep_page env first url body s).1 good
        print (rw (seen) (is_near_duplicate_again hash max_hamming_dist st small (omega arith)))
