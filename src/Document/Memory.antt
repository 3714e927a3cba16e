-- ===== src/Document/Memory.antt =====
-- A database in memory, the keys of inverted_index and the hashes and URLs of documents, which shows that what
-- is assumed of one can hold.
use Prim.Native.String.{String}
use native.Mathlib.Decide.{ℕ_discrete}
use dev_search.Prelude.{
  ℕ, ◌≡◌, ◌≢◌, ◌⊎◌, inl, inr, refl, sym, ap, subst, map, Bool, true, false, ◌||◌, Bool-cases,
  Option, none, some, List, [], ◌∷◌, if◌then◌else◌,
}
use dev_search.Prelude.Text.{string_discrete}
use dev_search.Redis.{In}
use dev_search.Redis.Memory.{member, member_iff}
use dev_search.Document.{Text, InvertedIndex, Record}
use dev_search.Document.Save.{Database}

abbrev pub Keys : Type 0
Keys = List (Text × String)

abbrev pub key_discrete : Discrete (Text × String)
key_discrete = hlevel (ℕ_discrete, string_discrete)

abbrev pub clashes : String → InvertedIndex → Keys → Bool
clashes hash [] keys = false
clashes hash ((term, n) ∷ rows) keys =
    member key_discrete (term, hash) keys || clashes hash rows keys

abbrev pub add_keys : String → InvertedIndex → Keys → Keys
add_keys hash [] keys = keys
add_keys hash ((term, n) ∷ rows) keys = (term, hash) ∷ add_keys hash rows keys

same_term : (t u : Text) (n m : ℕ) → ◌≡◌ {A = Text × ℕ} (t, n) (u, m) → t ≡ u
same_term t u n m e = ap (λ (p : Text × ℕ). p.0) e

clashes-In :
    (hash : String) (rows : InvertedIndex) (keys : Keys) (term : Text) (n : ℕ)
    → In (term, n) rows
    → In (term, hash) keys
    → clashes hash rows keys ≡ true
clashes-In hash [] keys term n i has = elim i [ ]
clashes-In hash ((t, m) ∷ rows) keys term n (inl e) has =
    rw
      ((member_iff key_discrete (t, hash) keys).1
        (subst (λ x. In (x, hash) keys) (same_term term t n m e) has))
      refl
clashes-In hash ((t, m) ∷ rows) keys term n (inr i) has =
    elim (Bool-cases (member key_discrete (t, hash) keys)) [
      | inl here ↦ rw (here) refl
      | inr there ↦ rw (there) (clashes-In hash rows keys term n i has)
    ]

pub add_keys-In :
    (hash : String) (rows : InvertedIndex) (keys : Keys) (term : Text) (n : ℕ)
    → In (term, n) rows
    → In (term, hash) (add_keys hash rows keys)
add_keys-In hash [] keys term n i = elim i [ ]
add_keys-In hash ((t, m) ∷ rows) keys term n (inl e) =
    inl (ap (λ x. (x, hash)) (same_term term t n m e))
add_keys-In hash ((t, m) ∷ rows) keys term n (inr i) = inr (add_keys-In hash rows keys term n i)

pub add_keys-keeps :
    (hash : String) (rows : InvertedIndex) (keys : Keys) (key : Text × String)
    → In key keys
    → In key (add_keys hash rows keys)
add_keys-keeps hash [] keys key i = i
add_keys-keeps hash ((t, m) ∷ rows) keys key i = inr (add_keys-keeps hash rows keys key i)

-- The rows of documents, each a hash and a URL.
pub record Tables : Type 0 where
  pub keys : Keys
  pub pages : List (String × String)

abbrev pub no_tables : Tables
no_tables = record { keys = []; pages = [] }

abbrev pub copy : String → InvertedIndex → Tables → Option Tables
copy hash rows t =
    if clashes hash rows t.keys then none else some (record t { keys = add_keys hash rows t.keys })

abbrev hash_of : String × String → String
hash_of (hash, url) = hash

abbrev url_of : String × String → String
url_of (hash, url) = url

abbrev has_hash : String → Tables → Bool
has_hash hash t = member string_discrete hash (map hash_of t.pages)

abbrev has_url : String → Tables → Bool
has_url url t = member string_discrete url (map url_of t.pages)

abbrev pub add_page : String → Record → Tables → Option Tables
add_page own page t =
    if has_hash own t
    then some t
    else if has_url page.url t
    then none
    else some (record t { pages = (own, page.url) ∷ t.pages })

find_hash :
    (hash : String) (pages : List (String × String))
    → In hash (map hash_of pages)
    → (url : String) × In (hash, url) pages
find_hash hash [] i = elim i [ ]
find_hash hash ((h, u) ∷ pages) (inl e) = (u, inl (ap (λ (x : String). (x, u)) e))
find_hash hash ((h, u) ∷ pages) (inr i) = let (url, j) = find_hash hash pages i in (url, inr j)

url_listed :
    (hash url : String) (pages : List (String × String))
    → In (hash, url) pages
    → In url (map url_of pages)
url_listed hash url [] i = elim i [ ]
url_listed hash url ((h, u) ∷ pages) (inl e) = inl (ap (λ (x : String × String). x.1) e)
url_listed hash url ((h, u) ∷ pages) (inr i) = inr (url_listed hash url pages i)

abbrev pub InPages : Tables → String → String → Type 0
InPages t hash url = In (hash, url) t.pages

pub add_page_adds :
    (t after : Tables) (page : Record) (own : String)
    → add_page own page t ≡ some after
    → InPages after own page.url ⊎ ((url : String) × InPages t own url)
add_page_adds t after page own e = elim (Bool-cases (has_hash own t)) [
  | inl old ↦
      inr (find_hash own t.pages ((member_iff string_discrete own (map hash_of t.pages)).0 old))
  | inr new ↦ elim (Bool-cases (has_url page.url t)) [
    | inl clash ↦ cc (rw (clash) at (rw (new) at e))
    | inr free ↦
        let same : record t { pages = (own, page.url) ∷ t.pages } ≡ after =
          cc (rw (free) at (rw (new) at e)) in
        inl (subst (λ (x : Tables). InPages x own page.url) same (inl refl))
  ]
]

pub add_page_refuses :
    (t : Tables) (page : Record) (own other : String)
    → InPages t other page.url
    → other ≢ own
    → ((url : String) → ¬ InPages t own url)
    → add_page own page t ≡ none
add_page_refuses t page own other there ne free = elim (Bool-cases (has_hash own t)) [
  | inl old ↦
      let (url, i) =
        find_hash own t.pages ((member_iff string_discrete own (map hash_of t.pages)).0 old) in
      absurd (free url i)
  | inr new ↦ rw (new) (
      rw
        ((member_iff string_discrete page.url (map url_of t.pages)).1
          (url_listed other page.url t.pages there))
        refl)
]

pub add_page_keeps :
    (t after : Tables) (page : Record) (own : String)
    → add_page own page t ≡ some after
    → after.keys ≡ t.keys
add_page_keeps t after page own e = elim (Bool-cases (has_hash own t)) [
  | inl old ↦ let same : t ≡ after = cc (rw (old) at e) in ap (λ (x : Tables). x.keys) (sym same)
  | inr new ↦ elim (Bool-cases (has_url page.url t)) [
    | inl clash ↦ cc (rw (clash) at (rw (new) at e))
    | inr free ↦
        let same : record t { pages = (own, page.url) ∷ t.pages } ≡ after =
          cc (rw (free) at (rw (new) at e)) in
        ap (λ (x : Tables). x.keys) (sym same)
  ]
]

pub copied :
    (t after : Tables) (rows : InvertedIndex) (hash : String)
    → copy hash rows t ≡ some after
    → (add_keys hash rows t.keys ≡ after.keys) × (t.pages ≡ after.pages)
copied t after rows hash e = elim (Bool-cases (clashes hash rows t.keys)) [
  | inl clash ↦ cc (rw (clash) at e)
  | inr fits ↦
      let same : record t { keys = add_keys hash rows t.keys } ≡ after = cc (rw (fits) at e) in
      (ap (λ (x : Tables). x.keys) same, ap (λ (x : Tables). x.pages) same)
]

pub copy_refuses :
    (t : Tables) (rows : InvertedIndex) (hash : String) (term : Text) (n : ℕ)
    → In (term, n) rows
    → In (term, hash) t.keys
    → copy hash rows t ≡ none
copy_refuses t rows hash term n i has = rw (clashes-In hash rows t.keys term n i has) refl

pub same_tables : (t after : Tables) → some t ≡ some after → t ≡ after
same_tables t after e = cc

abbrev pub tables : Database
tables = record {
  Store = Tables;
  Tx = Tables;
  Stored = λ s term hash. In (term, hash) s.keys;
  HasRow = λ tx term hash. In (term, hash) tx.keys;
  begin = λ s. some s;
  insert_document = add_page;
  copy_from = copy;
  commit = λ tx s. (tx, true);
  Page = InPages;
  HasPage = InPages;
  begin_pages = λ s tx hash url e. rw (same_tables s tx e) ((λ i. i), λ i. i);
  insert_page = λ tx after page own e. add_page_adds tx after page own e;
  insert_clash =
      λ tx page own other there ne free. add_page_refuses tx page own other there ne free;
  copy_pages = λ tx after rows hash own url e i.
      subst (λ (l : List (String × String)). In (own, url) l) (copied tx after rows hash e).1 i;
  commit_pages = λ tx s hash url e i. i;
  begin_sees =
      λ s tx term hash e i. subst (λ (x : Tables). In (term, hash) x.keys) (same_tables s tx e) i;
  insert_keeps = λ tx after page term hash own e i.
      subst (λ (l : Keys). In (term, hash) l) (sym (add_page_keeps tx after page own e)) i;
  copy_adds = λ tx after rows hash term n e i.
      subst (λ (l : Keys). In (term, hash) l) (copied tx after rows hash e).0
        (add_keys-In hash rows tx.keys term n i);
  copy_clash = copy_refuses;
  copy_keeps = λ tx after rows own term hash e i.
      subst (λ (l : Keys). In (term, hash) l) (copied tx after rows own e).0
        (add_keys-keeps own rows tx.keys (term, hash) i);
  commit_failed = λ tx s term hash e i. cc;
  commit_stores = λ tx s term hash e i. i;
}
