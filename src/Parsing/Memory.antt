-- ===== src/Parsing/Memory.antt =====
-- Metadata of URLs in memory, on which no command fails: it shows that what is assumed of the server can hold.
-- Its keys do not expire.
use dev_search.Prelude.{
  ℕ, arith, ◌≡◌, ◌≢◌, refl, Bool, true, false, Bool-cases, inl, inr, Option, none, some, List,
  if◌then◌else◌,
}
use dev_search.Prelude.Strings.{same_text, same_text_sound, same_text_refl}
use dev_search.Parsing.Links.{MetaText, MetaServer}

abbrev pub Metas : Type 0
Metas = List ℕ → Option MetaText

abbrev pub write : List ℕ → MetaText → Metas → Metas
write key text s other = if same_text key other then some text else s other

write_self : (key : List ℕ) (text : MetaText) (s : Metas) → write key text s key ≡ some text
write_self key text s = rw (same_text_refl key) refl

pub write_other :
    (key : List ℕ) (text : MetaText) (s : Metas) (other : List ℕ)
    → key ≢ other
    → write key text s other ≡ s other
write_other key text s other ne = elim (Bool-cases (same_text key other)) [
  | inl e ↦ absurd (ne (same_text_sound key other e))
  | inr e ↦ rw (e) refl
]

pub write_known : (key : List ℕ) (text : MetaText) (s : Metas) → write key text s key ≢ none
write_known key text s e = cc (write_self key text s, e)

-- SETNX after the answer to its look at the key.
abbrev pub fill : Option MetaText → List ℕ → MetaText → Metas → Metas × Option Bool
fill none key text s = (write key text s, some true)
fill (some old) key text s = (s, some false)

pub fill_added :
    (o : Option MetaText) (key : List ℕ) (text : MetaText) (s : Metas)
    → (fill o key text s).1 ≡ some true
    → (o ≡ none) × ((fill o key text s).0 key ≡ some text)
fill_added none key text s e = (refl, write_self key text s)
fill_added (some old) key text s e = ground arith

pub fill_refused :
    (o : Option MetaText) (key : List ℕ) (text : MetaText) (s : Metas)
    → (fill o key text s).1 ≡ some false
    → (o ≢ none) × ((fill o key text s).0 ≡ s)
fill_refused none key text s e = ground arith
fill_refused (some old) key text s e = ((λ h. cc), refl)

pub fill_other :
    (o : Option MetaText) (key : List ℕ) (text : MetaText) (s : Metas) (other : List ℕ)
    → key ≢ other
    → (fill o key text s).0 other ≡ s other
fill_other none key text s other ne = write_other key text s other ne
fill_other (some old) key text s other ne = refl

pub same_answer : (a b : Option MetaText) → some a ≡ some b → a ≡ b
same_answer a b e = cc

abbrev pub meta_memory : MetaServer
meta_memory = record {
  Store = Metas;
  lookup = λ s key. s key;
  set_nx = λ key text expiry s. fill (s key) key text s;
  get = λ key s. some (s key);
  set = λ key text expiry s. (write key text s, true);
  set_nx_added = λ key text s e. fill_added (s key) key text s e;
  set_nx_refused = λ key text s e. fill_refused (s key) key text s e;
  set_nx_other = λ key text s other ne. fill_other (s key) key text s other ne;
  get_lookup = λ key s answer e. same_answer (s key) answer e;
  set_text = λ key text s known. write_known key text s;
  set_other = λ key text s other ne. write_other key text s other ne;
}

pub meta_memory-answers :
    (key : List ℕ) (text : MetaText) (s : Metas) → (meta_memory.set_nx key text 0 s).1 ≢ none
meta_memory-answers key text s = answers (s key)
  where
    answers : (o : Option MetaText) → (fill o key text s).1 ≢ none
    answers none e = cc
    answers (some old) e = cc
