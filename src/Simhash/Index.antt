-- ===== src/Simhash/Index.antt =====
-- The index of fingerprints: `IsNearDuplicate` finds a stored fingerprint within distance 3 exactly when
-- there is one, although it looks at four buckets only.
use Prim.Native.Nat.{bit_xor}
use dev_search.Prelude.{
  ℕ, ◌^◌, ◌≤◌, ◌<◌, ◌≡◌, ◌↔◌, inl, inr, refl, true, ◌||◌, ◌&&◌, List, [], ◌∷◌, ◌++◌, arith, ◌==◌,
  Bool-cases, if◌then◌else◌,
}
use dev_search.Prelude.Bits.{popcount}
use dev_search.Simhash.{
  SimhashIndex, Table, within, part_fns, parts_of, contains, collect, candidates, any_within,
  append_all, push, add, is_near_duplicate, partition_hash, new_sim_index,
}
use dev_search.Simhash.Distance.{agrees, some_part_agrees, within_lem}

-- Each table files the fingerprints of hs, and no others, under its part.
abbrev pub Files : List (ℕ → ℕ) → List Table → List ℕ → Type 0
Files [] [] hs = Unit {0}
Files [] (b ∷ bs) hs = ⊥
Files (f ∷ fs) [] hs = ⊥
Files (f ∷ fs) (b ∷ bs) hs =
    ((k h : ℕ) → contains (b k) h ≡ (contains hs h && f h == k)) × Files fs bs hs

abbrev pub Words : List ℕ → Type 0
Words [] = Unit {0}
Words (h ∷ hs) = (h < 2 ^ 64) × Words hs

-- The index holds the 64-bit fingerprints hs.
pub record Stores (idx : SimhashIndex) (hs : List ℕ) : Type 0 where
  pub files : Files part_fns idx.buckets hs
  pub words : Words hs

contains-append :
    (xs ys : List ℕ) (h : ℕ) → contains (xs ++ ys) h ≡ (contains xs h || contains ys h)
contains-append [] ys h = refl
contains-append (x ∷ xs) ys h = ground (arith, contains-append xs ys h)

contains-collect :
    (seen xs : List ℕ) (h : ℕ) → contains (collect seen xs) h ≡ (contains seen h || contains xs h)
unfolding collect
contains-collect seen [] h = ground arith
contains-collect seen (x ∷ xs) h =
    ground (arith, contains-collect seen xs h, contains-collect (x ∷ seen) xs h)

contains-push :
    (f : ℕ → ℕ) (b : Table) (hs : List ℕ) (x k h : ℕ)
    → ((k h : ℕ) → contains (b k) h ≡ (contains hs h && f h == k))
    → contains (push b (f x) x k) h ≡ (contains (x ∷ hs) h && f h == k)
unfolding push
contains-push f b hs x k h all =
    ground (arith, contains-append (b (f x)) (x ∷ []) h, all (f x) h, all k h)

append_all-Files :
    (fs : List (ℕ → ℕ)) (bs : List Table) (hs : List ℕ) (x : ℕ)
    → Files fs bs hs
    → Files fs (append_all (parts_of fs x) bs x) (x ∷ hs)
unfolding append_all
append_all-Files [] [] hs x p = tt
append_all-Files [] (b ∷ bs) hs x p = elim p [ ]
append_all-Files (f ∷ fs) [] hs x p = elim p [ ]
append_all-Files (f ∷ fs) (b ∷ bs) hs x p =
    ((λ k h. contains-push f b hs x k h p.0), append_all-Files fs bs hs x p.1)

-- The candidates are the stored fingerprints that share a part.
contains-candidates :
    (fs : List (ℕ → ℕ)) (bs : List Table) (hs seen : List ℕ) (x h : ℕ)
    → Files fs bs hs
    → contains (candidates seen (parts_of fs x) bs) h
      ≡ (contains seen h || (contains hs h && agrees fs x h))
unfolding candidates
contains-candidates [] [] hs seen x h p = ground arith
contains-candidates [] (b ∷ bs) hs seen x h p = elim p [ ]
contains-candidates (f ∷ fs) [] hs seen x h p = elim p [ ]
contains-candidates (f ∷ fs) (b ∷ bs) hs seen x h p = ground (
  arith,
  contains-candidates fs bs hs (collect seen (b (f x))) x h p.1,
  contains-collect seen (b (f x)) h,
  p.0 (f x) h,
)

any_within-mem :
    (x d h : ℕ) (cs : List ℕ)
    → contains cs h ≡ true
    → within x h d ≡ true
    → any_within x d cs ≡ true
unfolding any_within
any_within-mem x d h [] m w = cc
any_within-mem x d h (c ∷ cs) m w = ground (arith, any_within-mem x d h cs)

any_within-find :
    (x d : ℕ) (cs : List ℕ)
    → any_within x d cs ≡ true
    → (h : ℕ) × (contains cs h ≡ true) × (within x h d ≡ true)
unfolding any_within
any_within-find x d [] e = cc
any_within-find x d (c ∷ cs) e = elim (Bool-cases (within x c d)) [
  | inl w ↦ (c, ground arith, w)
  | inr w ↦ let (h, m, v) = any_within-find x d cs (ground arith) in (h, ground arith, v)
]

pub Words-mem : (hs : List ℕ) (h : ℕ) → Words hs → contains hs h ≡ true → h < 2 ^ 64
Words-mem [] h w m = cc
Words-mem (x ∷ hs) h w m = ground (arith, Words-mem hs h)

-- The scan of the candidates finds a fingerprint within d exactly when some stored one is.
scan_iff :
    {idx : SimhashIndex} {hs : List ℕ} (x d : ℕ)
    → Stores idx hs
    → x < 2 ^ 64
    → d ≤ 3
    → (any_within x d (candidates [] (partition_hash x) idx.buckets) ≡ true)
      ↔ ((h : ℕ) × (contains hs h ≡ true) × (popcount 64 (bit_xor x h) ≤ d))
unfolding partition_hash
scan_iff {idx} {hs} x d st wx small = (found, scanned)
  where
    listed :
        (h : ℕ)
        → contains (candidates [] (parts_of part_fns x) idx.buckets) h
          ≡ (contains hs h && agrees part_fns x h)
    listed h = contains-candidates part_fns idx.buckets hs [] x h st.files

    found :
        any_within x d (candidates [] (parts_of part_fns x) idx.buckets) ≡ true
        → (h : ℕ) × (contains hs h ≡ true) × (popcount 64 (bit_xor x h) ≤ d)
    found e =
        let (h, m, w) = any_within-find x d (candidates [] (parts_of part_fns x) idx.buckets) e in
        let stored : contains hs h ≡ true = ground (arith, listed h) in
        (h, stored, ground (arith, within_lem x h d wx (Words-mem hs h st.words stored)))

    scanned :
        (h : ℕ) × (contains hs h ≡ true) × (popcount 64 (bit_xor x h) ≤ d)
        → any_within x d (candidates [] (parts_of part_fns x) idx.buckets) ≡ true
    scanned (h, m, near) =
        let agree : agrees part_fns x h ≡ true = some_part_agrees x h (omega arith) in
        any_within-mem x d h (candidates [] (parts_of part_fns x) idx.buckets)
          (ground (arith, listed h, agree))
          (ground (arith, within_lem x h d wx (Words-mem hs h st.words m)))

-- On an index that stores the fingerprints hs, and for a bound of at most 3, a page is reported as a near
-- duplicate exactly when some stored fingerprint differs from it in at most d binary digits.
pub is_near_duplicate_iff :
    {idx : SimhashIndex} {hs : List ℕ} (x d : ℕ)
    → Stores idx hs
    → x < 2 ^ 64
    → d ≤ 3
    → ((is_near_duplicate idx x d).1 ≡ true)
      ↔ ((h : ℕ) × (contains hs h ≡ true) × (popcount 64 (bit_xor x h) ≤ d))
unfolding is_near_duplicate
is_near_duplicate_iff {idx} {hs} x d st wx small =
    let scan = scan_iff x d st wx small in
    ((λ e. scan.0 (ground arith)), λ near. ground (arith, scan.1 near))

pub new_sim_index-Stores : Stores new_sim_index []
unfolding new_sim_index
new_sim_index-Stores = record {
  files = ((λ k h. refl), ((λ k h. refl), ((λ k h. refl), ((λ k h. refl), tt))));
  words = tt;
}

-- `Add` stores one more fingerprint.
pub add-Stores :
    {idx : SimhashIndex} {hs : List ℕ} (x : ℕ)
    → Stores idx hs
    → x < 2 ^ 64
    → Stores (add idx x) (x ∷ hs)
unfolding add partition_hash
add-Stores {idx} {hs} x st wx = record {
  files = append_all-Files part_fns idx.buckets hs x st.files;
  words = (wx, st.words);
}

-- `IsNearDuplicate` stores the fingerprint of a page that is no near duplicate, and nothing else.
pub is_near_duplicate-Stores :
    {idx : SimhashIndex} {hs : List ℕ} (x d : ℕ)
    → Stores idx hs
    → x < 2 ^ 64
    → Stores (is_near_duplicate idx x d).0 (if (is_near_duplicate idx x d).1 then hs else x ∷ hs)
unfolding is_near_duplicate add
is_near_duplicate-Stores {idx} {hs} x d st wx =
    elim (Bool-cases (any_within x d (candidates [] (partition_hash x) idx.buckets))) [
      | inl dup ↦ rw dup st
      | inr new ↦ rw new (add-Stores x st wx)
    ]
