-- ===== src/Simhash/Separation.antt =====
-- What a run of `IsNearDuplicate` over a stream of pages lets through.
use Prim.Native.Nat.{bit_xor}
use dev_search.Prelude.{
  ℕ, ◌^◌, ◌≤◌, ◌<◌, ◌≡◌, true, false, List, [], ◌∷◌, arith, Bool-cases, if◌then◌else◌, inl, inr,
  ℕ_discrete, dec_lt,
}
use dev_search.Prelude.Bits.{popcount, popcount-zero, bit_xor_self}
use dev_search.Simhash.{SimhashIndex, contains, is_near_duplicate, new_sim_index, max_hamming_dist}
use dev_search.Simhash.Index.{
  Stores, Words, is_near_duplicate_iff, is_near_duplicate-Stores, new_sim_index-Stores,
}

-- The fingerprints that a run of queries lets through, the latest first.
unfoldable pub screen : SimhashIndex → List ℕ → List ℕ → List ℕ
screen idx kept [] = kept
screen idx kept (x ∷ xs) =
    let (idx', dup) = is_near_duplicate idx x max_hamming_dist in
    screen idx' (if dup then kept else x ∷ kept) xs

abbrev pub FarFrom : ℕ → List ℕ → Type 0
FarFrom x [] = Unit {0}
FarFrom x (h ∷ hs) = (3 < popcount 64 (bit_xor x h)) × FarFrom x hs

FarFrom-of_all :
    (x : ℕ) (hs : List ℕ)
    → ((h : ℕ) → contains hs h ≡ true → 3 < popcount 64 (bit_xor x h))
    → FarFrom x hs
FarFrom-of_all x [] all = tt
FarFrom-of_all x (h ∷ hs) all =
    (all h (ground arith), FarFrom-of_all x hs (λ c m. all c (ground arith)))

-- Any two differ in more than 3 digits.
abbrev pub Apart : List ℕ → Type 0
Apart [] = Unit {0}
Apart (h ∷ hs) = FarFrom h hs × Apart hs

-- A fingerprint that `IsNearDuplicate` stores is apart from those stored before.
pub is_near_duplicate-Apart :
    (idx : SimhashIndex) (kept : List ℕ) (x : ℕ)
    → Stores idx kept
    → Apart kept
    → x < 2 ^ 64
    → Apart (if (is_near_duplicate idx x 3).1 then kept else x ∷ kept)
is_near_duplicate-Apart idx kept x st ap w = elim (Bool-cases (is_near_duplicate idx x 3).1) [
  | inl dup ↦ rw dup ap
  | inr new ↦ rw new (far new, ap)
]
  where
    far : (is_near_duplicate idx x 3).1 ≡ false → FarFrom x kept
    far new = FarFrom-of_all x kept λ h m. elim (dec_lt 3 (popcount 64 (bit_xor x h))) [
      | yes p ↦ p
      | no near ↦ cc ((is_near_duplicate_iff x 3 st w (omega arith)).1 (h, m, omega arith))
    ]

screen-Apart_from :
    (idx : SimhashIndex) (kept xs : List ℕ)
    → Stores idx kept
    → Apart kept
    → Words xs
    → Apart (screen idx kept xs)
unfolding screen
screen-Apart_from idx kept [] st ap w = ap
screen-Apart_from idx kept (x ∷ xs) st ap w =
    screen-Apart_from (is_near_duplicate idx x 3).0
      (if (is_near_duplicate idx x 3).1 then kept else x ∷ kept) xs
      (is_near_duplicate-Stores x 3 st w.0) (is_near_duplicate-Apart idx kept x st ap w.0) w.1

-- The index holds fingerprints of which any two differ in more than 3 digits.
abbrev pub Separated : SimhashIndex → Type 0
Separated idx = (hs : List ℕ) × Stores idx hs × Apart hs

pub is_near_duplicate-Separated :
    (idx : SimhashIndex) (x : ℕ)
    → Separated idx
    → x < 2 ^ 64
    → Separated (is_near_duplicate idx x max_hamming_dist).0
is_near_duplicate-Separated idx x (hs, st, ap) w = (
  (if (is_near_duplicate idx x 3).1 then hs else x ∷ hs),
  is_near_duplicate-Stores x 3 st w,
  is_near_duplicate-Apart idx hs x st ap w,
)

screen-keeps :
    (idx : SimhashIndex) (kept xs : List ℕ) (h : ℕ)
    → contains kept h ≡ true
    → contains (screen idx kept xs) h ≡ true
unfolding screen
screen-keeps idx kept [] h m = m
screen-keeps idx kept (x ∷ xs) h m =
    screen-keeps (is_near_duplicate idx x 3).0
      (if (is_near_duplicate idx x 3).1 then kept else x ∷ kept) xs h (ground arith)

popcount-bit_xor_self : (x : ℕ) → x < 2 ^ 64 → popcount 64 (bit_xor x x) ≤ 3
popcount-bit_xor_self x h = rw (bit_xor_self 64 x h, popcount-zero) (omega arith)

-- A fingerprint of the result within 3 digits of x.
abbrev pub CoveredBy : List ℕ → ℕ → Type 0
CoveredBy hs x = (h : ℕ) × (contains hs h ≡ true) × (popcount 64 (bit_xor x h) ≤ 3)

screen-covers_head :
    (idx : SimhashIndex) (kept xs : List ℕ) (x : ℕ)
    → Stores idx kept
    → x < 2 ^ 64
    → CoveredBy (screen idx kept (x ∷ xs)) x
unfolding screen
screen-covers_head idx kept xs x st wx = elim (Bool-cases (is_near_duplicate idx x 3).1) [
  | inl dup ↦
      let (h, m, near) = (is_near_duplicate_iff x 3 st wx (omega arith)).0 dup in
      (h, rw dup (screen-keeps _ kept xs h m), near)
  | inr new ↦
      (x, rw new (screen-keeps _ (x ∷ kept) xs x (ground arith)), popcount-bit_xor_self x wx)
]

screen-covers_from :
    (idx : SimhashIndex) (kept xs : List ℕ) (x : ℕ)
    → Stores idx kept
    → Words xs
    → contains xs x ≡ true
    → CoveredBy (screen idx kept xs) x
unfolding screen
screen-covers_from idx kept [] x st w m = cc
screen-covers_from idx kept (y ∷ xs) x st w m = elim (ℕ_discrete x y) [
  | yes e ↦ rw e (screen-covers_head idx kept xs y st w.0)
  | no ne ↦
      screen-covers_from (is_near_duplicate idx y 3).0
        (if (is_near_duplicate idx y 3).1 then kept else y ∷ kept) xs x
        (is_near_duplicate-Stores y 3 st w.0) w.1 (ground arith)
]

-- Over any stream of 64-bit fingerprints, the pages that `IsNearDuplicate` lets through differ pairwise in
-- more than 3 binary digits.
pub screen-Apart : (xs : List ℕ) → Words xs → Apart (screen new_sim_index [] xs)
screen-Apart xs w = screen-Apart_from new_sim_index [] xs new_sim_index-Stores tt w

-- Each page of a stream of 64-bit fingerprints is within 3 binary digits of a page of the stream that is
-- let through.
pub screen-covers :
    (xs : List ℕ) (x : ℕ)
    → Words xs
    → contains xs x ≡ true
    → CoveredBy (screen new_sim_index [] xs) x
screen-covers xs x w m = screen-covers_from new_sim_index [] xs x new_sim_index-Stores w m
