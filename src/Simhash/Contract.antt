-- ===== src/Simhash/Contract.antt =====
-- What the index promises its callers: it answers as a list of fingerprints that is searched in full.
use Prim.Native.Nat.{bit_xor}
use dev_search.Prelude.{
  ℕ, ◌^◌, ◌≤◌, ◌<◌, ◌≡◌, ◌↔◌, refl, ap₂, Bool, true, false, ◌||◌, List, [], ◌∷◌, arith, leb,
  Bool-cases, if◌then◌else◌, inl, inr,
}
use dev_search.Prelude.Bits.{popcount, popcount-zero, bit_xor_self}
use dev_search.Simhash.{
  SimhashIndex, contains, candidates, any_within, partition_hash, is_near_duplicate, new_sim_index,
}
use dev_search.Simhash.Index.{
  Stores, Words, is_near_duplicate_iff, is_near_duplicate-Stores, new_sim_index-Stores,
}

-- Whether a fingerprint of the list differs from x in at most d digits.
abbrev pub near_any : ℕ → ℕ → List ℕ → Bool
near_any x d [] = false
near_any x d (h ∷ hs) = leb (popcount 64 (bit_xor x h)) d || near_any x d hs

near_any_iff :
    (x d : ℕ) (hs : List ℕ)
    → (near_any x d hs ≡ true)
      ↔ ((h : ℕ) × (contains hs h ≡ true) × (popcount 64 (bit_xor x h) ≤ d))
near_any_iff x d hs = (found hs, λ (h, m, near). scanned hs h m near)
  where
    found :
        (hs : List ℕ)
        → near_any x d hs ≡ true
        → (h : ℕ) × (contains hs h ≡ true) × (popcount 64 (bit_xor x h) ≤ d)
    found [] e = cc
    found (g ∷ hs) e = elim (Bool-cases (leb (popcount 64 (bit_xor x g)) d)) [
      | inl here ↦ (g, ground arith, ground arith)
      | inr far ↦ let (h, m, near) = found hs (ground arith) in (h, ground arith, near)
    ]

    scanned :
        (hs : List ℕ) (h : ℕ)
        → contains hs h ≡ true
        → popcount 64 (bit_xor x h) ≤ d
        → near_any x d hs ≡ true
    scanned [] h m near = cc
    scanned (g ∷ hs) h m near = ground (arith, scanned hs h)

bool_eq : (a b : Bool) → (a ≡ true) ↔ (b ≡ true) → a ≡ b
bool_eq true b h = ground (arith, h.0 refl)
bool_eq false true h = h.1 refl
bool_eq false false h = refl

is_near_duplicate-near_any :
    {idx : SimhashIndex} {hs : List ℕ} (x d : ℕ)
    → Stores idx hs
    → x < 2 ^ 64
    → d ≤ 3
    → (is_near_duplicate idx x d).1 ≡ near_any x d hs
is_near_duplicate-near_any {idx} {hs} x d st wx small =
    let near = is_near_duplicate_iff x d st wx small in
    let any = near_any_iff x d hs in bool_eq _ _ ((λ e. any.1 (near.0 e)), λ e. near.1 (any.0 e))

-- The answers of the index to a run of queries.
unfoldable pub answers : SimhashIndex → ℕ → List ℕ → List Bool
answers idx d [] = []
answers idx d (x ∷ xs) = let (idx', dup) = is_near_duplicate idx x d in dup ∷ answers idx' d xs

-- The answers that the fingerprints alone determine.
abbrev pub expected : List ℕ → ℕ → List ℕ → List Bool
expected kept d [] = []
expected kept d (x ∷ xs) =
    let dup = near_any x d kept in dup ∷ expected (if dup then kept else x ∷ kept) d xs

answers-expected_from :
    (idx : SimhashIndex) (kept : List ℕ) (d : ℕ) (xs : List ℕ)
    → Stores idx kept
    → d ≤ 3
    → Words xs
    → answers idx d xs ≡ expected kept d xs
unfolding answers
answers-expected_from idx kept d [] st small w = refl
answers-expected_from idx kept d (x ∷ xs) st small w =
    let same = is_near_duplicate-near_any x d st w.0 small in
    ap₂ (λ b bs. b ∷ bs) same
      (answers-expected_from (is_near_duplicate idx x d).0
        (if near_any x d kept then kept else x ∷ kept) d xs
        (rw (← same) (is_near_duplicate-Stores x d st w.0)) small w.1)

-- To any run of queries with 64-bit fingerprints and a bound of at most 3, a new index gives the answers of a
-- plain list of the fingerprints let through so far that is searched in full: the buckets are not seen.
pub answers-expected :
    (d : ℕ) (xs : List ℕ) → d ≤ 3 → Words xs → answers new_sim_index d xs ≡ expected [] d xs
answers-expected d xs small w =
    answers-expected_from new_sim_index [] d xs new_sim_index-Stores small w

duplicate_stays :
    (idx : SimhashIndex) (x d : ℕ)
    → (is_near_duplicate idx x d).1 ≡ true
    → is_near_duplicate idx x d ≡ (idx, true)
unfolding is_near_duplicate
duplicate_stays idx x d e =
    elim (Bool-cases (any_within x d (candidates [] (partition_hash x) idx.buckets))) [
      | inl dup ↦ rw (dup) refl
      | inr new ↦ cc (rw (new) at e)
    ]

-- A 64-bit fingerprint that was looked up once is a duplicate from then on, for any bound of at most 3, and
-- then the lookup does not change the index.
pub is_near_duplicate_again :
    {idx : SimhashIndex} {hs : List ℕ} (x d : ℕ)
    → Stores idx hs
    → x < 2 ^ 64
    → d ≤ 3
    → is_near_duplicate (is_near_duplicate idx x d).0 x d ≡ ((is_near_duplicate idx x d).0, true)
is_near_duplicate_again {idx} {hs} x d st wx small =
    elim (Bool-cases (is_near_duplicate idx x d).1) [
      | inl dup ↦ rw (duplicate_stays idx x d dup) (duplicate_stays idx x d dup)
      | inr new ↦
          let st' : Stores (is_near_duplicate idx x d).0 (x ∷ hs) =
            stored new (is_near_duplicate-Stores x d st wx) in
          duplicate_stays _ x d (
            (is_near_duplicate_iff x d st' wx small).1
              (x, ground arith, rw (bit_xor_self 64 x wx, popcount-zero) (omega arith)))
    ]
  where
    stored :
        {b : Bool}
        → b ≡ false
        → Stores (is_near_duplicate idx x d).0 (if b then hs else x ∷ hs)
        → Stores (is_near_duplicate idx x d).0 (x ∷ hs)
    stored e st = rw (e) at st
