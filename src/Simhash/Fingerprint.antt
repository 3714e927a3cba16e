-- ===== src/Simhash/Fingerprint.antt =====
-- `SimHash`: each digit of a fingerprint is the majority vote of the shingles' hashes.
use Prim.Native.String.{String}
use native.Mathlib.Nat.{pow-suc, add-zero, zero-add}
use dev_search.Prelude.{
  ℕ, zero, suc, ◌+◌, ◌*◌, ◌/◌, ◌%◌, ◌^◌, ◌<◌, ◌≡◌, ◌↔◌, List, [], ◌∷◌, arith, Bool-cases,
  if◌then◌else◌, inl, inr, subst, ap, ◌∙◌, refl, length, get_or, replicate, ltb,
}
use dev_search.Prelude.Bits.{bit_and-one, bit_or-pow, div-two-pow-suc}
use dev_search.Prelude.Int.{ℤ, pos, negsuc, ltb_ℤ, pos_part, neg_part, +ℤ_parts}
use dev_search.Simhash.{vote, vote_all, threshold, sim_hash}

-- The number with the digits `v > 0`, lowest first.
signs : List ℤ → ℕ
signs [] = 0
signs (v ∷ vs) = (if ltb_ℤ (pos 0) v then 1 else 0) + 2 * signs vs

threshold_lem : (i fp : ℕ) (vs : List ℤ) → fp < 2 ^ i → threshold i fp vs ≡ fp + 2 ^ i * signs vs
unfolding threshold signs
threshold_lem i fp [] h = ground arith
threshold_lem i fp (v ∷ vs) h = elim (Bool-cases (ltb_ℤ (pos 0) v)) [
  | inl more ↦ rw more (
      rw (bit_or-pow i fp h) (
        threshold_lem (suc i) (fp + 2 ^ i) vs (omega (arith, pow-suc 2 i))
        ∙ omega (arith, ap (λ (t : ℕ). t * signs vs) (pow-suc 2 i))))
  | inr less ↦ rw less (
      threshold_lem (suc i) fp vs (omega (arith, pow-suc 2 i))
      ∙ omega (arith, ap (λ (t : ℕ). t * signs vs) (pow-suc 2 i)))
]

signs-lt : (vs : List ℤ) → signs vs < 2 ^ length vs
unfolding signs
signs-lt [] = omega arith
signs-lt (v ∷ vs) = ground (arith, signs-lt vs, pow-suc 2 (length vs))

signs_half : (v : ℤ) (vs : List ℤ) → signs (v ∷ vs) / 2 ≡ signs vs
unfolding signs
signs_half v vs = ground arith

signs_digit :
    (vs : List ℤ) (j : ℕ)
    → j < length vs
    → signs vs / 2 ^ j % 2 ≡ (if ltb_ℤ (pos 0) (get_or vs j (pos 0)) then 1 else 0)
signs_digit [] j h = absurd (omega arith)
signs_digit (v ∷ vs) zero h = unfold signs in ground arith
signs_digit (v ∷ vs) (suc j) h =
    rw (div-two-pow-suc, signs_half v vs) (signs_digit vs j (omega arith))

digit : ℕ → ℕ → ℕ
digit x i = x / 2 ^ i % 2

length-vote : (hash i : ℕ) (vs : List ℤ) → length (vote hash i vs) ≡ length vs
unfolding vote
length-vote hash i [] = refl
length-vote hash i (v ∷ vs) = ap suc (length-vote hash (suc i) vs)

index_shift : (i j : ℕ) → suc i + j ≡ i + suc j
index_shift i j = omega arith

-- One vote moves the counter by one, up or down.
vote_counter :
    (hash i : ℕ) (vs : List ℤ) (j : ℕ)
    → j < length vs
    → pos_part (get_or (vote hash i vs) j (pos 0)) + neg_part (get_or vs j (pos 0)) + 1
      ≡ neg_part (get_or (vote hash i vs) j (pos 0))
        + pos_part (get_or vs j (pos 0))
        + 2 * (hash / 2 ^ (i + j) % 2)
unfolding vote
vote_counter hash i [] j h = absurd (omega arith)
vote_counter hash i (v ∷ vs) zero h =
    rw (add-zero, bit_and-one) (ground (arith, +ℤ_parts v (pos 1), +ℤ_parts v (negsuc 0)))
vote_counter hash i (v ∷ vs) (suc j) h = omega (
  arith,
  vote_counter hash (suc i) vs j (omega arith),
  ap (λ (t : ℕ). hash / 2 ^ t % 2) (index_shift i j),
)

get_or-replicate : (n i : ℕ) → get_or (replicate n (pos 0)) i (pos 0) ≡ pos 0
get_or-replicate zero i = refl
get_or-replicate (suc n) zero = refl
get_or-replicate (suc n) (suc i) = get_or-replicate n i

module _ (sum64 : String → ℕ) where
  -- How many of the shingles have a hash with the digit i.
  pub ones : ℕ → List String → ℕ
  ones i [] = 0
  ones i (sh ∷ shs) = sum64 sh / 2 ^ i % 2 + ones i shs

  length-vote_all : (vs : List ℤ) (shs : List String) → length (vote_all sum64 vs shs) ≡ length vs
  unfolding vote_all
  length-vote_all vs [] = refl
  length-vote_all vs (sh ∷ shs) =
      length-vote_all (vote (sum64 sh) 0 vs) shs ∙ length-vote (sum64 sh) 0 vs

  vote_all_counter :
      (vs : List ℤ) (shs : List String) (j : ℕ)
      → j < length vs
      → pos_part (get_or (vote_all sum64 vs shs) j (pos 0))
          + neg_part (get_or vs j (pos 0))
          + length shs
        ≡ neg_part (get_or (vote_all sum64 vs shs) j (pos 0))
          + pos_part (get_or vs j (pos 0))
          + 2 * ones j shs
  unfolding vote_all ones
  vote_all_counter vs [] j h = omega arith
  vote_all_counter vs (sh ∷ shs) j h = omega (
    arith,
    vote_counter (sum64 sh) 0 vs j h,
    ap (λ (t : ℕ). sum64 sh / 2 ^ t % 2) (zero-add j),
    vote_all_counter (vote (sum64 sh) 0 vs) shs j (rw length-vote h),
  )

  counters : List String → List ℤ
  counters shs = vote_all sum64 (replicate 64 (pos 0)) shs

  length-counters : (shs : List String) → length (counters shs) ≡ 64
  unfolding counters
  length-counters shs = length-vote_all (replicate 64 (pos 0)) shs

  sim_hash-eq-signs : (shs : List String) → sim_hash sum64 shs ≡ signs (counters shs)
  unfolding sim_hash counters
  sim_hash-eq-signs shs =
      threshold_lem 0 0 (vote_all sum64 (replicate 64 (pos 0)) shs) (omega arith) ∙ omega arith

  counter_positive :
      (shs : List String) (i : ℕ)
      → i < 64
      → ltb_ℤ (pos 0) (get_or (counters shs) i (pos 0)) ≡ ltb (length shs) (2 * ones i shs)
  unfolding counters
  counter_positive shs i h =
      ground (arith, vote_all_counter (replicate 64 (pos 0)) shs i h, get_or-replicate 64 i)

  -- A fingerprint is a 64-bit number.
  pub sim_hash-lt : (shs : List String) → sim_hash sum64 shs < 2 ^ 64
  unfolding sim_hash
  sim_hash-lt shs =
      rw (sim_hash-eq-signs shs)
        (subst (λ n. signs (counters shs) < 2 ^ n) (length-counters shs) (signs-lt (counters shs)))

  -- For i < 64 the digit i of the fingerprint is 1 exactly when more than half of the shingles have a hash
  -- with the digit i.
  pub sim_hash_majority :
      (shs : List String) (i : ℕ)
      → i < 64
      → (sim_hash sum64 shs / 2 ^ i % 2 ≡ 1) ↔ (length shs < 2 * ones i shs)
  sim_hash_majority shs i h = ground (
    arith,
    sim_hash-eq-signs shs,
    signs_digit (counters shs) i (rw (length-counters shs) h),
    counter_positive shs i h,
  )
