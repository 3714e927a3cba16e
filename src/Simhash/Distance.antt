-- ===== src/Simhash/Distance.antt =====
-- The loop of `hammingDistance` counts the digits in which two 64-bit numbers differ, and two
-- fingerprints at distance at most 3 share one of their four 16-bit parts.
use Prim.Native.Nat.{bit_and, bit_xor}
use native.Mathlib.Nat.{div-div-eq-div-mul}
use dev_search.Prelude.{
  ℕ, zero, suc, ◌+◌, ◌-◌, ◌/◌, ◌%◌, ◌^◌, ◌≤◌, ◌<◌, ◌≡◌, ◌≢◌, inl, inr, ap, ◌∙◌, Bool, true, false,
  ◌||◌, some, List, [], ◌∷◌, arith, ◌==◌, leb, Bool-cases,
}
use dev_search.Prelude.Bits.{
  popcount, popcount-zero, popcount-le, popcount-clear_lowest, popcount-add, popcount-bit_xor-pos,
  bit_and-le, bit_xor-lt, bit_xor-div,
}
use dev_search.Simhash.{clear_loop, hamming_distance, within, part_fns}

popcount_of_zero : (n x : ℕ) → x ≡ 0 → popcount n x ≡ 0
popcount_of_zero n x e = rw e (popcount-zero n)

clear_loop_lem :
    (fuel n x dist : ℕ)
    → x < 2 ^ n
    → popcount n x < fuel
    → clear_loop fuel x dist ≡ some (dist + popcount n x)
unfolding clear_loop
clear_loop_lem zero n x dist h l = absurd (omega arith)
clear_loop_lem (suc fuel) n x dist h l = elim (Bool-cases (x == 0)) [
  | inl done ↦
      let e : x ≡ 0 = ground arith in rw done (ap some (omega (arith, popcount_of_zero n x e)))
  | inr more ↦
      let p : 0 < x = ground arith in
      rw more (
        clear_loop_lem fuel n (bit_and x (x - 1)) (dist + 1)
          (omega (arith, bit_and-le n x (x - 1) h)) (omega (arith, popcount-clear_lowest n x p h))
        ∙ ap some (omega (arith, popcount-clear_lowest n x p h)))
]

-- Of two 64-bit numbers the loop ends within its fuel, with the number of digits in which they differ.
pub hamming_distance_lem :
    (a b : ℕ) → a < 2 ^ 64 → b < 2 ^ 64 → hamming_distance a b ≡ some (popcount 64 (bit_xor a b))
unfolding hamming_distance
hamming_distance_lem a b h k =
    clear_loop_lem 65 64 (bit_xor a b) 0 (bit_xor-lt 64 a b h k)
      (omega (arith, popcount-le 64 (bit_xor a b)))
    ∙ ap some (omega arith)

pub within_lem :
    (a b d : ℕ) → a < 2 ^ 64 → b < 2 ^ 64 → within a b d ≡ leb (popcount 64 (bit_xor a b)) d
unfolding within
within_lem a b d h k = rw (hamming_distance_lem a b h k, within)

-- The four parts count separately.
popcount_parts :
    (x : ℕ)
    → popcount 64 x
      ≡ popcount 16 x
        + (popcount 16 (x / 2 ^ 16) + (popcount 16 (x / 2 ^ 32) + popcount 16 (x / 2 ^ 48)))
popcount_parts x = omega (
  arith,
  popcount-add 16 48 x,
  popcount-add 16 32 (x / 2 ^ 16),
  popcount-add 16 16 (x / 2 ^ 32),
  ap (popcount 32) (div-div-eq-div-mul x (2 ^ 16) (2 ^ 16)),
  ap (popcount 16) (div-div-eq-div-mul x (2 ^ 32) (2 ^ 16)),
)

part_differs :
    (k a b : ℕ) → a / 2 ^ k % 2 ^ 16 ≢ b / 2 ^ k % 2 ^ 16 → 0 < popcount 16 (bit_xor a b / 2 ^ k)
part_differs k a b h = rw bit_xor-div (popcount-bit_xor-pos 16 (a / 2 ^ k) (b / 2 ^ k) h)

-- Whether a part of a is the same part of b.
abbrev pub agrees : List (ℕ → ℕ) → ℕ → ℕ → Bool
agrees [] a b = false
agrees (f ∷ fs) a b = f a == f b || agrees fs a b

low_differs : (a b : ℕ) → a % 2 ^ 16 ≢ b % 2 ^ 16 → 0 < popcount 16 (bit_xor a b)
low_differs a b h = popcount-bit_xor-pos 16 a b h

-- Four differing parts are four differing digits, so at distance at most 3 two parts agree.
pub some_part_agrees : (a b : ℕ) → popcount 64 (bit_xor a b) ≤ 3 → agrees part_fns a b ≡ true
some_part_agrees a b h = ground (
  arith,
  popcount_parts (bit_xor a b),
  part_differs 48 a b,
  part_differs 32 a b,
  part_differs 16 a b,
  low_differs a b,
)
