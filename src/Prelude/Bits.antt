-- ===== src/Prelude/Bits.antt =====
-- Laws of `bit_and`, `bit_or` and `bit_xor` at every width, from the recursion on binary digits that
-- the native operations stand for, and the number of ones among the low digits of a number.
use Prim.Native.Nat.{bit_and, bit_or, bit_xor, digits, bitwise, differ, min, max}
use Prim.Native.Nat.{bit_and-bitwise, bit_or-bitwise, bit_xor-bitwise}
use Prim.Native.Nat.{ℕ, zero, suc, ◌+◌, ◌-◌, ◌*◌, ◌/◌, ◌%◌, ◌^◌, ◌≤◌, ◌<◌}
use mathlib.Core.Path.{◌≡◌, refl, ap, sym, ◌∙◌}
use mathlib.Core.Logic.{◌≢◌}
use native.Mathlib.Decide.{ℕ_discrete}
use native.Mathlib.Nat.{
  pow-suc, pow-succ', div-div-eq-div-mul, mod_def, mul-div-le, suc-add, zero-add, div-one,
}
use native.Mathlib.Omega.{arith}

-- Rounds beyond the number of digits change nothing.
module _ (rest : ℕ → ℕ) (join : ℕ → ℕ → ℕ) where
  one_more_round : (n x y : ℕ) → x ≤ n → digits rest join (suc n) x y ≡ digits rest join n x y
  one_more_round zero zero y bound = refl
  one_more_round zero (suc x) y bound = absurd (omega arith)
  one_more_round (suc n) zero y bound = refl
  one_more_round (suc n) (suc x) y bound =
      let halves = one_more_round n (suc x / 2) (y / 2) (omega arith) in rw halves refl

  more_rounds : (k x y : ℕ) → digits rest join (k + x) x y ≡ bitwise rest join x y
  more_rounds zero x y = rw (zero-add) refl
  more_rounds (suc k) x y =
      rw (suc-add) (one_more_round (k + x) x y (omega arith) ∙ more_rounds k x y)

  first_round :
      (x y : ℕ) → digits rest join x (suc x / 2) (y / 2) ≡ bitwise rest join (suc x / 2) (y / 2)
  first_round x y =
      let split : x - suc x / 2 + suc x / 2 ≡ x = omega arith in
      ap (λ n. digits rest join n (suc x / 2) (y / 2)) (sym split)
      ∙ more_rounds (x - suc x / 2) (suc x / 2) (y / 2)

  bitwise_low :
      (x y : ℕ)
      → bitwise rest join (suc x) y
        ≡ join (suc x % 2) (y % 2) + 2 * bitwise rest join (suc x / 2) (y / 2)
  bitwise_low x y = let halves = first_round x y in omega (arith, halves)

pub div-two-pow-suc : (n x : ℕ) → x / 2 ^ suc n ≡ x / 2 / 2 ^ n
div-two-pow-suc n x = rw (pow-succ', ← div-div-eq-div-mul x 2 (2 ^ n))

-- The lowest digit and the others of the n + 1 low digits.
pub mod-two-pow-suc : (n x : ℕ) → x % 2 ^ suc n ≡ 2 * (x / 2 % 2 ^ n) + x % 2
mod-two-pow-suc n x = omega (
  arith,
  mod_def x (2 ^ suc n),
  mod_def (x / 2) (2 ^ n),
  div-two-pow-suc n x,
  ap (λ (t : ℕ). t * (x / 2 ^ suc n)) (pow-succ' 2 n),
  ap (λ (t : ℕ). 2 * 2 ^ n * t) (div-two-pow-suc n x),
  mul-div-le (x / 2) (2 ^ n),
)

-- One equation for the lowest digit of each operation.
pub bit_and_low : (a b : ℕ) → bit_and a b ≡ bit_and (a / 2) (b / 2) * 2 + min (a % 2) (b % 2)
bit_and_low zero b = simp bit_and-bitwise (omega arith)
bit_and_low (suc a) b = omega (
  arith,
  bitwise_low (λ y. 0) min a b,
  bit_and-bitwise (suc a) b,
  bit_and-bitwise (suc a / 2) (b / 2),
)

pub bit_or_low : (a b : ℕ) → bit_or a b ≡ bit_or (a / 2) (b / 2) * 2 + max (a % 2) (b % 2)
bit_or_low zero b = simp bit_or-bitwise (omega arith)
bit_or_low (suc a) b = omega (
  arith,
  bitwise_low (λ y. y) max a b,
  bit_or-bitwise (suc a) b,
  bit_or-bitwise (suc a / 2) (b / 2),
)

differ_lem : (x y : ℕ) → x < 2 → y < 2 → differ x y ≡ (x + y) % 2
differ_lem zero y p q = omega arith
differ_lem (suc zero) zero p q = refl
differ_lem (suc zero) (suc zero) p q = refl
differ_lem (suc zero) (suc (suc y)) p q = absurd (omega arith)
differ_lem (suc (suc x)) y p q = absurd (omega arith)

pub bit_xor_low : (a b : ℕ) → bit_xor a b ≡ bit_xor (a / 2) (b / 2) * 2 + (a % 2 + b % 2) % 2
bit_xor_low zero b = simp bit_xor-bitwise (omega arith)
bit_xor_low (suc a) b = omega (
  arith,
  bit_xor-bitwise (suc a) b,
  bit_xor-bitwise (suc a / 2) (b / 2),
  bitwise_low (λ y. y) differ a b,
  differ_lem (suc a % 2) (b % 2) (omega arith) (omega arith),
)

zero-bit_and : (b : ℕ) → bit_and 0 b ≡ 0
zero-bit_and b = bit_and-bitwise 0 b

-- Bounds for numbers of at most n digits, by induction on n.
pub bit_and-le : (n a b : ℕ) → a < 2 ^ n → bit_and a b ≤ a
bit_and-le zero a b h = let e : a ≡ 0 = omega arith in rw e (omega (arith, zero-bit_and b))
bit_and-le (suc n) a b h =
    omega (arith, bit_and_low a b, bit_and-le n (a / 2) (b / 2) (omega (arith, pow-suc 2 n)))

pub bit_xor-lt : (n a b : ℕ) → a < 2 ^ n → b < 2 ^ n → bit_xor a b < 2 ^ n
bit_xor-lt zero a b h k =
    let e : a ≡ 0 = omega arith in
    let f : b ≡ 0 = omega arith in rw (e, f) (omega (arith, bit_xor_low 0 0))
bit_xor-lt (suc n) a b h k = omega (
  arith,
  pow-suc 2 n,
  bit_xor_low a b,
  bit_xor-lt n (a / 2) (b / 2) (omega (arith, pow-suc 2 n)) (omega (arith, pow-suc 2 n)),
)

pub bit_and_self : (n a : ℕ) → a < 2 ^ n → bit_and a a ≡ a
bit_and_self zero a h = let e : a ≡ 0 = omega arith in rw e (zero-bit_and 0)
bit_and_self (suc n) a h =
    omega (arith, bit_and_low a a, bit_and_self n (a / 2) (omega (arith, pow-suc 2 n)))

lt-two-pow : (n : ℕ) → n < 2 ^ n
lt-two-pow zero = omega arith
lt-two-pow (suc n) = omega (arith, pow-suc 2 n, lt-two-pow n)

bit_and-zero : (n a : ℕ) → a < 2 ^ n → bit_and a 0 ≡ 0
bit_and-zero zero a h = let e : a ≡ 0 = omega arith in rw e (zero-bit_and 0)
bit_and-zero (suc n) a h =
    omega (arith, bit_and_low a 0, bit_and-zero n (a / 2) (omega (arith, pow-suc 2 n)))

-- `x & 1`
pub bit_and-one : (a : ℕ) → bit_and a 1 ≡ a % 2
bit_and-one a = omega (arith, bit_and_low a 1, bit_and-zero (a / 2) (a / 2) (lt-two-pow (a / 2)))

pub bit_xor_self : (n a : ℕ) → a < 2 ^ n → bit_xor a a ≡ 0
bit_xor_self zero a h = let e : a ≡ 0 = omega arith in rw e (bit_xor-bitwise 0 0)
bit_xor_self (suc n) a h =
    omega (arith, bit_xor_low a a, bit_xor_self n (a / 2) (omega (arith, pow-suc 2 n)))

-- The ones among the n low digits of x.
pub popcount : ℕ → ℕ → ℕ
popcount zero x = 0
popcount (suc n) x = x % 2 + popcount n (x / 2)

pub popcount-zero : (n : ℕ) → popcount n 0 ≡ 0
unfolding popcount
popcount-zero zero = refl
popcount-zero (suc n) = omega (arith, popcount-zero n)

pub popcount-le : (n x : ℕ) → popcount n x ≤ n
unfolding popcount
popcount-le zero x = omega arith
popcount-le (suc n) x = omega (arith, popcount-le n (x / 2))

half_of_pred : (x : ℕ) → x % 2 ≡ 0 → (x - 1) / 2 ≡ x / 2 - 1
half_of_pred x h = omega arith

clear_half : (x : ℕ) → x % 2 ≡ 0 → 0 < x → bit_and x (x - 1) / 2 ≡ bit_and (x / 2) (x / 2 - 1)
clear_half x h p = omega (arith, bit_and_low x (x - 1), ap (bit_and (x / 2)) (half_of_pred x h))

clear_odd : (n x : ℕ) → x % 2 ≢ 0 → x < 2 ^ suc n → bit_and x (x - 1) / 2 ≡ x / 2
clear_odd n x h l =
    let half : (x - 1) / 2 ≡ x / 2 = omega arith in
    omega (
      arith,
      bit_and_low x (x - 1),
      ap (bit_and (x / 2)) half,
      bit_and_self n (x / 2) (omega (arith, pow-suc 2 n)),
    )

clear_odd_low : (x : ℕ) → x % 2 ≢ 0 → bit_and x (x - 1) % 2 ≡ 0
clear_odd_low x h = omega (arith, bit_and_low x (x - 1))

-- `x & (x - 1)` has one digit 1 less.
pub popcount-clear_lowest :
    (n x : ℕ) → 0 < x → x < 2 ^ n → popcount n (bit_and x (x - 1)) + 1 ≡ popcount n x
unfolding popcount
popcount-clear_lowest zero x p h = absurd (omega arith)
popcount-clear_lowest (suc n) x p h = elim (ℕ_discrete (x % 2) 0) [
  | yes even ↦ omega (
    arith,
    bit_and_low x (x - 1),
    ap (bit_and (x / 2)) (half_of_pred x even),
    popcount-clear_lowest n (x / 2) (omega arith) (omega (arith, pow-suc 2 n)),
    ap (popcount n) (clear_half x even p),
  )
  | no odd ↦ omega (arith, ap (popcount n) (clear_odd n x odd h), clear_odd_low x odd)
]

-- The low digits and the rest.
pub popcount-add : (n m x : ℕ) → popcount (n + m) x ≡ popcount n x + popcount m (x / 2 ^ n)
unfolding popcount
popcount-add zero m x = rw (zero-add, div-one, zero-add)
popcount-add (suc n) m x = rw suc-add (rw div-two-pow-suc (omega (arith, popcount-add n m (x / 2))))

pub bit_xor-div : (k a b : ℕ) → bit_xor a b / 2 ^ k ≡ bit_xor (a / 2 ^ k) (b / 2 ^ k)
bit_xor-div zero a b = rw (div-one, div-one, div-one)
bit_xor-div (suc k) a b =
    let half : bit_xor a b / 2 ≡ bit_xor (a / 2) (b / 2) = omega (arith, bit_xor_low a b) in
    rw (div-two-pow-suc k (bit_xor a b), div-two-pow-suc k a, div-two-pow-suc k b, half)
      (bit_xor-div k (a / 2) (b / 2))

-- Numbers that differ in their n low digits differ in one of these digits.
pub popcount-bit_xor-pos : (n a b : ℕ) → a % 2 ^ n ≢ b % 2 ^ n → 0 < popcount n (bit_xor a b)
unfolding popcount
popcount-bit_xor-pos zero a b h = absurd (h (omega arith))
popcount-bit_xor-pos (suc n) a b h = elim (ℕ_discrete (a / 2 % 2 ^ n) (b / 2 % 2 ^ n)) [
  | yes same ↦ omega (arith, bit_xor_low a b, mod-two-pow-suc n a, mod-two-pow-suc n b)
  | no other ↦
      let half : bit_xor a b / 2 ≡ bit_xor (a / 2) (b / 2) = omega (arith, bit_xor_low a b) in
      rw half (omega (arith, popcount-bit_xor-pos n (a / 2) (b / 2) other))
]

pub popcount-mod : (n x : ℕ) → popcount n (x % 2 ^ n) ≡ popcount n x
unfolding popcount
popcount-mod zero x = refl
popcount-mod (suc n) x =
    let half : x % 2 ^ suc n / 2 ≡ x / 2 % 2 ^ n = omega (arith, mod-two-pow-suc n x) in
    rw half (omega (arith, mod-two-pow-suc n x, popcount-mod n (x / 2)))

-- `x | 2 ^ k` sets a digit above those of x.
pub bit_or-pow : (k x : ℕ) → x < 2 ^ k → bit_or x (2 ^ k) ≡ x + 2 ^ k
bit_or-pow zero x h = let e : x ≡ 0 = omega arith in rw e refl
bit_or-pow (suc k) x h =
    let half : 2 ^ suc k / 2 ≡ 2 ^ k = omega (arith, pow-suc 2 k) in
    omega (
      arith,
      pow-suc 2 k,
      bit_or_low x (2 ^ suc k),
      ap (bit_or (x / 2)) half,
      bit_or-pow k (x / 2) (omega (arith, pow-suc 2 k)),
    )
