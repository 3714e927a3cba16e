-- ===== src/Prelude/Decimal.antt =====
-- Numbers printed in decimal, and texts made of code points.
use Prim.Native.Char.{Char, char, code}
use Prim.Native.Nat.{Ordering, compare}
use Prim.Native.String.{String}
use dev_search.Prelude.{
  ℕ, zero, suc, ◌+◌, ◌-◌, ◌*◌, ◌/◌, ◌%◌, ◌^◌, ◌≡◌, ◌<◌, refl, ap₂, ◌∙◌, true, some, List, [], ◌∷◌,
  ◌++◌, arith, ltb, if◌then◌else◌, Bool-cases, inl, inr, ap, ltb→lt, lt→ltb, ◌≢◌,
}
use dev_search.Prelude.Text.{codes}
use dev_search.Prelude.Strings.{is_digit, digits, NoChar}

-- `string(rune(n))`; what is no character becomes U+FFFD. The characters above the surrogates are left to
-- `high`.
abbrev low_char : (n : ℕ) (o : Ordering) → compare n 55_296 ≡ o → Char
low_char n Ordering.lt e = char n (rw (e) tt)
low_char n Ordering.eq e = char 0xfffd tt
low_char n Ordering.gt e = high (compare 57_343 n) (compare n 1_114_112) refl refl
  where
    high : (o p : Ordering) → compare 57_343 n ≡ o → compare n 1_114_112 ≡ p → Char
    high Ordering.lt Ordering.lt above below = char n (rw (e, above, below) tt)
    high o p above below = char 0xfffd tt

abbrev pub to_char : ℕ → Char
to_char n = low_char n (compare n 55_296) refl

-- `string(runes)`
abbrev pub text_of : List ℕ → String
text_of [] = String.[]
text_of (c ∷ cs) = String.◌∷◌ (to_char c) (text_of cs)

-- No character is a surrogate or above one.
abbrev pub Low : List ℕ → Type 0
Low [] = Unit {0}
Low (c ∷ cs) = (c < 55_296) × Low cs

pub Low-append : (s t : List ℕ) → Low s → Low t → Low (s ++ t)
Low-append [] t a b = b
Low-append (c ∷ cs) t (here, a) b = (here, Low-append cs t a b)

code-to_char : (n : ℕ) → n < 55_296 → code (to_char n) ≡ n
code-to_char n h = go (compare n 55_296) refl
  where
    go : (o : Ordering) (e : compare n 55_296 ≡ o) → code (low_char n o e) ≡ n
    go Ordering.lt e = refl
    go Ordering.eq e = absurd (ground arith)
    go Ordering.gt e = absurd (ground arith)

pub codes-text_of : (cs : List ℕ) → Low cs → codes (text_of cs) ≡ cs
codes-text_of [] h = refl
codes-text_of (c ∷ cs) (here, h) = ap₂ (λ x xs. x ∷ xs) (code-to_char c here) (codes-text_of cs h)

-- The decimal digits of a number, with fuel for each: 20 are enough for 64 bits.
unfoldable pub decimal_digits : ℕ → ℕ → List ℕ
decimal_digits zero n = []
decimal_digits (suc fuel) n =
    let before = decimal_digits fuel (n / 10) in
    if ltb n 10 then (48 + n) ∷ [] else before ++ ((48 + n % 10) ∷ [])

-- `%d`
unfoldable pub decimal : ℕ → List ℕ
decimal n = decimal_digits 20 n

-- Digits, one at least.
abbrev pub AllDigits : List ℕ → Type 0
AllDigits [] = Unit {0}
AllDigits (c ∷ cs) = (is_digit c ≡ true) × AllDigits cs

AllDigits-append : (s t : List ℕ) → AllDigits s → AllDigits t → AllDigits (s ++ t)
AllDigits-append [] t a b = b
AllDigits-append (c ∷ cs) t (here, a) b = (here, AllDigits-append cs t a b)

digits-append :
    (m k : ℕ) (xs : List ℕ) (d : ℕ)
    → d < 10
    → digits m xs ≡ some k
    → digits m (xs ++ ((48 + d) ∷ [])) ≡ some (k * 10 + d)
unfolding digits is_digit
digits-append m k [] d small e = ground arith
digits-append m k (c ∷ cs) d small e = elim (Bool-cases (is_digit c)) [
  | inl yes_digit ↦
      rw (yes_digit) (digits-append (m * 10 + (c - 48)) k cs d small (rw (yes_digit) at e))
  | inr no_digit ↦ cc (rw (no_digit) at e)
]

decimal_digits-AllDigits : (fuel n : ℕ) → AllDigits (decimal_digits fuel n)
unfolding decimal_digits is_digit
decimal_digits-AllDigits zero n = tt
decimal_digits-AllDigits (suc fuel) n = elim (Bool-cases (ltb n 10)) [
  | inl small ↦ rw (small) (ground arith, tt)
  | inr large ↦
      rw (large) (AllDigits-append _ _ (decimal_digits-AllDigits fuel (n / 10)) (ground arith, tt))
]

one_digit : (n : ℕ) → n < 10 → digits 0 ((48 + n) ∷ []) ≡ some n
unfolding digits is_digit
one_digit n h = ground arith

pub digits-decimal_digits :
    (fuel n : ℕ) → n < 10 ^ suc fuel → digits 0 (decimal_digits (suc fuel) n) ≡ some n
unfolding decimal_digits
digits-decimal_digits zero n h = rw (lt→ltb n 10 (omega arith)) (one_digit n (omega arith))
digits-decimal_digits (suc fuel) n h = elim (Bool-cases (ltb n 10)) [
  | inl small ↦ rw (small) (one_digit n (ltb→lt n 10 small))
  | inr large ↦ rw (large) (
      digits-append 0 (n / 10) (decimal_digits (suc fuel) (n / 10)) (n % 10) (omega arith)
        (digits-decimal_digits fuel (n / 10) (omega arith))
      ∙ ap some (omega arith))
]

NoChar-AllDigits : (cs : List ℕ) → AllDigits cs → NoChar b':' cs
unfolding is_digit
NoChar-AllDigits [] h = tt
NoChar-AllDigits (c ∷ cs) (here, h) = (ground arith, NoChar-AllDigits cs h)

Low-AllDigits : (cs : List ℕ) → AllDigits cs → Low cs
unfolding is_digit
Low-AllDigits [] h = tt
Low-AllDigits (c ∷ cs) (here, h) = (ground arith, Low-AllDigits cs h)

pub decimal-NoChar : (n : ℕ) → NoChar b':' (decimal n)
unfolding decimal
decimal-NoChar n = NoChar-AllDigits (decimal_digits 20 n) (decimal_digits-AllDigits 20 n)

pub decimal-Low : (n : ℕ) → Low (decimal n)
unfolding decimal
decimal-Low n = Low-AllDigits (decimal_digits 20 n) (decimal_digits-AllDigits 20 n)

pub digits-decimal : (n : ℕ) → n < 10 ^ 20 → digits 0 (decimal n) ≡ some n
unfolding decimal
digits-decimal n h = digits-decimal_digits 19 n h

append_one_ne : (xs : List ℕ) (c : ℕ) → xs ++ (c ∷ []) ≢ []
append_one_ne [] c e = cc
append_one_ne (x ∷ xs) c e = cc

decimal_digits_ne : (fuel n : ℕ) → decimal_digits (suc fuel) n ≢ []
unfolding decimal_digits
decimal_digits_ne fuel n e = elim (Bool-cases (ltb n 10)) [
  | inl small ↦ cc (rw (small) at e)
  | inr large ↦ append_one_ne (decimal_digits fuel (n / 10)) (48 + n % 10) (rw (large) at e)
]

-- The first character of a number is a digit.
pub decimal_first : (n : ℕ) → (c : ℕ) × (cs : List ℕ) × (decimal n ≡ c ∷ cs) × (is_digit c ≡ true)
unfolding decimal
decimal_first n =
    first (decimal_digits 20 n) (decimal_digits-AllDigits 20 n) (decimal_digits_ne 19 n)
  where
    first :
        (s : List ℕ)
        → AllDigits s
        → s ≢ []
        → (c : ℕ) × (cs : List ℕ) × (s ≡ c ∷ cs) × (is_digit c ≡ true)
    first [] a ne = absurd (ne refl)
    first (c ∷ cs) a ne = (c, cs, refl, a.0)
