-- ===== src/Simhash/Windows.antt =====
-- `Shingles` lists the windows of n consecutive tokens, and does not panic at the size the program uses.
use Prim.Native.String.{String}
use native.Mathlib.Nat.{add-zero, zero-add}
use dev_search.Prelude.{
  ℕ, zero, suc, ◌+◌, ◌-◌, ◌≤◌, ◌<◌, ◌≡◌, refl, ap, subst, ◌∙◌, dec_lt, some, List, [], arith,
  length, take, drop, get_elem?,
}
use dev_search.Simhash.{join, windows, shingles, shingle_size}

length-windows :
    (rounds start : ℕ) (tokens : List String) (n : ℕ)
    → length (windows rounds start tokens n) ≡ rounds
unfolding windows
length-windows zero start tokens n = refl
length-windows (suc rounds) start tokens n = ap suc (length-windows rounds (suc start) tokens n)

get_elem?-windows :
    (rounds start : ℕ) (tokens : List String) (n i : ℕ)
    → i < rounds
    → get_elem? (windows rounds start tokens n) i
      ≡ some (join (take n (drop (start + i) tokens)) " ")
unfolding windows
get_elem?-windows zero start tokens n i h = absurd (omega arith)
get_elem?-windows (suc rounds) start tokens n zero h = rw add-zero
get_elem?-windows (suc rounds) start tokens n (suc i) h =
    let e : suc start + i ≡ start + suc i = omega arith in
    rw (← e) (get_elem?-windows rounds (suc start) tokens n i (omega arith))

-- On at least two tokens and a window size of at most one more than the tokens, `Shingles` returns, it
-- returns len(tokens) - n + 1 shingles, and the i-th is the join of the tokens i to i + n - 1.
pub shingles_lem :
    (tokens : List String) (n i : ℕ)
    → 2 ≤ length tokens
    → n ≤ length tokens + 1
    → i < length tokens + 1 - n
    → (shs : List String) × (shingles tokens n ≡ some shs)
      × (length shs ≡ length tokens + 1 - n)
      × (get_elem? shs i ≡ some (join (take n (drop i tokens)) " "))
unfolding shingles
shingles_lem tokens n i two fits h = (
  windows (length tokens + 1 - n) 0 tokens n,
  ground arith,
  length-windows (length tokens + 1 - n) 0 tokens n,
  subst
      (λ k.
        get_elem? (windows (length tokens + 1 - n) 0 tokens n) i
        ≡ some (join (take n (drop k tokens)) " "))
      (zero-add i) (get_elem?-windows (length tokens + 1 - n) 0 tokens n i h),
)

-- At the program's size of 3 `Shingles` does not panic on any list of tokens, and returns two shingles
-- fewer than there are tokens, and none below three tokens.
pub shingles_of_three :
    (tokens : List String)
    → (shs : List String) × (shingles tokens shingle_size ≡ some shs)
      × (length shs ≡ length tokens - 2)
unfolding shingles
shingles_of_three tokens = elim (dec_lt (length tokens) 2) [
  | yes few ↦ ([], ground arith, omega arith)
  | no many ↦ (
    windows (length tokens + 1 - 3) 0 tokens 3,
    ground arith,
    length-windows (length tokens + 1 - 3) 0 tokens 3 ∙ omega arith,
  )
]
