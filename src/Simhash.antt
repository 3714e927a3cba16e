-- ===== src/Simhash.antt =====
-- internal/scraper/deduplication/simhash.go: shingles, fingerprints and the index of fingerprints.
-- A `uint64` is an ℕ below 2 ^ 64 and a `uint16` one below 2 ^ 16; an `int` that may be negative is a ℤ.
-- `xxhash.Sum64String`, of a package outside the repository, is the parameter `sum64`.
mod Distance
pub mod Index
pub mod Separation
pub mod Fingerprint
pub mod Windows
pub mod Contract
mod Tests
use Prim.Native.Nat.{bit_and, bit_or, bit_xor}
use Prim.Native.String
use Prim.Native.String.{String}
use mathlib.Core.Option
use dev_search.Prelude.{
  ℕ, zero, suc, ◌+◌, ◌-◌, ◌/◌, ◌%◌, ◌^◌, Bool, true, false, ◌||◌, Option, none, some, List, [], ◌∷◌,
  ◌++◌, map, ltb, leb, ◌==◌, if◌then◌else◌, length, take, drop, replicate,
}
use dev_search.Prelude.Int.{ℤ, pos, negsuc, ◌+ℤ◌, ltb_ℤ}

abbrev pub shingle_size : ℕ
shingle_size = 3

abbrev pub max_hamming_dist : ℕ
max_hamming_dist = 3

-- `parts[i]`, from the high digits down. `uint16` keeps the 16 low digits.
abbrev pub part_fns : List (ℕ → ℕ)
part_fns =
    (λ h. h / 2 ^ 48 % 2 ^ 16)
    ∷ (λ h. h / 2 ^ 32 % 2 ^ 16)
    ∷ (λ h. h / 2 ^ 16 % 2 ^ 16)
    ∷ (λ h. h % 2 ^ 16)
    ∷ []

abbrev pub parts_of : List (ℕ → ℕ) → ℕ → List ℕ
parts_of [] h = []
parts_of (f ∷ fs) h = f h ∷ parts_of fs h

unfoldable pub partition_hash : ℕ → List ℕ
partition_hash h = parts_of part_fns h

-- `for x != 0 { dist++; x &= x - 1 }` with fuel; `none` means that the fuel ran out.
pub clear_loop : ℕ → ℕ → ℕ → Option ℕ
clear_loop zero x dist = none
clear_loop (suc fuel) x dist =
    let rest = clear_loop fuel (bit_and x (x - 1)) (dist + 1) in if x == 0 then some dist else rest

-- 65 rounds are enough for 64 digits.
pub hamming_distance : ℕ → ℕ → Option ℕ
hamming_distance a b = clear_loop 65 (bit_xor a b) 0

-- `hammingDistance(hash, c) <= maxDist`
pub within : ℕ → ℕ → ℕ → Bool
within hash c max_dist = elim (hamming_distance hash c) [
  | none ↦ false
  | some dist ↦ leb dist max_dist
]

-- `map[uint16][]uint64`; a key that is not in the map has the nil slice.
abbrev pub Table : Type 0
Table = ℕ → List ℕ

pub record SimhashIndex : Type 0 where
  pub buckets : List Table

unfoldable pub new_sim_index : SimhashIndex
new_sim_index = record { buckets = replicate 4 (λ key. []) }

pub push : Table → ℕ → ℕ → Table
push table key hash other = if other == key then table key ++ (hash ∷ []) else table other

-- `for i { key := parts[i]; Buckets[i][key] = append(Buckets[i][key], hash) }`
pub append_all : List ℕ → List Table → ℕ → List Table
append_all (key ∷ keys) (table ∷ tables) hash = push table key hash ∷ append_all keys tables hash
append_all _ tables hash = tables

pub add : SimhashIndex → ℕ → SimhashIndex
add idx hash = record { buckets = append_all (partition_hash hash) idx.buckets hash }

abbrev pub contains : List ℕ → ℕ → Bool
contains [] h = false
contains (x ∷ xs) h = h == x || contains xs h

-- `candidates[h] = struct{}{}`, for each `h` of a bucket: the keys of the set, each once.
unfoldable pub collect : List ℕ → List ℕ → List ℕ
collect seen [] = seen
collect seen (h ∷ hs) = collect (if contains seen h then seen else h ∷ seen) hs

unfoldable pub candidates : List ℕ → List ℕ → List Table → List ℕ
candidates seen (key ∷ keys) (table ∷ tables) = candidates (collect seen (table key)) keys tables
candidates seen _ _ = seen

-- `for c := range candidates { if hammingDistance(hash, c) <= maxDist { return true } }`
unfoldable pub any_within : ℕ → ℕ → List ℕ → Bool
any_within hash max_dist [] = false
any_within hash max_dist (c ∷ cs) = within hash c max_dist || any_within hash max_dist cs

unfoldable pub is_near_duplicate : SimhashIndex → ℕ → ℕ → SimhashIndex × Bool
is_near_duplicate idx hash max_dist =
    let parts = partition_hash hash in
    if any_within hash max_dist (candidates [] parts idx.buckets)
    then (idx, true)
    else (record { buckets = append_all parts idx.buckets hash }, false)

-- `strings.Join(tokens, sep)`
pub join : List String → String → String
join [] sep = ""
join (t ∷ []) sep = t
join (t ∷ u ∷ ts) sep = String.◌++◌ t (String.◌++◌ sep (join (u ∷ ts) sep))

-- `for i := start; i < start + rounds; i++ { append(strings.Join(tokens[i:i+n], " ")) }`
pub windows : ℕ → ℕ → List String → ℕ → List String
windows zero start tokens n = []
windows (suc rounds) start tokens n =
    join (take n (drop start tokens)) " " ∷ windows rounds (suc start) tokens n

-- `none` is the panic of `make` on a negative capacity. The loop makes len(tokens) - n + 1 rounds.
unfoldable pub shingles : List String → ℕ → Option (List String)
shingles tokens n =
    if ltb (length tokens) 2
    then some []
    else if ltb (length tokens + 1) n
    then none
    else some (windows (length tokens + 1 - n) 0 tokens n)

-- `for i { bit := (hash >> i) & 1; if bit == 1 { vector[i]++ } else { vector[i]-- } }`
pub vote : ℕ → ℕ → List ℤ → List ℤ
vote hash i [] = []
vote hash i (v ∷ vs) =
    (if bit_and (hash / 2 ^ i) 1 == 1 then v +ℤ pos 1 else v +ℤ negsuc 0) ∷ vote hash (suc i) vs

-- `for i { if vector[i] > 0 { fingerPrint |= 1 << i } }`
pub threshold : ℕ → ℕ → List ℤ → ℕ
threshold i finger_print [] = finger_print
threshold i finger_print (v ∷ vs) =
    threshold (suc i) (if ltb_ℤ (pos 0) v then bit_or finger_print (2 ^ i) else finger_print) vs

module _ (sum64 : String → ℕ) where
  pub vote_all : List ℤ → List String → List ℤ
  vote_all vector [] = vector
  vote_all vector (sh ∷ shs) = vote_all (vote (sum64 sh) 0 vector) shs

  pub sim_hash : List String → ℕ
  sim_hash shs = threshold 0 0 (vote_all (replicate 64 (pos 0)) shs)

  unfoldable pub compute_hash : String → ℕ
  compute_hash raw = sum64 raw
