-- ===== src/Simhash/Tests.antt =====
-- Runs of the fingerprint code, and the theorems at inputs that meet their hypotheses.
use Prim.Native.Nat.{bit_xor}
use Prim.Native.String
use Prim.Native.String.{String}
use dev_search.Prelude.{
  ℕ, ◌*◌, ◌/◌, ◌%◌, ◌^◌, ◌≤◌, ◌<◌, ◌≡◌, ◌↔◌, refl, true, false, some, none, List, [], ◌∷◌, arith,
  length,
}
use dev_search.Prelude.Bits.{popcount}
use dev_search.Prelude.Int.{◌+ℤ◌}
use dev_search.Simhash.{
  SimhashIndex, partition_hash, hamming_distance, clear_loop, within, push, append_all, add,
  contains, collect, candidates, any_within, is_near_duplicate, new_sim_index, join, windows,
  shingles, vote, vote_all, threshold, sim_hash,
}
use dev_search.Simhash.Distance.{hamming_distance_lem}
use dev_search.Simhash.Index.{Stores, is_near_duplicate_iff, add-Stores, new_sim_index-Stores}
use dev_search.Simhash.Contract.{answers, expected, answers-expected}
use dev_search.Simhash.Separation.{screen}
use dev_search.Simhash.Fingerprint.{ones, sim_hash_majority}

distance_of_three : hamming_distance 0x0123 0x0321 ≡ some 2
unfolding hamming_distance clear_loop
distance_of_three = refl

hamming_distance_lem_example :
    hamming_distance 0x0123 0x0321 ≡ some (popcount 64 (bit_xor 0x0123 0x0321))
hamming_distance_lem_example = hamming_distance_lem 0x0123 0x0321 (omega arith) (omega arith)

abbrev one_page : SimhashIndex
one_page = add new_sim_index 0xff00

one_page-Stores : Stores one_page (0xff00 ∷ [])
one_page-Stores = add-Stores 0xff00 new_sim_index-Stores (omega arith)

is_near_duplicate_iff_example :
    ((is_near_duplicate one_page 0xff07 3).1 ≡ true)
    ↔ ((h : ℕ) × (contains (0xff00 ∷ []) h ≡ true) × (popcount 64 (bit_xor 0xff07 h) ≤ 3))
is_near_duplicate_iff_example =
    is_near_duplicate_iff 0xff07 3 one_page-Stores (omega arith) (omega arith)

three_digits_away : (is_near_duplicate one_page 0xff07 3).1 ≡ true
unfolding is_near_duplicate add new_sim_index partition_hash append_all push candidates collect
    any_within within hamming_distance clear_loop
three_digits_away = refl

four_digits_away : (is_near_duplicate one_page 0xff0f 3).1 ≡ false
unfolding is_near_duplicate add new_sim_index partition_hash append_all push candidates collect
    any_within within hamming_distance clear_loop
four_digits_away = refl

abbrev stream : List ℕ
stream = 0xff00 ∷ 0xff07 ∷ 0xff0f ∷ []

stream_screened : screen new_sim_index [] stream ≡ 0xff0f ∷ 0xff00 ∷ []
unfolding screen is_near_duplicate new_sim_index partition_hash append_all push candidates collect
    any_within within hamming_distance clear_loop
stream_screened = refl

abbrev words : List String
words = "rust" ∷ "ownership" ∷ "tutorial" ∷ "explains" ∷ []

two_windows :
    shingles words 3 ≡ some ("rust ownership tutorial" ∷ "ownership tutorial explains" ∷ [])
unfolding shingles windows join
two_windows = refl

shingles_panics : shingles words 6 ≡ none
unfolding shingles
shingles_panics = refl

all_agree : sim_hash (λ s. String.len s) words ≡ 8
unfolding sim_hash vote_all vote threshold ◌+ℤ◌
all_agree = refl

sim_hash_majority_example :
    (sim_hash (λ s. String.len s) words / 2 ^ 3 % 2 ≡ 1)
    ↔ (length words < 2 * ones (λ s. String.len s) 3 words)
sim_hash_majority_example = sim_hash_majority (λ s. String.len s) words 3 (omega arith)

answers-expected_example : answers new_sim_index 3 stream ≡ expected [] 3 stream
answers-expected_example = answers-expected 3 stream (omega arith) (omega arith)
