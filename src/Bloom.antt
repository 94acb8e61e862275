-- ===== src/Bloom.antt =====
-- lib/bloom.c: the filter that tells which strings may have been seen. The table of hash functions is an
-- argument, and so is whether an allocation succeeds. An access behind the map is `none`.
pub mod Digits
pub mod Loop
pub mod Filter
pub mod Answer
mod Tests
use raptor_mark.Common.{
  ℕ, ◌+◌, ◌-◌, ◌*◌, ◌/◌, ◌%◌, ◌^◌, ◌<<<◌, bit_and, bit_or, u32, u64, Bool, true, false, not, ◌||◌,
  Option, none, some, List, [], ◌∷◌, length, get_or, set, replicate, map, if◌then◌else◌, ltb, ◌==◌,
}

-- `struct bloom`
pub record Bloom : Type 0 where
  pub nentries : ℕ
  pub map : List ℕ

-- `struct bloom_hash`, with the bytes and the seed as the arguments of the function
pub record BloomHash : Type 0 where
  pub seed : ℕ
  pub fn : List ℕ → ℕ → ℕ

abbrev pub bits_per_index : ℕ
bits_per_index = 32

abbrev pub bits_index_mask : ℕ
bits_index_mask = bits_per_index - 1

-- N_HASHES
abbrev pub n_hashes : ℕ
n_hashes = 5

-- `allocated` is the success of calloc. The structure itself is taken to be allocated, which is not tested.
unfoldable pub bloom_new : Bool → ℕ → Option Bloom
bloom_new allocated entries =
    let no_uints = u64 (entries + bits_per_index - 1) / bits_per_index in
    if allocated then some (record { nentries = entries; map = replicate no_uints 0 }) else none

-- The first loop of `__bloom_check`, for one function.
unfoldable pub hash_of : ℕ → List ℕ → BloomHash → ℕ
hash_of nentries buf hash = u32 (hash.fn buf hash.seed) % nentries

-- The second loop of `__bloom_check`, over the hashes.
unfoldable pub check_loop : Bool → List ℕ → ℕ → List ℕ → Option (ℕ × List ℕ)
check_loop put [] was_set words = some (was_set, words)
check_loop put (hash ∷ hashes) was_set words =
    let index = hash / bits_per_index in
    let mask = 1 <<< bit_and hash bits_index_mask in
    let word = get_or words index 0 in
    let found = not (bit_and word mask == 0) in
    let rest =
      check_loop put hashes (if found then was_set + 1 else was_set)
        (if found then words else set words index (bit_or word mask)) in
    if ltb index (length words) then if found || put then rest else some (was_set, words) else none

-- `__bloom_check`
unfoldable pub bloom_check : List BloomHash → Bloom → List ℕ → Bool → Option (Bool × Bloom)
bloom_check hashes b buf put = elim (check_loop put (map (hash_of b.nentries buf) hashes) 0 b.map) [
  | none ↦ none
  | some (was_set, words) ↦ some (was_set == n_hashes, record b { map = words })
]

-- `bloom_string`
unfoldable pub bloom_string : List BloomHash → Bloom → List ℕ → Bool → Option (Bool × Bloom)
bloom_string hashes b buf put = bloom_check hashes b buf put

-- `bloom_set`, on the bytes of the words
unfoldable pub bloom_set : List BloomHash → Bloom → List ℕ → Option (Bool × Bloom)
bloom_set hashes b buf = bloom_check hashes b buf true
