-- ===== src/Bloom/Tests.antt =====
-- lib/bloom.c: runs, and the theorems at a filter of forty digits.
use raptor_mark.Common.{
  ℕ, ◌+◌, ◌*◌, ◌≡◌, refl, arith, ◌↔◌, Bool, true, false, List, [], ◌∷◌, Option, none, some,
}
use raptor_mark.Bloom.{
  Bloom, BloomHash, bloom_new, bloom_string, bloom_set, bloom_check, check_loop, hash_of,
}
use raptor_mark.Bloom.Loop.{Among}
use raptor_mark.Bloom.Filter.{IsBloom, digits_of, AddedBy, drive}
use raptor_mark.Bloom.Answer.{bloom_string-AddedBy, bloom_string_stays}

-- A hash function: the seed and the bytes, each after the sum times a number.
abbrev mixed : ℕ → List ℕ → ℕ → ℕ
mixed k [] sum = sum
mixed k (byte ∷ buf) sum = mixed k buf (sum * k + byte)

abbrev hash_with : ℕ → BloomHash
hash_with k = record { seed = 35209; fn = mixed k }

abbrev five_hashes : List BloomHash
five_hashes = hash_with 31 ∷ hash_with 33 ∷ hash_with 37 ∷ hash_with 101 ∷ hash_with 257 ∷ []

abbrev empty : Bloom
empty = record { nentries = 40; map = 0 ∷ 0 ∷ [] }

empty_made : bloom_new true 40 ≡ some empty
unfolding bloom_new
empty_made = refl

empty-IsBloom : IsBloom 40 empty
empty-IsBloom = record { count = refl; some_digit = omega arith; room = omega arith }

abbrev added : Option (Bool × Bloom)
added = bloom_set five_hashes empty (1 ∷ 2 ∷ 3 ∷ 4 ∷ [])

answers : Option (Bool × Bloom) → List Bool
answers none = []
answers (some (r, b)) = r ∷ []

again : Option (Bool × Bloom) → List ℕ → List Bool
again none buf = []
again (some (r, b)) buf = answers (bloom_string five_hashes b buf false)

new_string : answers added ≡ false ∷ []
unfolding bloom_set bloom_check check_loop hash_of answers
new_string = refl

same_string : again added (1 ∷ 2 ∷ 3 ∷ 4 ∷ []) ≡ true ∷ []
unfolding bloom_set bloom_string bloom_check check_loop hash_of answers again
same_string = refl

other_string : again added (1 ∷ 2 ∷ 3 ∷ 5 ∷ []) ≡ false ∷ []
unfolding bloom_set bloom_string bloom_check check_loop hash_of answers again
other_string = refl

-- A map that is too small is left.
behind :
    bloom_set five_hashes (record { nentries = 4000; map = 0 ∷ [] }) (1 ∷ 2 ∷ 3 ∷ 4 ∷ []) ≡ none
unfolding bloom_set bloom_check check_loop hash_of
behind = refl

abbrev some_ops : List (List ℕ × Bool)
some_ops = (7 ∷ [], true) ∷ (8 ∷ [], false) ∷ []

bloom_string-AddedBy_example :
    (b' : Bloom) × (r : Bool) × (drive five_hashes 40 some_ops empty ≡ some b')
    × (bloom_string five_hashes b' (8 ∷ []) false ≡ some (r, b'))
    × ((r ≡ true) ↔ (
        (n : ℕ) → Among n (digits_of five_hashes 40 (8 ∷ [])) → AddedBy five_hashes 40 some_ops n))
bloom_string-AddedBy_example =
    bloom_string-AddedBy five_hashes 40 empty some_ops (8 ∷ []) refl (omega arith) (omega arith)
      empty_made

bloom_string_stays_example :
    (r : Bool) × (b1 : Bloom) × (b2 : Bloom) × (bloom_string five_hashes empty (8 ∷ []) true
      ≡ some (r, b1))
    × (drive five_hashes 40 some_ops b1 ≡ some b2)
    × (bloom_string five_hashes b2 (8 ∷ []) false ≡ some (true, b2))
bloom_string_stays_example =
    bloom_string_stays five_hashes 40 empty (8 ∷ []) some_ops refl empty-IsBloom
