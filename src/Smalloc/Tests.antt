-- ===== src/Smalloc/Tests.antt =====
-- smalloc.c: runs, and the theorems at a pool of two words.
use raptor_mark.Common.{
  ℕ, zero, suc, ◌+◌, ◌*◌, ◌≤◌, ◌<◌, ◌≡◌, ◌≢◌, refl, ne→==, ◌⊎◌, arith, none, some, [], ◌∷◌,
}
use raptor_mark.Common.Count.{free_count}
use raptor_mark.Smalloc.{
  Pool, find_next_zero, shift_right, smalloc_blocks, smalloc_pool, sfree_pool, search_loop,
  out_of_rounds, size_to_blocks, blocks_iter, mask_cmp, mask_set, this_round, round_mask,
  find_best_index, non_full_from, size_to_alloc_size, fill_redzone, write, clear,
}
use raptor_mark.Smalloc.Blocks.{busy, WordsFit}
use raptor_mark.Smalloc.Search.{search_loop_ends}
use raptor_mark.Smalloc.WellFormed.{IsPool, digit_of}
use raptor_mark.Smalloc.Alloc.{IsGranted, smalloc_blocks-IsGranted, smalloc_blocks_disjoint}
use raptor_mark.Smalloc.OneBlock.{smalloc_blocks_one}
use raptor_mark.Smalloc.RoundTrip.{sfree_pool-smalloc_pool}
use raptor_mark.Ffz.{ffz, ffs64, ffs_step}

-- Two words; the first seven blocks are taken.
abbrev two_words : Pool
two_words = record {
  map = 4096;
  bitmap = 127 ∷ 0 ∷ [];
  free_blocks = 57;
  nr_blocks = 2;
  next_non_full = 0;
  memory = λ a. 7;
}

two_words-WordsFit : WordsFit (127 ∷ 0 ∷ [])
two_words-WordsFit zero = omega arith
two_words-WordsFit (suc zero) = omega arith
two_words-WordsFit (suc (suc j)) = omega arith

two_words_counted : 57 ≡ free_count (digit_of (127 ∷ 0 ∷ [])) 64
unfolding free_count digit_of busy
two_words_counted = refl

two_words-IsPool : IsPool two_words
two_words-IsPool = record {
  words_eq = refl;
  fit = two_words-WordsFit;
  counted = two_words_counted;
  start = omega arith;
  small = omega arith;
  map_pos = omega arith;
}

-- Thirty blocks do not fit into the first word, and cross into the second.
abbrev thirty_taken : Pool
thirty_taken = record two_words { bitmap = 0xffff_ffff ∷ 0x1f ∷ []; free_blocks = 27 }

thirty : smalloc_blocks two_words 960 ≡ some (4320, thirty_taken)
unfolding smalloc_blocks find_best_index non_full_from search_loop find_next_zero shift_right ffz
    ffs64 ffs_step size_to_blocks blocks_iter mask_cmp mask_set this_round round_mask
thirty = refl

-- After a block that does not fit, the rest of a word that has no clear digit leads to an undefined shift.
abbrev one_hole : Pool
one_hole = record two_words { bitmap = 0xffff_fffe ∷ 0 ∷ []; free_blocks = 33 }

hole_undefined : smalloc_blocks one_hole 64 ≡ none
unfolding smalloc_blocks find_best_index non_full_from search_loop find_next_zero shift_right ffz
    ffs64 ffs_step size_to_blocks blocks_iter mask_cmp mask_set this_round round_mask
hole_undefined = refl

search_loop_ends_example : search_loop (2 * 32 + 1) 2 (127 ∷ 0 ∷ []) 30 0 0 ≢ out_of_rounds
search_loop_ends_example =
    search_loop_ends 2 (127 ∷ 0 ∷ []) 30 0 refl two_words-WordsFit (omega arith) (omega arith)

smalloc_blocks-IsGranted_example : IsGranted two_words (size_to_blocks 960) 4320 thirty_taken
smalloc_blocks-IsGranted_example =
    smalloc_blocks-IsGranted two_words 960 4320 thirty_taken two_words-IsPool (omega arith)
      (omega arith) thirty (omega arith)

-- Two more blocks behind those.
abbrev two_more : Pool
two_more = record thirty_taken {
  next_non_full = 1;
  bitmap = 0xffff_ffff ∷ 0x7f ∷ [];
  free_blocks = 25;
}

then_two : smalloc_blocks thirty_taken 64 ≡ some (5280, two_more)
unfolding smalloc_blocks find_best_index non_full_from search_loop find_next_zero shift_right ffz
    ffs64 ffs_step size_to_blocks blocks_iter mask_cmp mask_set this_round round_mask
then_two = refl

smalloc_blocks_disjoint_example :
    (4320 + size_to_blocks 960 * 32 ≤ 5280) ⊎ (5280 + size_to_blocks 64 * 32 ≤ 4320)
smalloc_blocks_disjoint_example =
    smalloc_blocks_disjoint two_words 960 64 4320 5280 thirty_taken two_more two_words-IsPool
      (omega arith) (omega arith) (omega arith) (omega arith) thirty (omega arith) then_two
      (omega arith)

smalloc_blocks_one_example :
    (ptr : ℕ) × (p' : Pool) × (smalloc_blocks two_words 20 ≡ some (ptr, p'))
    × (ptr ≢ 0)
    × (p'.free_blocks + 1 ≡ 57)
smalloc_blocks_one_example =
    smalloc_blocks_one two_words 20 two_words-IsPool (omega arith) (omega arith) (omega arith)

-- Forty bytes in two blocks, with the header in front.
abbrev forty : Pool
forty = record two_words {
  bitmap = 511 ∷ 0 ∷ [];
  free_blocks = 55;
  memory = clear (fill_redzone (λ a. 7) 4320 (size_to_alloc_size 40)) 4336 40;
}

forty_granted : smalloc_pool two_words 40 ≡ some (4336, forty)
unfolding smalloc_pool smalloc_blocks find_best_index non_full_from search_loop find_next_zero
    shift_right ffz ffs64 ffs_step size_to_blocks blocks_iter mask_cmp mask_set this_round
    round_mask size_to_alloc_size
forty_granted = refl

write_elsewhere :
    (memory : ℕ → ℕ) (address value a : ℕ) → a ≢ address → write memory address value a ≡ memory a
unfolding write
write_elsewhere memory address value a ne = rw (ne→== a address ne) refl

forty_kept : (a : ℕ) → (a < 4336) ⊎ (4336 + 40 ≤ a) → write forty.memory 4340 9 a ≡ forty.memory a
forty_kept a out = write_elsewhere forty.memory 4340 9 a (omega (arith, out))

sfree_pool-smalloc_pool_example :
    (q : Pool) × (sfree_pool (record forty { memory = write forty.memory 4340 9 }) 4336 ≡ some q)
    × (q.bitmap ≡ 127 ∷ 0 ∷ [])
    × (q.free_blocks ≡ 57)
    × IsPool q
sfree_pool-smalloc_pool_example =
    sfree_pool-smalloc_pool two_words 40 4336 forty (write forty.memory 4340 9) two_words-IsPool
      (omega arith) forty_granted (omega arith) forty_kept
