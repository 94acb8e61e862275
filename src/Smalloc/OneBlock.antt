-- ===== src/Smalloc/OneBlock.antt =====
-- smalloc.c: `__smalloc_pool`, asked for one block.
use raptor_mark.Common.{
  ℕ, suc, ◌+◌, ◌-◌, ◌*◌, ◌≤◌, ◌<◌, ◌≡◌, ◌≢◌, ap, ◌∙◌, arith, true, some, List, get_or, u32,
}
use raptor_mark.Common.Bits.{bit}
use raptor_mark.Smalloc.{
  Pool, size_to_blocks, smalloc_blocks, mask_cmp, mask_set, found, blocks_iter, all_busy,
  search_loop, find_next_zero,
}
use raptor_mark.Smalloc.Blocks.{
  busy, AllBlocks, IsChanged, mask_cmp-IsMaskChange, mask_set-IsMaskChange,
}
use raptor_mark.Smalloc.Rounds.{IsRange, blocks_iter-IsChanged}
use raptor_mark.Smalloc.Zero.{find_next_zero-first}
use raptor_mark.Smalloc.Search.{round_taken}
use raptor_mark.Smalloc.WellFormed.{IsPool, find_best_index-some}
use raptor_mark.Smalloc.Alloc.{outcome, answer_found}

-- The first digit of the word that is clear is taken.
first_round :
    (p : Pool) (best : ℕ)
    → IsPool p
    → best < p.nr_blocks
    → get_or p.bitmap best 0 ≢ all_busy
    → (idx : ℕ) × (bitmap : List ℕ) × (outcome p 1 best ≡ found best idx bitmap)
unfolding busy
first_round p best v lt part = (
  idx,
  put.0,
  rounds_suc
      ∙ round_taken (p.nr_blocks * 32) p.nr_blocks p.bitmap 1 best 0 idx lt part z.1 same.0 put.0
          true same.1 put.1,
)
  where
    rounds_suc :
        outcome p 1 best ≡ search_loop (suc (p.nr_blocks * 32)) p.nr_blocks p.bitmap 1 best 0
    rounds_suc =
        ap (λ (r : ℕ). search_loop r p.nr_blocks p.bitmap 1 best 0) {y = suc (p.nr_blocks * 32)}
          (omega arith)

    z :
        (idx : ℕ) × (find_next_zero (get_or p.bitmap best 0) 0 ≡ some idx)
        × (idx < 32)
        × (bit (get_or p.bitmap best 0) idx ≡ 0)
        × ((k : ℕ) → k < idx → bit (get_or p.bitmap best 0) k ≡ 1)
    z = find_next_zero-first (get_or p.bitmap best 0) (v.fit best) part

    idx : ℕ
    idx = z.0

    range : IsRange 1 p.nr_blocks p.bitmap best idx 1
    range = record {
      enough = omega arith;
      idx-lt = z.2;
      small = omega arith;
      words_eq = v.words_eq;
      inside = omega (arith, z.2);
      fit = v.fit;
    }

    free : AllBlocks p.bitmap (best * 32 + idx) 1 0
    free j k k-lt le h =
        ap (λ (t : ℕ). bit (get_or p.bitmap t 0) k) {x = j} {y = best} (omega (arith, z.2))
        ∙ ap (λ (t : ℕ). bit (get_or p.bitmap best 0) t) {x = k} {y = idx} (omega (arith, z.2))
        ∙ z.3

    same :
        (bitmap : List ℕ) × (blocks_iter mask_cmp 1 p.nr_blocks p.bitmap best idx 1
          ≡ some (true, bitmap))
        × IsChanged p.bitmap (best * 32 + idx) 1 0 bitmap
    same =
        blocks_iter-IsChanged mask_cmp 0 0 mask_cmp-IsMaskChange 1 p.nr_blocks p.bitmap best idx 1
          range free

    put :
        (bitmap : List ℕ) × (blocks_iter mask_set 1 p.nr_blocks p.bitmap best idx 1
          ≡ some (true, bitmap))
        × IsChanged p.bitmap (best * 32 + idx) 1 1 bitmap
    put =
        blocks_iter-IsChanged mask_set 0 1 mask_set-IsMaskChange 1 p.nr_blocks p.bitmap best idx 1
          range free

one_block : (size : ℕ) → 0 < size → size ≤ 32 → size_to_blocks size ≡ 1
unfolding size_to_blocks
one_block size pos le = omega arith

-- `__smalloc_pool` on a well-formed pool with a free block, asked for at least one byte and at most the
-- 32 bytes of a block, returns an address other than NULL, and the count of free blocks drops by one.
pub smalloc_blocks_one :
    (p : Pool) (size : ℕ)
    → IsPool p
    → 0 < p.free_blocks
    → 0 < size
    → size ≤ 32
    → (ptr : ℕ) × (p' : Pool) × (smalloc_blocks p size ≡ some (ptr, p'))
      × (ptr ≢ 0)
      × (p'.free_blocks + 1 ≡ p.free_blocks)
smalloc_blocks_one p size v left pos le =
    let b = find_best_index-some p v left in
    let f = first_round p b.0 v b.2 b.3 in
    let one = one_block size pos le in
    (
      p.map + u32 (b.0 * 1024 + f.0 * 32),
      record p {
        next_non_full = b.0;
        bitmap = f.1;
        free_blocks = p.free_blocks - size_to_blocks size;
      },
      answer_found p size b.0 (omega (arith, one)) b.1 b.0 f.0 f.1
          (ap (λ (n : ℕ). outcome p n b.0) one ∙ f.2),
      omega (arith, v.map_pos),
      omega (arith, one),
    )
