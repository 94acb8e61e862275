-- ===== src/Smalloc/Release.antt =====
-- smalloc.c: `smalloc_pool` and `sfree_pool`.
use native.Mathlib.Decide.{dec_lt}
use raptor_mark.Common.{
  ℕ, ◌+◌, ◌-◌, ◌*◌, ◌/◌, ◌%◌, ◌^◌, ◌≤◌, ◌<◌, ◌≡◌, refl, sym, ap, ◌∙◌, arith, true, some, List,
  get_or_ext, ne→==, lt→ltb, ge→ltb, le→leb, ltb, if◌then◌else◌,
}
use raptor_mark.Common.Bits.{eq_of_low_bits}
use raptor_mark.Common.Count.{free_count, free_count_range}
use raptor_mark.Smalloc.{
  Pool, size_to_blocks, mask_clear, blocks_iter, ptr_valid, redzones_intact, sfree_pool,
  size_to_alloc_size, postred_ptr, write, clear, fill_redzone, pre_red, post_red,
}
use raptor_mark.Smalloc.Blocks.{busy, WordsFit, AllBlocks, IsChanged, mask_clear-IsMaskChange}
use raptor_mark.Smalloc.Rounds.{blocks_iter-IsChanged}
use raptor_mark.Smalloc.WellFormed.{IsPool, digit_of}

-- Freeing blocks gives their number back to the count.
freed_count :
    (before after : List ℕ) (b n words : ℕ)
    → b + n ≤ words * 32
    → AllBlocks before b n 1
    → IsChanged before b n 0 after
    → free_count (digit_of after) (words * 32) ≡ free_count (digit_of before) (words * 32) + n
unfolding digit_of
freed_count before after b n words within taken c =
    free_count_range _ _ b n (words * 32)
      (λ m lt. c.below (m / 32) (m % 32) (omega arith) (omega arith))
      (λ m le lt. c.inside (m / 32) (m % 32) (omega arith) (omega arith) (omega arith))
      (λ m le lt. taken (m / 32) (m % 32) (omega arith) (omega arith) (omega arith))
      (λ m le. c.above (m / 32) (m % 32) (omega arith) (omega arith))
    ∙ omega arith

-- The header at `hdr` is that of `n` blocks that are taken.
pub record IsBlock (p : Pool) (hdr n i idx : ℕ) : Type 0 where
  pub address : hdr ≡ p.map + (i * 1024 + idx * 32)
  pub idx-lt : idx < 32
  pub within : i * 32 + idx + n ≤ p.nr_blocks * 32
  pub pos : 0 < n
  pub small : n < 2 ^ 31
  pub taken : AllBlocks p.bitmap (i * 32 + idx) n 1
  pub size : size_to_blocks (p.memory hdr) ≡ n
  pub intact : redzones_intact p.memory hdr ≡ true

pub sfree_pool_lem :
    (p : Pool) (hdr n i idx : ℕ)
    → IsPool p
    → IsBlock p hdr n i idx
    → (q : Pool) × (sfree_pool p (hdr + 16) ≡ some q)
      × IsPool q
      × IsChanged p.bitmap (i * 32 + idx) n 0 q.bitmap
      × (q.free_blocks ≡ p.free_blocks + n)
unfolding sfree_pool ptr_valid
sfree_pool_lem p hdr n i idx v k = rw (ne→== (hdr + 16) 0 (omega arith)) (
    rw back (
      rw (le→leb p.map hdr (omega arith)) (
        rw inside (
          rw k.intact
            (rw size (rw at_i (rw at_idx (rw freed.1 (q, refl, valid, freed.2, count)))))))))
  where
    back : hdr + 16 - 16 ≡ hdr
    back = omega arith

    inside : ltb hdr (p.map + p.nr_blocks * 1024 % 2 ^ 32) ≡ true
    inside = lt→ltb hdr _ (omega arith)

    size : size_to_blocks (p.memory hdr) ≡ n
    size = k.size

    at_i : (hdr - p.map) / 1024 ≡ i
    at_i = omega arith

    at_idx : (hdr - p.map) % 1024 / 32 ≡ idx
    at_idx = omega arith

    freed :
        (bitmap : List ℕ) × (blocks_iter mask_clear n p.nr_blocks p.bitmap i idx n
          ≡ some (true, bitmap))
        × IsChanged p.bitmap (i * 32 + idx) n 0 bitmap
    freed =
        blocks_iter-IsChanged mask_clear 1 0 mask_clear-IsMaskChange n p.nr_blocks p.bitmap i idx n
          (record {
            enough = omega arith;
            idx-lt = k.idx-lt;
            small = k.small;
            words_eq = v.words_eq;
            inside = k.within;
            fit = v.fit;
          })
          k.taken

    word : ℕ
    word = (hdr + 16 - 16 - p.map) / 1024

    q : Pool
    q = record p {
      bitmap = freed.0;
      free_blocks = p.free_blocks + size_to_blocks (p.memory (hdr + 16 - 16));
      next_non_full = if ltb word p.next_non_full then word else p.next_non_full;
    }

    count : q.free_blocks ≡ p.free_blocks + n
    count =
        ap (λ (a : ℕ). p.free_blocks + size_to_blocks (p.memory a)) back
        ∙ ap (λ (m : ℕ). p.free_blocks + m) k.size

    valid : IsPool q
    valid = record {
      words_eq = freed.2.same_length ∙ v.words_eq;
      fit = freed.2.fit;
      counted =
          count
          ∙ ap (λ (m : ℕ). m + n) v.counted
          ∙ sym
              (freed_count p.bitmap freed.0 (i * 32 + idx) n p.nr_blocks k.within k.taken freed.2);
      start = elim (dec_lt word p.next_non_full) [
        | yes lt ↦ rw (lt→ltb word p.next_non_full lt) (omega (arith, v.start))
        | no ge ↦ rw (ge→ltb word p.next_non_full (omega arith)) v.start
      ];
      small = v.small;
      map_pos = v.map_pos;
    }

-- Blocks that were taken and are free again are those from before.
pub bitmap_restored :
    (before taken after : List ℕ) (b n : ℕ)
    → WordsFit before
    → AllBlocks before b n 0
    → IsChanged before b n 1 taken
    → IsChanged taken b n 0 after
    → after ≡ before
unfolding busy
bitmap_restored before taken after b n fit free c d =
    get_or_ext 0 after before (d.same_length ∙ c.same_length) λ j lt.
      eq_of_low_bits 32 _ _ (d.fit j) (fit j) λ k k-lt. elim (dec_lt (j * 32 + k) b) [
        | yes below ↦ d.below j k k-lt below ∙ c.below j k k-lt below
        | no from ↦ elim (dec_lt (j * 32 + k) (b + n)) [
          | yes inside ↦
              d.inside j k k-lt (omega arith) inside ∙ sym (free j k k-lt (omega arith) inside)
          | no above ↦ d.above j k k-lt (omega arith) ∙ c.above j k k-lt (omega arith)
        ]
      ]

-- What `smalloc_pool` has made of the memory, at the words of the header and behind the bytes.
pub record IsFenced (memory : ℕ → ℕ) (hdr size : ℕ) : Type 0 where
  pub size_at : memory hdr ≡ size_to_alloc_size size
  pub pre : memory (hdr + 8) ≡ pre_red
  pub post : memory (postred_ptr hdr (size_to_alloc_size size)) ≡ post_red

pub fill-IsFenced :
    (memory : ℕ → ℕ) (hdr size : ℕ)
    → IsFenced (clear (fill_redzone memory hdr (size_to_alloc_size size)) (hdr + 16) size) hdr size
unfolding clear fill_redzone write size_to_alloc_size postred_ptr
fill-IsFenced memory hdr size = record {
  size_at = ground arith;
  pre = ground arith;
  post = ground arith;
}
