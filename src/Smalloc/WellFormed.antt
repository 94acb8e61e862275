-- ===== src/Smalloc/WellFormed.antt =====
-- smalloc.c: well-formed pools, and `find_best_index`.
use native.Mathlib.Decide.{ℕ_discrete}
use raptor_mark.Common.{
  ℕ, zero, suc, ◌+◌, ◌-◌, ◌*◌, ◌/◌, ◌%◌, ◌^◌, ◌≤◌, ◌<◌, ◌≡◌, ◌≢◌, refl, sym, ap, ◌∙◌, arith, inl,
  inr, Option, none, some, List, length, get_or, eq→==, ne→==, Option-cases, some_injective,
  none_ne,
}
use raptor_mark.Common.Bits.{bit, bit-mask_low}
use raptor_mark.Common.Count.{free_count, free_count_range, free_count_ones}
use raptor_mark.Smalloc.{Pool, all_busy, non_full_from, find_best_index}
use raptor_mark.Smalloc.Blocks.{busy, WordsFit, AllBlocks, IsChanged}

-- The digit of block number `m`.
unfoldable pub digit_of : List ℕ → ℕ → ℕ
digit_of bitmap m = busy bitmap (m / 32) (m % 32)

-- The bitmap has the digits of all blocks, `free_blocks` is their count, and the area lies in the
-- address space. A pool has less than 4 GiB, since its size is an `unsigned int`.
pub record IsPool (p : Pool) : Type 0 where
  pub words_eq : length p.bitmap ≡ p.nr_blocks
  pub fit : WordsFit p.bitmap
  pub counted : p.free_blocks ≡ free_count (digit_of p.bitmap) (p.nr_blocks * 32)
  pub start : p.next_non_full < p.nr_blocks
  pub small : p.nr_blocks < 2 ^ 22
  pub map_pos : 0 < p.map

-- Taking blocks takes their number from the count.
pub taken_count :
    (before after : List ℕ) (b n words : ℕ)
    → b + n ≤ words * 32
    → AllBlocks before b n 0
    → IsChanged before b n 1 after
    → free_count (digit_of before) (words * 32) ≡ free_count (digit_of after) (words * 32) + n
unfolding digit_of
taken_count before after b n words within free c =
    free_count_range _ _ b n (words * 32)
      (λ m lt. sym (c.below (m / 32) (m % 32) (omega arith) (omega arith)))
      (λ m le lt. free (m / 32) (m % 32) (omega arith) (omega arith) (omega arith))
      (λ m le lt. c.inside (m / 32) (m % 32) (omega arith) (omega arith) (omega arith))
      (λ m le. sym (c.above (m / 32) (m % 32) (omega arith) (omega arith)))
    ∙ omega arith

-- The first word that is not full.
non_full_from-some :
    (left : ℕ) (bitmap : List ℕ) (i k : ℕ)
    → non_full_from left bitmap i ≡ some k
    → (i ≤ k) × (k < i + left) × (get_or bitmap k 0 ≢ all_busy)
unfolding non_full_from
non_full_from-some zero bitmap i k h = absurd (none_ne h)
non_full_from-some (suc left) bitmap i k h = elim (ℕ_discrete (get_or bitmap i 0) all_busy) [
  | yes full ↦
      let later =
        non_full_from-some left bitmap (i + 1) k
          (sym (rw (eq→== (get_or bitmap i 0) all_busy full) refl) ∙ h) in
      (omega (arith, later.0), omega (arith, later.1), later.2)
  | no part ↦
      let e : i ≡ k =
        some_injective (sym (rw (ne→== (get_or bitmap i 0) all_busy part) refl) ∙ h) in
      (omega arith, omega arith, λ f. part (ap (λ (t : ℕ). get_or bitmap t 0) e ∙ f))
]

non_full_from-none :
    (left : ℕ) (bitmap : List ℕ) (i k : ℕ)
    → non_full_from left bitmap i ≡ none
    → i ≤ k
    → k < i + left
    → get_or bitmap k 0 ≡ all_busy
unfolding non_full_from
non_full_from-none zero bitmap i k h le lt = absurd (omega arith)
non_full_from-none (suc left) bitmap i k h le lt = elim (ℕ_discrete (get_or bitmap i 0) all_busy) [
  | yes full ↦ elim (ℕ_discrete i k) [
    | yes e ↦ ap (λ (t : ℕ). get_or bitmap t 0) (sym e) ∙ full
    | no ne ↦
        non_full_from-none left bitmap (i + 1) k
          (sym (rw (eq→== (get_or bitmap i 0) all_busy full) refl) ∙ h) (omega arith) (omega arith)
  ]
  | no part ↦ absurd (none_ne {a = i} (sym h ∙ rw (ne→== (get_or bitmap i 0) all_busy part) refl))
]

all_busy_count :
    (bitmap : List ℕ) (words : ℕ)
    → ((j : ℕ) → j < words → get_or bitmap j 0 ≡ all_busy)
    → free_count (digit_of bitmap) (words * 32) ≡ 0
unfolding digit_of busy
all_busy_count bitmap words h = free_count_ones _ (words * 32) λ m lt.
    ap (λ (w : ℕ). bit w (m % 32)) (h (m / 32) (omega arith))
    ∙ bit-mask_low 32 (m % 32) (omega arith)

-- With a block left, the first word that may have one is found.
pub find_best_index-some :
    (p : Pool)
    → IsPool p
    → 0 < p.free_blocks
    → (best : ℕ) × (find_best_index p ≡ some best)
      × (best < p.nr_blocks)
      × (get_or p.bitmap best 0 ≢ all_busy)
unfolding find_best_index
find_best_index-some p v left =
    rw (ne→== p.free_blocks 0 (omega arith)) (elim (Option-cases behind) [
      | inr (best, e) ↦
          let at = non_full_from-some _ p.bitmap p.next_non_full best e in
          rw e (best, refl, omega (arith, at.1, v.start), at.2)
      | inl e ↦ rw e (elim (Option-cases (non_full_from p.nr_blocks p.bitmap 0)) [
        | inr (best, e') ↦
            let at = non_full_from-some _ p.bitmap 0 best e' in
            rw e' (best, refl, omega (arith, at.1), at.2)
        | inl e' ↦ absurd (
            omega (
              arith,
              v.counted,
              all_busy_count p.bitmap p.nr_blocks λ j lt.
                  non_full_from-none p.nr_blocks p.bitmap 0 j e' (omega arith) (omega arith),
            ))
      ])
    ])
  where
    behind : Option ℕ
    behind = non_full_from (p.nr_blocks - p.next_non_full) p.bitmap p.next_non_full
