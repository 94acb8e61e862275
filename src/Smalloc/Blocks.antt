-- ===== src/Smalloc/Blocks.antt =====
-- smalloc.c: `blocks_iter` over the digits of a bitmap. Block `k` of word `j` has the number `j * 32 + k`.
use native.Mathlib.Decide.{dec_lt, ℕ_discrete}
use raptor_mark.Common.{
  ℕ, ◌+◌, ◌-◌, ◌*◌, ◌%◌, ◌^◌, ◌≤◌, ◌<◌, ◌≡◌, refl, ◌∙◌, arith, bit_and, bit_or, min, Bool, true,
  Option, some, List, length, get_or, eq→==, ne→==, lt→ltb,
}
use raptor_mark.Common.Bits.{
  bit, bit_cong, bit-bit_and, bit-bit_or, bit-zero, bit-mul_low, bit-mul_high, bit-mod_low,
  bit_high, bit-mask_low, bit-complement, bit-lt-two, eq_of_low_bits, eq_of_bits, bit_and-lt,
  bit_or-lt, two_pow_pos,
}
use raptor_mark.Smalloc.{all_busy, mask_cmp, mask_clear, mask_set, this_round, round_mask}

-- The digit of a block.
unfoldable pub busy : List ℕ → ℕ → ℕ → ℕ
busy bitmap j k = bit (get_or bitmap j 0) k

-- The words of a bitmap are `unsigned int`.
abbrev pub WordsFit : List ℕ → Type 0
WordsFit bitmap = (j : ℕ) → get_or bitmap j 0 < 2 ^ 32

-- The `n` blocks from number `b` on have the digit `d`.
abbrev pub AllBlocks : List ℕ → ℕ → ℕ → ℕ → Type 0
AllBlocks bitmap b n d =
    (j k : ℕ) → k < 32 → b ≤ j * 32 + k → j * 32 + k < b + n → busy bitmap j k ≡ d

-- The `n` blocks from number `b` on get the digit `d`, and the others keep theirs.
pub record IsChanged (before : List ℕ) (b n d : ℕ) (after : List ℕ) : Type 0 where
  pub same_length : length after ≡ length before
  pub fit : WordsFit after
  pub inside : AllBlocks after b n d
  pub below : (j k : ℕ) → k < 32 → j * 32 + k < b → busy after j k ≡ busy before j k
  pub above : (j k : ℕ) → k < 32 → b + n ≤ j * 32 + k → busy after j k ≡ busy before j k

pub this_round-min : (idx n : ℕ) → idx < 32 → n < 2 ^ 31 → this_round idx n ≡ min n (32 - idx)
unfolding this_round
this_round-min idx n p q = ground arith

-- The mask of a round has the ones from `idx` on.
pub record IsMask (idx this mask : ℕ) : Type 0 where
  pub fit : mask < 2 ^ 32
  pub low : (k : ℕ) → k < idx → bit mask k ≡ 0
  pub ones : (k : ℕ) → idx ≤ k → k < idx + this → bit mask k ≡ 1
  pub high : (k : ℕ) → idx + this ≤ k → bit mask k ≡ 0

shifted-IsMask :
    (idx this : ℕ) → idx + this ≤ 32 → IsMask idx this ((2 ^ this - 1) * 2 ^ idx % 2 ^ 32)
shifted-IsMask idx this h = record {
  fit = omega arith;
  low = λ k lt.
      bit-mod_low ((2 ^ this - 1) * 2 ^ idx) 32 k (omega arith)
      ∙ bit-mul_low (2 ^ this - 1) idx k lt;
  ones = λ k le lt. at k le (omega arith) ∙ bit-mask_low this (k - idx) (omega arith);
  high = λ k le. elim (dec_lt k 32) [
    | yes lt ↦
        at k (omega arith) lt
        ∙ bit_high (2 ^ this - 1) this (k - idx) (omega (arith, two_pow_pos this)) (omega arith)
    | no ge ↦ bit_high _ 32 k (omega arith) (omega arith)
  ];
}
  where
    at :
        (k : ℕ)
        → idx ≤ k
        → k < 32
        → bit ((2 ^ this - 1) * 2 ^ idx % 2 ^ 32) k ≡ bit (2 ^ this - 1) (k - idx)
    at k le lt =
        bit-mod_low ((2 ^ this - 1) * 2 ^ idx) 32 k lt
        ∙ bit_cong _ _ k (idx + (k - idx)) refl (omega arith)
        ∙ bit-mul_high (2 ^ this - 1) idx (k - idx)

pub round_mask-IsMask :
    (this idx : ℕ)
    → idx < 32
    → idx + this ≤ 32
    → (mask : ℕ) × (round_mask this idx ≡ some mask) × IsMask idx this mask
unfolding round_mask
round_mask-IsMask this idx lt fits = elim (ℕ_discrete this 32) [
  | yes whole ↦ rw (eq→== this 32 whole) (
    all_busy,
    refl,
    record {
      fit = omega arith;
      low = λ k lt. absurd (omega (arith, whole));
      ones = λ k le lt. bit-mask_low 32 k (omega (arith, whole));
      high = λ k le. bit_high all_busy 32 k (omega arith) (omega (arith, whole));
    },
  )
  | no part ↦ rw (ne→== this 32 part) (
      rw (lt→ltb this 32 (omega (arith, part))) (
        rw (lt→ltb idx 32 lt)
          ((2 ^ this - 1) * 2 ^ idx % 2 ^ 32, refl, shifted-IsMask idx this fits)))
]

-- The word keeps the digits out of the mask and gets `d` for those of the mask.
pub record IsMasked (word mask d word' : ℕ) : Type 0 where
  pub fit : word' < 2 ^ 32
  pub ones : (k : ℕ) → k < 32 → bit mask k ≡ 1 → bit word' k ≡ d
  pub zeros : (k : ℕ) → k < 32 → bit mask k ≡ 0 → bit word' k ≡ bit word k

-- The operation goes on at a word whose digits of the mask are all `want`, and makes them `d`.
abbrev pub IsMaskChange : (ℕ → ℕ → Option (Bool × ℕ)) → ℕ → ℕ → Type 0
IsMaskChange func want d =
    (word mask : ℕ)
    → word < 2 ^ 32
    → mask < 2 ^ 32
    → ((k : ℕ) → k < 32 → bit mask k ≡ 1 → bit word k ≡ want)
    → (word' : ℕ) × (func word mask ≡ some (true, word')) × IsMasked word mask d word'

no_common :
    (word mask : ℕ)
    → mask < 2 ^ 32
    → ((k : ℕ) → k < 32 → bit mask k ≡ 1 → bit word k ≡ 0)
    → bit_and word mask ≡ 0
no_common word mask fits h = eq_of_bits _ _ λ k. bit-bit_and word mask k ∙ elim (dec_lt k 32) [
  | yes lt ↦ elim (ℕ_discrete (bit mask k) 1) [
    | yes one ↦ omega (arith, h k lt one, one, bit-zero k)
    | no other ↦ omega (arith, other, bit-lt-two mask k, bit-zero k)
  ]
  | no ge ↦ omega (arith, bit_high mask 32 k fits (omega arith), bit-zero k)
]

pub mask_cmp-IsMaskChange : IsMaskChange mask_cmp 0 0
unfolding mask_cmp
mask_cmp-IsMaskChange word mask fit-word fit-mask free =
    rw (eq→== (bit_and word mask) 0 (no_common word mask fit-mask free))
      (word, refl, record { fit = fit-word; ones = free; zeros = λ k lt z. refl })

pub mask_set-IsMaskChange : IsMaskChange mask_set 0 1
unfolding mask_set
mask_set-IsMaskChange word mask fit-word fit-mask free =
    rw (eq→== (bit_and word mask) 0 (no_common word mask fit-mask free)) (
      bit_or word mask,
      refl,
      record {
        fit = bit_or-lt word mask 32 fit-word fit-mask;
        ones = λ k lt one. omega (arith, bit-bit_or word mask k, one, bit-lt-two word k);
        zeros = λ k lt z. omega (arith, bit-bit_or word mask k, z);
      },
    )

pub mask_clear-IsMaskChange : IsMaskChange mask_clear 1 0
unfolding mask_clear
mask_clear-IsMaskChange word mask fit-word fit-mask taken =
    rw (eq→== (bit_and word mask) mask covered) (
      bit_and word (all_busy - mask),
      refl,
      record {
        fit = bit_and-lt word _ 32 fit-word;
        ones = λ k lt one. omega (arith, both k, bit-complement mask 32 k fit-mask lt, one);
        zeros = λ k lt z.
            omega (arith, both k, bit-complement mask 32 k fit-mask lt, z, bit-lt-two word k);
      },
    )
  where
    both :
        (k : ℕ)
        → bit (bit_and word (all_busy - mask)) k ≡ min (bit word k) (bit (all_busy - mask) k)
    both k = bit-bit_and word (all_busy - mask) k

    covered : bit_and word mask ≡ mask
    covered = eq_of_low_bits 32 _ _ (bit_and-lt word mask 32 fit-word) fit-mask λ k lt.
        bit-bit_and word mask k ∙ elim (ℕ_discrete (bit mask k) 1) [
          | yes one ↦ omega (arith, taken k lt one, one)
          | no other ↦ omega (arith, other, bit-lt-two mask k)
        ]
