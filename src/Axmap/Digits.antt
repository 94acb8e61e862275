-- ===== src/Axmap/Digits.antt =====
-- Digits of a word: masks of consecutive ones, and runs of clear digits.
use native.Mathlib.Decide.{dec_lt, ℕ_discrete}
use raptor_mark.Common.{
  ℕ, zero, suc, ◌+◌, ◌-◌, ◌*◌, ◌^◌, ◌≤◌, ◌<◌, ◌≡◌, ◌≢◌, refl, ap, sym, ◌∙◌, ◌⊎◌, inl, inr, bit_and,
  arith, true, false, ◌==◌, ==→eq, ==→ne, Bool-cases, get_or, all_entries, entry_of_all,
}
use raptor_mark.Common.Bits.{
  bit, bit_cong, bit-bit_and, bit-zero, bit-mul_low, bit-mul_high, bit-mod_low, bit_high,
  bit-mask_low, eq_of_bits, two_pow_pos,
}
use raptor_mark.Axmap.{bit_masks, mask_of, AxmapLevel, axmap_isset_fn}

masks_are_ones : all_entries (λ k. get_or bit_masks k 0 == 2 ^ k - 1) 65 ≡ true
unfolding bit_masks all_entries
masks_are_ones = refl

pub get_or-bit_masks : (k : ℕ) → k ≤ 64 → get_or bit_masks k 0 ≡ 2 ^ k - 1
get_or-bit_masks k h = ==→eq _ _ (entry_of_all _ 65 k (omega arith) masks_are_ones)

module _ (k b : ℕ) (fits : b + k ≤ 64) where
  ones : (i : ℕ) → i < 64 → bit (mask_of k b) i ≡ bit ((2 ^ k - 1) * 2 ^ b) i
  unfolding mask_of
  ones i lt =
      bit-mod_low (get_or bit_masks k 0 * 2 ^ b) 64 i lt
      ∙ ap (λ (t : ℕ). bit (t * 2 ^ b) i) (get_or-bit_masks k (omega arith))

  pub bit-mask_below : (i : ℕ) → i < b → bit (mask_of k b) i ≡ 0
  bit-mask_below i lt = ones i (omega arith) ∙ bit-mul_low (2 ^ k - 1) b i lt

  pub bit-mask_inside : (i : ℕ) → b ≤ i → i < b + k → bit (mask_of k b) i ≡ 1
  bit-mask_inside i le lt =
      ones i (omega arith)
      ∙ bit_cong _ _ i (b + (i - b)) refl (omega arith)
      ∙ bit-mul_high (2 ^ k - 1) b (i - b)
      ∙ bit-mask_low k (i - b) (omega arith)

  pub bit-mask_above : (i : ℕ) → b + k ≤ i → bit (mask_of k b) i ≡ 0
  unfolding mask_of
  bit-mask_above i le = elim (dec_lt i 64) [
    | yes lt ↦
        ones i lt
        ∙ bit_cong _ _ i (b + (i - b)) refl (omega arith)
        ∙ bit-mul_high (2 ^ k - 1) b (i - b)
        ∙ bit_high (2 ^ k - 1) k (i - b) (omega (arith, two_pow_pos k)) (omega arith)
    | no ge ↦ bit_high (mask_of k b) 64 i (omega arith) (omega arith)
  ]

pub mask_of-lt : (k b : ℕ) → mask_of k b < 2 ^ 64
unfolding mask_of
mask_of-lt k b = omega arith

-- How many of the `n` digits from `b` on are clear before the first that is set.
pub run : (ℕ → ℕ) → ℕ → ℕ → ℕ
run digit b zero = 0
run digit b (suc n) = elim (digit b == 0) [ true ↦ suc (run digit (b + 1) n) | false ↦ 0 ]

pub run-le : (digit : ℕ → ℕ) (b n : ℕ) → run digit b n ≤ n
unfolding run
run-le digit b zero = omega arith
run-le digit b (suc n) = ground (arith, run-le digit (b + 1) n)

-- A count of clear digits that ends at a set one, or at the end, is the run.
pub run_unique :
    (digit : ℕ → ℕ) (b n k : ℕ)
    → k ≤ n
    → ((i : ℕ) → b ≤ i → i < b + k → digit i ≡ 0)
    → (k ≡ n) ⊎ (digit (b + k) ≢ 0)
    → run digit b n ≡ k
unfolding run
run_unique digit b zero k le clear ends = omega arith
run_unique digit b (suc n) zero le clear ends =
    let e : digit (b + 0) ≡ digit b = ap digit (omega arith) in ground (arith, e)
run_unique digit b (suc n) (suc k) le clear ends =
    let e : digit (b + suc k) ≡ digit (b + 1 + k) = ap digit (omega arith) in
    ground (
      arith,
      clear b (omega arith) (omega arith),
      run_unique digit (b + 1) n k (omega arith) (λ i p q. clear i (omega arith) (omega arith))
          (tail ends e),
    )
  where
    tail :
        (suc k ≡ suc n) ⊎ (digit (b + suc k) ≢ 0)
        → digit (b + suc k) ≡ digit (b + 1 + k)
        → (k ≡ n) ⊎ (digit (b + 1 + k) ≢ 0)
    tail (inl p) e = inl (omega arith)
    tail (inr p) e = inr (λ q. p (e ∙ q))

pub run_clear : (digit : ℕ → ℕ) (b n i : ℕ) → b ≤ i → i < b + run digit b n → digit i ≡ 0
unfolding run
run_clear digit b zero i le lt = absurd (omega arith)
run_clear digit b (suc n) i le lt = elim (Bool-cases (digit b == 0)) [
  | inl clear ↦ elim (dec_lt b i) [
    | yes after ↦ run_clear digit (b + 1) n i (omega arith) (ground (arith, clear))
    | no at ↦ let e : i ≡ b = omega arith in ap digit e ∙ ==→eq _ _ clear
  ]
  | inr set ↦ absurd (ground (arith, set))
]

pub run_ends : (digit : ℕ → ℕ) (b n : ℕ) → run digit b n < n → digit (b + run digit b n) ≢ 0
unfolding run
run_ends digit b zero lt = absurd (omega arith)
run_ends digit b (suc n) lt = elim (Bool-cases (digit b == 0)) [
  | inl clear ↦
      let longer : run digit b (suc n) ≡ suc (run digit (b + 1) n) = ground (arith, clear) in
      λ z. run_ends digit (b + 1) n (omega (arith, longer)) (ap digit (omega (arith, longer)) ∙ z)
  | inr set ↦
      let stopped : run digit b (suc n) ≡ 0 = ground (arith, set) in
      λ z. ==→ne _ _ set (ap digit (omega (arith, stopped)) ∙ z)
]

one_at : (b : ℕ) → bit (1 * 2 ^ b) b ≡ 1
one_at b = bit_cong _ _ b (b + 0) refl (omega arith) ∙ bit-mul_high 1 b 0

one_elsewhere : (b i : ℕ) → i ≢ b → bit (1 * 2 ^ b) i ≡ 0
one_elsewhere b i ne = elim (dec_lt i b) [
  | yes below ↦ bit-mul_low 1 b i below
  | no above ↦
      bit_cong _ _ i (b + suc (i - b - 1)) refl (omega arith)
      ∙ bit-mul_high 1 b (suc (i - b - 1))
      ∙ bit-zero (i - b - 1)
]

-- The test of a digit.
pub axmap_isset_fn-true :
    (al : AxmapLevel) (o b : ℕ) → bit (get_or al.words o 0) b ≡ 1 → axmap_isset_fn al o b ≡ true
unfolding axmap_isset_fn
axmap_isset_fn-true al o b h = elim (Bool-cases (bit_and w (1 * 2 ^ b) == 0)) [
  | inl none ↦ absurd (
      omega (
        arith,
        bit-bit_and w (1 * 2 ^ b) b,
        h,
        one_at b,
        ap (λ (t : ℕ). bit t b) (==→eq _ _ none),
        bit-zero b,
      ))
  | inr some ↦ rw some
]
  where
    w : ℕ
    w = get_or al.words o 0

pub axmap_isset_fn-false :
    (al : AxmapLevel) (o b : ℕ) → bit (get_or al.words o 0) b ≡ 0 → axmap_isset_fn al o b ≡ false
unfolding axmap_isset_fn
axmap_isset_fn-false al o b h = rw (eq_of_bits _ 0 digits)
  where
    w : ℕ
    w = get_or al.words o 0

    digits : (i : ℕ) → bit (bit_and w (1 * 2 ^ b)) i ≡ bit 0 i
    digits i = elim (ℕ_discrete i b) [
      | yes same ↦
          ap (bit (bit_and w (1 * 2 ^ b))) same
          ∙ omega (arith, bit-bit_and w (1 * 2 ^ b) b, h)
          ∙ sym (bit-zero i)
      | no other ↦ omega (arith, bit-bit_and w (1 * 2 ^ b) i, one_elsewhere b i other, bit-zero i)
    ]
