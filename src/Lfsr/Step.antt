-- ===== src/Lfsr/Step.antt =====
-- lib/lfsr.c: one step of a register of `m + 1` digits, and several.
use native.Mathlib.Decide.{dec_lt, ℕ_discrete}
use raptor_mark.Common.{
  ℕ, zero, suc, ◌+◌, ◌-◌, ◌*◌, ◌%◌, ◌^◌, ◌<◌, ◌≡◌, ◌≢◌, refl, sym, ap, ◌∙◌, arith, min, bit_and,
  bit_or, sub64, ◌>>>◌,
}
use raptor_mark.Common.Bits.{
  bit, flip, bit_cong, bit-bit_and, bit-bit_or, bit-bit_xor, bit-zero, bit-div, bit_high,
  bit-mask_low, bit-lt-two, bit_and-mask, eq_of_low_bits, lt_of_bits, two_pow_pos, bit-mul_low,
  bit-mul_high,
}
use raptor_mark.Lfsr.{step, steps}

-- The mask is on exactly if the lowest digit is clear.
gate :
    (v mask i : ℕ)
    → i < 64
    → bit (bit_and (sub64 (bit_and v 1) 1) mask) i ≡ min (1 - bit v 0) (bit mask i)
gate v mask i lt = bit-bit_and (sub64 (bit_and v 1) 1) mask i ∙ elim (ℕ_discrete (v % 2) 0) [
  | yes even ↦
      let ones : sub64 (bit_and v 1) 1 ≡ 2 ^ 64 - 1 = omega (arith, bit_and-mask 1 v, even) in
      omega (arith, ap (λ (t : ℕ). bit t i) ones, bit-mask_low 64 i lt, even)
  | no odd ↦
      let none : sub64 (bit_and v 1) 1 ≡ 0 = omega (arith, bit_and-mask 1 v, odd) in
      omega (arith, ap (λ (t : ℕ). bit t i) none, bit-zero i, odd)
]

bit-two_pow : (m i : ℕ) → i ≢ m → bit (2 ^ m) i ≡ 0
bit-two_pow m i ne = ap (λ (t : ℕ). bit t i) (omega arith) ∙ elim (dec_lt i m) [
  | yes lt ↦ bit-mul_low 1 m i lt
  | no ge ↦
      bit_cong (1 * 2 ^ m) (1 * 2 ^ m) i (m + (i - m)) refl (omega arith)
      ∙ bit-mul_high 1 m (i - m)
      ∙ bit_high 1 1 (i - m) (omega arith) (omega (arith, ne))
]

bit-two_pow_self : (m : ℕ) → bit (2 ^ m) m ≡ 1
bit-two_pow_self m =
    bit_cong (2 ^ m) (1 * 2 ^ m) m (m + 0) (omega arith) (omega arith) ∙ bit-mul_high 1 m 0

-- The mask of a register of `m + 1` digits, whose highest one is set.
pub record IsXormask (m mask : ℕ) : Type 0 where
  pub m-lt : m < 63
  pub fit : mask < 2 ^ suc m
  pub highest : bit mask m ≡ 1

module _ (m mask : ℕ) (r : IsXormask m mask) where
  shifted : (v i : ℕ) → bit (v >>> 1) i ≡ bit v (1 + i)
  shifted v i = bit-div v 1 i

  step_low :
      (v i : ℕ)
      → i < m
      → bit (step mask (2 ^ m) v) i ≡ flip (bit v (1 + i)) (min (1 - bit v 0) (bit mask i))
  unfolding step
  step_low v i lt = omega (
    arith,
    bit-bit_xor (bit_or (v >>> 1) (2 ^ m)) (bit_and (sub64 (bit_and v 1) 1) mask) i,
    bit-bit_or (v >>> 1) (2 ^ m) i,
    shifted v i,
    bit-two_pow m i (omega arith),
    gate v mask i (omega (arith, r.m-lt)),
  )

  step_highest : (v : ℕ) → v < 2 ^ suc m → bit (step mask (2 ^ m) v) m ≡ bit v 0
  unfolding step
  step_highest v fits = omega (
    arith,
    bit-bit_xor (bit_or (v >>> 1) (2 ^ m)) (bit_and (sub64 (bit_and v 1) 1) mask) m,
    bit-bit_or (v >>> 1) (2 ^ m) m,
    shifted v m,
    bit_high v (suc m) (1 + m) fits (omega arith),
    bit-two_pow_self m,
    gate v mask m (omega (arith, r.m-lt)),
    r.highest,
    bit-lt-two v 0,
  )

  pub step-lt : (v : ℕ) → v < 2 ^ suc m → step mask (2 ^ m) v < 2 ^ suc m
  unfolding step
  step-lt v fits = lt_of_bits _ (suc m) λ i le. omega (
    arith,
    bit-bit_xor (bit_or (v >>> 1) (2 ^ m)) (bit_and (sub64 (bit_and v 1) 1) mask) i,
    bit-bit_or (v >>> 1) (2 ^ m) i,
    bit-bit_and (sub64 (bit_and v 1) 1) mask i,
    shifted v i,
    bit_high v (suc m) (1 + i) fits (omega arith),
    bit-two_pow m i (omega arith),
    bit_high mask (suc m) i r.fit le,
  )

  -- Two values of the register that step to the same value are the same.
  pub step_injective :
      (v w : ℕ) → v < 2 ^ suc m → w < 2 ^ suc m → step mask (2 ^ m) v ≡ step mask (2 ^ m) w → v ≡ w
  step_injective v w v-lt w-lt h = eq_of_low_bits (suc m) v w v-lt w-lt digit
    where
      lowest : bit v 0 ≡ bit w 0
      lowest = sym (step_highest v v-lt) ∙ ap (λ (t : ℕ). bit t m) h ∙ step_highest w w-lt

      digit : (i : ℕ) → i < suc m → bit v i ≡ bit w i
      digit zero lt = lowest
      digit (suc i) lt =
          bit_cong v v (suc i) (1 + i) refl (omega arith)
          ∙ omega (
            arith,
            step_low v i (omega arith),
            step_low w i (omega arith),
            ap (λ (t : ℕ). bit t i) h,
            lowest,
            bit-lt-two v (1 + i),
            bit-lt-two w (1 + i),
            bit-lt-two v 0,
            bit-lt-two mask i,
          )
          ∙ bit_cong w w (1 + i) (suc i) refl (omega arith)

  -- All ones step to themselves, and nothing else steps to them.
  pub step_all_ones : step mask (2 ^ m) (2 ^ suc m - 1) ≡ 2 ^ suc m - 1
  step_all_ones = eq_of_low_bits (suc m) _ _ (step-lt all all-lt) all-lt λ i lt.
      elim (ℕ_discrete i m) [
        | yes e ↦
            ap (bit (step mask (2 ^ m) all)) e
            ∙ step_highest all all-lt
            ∙ bit-mask_low (suc m) 0 (omega arith)
            ∙ sym (bit-mask_low (suc m) i lt)
        | no ne ↦ omega (
          arith,
          step_low all i (omega arith),
          bit-mask_low (suc m) (1 + i) (omega arith),
          bit-mask_low (suc m) 0 (omega arith),
          bit-mask_low (suc m) i lt,
        )
      ]
    where
      all : ℕ
      all = 2 ^ suc m - 1

      all-lt : all < 2 ^ suc m
      all-lt = omega (arith, two_pow_pos (suc m))

  pub steps-lt : (n v : ℕ) → v < 2 ^ suc m → steps mask (2 ^ m) n v < 2 ^ suc m
  unfolding steps
  steps-lt zero v lt = lt
  steps-lt (suc n) v lt = steps-lt n (step mask (2 ^ m) v) (step-lt v lt)

  pub steps_injective :
      (n v w : ℕ)
      → v < 2 ^ suc m
      → w < 2 ^ suc m
      → steps mask (2 ^ m) n v ≡ steps mask (2 ^ m) n w
      → v ≡ w
  unfolding steps
  steps_injective zero v w p q h = h
  steps_injective (suc n) v w p q h =
      step_injective v w p q (
        steps_injective n (step mask (2 ^ m) v) (step mask (2 ^ m) w) (step-lt v p) (step-lt w q) h)

  pub steps_all_ones : (n : ℕ) → steps mask (2 ^ m) n (2 ^ suc m - 1) ≡ 2 ^ suc m - 1
  unfolding steps
  steps_all_ones zero = refl
  steps_all_ones (suc n) = ap (steps mask (2 ^ m) n) step_all_ones ∙ steps_all_ones n
