-- ===== src/Bloom/Digits.antt =====
-- lib/bloom.c: the digit of the map that a hash stands for.
use native.Mathlib.Decide.{dec_lt, ℕ_discrete}
use raptor_mark.Common.{
  ℕ, suc, ◌+◌, ◌*◌, ◌/◌, ◌%◌, ◌^◌, ◌<◌, ◌≡◌, ◌≢◌, refl, ap, ◌∙◌, arith, bit_and, bit_or, true,
  false, List, length, get_or, set, get_or-set_self, get_or-set_ne, not, ◌==◌, eq→==, ne→==, max,
}
use raptor_mark.Common.Bits.{
  bit, bit-lt-two, bit_cong, bit-bit_and, bit-bit_or, bit-zero, bit-mul_low, bit-mul_high, bit_high,
  eq_of_bits, two_pow-suc, two_pow_pos, bit_and-mask,
}

-- A single digit.
bit-single_here : (k : ℕ) → bit (1 * 2 ^ k) k ≡ 1
bit-single_here k =
    bit_cong (1 * 2 ^ k) (1 * 2 ^ k) k (k + 0) refl (omega arith) ∙ bit-mul_high 1 k 0

bit-single_other : (k i : ℕ) → i ≢ k → bit (1 * 2 ^ k) i ≡ 0
bit-single_other k i ne = elim (dec_lt i k) [
  | yes lt ↦ bit-mul_low 1 k i lt
  | no ge ↦
      bit_high (1 * 2 ^ k) (suc k) i (omega (arith, two_pow-suc k, two_pow_pos k))
        (omega (arith, ne, ge))
]

-- The digit of the map at a number.
unfoldable pub digit : List ℕ → ℕ → ℕ
digit words n = bit (get_or words (n / 32) 0) (n % 32)

pub digit-lt-two : (words : List ℕ) (n : ℕ) → digit words n < 2
unfolding digit
digit-lt-two words n = bit-lt-two (get_or words (n / 32) 0) (n % 32)

low_digits : (h : ℕ) → bit_and h 31 ≡ h % 32
low_digits h = bit_and-mask 5 h

pub found_true :
    (words : List ℕ) (h : ℕ)
    → digit words h ≡ 1
    → not (bit_and (get_or words (h / 32) 0) (1 * 2 ^ bit_and h 31) == 0) ≡ true
unfolding digit
found_true words h e = rw (low_digits h) (rw (ne→== (bit_and w (1 * 2 ^ k)) 0 some_digit) refl)
  where
    w : ℕ
    w = get_or words (h / 32) 0

    k : ℕ
    k = h % 32

    some_digit : bit_and w (1 * 2 ^ k) ≢ 0
    some_digit z = omega (
      arith,
      ap (λ (t : ℕ). bit t k) z,
      bit-bit_and w (1 * 2 ^ k) k,
      bit-single_here k,
      bit-zero k,
      e,
    )

pub found_false :
    (words : List ℕ) (h : ℕ)
    → digit words h ≡ 0
    → not (bit_and (get_or words (h / 32) 0) (1 * 2 ^ bit_and h 31) == 0) ≡ false
unfolding digit
found_false words h e = rw (low_digits h) (rw (eq→== (bit_and w (1 * 2 ^ k)) 0 no_digit) refl)
  where
    w : ℕ
    w = get_or words (h / 32) 0

    k : ℕ
    k = h % 32

    no_digit : bit_and w (1 * 2 ^ k) ≡ 0
    no_digit = eq_of_bits _ _ λ i. elim (ℕ_discrete i k) [
      | yes here ↦
          omega (arith, bit-bit_and w (1 * 2 ^ k) i, ap (λ (t : ℕ). bit w t) here, e, bit-zero i)
      | no other ↦
          omega (arith, bit-bit_and w (1 * 2 ^ k) i, bit-single_other k i other, bit-zero i)
    ]

-- The word with the digit set, in its place.
abbrev pub put_digit : List ℕ → ℕ → List ℕ
put_digit words h = set words (h / 32) (bit_or (get_or words (h / 32) 0) (1 * 2 ^ bit_and h 31))

module _ (words : List ℕ) (h : ℕ) (inside : h / 32 < length words) where
  put_word :
      (n : ℕ)
      → n / 32 ≡ h / 32
      → digit (put_digit words h) n ≡ max (digit words n) (bit (1 * 2 ^ (h % 32)) (n % 32))
  unfolding digit
  put_word n e = rw e (
      ap (λ (t : ℕ). bit t (n % 32)) (get_or-set_self words (h / 32) _ 0 inside)
      ∙ bit-bit_or (get_or words (h / 32) 0) (1 * 2 ^ bit_and h 31) (n % 32)
      ∙ ap (λ (t : ℕ). max (bit (get_or words (h / 32) 0) (n % 32)) (bit (1 * 2 ^ t) (n % 32)))
          (low_digits h))

  pub digit-put_here : digit (put_digit words h) h ≡ 1
  digit-put_here = omega (arith, put_word h refl, bit-single_here (h % 32), digit-lt-two words h)

  pub digit-put_other : (n : ℕ) → n ≢ h → digit (put_digit words h) n ≡ digit words n
  unfolding digit
  digit-put_other n ne = elim (ℕ_discrete (n / 32) (h / 32)) [
    | yes e ↦
        put_word n e ∙ omega (arith, bit-single_other (h % 32) (n % 32) (omega (arith, e, ne)))
    | no away ↦
        ap (λ (t : ℕ). bit t (n % 32))
          (get_or-set_ne words (h / 32) (n / 32) _ 0 (omega (arith, away)))
  ]
