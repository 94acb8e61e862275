-- ===== src/Common/Bits/Laws.antt =====
-- The digits of what the operations of C give.
use Prim.Native.Nat.{ℕ, zero, suc, ◌+◌, ◌-◌, ◌*◌, ◌/◌, ◌%◌, ◌^◌, ◌≤◌, ◌<◌, min, max}
use Prim.Native.Nat.{bit_and, bit_or, bit_xor}
use mathlib.Core.Path.{◌≡◌, refl, ap, ◌∙◌, sym}
use native.Mathlib.Nat.{
  div-div-eq-div-mul, mul-add-mod_self_left, mod-eq_of_lt, div-add-mod, mod-lt,
}
use native.Mathlib.Omega.{arith}
use raptor_mark.Common.Bits.Step.{bit, two_pow-suc, two_pow_pos, flip}
use raptor_mark.Common.Bits.Step.{bit_and-step, bit_or-step, bit_xor-step}

pub bit-bit_and : (a b i : ℕ) → bit (bit_and a b) i ≡ min (bit a i) (bit b i)
bit-bit_and a b zero = omega (arith, bit_and-step a b)
bit-bit_and a b (suc i) =
    ap (λ (n : ℕ). bit n i) (omega (arith, bit_and-step a b)) ∙ bit-bit_and (a / 2) (b / 2) i

pub bit-bit_or : (a b i : ℕ) → bit (bit_or a b) i ≡ max (bit a i) (bit b i)
bit-bit_or a b zero = omega (arith, bit_or-step a b)
bit-bit_or a b (suc i) =
    ap (λ (n : ℕ). bit n i) (omega (arith, bit_or-step a b)) ∙ bit-bit_or (a / 2) (b / 2) i

pub bit-bit_xor : (a b i : ℕ) → bit (bit_xor a b) i ≡ flip (bit a i) (bit b i)
bit-bit_xor a b zero = omega (arith, bit_xor-step a b)
bit-bit_xor a b (suc i) =
    ap (λ (n : ℕ). bit n i) (omega (arith, bit_xor-step a b)) ∙ bit-bit_xor (a / 2) (b / 2) i

pub bit-zero : (i : ℕ) → bit 0 i ≡ 0
bit-zero zero = refl
bit-zero (suc i) = bit-zero i

div-two_pow-suc : (n k : ℕ) → n / 2 ^ suc k ≡ n / 2 / 2 ^ k
div-two_pow-suc n k = ap (λ (p : ℕ). n / p) (two_pow-suc k) ∙ sym (div-div-eq-div-mul n 2 (2 ^ k))

pub bit_cong : (a b i j : ℕ) → a ≡ b → i ≡ j → bit a i ≡ bit b j
bit_cong a b i j p q = λ t. bit (p t) (q t)

-- A right shift.
pub bit-div : (n k i : ℕ) → bit (n / 2 ^ k) i ≡ bit n (k + i)
bit-div n zero i = bit_cong (n / 2 ^ 0) n i (0 + i) (omega arith) (omega arith)
bit-div n (suc k) i =
    ap (λ (m : ℕ). bit m i) (div-two_pow-suc n k)
    ∙ bit-div (n / 2) k i
    ∙ bit_cong n n (suc (k + i)) (suc k + i) refl (omega arith)

-- A left shift.
half-mul : (n k : ℕ) → n * 2 ^ suc k / 2 ≡ n * 2 ^ k
half-mul n k = omega (arith, ap (λ (p : ℕ). n * p) (two_pow-suc k))

pub bit-mul_low : (n k i : ℕ) → i < k → bit (n * 2 ^ k) i ≡ 0
bit-mul_low n zero i h = absurd (omega arith)
bit-mul_low n (suc k) zero h = omega (arith, ap (λ (p : ℕ). n * p) (two_pow-suc k))
bit-mul_low n (suc k) (suc i) h =
    ap (λ (m : ℕ). bit m i) (half-mul n k) ∙ bit-mul_low n k i (omega arith)

pub bit-mul_high : (n k i : ℕ) → bit (n * 2 ^ k) (k + i) ≡ bit n i
bit-mul_high n zero i = bit_cong (n * 2 ^ 0) n (0 + i) i (omega arith) (omega arith)
bit-mul_high n (suc k) i =
    bit_cong (n * 2 ^ suc k) (n * 2 ^ suc k) (suc k + i) (suc (k + i)) refl (omega arith)
    ∙ ap (λ (m : ℕ). bit m (k + i)) (half-mul n k)
    ∙ bit-mul_high n k i

-- `n % (2 p)` is the lowest digit and `(n / 2) % p`.
mod-double : (n p : ℕ) → 0 < p → n % (2 * p) ≡ 2 * (n / 2 % p) + n % 2
mod-double n p h =
    ap (λ (m : ℕ). m % (2 * p)) parts
    ∙ mul-add-mod_self_left (2 * p) (n / 2 / p) (2 * (n / 2 % p) + n % 2)
    ∙ mod-eq_of_lt (omega (arith, mod-lt (n / 2) h))
  where
    parts : n ≡ 2 * p * (n / 2 / p) + (2 * (n / 2 % p) + n % 2)
    parts = omega (arith, div-add-mod (n / 2) p)

-- A cast.
pub bit-mod_low : (n k i : ℕ) → i < k → bit (n % 2 ^ k) i ≡ bit n i
bit-mod_low n zero i h = absurd (omega arith)
bit-mod_low n (suc k) zero h =
    rw (two_pow-suc k) (omega (arith, mod-double n (2 ^ k) (two_pow_pos k)))
bit-mod_low n (suc k) (suc i) h = rw (two_pow-suc k) (
    ap (λ (m : ℕ). bit m i) (omega (arith, mod-double n (2 ^ k) (two_pow_pos k)))
    ∙ bit-mod_low (n / 2) k i (omega arith))

pub bit_high : (n k i : ℕ) → n < 2 ^ k → k ≤ i → bit n i ≡ 0
bit_high n zero i h le = ap (λ (m : ℕ). bit m i) (omega arith) ∙ bit-zero i
bit_high n (suc k) zero h le = absurd (omega arith)
bit_high n (suc k) (suc i) h le = bit_high (n / 2) k i (omega (arith, two_pow-suc k)) (omega arith)

-- `k` ones.
pub bit-mask_low : (k i : ℕ) → i < k → bit (2 ^ k - 1) i ≡ 1
bit-mask_low zero i h = absurd (omega arith)
bit-mask_low (suc k) zero h = omega (arith, two_pow-suc k, two_pow_pos k)
bit-mask_low (suc k) (suc i) h =
    ap (λ (m : ℕ). bit m i) (omega (arith, two_pow-suc k, two_pow_pos k))
    ∙ bit-mask_low k i (omega arith)

-- The complement of a word of `k` digits.
pub bit-complement : (x k i : ℕ) → x < 2 ^ k → i < k → bit (2 ^ k - 1 - x) i ≡ 1 - bit x i
bit-complement x zero i h lt = absurd (omega arith)
bit-complement x (suc k) zero h lt = omega (arith, two_pow-suc k, two_pow_pos k)
bit-complement x (suc k) (suc i) h lt =
    ap (λ (m : ℕ). bit m i) (omega (arith, two_pow-suc k, two_pow_pos k))
    ∙ bit-complement (x / 2) k i (omega (arith, two_pow-suc k)) (omega arith)
