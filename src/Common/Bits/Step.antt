-- ===== src/Common/Bits/Step.antt =====
-- The native operations on binary digits, one digit at a time: the lowest digit and the rest.
use Prim.Native.Nat.{ℕ, zero, suc, ◌+◌, ◌-◌, ◌*◌, ◌/◌, ◌%◌, ◌^◌, ◌≤◌, ◌<◌, min, max, digits, differ}
use Prim.Native.Nat.{bit_and, bit_or, bit_xor, bit_and-bitwise, bit_or-bitwise, bit_xor-bitwise}
use mathlib.Core.Path.{◌≡◌, refl}
use native.Mathlib.Nat.{pow-suc}
use native.Mathlib.Omega.{arith}

abbrev pub bit : ℕ → ℕ → ℕ
bit n zero = n % 2
bit n (suc i) = bit (n / 2) i

pub bit-lt-two : (n i : ℕ) → bit n i < 2
bit-lt-two n zero = omega arith
bit-lt-two n (suc i) = bit-lt-two (n / 2) i

pub two_pow-suc : (k : ℕ) → 2 ^ suc k ≡ 2 * 2 ^ k
two_pow-suc k = omega (arith, pow-suc 2 k)

pub two_pow_pos : (k : ℕ) → 0 < 2 ^ k
two_pow_pos zero = omega arith
two_pow_pos (suc k) = omega (arith, two_pow-suc k, two_pow_pos k)

-- A count of digits above the first number changes nothing.
module _ (z : ℕ → ℕ) (f : ℕ → ℕ → ℕ) where
  settled : (k n a b : ℕ) → n ≤ k → a ≤ n → digits z f n a b ≡ digits z f a a b
  settled k zero zero b nk an = refl
  settled k (suc n) zero b nk an = refl
  settled k zero (suc a) b nk an = absurd (omega arith)
  settled zero (suc n) (suc a) b nk an = absurd (omega arith)
  settled (suc k) (suc n) (suc a) b nk an =
      let h = suc a / 2 in
      omega (
        arith,
        settled k n h (b / 2) (omega arith) (omega arith),
        settled k a h (b / 2) (omega arith) (omega arith),
      )

  unrolled :
      (a b : ℕ)
      → digits z f (suc a) (suc a) b
        ≡ digits z f (suc a / 2) (suc a / 2) (b / 2) * 2 + f (suc a % 2) (b % 2)
  unrolled a b = omega (arith, settled a a (suc a / 2) (b / 2) (omega arith) (omega arith))

pub bit_and-step : (a b : ℕ) → bit_and a b ≡ bit_and (a / 2) (b / 2) * 2 + min (a % 2) (b % 2)
bit_and-step zero b = simp bit_and-bitwise (omega arith)
bit_and-step (suc a) b = simp bit_and-bitwise (unrolled (λ y. 0) min a b)

pub bit_or-step : (a b : ℕ) → bit_or a b ≡ bit_or (a / 2) (b / 2) * 2 + max (a % 2) (b % 2)
bit_or-step zero b = simp bit_or-bitwise (omega arith)
bit_or-step (suc a) b = simp bit_or-bitwise (unrolled (λ y. y) max a b)

-- Exclusive or of two digits.
abbrev pub flip : ℕ → ℕ → ℕ
flip x y = (x - y) + (y - x)

differ-eq-flip : (x y : ℕ) → differ x y ≡ flip x y
differ-eq-flip zero y = omega arith
differ-eq-flip (suc x) zero = omega arith
differ-eq-flip (suc x) (suc y) = omega (arith, differ-eq-flip x y)

pub bit_xor-step : (a b : ℕ) → bit_xor a b ≡ bit_xor (a / 2) (b / 2) * 2 + flip (a % 2) (b % 2)
bit_xor-step zero b = simp bit_xor-bitwise (omega arith)
bit_xor-step (suc a) b =
    simp bit_xor-bitwise
      (omega (arith, unrolled (λ y. y) differ a b, differ-eq-flip (suc a % 2) (b % 2)))
