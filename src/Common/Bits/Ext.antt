-- ===== src/Common/Bits/Ext.antt =====
-- Words with the same digits are equal; the algebra of exclusive or follows.
use Prim.Native.Nat.{ℕ, zero, suc, ◌+◌, ◌-◌, ◌*◌, ◌/◌, ◌%◌, ◌^◌, ◌≤◌, ◌<◌}
use Prim.Native.Nat.{bit_and, bit_or, bit_xor}
use mathlib.Core.Path.{◌≡◌, ap, ap₂, ◌∙◌, sym}
use native.Mathlib.Nat.{mod-lt}
use native.Mathlib.Omega.{arith}
use raptor_mark.Common.Bits.Step.{
  bit, bit-lt-two, two_pow-suc, two_pow_pos, bit_or-step, bit_xor-step,
}
use raptor_mark.Common.Bits.Laws.{
  bit-bit_and, bit-bit_or, bit-bit_xor, bit-zero, bit-mod_low, bit_high, bit-mask_low, bit-div,
}

same_bits : (n a b : ℕ) → a ≤ n → b ≤ n → ((i : ℕ) → bit a i ≡ bit b i) → a ≡ b
same_bits zero a b p q h = omega arith
same_bits (suc n) a b p q h =
    omega (arith, h 0, same_bits n (a / 2) (b / 2) (omega arith) (omega arith) (λ i. h (suc i)))

pub eq_of_bits : (a b : ℕ) → ((i : ℕ) → bit a i ≡ bit b i) → a ≡ b
eq_of_bits a b h = same_bits (a + b) a b (omega arith) (omega arith) h

-- Words of `k` digits are compared on those alone.
pub eq_of_low_bits :
    (k a b : ℕ) → a < 2 ^ k → b < 2 ^ k → ((i : ℕ) → i < k → bit a i ≡ bit b i) → a ≡ b
eq_of_low_bits zero a b p q h = omega arith
eq_of_low_bits (suc k) a b p q h = omega (
  arith,
  h 0 (omega arith),
  eq_of_low_bits k (a / 2) (b / 2) (omega (arith, two_pow-suc k)) (omega (arith, two_pow-suc k))
      (λ i lt. h (suc i) (omega arith)),
)

pub lt_of_bits : (n k : ℕ) → ((i : ℕ) → k ≤ i → bit n i ≡ 0) → n < 2 ^ k
lt_of_bits n zero h =
    let e : n ≡ 0 = eq_of_bits n 0 (λ i. h i (omega arith) ∙ sym (bit-zero i)) in omega arith
lt_of_bits n (suc k) h =
    omega (arith, two_pow-suc k, lt_of_bits (n / 2) k (λ i le. h (suc i) (omega arith)))

pub bit_xor_comm : (a b : ℕ) → bit_xor a b ≡ bit_xor b a
bit_xor_comm a b = eq_of_bits _ _ λ i. omega (arith, bit-bit_xor a b i, bit-bit_xor b a i)

pub bit_xor_assoc : (a b c : ℕ) → bit_xor (bit_xor a b) c ≡ bit_xor a (bit_xor b c)
bit_xor_assoc a b c = eq_of_bits _ _ λ i. omega (
  arith,
  bit-bit_xor (bit_xor a b) c i,
  bit-bit_xor a b i,
  bit-bit_xor a (bit_xor b c) i,
  bit-bit_xor b c i,
  bit-lt-two a i,
  bit-lt-two b i,
  bit-lt-two c i,
)

pub bit_xor_self : (a : ℕ) → bit_xor a a ≡ 0
bit_xor_self a = eq_of_bits _ _ λ i. omega (arith, bit-bit_xor a a i, bit-zero i)

pub bit_xor-zero : (a : ℕ) → bit_xor a 0 ≡ a
bit_xor-zero a = eq_of_bits _ _ λ i. omega (arith, bit-bit_xor a 0 i, bit-zero i)

pub zero-bit_xor : (a : ℕ) → bit_xor 0 a ≡ a
zero-bit_xor a = eq_of_bits _ _ λ i. omega (arith, bit-bit_xor 0 a i, bit-zero i)

-- The operations stay within the width of their arguments.
pub bit_xor-lt : (a b k : ℕ) → a < 2 ^ k → b < 2 ^ k → bit_xor a b < 2 ^ k
bit_xor-lt a b k p q =
    lt_of_bits _ k
      λ i le. omega (arith, bit-bit_xor a b i, bit_high a k i p le, bit_high b k i q le)

pub bit_or-lt : (a b k : ℕ) → a < 2 ^ k → b < 2 ^ k → bit_or a b < 2 ^ k
bit_or-lt a b k p q =
    lt_of_bits _ k λ i le. omega (arith, bit-bit_or a b i, bit_high a k i p le, bit_high b k i q le)

pub bit_and-lt : (a b k : ℕ) → a < 2 ^ k → bit_and a b < 2 ^ k
bit_and-lt a b k p = lt_of_bits _ k λ i le. omega (arith, bit-bit_and a b i, bit_high a k i p le)

-- `&` with `k` ones is the remainder.
pub bit_and-mask : (k a : ℕ) → bit_and a (2 ^ k - 1) ≡ a % 2 ^ k
bit_and-mask k a =
    eq_of_low_bits k _ _ (rw swapped (bit_and-lt (2 ^ k - 1) a k (omega (arith, two_pow_pos k))))
      (mod-lt a (two_pow_pos k))
      λ i lt. omega (
        arith,
        bit-bit_and a (2 ^ k - 1) i,
        bit-mask_low k i lt,
        bit-mod_low a k i lt,
        bit-lt-two a i,
      )
  where
    swapped : bit_and a (2 ^ k - 1) ≡ bit_and (2 ^ k - 1) a
    swapped =
        eq_of_bits _ _ λ i. omega (arith, bit-bit_and a (2 ^ k - 1) i, bit-bit_and (2 ^ k - 1) a i)

-- `|` of disjoint fields is their sum.
pub bit_or_fields : (q r k : ℕ) → r < 2 ^ k → bit_or (q * 2 ^ k) r ≡ q * 2 ^ k + r
bit_or_fields q r zero h = eq_of_bits _ _ λ i.
    let r≡0 : r ≡ 0 = omega arith in
    let total : q * 1 + r ≡ q * 1 = omega arith in
    omega (
      arith,
      bit-bit_or (q * 1) r i,
      ap (λ (m : ℕ). bit m i) r≡0,
      bit-zero i,
      ap (λ (m : ℕ). bit m i) total,
    )
bit_or_fields q r (suc k) h =
    let half : q * 2 ^ suc k / 2 ≡ q * 2 ^ k = omega (arith, double) in
    omega (
      arith,
      double,
      bit_or-step (q * 2 ^ suc k) r,
      ap (λ (m : ℕ). bit_or m (r / 2)) half,
      bit_or_fields q (r / 2) k (omega (arith, two_pow-suc k)),
    )
  where
    double : q * 2 ^ suc k ≡ 2 * (q * 2 ^ k)
    double = omega (arith, ap (λ (p : ℕ). q * p) (two_pow-suc k))

-- So is `^`.
pub bit_xor_fields : (q r k : ℕ) → r < 2 ^ k → bit_xor (q * 2 ^ k) r ≡ q * 2 ^ k + r
bit_xor_fields q r zero h =
    let r≡0 : r ≡ 0 = omega arith in
    ap (λ (m : ℕ). bit_xor (q * 1) m) r≡0 ∙ bit_xor-zero (q * 1) ∙ total
  where
    total : q * 1 ≡ q * 1 + r
    total = omega arith
bit_xor_fields q r (suc k) h =
    let half : q * 2 ^ suc k / 2 ≡ q * 2 ^ k = omega (arith, double) in
    omega (
      arith,
      double,
      bit_xor-step (q * 2 ^ suc k) r,
      ap (λ (m : ℕ). bit_xor m (r / 2)) half,
      bit_xor_fields q (r / 2) k (omega (arith, two_pow-suc k)),
    )
  where
    double : q * 2 ^ suc k ≡ 2 * (q * 2 ^ k)
    double = omega (arith, ap (λ (p : ℕ). q * p) (two_pow-suc k))

pub xor_swap :
    (a b c d : ℕ) → bit_xor (bit_xor a b) (bit_xor c d) ≡ bit_xor (bit_xor a c) (bit_xor b d)
xor_swap a b c d = cc (
  bit_xor_assoc a b (bit_xor c d),
  bit_xor_assoc b c d,
  bit_xor_comm b c,
  bit_xor_assoc c b d,
  bit_xor_assoc a c (bit_xor b d),
)

pub xor_eq_zero : (a b : ℕ) → bit_xor a b ≡ 0 → a ≡ b
xor_eq_zero a b h = cc (bit_xor-zero a, bit_xor_self b, bit_xor_assoc a b b, zero-bit_xor b)

pub xor_cancel : (a b c : ℕ) → bit_xor c a ≡ bit_xor c b → a ≡ b
xor_cancel a b c h =
    cc (zero-bit_xor a, zero-bit_xor b, bit_xor_self c, bit_xor_assoc c c a, bit_xor_assoc c c b)

-- What is below the shift does not reach it.
pub bit_xor-div : (a b k : ℕ) → b < 2 ^ k → bit_xor a b / 2 ^ k ≡ a / 2 ^ k
bit_xor-div a b k h = eq_of_bits _ _ λ i. omega (
  arith,
  bit-div (bit_xor a b) k i,
  bit-div a k i,
  bit-bit_xor a b (k + i),
  bit_high b k (k + i) h (omega arith),
)

pub bit_xor-mod : (a b k : ℕ) → bit_xor a b % 2 ^ k ≡ bit_xor (a % 2 ^ k) (b % 2 ^ k)
bit_xor-mod a b k =
    eq_of_low_bits k _ _ (mod-lt _ (two_pow_pos k))
      (bit_xor-lt _ _ k (mod-lt a (two_pow_pos k)) (mod-lt b (two_pow_pos k)))
      λ i lt. omega (
        arith,
        bit-mod_low (bit_xor a b) k i lt,
        bit-mod_low a k i lt,
        bit-mod_low b k i lt,
        bit-bit_xor a b i,
        bit-bit_xor (a % 2 ^ k) (b % 2 ^ k) i,
      )

pub div-bit_xor : (a b k : ℕ) → bit_xor a b / 2 ^ k ≡ bit_xor (a / 2 ^ k) (b / 2 ^ k)
div-bit_xor a b k = eq_of_bits _ _ λ i. omega (
  arith,
  bit-div (bit_xor a b) k i,
  bit-div a k i,
  bit-div b k i,
  bit-bit_xor a b (k + i),
  bit-bit_xor (a / 2 ^ k) (b / 2 ^ k) i,
)

pub bit_xor_double : (a b : ℕ) → bit_xor (2 * a) (2 * b) ≡ 2 * bit_xor a b
bit_xor_double a b =
    let ha : 2 * a / 2 ≡ a = omega arith in
    let hb : 2 * b / 2 ≡ b = omega arith in
    omega (arith, bit_xor-step (2 * a) (2 * b), ap₂ bit_xor ha hb)
