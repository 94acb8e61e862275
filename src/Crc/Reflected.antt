-- ===== src/Crc/Reflected.antt =====
-- Checksums whose register is shifted right: crc16, crc32c, crc64 and its NVMe variant.
use raptor_mark.Common.{
  ℕ, zero, suc, ◌*◌, ◌/◌, ◌%◌, ◌^◌, ◌≤◌, ◌<◌, ◌≡◌, refl, ap, ap₂, sym, ◌∙◌, bit_xor, List, ◌∷◌,
  ◌++◌, true, arith, ◌==◌, ==→eq, get_or,
}
use raptor_mark.Common.Bits.{
  flip, bit_xor-step, bit_xor-zero, bit_xor-lt, two_pow-suc, two_pow_pos, bit_xor_fields, xor_swap,
  xor_eq_zero, bit_xor-div,
}
use raptor_mark.Common.{all_entries, entry_of_all}
use raptor_mark.Crc.Bytes.{times, over_bytes, over_bytes_cong, IsBytes}
use raptor_mark.Crc.Linear.{select_xor, byte_step, IsLinear, one_byte}

-- One step of the division: the digit that falls out subtracts the polynomial.
unfoldable pub step : ℕ → ℕ → ℕ
step p c = bit_xor (c / 2) (c % 2 * p)

-- The checksum of the bytes by division alone: a byte is eight digits.
unfoldable pub reference : ℕ → ℕ → List ℕ → ℕ
reference p crc buf = over_bytes (byte_step (step p) (λ b. b)) crc buf

-- The division is linear.
step-bit_xor : (p a b : ℕ) → step p (bit_xor a b) ≡ bit_xor (step p a) (step p b)
unfolding step
step-bit_xor p a b =
    ap₂ bit_xor quotient (ap (λ (d : ℕ). d * p) digit)
    ∙ ap (bit_xor (bit_xor (a / 2) (b / 2)))
        (select_xor (a % 2) (b % 2) p (omega arith) (omega arith))
    ∙ xor_swap (a / 2) (b / 2) (a % 2 * p) (b % 2 * p)
  where
    quotient : bit_xor a b / 2 ≡ bit_xor (a / 2) (b / 2)
    quotient = omega (arith, bit_xor-step a b)

    digit : bit_xor a b % 2 ≡ flip (a % 2) (b % 2)
    digit = omega (arith, bit_xor-step a b)

steps-bit_xor :
    (n p a b : ℕ)
    → times n (step p) (bit_xor a b) ≡ bit_xor (times n (step p) a) (times n (step p) b)
steps-bit_xor zero p a b = refl
steps-bit_xor (suc n) p a b =
    ap (times n (step p)) (step-bit_xor p a b) ∙ steps-bit_xor n p (step p a) (step p b)

-- Zeros fall out without a subtraction.
steps-shift : (n p m : ℕ) → times n (step p) (m * 2 ^ n) ≡ m
steps-shift zero p m = omega arith
steps-shift (suc n) p m = ap (times n (step p)) one_step ∙ steps-shift n p m
  where
    double : m * 2 ^ suc n ≡ 2 * (m * 2 ^ n)
    double = omega (arith, ap (λ (t : ℕ). m * t) (two_pow-suc n))

    half : m * 2 ^ suc n / 2 ≡ m * 2 ^ n
    half = omega (arith, double)

    even : m * 2 ^ suc n % 2 ≡ 0
    even = omega (arith, double)

    none : m * 2 ^ suc n % 2 * p ≡ 0
    none = omega (arith, ap (λ (t : ℕ). t * p) even)

    one_step : step p (m * 2 ^ suc n) ≡ m * 2 ^ n
    one_step = unfold step in ap₂ bit_xor half none ∙ bit_xor-zero (m * 2 ^ n)

-- The table holds the remainder of each byte.
abbrev pub IsTable : ℕ → List ℕ → Type 0
IsTable p table = all_entries (λ i. get_or table i 0 == times 8 (step p) i) 256 ≡ true

-- The inner statement of the loops: one look-up in place of eight steps.
unfoldable pub look_up : List ℕ → ℕ → ℕ → ℕ
look_up table crc b = bit_xor (crc / 2 ^ 8) (get_or table (bit_xor crc b % 2 ^ 8) 0)

pub look_up-eq-byte_step :
    (p : ℕ) (table : List ℕ) (crc b : ℕ)
    → IsTable p table
    → b < 256
    → look_up table crc b ≡ byte_step (step p) (λ x. x) crc b
unfolding look_up
look_up-eq-byte_step p table crc b ok h = sym (
    ap (times 8 (step p)) (sym split)
    ∙ steps-bit_xor 8 p (x / 2 ^ 8 * 2 ^ 8) (x % 2 ^ 8)
    ∙ ap₂ bit_xor (steps-shift 8 p (x / 2 ^ 8) ∙ high) (sym entry))
  where
    x : ℕ
    x = bit_xor crc b

    split : bit_xor (x / 2 ^ 8 * 2 ^ 8) (x % 2 ^ 8) ≡ x
    split = omega (arith, bit_xor_fields (x / 2 ^ 8) (x % 2 ^ 8) 8 (omega arith))

    entry : get_or table (x % 2 ^ 8) 0 ≡ times 8 (step p) (x % 2 ^ 8)
    entry = ==→eq _ _ (entry_of_all _ 256 (x % 2 ^ 8) (omega arith) ok)

    high : x / 2 ^ 8 ≡ crc / 2 ^ 8
    high = bit_xor-div crc b 8 h

-- A loop through the table is the division.
pub over_bytes-look_up :
    (p : ℕ) (table : List ℕ) (byte : ℕ → ℕ → ℕ)
    → IsTable p table
    → ((crc b : ℕ) → b < 256 → byte crc b ≡ look_up table crc b)
    → (crc : ℕ) (buf : List ℕ) → IsBytes buf
    → over_bytes byte crc buf ≡ reference p crc buf
unfolding reference
over_bytes-look_up p table byte ok is_look_up crc buf h =
    over_bytes_cong (λ _. Unit) byte (byte_step (step p) (λ b. b))
      (λ c b _ hb. (is_look_up c b hb ∙ look_up-eq-byte_step p table c b ok hb, tt)) crc buf tt h

-- A polynomial of `w + 1` digits that has the top one divides without loss.
module _ (p w : ℕ) (top : 2 ^ w ≤ p) (fits : p < 2 ^ suc w) where
  selected : (d : ℕ) → d < 2 → (d * p < 2 ^ suc w) × ((d * p ≡ 0) → d ≡ 0)
  selected zero h = (omega (arith, two_pow_pos (suc w)), λ _. refl)
  selected (suc zero) h = (omega arith, λ e. absurd (omega (arith, two_pow_pos w)))
  selected (suc (suc d)) h = absurd (omega arith)

  kernel_by_digit : (x d : ℕ) → d < 2 → x / 2 < 2 ^ w → x / 2 ≡ d * p → d ≡ x % 2 → x ≡ 0
  kernel_by_digit x zero h lt e same = omega arith
  kernel_by_digit x (suc zero) h lt e same = absurd (omega arith)
  kernel_by_digit x (suc (suc d)) h lt e same = absurd (omega arith)

  step_kernel : (x : ℕ) → x < 2 ^ suc w → step p x ≡ 0 → x ≡ 0
  unfolding step
  step_kernel x h e =
      kernel_by_digit x (x % 2) (omega arith) (omega (arith, two_pow-suc w))
        (xor_eq_zero (x / 2) (x % 2 * p) e) refl

  step-IsLinear : IsLinear (suc w) (step p)
  step-IsLinear = record {
    bound = λ a h.
        unfold step in
        bit_xor-lt (a / 2) (a % 2 * p) (suc w) (omega arith) (selected (a % 2) (omega arith)).0;
    linear = λ a b _ _. step-bit_xor p a b;
  }

  -- Two messages that differ in one byte only have different remainders.
  pub reference_one_byte :
      256 ≤ 2 ^ suc w
      → (crc : ℕ) (before after : List ℕ) (a b : ℕ) → crc < 2 ^ suc w
      → IsBytes before
      → IsBytes after
      → a < 256
      → b < 256
      → reference p crc (before ++ a ∷ after) ≡ reference p crc (before ++ b ∷ after)
      → a ≡ b
  unfolding reference
  reference_one_byte wide = one_byte step-IsLinear step_kernel (λ b. b) (λ b h. omega arith)
