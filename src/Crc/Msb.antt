-- ===== src/Crc/Msb.antt =====
-- Checksums whose register is shifted left: crc7, crc32 and crc-t10dif.
use native.Mathlib.Nat.{div-add-mod', mod-lt, mod-eq_of_lt, div-lt_iff_lt-mul, div-eq_of_lt}
use native.Mathlib.Nat.{mul-div_cancel, mul-mod_left, mul-add-mod_self_right}
use raptor_mark.Common.{
  ℕ, zero, suc, ◌*◌, ◌/◌, ◌%◌, ◌^◌, ◌<◌, ◌≡◌, refl, ap, ap₂, sym, ◌∙◌, bit_xor, List, ◌∷◌, ◌++◌,
  true, arith, ◌==◌, ==→eq, get_or,
}
use raptor_mark.Common.Bits.{
  flip, bit_xor-step, bit_xor-zero, bit_xor-lt, two_pow-suc, two_pow_pos, bit_xor_fields, xor_swap,
  bit_xor_comm, xor_eq_zero, bit_xor-mod, div-bit_xor, bit_xor_double,
}
use raptor_mark.Common.{all_entries, entry_of_all}
use raptor_mark.Crc.Bytes.{times, over_bytes, over_bytes_cong, IsBytes}
use raptor_mark.Crc.Linear.{select_xor, byte_step, IsLinear, times-lt, times-bit_xor, one_byte}

-- One step of the division in a register of `k + 1` digits: the digit that falls out at the top
-- subtracts the polynomial.
unfoldable pub step : ℕ → ℕ → ℕ → ℕ
step k p c = bit_xor (2 * (c % 2 ^ k)) (c / 2 ^ k * p)

-- The checksum of the bytes by division alone; a byte enters at the top, `v` digits up.
unfoldable pub reference : ℕ → ℕ → ℕ → ℕ → List ℕ → ℕ
reference k v p crc buf = over_bytes (byte_step (step k p) (λ b. b * 2 ^ v)) crc buf

digit_xor : (x y : ℕ) → x < 2 → y < 2 → bit_xor x y ≡ flip x y
digit_xor x y hx hy =
    let ex : x / 2 ≡ 0 = omega arith in
    let ey : y / 2 ≡ 0 = omega arith in omega (arith, bit_xor-step x y, ap₂ bit_xor ex ey)

module _ (k p : ℕ) (fits : p < 2 ^ suc k) where
  top-lt : (c : ℕ) → c < 2 ^ suc k → c / 2 ^ k < 2
  top-lt c h = (div-lt_iff_lt-mul (two_pow_pos k)).1 (omega (arith, two_pow-suc k))

  step-bit_xor :
      (a b : ℕ)
      → a < 2 ^ suc k
      → b < 2 ^ suc k
      → step k p (bit_xor a b) ≡ bit_xor (step k p a) (step k p b)
  unfolding step
  step-bit_xor a b ha hb =
      ap₂ bit_xor doubled selected ∙ xor_swap (2 * (a % 2 ^ k)) (2 * (b % 2 ^ k)) _ _
    where
      doubled : 2 * (bit_xor a b % 2 ^ k) ≡ bit_xor (2 * (a % 2 ^ k)) (2 * (b % 2 ^ k))
      doubled =
          ap (λ (t : ℕ). 2 * t) (bit_xor-mod a b k) ∙ sym (bit_xor_double (a % 2 ^ k) (b % 2 ^ k))

      selected : bit_xor a b / 2 ^ k * p ≡ bit_xor (a / 2 ^ k * p) (b / 2 ^ k * p)
      selected =
          ap (λ (t : ℕ). t * p)
            (div-bit_xor a b k ∙ digit_xor (a / 2 ^ k) (b / 2 ^ k) (top-lt a ha) (top-lt b hb))
          ∙ select_xor (a / 2 ^ k) (b / 2 ^ k) p (top-lt a ha) (top-lt b hb)

  selected-lt : (d : ℕ) → d < 2 → d * p < 2 ^ suc k
  selected-lt zero h = omega (arith, two_pow_pos (suc k))
  selected-lt (suc zero) h = omega arith
  selected-lt (suc (suc d)) h = absurd (omega arith)

  step-IsLinear : IsLinear (suc k) (step k p)
  step-IsLinear = record {
    bound = λ a h.
        unfold step in
        bit_xor-lt (2 * (a % 2 ^ k)) (a / 2 ^ k * p) (suc k)
          (omega (arith, two_pow-suc k, mod-lt a (two_pow_pos k)))
          (selected-lt (a / 2 ^ k) (top-lt a h));
    linear = step-bit_xor;
  }

  step_low : (m : ℕ) → m < 2 ^ k → step k p m ≡ 2 * m
  unfolding step
  step_low m h = ap₂ bit_xor (ap (λ (t : ℕ). 2 * t) (mod-eq_of_lt h)) none ∙ bit_xor-zero (2 * m)
    where
      none : m / 2 ^ k * p ≡ 0
      none = omega (arith, ap (λ (t : ℕ). t * p) (div-eq_of_lt h))

  -- Zeros at the top fall out without a subtraction.
  steps_low : (n m : ℕ) → m * 2 ^ n < 2 ^ suc k → times n (step k p) m ≡ m * 2 ^ n
  steps_low zero m h = omega arith
  steps_low (suc n) m h =
      ap (times n (step k p)) (step_low m small)
      ∙ steps_low n (2 * m) (omega (arith, double))
      ∙ omega (arith, double)
    where
      double : m * 2 ^ suc n ≡ 2 * m * 2 ^ n
      double = omega (arith, ap (λ (t : ℕ). m * t) (two_pow-suc n))

      small : m < 2 ^ k
      small = grind (arith, double, two_pow-suc k, two_pow_pos n)

-- The table holds the remainder of each byte at the top of the register.
abbrev pub IsTable : ℕ → ℕ → ℕ → List ℕ → Type 0
IsTable k v p table =
    all_entries (λ i. get_or table i 0 == times 8 (step k p) (i * 2 ^ v)) 256 ≡ true

-- One look-up in place of eight steps.
unfoldable pub look_up : ℕ → ℕ → List ℕ → ℕ → ℕ → ℕ
look_up k v table crc b =
    bit_xor (crc * 2 ^ 8 % 2 ^ suc k) (get_or table (bit_xor (crc / 2 ^ v) b % 2 ^ 8) 0)

module _ (k v p : ℕ) (fits : p < 2 ^ suc k) (width : 2 ^ suc k ≡ 2 ^ v * 256) where
  place-lt : (b : ℕ) → b < 256 → b * 2 ^ v < 2 ^ suc k
  place-lt b h = grind (arith, width, two_pow_pos v)

  pub look_up-eq-byte_step :
      (table : List ℕ) (crc b : ℕ)
      → IsTable k v p table
      → crc < 2 ^ suc k
      → b < 256
      → look_up k v table crc b ≡ byte_step (step k p) (λ t. t * 2 ^ v) crc b
  unfolding look_up
  look_up-eq-byte_step table crc b ok hc hb = sym (
      ap (times 8 (step k p)) (sym parts)
      ∙ times-bit_xor (step-IsLinear k p fits) 8 (x / 2 ^ v * 2 ^ v) (x % 2 ^ v) high_fits low_fits
      ∙ bit_xor_comm _ _
      ∙ ap₂ bit_xor low high)
    where
      x : ℕ
      x = bit_xor crc (b * 2 ^ v)

      x-lt : x < 2 ^ suc k
      x-lt = bit_xor-lt crc (b * 2 ^ v) (suc k) hc (place-lt b hb)

      parts : bit_xor (x / 2 ^ v * 2 ^ v) (x % 2 ^ v) ≡ x
      parts =
          bit_xor_fields (x / 2 ^ v) (x % 2 ^ v) v (mod-lt x (two_pow_pos v))
          ∙ div-add-mod' x (2 ^ v)

      index : x / 2 ^ v ≡ bit_xor (crc / 2 ^ v) b
      index =
          div-bit_xor crc (b * 2 ^ v) v
          ∙ ap (bit_xor (crc / 2 ^ v)) (mul-div_cancel b (two_pow_pos v))

      index-lt : x / 2 ^ v < 256
      index-lt = (div-lt_iff_lt-mul (two_pow_pos v)).1 (omega (arith, width, x-lt))

      rest : x % 2 ^ v ≡ crc % 2 ^ v
      rest =
          bit_xor-mod crc (b * 2 ^ v) v
          ∙ ap (bit_xor (crc % 2 ^ v)) (mul-mod_left b (2 ^ v))
          ∙ bit_xor-zero (crc % 2 ^ v)

      low_fits : x % 2 ^ v < 2 ^ suc k
      low_fits = omega (arith, width, mod-lt x (two_pow_pos v))

      high_fits : x / 2 ^ v * 2 ^ v < 2 ^ suc k
      high_fits = omega (arith, div-add-mod' x (2 ^ v), x-lt)

      shifted : crc * 256 % (2 ^ v * 256) ≡ crc % 2 ^ v * 256
      shifted =
          ap (λ (t : ℕ). t % (2 ^ v * 256)) (omega (arith, div-add-mod' crc (2 ^ v)))
          ∙ mul-add-mod_self_right (crc / 2 ^ v) (2 ^ v * 256) (crc % 2 ^ v * 256)
          ∙ mod-eq_of_lt (omega (arith, mod-lt crc (two_pow_pos v)))

      low : times 8 (step k p) (x % 2 ^ v) ≡ crc * 2 ^ 8 % 2 ^ suc k
      low =
          steps_low k p fits 8 (x % 2 ^ v) (omega (arith, width, mod-lt x (two_pow_pos v)))
          ∙ ap (λ (t : ℕ). t * 256) rest
          ∙ sym (ap (λ (t : ℕ). crc * 256 % t) width ∙ shifted)

      high :
          times 8 (step k p) (x / 2 ^ v * 2 ^ v) ≡ get_or table (bit_xor (crc / 2 ^ v) b % 2 ^ 8) 0
      high = sym (
          ap (λ (t : ℕ). get_or table t 0)
            (ap (λ (t : ℕ). t % 256) (sym index) ∙ mod-eq_of_lt index-lt)
          ∙ ==→eq _ _ (entry_of_all _ 256 (x / 2 ^ v) index-lt ok))

  -- A loop through the table is the division.
  pub over_bytes-look_up :
      (table : List ℕ) (byte : ℕ → ℕ → ℕ)
      → IsTable k v p table
      → ((crc b : ℕ) → crc < 2 ^ suc k → b < 256 → byte crc b ≡ look_up k v table crc b)
      → (crc : ℕ) (buf : List ℕ) → crc < 2 ^ suc k
      → IsBytes buf
      → over_bytes byte crc buf ≡ reference k v p crc buf
  unfolding reference
  over_bytes-look_up table byte ok is_look_up crc buf hc h =
      over_bytes_cong (λ c. c < 2 ^ suc k) byte (byte_step (step k p) (λ t. t * 2 ^ v))
        (λ c b hc hb. (
          is_look_up c b hc hb ∙ look_up-eq-byte_step table c b ok hc hb,
          times-lt (step-IsLinear k p fits) 8 _ (bit_xor-lt c _ (suc k) hc (place-lt b hb)),
        ))
        crc buf hc h

  -- An odd polynomial divides without loss.
  module _ (odd : p % 2 ≡ 1) where
    kernel_by_digit : (c d : ℕ) → d < 2 → 2 * (c % 2 ^ k) ≡ d * p → d ≡ c / 2 ^ k → c ≡ 0
    kernel_by_digit c zero h e same =
        omega (arith, div-add-mod' c (2 ^ k), ap (λ (t : ℕ). t * 2 ^ k) same)
    kernel_by_digit c (suc zero) h e same = absurd (omega arith)
    kernel_by_digit c (suc (suc d)) h e same = absurd (omega arith)

    step_kernel : (c : ℕ) → c < 2 ^ suc k → step k p c ≡ 0 → c ≡ 0
    unfolding step
    step_kernel c h e =
        kernel_by_digit c (c / 2 ^ k) (top-lt k p fits c h)
          (xor_eq_zero (2 * (c % 2 ^ k)) (c / 2 ^ k * p) e) refl

    place_injective : (a b : ℕ) → a * 2 ^ v ≡ b * 2 ^ v → a ≡ b
    place_injective a b e =
        sym (mul-div_cancel a (two_pow_pos v))
        ∙ ap (λ (t : ℕ). t / 2 ^ v) e
        ∙ mul-div_cancel b (two_pow_pos v)

    -- Two messages that differ in one byte only have different remainders.
    pub reference_one_byte :
        (crc : ℕ) (before after : List ℕ) (a b : ℕ)
        → crc < 2 ^ suc k
        → IsBytes before
        → IsBytes after
        → a < 256
        → b < 256
        → reference k v p crc (before ++ a ∷ after) ≡ reference k v p crc (before ++ b ∷ after)
        → a ≡ b
    unfolding reference
    reference_one_byte crc before after a b hc hbefore hafter ha hb e = place_injective a b (
        one_byte (step-IsLinear k p fits) step_kernel (λ t. t * 2 ^ v) place-lt crc before after a b
          hc hbefore hafter ha hb e)
