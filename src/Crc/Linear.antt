-- ===== src/Crc/Linear.antt =====
-- A register of `n` digits whose step is linear and loses nothing: eight steps to a byte tell any
-- two messages apart that differ in one byte.
use raptor_mark.Common.{
  ℕ, zero, suc, ◌*◌, ◌^◌, ◌<◌, ◌≡◌, refl, ap, sym, ◌∙◌, bit_xor, List, ◌∷◌, ◌++◌, arith,
}
use raptor_mark.Common.Bits.{
  bit_xor-zero, zero-bit_xor, flip, bit_xor_comm, bit_xor_self, bit_xor-lt, xor_eq_zero, xor_cancel,
}
use raptor_mark.Crc.Bytes.{times, over_bytes, over_bytes-append, IsBytes}
use raptor_mark.Crc.Bytes.{over_bytes_inv, over_bytes_injective}

-- `place` is where the register takes a byte in.
abbrev pub byte_step : (ℕ → ℕ) → (ℕ → ℕ) → ℕ → ℕ → ℕ
byte_step f place crc b = times 8 f (bit_xor crc (place b))

pub select_xor : (x y p : ℕ) → x < 2 → y < 2 → flip x y * p ≡ bit_xor (x * p) (y * p)
select_xor zero zero p hx hy = let none : 0 * p ≡ 0 = omega arith in rw none
select_xor zero (suc zero) p hx hy =
    let none : 0 * p ≡ 0 = omega arith in rw none (sym (zero-bit_xor (1 * p)))
select_xor (suc zero) zero p hx hy =
    let none : 0 * p ≡ 0 = omega arith in rw none (sym (bit_xor-zero (1 * p)))
select_xor (suc zero) (suc zero) p hx hy =
    let none : 0 * p ≡ 0 = omega arith in rw none (sym (bit_xor_self (1 * p)))
select_xor (suc (suc x)) y p hx hy = absurd (omega arith)
select_xor zero (suc (suc y)) p hx hy = absurd (omega arith)
select_xor (suc zero) (suc (suc y)) p hx hy = absurd (omega arith)

pub record IsLinear (n : ℕ) (f : ℕ → ℕ) : Type 0 where
  pub bound : (a : ℕ) → a < 2 ^ n → f a < 2 ^ n
  pub linear : (a b : ℕ) → a < 2 ^ n → b < 2 ^ n → f (bit_xor a b) ≡ bit_xor (f a) (f b)

module _ {n : ℕ} {f : ℕ → ℕ} (lin : IsLinear n f) where
  pub times-lt : (m a : ℕ) → a < 2 ^ n → times m f a < 2 ^ n
  times-lt zero a h = h
  times-lt (suc m) a h = times-lt m (f a) (lin.bound a h)

  pub times-bit_xor :
      (m a b : ℕ)
      → a < 2 ^ n
      → b < 2 ^ n
      → times m f (bit_xor a b) ≡ bit_xor (times m f a) (times m f b)
  times-bit_xor zero a b ha hb = refl
  times-bit_xor (suc m) a b ha hb =
      ap (times m f) (lin.linear a b ha hb)
      ∙ times-bit_xor m (f a) (f b) (lin.bound a ha) (lin.bound b hb)

  module _ (kernel : (a : ℕ) → a < 2 ^ n → f a ≡ 0 → a ≡ 0) where
    times_kernel : (m a : ℕ) → a < 2 ^ n → times m f a ≡ 0 → a ≡ 0
    times_kernel zero a h e = e
    times_kernel (suc m) a h e = kernel a h (times_kernel m (f a) (lin.bound a h) e)

    times_injective : (m a b : ℕ) → a < 2 ^ n → b < 2 ^ n → times m f a ≡ times m f b → a ≡ b
    times_injective m a b ha hb e = xor_eq_zero a b (
        times_kernel m (bit_xor a b) (bit_xor-lt a b n ha hb) (
          times-bit_xor m a b ha hb
          ∙ ap (λ (t : ℕ). bit_xor t (times m f b)) e
          ∙ bit_xor_self (times m f b)))

    module _ (place : ℕ → ℕ) (place-lt : (b : ℕ) → b < 256 → place b < 2 ^ n) where
      byte_step-lt : (c b : ℕ) → c < 2 ^ n → b < 256 → byte_step f place c b < 2 ^ n
      byte_step-lt c b hc hb = times-lt 8 _ (bit_xor-lt c (place b) n hc (place-lt b hb))

      byte_step_injective :
          (c d b : ℕ)
          → c < 2 ^ n
          → d < 2 ^ n
          → b < 256
          → byte_step f place c b ≡ byte_step f place d b
          → c ≡ d
      byte_step_injective c d b hc hd hb e =
          xor_cancel c d (place b) (bit_xor_comm (place b) c ∙ same ∙ bit_xor_comm d (place b))
        where
          same : bit_xor c (place b) ≡ bit_xor d (place b)
          same =
              times_injective 8 _ _ (bit_xor-lt c (place b) n hc (place-lt b hb))
                (bit_xor-lt d (place b) n hd (place-lt b hb)) e

      pub one_byte :
          (crc : ℕ) (before after : List ℕ) (a b : ℕ)
          → crc < 2 ^ n
          → IsBytes before
          → IsBytes after
          → a < 256
          → b < 256
          → over_bytes (byte_step f place) crc (before ++ a ∷ after)
            ≡ over_bytes (byte_step f place) crc (before ++ b ∷ after)
          → place a ≡ place b
      unfolding over_bytes
      one_byte crc before after a b hc hbefore hafter ha hb e =
          xor_cancel (place a) (place b) middle
            (times_injective 8 _ _ (inside a ha) (inside b hb) same)
        where
          middle : ℕ
          middle = over_bytes (byte_step f place) crc before

          middle-lt : middle < 2 ^ n
          middle-lt =
              over_bytes_inv (λ c. c < 2 ^ n) (byte_step f place) byte_step-lt crc before hc hbefore

          inside : (d : ℕ) → d < 256 → bit_xor middle (place d) < 2 ^ n
          inside d hd = bit_xor-lt middle (place d) n middle-lt (place-lt d hd)

          same : byte_step f place middle a ≡ byte_step f place middle b
          same =
              over_bytes_injective (λ c. c < 2 ^ n) (byte_step f place) byte_step-lt
                byte_step_injective (byte_step f place middle a) (byte_step f place middle b) after
                (byte_step-lt middle a middle-lt ha) (byte_step-lt middle b middle-lt hb) hafter
                (sym (over_bytes-append (byte_step f place) crc before (a ∷ after))
                  ∙ e
                  ∙ over_bytes-append (byte_step f place) crc before (b ∷ after))
