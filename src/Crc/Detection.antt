-- ===== src/Crc/Detection.antt =====
-- What the checksums of fio/crc detect.
use raptor_mark.Common.{ℕ, ◌^◌, ◌<◌, ◌≢◌, refl, sym, ◌∙◌, List, ◌∷◌, ◌++◌, arith}
use raptor_mark.Crc.Bytes.{IsBytes}
use raptor_mark.Crc.Reflected
use raptor_mark.Crc.Msb
use raptor_mark.Crc.Crc16.{fio_crc16, fio_crc16-eq-reference}
use raptor_mark.Crc.Crc32.{fio_crc32, fio_crc32-eq-reference}
use raptor_mark.Crc.Crc32c.{crc32c_sw, crc32c_sw-eq-reference}
use raptor_mark.Crc.Crc64.{fio_crc64, fio_crc64-eq-reference}
use raptor_mark.Crc.T10Dif.{fio_crc_t10dif, fio_crc_t10dif-eq-reference}

pub IsBytes-insert :
    (before after : List ℕ) (a : ℕ)
    → IsBytes before
    → IsBytes after
    → a < 256
    → IsBytes (before ++ a ∷ after)
IsBytes-insert List.[] after a hb ha h = (h, ha)
IsBytes-insert (b ∷ before) after a hb ha h = (hb.0, IsBytes-insert before after a hb.1 ha h)

-- Two messages of bytes that are the same but for one byte have different checksums, under each
-- of `fio_crc16`, `fio_crc32`, `crc32c_sw`, `fio_crc64` and, from any 16-bit seed,
-- `fio_crc_t10dif`.
pub one_byte_detected :
    (seed : ℕ) (before after : List ℕ) (a b : ℕ)
    → seed < 2 ^ 16
    → IsBytes before
    → IsBytes after
    → a < 256
    → b < 256
    → a ≢ b
    → (fio_crc16 (before ++ a ∷ after) ≢ fio_crc16 (before ++ b ∷ after))
      × (fio_crc32 (before ++ a ∷ after) ≢ fio_crc32 (before ++ b ∷ after))
      × (crc32c_sw (before ++ a ∷ after) ≢ crc32c_sw (before ++ b ∷ after))
      × (fio_crc64 (before ++ a ∷ after) ≢ fio_crc64 (before ++ b ∷ after))
      × (fio_crc_t10dif seed (before ++ a ∷ after) ≢ fio_crc_t10dif seed (before ++ b ∷ after))
one_byte_detected seed before after a b small hbefore hafter ha hb ne = (
  λ e. ne (
      Reflected.reference_one_byte 0xa001 15 (omega arith) (omega arith) (omega arith) 0 before
        after a b (omega arith) hbefore hafter ha hb
        (sym (fio_crc16-eq-reference x hx) ∙ e ∙ fio_crc16-eq-reference y hy)),
  λ e. ne (
      Msb.reference_one_byte 31 24 0x4c11db7 (omega arith) refl refl 0 before after a b
        (omega arith) hbefore hafter ha hb
        (sym (fio_crc32-eq-reference x hx) ∙ e ∙ fio_crc32-eq-reference y hy)),
  λ e. ne (
      Reflected.reference_one_byte 0x82f63b78 31 (omega arith) (omega arith) (omega arith)
        0xffff_ffff before after a b (omega arith) hbefore hafter ha hb
        (sym (crc32c_sw-eq-reference x hx) ∙ e ∙ crc32c_sw-eq-reference y hy)),
  λ e. ne (
      Reflected.reference_one_byte 0x95ac9329ac4bc9b5 63 (omega arith) (omega arith) (omega arith) 0
        before after a b (omega arith) hbefore hafter ha hb
        (sym (fio_crc64-eq-reference x hx) ∙ e ∙ fio_crc64-eq-reference y hy)),
  λ e. ne (
      Msb.reference_one_byte 15 8 0x8bb7 (omega arith) refl refl seed before after a b small hbefore
        hafter ha hb
        (sym (fio_crc_t10dif-eq-reference seed x small hx)
          ∙ e
          ∙ fio_crc_t10dif-eq-reference seed y small hy)),
)
  where
    x : List ℕ
    x = before ++ a ∷ after

    y : List ℕ
    y = before ++ b ∷ after

    hx : IsBytes x
    hx = IsBytes-insert before after a hbefore hafter ha

    hy : IsBytes y
    hy = IsBytes-insert before after b hbefore hafter hb
