-- ===== src/Crc/Division.antt =====
-- The checksums of fio/crc and the division by their polynomials.
use raptor_mark.Common.{ℕ, ◌*◌, ◌^◌, ◌<◌, ◌≡◌, not64, List}
use raptor_mark.Crc.Bytes.{IsBytes}
use raptor_mark.Crc.Reflected
use raptor_mark.Crc.Msb
use raptor_mark.Crc.Crc7.{fio_crc7, fio_crc7-eq-reference}
use raptor_mark.Crc.Crc16.{fio_crc16, fio_crc16-eq-reference}
use raptor_mark.Crc.Crc32.{fio_crc32, fio_crc32-eq-reference}
use raptor_mark.Crc.Crc32c.{crc32c_sw, crc32c_sw-eq-reference}
use raptor_mark.Crc.Crc64.{fio_crc64, fio_crc64-eq-reference}
use raptor_mark.Crc.Crc64Nvme.{fio_crc64_nvme, fio_crc64_nvme-eq-reference}
use raptor_mark.Crc.T10Dif.{fio_crc_t10dif, fio_crc_t10dif-eq-reference}

-- On a buffer of bytes the checksums whose register is shifted right, `fio_crc16`, `crc32c_sw`,
-- `fio_crc64` and, from any seed, `fio_crc64_nvme`, are the remainders that the division by their
-- polynomials gives one bit at a time.
pub reflected_checksums_divide :
    (seed : ℕ) (buf : List ℕ)
    → IsBytes buf
    → (fio_crc16 buf ≡ Reflected.reference 0xa001 0 buf)
      × (crc32c_sw buf ≡ Reflected.reference 0x82f63b78 0xffff_ffff buf)
      × (fio_crc64 buf ≡ Reflected.reference 0x95ac9329ac4bc9b5 0 buf)
      × (fio_crc64_nvme seed buf ≡ not64 (Reflected.reference 0x9a6c9329ac4bc9b5 (not64 seed) buf))
reflected_checksums_divide seed buf h = (
  fio_crc16-eq-reference buf h,
  crc32c_sw-eq-reference buf h,
  fio_crc64-eq-reference buf h,
  fio_crc64_nvme-eq-reference seed buf h,
)

-- On a buffer of bytes the checksums whose register is shifted left, `fio_crc32` and, from any
-- 16-bit seed, `fio_crc_t10dif`, are the remainders that the division by their polynomials gives
-- one bit at a time; that of `fio_crc7` in a register of eight digits is twice the checksum.
pub msb_checksums_divide :
    (seed : ℕ) (buf : List ℕ)
    → seed < 2 ^ 16
    → IsBytes buf
    → (2 * fio_crc7 buf ≡ Msb.reference 7 0 0x12 0 buf)
      × (fio_crc32 buf ≡ Msb.reference 31 24 0x4c11db7 0 buf)
      × (fio_crc_t10dif seed buf ≡ Msb.reference 15 8 0x8bb7 seed buf)
msb_checksums_divide seed buf small h = (
  fio_crc7-eq-reference buf h,
  fio_crc32-eq-reference buf h,
  fio_crc_t10dif-eq-reference seed buf small h,
)
