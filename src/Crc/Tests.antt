-- ===== src/Crc/Tests.antt =====
-- Runs of the checksums of fio/crc on "123456789", whose checksums are published, and the theorems
-- at concrete buffers.
use raptor_mark.Common.{ℕ, ◌*◌, ◌≡◌, ◌≢◌, refl, not64, List, [], ◌∷◌, arith}
use raptor_mark.Crc.Bytes.{over_bytes}
use raptor_mark.Crc.Reflected
use raptor_mark.Crc.Msb
use raptor_mark.Crc.Crc7.{fio_crc7}
use raptor_mark.Crc.Crc16.{fio_crc16}
use raptor_mark.Crc.Crc32.{fio_crc32}
use raptor_mark.Crc.Crc32c.{crc32c_sw}
use raptor_mark.Crc.Crc64.{fio_crc64}
use raptor_mark.Crc.Crc64Nvme.{fio_crc64_nvme}
use raptor_mark.Crc.T10Dif.{fio_crc_t10dif}
use raptor_mark.Crc.Crc7
use raptor_mark.Crc.Crc16
use raptor_mark.Crc.Crc64Nvme
use raptor_mark.Crc.T10Dif
use raptor_mark.Crc.Division.{reflected_checksums_divide, msb_checksums_divide}
use raptor_mark.Crc.Detection.{one_byte_detected}

abbrev digits : List ℕ
digits = 0x31 ∷ 0x32 ∷ 0x33 ∷ 0x34 ∷ 0x35 ∷ 0x36 ∷ 0x37 ∷ 0x38 ∷ 0x39 ∷ []

published :
    (fio_crc7 digits ≡ 0x75)
    × (fio_crc16 digits ≡ 0xbb3d)
    × (fio_crc64_nvme 0 digits ≡ 0xae8b14860a799888)
    × (fio_crc_t10dif 0 digits ≡ 0xd0db)
unfolding fio_crc7 Crc7.crc7_byte Crc7.crc7_syndrome_table fio_crc16 Crc16.crc16_byte
    Crc16.crc16_table fio_crc64_nvme Crc64Nvme.crc64_nvme_byte Crc64Nvme.crc64nvmetable
    fio_crc_t10dif T10Dif.crc_t10dif_byte T10Dif.t10_dif_crc_table over_bytes
published = (refl, refl, refl, refl)

reflected_checksums_divide_example :
    (fio_crc16 digits ≡ Reflected.reference 0xa001 0 digits)
    × (crc32c_sw digits ≡ Reflected.reference 0x82f63b78 0xffff_ffff digits)
    × (fio_crc64 digits ≡ Reflected.reference 0x95ac9329ac4bc9b5 0 digits)
    × (fio_crc64_nvme 0 digits ≡ not64 (Reflected.reference 0x9a6c9329ac4bc9b5 (not64 0) digits))
reflected_checksums_divide_example = reflected_checksums_divide 0 digits (omega arith)

msb_checksums_divide_example :
    (2 * fio_crc7 digits ≡ Msb.reference 7 0 0x12 0 digits)
    × (fio_crc32 digits ≡ Msb.reference 31 24 0x4c11db7 0 digits)
    × (fio_crc_t10dif 7 digits ≡ Msb.reference 15 8 0x8bb7 7 digits)
msb_checksums_divide_example = msb_checksums_divide 7 digits (omega arith) (omega arith)

one_byte_detected_example :
    (fio_crc16 (1 ∷ 2 ∷ 3 ∷ []) ≢ fio_crc16 (1 ∷ 9 ∷ 3 ∷ []))
    × (fio_crc32 (1 ∷ 2 ∷ 3 ∷ []) ≢ fio_crc32 (1 ∷ 9 ∷ 3 ∷ []))
    × (crc32c_sw (1 ∷ 2 ∷ 3 ∷ []) ≢ crc32c_sw (1 ∷ 9 ∷ 3 ∷ []))
    × (fio_crc64 (1 ∷ 2 ∷ 3 ∷ []) ≢ fio_crc64 (1 ∷ 9 ∷ 3 ∷ []))
    × (fio_crc_t10dif 5 (1 ∷ 2 ∷ 3 ∷ []) ≢ fio_crc_t10dif 5 (1 ∷ 9 ∷ 3 ∷ []))
one_byte_detected_example =
    one_byte_detected 5 (1 ∷ []) (3 ∷ []) 2 9 (omega arith) (omega arith) (omega arith)
      (omega arith) (omega arith) (omega arith)
