-- ===== src/Crc/Crc7.antt =====
-- crc/crc7.c and crc/crc7.h: CRC-7. Its register of seven digits is the upper part of a register
-- of eight that is shifted left, so the remainder is twice the checksum.
use raptor_mark.Common.{
  ℕ, ◌*◌, ◌^◌, ◌<◌, ◌≡◌, refl, ap, ◌∙◌, bit_xor, ◌<<<◌, List, [], ◌∷◌, get_or, arith, ltb, ltb→lt,
  ◌==◌, ==→eq, true,
}
use raptor_mark.Common.Bits.{bit_xor-lt}
use raptor_mark.Common.{all_entries, entry_of_all}
use raptor_mark.Crc.Bytes.{over_bytes, times, IsBytes}
use raptor_mark.Crc.Linear.{byte_step}
use raptor_mark.Crc.Msb.{step, reference}

unfoldable pub crc7_syndrome_table : List ℕ
crc7_syndrome_table =
    0x00 ∷ 0x09 ∷ 0x12 ∷ 0x1b ∷ 0x24 ∷ 0x2d ∷ 0x36 ∷ 0x3f ∷ 0x48 ∷ 0x41 ∷ 0x5a ∷ 0x53 ∷ 0x6c ∷ 0x65
    ∷ 0x7e ∷ 0x77 ∷ 0x19 ∷ 0x10 ∷ 0x0b ∷ 0x02 ∷ 0x3d ∷ 0x34 ∷ 0x2f ∷ 0x26 ∷ 0x51 ∷ 0x58 ∷ 0x43
    ∷ 0x4a ∷ 0x75 ∷ 0x7c ∷ 0x67 ∷ 0x6e ∷ 0x32 ∷ 0x3b ∷ 0x20 ∷ 0x29 ∷ 0x16 ∷ 0x1f ∷ 0x04 ∷ 0x0d
    ∷ 0x7a ∷ 0x73 ∷ 0x68 ∷ 0x61 ∷ 0x5e ∷ 0x57 ∷ 0x4c ∷ 0x45 ∷ 0x2b ∷ 0x22 ∷ 0x39 ∷ 0x30 ∷ 0x0f
    ∷ 0x06 ∷ 0x1d ∷ 0x14 ∷ 0x63 ∷ 0x6a ∷ 0x71 ∷ 0x78 ∷ 0x47 ∷ 0x4e ∷ 0x55 ∷ 0x5c ∷ 0x64 ∷ 0x6d
    ∷ 0x76 ∷ 0x7f ∷ 0x40 ∷ 0x49 ∷ 0x52 ∷ 0x5b ∷ 0x2c ∷ 0x25 ∷ 0x3e ∷ 0x37 ∷ 0x08 ∷ 0x01 ∷ 0x1a
    ∷ 0x13 ∷ 0x7d ∷ 0x74 ∷ 0x6f ∷ 0x66 ∷ 0x59 ∷ 0x50 ∷ 0x4b ∷ 0x42 ∷ 0x35 ∷ 0x3c ∷ 0x27 ∷ 0x2e
    ∷ 0x11 ∷ 0x18 ∷ 0x03 ∷ 0x0a ∷ 0x56 ∷ 0x5f ∷ 0x44 ∷ 0x4d ∷ 0x72 ∷ 0x7b ∷ 0x60 ∷ 0x69 ∷ 0x1e
    ∷ 0x17 ∷ 0x0c ∷ 0x05 ∷ 0x3a ∷ 0x33 ∷ 0x28 ∷ 0x21 ∷ 0x4f ∷ 0x46 ∷ 0x5d ∷ 0x54 ∷ 0x6b ∷ 0x62
    ∷ 0x79 ∷ 0x70 ∷ 0x07 ∷ 0x0e ∷ 0x15 ∷ 0x1c ∷ 0x23 ∷ 0x2a ∷ 0x31 ∷ 0x38 ∷ 0x41 ∷ 0x48 ∷ 0x53
    ∷ 0x5a ∷ 0x65 ∷ 0x6c ∷ 0x77 ∷ 0x7e ∷ 0x09 ∷ 0x00 ∷ 0x1b ∷ 0x12 ∷ 0x2d ∷ 0x24 ∷ 0x3f ∷ 0x36
    ∷ 0x58 ∷ 0x51 ∷ 0x4a ∷ 0x43 ∷ 0x7c ∷ 0x75 ∷ 0x6e ∷ 0x67 ∷ 0x10 ∷ 0x19 ∷ 0x02 ∷ 0x0b ∷ 0x34
    ∷ 0x3d ∷ 0x26 ∷ 0x2f ∷ 0x73 ∷ 0x7a ∷ 0x61 ∷ 0x68 ∷ 0x57 ∷ 0x5e ∷ 0x45 ∷ 0x4c ∷ 0x3b ∷ 0x32
    ∷ 0x29 ∷ 0x20 ∷ 0x1f ∷ 0x16 ∷ 0x0d ∷ 0x04 ∷ 0x6a ∷ 0x63 ∷ 0x78 ∷ 0x71 ∷ 0x4e ∷ 0x47 ∷ 0x5c
    ∷ 0x55 ∷ 0x22 ∷ 0x2b ∷ 0x30 ∷ 0x39 ∷ 0x06 ∷ 0x0f ∷ 0x14 ∷ 0x1d ∷ 0x25 ∷ 0x2c ∷ 0x37 ∷ 0x3e
    ∷ 0x01 ∷ 0x08 ∷ 0x13 ∷ 0x1a ∷ 0x6d ∷ 0x64 ∷ 0x7f ∷ 0x76 ∷ 0x49 ∷ 0x40 ∷ 0x5b ∷ 0x52 ∷ 0x3c
    ∷ 0x35 ∷ 0x2e ∷ 0x27 ∷ 0x18 ∷ 0x11 ∷ 0x0a ∷ 0x03 ∷ 0x74 ∷ 0x7d ∷ 0x66 ∷ 0x6f ∷ 0x50 ∷ 0x59
    ∷ 0x42 ∷ 0x4b ∷ 0x17 ∷ 0x1e ∷ 0x05 ∷ 0x0c ∷ 0x33 ∷ 0x3a ∷ 0x21 ∷ 0x28 ∷ 0x5f ∷ 0x56 ∷ 0x4d
    ∷ 0x44 ∷ 0x7b ∷ 0x72 ∷ 0x69 ∷ 0x60 ∷ 0x0e ∷ 0x07 ∷ 0x1c ∷ 0x15 ∷ 0x2a ∷ 0x23 ∷ 0x38 ∷ 0x31
    ∷ 0x46 ∷ 0x4f ∷ 0x54 ∷ 0x5d ∷ 0x62 ∷ 0x6b ∷ 0x70 ∷ 0x79 ∷ []

-- The index stays below 256 as long as the checksum stays below 128.
unfoldable pub crc7_byte : ℕ → ℕ → ℕ
crc7_byte crc b = get_or crc7_syndrome_table (bit_xor (crc <<< 1) b) 0

unfoldable pub fio_crc7 : List ℕ → ℕ
fio_crc7 buf = over_bytes crc7_byte 0 buf

table_doubled :
    all_entries (λ i. 2 * get_or crc7_syndrome_table i 0 == times 8 (step 7 0x12) (i * 2 ^ 0)) 256
    ≡ true
unfolding crc7_syndrome_table all_entries step
table_doubled = refl

entries_fit : all_entries (λ i. ltb (get_or crc7_syndrome_table i 0) 128) 256 ≡ true
unfolding crc7_syndrome_table all_entries
entries_fit = refl

index-lt : (crc b : ℕ) → crc < 128 → b < 256 → bit_xor (crc * 2 ^ 1) b < 256
index-lt crc b hc hb = bit_xor-lt (crc * 2 ^ 1) b 8 (omega arith) hb

pub crc7_byte-lt : (crc b : ℕ) → crc < 128 → b < 256 → crc7_byte crc b < 128
unfolding crc7_byte
crc7_byte-lt crc b hc hb =
    ltb→lt _ _ (entry_of_all _ 256 (bit_xor (crc * 2 ^ 1) b) (index-lt crc b hc hb) entries_fit)

crc7_byte_doubled :
    (crc b : ℕ)
    → crc < 128
    → b < 256
    → 2 * crc7_byte crc b ≡ byte_step (step 7 0x12) (λ t. t * 2 ^ 0) (2 * crc) b
unfolding crc7_byte
crc7_byte_doubled crc b hc hb =
    ==→eq _ _ (entry_of_all _ 256 (bit_xor (crc * 2 ^ 1) b) (index-lt crc b hc hb) table_doubled)
    ∙ ap (times 8 (step 7 0x12)) whole
  where
    whole : bit_xor (crc * 2 ^ 1) b * 2 ^ 0 ≡ bit_xor (2 * crc) (b * 2 ^ 0)
    whole =
        let twice : crc * 2 ^ 1 ≡ 2 * crc = omega arith in
        let same : b * 2 ^ 0 ≡ b = omega arith in rw (same, twice) (omega arith)

loop_doubled :
    (crc : ℕ) (buf : List ℕ)
    → crc < 128
    → IsBytes buf
    → 2 * over_bytes crc7_byte crc buf ≡ reference 7 0 0x12 (2 * crc) buf
unfolding over_bytes reference
loop_doubled crc [] hc h = refl
loop_doubled crc (b ∷ buf) hc h =
    loop_doubled (crc7_byte crc b) buf (crc7_byte-lt crc b hc h.0) h.1
    ∙ ap (λ (c : ℕ). over_bytes (byte_step (step 7 0x12) (λ t. t * 2 ^ 0)) c buf)
        (crc7_byte_doubled crc b hc h.0)

pub fio_crc7-eq-reference :
    (buf : List ℕ) → IsBytes buf → 2 * fio_crc7 buf ≡ reference 7 0 0x12 0 buf
unfolding fio_crc7
fio_crc7-eq-reference buf h = loop_doubled 0 buf (omega arith) h
