-- ===== src/Latency.antt =====
-- stat.c: the buckets of the latency histogram, plat_val_to_idx and plat_idx_to_val. The middle of a
-- bucket, `(k + 0.5) * (1 << error_bits)`, is a double that holds the number exactly.
pub mod Buckets
mod Tests
use raptor_mark.Common.{
  ℕ, zero, suc, ◌+◌, ◌-◌, ◌*◌, ◌/◌, ◌%◌, ◌^◌, bit_and, u32, ◌<<<◌, ◌>>>◌, if◌then◌else◌, ltb, leb,
  ◌==◌,
}

-- FIO_IO_U_PLAT_BITS
abbrev pub plat_bits : ℕ
plat_bits = 6

-- FIO_IO_U_PLAT_VAL
abbrev pub plat_val : ℕ
plat_val = 64

-- FIO_IO_U_PLAT_NR, with FIO_IO_U_PLAT_GROUP_NR groups
abbrev pub plat_nr : ℕ
plat_nr = 29 * 64

-- The zeros before the first one among `n` digits; `__builtin_clzll` counts them among 64.
unfoldable pub leading_zeros : ℕ → ℕ → ℕ
leading_zeros zero val = 0
leading_zeros (suc n) val =
    let others = leading_zeros n val in if leb (2 ^ n) val then 0 else others + 1

unfoldable pub highest_bit : ℕ → ℕ
highest_bit val = if val == 0 then 0 else 64 - leading_zeros 64 val - 1

unfoldable pub plat_val_to_idx : ℕ → ℕ
plat_val_to_idx val =
    let msb = highest_bit val in
    let error_bits = msb - plat_bits in
    let base = u32 ((error_bits + 1) <<< plat_bits) in
    let offset = bit_and (plat_val - 1) (val >>> error_bits) in
    if leb msb plat_bits
    then u32 val
    else if ltb (base + offset) (plat_nr - 1)
    then base + offset
    else plat_nr - 1

unfoldable pub plat_idx_to_val : ℕ → ℕ
plat_idx_to_val idx =
    let error_bits = (idx >>> plat_bits) - 1 in
    let base = 1 <<< (error_bits + plat_bits) in
    let k = idx % plat_val in
    if ltb idx (plat_val <<< 1) then idx else base + (2 * k + 1) * (1 <<< error_bits) / 2
