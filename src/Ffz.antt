-- ===== src/Ffz.antt =====
-- lib/ffz.h: `ffs64` and `ffz`. The build for arm64 takes
-- `arch_ffz` of arch/arch-aarch64.h, two instructions, in place of the `ffz` here.
pub mod Lowest
use raptor_mark.Common.{ℕ, ◌+◌, ◌/◌, ◌^◌, bit_and, not64, ◌>>>◌, ◌==◌, if◌then◌else◌}

-- The result so far and the rest of the word.
pub record Scan : Type 0 where
  pub r : ℕ
  pub word : ℕ

-- `if ((word & mask) == 0) { r += s; word >>= s; }`
unfoldable pub ffs_step : ℕ → ℕ → Scan → Scan
ffs_step mask s c =
    if bit_and c.word mask == 0 then record { r = c.r + s; word = c.word >>> s } else c

unfoldable pub ffs64 : ℕ → ℕ
unfolding ffs_step
ffs64 word =
    let c32 = ffs_step 0xffff_ffff 32 (record { r = 0; word = word }) in
    let c16 = ffs_step 0xffff 16 c32 in
    let c8 = ffs_step 0xff 8 c16 in
    let c4 = ffs_step 0xf 4 c8 in
    let c2 = ffs_step 3 2 c4 in if bit_and c2.word 1 == 0 then c2.r + 1 else c2.r

unfoldable pub ffz : ℕ → ℕ
ffz bitmask = ffs64 (not64 bitmask)
