-- ===== src/Latency/Tests.antt =====
-- Latencies and their buckets.
use raptor_mark.Common.{◌+◌, ◌/◌, ◌≤◌, ◌<◌, ◌≡◌, refl, arith}
use raptor_mark.Latency.{plat_nr, plat_val_to_idx, plat_idx_to_val, highest_bit, leading_zeros}
use raptor_mark.Latency.Buckets.{
  plat_val_to_idx-lt, plat_idx_to_val-plat_val_to_idx, plat_val_to_idx-plat_idx_to_val,
}

plat_val_to_idx-lt_example : plat_val_to_idx 0xffff_ffff_ffff_ffff < plat_nr
plat_val_to_idx-lt_example = plat_val_to_idx-lt 0xffff_ffff_ffff_ffff (omega arith)

plat_idx_to_val-plat_val_to_idx_example :
    (plat_idx_to_val (plat_val_to_idx 1000000) ≤ 1000000 + 1000000 / 128)
    × (1000000 ≤ plat_idx_to_val (plat_val_to_idx 1000000) + 1000000 / 128)
plat_idx_to_val-plat_val_to_idx_example = plat_idx_to_val-plat_val_to_idx 1000000 (omega arith)

plat_val_to_idx-plat_idx_to_val_example : plat_val_to_idx (plat_idx_to_val 1855) ≡ 1855
plat_val_to_idx-plat_idx_to_val_example = plat_val_to_idx-plat_idx_to_val 1855 (omega arith)

-- A millisecond.
runs : (plat_val_to_idx 1000000 ≡ 954) × (plat_idx_to_val 954 ≡ 1003520)
unfolding plat_val_to_idx plat_idx_to_val highest_bit leading_zeros
runs = (refl, refl)
