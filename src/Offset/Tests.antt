-- ===== src/Offset/Tests.antt =====
-- A file of three blocks of 512 bytes, the second of them covered, and the theorems on it.
use raptor_mark.Common.{
  ℕ, zero, suc, ◌+◌, ◌*◌, ◌%◌, ◌^◌, ◌<◌, min, ◌≡◌, refl, true, false, arith, Option, none, some, [],
  ◌∷◌, ◌⊎◌, some_injective,
}
use raptor_mark.Axmap.{
  AxmapLevel, Axmap, no_bit, axmap_isset, topdown_loop, axmap_isset_fn, level_at, axmap_next_free,
  bit_masks,
}
use raptor_mark.Ffz.{ffz, ffs64}
use raptor_mark.Axmap.Digits.{run}
use raptor_mark.Axmap.Layout.{IsAxmap, member, word_at}
use raptor_mark.Axmap.SetOne.{IsAdded}
use raptor_mark.Offset.{
  ddir_read, rw_seq_seq, Options, FioFile, mark_random_map, next_rand_offset, last_block,
  get_next_rand_offset, free_block, get_next_rand_block, random_map_free,
}
use raptor_mark.Offset.Mark.{mark_random_map_lem}
use raptor_mark.Offset.Random.{IsGiven, next_rand_offset_lem}
use raptor_mark.Common.Count.{free_count}
use raptor_mark.Offset.Cover.{IsCovered, drive_lem}
use raptor_mark.Offset.Position.{
  IoU, get_next_offset, check_offset, get_next_block, find_place, place_at, should_do_random,
  from_block, from_seq, get_next_seq_offset, start_again, restart_if, rewind, seq_pos, negative,
}
use raptor_mark.Offset.Bounds.{InFile, get_next_offset-InFile}

abbrev level : AxmapLevel
level = record { level = 0; map_size = 1; words = 2 ∷ [] }

abbrev second : Axmap
second = record { nr_levels = 1; levels = level ∷ []; nr_bits = 3 }

level_fits : (o : ℕ) → word_at level o < 2 ^ 64
level_fits zero = omega arith
level_fits (suc o) = omega arith

second-IsAxmap : IsAxmap second
second-IsAxmap = record {
  count = refl;
  some_level = omega arith;
  chain = (record { level = refl; size = refl; stored = refl; words = level_fits }, tt, tt);
  small = omega arith;
}

abbrev options : Options
options = record {
  min_bs = λ ddir. 512;
  ba = λ ddir. 512;
  zone_strided = false;
  zone_range = 0;
  norandommap = false;
  perc_rand = λ ddir. 100;
  time_based = false;
  nonuniform = false;
  nr_files = 1;
  td_rw = false;
  td_random = true;
  td_randtrimwrite = false;
  io_size = 1536;
  size = 1536;
  ddir_seq_add = 0;
  rw_seq = rw_seq_seq;
  ddir_seq_nr = 1;
}

abbrev file : FioFile
file = record {
  file_offset = 4096;
  start_offset = 4096;
  io_size = 1536;
  real_file_size = 65536;
  last_pos = λ ddir. 4096;
  last_start = λ ddir. no_bit;
  io_axmap = some second;
}

-- A generator that counts.
abbrev next : ℕ → ℕ → Option ℕ × ℕ
next lastb s = (some (s % 3), s + 1)

abbrev percent : ℕ → ℕ × ℕ
percent s = (50, s)

abbrev io_u : IoU
io_u = record { ddir = ddir_read; offset = 0; verify_offset = 0; busy_ok = false }

two_free : free_count (member second) 3 ≡ 2
unfolding free_count
two_free = refl

drive_lem_example : IsCovered next (λ s. s) options file ddir_read 3 2 second 1
drive_lem_example =
    drive_lem next (λ s. s) options file ddir_read 3 2 second 1 refl (omega arith) (omega arith)
      (λ s. (s % 3, refl, omega arith)) second-IsAxmap two_free

next_rand_offset_lem_example :
    IsGiven second (next 3 1).0 (next_rand_offset next (λ s. s) options file 3 1).0
next_rand_offset_lem_example =
    next_rand_offset_lem options file second next (λ s. s) 3 1
      (λ b e. omega (arith, some_injective e)) refl refl second-IsAxmap

mark_random_map_lem_example :
    ((member second 2 ≡ 1) × (mark_random_map options ddir_read false 4096 second 5120 512 ≡ none))
    ⊎ ((member second 2 ≡ 0)
        × (0 < run (member second) 2 1)
        × (after : Axmap) × (mark_random_map options ddir_read false 4096 second 5120 512
            ≡ some (min 512 (run (member second) 2 1 * 512), after))
        × IsAdded second 2 (run (member second) 2 1) after)
mark_random_map_lem_example =
    mark_random_map_lem options ddir_read 4096 5120 512 second second-IsAxmap (omega arith)
      (omega arith) (omega arith) (omega arith) (omega arith) (omega arith) (omega arith)

not_failed : (get_next_offset next (λ s. s) percent options io_u file 1 1).failed ≡ false
unfolding get_next_offset check_offset get_next_block find_place place_at should_do_random
    from_block get_next_rand_block get_next_rand_offset last_block next_rand_offset free_block
    random_map_free axmap_isset topdown_loop axmap_isset_fn level_at from_seq get_next_seq_offset
    start_again restart_if rewind seq_pos negative axmap_next_free bit_masks ffz ffs64
not_failed = refl

get_next_offset-InFile_example :
    InFile next (λ s. s) percent file (get_next_offset next (λ s. s) percent options io_u file 1 1)
get_next_offset-InFile_example =
    get_next_offset-InFile next (λ s. s) percent options io_u file 1 1 (omega arith) not_failed
