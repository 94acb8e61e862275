-- ===== src/Zone/Tests.antt =====
-- options.c, zone-dist.c, io_u.c: runs, and the theorems at sixty percent of the accesses in the first tenth of a file.
use raptor_mark.Common.{
  ℕ, ◌-◌, ◌/◌, ◌<◌, ◌≡◌, ◌≢◌, refl, sym, subst, arith, ◌⊎◌, inl, inr, true, false, Option, none,
  some, List, [], ◌∷◌, length, get_or, map, replicate, some_injective,
}
use native.Mathlib.Decide.{ℕ_discrete}
use raptor_mark.Axmap.{no_bit}
use raptor_mark.Offset.{
  ddir_read, rw_seq_seq, Options, FioFile, last_block, next_rand_offset, free_block,
}
use raptor_mark.Zone.{
  ZoneSplit, ZoneSplitIndex, zone_of, missing, zone_split_ddir, td_zone_gen_index, no_entry,
  given_sum, nr_missing, share, fill_size, next_rand_offset_zoned, next_rand_offset_zoned_abs,
}
use raptor_mark.Zone.Fill.{access_total, IsSplit}
use raptor_mark.Zone.Split.{zone_split_ddir-IsSplit}
use raptor_mark.Zone.Table.{entry_of, td_zone_gen_index_lem}
use raptor_mark.Zone.Draw.{next_rand_offset_zoned_within}

abbrev two_words : List (ℕ × ℕ)
two_words = (60, 10) ∷ (40, 90) ∷ []

abbrev two_zones : List ZoneSplit
two_zones = map (zone_of false) two_words

abbrev fresh_table : List ZoneSplitIndex
fresh_table = replicate 100 no_entry

two_accepted : zone_split_ddir false two_words ≡ some two_zones
unfolding zone_split_ddir zone_of given_sum nr_missing
two_accepted = refl

two_some : length two_zones ≢ 0
two_some e = omega (arith, e)

zone_split_ddir-IsSplit_example : IsSplit two_zones
zone_split_ddir-IsSplit_example = zone_split_ddir-IsSplit two_words two_zones two_some two_accepted

two_full : access_total two_zones ≡ 100
unfolding access_total zone_of
two_full = refl

fresh_length : length fresh_table ≡ 100
fresh_length = refl

td_zone_gen_index_lem_example :
    (table : List ZoneSplitIndex) × (td_zone_gen_index two_zones fresh_table ≡ some table)
    × (length table ≡ 100)
    × ((j : ℕ) → j < 100 → get_or table j no_entry ≡ entry_of two_zones 0 0 j)
td_zone_gen_index_lem_example = td_zone_gen_index_lem two_zones fresh_table two_full fresh_length

sizes_of : Option (List ZoneSplit) → List ℕ
sizes_of none = []
sizes_of (some zones) = map (λ (z : ZoneSplit). z.size_perc) zones

-- The second size is not given: it is what is left.
filled_up : sizes_of (zone_split_ddir false ((60, 10) ∷ (40, missing) ∷ [])) ≡ 10 ∷ 90 ∷ []
unfolding zone_split_ddir zone_of given_sum nr_missing share fill_size sizes_of
filled_up = refl

-- The size of a single zone is not given: it gets nothing.
single_empty : sizes_of (zone_split_ddir false ((100, missing) ∷ [])) ≡ 0 ∷ []
unfolding zone_split_ddir zone_of given_sum nr_missing share fill_size sizes_of
single_empty = refl

-- A generator that draws the block in the middle.
abbrev middle : ℕ → ℕ → Option ℕ × ℕ
middle n s = (some (n / 2), s)

middle_below : (n : ℕ) (s : ℕ) (b : ℕ) → (middle n s).0 ≡ some b → (b < n) ⊎ (b ≡ 0)
middle_below n s b h =
    let e : n / 2 ≡ b = some_injective h in
    elim (ℕ_discrete n 0) [
      | yes zero_n ↦ inr (omega (arith, e, zero_n))
      | no ne ↦ inl (omega (arith, e, ne))
    ]

abbrev options : Options
options = record {
  min_bs = λ ddir. 512;
  ba = λ ddir. 512;
  zone_strided = false;
  zone_range = 0;
  norandommap = true;
  perc_rand = λ ddir. 100;
  time_based = false;
  nonuniform = true;
  nr_files = 1;
  td_rw = false;
  td_random = true;
  td_randtrimwrite = false;
  io_size = 51200;
  size = 51200;
  ddir_seq_add = 0;
  rw_seq = rw_seq_seq;
  ddir_seq_nr = 1;
}

abbrev file : FioFile
file = record {
  file_offset = 0;
  start_offset = 0;
  io_size = 51200;
  real_file_size = 51200;
  last_pos = λ ddir. 0;
  last_start = λ ddir. no_bit;
  io_axmap = none;
}

abbrev two_table : List ZoneSplitIndex
two_table = (td_zone_gen_index_lem two_zones fresh_table two_full fresh_length).0

blocks : last_block options file ddir_read ≡ 100
unfolding last_block
blocks = refl

high_entry :
    get_or two_table 99 no_entry
    ≡ record { size_perc = 100; size_perc_prev = 10; size = 0; size_prev = 0 }
unfolding entry_of zone_of
high_entry = (td_zone_gen_index_lem two_zones fresh_table two_full fresh_length).3 99 (omega arith)

high_part :
    (get_or two_table (100 - 1) no_entry).size_perc_prev
    < (get_or two_table (100 - 1) no_entry).size_perc
high_part =
    subst (λ (z : ZoneSplitIndex). z.size_perc_prev < z.size_perc) (sym high_entry) (omega arith)

high_drawn : (next_rand_offset_zoned middle two_table 2 100 options file ddir_read 0).0 ≡ some 55
unfolding next_rand_offset_zoned next_rand_offset free_block last_block
high_drawn = rw high_entry refl

next_rand_offset_zoned_within_example : 55 < last_block options file ddir_read
next_rand_offset_zoned_within_example =
    next_rand_offset_zoned_within middle middle_below two_words two_zones fresh_table two_table
      two_some two_accepted fresh_length
      (td_zone_gen_index_lem two_zones fresh_table two_full fresh_length).1 100 options file
      ddir_read 0 55 (omega arith) (omega arith) high_part (omega (arith, blocks)) refl high_drawn

-- A zone of the blocks 10 to 29, given by sizes.
absolute_drawn :
    (next_rand_offset_zoned_abs middle
      (replicate 100 (record { size_perc = 0; size_perc_prev = 0; size = 15360; size_prev = 5120 }))
      1
      7
      options
      file
      ddir_read
      0).0
    ≡ some 20
unfolding next_rand_offset_zoned_abs next_rand_offset free_block last_block
absolute_drawn = refl
