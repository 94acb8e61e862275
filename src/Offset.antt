-- ===== src/Offset.antt =====
-- io_u.c: which block or offset the next I/O goes to, and the random map that it is marked in.
-- `S` is the state of the random generators. `next` draws a block below the number that it is given,
-- or none where the generator has run through, and `reset` starts the generator again.
pub mod Mark
pub mod Random
pub mod Cover
pub mod Position
pub mod Bounds
mod Tests
use raptor_mark.Common.{
  ℕ, zero, suc, ◌+◌, ◌-◌, ◌*◌, ◌/◌, ◌%◌, ◌^◌, u32, u64, sub64, Bool, true, false, not, ◌&&◌, ◌||◌,
  Option, none, some, if◌then◌else◌, ltb, leb, ◌==◌,
}
use raptor_mark.Axmap.{Axmap, axmap_reset, axmap_isset, axmap_set_nr, axmap_next_free, no_bit}

-- `enum fio_ddir`, the directions of `ddir_rw`
pub data Ddir : Type 0 where
  ddir_read ddir_write ddir_trim : Ddir

-- `td->o.rw_seq`
pub data RwSeq : Type 0 where
  rw_seq_seq rw_seq_ident rw_seq_other : RwSeq

-- What io_u.c reads of `td->o`. `ddir_seq_add` is a `long long`, as 64 digits.
pub record Options : Type 0 where
  pub min_bs : Ddir → ℕ
  pub ba : Ddir → ℕ
  pub zone_strided : Bool
  pub zone_range : ℕ
  pub norandommap : Bool
  pub perc_rand : Ddir → ℕ
  pub time_based : Bool
  pub nonuniform : Bool
  pub nr_files : ℕ
  pub td_rw : Bool
  pub td_random : Bool
  pub td_randtrimwrite : Bool
  pub io_size : ℕ
  pub size : ℕ
  pub ddir_seq_add : ℕ
  pub rw_seq : RwSeq
  pub ddir_seq_nr : ℕ

-- What io_u.c reads of `struct fio_file`, with what `get_start_offset` gives.
pub record FioFile : Type 0 where
  pub file_offset : ℕ
  pub start_offset : ℕ
  pub io_size : ℕ
  pub real_file_size : ℕ
  pub last_pos : Ddir → ℕ
  pub last_start : Ddir → ℕ
  pub io_axmap : Option Axmap

unfoldable pub set_ddir : (Ddir → ℕ) → Ddir → ℕ → Ddir → ℕ
set_ddir f ddir_read v ddir_read = v
set_ddir f ddir_read v ddir_write = f ddir_write
set_ddir f ddir_read v ddir_trim = f ddir_trim
set_ddir f ddir_write v ddir_read = f ddir_read
set_ddir f ddir_write v ddir_write = v
set_ddir f ddir_write v ddir_trim = f ddir_trim
set_ddir f ddir_trim v ddir_read = f ddir_read
set_ddir f ddir_trim v ddir_write = f ddir_write
set_ddir f ddir_trim v ddir_trim = v

unfoldable pub random_map_free : Axmap → ℕ → Bool
random_map_free axmap block = not (axmap_isset axmap block)

-- A failed assertion is `none`. `nr_bits` of `axmap_set_nr` is an `unsigned int`. `busy_ok` is the flag IO_U_F_BUSY_OK of the I/O.
unfoldable pub mark_random_map : Options → Ddir → Bool → ℕ → Axmap → ℕ → ℕ → Option (ℕ × Axmap)
mark_random_map o ddir busy_ok file_offset axmap offset buflen =
    let min_bs = o.min_bs ddir in
    let block = sub64 offset file_offset / min_bs in
    let asked = u64 (buflen + min_bs - 1) / min_bs in
    let cut : ℕ → ℕ = λ nr_blocks.
      if ltb (u64 (nr_blocks * min_bs)) buflen then u64 (nr_blocks * min_bs) else buflen in
    if asked == 0
    then none
    else if busy_ok
    then some (cut asked, axmap)
    else elim (axmap_set_nr axmap block (u32 asked)) [
      | none ↦ none
      | some (nr_blocks, after) ↦ if nr_blocks == 0 then none else some (cut nr_blocks, after)
    ]

unfoldable pub last_block : Options → FioFile → Ddir → ℕ
last_block o f ddir =
    let size = if ltb f.real_file_size f.io_size then f.real_file_size else f.io_size in
    let in_zone = if o.zone_strided && not (o.zone_range == 0) then o.zone_range else size in
    let max_size =
      if ltb (o.ba ddir) (o.min_bs ddir)
      then sub64 in_zone (o.min_bs ddir - o.ba ddir)
      else in_zone in
    max_size / o.ba ddir

-- `fio_file_reset` (filesetup.c), for a file that is no zoned block device
unfoldable pub fio_file_reset : FioFile → FioFile
fio_file_reset f = record f {
  last_pos = λ ddir. f.file_offset;
  last_start = λ ddir. no_bit;
  io_axmap = elim f.io_axmap [ none ↦ none | some axmap ↦ some (axmap_reset axmap) ];
}

-- The generator starts again where the file has no map.
unfoldable pub reset_generator : {S : Type 0} → (S → S) → FioFile → S → S
reset_generator reset f s = elim f.io_axmap [ none ↦ reset s | some axmap ↦ s ]

-- The end of `__get_next_rand_offset`, at the block `b` drawn.
unfoldable pub free_block : Options → FioFile → ℕ → Option ℕ
free_block o f b = elim f.io_axmap [
  | none ↦ some b
  | some axmap ↦
      if o.norandommap
      then some b
      else if random_map_free axmap b
      then some b
      else if axmap_next_free axmap b == no_bit
      then none
      else some (axmap_next_free axmap b)
]

module _ {S : Type 0} (next : ℕ → S → Option ℕ × S) (reset : S → S) where
  -- `__get_next_rand_offset`; `none` stands for the return of 1.
  unfoldable pub next_rand_offset : Options → FioFile → ℕ → S → Option ℕ × S
  next_rand_offset o f lastb s =
      let drawn = next lastb s in
      (elim drawn.0 [ none ↦ none | some b ↦ free_block o f b ], drawn.1)

  -- `get_next_rand_offset`, with FIO_RAND_DIST_RANDOM
  unfoldable pub get_next_rand_offset : Options → FioFile → Ddir → S → Option ℕ × S
  get_next_rand_offset o f ddir s =
      let lastb = last_block o f ddir in
      if lastb == 0 then (none, s) else next_rand_offset o f lastb s

  unfoldable pub get_next_rand_block : Options → FioFile → Ddir → S → Option ℕ × FioFile × S
  get_next_rand_block o f ddir s =
      let first = get_next_rand_offset o f ddir s in
      let again =
        get_next_rand_offset o (fio_file_reset f) ddir (reset_generator reset f first.1) in
      elim first.0 [
        | some b ↦ (some b, f, first.1)
        | none ↦
            if o.time_based || o.nonuniform
            then (again.0, fio_file_reset f, again.1)
            else (none, f, first.1)
      ]
