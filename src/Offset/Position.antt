-- ===== src/Offset/Position.antt =====
-- io_u.c: `get_next_seq_offset`, `get_next_block` and `get_next_offset`, which put an offset into the
-- I/O. `percent` draws a number from 1 to 100.
use raptor_mark.Common.{
  ℕ, ◌+◌, ◌-◌, ◌*◌, ◌^◌, u32, u64, sub64, Bool, true, false, not, ◌&&◌, ◌||◌, Option, none, some,
  if◌then◌else◌, ltb, leb, ◌==◌,
}
use raptor_mark.Axmap.{no_bit}
use raptor_mark.Offset.{
  Ddir, ddir_read, ddir_write, ddir_trim, rw_seq_seq, rw_seq_ident, rw_seq_other, Options, FioFile,
  set_ddir, get_next_rand_block,
}

-- What these functions read and write of `struct io_u`.
pub record IoU : Type 0 where
  pub ddir : Ddir
  pub offset : ℕ
  pub verify_offset : ℕ
  pub busy_ok : Bool

-- `td_randtrimwrite(td)` with the direction
abbrev pub is_write : Ddir → Bool
is_write ddir_write = true
is_write ddir_read = false
is_write ddir_trim = false

abbrev pub is_trim : Ddir → Bool
is_trim ddir_trim = true
is_trim ddir_read = false
is_trim ddir_write = false

unfoldable pub negative : ℕ → Bool
negative n = leb (2 ^ 63) n

abbrev pub min_size : FioFile → ℕ
min_size f = if ltb f.io_size f.real_file_size then f.io_size else f.real_file_size

-- At the end of the file, and where it is `wanted`, the position goes back to the beginning.
unfoldable pub restart_if : Bool → FioFile → Ddir → FioFile
restart_if wanted f ddir =
    if leb (u64 (f.io_size + f.start_offset)) (f.last_pos ddir) && wanted
    then record f { last_pos = set_ddir f.last_pos ddir f.file_offset }
    else f

-- The two tests for that at the top of `get_next_seq_offset`.
unfoldable pub start_again : Options → FioFile → Ddir → FioFile
start_again o f ddir =
    restart_if (o.td_rw && ltb o.size o.io_size)
      (restart_if (o.time_based && (o.nr_files == 1)) f ddir) ddir

-- "Only rewind if we already hit the end"
unfoldable pub rewind : Options → FioFile → Ddir → FioFile
rewind o f ddir =
    if (f.last_pos ddir == f.file_offset) && (not (f.file_offset == 0) && negative o.ddir_seq_add)
    then record f { last_pos = set_ddir f.last_pos ddir (min_size f) }
    else f

-- The offset in the file, from the position that the last I/O left.
unfoldable pub seq_pos : Options → FioFile → Ddir → ℕ
seq_pos o f ddir =
    let pos = sub64 (f.last_pos ddir) f.file_offset in
    let moved = u64 (pos + o.ddir_seq_add) in
    if (pos == 0) || (o.ddir_seq_add == 0)
    then pos
    else if leb f.real_file_size moved
    then if negative o.ddir_seq_add then u64 (min_size f + o.ddir_seq_add) else f.file_offset
    else moved

unfoldable pub get_next_seq_offset : Options → FioFile → Ddir → Option ℕ × FioFile
get_next_seq_offset o f ddir =
    let f1 = start_again o f ddir in
    let f2 = rewind o f1 ddir in
    if ltb (f1.last_pos ddir) f1.real_file_size then (some (seq_pos o f2 ddir), f2) else (none, f1)

module _ {S : Type 0} (next : ℕ → S → Option ℕ × S) (reset : S → S) (percent : S → ℕ × S) where
  unfoldable pub should_do_random : Options → Ddir → S → Bool × S
  should_do_random o ddir s =
      let drawn = percent s in
      if o.perc_rand ddir == 100 then (true, s) else (leb drawn.0 (o.perc_rand ddir), drawn.1)

  -- What `get_next_block` has found: a block, an offset, or nothing; and whether it is random.
  pub data Place : Type 0 where
    at_block at_offset : ℕ → Place
    nowhere : Place

  pub record Found : Type 0 where
    pub place : Place
    pub file : FioFile
    pub state : S
    pub is_random : Bool

  unfoldable pub from_block : Options → FioFile → Ddir → S → Bool → Found
  from_block o f ddir s is_random =
      let r = get_next_rand_block next reset o f ddir s in
      record {
        place = elim r.0 [ none ↦ nowhere | some b ↦ at_block b ];
        file = r.1;
        state = r.2;
        is_random = is_random;
      }

  -- The sequential offset and, where there is none, a random block.
  unfoldable pub from_seq : Options → FioFile → Ddir → S → Bool → Found
  from_seq o f ddir s or_random =
      let r = get_next_seq_offset o f ddir in
      let instead = from_block o r.1 ddir s false in
      elim r.0 [
        | some offset ↦ record {
          place = at_offset offset;
          file = r.1;
          state = s;
          is_random = false;
        }
        | none ↦
            if or_random
            then instead
            else record { place = nowhere; file = r.1; state = s; is_random = false }
      ]

  -- The I/O that the place is written to: whether it failed, the I/O and the rest.
  pub record Placed : Type 0 where
    pub failed : Bool
    pub io_u : IoU
    pub file : FioFile
    pub state : S
    pub seq_nr : ℕ
    pub is_random : Bool

  -- The end of `get_next_block`
  unfoldable pub place_at : Options → IoU → Found → ℕ → Placed
  place_at o io_u r seq_nr =
      let end : Bool → IoU → Placed = λ failed io_u. record {
        failed = failed;
        io_u = io_u;
        file = r.file;
        state = r.state;
        seq_nr = seq_nr;
        is_random = r.is_random;
      } in
      let at : Bool → ℕ → Placed = λ bug offset.
        if bug
        then end true (record io_u { verify_offset = io_u.offset })
        else end false (record io_u { offset = offset; verify_offset = offset }) in
      elim r.place [
        | at_offset offset ↦ at (offset == no_bit) offset
        | at_block b ↦ at (b == no_bit) (u64 (b * o.ba io_u.ddir))
        | nowhere ↦ end true io_u
      ]

  -- The branches of `get_next_block`, and the flag IO_U_F_BUSY_OK that they set.
  unfoldable pub find_place : Options → IoU → FioFile → Bool → S → Bool × Found
  find_place o io_u f rw_seq s =
      let ddir = io_u.ddir in
      let toss = should_do_random o ddir s in
      let ident =
        if f.last_start ddir == no_bit then 0 else sub64 (f.last_start ddir) f.file_offset in
      let stay : Place → Bool → Found =
        λ place is_random. record { place = place; file = f; state = s; is_random = is_random } in
      if o.td_randtrimwrite && is_write ddir
      then (true, stay (at_offset (f.last_start ddir_trim)) true)
      else if rw_seq
      then if o.td_random
        then if toss.0
          then (io_u.busy_ok, from_block o f ddir toss.1 true)
          else (true, from_seq o f ddir toss.1 true)
        else (io_u.busy_ok, from_seq o f ddir s false)
      else elim o.rw_seq [
        | rw_seq_seq ↦ (true, from_seq o f ddir s true)
        | rw_seq_ident ↦ (true, stay (at_offset ident) false)
        | rw_seq_other ↦ (true, stay nowhere false)
      ]

  unfoldable pub get_next_block : Options → IoU → FioFile → Bool → S → ℕ → Placed
  get_next_block o io_u f rw_seq s seq_nr =
      let r = find_place o io_u f rw_seq s in place_at o (record io_u { busy_ok = r.0 }) r.1 seq_nr

  -- What `get_next_offset` does with the block that it got.
  unfoldable pub check_offset : Options → Placed → Placed
  check_offset o r =
      let f = r.file in
      let offset = u64 (r.io_u.offset + f.file_offset) in
      let moved = record r.io_u { offset = offset } in
      let last_start =
        if o.td_randtrimwrite && (is_trim r.io_u.ddir && (f.last_start ddir_trim == offset))
        then set_ddir f.last_start ddir_write (sub64 (f.last_start ddir_write) 1)
        else f.last_start in
      if r.failed
      then r
      else if leb f.io_size r.io_u.offset
      then record r { failed = true }
      else if leb f.real_file_size offset
      then record r { failed = true; io_u = moved }
      else record r {
        io_u = record moved { verify_offset = offset };
        file = record f { last_start = last_start };
      }

  -- `td->ddir_seq_nr` counts down (`unsigned int`) to the next I/O that leaves the sequence.
  unfoldable pub get_next_offset : Options → IoU → FioFile → ℕ → S → Placed
  get_next_offset o io_u f seq_nr s =
      let left = u32 (seq_nr + 2 ^ 32 - 1) in
      check_offset o (
        if o.ddir_seq_nr == 0
        then get_next_block o io_u f false s seq_nr
        else if left == 0
        then get_next_block o io_u f true s o.ddir_seq_nr
        else get_next_block o io_u f false s left)

  unfoldable pub io_u_fits : IoU → FioFile → ℕ → Bool
  io_u_fits io_u f buflen = leb (u64 (io_u.offset + buflen)) (u64 (f.io_size + f.start_offset))
