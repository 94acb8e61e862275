-- ===== src/Zone.antt =====
-- The zoned random distributions: the check of the zones of an option (zone_split_ddir of options.c), the
-- table of a hundred entries made from them (zone-dist.c), and the block drawn through it (io_u.c). The
-- words of the option, two numbers for a zone, are an argument, and so is the number from 1 to 100 that
-- `rand_between` gives.
pub mod Fill
pub mod Split
pub mod Table
pub mod Draw
mod Tests
use raptor_mark.Common.{
  ℕ, zero, suc, ◌+◌, ◌-◌, ◌*◌, ◌/◌, ◌%◌, ◌^◌, u8, u32, u64, sub64, Bool, true, false, ◌&&◌, ◌||◌,
  Option, none, some, List, [], ◌∷◌, length, get_or, set, replicate, map, if◌then◌else◌, ltb, ◌==◌,
}
use raptor_mark.Offset.{Ddir, Options, FioFile, last_block, next_rand_offset}

-- `struct zone_split`
pub record ZoneSplit : Type 0 where
  pub access_perc : ℕ
  pub size_perc : ℕ
  pub size : ℕ

-- `struct zone_split_index`
pub record ZoneSplitIndex : Type 0 where
  pub size_perc : ℕ
  pub size_perc_prev : ℕ
  pub size : ℕ
  pub size_prev : ℕ

-- (uint8_t) -1U: a percentage that is not given.
abbrev pub missing : ℕ
missing = 255

-- The zone of the two numbers of an entry.
unfoldable pub zone_of : Bool → ℕ × ℕ → ZoneSplit
zone_of absolute (val1, val2) =
    if absolute
    then record { access_perc = u8 val1; size_perc = 0; size = val2 }
    else record { access_perc = u8 val1; size_perc = u8 val2; size = 0 }

-- The sum of the percentages that are given, and how many are missing.
unfoldable pub given_sum : List ℕ → ℕ
given_sum [] = 0
given_sum (p ∷ percs) = if p == missing then given_sum percs else p + given_sum percs

unfoldable pub nr_missing : List ℕ → ℕ
nr_missing [] = 0
nr_missing (p ∷ percs) = if p == missing then suc (nr_missing percs) else nr_missing percs

-- What a percentage that is missing becomes.
unfoldable pub share : ℕ → ℕ → ℕ → ℕ
share sum missed nr =
    let perc = if (missed == 1) && (nr == 1) then 100 else sum in (100 - perc) / missed

unfoldable pub fill_access : ℕ → ZoneSplit → ZoneSplit
fill_access part z = if z.access_perc == missing then record z { access_perc = part } else z

unfoldable pub fill_size : ℕ → ZoneSplit → ZoneSplit
fill_size part z = if z.size_perc == missing then record z { size_perc = part } else z

-- `zone_split_ddir`, behind split_parse_ddir: the zones, or nothing where it returns 1.
unfoldable pub zone_split_ddir : Bool → List (ℕ × ℕ) → Option (List ZoneSplit)
zone_split_ddir absolute split =
    let zones = map (zone_of absolute) split in
    let access = map (λ (z : ZoneSplit). z.access_perc) zones in
    let sizes = if absolute then [] else map (λ (z : ZoneSplit). z.size_perc) zones in
    let nr = length zones in
    let filled_access =
      if nr_missing access == 0
      then zones
      else map (fill_access (share (given_sum access) (nr_missing access) nr)) zones in
    if nr == 0
    then some []
    else if ltb 100 (given_sum access) || ltb 100 (given_sum sizes)
    then none
    else if ltb (given_sum access) 100
    then none
    else if nr_missing sizes == 0
    then some filled_access
    else some (map (fill_size (share (given_sum sizes) (nr_missing sizes) nr)) filled_access)

-- The inner loop of `__td_zone_gen_index`, from entry `j` on; a write behind the hundred entries is `none`.
unfoldable pub gen_entries :
    ℕ → ℕ → ZoneSplitIndex → List ZoneSplitIndex → Option (List ZoneSplitIndex)
gen_entries zero j zsi table = some table
gen_entries (suc left) j zsi table =
    let rest = gen_entries left (j + 1) zsi (set table j zsi) in
    if ltb j (length table) then rest else none

unfoldable pub gen_zones :
    List ZoneSplit → ℕ → ℕ → ℕ → List ZoneSplitIndex → Option (List ZoneSplitIndex)
gen_zones [] aprev sprev sprev_sz table = some table
gen_zones (zsp ∷ zones) aprev sprev sprev_sz table =
    elim (gen_entries zsp.access_perc aprev
      (record {
        size_perc = u8 (sprev + zsp.size_perc);
        size_perc_prev = u8 sprev;
        size = u64 (sprev_sz + zsp.size);
        size_prev = sprev_sz;
      })
      table) [
        | none ↦ none
        | some table' ↦
            gen_zones zones (aprev + zsp.access_perc) (sprev + zsp.size_perc)
              (u64 (sprev_sz + zsp.size)) table'
      ]

-- `__td_zone_gen_index`; malloc leaves the entries as they are.
unfoldable pub td_zone_gen_index :
    List ZoneSplit → List ZoneSplitIndex → Option (List ZoneSplitIndex)
td_zone_gen_index zones fresh = gen_zones zones 0 0 0 fresh

-- An entry that is not there.
abbrev pub no_entry : ZoneSplitIndex
no_entry = record { size_perc = 0; size_perc_prev = 0; size = 0; size_prev = 0 }

module _ {S : Type 0} (next : ℕ → S → Option ℕ × S) where
  -- `__get_next_rand_offset_zoned`, with `v` the number that `rand_between` gives.
  unfoldable pub next_rand_offset_zoned :
      List ZoneSplitIndex → ℕ → ℕ → Options → FioFile → Ddir → S → Option ℕ × S
  next_rand_offset_zoned index nr v o f ddir s =
      let lastb = last_block o f ddir in
      let zsi = get_or index (v - 1) no_entry in
      let offset = if zsi.size_perc_prev == 0 then 0 else u64 (zsi.size_perc_prev * lastb) / 100 in
      let count = u64 (lastb * u32 (zsi.size_perc + 2 ^ 32 - zsi.size_perc_prev)) / 100 in
      let drawn = next_rand_offset next (λ (t : S). t) o f count s in
      if lastb == 0
      then (none, s)
      else if nr == 0
      then next_rand_offset next (λ (t : S). t) o f lastb s
      else (elim drawn.0 [ none ↦ none | some b ↦ some (u64 (b + offset)) ], drawn.1)

  -- `__get_next_rand_offset_zoned_abs`
  unfoldable pub next_rand_offset_zoned_abs :
      List ZoneSplitIndex → ℕ → ℕ → Options → FioFile → Ddir → S → Option ℕ × S
  next_rand_offset_zoned_abs index nr v o f ddir s =
      let lastb = last_block o f ddir in
      let zsi = get_or index (v - 1) no_entry in
      let stotal = zsi.size_prev / o.ba ddir in
      let send = zsi.size / o.ba ddir in
      let drawn = next_rand_offset next (λ (t : S). t) o f (sub64 send stotal) s in
      if lastb == 0
      then (none, s)
      else if (nr == 0) || (send == 2 ^ 32 - 1)
      then next_rand_offset next (λ (t : S). t) o f lastb s
      else if ltb lastb send
      then (none, s)
      else (elim drawn.0 [ none ↦ none | some b ↦ some (u64 (b + stotal)) ], drawn.1)
