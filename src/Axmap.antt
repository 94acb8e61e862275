-- ===== src/Axmap.antt =====
-- lib/axmap.c: the map of blocks that random I/O has covered, a bitmap and, above it, levels in which
-- a digit says that a word of the level below is full. Words have 64 digits (BITS_PER_LONG == 64).
-- `bit` here is the digit of a word; a read out of range gives 0, and a write there nothing.
pub mod Digits
pub mod Layout
pub mod Isset
pub mod SetWord
pub mod Store
pub mod SetLevels
pub mod Runs
pub mod SetOne
pub mod SetNr
pub mod New
pub mod Candidates
pub mod Search
pub mod Tower
pub mod FirstFree
pub mod NextFree
mod Tests
use raptor_mark.Common.{
  ℕ, zero, suc, ◌+◌, ◌-◌, ◌*◌, ◌/◌, ◌%◌, ◌^◌, min, bit_and, bit_or, not64, u32, u64, ◌<<<◌, ◌>>>◌,
  Bool, true, false, not, ◌&&◌, ◌||◌, Option, none, some, List, [], ◌∷◌, map, if◌then◌else◌, ltb,
  leb, ◌==◌, get_or, set, length, replicate,
}
use raptor_mark.Ffz.{ffz}

-- BLOCKS_PER_UNIT and UNIT_SHIFT
abbrev pub blocks_per_unit : ℕ
blocks_per_unit = 64

abbrev pub unit_shift : ℕ
unit_shift = 6

-- `bit_masks[n]` is `n` ones.
unfoldable pub bit_masks : List ℕ
bit_masks =
    0x0000000000000000 ∷ 0x0000000000000001 ∷ 0x0000000000000003 ∷ 0x0000000000000007
    ∷ 0x000000000000000f ∷ 0x000000000000001f ∷ 0x000000000000003f ∷ 0x000000000000007f
    ∷ 0x00000000000000ff ∷ 0x00000000000001ff ∷ 0x00000000000003ff ∷ 0x00000000000007ff
    ∷ 0x0000000000000fff ∷ 0x0000000000001fff ∷ 0x0000000000003fff ∷ 0x0000000000007fff
    ∷ 0x000000000000ffff ∷ 0x000000000001ffff ∷ 0x000000000003ffff ∷ 0x000000000007ffff
    ∷ 0x00000000000fffff ∷ 0x00000000001fffff ∷ 0x00000000003fffff ∷ 0x00000000007fffff
    ∷ 0x0000000000ffffff ∷ 0x0000000001ffffff ∷ 0x0000000003ffffff ∷ 0x0000000007ffffff
    ∷ 0x000000000fffffff ∷ 0x000000001fffffff ∷ 0x000000003fffffff ∷ 0x000000007fffffff
    ∷ 0x00000000ffffffff ∷ 0x00000001ffffffff ∷ 0x00000003ffffffff ∷ 0x00000007ffffffff
    ∷ 0x0000000fffffffff ∷ 0x0000001fffffffff ∷ 0x0000003fffffffff ∷ 0x0000007fffffffff
    ∷ 0x000000ffffffffff ∷ 0x000001ffffffffff ∷ 0x000003ffffffffff ∷ 0x000007ffffffffff
    ∷ 0x00000fffffffffff ∷ 0x00001fffffffffff ∷ 0x00003fffffffffff ∷ 0x00007fffffffffff
    ∷ 0x0000ffffffffffff ∷ 0x0001ffffffffffff ∷ 0x0003ffffffffffff ∷ 0x0007ffffffffffff
    ∷ 0x000fffffffffffff ∷ 0x001fffffffffffff ∷ 0x003fffffffffffff ∷ 0x007fffffffffffff
    ∷ 0x00ffffffffffffff ∷ 0x01ffffffffffffff ∷ 0x03ffffffffffffff ∷ 0x07ffffffffffffff
    ∷ 0x0fffffffffffffff ∷ 0x1fffffffffffffff ∷ 0x3fffffffffffffff ∷ 0x7fffffffffffffff
    ∷ 0xffffffffffffffff ∷ []

-- `struct axmap_level`, with `map` as `words`.
pub record AxmapLevel : Type 0 where
  pub level : ℕ
  pub map_size : ℕ
  pub words : List ℕ

-- `struct axmap`
pub record Axmap : Type 0 where
  pub nr_levels : ℕ
  pub levels : List AxmapLevel
  pub nr_bits : ℕ

-- `struct axmap_set_data`
pub record SetData : Type 0 where
  pub nr_bits : ℕ
  pub set_bits : ℕ

-- The level that `&axmap->levels[i]` names.
unfoldable pub level_at : List AxmapLevel → ℕ → AxmapLevel
level_at levels i = get_or levels i (record { level = 0; map_size = 0; words = [] })

unfoldable pub clear_level : AxmapLevel → AxmapLevel
clear_level al = record al { words = replicate al.map_size 0 }

-- The first `n` levels.
unfoldable pub clear_levels : ℕ → List AxmapLevel → List AxmapLevel
unfolding clear_level
clear_levels zero levels = levels
clear_levels (suc n) [] = []
clear_levels (suc n) (al ∷ levels) = clear_level al ∷ clear_levels n levels

unfoldable pub axmap_reset : Axmap → Axmap
axmap_reset axmap = record axmap { levels = clear_levels axmap.nr_levels axmap.levels }

-- The loop that counts the levels; `i` is an `unsigned int`.
unfoldable pub count_levels : ℕ → ℕ → ℕ → ℕ
count_levels zero i levels = levels
count_levels (suc rounds) i levels =
    let rest = count_levels rounds (u32 (i + blocks_per_unit - 1) >>> unit_shift) (levels + 1) in
    if ltb 1 i then rest else levels

-- What `malloc` and `calloc` do: `malloc_ok k` says whether the k-th allocation of `axmap_new`
-- succeeds, and `garbage` is the word that fresh memory holds.
module _ (malloc_ok : ℕ → Bool) (garbage : ℕ) where
  unfoldable pub build_levels : ℕ → ℕ → ℕ → Option (List AxmapLevel)
  build_levels zero i nr_bits = some []
  build_levels (suc left) i nr_bits =
      let size = u64 (nr_bits + blocks_per_unit - 1) >>> unit_shift in
      let al : AxmapLevel = record { level = i; map_size = size; words = replicate size garbage } in
      let rest : Option (List AxmapLevel) = build_levels left (i + 1) size in
      if malloc_ok (i + 2)
      then elim rest [ none ↦ none | some levels ↦ some (al ∷ levels) ]
      else none

  unfoldable pub axmap_new : ℕ → Option Axmap
  unfolding build_levels
  axmap_new nr_bits =
      let blocks = u64 (nr_bits + blocks_per_unit - 1) >>> unit_shift in
      let nr_levels = count_levels 32 (u32 blocks) 1 in
      if malloc_ok 0 && malloc_ok 1
      then elim (build_levels nr_levels 0 nr_bits) [
        | none ↦ none
        | some levels ↦
            some
              (axmap_reset (record { nr_levels = nr_levels; levels = levels; nr_bits = nr_bits }))
      ]
      else none

-- What a callback of `axmap_handler` gives: whether to stop, the level and the data.
abbrev pub Handled : Type 0
Handled = Bool × AxmapLevel × SetData

-- The loop of `axmap_handler`, from level zero up, with `left` levels to go.
unfoldable pub handler_loop :
    (AxmapLevel → ℕ → ℕ → SetData → Handled)
    → ℕ
    → List AxmapLevel
    → ℕ
    → SetData
    → Bool × List AxmapLevel × SetData
handler_loop func zero levels index d = (false, levels, d)
handler_loop func (suc left) [] index d = (false, [], d)
handler_loop func (suc left) (al ∷ levels) index d =
    let (stop, al', d') = func al (index >>> unit_shift) (bit_and index (blocks_per_unit - 1)) d in
    let rest =
      handler_loop func left levels (if index == 0 then index else index >>> unit_shift) d' in
    if stop then (true, al' ∷ levels, d') else (rest.0, al' ∷ rest.1, rest.2)

-- The loop of `axmap_handler_topdown`: the levels below `n`, the highest first.
unfoldable pub topdown_loop : (AxmapLevel → ℕ → ℕ → Bool) → ℕ → List AxmapLevel → ℕ → Bool
topdown_loop func zero levels bit_nr = false
topdown_loop func (suc i) levels bit_nr =
    let index = bit_nr >>> (unit_shift * i) in
    let below = topdown_loop func i levels bit_nr in
    if func (level_at levels i) (index >>> unit_shift) (bit_and index (blocks_per_unit - 1))
    then true
    else below

-- The end of `axmap_set_fn`, at the word `w` of the level. Its assertions, that the mask has a digit and none
-- of the word's, are left out: the returns of `axmap_set_fn` before it leave no other mask.
unfoldable pub store_mask : AxmapLevel → ℕ → ℕ → ℕ → SetData → Handled
store_mask al offset nr_bits mask d =
    let w = bit_or (get_or al.words offset 0) mask in
    (
      not (w == 2 ^ 64 - 1),
      record al { words = set al.words offset w },
      record { nr_bits = 1; set_bits = if al.level == 0 then nr_bits else d.set_bits },
    )

unfoldable pub mask_of : ℕ → ℕ → ℕ
mask_of nr_bits bit = u64 (get_or bit_masks nr_bits 0 <<< bit)

unfoldable pub axmap_set_fn : AxmapLevel → ℕ → ℕ → SetData → Handled
axmap_set_fn al offset bit d =
    let nr_bits = min d.nr_bits (blocks_per_unit - bit) in
    let mask = mask_of nr_bits bit in
    let overlap = bit_and (get_or al.words offset 0) mask in
    let clear = u32 (ffz (not64 overlap) + 2 ^ 32 - bit) in
    if overlap == mask
    then (true, al, record d { set_bits = 0 })
    else if overlap == 0
    then store_mask al offset nr_bits mask d
    else if clear == 0
    then (true, al, d)
    else store_mask al offset clear (mask_of clear bit) d

-- `__axmap_set`. The `nr_bits` that it cuts at the end of the map is used by an assertion only, that it is at
-- most 64, which is left out: axmap_set asks for one digit, and axmap_set_nr for those of a word at most.
unfoldable pub axmap_set_data : Axmap → ℕ → SetData → Axmap × SetData
axmap_set_data axmap bit_nr d =
    if ltb axmap.nr_bits bit_nr
    then (axmap, d)
    else let r = handler_loop axmap_set_fn axmap.nr_levels axmap.levels bit_nr d in
      (record axmap { levels = r.1 }, r.2)

unfoldable pub axmap_set : Axmap → ℕ → Axmap
axmap_set axmap bit_nr = (axmap_set_data axmap bit_nr (record { nr_bits = 1; set_bits = 0 })).0

-- The loop of `axmap_set_nr`; `none` where the rounds run out.
unfoldable pub set_nr_loop : ℕ → Axmap → ℕ → ℕ → ℕ → Option (ℕ × Axmap)
set_nr_loop zero axmap bit_nr nr_bits set_bits = none
set_nr_loop (suc rounds) axmap bit_nr nr_bits set_bits =
    let max_bits = blocks_per_unit - bit_and bit_nr (blocks_per_unit - 1) in
    let this_set = if ltb max_bits nr_bits then max_bits else nr_bits in
    let r = axmap_set_data axmap bit_nr (record { nr_bits = this_set; set_bits = 0 }) in
    let done = r.1.set_bits in
    let rest = set_nr_loop rounds r.0 (bit_nr + done) (nr_bits - done) (set_bits + done) in
    if done == this_set
    then if nr_bits - done == 0 then some (set_bits + done, r.0) else rest
    else some (set_bits + done, r.0)

unfoldable pub axmap_set_nr : Axmap → ℕ → ℕ → Option (ℕ × Axmap)
axmap_set_nr axmap bit_nr nr_bits = set_nr_loop (nr_bits + 1) axmap bit_nr nr_bits 0

unfoldable pub axmap_isset_fn : AxmapLevel → ℕ → ℕ → Bool
axmap_isset_fn al offset bit = not (bit_and (get_or al.words offset 0) (1 <<< bit) == 0)

unfoldable pub axmap_isset : Axmap → ℕ → Bool
axmap_isset axmap bit_nr =
    if leb bit_nr axmap.nr_bits
    then topdown_loop axmap_isset_fn axmap.nr_levels axmap.levels bit_nr
    else false

-- The words of a level from `offset` on, `left` of them: the first that is not full.
unfoldable pub scan_words : ℕ → AxmapLevel → ℕ → Option ℕ
scan_words zero al offset = none
scan_words (suc left) al offset =
    let rest = scan_words left al (offset + 1) in
    if not64 (get_or al.words offset 0) == 0 then rest else some offset

-- -1ULL
abbrev pub no_bit : ℕ
no_bit = 2 ^ 64 - 1

-- The search of one level: the index of a free digit that is at least `index`.
unfoldable pub search_level : AxmapLevel → ℕ → Option ℕ
search_level al index =
    let offset = index >>> unit_shift in
    let bit = bit_and index (blocks_per_unit - 1) in
    let temp = bit_and (not64 (get_or bit_masks bit 0)) (not64 (get_or al.words offset 0)) in
    if leb al.map_size offset
    then none
    else if temp == 0
    then elim (scan_words (al.map_size - (offset + 1)) al (offset + 1)) [
      | none ↦ none
      | some o ↦ some (u64 (o <<< unit_shift) + ffz (not64 (not64 (get_or al.words o 0))))
    ]
    else some (u64 (offset <<< unit_shift) + ffz (not64 temp))

-- The levels below `n`, the highest first.
unfoldable pub first_free_loop : ℕ → List AxmapLevel → ℕ → ℕ → Option ℕ
first_free_loop zero levels bit_nr index = some index
first_free_loop (suc i) levels bit_nr index =
    let shifted = u64 (index <<< unit_shift) in
    let base_index = bit_nr >>> (unit_shift * i) in
    elim (search_level (level_at levels i)
      (if ltb shifted base_index then base_index else shifted)) [
        | none ↦ none
        | some found ↦ first_free_loop i levels bit_nr found
      ]

unfoldable pub axmap_find_first_free : Axmap → ℕ → ℕ
axmap_find_first_free axmap bit_nr = elim (first_free_loop axmap.nr_levels axmap.levels bit_nr 0) [
  | none ↦ no_bit
  | some index ↦ if leb axmap.nr_bits index then no_bit else index
]

unfoldable pub axmap_next_free : Axmap → ℕ → ℕ
axmap_next_free axmap bit_nr =
    let next_bit = if bit_nr + 1 == axmap.nr_bits then 0 else bit_nr + 1 in
    let offset = next_bit >>> unit_shift in
    let bit = bit_and next_bit (blocks_per_unit - 1) in
    let word = get_or (level_at axmap.levels 0).words offset 0 in
    let temp = bit_and (not64 (get_or bit_masks bit 0)) (not64 word) in
    let found = u64 (offset <<< unit_shift) + ffz (not64 temp) in
    let ret =
      if temp == 0
      then axmap_find_first_free axmap next_bit
      else if leb axmap.nr_bits found
      then no_bit
      else found in
    if leb axmap.nr_bits bit_nr
    then no_bit
    else if (ret == no_bit) && not (next_bit == 0)
    then axmap_find_first_free axmap 0
    else ret
