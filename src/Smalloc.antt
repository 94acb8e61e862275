-- ===== src/Smalloc.antt =====
-- smalloc.c: the allocator of shared memory. A pool has words of 32 digits, one digit for a block of 32
-- bytes. Addresses are numbers, and the memory of a pool is a function from the addresses of the
-- fields that the allocator writes to their values. `none` stands for a failed assertion and for a
-- shift that C leaves undefined.
pub mod Zero
pub mod Blocks
pub mod Rounds
pub mod Compare
pub mod Search
pub mod WellFormed
pub mod Alloc
pub mod OneBlock
pub mod Release
pub mod RoundTrip
mod Tests
use raptor_mark.Common.{
  ℕ, zero, suc, ◌+◌, ◌-◌, ◌*◌, ◌/◌, ◌%◌, ◌^◌, bit_and, bit_or, u32, sub32, ◌<<<◌, ◌>>>◌, Bool, true,
  false, not, ◌&&◌, ◌||◌, Option, none, some, List, [], ◌∷◌, if◌then◌else◌, ltb, leb, ◌==◌, get_or,
  set,
}
use raptor_mark.Ffz.{ffz}

-- SMALLOC_BPB, SMALLOC_BPI and SMALLOC_BPL
abbrev pub bytes_per_block : ℕ
bytes_per_block = 32

abbrev pub blocks_per_word : ℕ
blocks_per_word = 32

abbrev pub bytes_per_word : ℕ
bytes_per_word = 1024

abbrev pub pre_red : ℕ
pre_red = 0xdeadbeef

abbrev pub post_red : ℕ
post_red = 0x5aa55aa5

-- `sizeof(struct block_hdr)`
abbrev pub hdr_size : ℕ
hdr_size = 16

-- -1U
abbrev pub all_busy : ℕ
all_busy = 2 ^ 32 - 1

-- `struct pool`, whose map begins at `map`; `nr_blocks` counts words of the bitmap.
pub record Pool : Type 0 where
  pub map : ℕ
  pub bitmap : List ℕ
  pub free_blocks : ℕ
  pub nr_blocks : ℕ
  pub next_non_full : ℕ
  pub memory : ℕ → ℕ

unfoldable pub ptr_valid : Pool → ℕ → Bool
ptr_valid pool ptr = leb pool.map ptr && ltb ptr (pool.map + u32 (pool.nr_blocks * bytes_per_word))

unfoldable pub size_to_blocks : ℕ → ℕ
size_to_blocks size = (size + bytes_per_block - 1) / bytes_per_block

-- What `mask_cmp`, `mask_clear` and `mask_set` give for a word and a mask: whether to go on, and the word.
unfoldable pub mask_cmp : ℕ → ℕ → Option (Bool × ℕ)
mask_cmp word mask = some (bit_and word mask == 0, word)

unfoldable pub mask_clear : ℕ → ℕ → Option (Bool × ℕ)
mask_clear word mask =
    if bit_and word mask == mask then some (true, bit_and word (all_busy - mask)) else none

unfoldable pub mask_set : ℕ → ℕ → Option (Bool × ℕ)
mask_set word mask = if bit_and word mask == 0 then some (true, bit_or word mask) else none

-- How many blocks of one word a round of `blocks_iter` takes; the sum is an `unsigned int`.
unfoldable pub this_round : ℕ → ℕ → ℕ
this_round idx nr_blocks =
    let this = u32 nr_blocks in
    if ltb blocks_per_word (u32 (this + idx)) then sub32 blocks_per_word idx else this

unfoldable pub round_mask : ℕ → ℕ → Option ℕ
round_mask this idx =
    if this == blocks_per_word
    then some all_busy
    else if ltb this 32 && ltb idx 32
    then some (u32 ((2 ^ this - 1) <<< idx))
    else none

-- `blocks_iter` takes one block a round at least.
unfoldable pub blocks_iter :
    (ℕ → ℕ → Option (Bool × ℕ)) → ℕ → ℕ → List ℕ → ℕ → ℕ → ℕ → Option (Bool × List ℕ)
blocks_iter func zero words bitmap pool_idx idx nr_blocks = some (true, bitmap)
blocks_iter func (suc rounds) words bitmap pool_idx idx nr_blocks =
    let this = this_round idx nr_blocks in
    if nr_blocks == 0
    then some (true, bitmap)
    else if leb words pool_idx
    then some (false, bitmap)
    else elim (round_mask this idx) [
      | none ↦ none
      | some mask ↦ elim (func (get_or bitmap pool_idx 0) mask) [
        | none ↦ none
        | some (go_on, word) ↦
            let rest =
              blocks_iter func rounds words (set bitmap pool_idx word) (pool_idx + 1) 0
                (nr_blocks - this) in
            if go_on then rest else some (false, set bitmap pool_idx word)
      ]
    ]

-- `int word >>= start` and its conversion to `unsigned long`: the sign fills the digits above.
unfoldable pub shift_right : ℕ → ℕ → ℕ
shift_right word start =
    if ltb word (2 ^ 31)
    then word >>> start
    else ((word + (2 ^ 64 - 2 ^ 32)) >>> start) + (2 ^ 64 - 2 ^ (64 - start))

unfoldable pub find_next_zero : ℕ → ℕ → Option ℕ
find_next_zero word start =
    if word == all_busy then none else some (u32 (ffz (shift_right word start) + start))

-- The first word from `i` on, `left` of them, that is not full.
unfoldable pub non_full_from : ℕ → List ℕ → ℕ → Option ℕ
non_full_from zero bitmap i = none
non_full_from (suc left) bitmap i =
    let others = non_full_from left bitmap (i + 1) in
    if get_or bitmap i 0 == all_busy then others else some i

-- `find_best_index`; it would read behind the bitmap if all words were full.
unfoldable pub find_best_index : Pool → Option ℕ
find_best_index pool =
    let behind =
      non_full_from (pool.nr_blocks - pool.next_non_full) pool.bitmap pool.next_non_full in
    if pool.free_blocks == 0
    then none
    else elim behind [ some i ↦ some i | none ↦ non_full_from pool.nr_blocks pool.bitmap 0 ]

-- How the loop of `__smalloc_pool` ends: the offset of the blocks and the bitmap, or nothing found.
pub data Outcome : Type 0 where
  out_of_rounds undefined exhausted : Outcome
  found : ℕ → ℕ → List ℕ → Outcome

unfoldable pub search_loop : ℕ → ℕ → List ℕ → ℕ → ℕ → ℕ → Outcome
search_loop zero words bitmap nr_blocks i last_idx = out_of_rounds
search_loop (suc rounds) words bitmap nr_blocks i last_idx =
    let next_word = search_loop rounds words bitmap nr_blocks (i + 1) 0 in
    if leb words i
    then exhausted
    else if get_or bitmap i 0 == all_busy
    then next_word
    else elim (find_next_zero (get_or bitmap i 0) last_idx) [
      | none ↦ undefined
      | some idx ↦ elim (blocks_iter mask_cmp nr_blocks words bitmap i idx nr_blocks) [
        | none ↦ undefined
        | some (true, same) ↦ elim (blocks_iter mask_set nr_blocks words bitmap i idx nr_blocks) [
          | none ↦ undefined
          | some (done, bitmap') ↦ found i idx bitmap'
        ]
        | some (false, same) ↦
            let next = u32 (idx + nr_blocks) in
            let later = search_loop rounds words bitmap nr_blocks (i + next / blocks_per_word) 0 in
            let same_word = search_loop rounds words bitmap nr_blocks i next in
            if ltb next blocks_per_word then same_word else later
      ]
    ]

-- `__smalloc_pool`: the address, 0 for NULL, and the pool.
unfoldable pub smalloc_blocks : Pool → ℕ → Option (ℕ × Pool)
smalloc_blocks pool size =
    let nr_blocks = size_to_blocks size in
    if ltb pool.free_blocks nr_blocks then some (0, pool) else elim (find_best_index pool) [
      | none ↦ none
      | some best ↦
          elim (search_loop (pool.nr_blocks * blocks_per_word + 1) pool.nr_blocks pool.bitmap
            nr_blocks best 0) [
              | out_of_rounds ↦ none
              | undefined ↦ none
              | exhausted ↦ some (0, record pool { next_non_full = best })
              | found i idx bitmap ↦ some (
                pool.map + u32 (i * bytes_per_word + idx * bytes_per_block),
                record pool {
                  next_non_full = best;
                  bitmap = bitmap;
                  free_blocks = pool.free_blocks - nr_blocks;
                },
              )
            ]
    ]

unfoldable pub size_to_alloc_size : ℕ → ℕ
size_to_alloc_size size = (size + hdr_size + 4 + 3) / 4 * 4

-- The address of the word behind the block, rounded up to a multiple of four.
unfoldable pub postred_ptr : ℕ → ℕ → ℕ
postred_ptr hdr size = (hdr + size - 4 + 3) / 4 * 4

unfoldable pub write : (ℕ → ℕ) → ℕ → ℕ → ℕ → ℕ
write memory address value a = if a == address then value else memory a

-- `memset(ptr, 0, size)`
unfoldable pub clear : (ℕ → ℕ) → ℕ → ℕ → ℕ → ℕ
clear memory ptr size a = if leb ptr a && ltb a (ptr + size) then 0 else memory a

-- The header has the size at its beginning and the red word behind it.
unfoldable pub fill_redzone : (ℕ → ℕ) → ℕ → ℕ → ℕ → ℕ
fill_redzone memory hdr size =
    write (write (write memory hdr size) (hdr + 8) pre_red) (postred_ptr hdr size) post_red

unfoldable pub smalloc_pool : Pool → ℕ → Option (ℕ × Pool)
smalloc_pool pool size =
    let alloc_size = size_to_alloc_size size in
    elim (smalloc_blocks pool alloc_size) [
      | none ↦ none
      | some (ptr, pool') ↦
          if ptr == 0
          then some (0, pool')
          else some (
            ptr + hdr_size,
            record pool' {
              memory = clear (fill_redzone pool'.memory ptr alloc_size) (ptr + hdr_size) size;
            },
          )
    ]

unfoldable pub redzones_intact : (ℕ → ℕ) → ℕ → Bool
redzones_intact memory hdr =
    (memory (hdr + 8) == pre_red) && (memory (postred_ptr hdr (memory hdr)) == post_red)

unfoldable pub sfree_pool : Pool → ℕ → Option Pool
sfree_pool pool ptr =
    let hdr = ptr - hdr_size in
    let offset = hdr - pool.map in
    let i = offset / bytes_per_word in
    let idx = offset % bytes_per_word / bytes_per_block in
    let nr_blocks = size_to_blocks (pool.memory hdr) in
    if ptr == 0
    then some pool
    else if ptr_valid pool hdr && redzones_intact pool.memory hdr
    then elim (blocks_iter mask_clear nr_blocks pool.nr_blocks pool.bitmap i idx nr_blocks) [
      | none ↦ none
      | some (done, bitmap) ↦ some (record pool {
        bitmap = bitmap;
        next_non_full = if ltb i pool.next_non_full then i else pool.next_non_full;
        free_blocks = pool.free_blocks + nr_blocks;
      })
    ]
    else none
