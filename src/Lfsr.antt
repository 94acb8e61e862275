-- ===== src/Lfsr.antt =====
-- lib/lfsr.c: the linear feedback shift registers that draw each block once. Values are 64-bit words,
-- `unsigned int` for the spin.
pub mod Step
pub mod Orbit
pub mod Cycle
pub mod Next
pub mod Draw
pub mod Init
mod Tests
use raptor_mark.Common.{
  ℕ, zero, suc, ◌+◌, ◌-◌, ◌*◌, ◌/◌, ◌%◌, ◌^◌, bit_and, bit_or, bit_xor, u64, sub64, ◌<<<◌, ◌>>>◌,
  Bool, true, false, ◌&&◌, Option, none, some, List, [], ◌∷◌, if◌then◌else◌, ltb, ◌==◌, get_or,
  take,
}

-- The positions of the taps, by the number of bits; a row is filled up with zeros to six.
abbrev pub lfsr_taps : List (List ℕ)
lfsr_taps =
    (0 ∷ [])
    ∷ (0 ∷ [])
    ∷ (0 ∷ [])
    ∷ (3 ∷ 2 ∷ [])
    ∷ (4 ∷ 3 ∷ [])
    ∷ (5 ∷ 3 ∷ [])
    ∷ (6 ∷ 5 ∷ [])
    ∷ (7 ∷ 6 ∷ [])
    ∷ (8 ∷ 6 ∷ 5 ∷ 4 ∷ [])
    ∷ (9 ∷ 5 ∷ [])
    ∷ (10 ∷ 7 ∷ [])
    ∷ (11 ∷ 9 ∷ [])
    ∷ (12 ∷ 6 ∷ 4 ∷ 1 ∷ [])
    ∷ (13 ∷ 4 ∷ 3 ∷ 1 ∷ [])
    ∷ (14 ∷ 5 ∷ 3 ∷ 1 ∷ [])
    ∷ (15 ∷ 14 ∷ [])
    ∷ (16 ∷ 15 ∷ 13 ∷ 4 ∷ [])
    ∷ (17 ∷ 14 ∷ [])
    ∷ (18 ∷ 11 ∷ [])
    ∷ (19 ∷ 6 ∷ 2 ∷ 1 ∷ [])
    ∷ (20 ∷ 17 ∷ [])
    ∷ (21 ∷ 19 ∷ [])
    ∷ (22 ∷ 21 ∷ [])
    ∷ (23 ∷ 18 ∷ [])
    ∷ (24 ∷ 23 ∷ 22 ∷ 17 ∷ [])
    ∷ (25 ∷ 22 ∷ [])
    ∷ (26 ∷ 6 ∷ 2 ∷ 1 ∷ [])
    ∷ (27 ∷ 5 ∷ 2 ∷ 1 ∷ [])
    ∷ (28 ∷ 25 ∷ [])
    ∷ (29 ∷ 27 ∷ [])
    ∷ (30 ∷ 6 ∷ 4 ∷ 1 ∷ [])
    ∷ (31 ∷ 28 ∷ [])
    ∷ (32 ∷ 31 ∷ 29 ∷ 1 ∷ [])
    ∷ (33 ∷ 20 ∷ [])
    ∷ (34 ∷ 27 ∷ 2 ∷ 1 ∷ [])
    ∷ (35 ∷ 33 ∷ [])
    ∷ (36 ∷ 25 ∷ [])
    ∷ (37 ∷ 5 ∷ 4 ∷ 3 ∷ 2 ∷ 1 ∷ [])
    ∷ (38 ∷ 6 ∷ 5 ∷ 1 ∷ [])
    ∷ (39 ∷ 35 ∷ [])
    ∷ (40 ∷ 38 ∷ 21 ∷ 19 ∷ [])
    ∷ (41 ∷ 38 ∷ [])
    ∷ (42 ∷ 41 ∷ 20 ∷ 19 ∷ [])
    ∷ (43 ∷ 42 ∷ 38 ∷ 37 ∷ [])
    ∷ (44 ∷ 43 ∷ 18 ∷ 17 ∷ [])
    ∷ (45 ∷ 44 ∷ 42 ∷ 41 ∷ [])
    ∷ (46 ∷ 45 ∷ 26 ∷ 25 ∷ [])
    ∷ (47 ∷ 42 ∷ [])
    ∷ (48 ∷ 47 ∷ 21 ∷ 20 ∷ [])
    ∷ (49 ∷ 40 ∷ [])
    ∷ (50 ∷ 49 ∷ 24 ∷ 23 ∷ [])
    ∷ (51 ∷ 50 ∷ 36 ∷ 35 ∷ [])
    ∷ (52 ∷ 49 ∷ [])
    ∷ (53 ∷ 52 ∷ 38 ∷ 37 ∷ [])
    ∷ (54 ∷ 53 ∷ 18 ∷ 17 ∷ [])
    ∷ (55 ∷ 31 ∷ [])
    ∷ (56 ∷ 55 ∷ 35 ∷ 34 ∷ [])
    ∷ (57 ∷ 50 ∷ [])
    ∷ (58 ∷ 39 ∷ [])
    ∷ (59 ∷ 58 ∷ 38 ∷ 37 ∷ [])
    ∷ (60 ∷ 59 ∷ [])
    ∷ (61 ∷ 60 ∷ 46 ∷ 45 ∷ [])
    ∷ (62 ∷ 61 ∷ 6 ∷ 5 ∷ [])
    ∷ (63 ∷ 62 ∷ [])
    ∷ []

-- `struct fio_lfsr`
pub record FioLfsr : Type 0 where
  pub xormask : ℕ
  pub last_val : ℕ
  pub cached_bit : ℕ
  pub max_val : ℕ
  pub num_vals : ℕ
  pub cycle_length : ℕ
  pub cached_cycle_length : ℕ
  pub spin : ℕ

-- `__LFSR_NEXT`
unfoldable pub step : ℕ → ℕ → ℕ → ℕ
step xormask cached_bit v =
    bit_xor (bit_or (v >>> 1) cached_bit) (bit_and (sub64 (bit_and v 1) 1) xormask)

unfoldable pub steps : ℕ → ℕ → ℕ → ℕ → ℕ
steps xormask cached_bit zero v = v
steps xormask cached_bit (suc n) v = steps xormask cached_bit n (step xormask cached_bit v)

-- `__lfsr_next`: the switch falls through from `spin` to 0, and does nothing above 15.
unfoldable pub spin_steps : ℕ → ℕ
spin_steps spin = if ltb 15 spin then 0 else spin + 1

-- One round of the loop of `lfsr_next`.
unfoldable pub lfsr_round : FioLfsr → FioLfsr
lfsr_round fl =
    if fl.cycle_length == 1
    then record fl {
      last_val = steps fl.xormask fl.cached_bit (spin_steps (fl.spin + 1)) fl.last_val;
      cycle_length = fl.cached_cycle_length;
    }
    else record fl {
      last_val = steps fl.xormask fl.cached_bit (spin_steps fl.spin) fl.last_val;
      cycle_length = fl.cycle_length - 1;
    }

-- The loop ends at the first value that is in range.
unfoldable pub lfsr_loop : ℕ → FioLfsr → Option FioLfsr
lfsr_loop zero fl = none
lfsr_loop (suc rounds) fl =
    let next = lfsr_round fl in
    let rest = lfsr_loop rounds next in if ltb next.max_val next.last_val then rest else some next

-- `lfsr_next`: no value where it returns 1. The whole is `none` where the rounds do not suffice.
unfoldable pub lfsr_next : ℕ → FioLfsr → Option (Option ℕ × FioLfsr)
lfsr_next rounds fl =
    let counted = record fl { num_vals = u64 (fl.num_vals + 1) } in
    if ltb fl.max_val fl.num_vals then some (none, counted) else elim (lfsr_loop rounds counted) [
      | none ↦ none
      | some next ↦ some (some next.last_val, next)
    ]

-- `lfsr_create_xormask`, on the taps that are left.
unfoldable pub xormask_of : List ℕ → ℕ → ℕ
xormask_of [] xormask = xormask
xormask_of (tap ∷ taps) xormask =
    let rest = xormask_of taps (bit_or xormask (u64 (1 <<< (tap - 1)))) in
    if tap == 0 then xormask else rest

unfoldable pub lfsr_create_xormask : List ℕ → ℕ
lfsr_create_xormask taps = xormask_of (take 6 taps) 0

-- The loop of `find_lfsr`, `left` rounds before 64 bits.
unfoldable pub find_from : ℕ → ℕ → ℕ → Option (List ℕ)
find_from zero i size = none
find_from (suc left) i size =
    let rest = find_from left (i + 1) size in
    if ltb size (2 ^ i) then some (get_or lfsr_taps i []) else rest

unfoldable pub find_lfsr : ℕ → Option (List ℕ)
find_lfsr size = find_from 61 3 size

-- The length of the cycle that a spin makes: the loop of `prepare_spin` from `i` on.
unfoldable pub cycle_from : ℕ → ℕ → ℕ → ℕ → ℕ → ℕ
cycle_from zero i spin x y = 0
cycle_from (suc left) i spin x y =
    let rest = cycle_from left (i + 1) spin x y in
    if u64 (y * i) % (spin + 1) == 0 then u64 (x * i + u64 (y * i) / (spin + 1)) else rest

unfoldable pub prepare_spin : FioLfsr → ℕ → Option FioLfsr
prepare_spin fl spin =
    let max = sub64 (u64 (fl.cached_bit <<< 1)) 1 in
    let cycle = cycle_from spin 1 spin (max / (spin + 1)) (max % (spin + 1)) in
    if ltb 15 spin
    then none
    else some
        (record fl { spin = spin; cached_cycle_length = cycle; cycle_length = u64 (cycle + 1) })

unfoldable pub lfsr_reset : FioLfsr → ℕ → Bool × FioLfsr
lfsr_reset fl seed =
    let bitmask = sub64 (u64 (fl.cached_bit <<< 1)) 1 in
    let val = bit_and seed bitmask in (val == bitmask, record fl { num_vals = 0; last_val = val })

-- `lfsr_init`, on a fresh register: nothing where it returns 1.
unfoldable pub lfsr_init : ℕ → ℕ → ℕ → Option FioLfsr
lfsr_init nums seed spin = elim (find_lfsr nums) [
  | none ↦ none
  | some taps ↦
      elim (prepare_spin
        (record {
          xormask = lfsr_create_xormask taps;
          last_val = 0;
          cached_bit = u64 (1 <<< (get_or taps 0 0 - 1));
          max_val = sub64 nums 1;
          num_vals = 0;
          cycle_length = 0;
          cached_cycle_length = 0;
          spin = 0;
        })
        spin) [
          | none ↦ none
          | some fl ↦ let reset = lfsr_reset fl seed in if reset.0 then none else some reset.1
        ]
]
