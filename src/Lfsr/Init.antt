-- ===== src/Lfsr/Init.antt =====
-- lib/lfsr.c: `lfsr_init`.
use native.Mathlib.Decide.{dec_lt}
use native.Mathlib.Nat.{pow-le-pow_right, mod-lt}
use raptor_mark.Common.{
  and_true, or_false, ℕ, zero, suc, ◌+◌, ◌-◌, ◌*◌, ◌/◌, ◌%◌, ◌^◌, ◌≤◌, ◌<◌, ◌≡◌, ◌≢◌, refl, sym, ap,
  subst, ◌∙◌, arith, inl, inr, Bool, true, false, ◌&&◌, ◌||◌, none, some, lt→ltb, ge→ltb, u64, List,
  [], get_or, all_entries, entry_of_all, ltb, ◌==◌, some_injective, none_ne, ==→eq, ltb→lt,
  Option-cases, Bool-cases, bit_and, sub64, if◌then◌else◌, ◌<<<◌, ==→ne,
}
use raptor_mark.Common.Bits.{bit, two_pow-suc, two_pow_pos, bit_and-mask}
use raptor_mark.Lfsr.{
  FioLfsr, lfsr_taps, find_from, find_lfsr, lfsr_create_xormask, xormask_of, cycle_from,
  prepare_spin, lfsr_reset, lfsr_init,
}
use raptor_mark.Lfsr.Step.{IsXormask}

-- The first tap of a row is its number of bits, and the mask has the digit of that tap.
good_row : ℕ → Bool
good_row i =
    let mask = lfsr_create_xormask (get_or lfsr_taps i []) in
    ltb i 3
    || ((get_or (get_or lfsr_taps i []) 0 0 == i) && (ltb mask (2 ^ i) && (bit mask (i - 1) == 1)))

good_rows : all_entries good_row 64 ≡ true
unfolding good_row all_entries lfsr_create_xormask xormask_of
good_rows = refl

module _ (i : ℕ) (ge : 3 ≤ i) (lt : i < 64) where
  abbrev row : List ℕ
  row = get_or lfsr_taps i []

  row_good :
      (get_or row 0 0 ≡ i)
      × (lfsr_create_xormask row < 2 ^ i)
      × (bit (lfsr_create_xormask row) (i - 1) ≡ 1)
  unfolding good_row
  row_good =
      let all = or_false (ltb i 3) _ (ge→ltb i 3 ge) (entry_of_all good_row 64 i lt good_rows) in
      let first = and_true (get_or (get_or lfsr_taps i []) 0 0 == i) _ all in
      let second = and_true (ltb (lfsr_create_xormask (get_or lfsr_taps i [])) (2 ^ i)) _ first.1 in
      (==→eq _ i first.0, ltb→lt _ (2 ^ i) second.0, ==→eq _ 1 second.1)

-- The row that is found is for the least number of bits, three or more, that counts to `size`.
find_from-some :
    (left i size : ℕ) (taps : List ℕ)
    → find_from left i size ≡ some taps
    → (k : ℕ) × (i ≤ k) × (k < i + left) × (size < 2 ^ k) × (taps ≡ get_or lfsr_taps k [])
unfolding find_from
find_from-some zero i size taps h = absurd (none_ne h)
find_from-some (suc left) i size taps h = elim (dec_lt size (2 ^ i)) [
  | yes lt ↦ (
    i,
    omega arith,
    omega arith,
    lt,
    sym (some_injective (sym (rw (lt→ltb size (2 ^ i) lt) refl) ∙ h)),
  )
  | no ge ↦
      let later =
        find_from-some left (i + 1) size taps
          (sym (rw (ge→ltb size (2 ^ i) (omega arith)) refl) ∙ h) in
      (later.0, omega (arith, later.1), omega (arith, later.2), later.3, later.4)
]

-- A register that is ready to draw the numbers below `nums`.
pub record IsReady (m nums : ℕ) (fl : FioLfsr) : Type 0 where
  pub mask : IsXormask m fl.xormask
  pub cached : fl.cached_bit ≡ 2 ^ m
  pub enough : nums < 2 ^ suc m
  pub fit : fl.last_val < 2 ^ suc m
  pub not_ones : fl.last_val ≢ 2 ^ suc m - 1
  pub max_val : fl.max_val ≡ nums - 1
  pub num_vals : fl.num_vals ≡ 0
  pub spin : fl.spin ≤ 15
  pub cycle : fl.cycle_length ≡ u64 (fl.cached_cycle_length + 1)

-- The bits of a register of `m + 1` digits.
bitmask_eq : (m : ℕ) → m < 63 → sub64 (u64 (2 ^ m * 2 ^ 1)) 1 ≡ 2 ^ suc m - 1
bitmask_eq m lt =
    let fits : 2 ^ suc m ≤ 2 ^ 63 =
      pow-le-pow_right {n = 2} (omega arith) {i = suc m} {j = 63} (omega arith) in
    omega (arith, two_pow-suc m, two_pow_pos m, fits)

-- The register before the seed is put into it.
unseeded : List ℕ → ℕ → ℕ → FioLfsr
unseeded taps nums spin =
    let bit_of_top = u64 (1 <<< (get_or taps 0 0 - 1)) in
    let max = sub64 (u64 (bit_of_top <<< 1)) 1 in
    let cycle = cycle_from spin 1 spin (max / (spin + 1)) (max % (spin + 1)) in
    record {
      xormask = lfsr_create_xormask taps;
      last_val = 0;
      cached_bit = bit_of_top;
      max_val = sub64 nums 1;
      num_vals = 0;
      cycle_length = u64 (cycle + 1);
      cached_cycle_length = cycle;
      spin = spin;
    }

module _ (nums seed spin : ℕ) where
  init_none : find_lfsr nums ≡ none → lfsr_init nums seed spin ≡ none
  unfolding lfsr_init
  init_none e = rw (lfsr_init, e) refl

  init_spin :
      (taps : List ℕ) → find_lfsr nums ≡ some taps → 15 < spin → lfsr_init nums seed spin ≡ none
  unfolding lfsr_init prepare_spin
  init_spin taps e lt = rw (lfsr_init, e) (rw (lt→ltb 15 spin lt) refl)

  init_seed :
      (taps : List ℕ)
      → find_lfsr nums ≡ some taps
      → spin ≤ 15
      → lfsr_init nums seed spin ≡ (
          if (lfsr_reset (unseeded taps nums spin) seed).0
          then none
          else some (lfsr_reset (unseeded taps nums spin) seed).1)
  unfolding lfsr_init prepare_spin unseeded
  init_seed taps e le = rw (lfsr_init, e) (rw (ge→ltb 15 spin le) refl)

  init_cases :
      (fl : FioLfsr)
      → lfsr_init nums seed spin ≡ some fl
      → (taps : List ℕ) × (find_lfsr nums ≡ some taps)
        × (spin ≤ 15)
        × ((lfsr_reset (unseeded taps nums spin) seed).0 ≡ false)
        × ((lfsr_reset (unseeded taps nums spin) seed).1 ≡ fl)
  init_cases fl h = elim (Option-cases (find_lfsr nums)) [
    | inl e ↦ absurd (none_ne {a = fl} (sym (init_none e) ∙ h))
    | inr (taps, e) ↦ elim (dec_lt 15 spin) [
      | yes over ↦ absurd (none_ne {a = fl} (sym (init_spin taps e over) ∙ h))
      | no le ↦
          let reset = lfsr_reset (unseeded taps nums spin) seed in
          let h' : (if reset.0 then none else some reset.1) ≡ some fl =
            sym (init_seed taps e (omega arith)) ∙ h in
          elim (Bool-cases reset.0) [
            | inl ones ↦ absurd (
                none_ne {a = fl}
                  (subst (λ (b : Bool). (if b then none else some reset.1) ≡ some fl) ones h'))
            | inr fine ↦ (
              taps,
              e,
              omega arith,
              fine,
              some_injective
                  (subst (λ (b : Bool). (if b then none else some reset.1) ≡ some fl) fine h'),
            )
          ]
    ]
  ]

-- The register that `lfsr_reset` makes of an unseeded one.
seeded :
    (m nums seed spin : ℕ) (taps : List ℕ)
    → m < 63
    → 0 < nums
    → nums < 2 ^ 64
    → nums < 2 ^ suc m
    → spin ≤ 15
    → IsXormask m (lfsr_create_xormask taps)
    → get_or taps 0 0 ≡ suc m
    → (lfsr_reset (unseeded taps nums spin) seed).0 ≡ false
    → IsReady m nums (lfsr_reset (unseeded taps nums spin) seed).1
      × ((lfsr_reset (unseeded taps nums spin) seed).1.last_val ≡ seed % 2 ^ suc m)
unfolding lfsr_reset unseeded
seeded m nums seed spin taps lt pos fits enough le mask first fine = (
  record {
    mask = mask;
    cached = top;
    enough = enough;
    fit = omega (arith, val, mod-lt seed (two_pow_pos (suc m)));
    not_ones = λ e. ==→ne _ _ fine (e ∙ sym bits);
    max_val = omega (arith, pos, fits);
    num_vals = refl;
    spin = le;
    cycle = refl;
  },
  val,
)
  where
    small : 2 ^ m < 2 ^ 63
    small = omega (
      arith,
      two_pow-suc m,
      two_pow_pos m,
      pow-le-pow_right {n = 2} (omega arith) {i = suc m} {j = 63} (omega arith),
    )

    top : u64 (1 <<< (get_or taps 0 0 - 1)) ≡ 2 ^ m
    top =
        ap (λ (t : ℕ). u64 (1 <<< (t - 1))) first
        ∙ ap (λ (t : ℕ). u64 (1 * 2 ^ t)) {x = suc m - 1} {y = m} (omega arith)
        ∙ omega (arith, small)

    bits : sub64 (u64 (u64 (1 <<< (get_or taps 0 0 - 1)) <<< 1)) 1 ≡ 2 ^ suc m - 1
    bits = ap (λ (t : ℕ). sub64 (u64 (t * 2 ^ 1)) 1) top ∙ bitmask_eq m lt

    val : bit_and seed (sub64 (u64 (u64 (1 <<< (get_or taps 0 0 - 1)) <<< 1)) 1) ≡ seed % 2 ^ suc m
    val = ap (bit_and seed) bits ∙ bit_and-mask (suc m) seed

-- `lfsr_init`, asked for at least one number and less than 2 ^ 64, gives, when it does not fail, a register
-- with more states than numbers, whose mask has its highest digit, and whose value is the seed, cut to the
-- register and not all ones.
pub lfsr_init-IsReady :
    (nums seed spin : ℕ) (fl : FioLfsr)
    → 0 < nums
    → nums < 2 ^ 64
    → lfsr_init nums seed spin ≡ some fl
    → (m : ℕ) × IsReady m nums fl × (fl.last_val ≡ seed % 2 ^ suc m)
unfolding find_lfsr
lfsr_init-IsReady nums seed spin fl pos fits h =
    let c = init_cases nums seed spin fl h in
    let at = find_from-some 61 3 nums c.0 c.1 in
    let i = at.0 in
    let good = row_good i at.1 at.2 in
    let m = i - 1 in
    let i_suc : i ≡ suc m = omega (arith, at.1) in
    let mask : IsXormask m (lfsr_create_xormask c.0) =
      subst (λ (t : List ℕ). IsXormask m (lfsr_create_xormask t)) (sym at.4)
        (record {
          m-lt = omega (arith, at.2);
          fit = subst (λ (k : ℕ). lfsr_create_xormask (row i at.1 at.2) < 2 ^ k) i_suc good.1;
          highest = good.2;
        }) in
    let s =
      seeded m nums seed spin c.0 (omega (arith, at.2)) pos fits
        (subst (λ (k : ℕ). nums < 2 ^ k) i_suc at.3) c.2 mask
        (ap (λ (t : List ℕ). get_or t 0 0) at.4 ∙ good.0 ∙ i_suc) c.3 in
    (m, subst (IsReady m nums) c.4 s.0, ap (λ (g : FioLfsr). g.last_val) (sym c.4) ∙ s.1)
