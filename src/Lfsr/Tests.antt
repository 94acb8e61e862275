-- ===== src/Lfsr/Tests.antt =====
-- lib/lfsr.c: runs, and the theorems at a register of three digits.
use raptor_mark.Common.{
  ℕ, zero, suc, ◌-◌, ◌%◌, ◌^◌, ◌≤◌, ◌<◌, ◌≡◌, refl, ◌⊎◌, inl, ◌↔◌, arith, none, some, [], ◌∷◌, List,
}
use raptor_mark.Lfsr.{
  FioLfsr, step, steps, spin_steps, lfsr_round, lfsr_loop, lfsr_next, lfsr_init, find_lfsr,
  find_from, prepare_spin, lfsr_reset, lfsr_create_xormask, xormask_of, cycle_from,
}
use raptor_mark.Lfsr.Step.{IsXormask}
use raptor_mark.Lfsr.Cycle.{IsRegister}
use raptor_mark.Lfsr.Draw.{steps_permute, IsNext, lfsr_next_ends}
use raptor_mark.Lfsr.Init.{IsReady, lfsr_init-IsReady}

-- A register for five numbers, as `lfsr_init` makes it, and after its first value.
abbrev five : FioLfsr
five = record {
  xormask = 6;
  last_val = 3;
  cached_bit = 4;
  max_val = 4;
  num_vals = 0;
  cycle_length = 1;
  cached_cycle_length = 0;
  spin = 0;
}

abbrev five_running : FioLfsr
five_running = record five { num_vals = 1; cycle_length = 0; last_val = 1 }

five_made : lfsr_init 5 3 0 ≡ some five
unfolding lfsr_init find_lfsr find_from prepare_spin lfsr_reset lfsr_create_xormask xormask_of
    cycle_from
five_made = refl

first_value : lfsr_next 8 five ≡ some (some 1, five_running)
unfolding lfsr_next lfsr_loop lfsr_round steps step spin_steps
first_value = refl

-- The values that a register draws.
drawn : ℕ → FioLfsr → List ℕ
drawn zero fl = []
drawn (suc n) fl = elim (lfsr_next 8 fl) [
  | none ↦ []
  | some (none, g) ↦ []
  | some (some v, g) ↦ v ∷ drawn n g
]

drawn_values : drawn 7 five ≡ 1 ∷ 4 ∷ 0 ∷ 2 ∷ 3 ∷ []
unfolding drawn lfsr_next lfsr_loop lfsr_round steps step spin_steps
drawn_values = refl

five-IsXormask : IsXormask 2 6
five-IsXormask = record { m-lt = omega arith; fit = omega arith; highest = refl }

five_running-IsRegister : IsRegister 2 five_running
five_running-IsRegister = record {
  mask = five-IsXormask;
  cached = refl;
  fit = omega arith;
  not_ones = omega arith;
  cycle = omega arith;
  running = inl refl;
}

steps_permute_example :
    (steps 6 (2 ^ 2) 3 5 < 2 ^ 3)
    × ((steps 6 (2 ^ 2) 3 5 ≡ steps 6 (2 ^ 2) 3 1) ↔ ◌≡◌ {A = ℕ} 5 1)
    × ((steps 6 (2 ^ 2) 3 5 ≡ 2 ^ 3 - 1) ↔ ◌≡◌ {A = ℕ} 5 (2 ^ 3 - 1))
steps_permute_example = steps_permute 2 6 3 5 1 five-IsXormask (omega arith) (omega arith)

lfsr_next_ends_example :
    ((4 < 1) × (g : FioLfsr) × (lfsr_next 8 five_running ≡ some (none, g)))
    ⊎ ((1 ≤ 4)
        × (v : ℕ) × (g : FioLfsr) × (lfsr_next 8 five_running ≡ some (some v, g))
        × IsNext 2 five_running v g)
lfsr_next_ends_example =
    lfsr_next_ends 2 8 five_running five_running-IsRegister (omega arith) (omega arith)
      (omega arith)

lfsr_init-IsReady_example : (m : ℕ) × IsReady m 5 five × (3 ≡ 3 % 2 ^ suc m)
lfsr_init-IsReady_example = lfsr_init-IsReady 5 3 0 five (omega arith) (omega arith) five_made
