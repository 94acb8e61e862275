-- ===== src/Lfsr/Draw.antt =====
-- lib/lfsr.c: `lfsr_next`, and the steps of its register.
use native.Mathlib.Decide.{dec_lt}
use raptor_mark.Common.{
  ℕ, suc, ◌+◌, ◌-◌, ◌*◌, ◌^◌, ◌≤◌, ◌<◌, ◌≡◌, refl, sym, ap, ◌∙◌, arith, ◌⊎◌, inl, inr, ◌↔◌, none,
  some, lt→ltb, ge→ltb, u64,
}
use raptor_mark.Common.Bits.{two_pow_pos}
use raptor_mark.Lfsr.{FioLfsr, steps, lfsr_loop, lfsr_next}
use raptor_mark.Lfsr.Step.{IsXormask, steps-lt, steps_injective, steps_all_ones}
use raptor_mark.Lfsr.Cycle.{IsRegister}
use raptor_mark.Lfsr.Next.{lfsr_loop-IsDrawn}

-- The steps of a register of `m + 1` digits, at most 63, whose mask has the highest of them: they stay in
-- the register, take different values to different values, and come to all ones, the state that fio
-- forbids, from there only.
pub steps_permute :
    (m mask n v w : ℕ)
    → IsXormask m mask
    → v < 2 ^ suc m
    → w < 2 ^ suc m
    → (steps mask (2 ^ m) n v < 2 ^ suc m)
      × ((steps mask (2 ^ m) n v ≡ steps mask (2 ^ m) n w) ↔ (v ≡ w))
      × ((steps mask (2 ^ m) n v ≡ 2 ^ suc m - 1) ↔ (v ≡ 2 ^ suc m - 1))
steps_permute m mask n v w r p q = (
  steps-lt m mask r n v p,
  (steps_injective m mask r n v w p q, ap (steps mask (2 ^ m) n)),
  (
    λ h.
        steps_injective m mask r n v _ p (omega (arith, two_pow_pos (suc m)))
          (h ∙ sym (steps_all_ones m mask r n)),
    λ e. ap (steps mask (2 ^ m) n) e ∙ steps_all_ones m mask r n,
  ),
)

-- What a call of `lfsr_next` gives, with enough rounds.
pub record IsNext (m : ℕ) (fl : FioLfsr) (v : ℕ) (g : FioLfsr) : Type 0 where
  pub in_range : v ≤ fl.max_val
  pub last : g.last_val ≡ v
  pub counted : g.num_vals ≡ fl.num_vals + 1
  pub same_max : g.max_val ≡ fl.max_val
  pub same_cycle : g.cached_cycle_length ≡ fl.cached_cycle_length
  pub register : IsRegister m g

next_end :
    (rounds : ℕ) (fl : FioLfsr)
    → fl.max_val < fl.num_vals
    → lfsr_next rounds fl ≡ some (none, record fl { num_vals = u64 (fl.num_vals + 1) })
unfolding lfsr_next
next_end rounds fl lt = rw (lt→ltb fl.max_val fl.num_vals lt) refl

next_value :
    (rounds : ℕ) (fl g : FioLfsr)
    → fl.num_vals ≤ fl.max_val
    → lfsr_loop rounds (record fl { num_vals = u64 (fl.num_vals + 1) }) ≡ some g
    → lfsr_next rounds fl ≡ some (some g.last_val, g)
unfolding lfsr_next
next_value rounds fl g le e = rw (ge→ltb fl.max_val fl.num_vals le) (rw e refl)

-- `lfsr_next` on a register of `m + 1` digits whose value is in range, its cycle running, and its count
-- of values below 2 ^ 64 - 1. If this count is above the largest value, there is no value. Else the loop
-- ends, after as many rounds as there are states of the register with their places in the cycle at
-- the latest, with a value in range; it is counted, and the register is as it was required to be.
pub lfsr_next_ends :
    (m rounds : ℕ) (fl : FioLfsr)
    → IsRegister m fl
    → fl.last_val ≤ fl.max_val
    → fl.num_vals < 2 ^ 64 - 1
    → 2 ^ suc m * suc fl.cached_cycle_length ≤ rounds
    → ((fl.max_val < fl.num_vals) × (g : FioLfsr) × (lfsr_next rounds fl ≡ some (none, g)))
      ⊎ ((fl.num_vals ≤ fl.max_val)
          × (v : ℕ) × (g : FioLfsr) × (lfsr_next rounds fl ≡ some (some v, g))
          × IsNext m fl v g)
lfsr_next_ends m rounds fl r in_range few enough = elim (dec_lt fl.max_val fl.num_vals) [
  | yes over ↦ inl (over, record fl { num_vals = u64 (fl.num_vals + 1) }, next_end rounds fl over)
  | no left ↦
      let counted : FioLfsr = record fl { num_vals = u64 (fl.num_vals + 1) } in
      let register : IsRegister m counted = record {
        mask = r.mask;
        cached = r.cached;
        fit = r.fit;
        not_ones = r.not_ones;
        cycle = r.cycle;
        running = r.running;
      } in
      let drawn = lfsr_loop-IsDrawn m rounds counted register in_range enough in
      inr (
        omega arith,
        drawn.0.last_val,
        drawn.0,
        next_value rounds fl drawn.0 (omega arith) drawn.1,
        record {
          in_range = omega (arith, drawn.2, drawn.3.same_max);
          last = refl;
          counted = drawn.3.same_nums ∙ omega arith;
          same_max = drawn.3.same_max;
          same_cycle = drawn.3.same_cycle;
          register = drawn.3.register;
        },
      )
]
