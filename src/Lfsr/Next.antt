-- ===== src/Lfsr/Next.antt =====
-- lib/lfsr.c: the loop of `lfsr_next`.
use native.Mathlib.Decide.{dec_lt}
use raptor_mark.Common.{
  ℕ, zero, suc, ◌*◌, ◌^◌, ◌≤◌, ◌<◌, ◌≡◌, refl, sym, ap, subst, ◌∙◌, arith, some, lt→ltb, ge→ltb,
}
use raptor_mark.Lfsr.{FioLfsr, lfsr_round, lfsr_loop}
use raptor_mark.Lfsr.Cycle.{
  IsRegister, round_state, state_round-IsState, register_returns, times_state,
}
use raptor_mark.Lfsr.Orbit.{times}

-- The loop has ended as soon as one of the rounds gives a value in range.
lfsr_loop-some :
    (rounds d : ℕ) (fl : FioLfsr) (Valid : FioLfsr → Type 0)
    → ((g : FioLfsr) → Valid g → Valid (lfsr_round g))
    → Valid fl
    → 0 < d
    → d ≤ rounds
    → (times lfsr_round d fl).last_val ≤ (times lfsr_round d fl).max_val
    → (g : FioLfsr) × (lfsr_loop rounds fl ≡ some g) × (g.last_val ≤ g.max_val) × Valid g
unfolding lfsr_loop times
lfsr_loop-some zero d fl Valid keep v pos enough h = absurd (omega arith)
lfsr_loop-some (suc rounds) zero fl Valid keep v pos enough h = absurd (omega arith)
lfsr_loop-some (suc rounds) (suc zero) fl Valid keep v pos enough h =
    rw (ge→ltb (lfsr_round fl).max_val (lfsr_round fl).last_val h)
      (lfsr_round fl, refl, h, keep fl v)
lfsr_loop-some (suc rounds) (suc (suc d)) fl Valid keep v pos enough h =
    elim (dec_lt (lfsr_round fl).max_val (lfsr_round fl).last_val) [
      | no in_range ↦
          rw (ge→ltb (lfsr_round fl).max_val (lfsr_round fl).last_val (omega arith))
            (lfsr_round fl, refl, omega arith, keep fl v)
      | yes above ↦ rw (lt→ltb (lfsr_round fl).max_val (lfsr_round fl).last_val above) (
          lfsr_loop-some rounds (suc d) (lfsr_round fl) Valid keep (keep fl v) (omega arith)
            (omega arith) h)
    ]

-- The register of a draw that began at `fl`.
pub record IsDrawn (m : ℕ) (fl g : FioLfsr) : Type 0 where
  pub register : IsRegister m g
  pub same_max : g.max_val ≡ fl.max_val
  pub same_nums : g.num_vals ≡ fl.num_vals
  pub same_cycle : g.cached_cycle_length ≡ fl.cached_cycle_length

lfsr_round-IsDrawn : (m : ℕ) (fl g : FioLfsr) → IsDrawn m fl g → IsDrawn m fl (lfsr_round g)
lfsr_round-IsDrawn m fl g v =
    let r = v.register in
    let s : ℕ × ℕ = (g.last_val, g.cycle_length) in
    let after = state_round-IsState m g r s (r.fit, r.not_ones, r.cycle, r.running) in
    subst (IsDrawn m fl) (sym (round_state g s)) (record {
      register = record {
        mask = r.mask;
        cached = r.cached;
        fit = after.0;
        not_ones = after.1;
        cycle = after.2;
        running = after.3;
      };
      same_max = v.same_max;
      same_nums = v.same_nums;
      same_cycle = v.same_cycle;
    })

-- From a value in range the loop comes to a value in range: at the latest to the one it began with.
pub lfsr_loop-IsDrawn :
    (m rounds : ℕ) (fl : FioLfsr)
    → IsRegister m fl
    → fl.last_val ≤ fl.max_val
    → 2 ^ suc m * suc fl.cached_cycle_length ≤ rounds
    → (g : FioLfsr) × (lfsr_loop rounds fl ≡ some g) × (g.last_val ≤ g.max_val) × IsDrawn m fl g
lfsr_loop-IsDrawn m rounds fl r in_range enough =
    let s : ℕ × ℕ = (fl.last_val, fl.cycle_length) in
    let back = register_returns m fl r in
    let e = times_state m fl r back.0 s in
    let same : fl.last_val ≡ (times lfsr_round back.0 fl).last_val =
      sym back.3 ∙ ap (λ (g : FioLfsr). g.last_val) (sym e) in
    let limit : fl.max_val ≡ (times lfsr_round back.0 fl).max_val =
      ap (λ (g : FioLfsr). g.max_val) (sym e) in
    lfsr_loop-some rounds back.0 fl (IsDrawn m fl) (lfsr_round-IsDrawn m fl)
      (record { register = r; same_max = refl; same_nums = refl; same_cycle = refl }) back.1
      (omega (arith, back.2)) (omega (arith, same, limit, in_range))
