-- ===== src/Lfsr/Cycle.antt =====
-- lib/lfsr.c: the rounds of the loop of `lfsr_next`, and the cycle they make.
use native.Mathlib.Decide.{ℕ_discrete}
use native.Mathlib.Nat.{mul-le-mul_right, add-mul-div_right, div-eq_of_lt}
use raptor_mark.Common.{
  ℕ, zero, suc, ◌+◌, ◌-◌, ◌*◌, ◌/◌, ◌^◌, ◌≤◌, ◌<◌, ◌≡◌, ◌≢◌, refl, sym, ap, ◌∙◌, arith, ◌⊎◌, ◌==◌,
  eq→==, ne→==, if◌then◌else◌,
}
use raptor_mark.Lfsr.{FioLfsr, steps, spin_steps, lfsr_round}
use raptor_mark.Lfsr.Step.{IsXormask, steps-lt, steps_injective, steps_all_ones}
use raptor_mark.Lfsr.Orbit.{times, returns, times-Valid}

-- The part of the register that a round changes.
unfoldable pub state_round : FioLfsr → ℕ × ℕ → ℕ × ℕ
state_round fl (v, c) =
    if c == 1
    then (steps fl.xormask fl.cached_bit (spin_steps (fl.spin + 1)) v, fl.cached_cycle_length)
    else (steps fl.xormask fl.cached_bit (spin_steps fl.spin) v, c - 1)

abbrev pub at_state : FioLfsr → ℕ × ℕ → FioLfsr
at_state fl s = record fl { last_val = s.0; cycle_length = s.1 }

pub round_state :
    (fl : FioLfsr) (s : ℕ × ℕ) → lfsr_round (at_state fl s) ≡ at_state fl (state_round fl s)
unfolding lfsr_round state_round
round_state fl (v, c) = elim (ℕ_discrete c 1) [
  | yes e ↦ rw (eq→== c 1 e) refl
  | no ne ↦ rw (ne→== c 1 ne) refl
]

-- A register of `m + 1` digits, whose spin counts its cycle down.
pub record IsRegister (m : ℕ) (fl : FioLfsr) : Type 0 where
  pub mask : IsXormask m fl.xormask
  pub cached : fl.cached_bit ≡ 2 ^ m
  pub fit : fl.last_val < 2 ^ suc m
  pub not_ones : fl.last_val ≢ 2 ^ suc m - 1
  pub cycle : fl.cycle_length ≤ fl.cached_cycle_length
  pub running : (fl.cached_cycle_length ≡ 0) ⊎ (0 < fl.cycle_length)

module _ (m : ℕ) (fl : FioLfsr) (r : IsRegister m fl) where
  abbrev pub IsState : ℕ × ℕ → Type 0
  IsState s =
      (s.0 < 2 ^ suc m)
      × (s.0 ≢ 2 ^ suc m - 1)
      × (s.1 ≤ fl.cached_cycle_length)
      × ((fl.cached_cycle_length ≡ 0) ⊎ (0 < s.1))

  abbrev go_on : ℕ → ℕ → ℕ
  go_on n v = steps fl.xormask fl.cached_bit n v

  go_on_eq : (n v : ℕ) → go_on n v ≡ steps fl.xormask (2 ^ m) n v
  go_on_eq n v = ap (λ (b : ℕ). steps fl.xormask b n v) r.cached

  go_on-lt : (n v : ℕ) → v < 2 ^ suc m → go_on n v < 2 ^ suc m
  go_on-lt n v lt = omega (arith, go_on_eq n v, steps-lt m fl.xormask r.mask n v lt)

  go_on_injective : (n v w : ℕ) → v < 2 ^ suc m → w < 2 ^ suc m → go_on n v ≡ go_on n w → v ≡ w
  go_on_injective n v w p q h =
      steps_injective m fl.xormask r.mask n v w p q (sym (go_on_eq n v) ∙ h ∙ go_on_eq n w)

  go_on_ne : (n v : ℕ) → v < 2 ^ suc m → v ≢ 2 ^ suc m - 1 → go_on n v ≢ 2 ^ suc m - 1
  go_on_ne n v lt ne h = ne (
      steps_injective m fl.xormask r.mask n v _ lt (omega arith)
        (sym (go_on_eq n v) ∙ h ∙ sym (steps_all_ones m fl.xormask r.mask n)))

  pub state_round-IsState : (s : ℕ × ℕ) → IsState s → IsState (state_round fl s)
  unfolding state_round
  state_round-IsState (v, c) (lt, ne, le, run) = elim (ℕ_discrete c 1) [
    | yes e ↦ rw (eq→== c 1 e) (go_on-lt _ v lt, go_on_ne _ v lt ne, omega arith, omega arith)
    | no other ↦
        rw (ne→== c 1 other) (go_on-lt _ v lt, go_on_ne _ v lt ne, omega arith, omega arith)
  ]

  -- A value and a place in the cycle as one number.
  abbrev code : ℕ × ℕ → ℕ
  code s = s.1 + s.0 * suc fl.cached_cycle_length

  code-lt : (s : ℕ × ℕ) → IsState s → code s < 2 ^ suc m * suc fl.cached_cycle_length
  code-lt s v =
      let below : suc s.0 * suc fl.cached_cycle_length ≤ 2 ^ suc m * suc fl.cached_cycle_length =
        mul-le-mul_right {m = suc s.0} {n = 2 ^ suc m} (suc fl.cached_cycle_length) v.0 in
      omega (arith, below, v.2)

  code_value : (s : ℕ × ℕ) → IsState s → code s / suc fl.cached_cycle_length ≡ s.0
  code_value s v =
      add-mul-div_right s.1 s.0 {z = suc fl.cached_cycle_length} (omega arith)
      ∙ ap (λ (q : ℕ). q + s.0) (div-eq_of_lt (omega (arith, v.2)))
      ∙ omega arith

  code_injective :
      (s t : ℕ × ℕ) → IsState s → IsState t → code s ≡ code t → (s.0 ≡ t.0) × (s.1 ≡ t.1)
  code_injective s t v w h =
      let same : s.0 ≡ t.0 =
        sym (code_value s v) ∙ ap (λ (q : ℕ). q / suc fl.cached_cycle_length) h ∙ code_value t w in
      (same, omega (arith, h, ap (λ (q : ℕ). q * suc fl.cached_cycle_length) same))

  at_one :
      (v c : ℕ)
      → c ≡ 1
      → state_round fl (v, c) ≡ (go_on (spin_steps (fl.spin + 1)) v, fl.cached_cycle_length)
  unfolding state_round
  at_one v c e = rw (eq→== c 1 e) refl

  not_one : (v c : ℕ) → c ≢ 1 → state_round fl (v, c) ≡ (go_on (spin_steps fl.spin) v, c - 1)
  unfolding state_round
  not_one v c ne = rw (ne→== c 1 ne) refl

  -- The place in the cycle after the round tells which of the two steps was taken.
  same_before :
      (s t : ℕ × ℕ)
      → IsState s
      → IsState t
      → (state_round fl s).0 ≡ (state_round fl t).0
      → (state_round fl s).1 ≡ (state_round fl t).1
      → (s.0 ≡ t.0) × (s.1 ≡ t.1)
  same_before (v, c) (w, d) sv sw e g = elim (ℕ_discrete c 1) [
    | yes c1 ↦ elim (ℕ_discrete d 1) [
      | yes d1 ↦ (
        go_on_injective _ v w sv.0 sw.0 (
            sym (ap (λ (p : ℕ × ℕ). p.0) (at_one v c c1))
            ∙ e
            ∙ ap (λ (p : ℕ × ℕ). p.0) (at_one w d d1)),
        c1 ∙ sym d1,
      )
      | no dn ↦ absurd (
          omega (
            arith,
            ap (λ (p : ℕ × ℕ). p.1) (at_one v c c1),
            g,
            ap (λ (p : ℕ × ℕ). p.1) (not_one w d dn),
            sv.2,
            sw.2,
            sv.3,
            sw.3,
            c1,
            dn,
          ))
    ]
    | no cn ↦ elim (ℕ_discrete d 1) [
      | yes d1 ↦ absurd (
          omega (
            arith,
            ap (λ (p : ℕ × ℕ). p.1) (not_one v c cn),
            g,
            ap (λ (p : ℕ × ℕ). p.1) (at_one w d d1),
            sv.2,
            sw.2,
            sv.3,
            sw.3,
            d1,
            cn,
          ))
      | no dn ↦ (
        go_on_injective _ v w sv.0 sw.0 (
            sym (ap (λ (p : ℕ × ℕ). p.0) (not_one v c cn))
            ∙ e
            ∙ ap (λ (p : ℕ × ℕ). p.0) (not_one w d dn)),
        omega (
          arith,
          ap (λ (p : ℕ × ℕ). p.1) (not_one v c cn),
          g,
          ap (λ (p : ℕ × ℕ). p.1) (not_one w d dn),
          sv.2,
          sw.2,
          sv.3,
          sw.3,
          cn,
          dn,
        ),
      )
    ]
  ]

  round_apart :
      (s t : ℕ × ℕ)
      → IsState s
      → IsState t
      → code (state_round fl s) ≡ code (state_round fl t)
      → code s ≡ code t
  round_apart s t v w h =
      let after = code_injective _ _ (state_round-IsState s v) (state_round-IsState t w) h in
      let before = same_before s t v w after.0 after.1 in
      omega (arith, before.1, ap (λ (q : ℕ). q * suc fl.cached_cycle_length) before.0)

  -- After some rounds the register has the value again that it had.
  pub register_returns :
      (d : ℕ) × (0 < d)
      × (d ≤ 2 ^ suc m * suc fl.cached_cycle_length)
      × ((times (state_round fl) d (fl.last_val, fl.cycle_length)).0 ≡ fl.last_val)
  register_returns =
      let start : ℕ × ℕ = (fl.last_val, fl.cycle_length) in
      let s : IsState start = (r.fit, r.not_ones, r.cycle, r.running) in
      let back =
        returns (state_round fl) IsState code (2 ^ suc m * suc fl.cached_cycle_length)
          state_round-IsState code-lt round_apart start s in
      (
        back.0,
        back.1,
        back.2,
        (code_injective _ _
            (times-Valid (state_round fl) IsState code (2 ^ suc m * suc fl.cached_cycle_length)
              state_round-IsState code-lt round_apart back.0 start s)
            s back.3).0,
      )

  -- The rounds of the register are those of its changing part.
  pub times_state :
      (n : ℕ) (s : ℕ × ℕ)
      → times lfsr_round n (at_state fl s) ≡ at_state fl (times (state_round fl) n s)
  unfolding times
  times_state zero s = refl
  times_state (suc n) s =
      ap (times lfsr_round n) (round_state fl s) ∙ times_state n (state_round fl s)
