-- ===== src/Steady/Tests.antt =====
-- A full ring of three samples, the second the oldest, and the theorem on it.
use raptor_mark.Common.{ℕ, zero, suc, ◌^◌, ◌<◌, ◌≡◌, refl, arith, true, false, [], ◌∷◌, get_or}
use mathlib.Core.Bool.{true≢false}
use raptor_mark.Steady.{
  SteadyState, samples, sum_loop, store, is_ready, update_sum, advance, steadystate_deviation,
}
use raptor_mark.Steady.Window.{IsWindow, IsKept, steadystate_deviation-IsKept}

abbrev ring : SteadyState
ring = record {
  by_iops = false;
  full = true;
  head = 2;
  tail = 1;
  iops_data = 0 ∷ 0 ∷ 0 ∷ [];
  bw_data = 30 ∷ 10 ∷ 20 ∷ [];
  sum_y = 60;
  oldest_y = 10;
}

samples_fit : (i : ℕ) → get_or (30 ∷ 10 ∷ 20 ∷ []) i 0 < 2 ^ 64
samples_fit zero = omega arith
samples_fit (suc zero) = omega arith
samples_fit (suc (suc zero)) = omega arith
samples_fit (suc (suc (suc i))) = omega arith

ring-IsWindow : IsWindow 3 ring
unfolding samples
ring-IsWindow = record {
  some_interval = (omega arith, omega arith);
  stored = refl;
  words = samples_fit;
  tail = omega arith;
  begin = λ e. absurd (true≢false e);
  behind = λ e. refl;
  oldest = λ e. refl;
  sum = λ e. refl;
}

steadystate_deviation-IsKept_example :
    IsKept (λ ys sum. false) 3 (steadystate_deviation (λ ys sum. false) 3 7 40 ring)
steadystate_deviation-IsKept_example =
    steadystate_deviation-IsKept (λ ys sum. false) 3 7 40 ring ring-IsWindow (omega arith)
      (omega arith)

runs : steadystate_deviation (λ ys sum. false) 3 7 40 ring ≡ (
  false,
  record ring {
    head = 0;
    tail = 2;
    iops_data = 0 ∷ 7 ∷ 0 ∷ [];
    bw_data = 30 ∷ 40 ∷ 20 ∷ [];
    sum_y = 90;
    oldest_y = 20;
  },
)
unfolding steadystate_deviation store update_sum samples advance is_ready sum_loop
runs = refl
