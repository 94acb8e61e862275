-- ===== src/Steady.antt =====
-- steadystate.c: steadystate_deviation, which keeps the last `intervals` samples in a ring and their sum
-- beside it. `attained` stands for the comparison in floating point of the greatest deviation from the
-- mean with the limit.
pub mod Window
mod Tests
use raptor_mark.Common.{
  ℕ, ◌+◌, ◌-◌, ◌%◌, ◌^◌, u64, sub32, sub64, Bool, true, false, ◌&&◌, ◌||◌, List, [], ◌∷◌,
  if◌then◌else◌, ◌==◌, get_or, set,
}

-- What the function reads and writes of `struct steadystate_data`, with the flags FIO_SS_IOPS (`by_iops`)
-- and FIO_SS_BUFFER_FULL (`full`) of its state.
pub record SteadyState : Type 0 where
  pub by_iops : Bool
  pub full : Bool
  pub head : ℕ
  pub tail : ℕ
  pub iops_data : List ℕ
  pub bw_data : List ℕ
  pub sum_y : ℕ
  pub oldest_y : ℕ

unfoldable pub samples : SteadyState → List ℕ
samples ss = if ss.by_iops then ss.iops_data else ss.bw_data

unfoldable pub sum_loop : ℕ → List ℕ → ℕ
sum_loop sum [] = sum
sum_loop sum (y ∷ ys) = sum_loop (u64 (sum + y)) ys

unfoldable pub store : ℕ → ℕ → SteadyState → SteadyState
store iops bw ss = record ss {
  iops_data = set ss.iops_data ss.tail iops;
  bw_data = set ss.bw_data ss.tail bw;
}

unfoldable pub is_ready : ℕ → SteadyState → Bool
is_ready intervals ss = ss.full || (sub32 ss.tail ss.head == intervals - 1)

unfoldable pub update_sum : SteadyState → SteadyState
update_sum ss = record ss {
  full = true;
  sum_y =
      if ss.full
      then u64 (sub64 ss.sum_y ss.oldest_y + get_or (samples ss) ss.tail 0)
      else sum_loop 0 (samples ss);
  oldest_y = get_or (samples ss) ss.head 0;
}

unfoldable pub advance : ℕ → SteadyState → SteadyState
advance intervals ss =
    let tail = (ss.tail + 1) % intervals in
    record ss { tail = tail; head = if tail == ss.head then (ss.head + 1) % intervals else ss.head }

unfoldable pub steadystate_deviation :
    (List ℕ → ℕ → Bool) → ℕ → ℕ → ℕ → SteadyState → Bool × SteadyState
steadystate_deviation attained intervals iops bw ss =
    let stored = store iops bw ss in
    let summed = update_sum stored in
    if is_ready intervals stored
    then if attained (samples summed) summed.sum_y
      then (true, summed)
      else (false, advance intervals summed)
    else (false, advance intervals stored)
