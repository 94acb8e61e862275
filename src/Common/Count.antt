-- ===== src/Common/Count.antt =====
-- How many digits of a set of numbers are clear.
use native.Mathlib.Decide.{dec_lt}
use Prim.Native.Nat.{ℕ, zero, suc, ◌+◌, ◌-◌, ◌≤◌, ◌<◌, min}
use mathlib.Core.Path.{◌≡◌}
use native.Mathlib.Omega.{arith}

-- How many of the first `n` numbers are not in the set.
unfoldable pub free_count : (ℕ → ℕ) → ℕ → ℕ
free_count f zero = 0
free_count f (suc n) = free_count f n + (1 - f n)

-- Two sets that differ by the `n` numbers from `b` on.
pub free_count_range :
    (f g : ℕ → ℕ) (b n total : ℕ)
    → ((m : ℕ) → m < b → f m ≡ g m)
    → ((m : ℕ) → b ≤ m → m < b + n → f m ≡ 0)
    → ((m : ℕ) → b ≤ m → m < b + n → g m ≡ 1)
    → ((m : ℕ) → b + n ≤ m → f m ≡ g m)
    → free_count f total ≡ free_count g total + (min total (b + n) - min total b)
unfolding free_count
free_count_range f g b n zero below zeros ones above = omega arith
free_count_range f g b n (suc total) below zeros ones above =
    let rest = free_count_range f g b n total below zeros ones above in
    elim (dec_lt total b) [
      | yes lt ↦ omega (arith, rest, below total lt)
      | no ge ↦ elim (dec_lt total (b + n)) [
        | yes lt ↦ omega (arith, rest, zeros total (omega arith) lt, ones total (omega arith) lt)
        | no past ↦ omega (arith, rest, above total (omega arith))
      ]
    ]

pub free_count_ones : (f : ℕ → ℕ) (n : ℕ) → ((m : ℕ) → m < n → f m ≡ 1) → free_count f n ≡ 0
unfolding free_count
free_count_ones f zero h = omega arith
free_count_ones f (suc n) h =
    omega (arith, free_count_ones f n (λ m lt. h m (omega arith)), h n (omega arith))
