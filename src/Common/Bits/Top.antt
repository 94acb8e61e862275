-- ===== src/Common/Bits/Top.antt =====
-- The highest digit of a number.
use Prim.Native.Nat.{ℕ, zero, suc, ◌*◌, ◌/◌, ◌^◌, ◌≤◌, ◌<◌}
use mathlib.Core.Path.{◌≡◌}
use native.Mathlib.Decide.{dec_lt}
use native.Mathlib.Omega.{arith}
use raptor_mark.Common.Bits.Step.{bit, two_pow-suc}

pub record IsTop (n t : ℕ) : Type 0 where
  pub low : 2 ^ t ≤ n
  pub high : n < 2 * 2 ^ t

pub highest : (k n : ℕ) → 0 < n → n < 2 ^ k → (t : ℕ) × IsTop n t × (t < k)
highest zero n pos lt = absurd (omega arith)
highest (suc k) n pos lt = elim (dec_lt n (2 ^ k)) [
  | yes below ↦ let r = highest k n pos below in (r.0, r.1, omega (arith, r.2))
  | no ge ↦
      (k, record { low = omega (arith, ge); high = omega (arith, lt, two_pow-suc k) }, omega arith)
]

pub bit-top : (n t : ℕ) → IsTop n t → bit n t ≡ 1
bit-top n zero h = omega (arith, h.low, h.high)
bit-top n (suc t) h = bit-top (n / 2) t (record {
  low = omega (arith, h.low, two_pow-suc t);
  high = omega (arith, h.high, two_pow-suc t);
})
