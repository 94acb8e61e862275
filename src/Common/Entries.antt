-- ===== src/Common/Entries.antt =====
-- A check of a table's entries by evaluation.
use Prim.Native.Nat.{ℕ, zero, suc, ◌<◌}
use mathlib.Core.Path.{◌≡◌}
use mathlib.Core.Bool.{Bool, true, false}
use native.Mathlib.Omega.{arith}

-- The test holds of every index below `n`; it is run on the 256 entries of a table.
unfoldable pub all_entries : (ℕ → Bool) → ℕ → Bool
all_entries ok zero = true
all_entries ok (suc n) = elim (ok n) [ true ↦ all_entries ok n | false ↦ false ]

pub entry_of_all : (ok : ℕ → Bool) (n i : ℕ) → i < n → all_entries ok n ≡ true → ok i ≡ true
unfolding all_entries
entry_of_all ok zero i below h = absurd (omega arith)
entry_of_all ok (suc n) i below h = ground (arith, entry_of_all ok n i)
