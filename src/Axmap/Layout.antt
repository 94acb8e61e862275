-- ===== src/Axmap/Layout.antt =====
-- When a map is well formed: the sizes of its levels, and what the levels say of one another.
use raptor_mark.Common.{
  ℕ, ◌+◌, ◌-◌, ◌/◌, ◌%◌, ◌^◌, ◌≤◌, ◌<◌, ◌≡◌, ◌≢◌, List, [], ◌∷◌, length, get_or, bit_and,
}
use raptor_mark.Common.Bits.{bit, bit_and-mask}
use raptor_mark.Axmap.{AxmapLevel, Axmap}

abbrev pub full : ℕ
full = 2 ^ 64 - 1

abbrev pub word_at : AxmapLevel → ℕ → ℕ
word_at al o = get_or al.words o 0

-- Digit `n` of a level.
abbrev pub digit : AxmapLevel → ℕ → ℕ
digit al n = bit (word_at al (n / 64)) (n % 64)

-- The level holds `map_size` words for `nr_bits` digits.
pub record IsLevel (i nr_bits : ℕ) (al : AxmapLevel) : Type 0 where
  pub level : al.level ≡ i
  pub size : al.map_size ≡ (nr_bits + 63) / 64
  pub stored : length al.words ≡ al.map_size
  pub words : (o : ℕ) → word_at al o < 2 ^ 64

-- A digit of `hi` is set exactly if its word of `lo` is full.
pub record IsSummary (lo hi : AxmapLevel) : Type 0 where
  pub set : (o : ℕ) → o < lo.map_size → word_at lo o ≡ full → digit hi o ≡ 1
  pub clear : (o : ℕ) → o < lo.map_size → word_at lo o ≢ full → digit hi o ≡ 0

abbrev pub Summarised : AxmapLevel → List AxmapLevel → Type 0
Summarised al [] = Unit
Summarised al (hi ∷ levels) = IsSummary al hi

abbrev pub IsChain : ℕ → ℕ → List AxmapLevel → Type 0
IsChain i nr_bits [] = Unit
IsChain i nr_bits (al ∷ levels) =
    IsLevel i nr_bits al × Summarised al levels × IsChain (i + 1) al.map_size levels

-- The map is small enough that no sum of the code wraps.
pub record IsAxmap (axmap : Axmap) : Type 0 where
  pub count : axmap.nr_levels ≡ length axmap.levels
  pub some_level : 0 < axmap.nr_levels
  pub chain : IsChain 0 axmap.nr_bits axmap.levels
  pub small : axmap.nr_bits ≤ 2 ^ 62

abbrev pub digits_of : List AxmapLevel → ℕ → ℕ
digits_of [] n = 0
digits_of (al ∷ levels) n = digit al n

-- What the map stands for: 1 for a number in the set, 0 for another.
abbrev pub member : Axmap → ℕ → ℕ
member axmap n = digits_of axmap.levels n

-- `index & BLOCKS_PER_UNIT_MASK`
pub low_bits : (n : ℕ) → bit_and n 63 ≡ n % 64
low_bits n = bit_and-mask 6 n
