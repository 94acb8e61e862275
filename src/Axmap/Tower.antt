-- ===== src/Axmap/Tower.antt =====
-- lib/axmap.c: the levels of a map by their numbers.
use raptor_mark.Common.{ℕ, zero, suc, ◌+◌, ◌/◌, ◌^◌, ◌≤◌, ◌<◌, ◌≡◌, arith, List, [], ◌∷◌, length}
use raptor_mark.Axmap.{AxmapLevel, level_at}
use raptor_mark.Axmap.Layout.{IsSummary, Summarised, IsChain, word_at}

-- The levels by their numbers, as the loop reads them.
pub record IsTower (nr_bits count : ℕ) (level : ℕ → AxmapLevel) : Type 0 where
  pub sizes : (i : ℕ) → i < count → (level i).map_size ≤ 2 ^ 56
  pub words : (i : ℕ) → i < count → (o : ℕ) → word_at (level i) o < 2 ^ 64
  pub first : 0 < count → (level 0).map_size ≡ (nr_bits + 63) / 64
  pub next : (i : ℕ) → suc i < count → (level (suc i)).map_size ≡ ((level i).map_size + 63) / 64
  pub summary : (i : ℕ) → suc i < count → IsSummary (level i) (level (suc i))

head_summary :
    (al : AxmapLevel) (levels : List AxmapLevel)
    → Summarised al levels
    → 0 < length levels
    → IsSummary al (level_at levels 0)
unfolding level_at
head_summary al [] s pos = absurd (omega arith)
head_summary al (hi ∷ levels) s pos = s

-- One more level below a tower.
module _ (nr_bits : ℕ) (al : AxmapLevel) (levels : List AxmapLevel)
    (above : IsTower al.map_size (length levels) (level_at levels)) where
  cons_sizes :
      al.map_size ≤ 2 ^ 56
      → (i : ℕ) → i < suc (length levels)
      → (level_at (al ∷ levels) i).map_size ≤ 2 ^ 56
  unfolding level_at
  cons_sizes small zero lt = small
  cons_sizes small (suc i) lt = above.sizes i (omega arith)

  cons_words :
      ((o : ℕ) → word_at al o < 2 ^ 64)
      → (i : ℕ) → i < suc (length levels)
      → (o : ℕ) → word_at (level_at (al ∷ levels) i) o < 2 ^ 64
  unfolding level_at
  cons_words fits zero lt o = fits o
  cons_words fits (suc i) lt o = above.words i (omega arith) o

  cons_next :
      (i : ℕ)
      → suc i < suc (length levels)
      → (level_at levels i).map_size ≡ ((level_at (al ∷ levels) i).map_size + 63) / 64
  unfolding level_at
  cons_next zero lt = above.first (omega arith)
  cons_next (suc i) lt = above.next i (omega arith)

  cons_summary :
      Summarised al levels
      → (i : ℕ) → suc i < suc (length levels)
      → IsSummary (level_at (al ∷ levels) i) (level_at levels i)
  unfolding level_at
  cons_summary s zero lt = head_summary al levels s (omega arith)
  cons_summary s (suc i) lt = above.summary i (omega arith)

pub IsChain-IsTower :
    (j nr_bits : ℕ) (levels : List AxmapLevel)
    → IsChain j nr_bits levels
    → nr_bits ≤ 2 ^ 62
    → IsTower nr_bits (length levels) (level_at levels)
unfolding level_at
IsChain-IsTower j nr_bits [] v small = record {
  sizes = λ i lt. absurd (omega arith);
  words = λ i lt. absurd (omega arith);
  first = λ lt. absurd (omega arith);
  next = λ i lt. absurd (omega arith);
  summary = λ i lt. absurd (omega arith);
}
IsChain-IsTower j nr_bits (al ∷ levels) v small =
    let size : al.map_size ≤ 2 ^ 56 = omega (arith, v.0.size) in
    let above = IsChain-IsTower (j + 1) al.map_size levels v.2 (omega arith) in
    record {
      sizes = cons_sizes nr_bits al levels above size;
      words = cons_words nr_bits al levels above v.0.words;
      first = λ lt. v.0.size;
      next = cons_next nr_bits al levels above;
      summary = cons_summary nr_bits al levels above v.1;
    }
