-- ===== src/Axmap/Tests.antt =====
-- A map of 130 blocks whose first 64 blocks and blocks 64 and 66 are covered, and the theorems on it.
use raptor_mark.Common.{
  ℕ, zero, suc, ◌+◌, ◌^◌, ◌<◌, ◌≡◌, ◌≢◌, refl, true, false, arith, none, some, [], ◌∷◌, ◌==◌, u32,
}
use raptor_mark.Common.Bits.{bit}
use raptor_mark.Ffz.{ffz, ffs64, ffs_step}
use raptor_mark.Ffz.Lowest.{ffz_lowest_clear}
use raptor_mark.Axmap.{
  AxmapLevel, Axmap, axmap_new, axmap_set, axmap_set_nr, axmap_isset, axmap_find_first_free,
  axmap_next_free, count_levels, no_bit, level_at, first_free_loop, search_level, scan_words,
  bit_masks, topdown_loop, axmap_isset_fn,
}
use raptor_mark.Axmap.Digits.{run}
use raptor_mark.Axmap.Layout.{IsAxmap, digit, member, word_at, full}
use raptor_mark.Axmap.Isset.{axmap_isset-eq-member}
use raptor_mark.Axmap.SetOne.{IsAdded, axmap_set_lem}
use raptor_mark.Axmap.SetNr.{axmap_set_nr_lem}
use raptor_mark.Axmap.New.{axmap_new-IsAxmap, axmap_new-none}
use raptor_mark.Axmap.FirstFree.{IsFirst, axmap_find_first_free_lem}
use raptor_mark.Axmap.NextFree.{IsNext, axmap_next_free_lem}

abbrev blocks : AxmapLevel
blocks = record { level = 0; map_size = 3; words = full ∷ 5 ∷ 0 ∷ [] }

abbrev summary : AxmapLevel
summary = record { level = 1; map_size = 1; words = 1 ∷ [] }

abbrev covered : Axmap
covered = record { nr_levels = 2; levels = blocks ∷ summary ∷ []; nr_bits = 130 }

blocks_fit : (o : ℕ) → word_at blocks o < 2 ^ 64
blocks_fit zero = omega arith
blocks_fit (suc zero) = omega arith
blocks_fit (suc (suc zero)) = omega arith
blocks_fit (suc (suc (suc o))) = omega arith

summary_fits : (o : ℕ) → word_at summary o < 2 ^ 64
summary_fits zero = omega arith
summary_fits (suc o) = omega arith

summary_set : (o : ℕ) → o < 3 → word_at blocks o ≡ full → digit summary o ≡ 1
summary_set zero lt e = refl
summary_set (suc zero) lt e = absurd (omega arith)
summary_set (suc (suc zero)) lt e = absurd (omega arith)
summary_set (suc (suc (suc o))) lt e = absurd (omega arith)

summary_clear : (o : ℕ) → o < 3 → word_at blocks o ≢ full → digit summary o ≡ 0
summary_clear zero lt ne = absurd (ne refl)
summary_clear (suc zero) lt ne = refl
summary_clear (suc (suc zero)) lt ne = refl
summary_clear (suc (suc (suc o))) lt ne = absurd (omega arith)

covered-IsAxmap : IsAxmap covered
covered-IsAxmap = record {
  count = refl;
  some_level = omega arith;
  chain = (
    record { level = refl; size = refl; stored = refl; words = blocks_fit },
    record { set = summary_set; clear = summary_clear },
    (record { level = refl; size = refl; stored = refl; words = summary_fits }, tt, tt),
  );
  small = omega arith;
}

axmap_next_free_lem_example : IsNext covered 64 (axmap_next_free covered 63)
axmap_next_free_lem_example = axmap_next_free_lem covered 63 covered-IsAxmap (omega arith)

axmap_find_first_free_lem_example : IsFirst covered 3 (axmap_find_first_free covered 3)
axmap_find_first_free_lem_example = axmap_find_first_free_lem covered 3 covered-IsAxmap

axmap_set_lem_example :
    IsAxmap (axmap_set covered 65)
    × (member (axmap_set covered 65) 65 ≡ 1)
    × ((m : ℕ) → m ≢ 65 → member (axmap_set covered 65) m ≡ member covered m)
axmap_set_lem_example = axmap_set_lem covered 65 covered-IsAxmap (omega arith)

axmap_set_nr_lem_example :
    (after : Axmap) × (axmap_set_nr covered 67 63 ≡ some (run (member covered) 67 63, after))
    × IsAdded covered 67 (run (member covered) 67 63) after
axmap_set_nr_lem_example =
    axmap_set_nr_lem covered 67 63 covered-IsAxmap (omega arith) (omega arith)

axmap_isset-eq-member_example : axmap_isset covered 66 ≡ (member covered 66 == 1)
axmap_isset-eq-member_example = axmap_isset-eq-member covered 66 covered-IsAxmap (omega arith)

axmap_new-IsAxmap_example :
    (axmap : Axmap) × (axmap_new (λ k. true) 7 130 ≡ some axmap)
    × IsAxmap axmap
    × (axmap.nr_bits ≡ 130)
    × ((n : ℕ) → member axmap n ≡ 0)
axmap_new-IsAxmap_example = axmap_new-IsAxmap (λ k. true) 7 (λ k. refl) 130 (omega arith)

-- Two levels: four allocations.
two_levels : 3 < 2 + count_levels 32 (u32 3) 1
unfolding count_levels
two_levels = omega arith

axmap_new-none_example : axmap_new (λ k. elim (k == 3) [ true ↦ false | false ↦ true ]) 7 130 ≡ none
axmap_new-none_example =
    axmap_new-none (λ k. elim (k == 3) [ true ↦ false | false ↦ true ]) 7 130 3 two_levels refl

ffz_lowest_clear_example :
    (bit 0xff7f (ffz 0xff7f) ≡ 0)
    × (ffz 0xff7f < 64)
    × ((i : ℕ) → i < ffz 0xff7f → bit 0xff7f i ≡ 1)
ffz_lowest_clear_example = ffz_lowest_clear 0xff7f (omega arith) (omega arith)

-- Runs of the code.
runs :
    (axmap_next_free covered 63 ≡ 65)
    × (axmap_find_first_free covered 3 ≡ 65)
    × (axmap_find_first_free covered 130 ≡ no_bit)
    × (axmap_isset covered 66 ≡ true)
    × (axmap_isset covered 67 ≡ false)
unfolding axmap_next_free axmap_find_first_free axmap_isset level_at first_free_loop search_level
    scan_words bit_masks ffz ffs64 ffs_step topdown_loop axmap_isset_fn
runs = (refl, refl, refl, refl, refl)
