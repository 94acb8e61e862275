-- ===== src/Axmap/New.antt =====
-- `axmap_new`: the levels of a fresh map, and what becomes of an allocation that fails.
use native.Mathlib.Decide.{dec_lt, ℕ_discrete}
use raptor_mark.Common.{
  ℕ, zero, suc, ◌+◌, ◌-◌, ◌/◌, ◌%◌, ◌^◌, ◌≤◌, ◌<◌, ◌≡◌, refl, ap, sym, ◌∙◌, inl, inr, Bool, true,
  false, arith, none, some, List, [], ◌∷◌, length, replicate, length-replicate, get_or-replicate,
  u32, u64, Bool-cases, ◌&&◌, ltb, ◌>>>◌,
}
use raptor_mark.Common.Bits.{bit, bit-zero}
use raptor_mark.Axmap.{
  AxmapLevel, Axmap, blocks_per_unit, unit_shift, clear_level, clear_levels, count_levels,
  build_levels, axmap_reset, axmap_new,
}
use raptor_mark.Axmap.Layout.{
  IsLevel, IsSummary, Summarised, IsChain, IsAxmap, digit, digits_of, member, word_at,
}

word_at-clear_level : (al : AxmapLevel) (o : ℕ) → word_at (clear_level al) o ≡ 0
unfolding clear_level
word_at-clear_level al o = get_or-replicate al.map_size o 0

digit-clear_level : (al : AxmapLevel) (n : ℕ) → digit (clear_level al) n ≡ 0
digit-clear_level al n =
    ap (λ (t : ℕ). bit t (n % 64)) (word_at-clear_level al (n / 64)) ∙ bit-zero (n % 64)

clear_level-IsSummary : (lo hi : AxmapLevel) → IsSummary (clear_level lo) (clear_level hi)
clear_level-IsSummary lo hi = record {
  set = λ o lt e. absurd (omega (arith, word_at-clear_level lo o));
  clear = λ o lt ne. digit-clear_level hi o;
}

clear_levels-Summarised :
    (al : AxmapLevel) (n : ℕ) (levels : List AxmapLevel)
    → length levels ≡ n
    → Summarised (clear_level al) (clear_levels n levels)
unfolding clear_levels
clear_levels-Summarised al zero [] e = tt
clear_levels-Summarised al zero (hi ∷ levels) e = absurd (omega arith)
clear_levels-Summarised al (suc n) [] e = tt
clear_levels-Summarised al (suc n) (hi ∷ levels) e = clear_level-IsSummary al hi

clear_level-IsLevel :
    (al : AxmapLevel) (i nr_bits : ℕ)
    → al.level ≡ i
    → al.map_size ≡ (nr_bits + 63) / 64
    → IsLevel i nr_bits (clear_level al)
clear_level-IsLevel al i nr_bits level size = record {
  level = unfold clear_level in level;
  size = unfold clear_level in size;
  stored = unfold clear_level in length-replicate al.map_size 0;
  words = λ o. omega (arith, word_at-clear_level al o);
}

digits_of-clear_levels :
    (n : ℕ) (levels : List AxmapLevel) (m : ℕ)
    → length levels ≡ n
    → digits_of (clear_levels n levels) m ≡ 0
unfolding clear_levels
digits_of-clear_levels zero [] m e = refl
digits_of-clear_levels zero (hi ∷ levels) m e = absurd (omega arith)
digits_of-clear_levels (suc n) [] m e = refl
digits_of-clear_levels (suc n) (hi ∷ levels) m e = digit-clear_level hi m

length-clear_levels :
    (n : ℕ) (levels : List AxmapLevel) → length (clear_levels n levels) ≡ length levels
unfolding clear_levels
length-clear_levels zero levels = refl
length-clear_levels (suc n) [] = refl
length-clear_levels (suc n) (al ∷ levels) = ap suc (length-clear_levels n levels)

count_levels-pos : (rounds i levels : ℕ) → 0 < levels → 0 < count_levels rounds i levels
unfolding count_levels
count_levels-pos zero i levels pos = pos
count_levels-pos (suc rounds) i levels pos = elim (Bool-cases (ltb 1 i)) [
  | inl more ↦ rw more (count_levels-pos rounds _ (levels + 1) (omega arith))
  | inr end ↦ rw end pos
]

-- The words that `nr_bits` digits take.
abbrev pub words_for : ℕ → ℕ
words_for nr_bits = u64 (nr_bits + blocks_per_unit - 1) >>> unit_shift

-- The levels of a map in which every allocation succeeds.
module _ (malloc_ok : ℕ → Bool) (garbage : ℕ) (all_ok : (k : ℕ) → malloc_ok k ≡ true) where
  IsBuilt : ℕ → ℕ → ℕ → Type 0
  IsBuilt left i nr_bits =
      (levels : List AxmapLevel) × (build_levels malloc_ok garbage left i nr_bits ≡ some levels)
      × (length levels ≡ left)
      × IsChain i nr_bits (clear_levels left levels)

  build_levels_lem : (left i nr_bits : ℕ) → nr_bits ≤ 2 ^ 62 → IsBuilt left i nr_bits
  unfolding IsBuilt build_levels clear_levels
  build_levels_lem zero i nr_bits small = ([], refl, refl, tt)
  build_levels_lem (suc left) i nr_bits small =
      let size = words_for nr_bits in
      let is_size : size ≡ (nr_bits + 63) / 64 = omega arith in
      let al : AxmapLevel = record { level = i; map_size = size; words = replicate size garbage } in
      let rest = build_levels_lem left (i + 1) size (omega arith) in
      rw (all_ok (i + 2), rest.1)
        (
          al ∷ rest.0,
          refl,
          ap suc rest.2,
          (
            clear_level-IsLevel al i nr_bits refl is_size,
            clear_levels-Summarised al left rest.0 rest.2,
            unfold clear_level in rest.3,
          ),
        )

  -- If every allocation succeeds, `axmap_new` gives a well-formed map of the size asked for with no
  -- number in the set, whatever the memory held.
  pub axmap_new-IsAxmap :
      (nr_bits : ℕ)
      → nr_bits ≤ 2 ^ 62
      → (axmap : Axmap) × (axmap_new malloc_ok garbage nr_bits ≡ some axmap)
        × IsAxmap axmap
        × (axmap.nr_bits ≡ nr_bits)
        × ((n : ℕ) → member axmap n ≡ 0)
  unfolding axmap_new axmap_reset IsBuilt
  axmap_new-IsAxmap nr_bits small =
      let count = count_levels 32 (u32 (words_for nr_bits)) 1 in
      let built = build_levels_lem count 0 nr_bits small in
      rw (all_ok 0, all_ok 1, built.1)
        (
          record { nr_levels = count; levels = clear_levels count built.0; nr_bits = nr_bits },
          refl,
          record {
            count = sym (length-clear_levels count built.0 ∙ built.2);
            some_level = count_levels-pos 32 (u32 (words_for nr_bits)) 1 (omega arith);
            chain = built.3;
            small = small;
          },
          refl,
          λ n. digits_of-clear_levels count built.0 n built.2,
        )

module _ (malloc_ok : ℕ → Bool) (garbage : ℕ) where
  build_levels-none :
      (left i nr_bits k : ℕ)
      → i + 2 ≤ k
      → k < i + 2 + left
      → malloc_ok k ≡ false
      → build_levels malloc_ok garbage left i nr_bits ≡ none
  unfolding build_levels
  build_levels-none zero i nr_bits k from to failed = absurd (omega arith)
  build_levels-none (suc left) i nr_bits k from to failed = elim (ℕ_discrete k (i + 2)) [
    | yes here ↦ rw (ap malloc_ok (sym here) ∙ failed) refl
    | no later ↦
        rw (build_levels-none left (i + 1) (words_for nr_bits) k (omega arith) (omega arith) failed)
          (elim (Bool-cases (malloc_ok (i + 2))) [ inl ok ↦ rw ok refl | inr ko ↦ rw ko refl ])
  ]

  -- If one of the allocations fails (the map, the array of levels, or the words of one of them),
  -- `axmap_new` returns nothing.
  pub axmap_new-none :
      (nr_bits k : ℕ)
      → k < 2 + count_levels 32 (u32 (words_for nr_bits)) 1
      → malloc_ok k ≡ false
      → axmap_new malloc_ok garbage nr_bits ≡ none
  unfolding axmap_new
  axmap_new-none nr_bits k to failed = elim (dec_lt k 2) [
    | yes early ↦ elim (ℕ_discrete k 0) [
      | yes first ↦ rw (ap malloc_ok (sym first) ∙ failed) refl
      | no second ↦
          let e : malloc_ok 1 ≡ false = ap malloc_ok (omega arith) ∙ failed in
          rw e (elim (Bool-cases (malloc_ok 0)) [ inl ok ↦ rw ok refl | inr ko ↦ rw ko refl ])
    ]
    | no late ↦
        rw
          (build_levels-none (count_levels 32 (u32 (words_for nr_bits)) 1) 0 nr_bits k (omega arith)
            (omega arith) failed)
          (elim (Bool-cases (malloc_ok 0 && malloc_ok 1)) [
            | inl ok ↦ rw ok refl
            | inr ko ↦ rw ko refl
          ])
  ]
