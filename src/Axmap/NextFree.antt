-- ===== src/Axmap/NextFree.antt =====
-- lib/axmap.c: `axmap_next_free`, which goes on round the end of the map.
use native.Mathlib.Decide.{ℕ_discrete}
use raptor_mark.Common.{
  ℕ, ◌+◌, ◌*◌, ◌/◌, ◌%◌, ◌≤◌, ◌<◌, ◌≡◌, ◌≢◌, ◌⊎◌, inl, inr, not, ◌&&◌, arith, some, u64, not64,
  bit_and, ◌==◌, eq→==, ne→==, leb, gt→leb, ◌>>>◌, ◌<<<◌, if◌then◌else◌,
}
use raptor_mark.Ffz.{ffz}
use raptor_mark.Axmap.{AxmapLevel, Axmap, level_at, axmap_find_first_free, axmap_next_free, no_bit}
use raptor_mark.Axmap.Layout.{IsAxmap, digit, member, word_at, low_bits}
use raptor_mark.Axmap.Candidates.{AllSet, candidates, candidates_lowest}
use raptor_mark.Axmap.Search.{within}
use raptor_mark.Axmap.Tower.{IsTower}
use raptor_mark.Axmap.FirstFree.{
  axmap-IsTower, IsFirst, cut, moved, digits_of-level_at, axmap_find_first_free_lem,
}

-- Where the search begins: behind `bit_nr`, round the end.
abbrev pub next_bit : Axmap → ℕ → ℕ
next_bit axmap bit_nr = if bit_nr + 1 == axmap.nr_bits then 0 else bit_nr + 1

-- `n` lies between `next` and `r`, round the end.
abbrev pub Between : ℕ → ℕ → ℕ → Type 0
Between next r n = ((next ≤ n) × (n < r)) ⊎ ((r < next) × ((next ≤ n) ⊎ (n < r)))

-- What `axmap_next_free` promises of its result.
pub record IsNext (axmap : Axmap) (next r : ℕ) : Type 0 where
  pub none_free : r ≡ no_bit → AllSet (member axmap) 0 axmap.nr_bits
  pub inside : r ≢ no_bit → r < axmap.nr_bits
  pub free : r ≢ no_bit → member axmap r ≡ 0
  pub passed : r ≢ no_bit → (n : ℕ) → n < axmap.nr_bits → Between next r n → member axmap n ≡ 1

-- The search from `next` on and, where it finds nothing, the one from zero on.
wrap :
    (axmap : Axmap) (next ret ret0 : ℕ)
    → IsFirst axmap next ret
    → IsFirst axmap 0 ret0
    → IsNext axmap next (if (ret == no_bit) && not (next == 0) then ret0 else ret)
wrap axmap next ret ret0 h h0 = elim (ℕ_discrete ret no_bit) [
  | no ne ↦
      let s = h.one_free ne in
      rw (ne→== _ _ ne) (record {
        none_free = λ e. absurd (ne e);
        inside = λ ne. s.inside;
        free = λ ne. s.free;
        passed = λ ne n lt between. elim between [
          | inl b ↦ s.passed n b.0 b.1
          | inr b ↦ absurd (omega (arith, b.0, s.behind))
        ];
      })
  | yes nothing ↦ elim (ℕ_discrete next 0) [
    | yes from_zero ↦
        rw (eq→== _ _ nothing, eq→== _ _ from_zero)
          (record {
            none_free = λ e n p q. h.none_free nothing n (omega (arith, from_zero)) q;
            inside = λ ne. absurd (ne nothing);
            free = λ ne. absurd (ne nothing);
            passed = λ ne. absurd (ne nothing);
          })
    | no later ↦
        rw (eq→== _ _ nothing, ne→== _ _ later)
          (record {
            none_free = h0.none_free;
            inside = λ ne. (h0.one_free ne).inside;
            free = λ ne. (h0.one_free ne).free;
            passed = λ ne n lt between. elim between [
              | inl b ↦ h.none_free nothing n b.0 lt
              | inr b ↦ elim b.1 [
                | inl behind ↦ h.none_free nothing n behind lt
                | inr before ↦ (h0.one_free ne).passed n (omega arith) before
              ]
            ];
          })
  ]
]

-- The search from `next` on, which looks at the first word by itself.
from_word :
    (axmap : Axmap) (next : ℕ)
    → IsAxmap axmap
    → next < axmap.nr_bits
    → IsFirst axmap next (
        let word = word_at (level_at axmap.levels 0) (next >>> 6) in
        let temp = candidates word (bit_and next 63) in
        let found = u64 ((next >>> 6) <<< 6) + ffz (not64 temp) in
        if temp == 0
        then axmap_find_first_free axmap next
        else if leb axmap.nr_bits found
        then no_bit
        else found)
from_word axmap next v lt = rw (low_bits next) (elim (ℕ_discrete (candidates word (next % 64)) 0) [
  | yes nothing ↦ rw (eq→== _ _ nothing) (axmap_find_first_free_lem axmap next v)
  | no some_free ↦
      let e : u64 ((next >>> 6) <<< 6) ≡ next / 64 * 64 = omega (arith, lt, v.small) in
      rw (ne→== _ _ some_free, e)
        (cut axmap next (al.map_size * 64)
          (some (next / 64 * 64 + ffz (not64 (candidates word (next % 64))))) (omega (arith, size))
          v.small
          (moved (digit al) (member axmap) (next / 64 * 64 + next % 64) next (al.map_size * 64)
            (some (next / 64 * 64 + ffz (not64 (candidates word (next % 64)))))
            (λ n. digits_of-level_at axmap.levels n (omega (arith, v.count, v.some_level)))
            (omega arith)
            (within al (next / 64) (next % 64) _ al.map_size
              (candidates_lowest word (next % 64) (omega arith)
                (tower.words 0 v.some_level (next / 64)) some_free)
              (omega (arith, size)))))
])
  where
    al : AxmapLevel
    al = level_at axmap.levels 0

    word : ℕ
    word = word_at al (next / 64)

    tower : IsTower axmap.nr_bits axmap.nr_levels (level_at axmap.levels)
    tower = axmap-IsTower axmap v

    size : al.map_size ≡ (axmap.nr_bits + 63) / 64
    size = tower.first v.some_level

-- On a well-formed map and a number below its size, `axmap_next_free` gives the first number behind
-- `bit_nr`, round the end of the map, that is not in the set, or -1 if the set has all numbers.
pub axmap_next_free_lem :
    (axmap : Axmap) (bit_nr : ℕ)
    → IsAxmap axmap
    → bit_nr < axmap.nr_bits
    → IsNext axmap (next_bit axmap bit_nr) (axmap_next_free axmap bit_nr)
unfolding axmap_next_free
axmap_next_free_lem axmap bit_nr v lt = rw (gt→leb axmap.nr_bits bit_nr lt) (
    wrap axmap (next_bit axmap bit_nr) _ (axmap_find_first_free axmap 0)
      (from_word axmap (next_bit axmap bit_nr) v next-lt) (axmap_find_first_free_lem axmap 0 v))
  where
    next-lt : next_bit axmap bit_nr < axmap.nr_bits
    next-lt = elim (ℕ_discrete (bit_nr + 1) axmap.nr_bits) [
      | yes last ↦ rw (eq→== _ _ last) (omega arith)
      | no ne ↦ rw (ne→== _ _ ne) (omega arith)
    ]
