-- ===== src/Axmap/FirstFree.antt =====
-- lib/axmap.c: `axmap_find_first_free`, from the highest level down.
use native.Mathlib.Decide.{dec_lt, ℕ_discrete}
use native.Mathlib.Nat.{div-div-eq-div-mul}
use raptor_mark.Common.{
  ℕ, zero, suc, ◌*◌, ◌/◌, ◌^◌, ◌≤◌, ◌<◌, ◌≡◌, ◌≢◌, refl, ap, sym, subst, ◌∙◌, arith, Option, none,
  some, List, [], ◌∷◌, length, u64, ltb, lt→ltb, ge→ltb, leb, le→leb, gt→leb, ◌<<<◌, if◌then◌else◌,
}
use raptor_mark.Axmap.{
  AxmapLevel, Axmap, level_at, search_level, first_free_loop, axmap_find_first_free, no_bit,
}
use raptor_mark.Axmap.Layout.{IsAxmap, digit, digits_of, member, word_at, full}
use raptor_mark.Axmap.Isset.{digit_of_full, shift-suc}
use raptor_mark.Axmap.Candidates.{AllSet, IsFirstFree, IsFound}
use raptor_mark.Axmap.Search.{search_level_lem}
use raptor_mark.Axmap.Tower.{IsTower, IsChain-IsTower}

-- The part of the number `n` that level `i` reads.
abbrev part : ℕ → ℕ → ℕ
part n i = n / 2 ^ (6 * i)

module _ (nr_bits count : ℕ) (levels : List AxmapLevel) (bit_nr : ℕ)
    (tower : IsTower nr_bits count (level_at levels)) where
  -- Level `i` is set from the start of the search up to `x`.
  abbrev SetUpTo : ℕ → ℕ → Type 0
  SetUpTo i x =
      (n : ℕ)
      → part bit_nr i ≤ n
      → n < x
      → n < (level_at levels i).map_size * 64
      → digit (level_at levels i) n ≡ 1

  -- What a level says of the one below it.
  down : (i x : ℕ) → suc i < count → SetUpTo (suc i) x → SetUpTo i (x * 64)
  down i x lt h n p q r = digit_of_full (level_at levels i) n (elim (ℕ_discrete w full) [
    | yes e ↦ e
    | no ne ↦ absurd (
        omega (
          arith,
          (tower.summary i lt).clear (n / 64) (omega arith) ne,
          h (n / 64) (omega (arith, start)) (omega arith) (omega (arith, tower.next i lt)),
        ))
  ])
    where
      w : ℕ
      w = word_at (level_at levels i) (n / 64)

      start : part bit_nr (suc i) ≡ part bit_nr i / 64
      start =
          shift-suc bit_nr i
          ∙ div-div-eq-div-mul bit_nr 64 (2 ^ (6 * i))
          ∙ ap (λ (t : ℕ). bit_nr / t) (omega arith)
          ∙ sym (div-div-eq-div-mul bit_nr (2 ^ (6 * i)) 64)

  -- A level with nothing free from the start on has nothing free at level zero.
  bottom :
      (i : ℕ)
      → i < count
      → SetUpTo i ((level_at levels i).map_size * 64)
      → SetUpTo 0 ((level_at levels 0).map_size * 64)
  bottom zero lt h = h
  bottom (suc i) lt h =
      bottom i (omega arith) (λ n p q r. down i _ lt h n p (omega (arith, tower.next i lt)) r)

  -- Where the search of a level begins.
  abbrev begin : ℕ → ℕ → ℕ
  begin i index =
      if ltb (u64 (index <<< 6)) (part bit_nr i) then part bit_nr i else u64 (index <<< 6)

  begin_lem :
      (i index : ℕ)
      → index * 64 < 2 ^ 64
      → (part bit_nr i ≤ begin i index)
        × ((n : ℕ) → part bit_nr i ≤ n → n < begin i index → n < index * 64)
  begin_lem i index small =
      let e : u64 (index <<< 6) ≡ index * 64 = omega arith in
      rw e (elim (dec_lt (index * 64) (part bit_nr i)) [
        | yes lt ↦
            rw (lt→ltb (index * 64) (part bit_nr i) lt) (omega arith, λ n p q. absurd (omega arith))
        | no ge ↦ rw (ge→ltb (index * 64) (part bit_nr i) (omega arith)) (omega arith, λ n p q. q)
      ])

  -- The search of one level, from the part of the number that it reads.
  widened :
      (i index : ℕ) (o : Option ℕ)
      → index * 64 < 2 ^ 64
      → SetUpTo i (index * 64)
      → IsFound (digit (level_at levels i)) (begin i index) ((level_at levels i).map_size * 64) o
      → IsFound (digit (level_at levels i)) (part bit_nr i) ((level_at levels i).map_size * 64) o
  widened i index none small h s = λ n p q. elim (dec_lt n (begin i index)) [
    | yes lt ↦ h n p ((begin_lem i index small).1 n p lt) q
    | no ge ↦ s n (omega (arith, ge)) q
  ]
  widened i index (some r) small h s =
      let start = begin_lem i index small in
      record {
        inside = s.inside;
        behind = omega (arith, start.0, s.behind);
        free = s.free;
        passed = λ n p q. elim (dec_lt n (begin i index)) [
          | yes lt ↦ h n p (start.1 n p lt) (omega (arith, q, s.inside))
          | no ge ↦ s.passed n (omega (arith, ge)) q
        ];
      }

  searched :
      (i index : ℕ)
      → i < count
      → index * 64 < 2 ^ 64
      → SetUpTo i (index * 64)
      → IsFound
          (digit (level_at levels i))
          (part bit_nr i)
          ((level_at levels i).map_size * 64)
          (search_level (level_at levels i) (begin i index))
  searched i index lt small h =
      widened i index (search_level (level_at levels i) (begin i index)) small h
        (search_level_lem (level_at levels i) (begin i index) (tower.words i lt) (tower.sizes i lt))

  -- What the loop gives from the level `i` down.
  abbrev Found : Option ℕ → Type 0
  Found = IsFound (digit (level_at levels 0)) (part bit_nr 0) ((level_at levels 0).map_size * 64)

  level_lem :
      (i : ℕ) (o : Option ℕ)
      → i < count
      → IsFound (digit (level_at levels i)) (part bit_nr i) ((level_at levels i).map_size * 64) o
      → Found (elim o [ none ↦ none | some found ↦ first_free_loop i levels bit_nr found ])
  unfolding first_free_loop
  level_lem i none lt s = λ n p q. bottom i lt (λ n p q r. s n p r) n p q q
  level_lem zero (some r) lt s = s
  level_lem (suc i) (some r) lt s =
      level_lem i (search_level (level_at levels i) (begin i r)) (omega arith) (
        searched i r (omega arith)
          (omega (arith, s.inside, tower.next i lt, tower.sizes i (omega arith)))
          (down i r lt (λ n p q r'. s.passed n p q)))

  loop_lem : (i : ℕ) → i < count → Found (first_free_loop (suc i) levels bit_nr 0)
  unfolding first_free_loop
  loop_lem i lt =
      level_lem i (search_level (level_at levels i) (begin i 0)) lt
        (searched i 0 lt (omega arith) (λ n p q. absurd (omega arith)))

-- What `axmap_find_first_free` promises of its result.
pub record IsFirst (axmap : Axmap) (from r : ℕ) : Type 0 where
  pub none_free : r ≡ no_bit → AllSet (member axmap) from axmap.nr_bits
  pub one_free : r ≢ no_bit → IsFirstFree (member axmap) from axmap.nr_bits r

pub digits_of-level_at :
    (levels : List AxmapLevel) (n : ℕ)
    → 0 < length levels
    → digits_of levels n ≡ digit (level_at levels 0) n
unfolding level_at
digits_of-level_at [] n pos = absurd (omega arith)
digits_of-level_at (al ∷ levels) n pos = refl

-- The end of the search: what lies behind the end of the map is not free.
pub cut :
    (axmap : Axmap) (from size : ℕ) (o : Option ℕ)
    → axmap.nr_bits ≤ size
    → axmap.nr_bits ≤ 2 ^ 62
    → IsFound (member axmap) from size o
    → IsFirst axmap from
        (elim o [ none ↦ no_bit | some index ↦ if leb axmap.nr_bits index then no_bit else index ])
cut axmap from size none le small s = record {
  none_free = λ e n p q. s n p (omega arith);
  one_free = λ ne. absurd (ne refl);
}
cut axmap from size (some r) le small s = elim (dec_lt r axmap.nr_bits) [
  | yes lt ↦ rw (gt→leb axmap.nr_bits r lt) (record {
    none_free = λ e. absurd (omega (arith, e));
    one_free = λ ne. record { inside = lt; behind = s.behind; free = s.free; passed = s.passed };
  })
  | no ge ↦ rw (le→leb axmap.nr_bits r (omega (arith, ge))) (record {
    none_free = λ e n p q. s.passed n p (omega (arith, ge));
    one_free = λ ne. absurd (ne refl);
  })
]

pub moved :
    (f g : ℕ → ℕ) (from from' to : ℕ) (o : Option ℕ)
    → ((n : ℕ) → g n ≡ f n)
    → from ≡ from'
    → IsFound f from to o
    → IsFound g from' to o
moved f g from from' to none same e s = λ n p q. same n ∙ s n (omega arith) q
moved f g from from' to (some r) same e s = record {
  inside = s.inside;
  behind = omega (arith, s.behind);
  free = same r ∙ s.free;
  passed = λ n p q. same n ∙ s.passed n (omega arith) q;
}

-- The loop from the highest level.
whole_loop :
    (nr_bits count : ℕ) (levels : List AxmapLevel) (bit_nr : ℕ)
    → IsTower nr_bits count (level_at levels)
    → 0 < count
    → IsFound
        (digit (level_at levels 0))
        (part bit_nr 0)
        ((level_at levels 0).map_size * 64)
        (first_free_loop count levels bit_nr 0)
whole_loop nr_bits zero levels bit_nr tower pos = absurd (omega arith)
whole_loop nr_bits (suc i) levels bit_nr tower pos =
    loop_lem nr_bits (suc i) levels bit_nr tower i (omega arith)

pub axmap-IsTower :
    (axmap : Axmap) → IsAxmap axmap → IsTower axmap.nr_bits axmap.nr_levels (level_at axmap.levels)
axmap-IsTower axmap v =
    subst (λ (k : ℕ). IsTower axmap.nr_bits k (level_at axmap.levels)) (sym v.count)
      (IsChain-IsTower 0 axmap.nr_bits axmap.levels v.chain v.small)

-- On a well-formed map, `axmap_find_first_free` gives the first number from `bit_nr` on that is not in
-- the set, or -1 if there is none below the size of the map.
pub axmap_find_first_free_lem :
    (axmap : Axmap) (bit_nr : ℕ)
    → IsAxmap axmap
    → IsFirst axmap bit_nr (axmap_find_first_free axmap bit_nr)
unfolding axmap_find_first_free
axmap_find_first_free_lem axmap bit_nr v =
    cut axmap bit_nr ((level_at axmap.levels 0).map_size * 64)
      (first_free_loop axmap.nr_levels axmap.levels bit_nr 0)
      (omega (arith, tower.first v.some_level)) v.small
      (moved (digit (level_at axmap.levels 0)) (member axmap) (part bit_nr 0) bit_nr
        ((level_at axmap.levels 0).map_size * 64)
        (first_free_loop axmap.nr_levels axmap.levels bit_nr 0)
        (λ n. digits_of-level_at axmap.levels n (omega (arith, v.count, v.some_level)))
        (omega arith)
        (whole_loop axmap.nr_bits axmap.nr_levels axmap.levels bit_nr tower v.some_level))
  where
    tower : IsTower axmap.nr_bits axmap.nr_levels (level_at axmap.levels)
    tower = axmap-IsTower axmap v
