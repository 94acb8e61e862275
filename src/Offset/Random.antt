-- ===== src/Offset/Random.antt =====
-- io_u.c: `__get_next_rand_offset` with a random map.
use native.Mathlib.Decide.{ℕ_discrete}
use raptor_mark.Common.{
  ℕ, ◌<◌, ◌≡◌, refl, ap, ◌∙◌, ◌⊎◌, inl, inr, false, not, arith, Option, none, some, ◌==◌, eq→==,
  ne→==, Option-cases,
}
use raptor_mark.Axmap.{Axmap, axmap_next_free, no_bit}
use raptor_mark.Axmap.Layout.{IsAxmap, member}
use raptor_mark.Axmap.Isset.{axmap_isset-eq-member}
use raptor_mark.Axmap.SetOne.{digits_of-lt-two}
use raptor_mark.Axmap.Candidates.{AllSet}
use raptor_mark.Axmap.NextFree.{IsNext, next_bit, axmap_next_free_lem}
use raptor_mark.Offset.{Options, FioFile, random_map_free, free_block, next_rand_offset}

-- What a draw gives, by the block of the generator: nothing after nothing; else a block that is not in
-- the set, the one drawn if that is free, or nothing where the set has all blocks.
abbrev pub IsGiven : Axmap → Option ℕ → Option ℕ → Type 0
IsGiven axmap none given = given ≡ none
IsGiven axmap (some drawn) none = AllSet (member axmap) 0 axmap.nr_bits
IsGiven axmap (some drawn) (some b) =
    (b < axmap.nr_bits) × (member axmap b ≡ 0) × ((b ≡ drawn) ⊎ (member axmap drawn ≡ 1))

random_map_free_lem :
    (axmap : Axmap) (b : ℕ)
    → IsAxmap axmap
    → b < axmap.nr_bits
    → random_map_free axmap b ≡ (member axmap b == 0)
unfolding random_map_free
random_map_free_lem axmap b v lt =
    ap not (axmap_isset-eq-member axmap b v lt) ∙ elim (ℕ_discrete (member axmap b) 1) [
      | yes set ↦ rw (eq→== (member axmap b) 1 set, set) refl
      | no ne ↦
          let clear : member axmap b ≡ 0 = omega (arith, ne, digits_of-lt-two axmap.levels b) in
          rw (ne→== (member axmap b) 1 ne, clear) refl
    ]

module _ (o : Options) (f : FioFile) (axmap : Axmap) where
  -- A block that is taken is changed for the next free one.
  free_block_lem :
      (b : ℕ)
      → f.io_axmap ≡ some axmap
      → o.norandommap ≡ false
      → IsAxmap axmap
      → b < axmap.nr_bits
      → IsGiven axmap (some b) (free_block o f b)
  unfolding free_block
  free_block_lem b has_map keeps v lt =
      rw (has_map, keeps, random_map_free_lem axmap b v lt)
        (elim (ℕ_discrete (member axmap b) 0) [
          | yes clear ↦ rw (eq→== (member axmap b) 0 clear) (lt, clear, inl refl)
          | no taken ↦ rw (ne→== (member axmap b) 0 taken) (elim (ℕ_discrete r no_bit) [
            | yes nothing ↦ rw (eq→== r no_bit nothing) (found.none_free nothing)
            | no ne ↦ rw (ne→== r no_bit ne) (
              found.inside ne,
              found.free ne,
              inr (omega (arith, taken, digits_of-lt-two axmap.levels b)),
            )
          ])
        ])
    where
      r : ℕ
      r = axmap_next_free axmap b

      found : IsNext axmap (next_bit axmap b) r
      found = axmap_next_free_lem axmap b v lt

  -- With a well-formed random map in use and a generator that draws blocks of the map:
  -- __get_next_rand_offset gives no block when the generator has run through; else it gives a block
  -- of the map that is not in the set, the drawn one if that is free, or none, and then the set has
  -- all blocks.
  pub next_rand_offset_lem :
      {S : Type 0} (next : ℕ → S → Option ℕ × S) (reset : S → S) (lastb : ℕ) (s : S)
      → ((b : ℕ) → (next lastb s).0 ≡ some b → b < axmap.nr_bits)
      → f.io_axmap ≡ some axmap
      → o.norandommap ≡ false
      → IsAxmap axmap
      → IsGiven axmap (next lastb s).0 (next_rand_offset next reset o f lastb s).0
  unfolding next_rand_offset
  next_rand_offset_lem next reset lastb s in_range has_map keeps v =
      elim (Option-cases (next lastb s).0) [
        | inl run_through ↦ rw run_through refl
        | inr drawn ↦ rw drawn.1 (free_block_lem drawn.0 has_map keeps v (in_range drawn.0 drawn.1))
      ]
