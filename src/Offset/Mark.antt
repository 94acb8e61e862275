-- ===== src/Offset/Mark.antt =====
-- io_u.c: `mark_random_map`: what the random map holds of an I/O, and how long the I/O may be.
use native.Mathlib.Decide.{dec_lt, ℕ_discrete}
use native.Mathlib.Nat.{le-div_iff_mul-le, mul-le-mul_right, div-mul-le_self}
use raptor_mark.Common.{
  ℕ, ◌+◌, ◌-◌, ◌*◌, ◌/◌, ◌^◌, ◌≤◌, ◌<◌, min, ◌≡◌, ◌≢◌, refl, ap, ◌∙◌, ◌⊎◌, inl, inr, false, arith,
  none, some, ◌==◌, eq→==, ne→==, u32, u64, sub64, ltb, lt→ltb, ge→ltb, if◌then◌else◌,
}
use raptor_mark.Axmap.{Axmap, axmap_set_nr}
use raptor_mark.Axmap.Digits.{run, run-le, run_unique, run_ends}
use raptor_mark.Axmap.Layout.{IsAxmap, member}
use raptor_mark.Axmap.SetOne.{IsAdded, digits_of-lt-two}
use raptor_mark.Axmap.SetNr.{axmap_set_nr_lem}
use raptor_mark.Offset.{Ddir, Options, mark_random_map}

-- The end of `mark_random_map`
shortened :
    (nr_blocks min_bs buflen : ℕ)
    → nr_blocks * min_bs < 2 ^ 64
    → (if ltb (u64 (nr_blocks * min_bs)) buflen then u64 (nr_blocks * min_bs) else buflen)
      ≡ min buflen (nr_blocks * min_bs)
shortened nr_blocks min_bs buflen small =
    let e : u64 (nr_blocks * min_bs) ≡ nr_blocks * min_bs = omega arith in
    rw e (elim (dec_lt (nr_blocks * min_bs) buflen) [
      | yes lt ↦ rw (lt→ltb (nr_blocks * min_bs) buflen lt) (omega (arith, lt))
      | no ge ↦ rw (ge→ltb (nr_blocks * min_bs) buflen (omega (arith, ge))) (omega (arith, ge))
    ])

-- The run at a digit that is set, and at a clear one.
run_none : (digit : ℕ → ℕ) (b n : ℕ) → digit b ≢ 0 → run digit b n ≡ 0
run_none digit b n ne =
    run_unique digit b n 0 (omega arith) (λ i p q. absurd (omega arith))
      (inr (λ z. ne (ap digit (omega arith) ∙ z)))

run_pos : (digit : ℕ → ℕ) (b n : ℕ) → digit b ≡ 0 → 0 < n → 0 < run digit b n
run_pos digit b n clear some_digit = elim (ℕ_discrete (run digit b n) 0) [
  | no ne ↦ omega (arith, ne)
  | yes z ↦
      absurd
        (run_ends digit b n (omega (arith, z, some_digit)) (ap digit (omega (arith, z)) ∙ clear))
]

module _ (o : Options) (ddir : Ddir) (file_offset offset buflen : ℕ) where
  -- The block of the I/O, and how many blocks it has.
  abbrev pub block : ℕ
  block = (offset - file_offset) / o.min_bs ddir

  abbrev pub nr_blocks : ℕ
  nr_blocks = (buflen + o.min_bs ddir - 1) / o.min_bs ddir

  -- What is made of the count of `axmap_set_nr`.
  by_count :
      (axmap after : Axmap) (n : ℕ)
      → 0 < o.min_bs ddir
      → file_offset ≤ offset
      → offset < 2 ^ 64
      → 0 < nr_blocks
      → buflen + o.min_bs ddir ≤ 2 ^ 64
      → nr_blocks < 2 ^ 32
      → n * o.min_bs ddir < 2 ^ 64
      → axmap_set_nr axmap block nr_blocks ≡ some (n, after)
      → mark_random_map o ddir false file_offset axmap offset buflen
        ≡ (if n == 0 then none else some (min buflen (n * o.min_bs ddir), after))
  unfolding mark_random_map
  by_count axmap after n bs behind wide some_block small few fits64 set_nr =
      let e : sub64 offset file_offset ≡ offset - file_offset = omega arith in
      let q : u64 (buflen + o.min_bs ddir - 1) ≡ buflen + o.min_bs ddir - 1 = omega arith in
      let asked : (nr_blocks == 0) ≡ false = ne→== nr_blocks 0 (omega (arith, some_block)) in
      let w : u32 nr_blocks ≡ nr_blocks = omega (arith, few) in
      rw (e, q, asked, w, set_nr)
        (ap (λ (t : ℕ). if n == 0 then none else some (t, after))
          (shortened n (o.min_bs ddir) buflen fits64))

  -- On a well-formed map, for an I/O of one byte at least that is not BUSY_OK, starts behind the
  -- offset of the file, has less than 2^32 blocks, all in the map, and whose sums do not wrap:
  -- mark_random_map fails its assertion if the first block of the I/O is in the map already; if it
  -- is not, mark_random_map puts the blocks of the I/O into the map up to the first that is there
  -- already, and no other, and cuts the I/O to these blocks.
  pub mark_random_map_lem :
      (axmap : Axmap)
      → IsAxmap axmap
      → 0 < o.min_bs ddir
      → file_offset ≤ offset
      → offset < 2 ^ 64
      → 0 < buflen
      → buflen + o.min_bs ddir ≤ 2 ^ 64
      → nr_blocks < 2 ^ 32
      → block + nr_blocks ≤ axmap.nr_bits
      → ((member axmap block ≡ 1)
          × (mark_random_map o ddir false file_offset axmap offset buflen ≡ none))
        ⊎ ((member axmap block ≡ 0)
            × (0 < run (member axmap) block nr_blocks)
            × (after : Axmap) × (mark_random_map o ddir false file_offset axmap offset buflen
                ≡ some (min buflen (run (member axmap) block nr_blocks * o.min_bs ddir), after))
            × IsAdded axmap block (run (member axmap) block nr_blocks) after)
  mark_random_map_lem axmap v bs behind wide pos small few fits =
      let some_block : 0 < nr_blocks = (le-div_iff_mul-le bs).1 (omega arith) in
      let r = run (member axmap) block nr_blocks in
      let fits64 : r * o.min_bs ddir < 2 ^ 64 = omega (
        arith,
        mul-le-mul_right (o.min_bs ddir) (run-le (member axmap) block nr_blocks),
        div-mul-le_self (buflen + o.min_bs ddir - 1) (o.min_bs ddir),
      ) in
      let s = axmap_set_nr_lem axmap block nr_blocks v some_block fits in
      let made = by_count axmap s.0 r bs behind wide some_block small few fits64 s.1 in
      elim (ℕ_discrete (member axmap block) 0) [
        | no ne ↦
            let nothing : r ≡ 0 = run_none (member axmap) block nr_blocks ne in
            inl (
              omega (arith, ne, digits_of-lt-two axmap.levels block),
              made ∙ rw (eq→== r 0 nothing) refl,
            )
        | yes free ↦
            let some_free : 0 < r = run_pos (member axmap) block nr_blocks free some_block in
            inr (free, some_free, s.0, made ∙ rw (ne→== r 0 (omega (arith, some_free))) refl, s.2)
      ]
