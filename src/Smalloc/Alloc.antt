-- ===== src/Smalloc/Alloc.antt =====
-- smalloc.c: `__smalloc_pool`.
use native.Mathlib.Decide.{dec_lt}
use raptor_mark.Common.{
  ℕ, zero, suc, ◌+◌, ◌-◌, ◌*◌, ◌/◌, ◌%◌, ◌^◌, ◌≤◌, ◌<◌, ◌≡◌, ◌≢◌, refl, sym, subst, ◌∙◌, arith, ◌⊎◌,
  inl, inr, max, Option, none, some, List, lt→ltb, ge→ltb, u32,
}
use raptor_mark.Smalloc.{
  Pool, size_to_blocks, find_best_index, smalloc_blocks, Outcome, out_of_rounds, undefined,
  exhausted, found, search_loop,
}
use raptor_mark.Smalloc.Search.{IsTaken, GoodEnd, search_loop-GoodEnd}
use raptor_mark.Smalloc.WellFormed.{IsPool, taken_count, find_best_index-some}

-- What a call of `__smalloc_pool` that returns an address has done.
pub record IsGranted (p : Pool) (n ptr : ℕ) (p' : Pool) : Type 0 where
  pub word : ℕ
  pub idx : ℕ
  pub address : ptr ≡ p.map + (word * 1024 + idx * 32)
  pub taken : IsTaken p.nr_blocks p.bitmap n word idx p'.bitmap
  pub same_map : p'.map ≡ p.map
  pub same_words : p'.nr_blocks ≡ p.nr_blocks
  pub same_memory : (a : ℕ) → p'.memory a ≡ p.memory a
  pub free_blocks : p'.free_blocks + n ≡ p.free_blocks
  pub valid : IsPool p'

-- How the loop of a well-formed pool ends, with the rounds that `smalloc_blocks` gives it.
abbrev pub outcome : Pool → ℕ → ℕ → Outcome
outcome p n best = search_loop (p.nr_blocks * 32 + 1) p.nr_blocks p.bitmap n best 0

pub outcome-GoodEnd :
    (p : Pool) (n best : ℕ)
    → IsPool p
    → 0 < n
    → n < 2 ^ 31
    → GoodEnd p.nr_blocks p.bitmap n (outcome p n best)
outcome-GoodEnd p zero best v pos small = absurd (omega arith)
outcome-GoodEnd p (suc m) best v pos small =
    search_loop-GoodEnd p.nr_blocks p.bitmap m v.words_eq v.fit small (p.nr_blocks * 32 + 1) best 0
      (omega arith) (omega arith) (omega arith)

-- The cases of a computed outcome.
Outcome-cases :
    (o : Outcome)
    → (o ≡ out_of_rounds)
      ⊎ (o ≡ undefined)
      ⊎ (o ≡ exhausted)
      ⊎ ((i : ℕ) × (idx : ℕ) × (bitmap : List ℕ) × (o ≡ found i idx bitmap))
Outcome-cases out_of_rounds = inl refl
Outcome-cases undefined = inr (inl refl)
Outcome-cases exhausted = inr (inr (inl refl))
Outcome-cases (found i idx bitmap) = inr (inr (inr (i, idx, bitmap, refl)))

granted :
    (p : Pool) (n best i idx : ℕ) (bitmap : List ℕ)
    → IsPool p
    → best < p.nr_blocks
    → n ≤ p.free_blocks
    → IsTaken p.nr_blocks p.bitmap n i idx bitmap
    → IsGranted p n
        (p.map + u32 (i * 1024 + idx * 32))
        (record p { next_non_full = best; bitmap = bitmap; free_blocks = p.free_blocks - n })
granted p n best i idx bitmap v best-lt le t = record {
  word = i;
  idx = idx;
  address = omega (arith, t.i-lt, t.idx-lt, v.small);
  taken = t;
  same_map = refl;
  same_words = refl;
  same_memory = λ a. refl;
  free_blocks = omega arith;
  valid = record {
    words_eq = t.taken.same_length ∙ v.words_eq;
    fit = t.taken.fit;
    counted = omega (
      arith,
      v.counted,
      taken_count p.bitmap bitmap (i * 32 + idx) n p.nr_blocks t.within t.free t.taken,
    );
    start = best-lt;
    small = v.small;
    map_pos = v.map_pos;
  };
}

-- What `__smalloc_pool` answers.
unfoldable pub IsAnswer : Pool → ℕ → Option (ℕ × Pool) → Type 0
IsAnswer p n none = Unit
IsAnswer p n (some (ptr, p')) =
    (ptr ≡ 0) × IsPool p' × (p'.bitmap ≡ p.bitmap) ⊎ (ptr ≢ 0) × IsGranted p n ptr p'

few_left :
    (p : Pool) (size : ℕ)
    → p.free_blocks < size_to_blocks size
    → smalloc_blocks p size ≡ some (0, p)
unfolding smalloc_blocks
few_left p size lt = rw (lt→ltb p.free_blocks (size_to_blocks size) lt) refl

module _ (p : Pool) (size best : ℕ) (le : size_to_blocks size ≤ p.free_blocks)
    (at : find_best_index p ≡ some best) where
  pub answer_undefined :
      outcome p (size_to_blocks size) best ≡ undefined → smalloc_blocks p size ≡ none
  unfolding smalloc_blocks
  answer_undefined e = rw (ge→ltb p.free_blocks (size_to_blocks size) le) (rw at (rw e refl))

  pub answer_exhausted :
      outcome p (size_to_blocks size) best ≡ exhausted
      → smalloc_blocks p size ≡ some (0, record p { next_non_full = best })
  unfolding smalloc_blocks
  answer_exhausted e = rw (ge→ltb p.free_blocks (size_to_blocks size) le) (rw at (rw e refl))

  pub answer_found :
      (i idx : ℕ) (bitmap : List ℕ)
      → outcome p (size_to_blocks size) best ≡ found i idx bitmap
      → smalloc_blocks p size
        ≡ some (
          p.map + u32 (i * 1024 + idx * 32),
          record p {
            next_non_full = best;
            bitmap = bitmap;
            free_blocks = p.free_blocks - size_to_blocks size;
          },
        )
  unfolding smalloc_blocks
  answer_found i idx bitmap e =
      rw (ge→ltb p.free_blocks (size_to_blocks size) le) (rw at (rw e refl))

-- `__smalloc_pool` on a well-formed pool.
pub smalloc_blocks-IsAnswer :
    (p : Pool) (size : ℕ)
    → IsPool p
    → 0 < size
    → size < 2 ^ 32
    → IsAnswer p (size_to_blocks size) (smalloc_blocks p size)
unfolding IsAnswer size_to_blocks GoodEnd
smalloc_blocks-IsAnswer p size v pos small = elim (dec_lt p.free_blocks n) [
  | yes lt ↦ subst (IsAnswer p n) (sym (few_left p size lt)) (inl (refl, v, refl))
  | no ge ↦
      let le : n ≤ p.free_blocks = omega arith in
      let b = find_best_index-some p v (omega arith) in
      let best = b.0 in
      let good = outcome-GoodEnd p n best v (omega arith) (omega arith) in
      elim (Outcome-cases (outcome p n best)) [
        | inl e ↦ absurd (of_none (subst (GoodEnd p.nr_blocks p.bitmap n) e good))
        | inr (inl e) ↦ subst (IsAnswer p n) (sym (answer_undefined p size best le b.1 e)) tt
        | inr (inr (inl e)) ↦ subst (IsAnswer p n) (sym (answer_exhausted p size best le b.1 e)) (
            inl (
              refl,
              record {
                words_eq = v.words_eq;
                fit = v.fit;
                counted = v.counted;
                start = b.2;
                small = v.small;
                map_pos = v.map_pos;
              },
              refl,
            ))
        | inr (inr (inr (i, idx, bitmap, e))) ↦
            subst (IsAnswer p n) (sym (answer_found p size best le b.1 i idx bitmap e)) (
              inr (
                omega (arith, v.map_pos),
                granted p n best i idx bitmap v b.2 le
                    (of_found i idx bitmap (subst (GoodEnd p.nr_blocks p.bitmap n) e good)),
              ))
      ]
]
  where
    n : ℕ
    n = size_to_blocks size

    of_none : GoodEnd p.nr_blocks p.bitmap n out_of_rounds → ⊥
    of_none h = h

    of_found :
        (i idx : ℕ) (bitmap : List ℕ)
        → GoodEnd p.nr_blocks p.bitmap n (found i idx bitmap)
        → IsTaken p.nr_blocks p.bitmap n i idx bitmap
    of_found i idx bitmap h = h

-- `__smalloc_pool` on a well-formed pool, asked for at least one byte and less than 4 GiB. When it
-- returns an address, this is the address of blocks inside the pool that were all free; they are taken,
-- every other block stays as it was, the count of free blocks drops by their number, and the pool is
-- well-formed again.
pub smalloc_blocks-IsGranted :
    (p : Pool) (size ptr : ℕ) (p' : Pool)
    → IsPool p
    → 0 < size
    → size < 2 ^ 32
    → smalloc_blocks p size ≡ some (ptr, p')
    → ptr ≢ 0
    → IsGranted p (size_to_blocks size) ptr p'
unfolding IsAnswer
smalloc_blocks-IsGranted p size ptr p' v pos small h ne =
    elim (subst (IsAnswer p (size_to_blocks size)) h (smalloc_blocks-IsAnswer p size v pos small)) [
      | inl null ↦ absurd (ne null.0)
      | inr granted ↦ granted.1
    ]

size_to_blocks_pos : (size : ℕ) → 0 < size → 0 < size_to_blocks size
unfolding size_to_blocks
size_to_blocks_pos size pos = omega arith

-- A block is not taken twice.
granted_disjoint :
    (p p' p'' : Pool) (n n' ptr ptr' : ℕ)
    → 0 < n
    → 0 < n'
    → IsGranted p n ptr p'
    → IsGranted p' n' ptr' p''
    → (ptr + n * 32 ≤ ptr') ⊎ (ptr' + n' * 32 ≤ ptr)
granted_disjoint p p' p'' n n' ptr ptr' pos pos' g g' = elim (dec_lt ptr' (ptr + n * 32)) [
  | no behind ↦ inl (omega arith)
  | yes before ↦ elim (dec_lt ptr (ptr' + n' * 32)) [
    | no earlier ↦ inr (omega arith)
    | yes overlap ↦ absurd (
        apart (max b b') (omega arith) (omega arith)
          (omega (arith, g.address, g'.address, g.same_map))
          (omega (arith, g.address, g'.address, g.same_map)))
  ]
]
  where
    b : ℕ
    b = g.word * 32 + g.idx

    b' : ℕ
    b' = g'.word * 32 + g'.idx

    apart : (m : ℕ) → b ≤ m → b' ≤ m → m < b + n → m < b' + n' → ⊥
    apart m le le' lt lt' = omega (
      arith,
      g.taken.taken.inside (m / 32) (m % 32) (omega arith) (omega arith) (omega arith),
      g'.taken.free (m / 32) (m % 32) (omega arith) (omega arith) (omega arith),
    )

-- Two addresses that a well-formed pool returns one after the other, for requests of at least one byte
-- and less than 4 GiB, are those of separate areas: the blocks of one end before those of the other begin.
pub smalloc_blocks_disjoint :
    (p : Pool) (size size' ptr ptr' : ℕ) (p' p'' : Pool)
    → IsPool p
    → 0 < size
    → size < 2 ^ 32
    → 0 < size'
    → size' < 2 ^ 32
    → smalloc_blocks p size ≡ some (ptr, p')
    → ptr ≢ 0
    → smalloc_blocks p' size' ≡ some (ptr', p'')
    → ptr' ≢ 0
    → (ptr + size_to_blocks size * 32 ≤ ptr') ⊎ (ptr' + size_to_blocks size' * 32 ≤ ptr)
smalloc_blocks_disjoint p size size' ptr ptr' p' p'' v pos small pos' small' h ne h' ne' =
    let g = smalloc_blocks-IsGranted p size ptr p' v pos small h ne in
    let g' = smalloc_blocks-IsGranted p' size' ptr' p'' g.valid pos' small' h' ne' in
    granted_disjoint p p' p'' _ _ ptr ptr' (size_to_blocks_pos size pos)
      (size_to_blocks_pos size' pos') g g'
