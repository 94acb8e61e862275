-- ===== src/Smalloc/Search.antt =====
-- smalloc.c: the loop of `__smalloc_pool`.
use native.Mathlib.Decide.{dec_lt, ℕ_discrete}
use raptor_mark.Common.{
  ℕ, zero, suc, ◌+◌, ◌*◌, ◌/◌, ◌^◌, ◌≤◌, ◌<◌, ◌≡◌, ◌≢◌, refl, sym, subst, arith, ◌⊎◌, inl, inr,
  Bool, true, false, none, some, List, length, get_or, eq→==, ne→==, gt→leb, le→leb, lt→ltb, ge→ltb,
  u32, Option-cases,
}
use raptor_mark.Smalloc.{
  all_busy, mask_cmp, mask_set, blocks_iter, find_next_zero, Outcome, out_of_rounds, undefined,
  exhausted, found, search_loop,
}
use raptor_mark.Smalloc.Blocks.{WordsFit, AllBlocks, IsChanged, mask_set-IsMaskChange}
use raptor_mark.Smalloc.Rounds.{blocks_iter-IsChanged}
use raptor_mark.Smalloc.Compare.{blocks_iter_undefined, compare_free}
use raptor_mark.Smalloc.Zero.{find_next_zero-le}

-- The blocks from digit `idx` of word `i` on were free, and they alone are taken.
pub record IsTaken (words : ℕ) (bitmap : List ℕ) (n i idx : ℕ) (bitmap' : List ℕ) : Type 0 where
  pub i-lt : i < words
  pub idx-lt : idx < 32
  pub within : i * 32 + idx + n ≤ words * 32
  pub free : AllBlocks bitmap (i * 32 + idx) n 0
  pub taken : IsChanged bitmap (i * 32 + idx) n 1 bitmap'

-- What a search that has enough rounds ends with.
unfoldable pub GoodEnd : ℕ → List ℕ → ℕ → Outcome → Type 0
GoodEnd words bitmap n out_of_rounds = ⊥
GoodEnd words bitmap n undefined = Unit
GoodEnd words bitmap n exhausted = Unit
GoodEnd words bitmap n (found i idx bitmap') = IsTaken words bitmap n i idx bitmap'

-- A round at a word that is not full, by the answer of `blocks_free`.
module _ (rounds words : ℕ) (bitmap : List ℕ) (n i last_idx idx : ℕ) (i-lt : i < words)
    (busy-ne : get_or bitmap i 0 ≢ all_busy)
    (at : find_next_zero (get_or bitmap i 0) last_idx ≡ some idx) where
  pub round_undefined :
      blocks_iter mask_cmp n words bitmap i idx n ≡ none
      → search_loop (suc rounds) words bitmap n i last_idx ≡ undefined
  unfolding search_loop
  round_undefined h =
      rw (gt→leb words i i-lt) (rw (ne→== (get_or bitmap i 0) all_busy busy-ne) (rw at (rw h refl)))

  pub round_taken :
      (same bitmap' : List ℕ) (done : Bool)
      → blocks_iter mask_cmp n words bitmap i idx n ≡ some (true, same)
      → blocks_iter mask_set n words bitmap i idx n ≡ some (done, bitmap')
      → search_loop (suc rounds) words bitmap n i last_idx ≡ found i idx bitmap'
  unfolding search_loop
  round_taken same bitmap' done h g =
      rw (gt→leb words i i-lt)
        (rw (ne→== (get_or bitmap i 0) all_busy busy-ne) (rw at (rw h (rw g refl))))

  -- The search goes on behind the blocks that do not fit.
  round_missed :
      (same : List ℕ)
      → idx + n < 2 ^ 32
      → blocks_iter mask_cmp n words bitmap i idx n ≡ some (false, same)
      → (i' : ℕ) × (last_idx' : ℕ) × (search_loop (suc rounds) words bitmap n i last_idx
          ≡ search_loop rounds words bitmap n i' last_idx')
        × (last_idx' < 32)
        × (i' * 32 + last_idx' ≤ i * 32 + idx + n)
        × ((i' ≡ i) × (last_idx' ≡ idx + n)
            ⊎ (i < i') × (last_idx' ≡ 0) × (i * 32 + idx + n < i' * 32 + 32))
  unfolding search_loop
  round_missed same small h = rw (gt→leb words i i-lt) (
      rw (ne→== (get_or bitmap i 0) all_busy busy-ne) (
        rw at (
          rw h (elim (dec_lt (u32 (idx + n)) 32) [
            | yes lt ↦
                rw (lt→ltb (u32 (idx + n)) 32 lt)
                  (i, u32 (idx + n), refl, lt, omega arith, inl (refl, omega arith))
            | no ge ↦ rw (ge→ltb (u32 (idx + n)) 32 (omega arith)) (
              i + u32 (idx + n) / 32,
              0,
              refl,
              omega arith,
              omega arith,
              inr (omega arith, refl, omega arith),
            )
          ]))))

search_end :
    (rounds words : ℕ) (bitmap : List ℕ) (n i last_idx : ℕ)
    → words ≤ i
    → search_loop (suc rounds) words bitmap n i last_idx ≡ exhausted
unfolding search_loop
search_end rounds words bitmap n i last_idx h = rw (le→leb words i h) refl

search_full :
    (rounds words : ℕ) (bitmap : List ℕ) (n i last_idx : ℕ)
    → i < words
    → get_or bitmap i 0 ≡ all_busy
    → search_loop (suc rounds) words bitmap n i last_idx
      ≡ search_loop rounds words bitmap n (i + 1) 0
unfolding search_loop
search_full rounds words bitmap n i last_idx h e =
    rw (gt→leb words i h) (rw (eq→== (get_or bitmap i 0) all_busy e) refl)

module _ (words : ℕ) (bitmap : List ℕ) (m : ℕ) (words_eq : length bitmap ≡ words)
    (fit : WordsFit bitmap) (small : suc m < 2 ^ 31) where
  -- Blocks that are free are taken as they are.
  taken :
      (i idx : ℕ) (same : List ℕ)
      → i < words
      → idx < 32
      → blocks_iter mask_cmp (suc m) words bitmap i idx (suc m) ≡ some (true, same)
      → (bitmap' : List ℕ) × (blocks_iter mask_set (suc m) words bitmap i idx (suc m)
          ≡ some (true, bitmap'))
        × IsTaken words bitmap (suc m) i idx bitmap'
  taken i idx same i-lt idx-lt h =
      let free =
        compare_free (suc m) words bitmap i idx (suc m) same (omega arith) idx-lt small h in
      let within : i * 32 + idx + suc m ≤ words * 32 = omega (arith, free.0) in
      let put =
        blocks_iter-IsChanged mask_set 0 1 mask_set-IsMaskChange (suc m) words bitmap i idx (suc m)
          (record {
            enough = omega arith;
            idx-lt = idx-lt;
            small = small;
            words_eq = words_eq;
            inside = within;
            fit = fit;
          })
          free.1 in
      (
        put.0,
        put.1,
        record { i-lt = i-lt; idx-lt = idx-lt; within = within; free = free.1; taken = put.2 },
      )

  -- One round, when those from a later block on end well.
  round-GoodEnd :
      (rounds i last_idx : ℕ)
      → i < words
      → last_idx < 32
      → get_or bitmap i 0 ≢ all_busy
      → ((i' last : ℕ)
          → last < 32
          → i * 32 + last_idx < i' * 32 + last
          → GoodEnd words bitmap (suc m) (search_loop rounds words bitmap (suc m) i' last))
      → GoodEnd words bitmap (suc m) (search_loop (suc rounds) words bitmap (suc m) i last_idx)
  unfolding GoodEnd
  round-GoodEnd rounds i last_idx i-lt last-lt part later = elim (dec_lt idx 32) [
    | no behind ↦
        subst Good
          (sym (
            round_undefined rounds words bitmap (suc m) i last_idx idx i-lt part z.1 (
              blocks_iter_undefined m words bitmap i idx (suc m) i-lt (omega arith)
                (omega (arith, z.3)) (omega arith) small)))
          tt
    | yes idx-lt ↦ elim (Option-cases (blocks_iter mask_cmp (suc m) words bitmap i idx (suc m))) [
      | inl e ↦
          subst Good
            (sym (round_undefined rounds words bitmap (suc m) i last_idx idx i-lt part z.1 e)) tt
      | inr ((true, same), e) ↦
          let t = taken i idx same i-lt idx-lt e in
          subst Good
            (sym (
              round_taken rounds words bitmap (suc m) i last_idx idx i-lt part z.1 same t.0 true e
                t.1))
            t.2
      | inr ((false, same), e) ↦
          let r =
            round_missed rounds words bitmap (suc m) i last_idx idx i-lt part z.1 same (omega arith)
              e in
          subst Good (sym r.2) (later r.0 r.1 r.3 (omega (arith, r.5, z.2)))
    ]
  ]
    where
      Good : Outcome → Type 0
      Good = GoodEnd words bitmap (suc m)

      z :
          (idx : ℕ) × (find_next_zero (get_or bitmap i 0) last_idx ≡ some idx)
          × (last_idx ≤ idx)
          × (idx < 96)
      z = find_next_zero-le (get_or bitmap i 0) last_idx (fit i) last-lt part

      idx : ℕ
      idx = z.0

  -- Every round is at a later block; as many rounds as there are blocks, and one for the end, are enough.
  pub search_loop-GoodEnd :
      (rounds i last_idx : ℕ)
      → last_idx < 32
      → 0 < rounds
      → words * 32 < rounds + (i * 32 + last_idx)
      → GoodEnd words bitmap (suc m) (search_loop rounds words bitmap (suc m) i last_idx)
  unfolding GoodEnd
  search_loop-GoodEnd zero i last_idx idx-lt some_left enough = absurd (omega arith)
  search_loop-GoodEnd (suc rounds) i last_idx last-lt some_left enough = elim (dec_lt i words) [
    | no past ↦
        subst (GoodEnd words bitmap (suc m))
          (sym (search_end rounds words bitmap (suc m) i last_idx (omega arith))) tt
    | yes i-lt ↦ elim (ℕ_discrete (get_or bitmap i 0) all_busy) [
      | yes full ↦
          subst (GoodEnd words bitmap (suc m))
            (sym (search_full rounds words bitmap (suc m) i last_idx i-lt full))
            (search_loop-GoodEnd rounds (i + 1) 0 (omega arith) (omega arith) (omega arith))
      | no part ↦
          round-GoodEnd rounds i last_idx i-lt last-lt part
            λ i' last lt after. search_loop-GoodEnd rounds i' last lt (omega arith) (omega arith)
    ]
  ]

-- The loop of `__smalloc_pool` ends: from any word on, a bitmap of `words` words is searched for `n`
-- blocks, at least one and less than 2 ^ 31, within `words * 32 + 1` rounds.
pub search_loop_ends :
    (words : ℕ) (bitmap : List ℕ) (n i : ℕ)
    → length bitmap ≡ words
    → WordsFit bitmap
    → 0 < n
    → n < 2 ^ 31
    → search_loop (words * 32 + 1) words bitmap n i 0 ≢ out_of_rounds
unfolding GoodEnd
search_loop_ends words bitmap zero i words_eq fit pos small h = absurd (omega arith)
search_loop_ends words bitmap (suc m) i words_eq fit pos small h = ended (
    subst (GoodEnd words bitmap (suc m)) h (
      search_loop-GoodEnd words bitmap m words_eq fit small (words * 32 + 1) i 0 (omega arith)
        (omega arith) (omega arith)))
  where
    ended : GoodEnd words bitmap (suc m) out_of_rounds → ⊥
    ended e = e
