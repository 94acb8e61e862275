-- ===== src/Axmap/SetWord.antt =====
-- lib/axmap.c: `axmap_set_fn` at one word.
use native.Mathlib.Decide.{dec_lt, ℕ_discrete}
use raptor_mark.Common.{
  ℕ, ◌+◌, ◌-◌, ◌^◌, ◌≤◌, ◌<◌, min, ◌≡◌, ◌≢◌, refl, ap, sym, ◌∙◌, ◌⊎◌, inl, inr, bit_and, not64, u32,
  Bool, true, arith, ◌==◌, eq→==, ne→==, if◌then◌else◌, get_or,
}
use raptor_mark.Common.Bits.{bit, bit-lt-two, bit-bit_and, bit-zero, bit_and-lt}
use raptor_mark.Ffz.{ffz, ffs64}
use raptor_mark.Ffz.Lowest.{ffz-not64, ffs64-IsLowest, IsLowest}
use raptor_mark.Axmap.{AxmapLevel, SetData, store_mask, mask_of, axmap_set_fn}
use raptor_mark.Axmap.Digits.{bit-mask_below, bit-mask_inside, bit-mask_above, run, run_unique}

module _ (al : AxmapLevel) (o b : ℕ) (d : SetData) (fits : get_or al.words o 0 < 2 ^ 64)
    (b-lt : b < 64) (some : 0 < d.nr_bits) where
  w : ℕ
  w = get_or al.words o 0

  -- The digits that are asked for, as far as the word goes.
  unfoldable pub asked : ℕ
  asked = min d.nr_bits (64 - b)

  unfoldable pub free : ℕ
  unfolding w asked
  free = run (bit w) b asked

  mask : ℕ
  unfolding asked
  mask = mask_of asked b

  overlap : ℕ
  unfolding w mask
  overlap = bit_and w mask

  asked_pos : 0 < asked
  unfolding asked
  asked_pos = omega arith

  pub asked-le : b + asked ≤ 64
  unfolding asked
  asked-le = omega arith

  bit-overlap_inside : (i : ℕ) → b ≤ i → i < b + asked → bit overlap i ≡ bit w i
  unfolding overlap
  bit-overlap_inside i le lt =
      omega
        (arith, bit-bit_and w mask i, bit-mask_inside asked b (omega arith) i le lt, bit-lt-two w i)

  bit-overlap_outside : (i : ℕ) → (i < b) ⊎ (b + asked ≤ i) → bit overlap i ≡ 0
  unfolding overlap
  bit-overlap_outside i (inl lt) =
      omega (arith, bit-bit_and w mask i, bit-mask_below asked b (omega arith) i lt)
  bit-overlap_outside i (inr ge) =
      omega (arith, bit-bit_and w mask i, bit-mask_above asked b (omega arith) i ge)

  overlap-lt : overlap < 2 ^ 64
  unfolding overlap w
  overlap-lt = bit_and-lt w mask 64 fits

  -- All of the mask is set.
  free_of_full : overlap ≡ mask → free ≡ 0
  unfolding free mask
  free_of_full e =
      run_unique (bit w) b asked 0 (omega arith) (λ i p q. absurd (omega arith)) (inr set)
    where
      set : bit w (b + 0) ≢ 0
      set z = omega (
        arith,
        z,
        bit-overlap_inside (b + 0) (omega arith) (omega (arith, asked_pos)),
        ap (λ (t : ℕ). bit t (b + 0)) e,
        bit-mask_inside asked b asked-le (b + 0) (omega arith) (omega (arith, asked_pos)),
      )

  -- None of it is.
  free_of_empty : overlap ≡ 0 → free ≡ asked
  unfolding free
  free_of_empty e =
      run_unique (bit w) b asked asked (omega arith)
        (λ i p q. sym (bit-overlap_inside i p q) ∙ ap (λ (t : ℕ). bit t i) e ∙ bit-zero i)
        (inl refl)

  lowest : overlap ≢ 0 → IsLowest overlap (ffs64 overlap)
  lowest ne = ffs64-IsLowest overlap overlap-lt ne

  lowest_bounds : overlap ≢ 0 → (b ≤ ffs64 overlap) × (ffs64 overlap < b + asked)
  lowest_bounds ne = (
    elim (dec_lt (ffs64 overlap) b) [
      | yes lt ↦
          absurd (omega (arith, (lowest ne).found, bit-overlap_outside (ffs64 overlap) (inl lt)))
      | no ge ↦ omega arith
    ],
    elim (dec_lt (ffs64 overlap) (b + asked)) [
      | yes lt ↦ lt
      | no ge ↦ absurd (
          omega (arith, (lowest ne).found, bit-overlap_outside (ffs64 overlap) (inr (omega arith))))
    ],
  )

  -- The lowest digit of the overlap ends the run.
  free_of_some : overlap ≢ 0 → free ≡ ffs64 overlap - b
  unfolding free
  free_of_some ne =
      run_unique (bit w) b asked k (omega (arith, lowest_bounds ne))
        (λ i p q.
          sym (bit-overlap_inside i p (omega (arith, lowest_bounds ne)))
          ∙ (lowest ne).below i (omega (arith, lowest_bounds ne)))
        (inr set)
    where
      k : ℕ
      k = ffs64 overlap - b

      set : bit w (b + k) ≢ 0
      set z =
          let at : b + k ≡ ffs64 overlap = omega (arith, lowest_bounds ne) in
          omega (
            arith,
            (lowest ne).found,
            bit-overlap_inside (ffs64 overlap) (lowest_bounds ne).0 (lowest_bounds ne).1,
            ap (bit w) at,
            z,
          )

  masked_some : overlap ≡ mask → overlap ≢ 0
  unfolding mask
  masked_some e z = omega (
    arith,
    bit-mask_inside asked b asked-le b (omega arith) (omega (arith, asked_pos)),
    ap (λ (t : ℕ). bit t b) (sym e ∙ z),
    bit-zero b,
  )

  clear_count : overlap ≢ 0 → u32 (ffz (not64 overlap) + 2 ^ 32 - b) ≡ free
  clear_count ne =
      ap (λ (k : ℕ). u32 (k + 2 ^ 32 - b)) (ffz-not64 overlap overlap-lt)
      ∙ omega (arith, lowest_bounds ne, free_of_some ne, asked-le)

  -- The cases of the code, by the mask and the overlap.
  by_cases : Bool → Bool → ℕ → Bool × AxmapLevel × SetData
  by_cases all_set none_set clear =
      if all_set
      then (true, al, record d { set_bits = 0 })
      else if none_set
      then store_mask al o asked (mask_of asked b) d
      else if clear == 0
      then (true, al, d)
      else store_mask al o clear (mask_of clear b) d

  set_fn_cases :
      axmap_set_fn al o b d
      ≡ by_cases (overlap == mask) (overlap == 0) (u32 (ffz (not64 overlap) + 2 ^ 32 - b))
  unfolding axmap_set_fn by_cases overlap mask asked w
  set_fn_cases = refl

  -- Where the first digit is set, nothing changes.
  pub axmap_set_fn-busy : free ≡ 0 → d.set_bits ≡ 0 → axmap_set_fn al o b d ≡ (true, al, d)
  unfolding by_cases
  axmap_set_fn-busy none start = set_fn_cases ∙ elim (ℕ_discrete overlap mask) [
    | yes same ↦ rw (eq→== _ _ same) (λ i. (true, al, record d { set_bits = sym start i }))
    | no other ↦ rw (ne→== _ _ other) (elim (ℕ_discrete overlap 0) [
      | yes z ↦ absurd (omega (arith, free_of_empty z, asked_pos))
      | no ne ↦ rw (ne→== _ _ ne, clear_count ne, none)
    ])
  ]

  -- Elsewhere the run is set.
  pub axmap_set_fn-free : free ≢ 0 → axmap_set_fn al o b d ≡ store_mask al o free (mask_of free b) d
  unfolding by_cases
  axmap_set_fn-free some_free = set_fn_cases ∙ elim (ℕ_discrete overlap mask) [
    | yes same ↦ absurd (some_free (free_of_full same))
    | no other ↦ rw (ne→== _ _ other) (elim (ℕ_discrete overlap 0) [
      | yes z ↦ rw (eq→== _ _ z, free_of_empty z)
      | no ne ↦ rw (ne→== _ _ ne, clear_count ne, ne→== _ _ some_free)
    ])
  ]
