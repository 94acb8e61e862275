-- ===== src/Offset/Cover.antt =====
-- Random I/O of one block size with a random map: drawing a block (`__get_next_rand_offset`) and
-- marking it (`mark_random_map`), again and again.
use native.Mathlib.Decide.{ℕ_discrete}
use native.Mathlib.Nat.{mul-le-mul_right, mul-div_cancel, add-mul-div_right, div-eq_of_lt}
use raptor_mark.Common.{
  ℕ, zero, suc, ◌+◌, ◌-◌, ◌*◌, ◌/◌, ◌^◌, ◌≤◌, ◌<◌, ◌≡◌, ◌≢◌, refl, ap, ap₂, sym, subst, ◌∙◌, inl,
  inr, Bool, true, false, ◌||◌, arith, Option, none, some, ◌==◌, eq→==, ne→==, Option-cases,
  some_injective, List, [], ◌∷◌, length,
}
use raptor_mark.Common.Count.{free_count}
use raptor_mark.Axmap.{Axmap}
use raptor_mark.Axmap.Digits.{run, run_unique}
use raptor_mark.Axmap.Layout.{IsAxmap, member}
use raptor_mark.Axmap.SetOne.{IsAdded, digits_of-lt-two}
use raptor_mark.Axmap.Candidates.{AllSet}
use raptor_mark.Offset.{Ddir, Options, FioFile, mark_random_map, next_rand_offset}
use raptor_mark.Offset.Mark.{mark_random_map_lem}
use raptor_mark.Offset.Random.{IsGiven, next_rand_offset_lem}

free_count_zero : (f : ℕ → ℕ) (n : ℕ) → ((m : ℕ) → f m < 2) → free_count f n ≡ 0 → AllSet f 0 n
unfolding free_count
free_count_zero f zero two e m p q = absurd (omega arith)
free_count_zero f (suc n) two e m p q = elim (ℕ_discrete m n) [
  | yes last ↦ ap f last ∙ omega (arith, two n)
  | no ne ↦ free_count_zero f n two (omega arith) m p (omega arith)
]

free_count-AllSet : (f : ℕ → ℕ) (n : ℕ) → AllSet f 0 n → free_count f n ≡ 0
unfolding free_count
free_count-AllSet f zero h = refl
free_count-AllSet f (suc n) h =
    omega
      (arith, free_count-AllSet f n (λ m p q. h m p (omega arith)), h n (omega arith) (omega arith))

free_count_same :
    (f g : ℕ → ℕ) (n : ℕ) → ((m : ℕ) → m < n → f m ≡ g m) → free_count f n ≡ free_count g n
unfolding free_count
free_count_same f g zero h = refl
free_count_same f g (suc n) h =
    omega (arith, free_count_same f g n (λ m q. h m (omega arith)), h n (omega arith))

free_count_less :
    (f g : ℕ → ℕ) (n b : ℕ)
    → b < n
    → f b ≡ 0
    → g b ≡ 1
    → ((m : ℕ) → m ≢ b → g m ≡ f m)
    → free_count f n ≡ suc (free_count g n)
unfolding free_count
free_count_less f g zero b lt p q h = absurd (omega arith)
free_count_less f g (suc n) b lt p q h = elim (ℕ_discrete b n) [
  | yes last ↦ omega (
    arith,
    ap f (sym last) ∙ p,
    ap g (sym last) ∙ q,
    free_count_same f g n (λ m lt'. sym (h m (omega (arith, last)))),
  )
  | no ne ↦ omega (arith, free_count_less f g n b (omega arith) p q h, h n (λ e. ne (sym e)))
]

unfoldable pub contains : ℕ → List ℕ → Bool
contains m [] = false
contains m (b ∷ blocks) = (m == b) || contains m blocks

module _ {S : Type 0} (next : ℕ → S → Option ℕ × S) (reset : S → S) (o : Options) (f : FioFile)
    (ddir : Ddir) (lastb : ℕ) where
  -- `n` I/Os of one block each: the blocks, the map and the generator behind them.
  unfoldable pub drive : ℕ → Axmap → S → Option (List ℕ × Axmap × S)
  drive zero axmap s = some ([], axmap, s)
  drive (suc n) axmap s =
      let drawn = next_rand_offset next reset o (record f { io_axmap = some axmap }) lastb s in
      elim drawn.0 [
        | none ↦ none
        | some b ↦
            elim (mark_random_map o ddir false f.file_offset axmap
              (f.file_offset + b * o.min_bs ddir) (o.min_bs ddir)) [
                | none ↦ none
                | some (buflen, after) ↦ elim (drive n after drawn.1) [
                  | none ↦ none
                  | some (blocks, last, s') ↦ some (b ∷ blocks, last, s')
                ]
              ]
      ]

  -- What `n` I/Os leave.
  abbrev pub IsCovered : ℕ → Axmap → S → Type 0
  IsCovered n axmap s =
      (blocks : List ℕ) × (last : Axmap) × (s' : S) × (drive n axmap s ≡ some (blocks, last, s'))
      × (length blocks ≡ n)
      × AllSet (member last) 0 axmap.nr_bits
      × ((m : ℕ) → m < axmap.nr_bits → member axmap m ≡ 0 → contains m blocks ≡ true)

  marked :
      (axmap : Axmap) (b : ℕ)
      → IsAxmap axmap
      → b < axmap.nr_bits
      → member axmap b ≡ 0
      → 0 < o.min_bs ddir
      → f.file_offset + axmap.nr_bits * o.min_bs ddir < 2 ^ 63
      → (buflen : ℕ) × (after : Axmap) × (mark_random_map o ddir false f.file_offset axmap
            (f.file_offset + b * o.min_bs ddir)
            (o.min_bs ddir)
          ≡ some (buflen, after))
        × IsAdded axmap b 1 after
  marked axmap b v lt free bs small =
      let k = o.min_bs ddir in
      let step : b * k + k ≤ axmap.nr_bits * k =
        subst (λ (t : ℕ). t ≤ axmap.nr_bits * k) (omega arith)
          (mul-le-mul_right {m = suc b} {n = axmap.nr_bits} k lt) in
      let at : (f.file_offset + b * k - f.file_offset) / k ≡ b =
        ap (λ (t : ℕ). t / k) (omega arith) ∙ mul-div_cancel b bs in
      let one : (k + k - 1) / k ≡ 1 =
        ap (λ (t : ℕ). t / k) (omega arith)
        ∙ add-mul-div_right (k - 1) 1 bs
        ∙ ap (λ (t : ℕ). t + 1) (div-eq_of_lt (omega arith)) in
      let whole : run (member axmap) ((f.file_offset + b * k - f.file_offset) / k) ((k + k - 1) / k)
          ≡ 1 =
        ap₂ (run (member axmap)) at one
        ∙ run_unique (member axmap) b 1 1 (omega arith)
            (λ i p q. ap (member axmap) (omega arith) ∙ free) (inl refl) in
      elim (mark_random_map_lem o ddir f.file_offset (f.file_offset + b * k) k axmap v bs
        (omega arith) (omega (arith, step)) bs (omega (arith, step)) (omega (arith, one))
        (omega (arith, at, one))) [
          | inl taken ↦ absurd (omega (arith, taken.0, ap (member axmap) at, free))
          | inr s ↦ (_, s.2, s.3, coe 0 1 (i. IsAdded axmap (at i) (whole i) s.2) s.4)
        ]

  abbrev with_map : Axmap → FioFile
  with_map axmap = record f { io_axmap = some axmap }

  -- While something is free, the next block is a free one.
  pick :
      (axmap : Axmap) (s : S)
      → o.norandommap ≡ false
      → ((s : S) → (b : ℕ) × ((next lastb s).0 ≡ some b) × (b < axmap.nr_bits))
      → IsAxmap axmap
      → free_count (member axmap) axmap.nr_bits ≢ 0
      → (b : ℕ) × ((next_rand_offset next reset o (with_map axmap) lastb s).0 ≡ some b)
        × (b < axmap.nr_bits)
        × (member axmap b ≡ 0)
  pick axmap s keeps draws v left = elim (Option-cases result) [
    | inl nothing ↦ absurd (
        left (
          free_count-AllSet (member axmap) axmap.nr_bits
            (subst (IsGiven axmap (some (draws s).0)) nothing given)))
    | inr (b, e) ↦
        let found = subst (IsGiven axmap (some (draws s).0)) e given in (b, e, found.0, found.1)
  ]
    where
      result : Option ℕ
      result = (next_rand_offset next reset o (with_map axmap) lastb s).0

      in_range : (b : ℕ) → (next lastb s).0 ≡ some b → b < axmap.nr_bits
      in_range b e =
          subst (λ (t : ℕ). t < axmap.nr_bits) (some_injective (sym (draws s).1 ∙ e)) (draws s).2

      given : IsGiven axmap (some (draws s).0) result
      given =
          subst (λ (d : Option ℕ). IsGiven axmap d result) (draws s).1
            (next_rand_offset_lem o (with_map axmap) axmap next reset lastb s in_range refl keeps v)

  -- With a random map in use, blocks of one byte at least, a map that ends below 2^63 bytes, and a
  -- generator that always draws a block of the map: on a well-formed map with n free blocks, n I/Os
  -- of one block each, which draw a block (__get_next_rand_offset) and mark it (mark_random_map),
  -- all get a block; these include all that were free, and no block is free behind them.
  pub drive_lem :
      (n : ℕ) (axmap : Axmap) (s : S)
      → o.norandommap ≡ false
      → 0 < o.min_bs ddir
      → f.file_offset + axmap.nr_bits * o.min_bs ddir < 2 ^ 63
      → ((s : S) → (b : ℕ) × ((next lastb s).0 ≡ some b) × (b < axmap.nr_bits))
      → IsAxmap axmap
      → free_count (member axmap) axmap.nr_bits ≡ n
      → IsCovered n axmap s
  unfolding drive contains next_rand_offset
  drive_lem zero axmap s keeps bs small draws v count =
      let all =
        free_count_zero (member axmap) axmap.nr_bits (digits_of-lt-two axmap.levels) count in
      (
        [],
        axmap,
        s,
        refl,
        refl,
        all,
        λ m lt free. absurd (omega (arith, all m (omega arith) lt, free)),
      )
  drive_lem (suc n) axmap s keeps bs small draws v count =
      let p = pick axmap s keeps draws v (omega (arith, count)) in
      let b = p.0 in
      let k = marked axmap b v p.2 p.3 bs small in
      let after = k.1 in
      let added = k.3 in
      let one_less : free_count (member axmap) axmap.nr_bits
          ≡ suc (free_count (member after) axmap.nr_bits) =
        free_count_less (member axmap) (member after) axmap.nr_bits b p.2 p.3
          (added.inside b (omega arith) (omega arith)) (λ m ne. added.outside m (omega arith)) in
      let rest =
        drive_lem n after (next_rand_offset next reset o (with_map axmap) lastb s).1 keeps bs
          (omega (arith, ap (λ (t : ℕ). t * o.min_bs ddir) added.same_size, small))
          (λ s. ((draws s).0, (draws s).1, omega (arith, (draws s).2, added.same_size))) added.valid
          (ap (free_count (member after)) added.same_size ∙ omega (arith, one_less, count)) in
      rw (p.1, k.2, rest.3)
        (
          b ∷ rest.0,
          rest.1,
          rest.2,
          refl,
          ap suc rest.4,
          λ m p q. rest.5 m p (omega (arith, added.same_size)),
          λ m lt free. elim (ℕ_discrete m b) [
            | yes here ↦ rw (eq→== m b here) refl
            | no ne ↦
                rw (ne→== m b ne)
                  (rest.6 m (omega (arith, added.same_size)) (added.outside m (omega arith) ∙ free))
          ],
        )
