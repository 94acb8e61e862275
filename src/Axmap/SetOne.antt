-- ===== src/Axmap/SetOne.antt =====
-- lib/axmap.c: `__axmap_set` and `axmap_set` as changes of the set.
use native.Mathlib.Decide.{ℕ_discrete}
use raptor_mark.Common.{
  ℕ, suc, ◌+◌, ◌/◌, ◌%◌, ◌^◌, ◌≤◌, ◌<◌, ◌≡◌, ◌≢◌, refl, ap, sym, ◌∙◌, ◌⊎◌, inr, arith, ge→ltb,
  eq→==, if◌then◌else◌, List, [], ◌∷◌, length,
}
use raptor_mark.Common.Bits.{bit, bit-lt-two}
use raptor_mark.Axmap.{
  AxmapLevel, Axmap, SetData, handler_loop, axmap_set_fn, store_mask, mask_of, axmap_set_data,
  axmap_set,
}
use raptor_mark.Axmap.Digits.{run, run-le, run_clear, run_ends}
use raptor_mark.Axmap.Runs.{run_cong}
use raptor_mark.Axmap.Layout.{IsChain, IsAxmap, digit, digits_of, member, word_at}
use raptor_mark.Axmap.SetWord.{axmap_set_fn-free, axmap_set_fn-busy, free}
use raptor_mark.Axmap.SetLevels.{IsSetAt, set_level, handler_loop-suc}

-- `after` is well formed, of the same size, and holds the numbers of `before` and the `r` numbers
-- from `n` on.
pub record IsAdded (before : Axmap) (n r : ℕ) (after : Axmap) : Type 0 where
  pub valid : IsAxmap after
  pub same_size : after.nr_bits ≡ before.nr_bits
  pub inside : (m : ℕ) → n ≤ m → m < n + r → member after m ≡ 1
  pub outside : (m : ℕ) → (m < n) ⊎ (n + r ≤ m) → member after m ≡ member before m

low-lt : (n : ℕ) → n % 64 < 64
low-lt n = omega arith

-- A request within one word, by the digits of the word and by those of the level.
free-eq-run :
    (al : AxmapLevel) (n k : ℕ) (fits : word_at al (n / 64) < 2 ^ 64) (pos : 0 < k)
    → n % 64 + k ≤ 64
    → free al (n / 64) (n % 64) (record { nr_bits = k; set_bits = 0 }) fits (low-lt n) pos
      ≡ run (digit al) n k
unfolding free
free-eq-run al n k fits pos within =
    ap (run (bit w) (n % 64)) (omega arith) ∙ run_cong (bit w) (digit al) (n % 64) n k same
  where
    w : ℕ
    w = word_at al (n / 64)

    same : (j : ℕ) → j < k → bit w (n % 64 + j) ≡ digit al (n + j)
    same j lt =
        let q : (n + j) / 64 ≡ n / 64 = omega arith in
        let m : (n + j) % 64 ≡ n % 64 + j = omega arith in sym (λ i. bit (word_at al (q i)) (m i))

-- One word's share of a request: the run of numbers not in the set.
sweep :
    (nr_bits n k : ℕ) (al : AxmapLevel) (rest : List AxmapLevel)
    → IsChain 0 nr_bits (al ∷ rest)
    → 0 < k
    → n % 64 + k ≤ 64
    → n < nr_bits
    → let s =
        handler_loop axmap_set_fn
          (suc (length rest))
          (al ∷ rest)
          n
          (record { nr_bits = k; set_bits = 0 }) in
      IsSetAt 0 nr_bits n (run (digit al) n k) (al ∷ rest) s.1 × (s.2.set_bits ≡ run (digit al) n k)
sweep nr_bits n k al rest v pos fits lt = elim (ℕ_discrete r 0) [
  | yes is_busy ↦
      rw
        (
          handler_loop-suc (length rest) n al rest d _ (
              axmap_set_fn-busy al (n / 64) (n % 64) d words (low-lt n) pos (same_run ∙ is_busy)
                refl),
          is_busy,
        )
        (
          record {
            chain = v;
            same_length = refl;
            inside = λ m p q. absurd (omega arith);
            outside = λ m out. refl;
          },
          refl,
        )
  | no is_free ↦
      let s =
        set_level rest 0 nr_bits n r al d v lt (omega (arith, run-le (digit al) n k))
          (run_clear (digit al) n k n (omega arith) (omega arith))
          (axmap_set_fn-free al (n / 64) (n % 64) d words (low-lt n) pos
              (λ z. is_free (sym same_run ∙ z))
            ∙ ap (λ (t : ℕ). store_mask al (n / 64) t (mask_of t (n % 64)) d) same_run) in
      (s.0, s.1 ∙ ap (λ b. if b then r else 0) (eq→== _ _ v.0.level))
]
  where
    d : SetData
    d = record { nr_bits = k; set_bits = 0 }

    words : word_at al (n / 64) < 2 ^ 64
    words = v.0.words (n / 64)

    r : ℕ
    r = run (digit al) n k

    same_run : free al (n / 64) (n % 64) d words (low-lt n) pos ≡ r
    same_run = free-eq-run al n k words pos fits

-- The request through `__axmap_set`.
sweep_levels :
    (count nr_bits n k : ℕ) (levels : List AxmapLevel)
    → count ≡ length levels
    → 0 < count
    → IsChain 0 nr_bits levels
    → 0 < k
    → n % 64 + k ≤ 64
    → n < nr_bits
    → let s = handler_loop axmap_set_fn count levels n (record { nr_bits = k; set_bits = 0 }) in
      IsSetAt 0 nr_bits n (run (digits_of levels) n k) levels s.1
      × (s.2.set_bits ≡ run (digits_of levels) n k)
sweep_levels count nr_bits n k [] same some_level v pos fits lt = absurd (omega arith)
sweep_levels count nr_bits n k (al ∷ rest) same some_level v pos fits lt =
    rw same (sweep nr_bits n k al rest v pos fits lt)

pub axmap_set_data_lem :
    (axmap : Axmap) (n k : ℕ)
    → IsAxmap axmap
    → 0 < k
    → n % 64 + k ≤ 64
    → n < axmap.nr_bits
    → let s = axmap_set_data axmap n (record { nr_bits = k; set_bits = 0 }) in
      IsAdded axmap n (run (member axmap) n k) s.0 × (s.1.set_bits ≡ run (member axmap) n k)
unfolding axmap_set_data
axmap_set_data_lem axmap n k v pos fits lt =
    let s =
      sweep_levels axmap.nr_levels axmap.nr_bits n k axmap.levels v.count v.some_level v.chain pos
        fits lt in
    rw (ge→ltb axmap.nr_bits n (omega arith)) (
      record {
        valid = record {
          count = v.count ∙ sym s.0.same_length;
          some_level = v.some_level;
          chain = s.0.chain;
          small = v.small;
        };
        same_size = refl;
        inside = s.0.inside;
        outside = s.0.outside;
      },
      s.1,
    )

pub digits_of-lt-two : (levels : List AxmapLevel) (n : ℕ) → digits_of levels n < 2
digits_of-lt-two [] n = omega arith
digits_of-lt-two (al ∷ levels) n = bit-lt-two (word_at al (n / 64)) (n % 64)

-- On a well-formed map and a number below its size, `axmap_set` adds that number and no other, and
-- the map stays well formed.
pub axmap_set_lem :
    (axmap : Axmap) (n : ℕ)
    → IsAxmap axmap
    → n < axmap.nr_bits
    → IsAxmap (axmap_set axmap n)
      × (member (axmap_set axmap n) n ≡ 1)
      × ((m : ℕ) → m ≢ n → member (axmap_set axmap n) m ≡ member axmap m)
unfolding axmap_set
axmap_set_lem axmap n v lt = (
  added.valid,
  here (ℕ_discrete r 0),
  λ m ne. added.outside m (omega (arith, run-le (member axmap) n 1)),
)
  where
    r : ℕ
    r = run (member axmap) n 1

    added : IsAdded axmap n r (axmap_set axmap n)
    added = (axmap_set_data_lem axmap n 1 v (omega arith) (omega arith) lt).0

    here : Dec (r ≡ 0) → member (axmap_set axmap n) n ≡ 1
    here (yes none) =
        let was_set : member axmap n ≢ 0 = λ z.
          run_ends (member axmap) n 1 (omega (arith, none))
            (ap (member axmap) (omega (arith, none)) ∙ z) in
        omega (
          arith,
          was_set,
          added.outside n (inr (omega (arith, none))),
          digits_of-lt-two axmap.levels n,
        )
    here (no one) = added.inside n (omega arith) (omega (arith, one))
