-- ===== src/Axmap/Isset.antt =====
-- lib/axmap.c: `axmap_isset` and the set that a map stands for.
use native.Mathlib.Nat.{div-div-eq-div-mul}
use native.Mathlib.Decide.{ℕ_discrete}
use raptor_mark.Common.{
  ℕ, zero, suc, ◌+◌, ◌*◌, ◌/◌, ◌%◌, ◌^◌, ◌<◌, ◌≡◌, refl, ap, sym, ◌∙◌, Bool, true, false, ◌||◌,
  List, [], ◌∷◌, length, arith, bit_and, ◌==◌, if◌then◌else◌, eq→==, ne→==, le→leb,
}
use raptor_mark.Common.Bits.{bit, bit-lt-two, bit-mask_low, two_pow-suc}
use raptor_mark.Axmap.{AxmapLevel, Axmap, level_at, topdown_loop, axmap_isset_fn, axmap_isset}
use raptor_mark.Axmap.Digits.{axmap_isset_fn-true, axmap_isset_fn-false}
use raptor_mark.Axmap.Layout.{IsChain, IsAxmap, digit, digits_of, member, low_bits, full, word_at}

-- `n >> (6 * (i + 1))` is `(n >> 6) >> (6 * i)`.
pub shift-suc : (n i : ℕ) → n / 2 ^ (6 * suc i) ≡ n / 64 / 2 ^ (6 * i)
shift-suc n i =
    ap (λ (t : ℕ). n / t)
      (ap (λ (t : ℕ). 2 ^ t) six
        ∙ omega (
          arith,
          two_pow-suc (suc (suc (suc (suc (suc k))))),
          two_pow-suc (suc (suc (suc (suc k)))),
          two_pow-suc (suc (suc (suc k))),
          two_pow-suc (suc (suc k)),
          two_pow-suc (suc k),
          two_pow-suc k,
        ))
    ∙ sym (div-div-eq-div-mul n 64 (2 ^ k))
  where
    k : ℕ
    k = 6 * i

    six : 6 * suc i ≡ suc (suc (suc (suc (suc (suc k)))))
    six = omega arith

-- The test of one level, at the digit `n` there.
abbrev at_digit : (AxmapLevel → ℕ → ℕ → Bool) → AxmapLevel → ℕ → Bool
at_digit func al n = func al (n / 64) (bit_and n 63)

same_test : (b : Bool) → (if b then true else false) ≡ b
same_test true = refl
same_test false = refl

regroup : (t x y c : Bool) → x ≡ y || c → (if t then true else x) ≡ (if t then true else y) || c
regroup true x y c e = refl
regroup false x y c e = e

topdown_loop-cons :
    (func : AxmapLevel → ℕ → ℕ → Bool) (k : ℕ) (al : AxmapLevel) (levels : List AxmapLevel) (n : ℕ)
    → topdown_loop func (suc k) (al ∷ levels) n
      ≡ topdown_loop func k levels (n / 64) || at_digit func al n
unfolding topdown_loop level_at
topdown_loop-cons func zero al levels n =
    let e : n / 2 ^ (6 * 0) ≡ n = omega arith in rw e (same_test (at_digit func al n))
topdown_loop-cons func (suc k) al levels n =
    rw (shift-suc n k) (regroup _ _ _ _ (topdown_loop-cons func k al levels n))

at_digit-isset : (al : AxmapLevel) (n : ℕ) → at_digit axmap_isset_fn al n ≡ (digit al n == 1)
at_digit-isset al n = rw (low_bits n) (elim (ℕ_discrete (digit al n) 1) [
  | yes set ↦ axmap_isset_fn-true al (n / 64) (n % 64) set ∙ sym (eq→== _ _ set)
  | no not_set ↦
      let clear : digit al n ≡ 0 = omega (arith, bit-lt-two (word_at al (n / 64)) (n % 64)) in
      axmap_isset_fn-false al (n / 64) (n % 64) clear ∙ sym (ne→== _ _ not_set)
])

-- A full word has every digit.
pub digit_of_full : (al : AxmapLevel) (n : ℕ) → word_at al (n / 64) ≡ full → digit al n ≡ 1
digit_of_full al n e = ap (λ (w : ℕ). bit w (n % 64)) e ∙ bit-mask_low 64 (n % 64) (omega arith)

-- The levels above repeat what level zero says.
topdown_loop-isset :
    (i nr_bits : ℕ) (al : AxmapLevel) (levels : List AxmapLevel) (n : ℕ)
    → IsChain i nr_bits (al ∷ levels)
    → n < nr_bits
    → topdown_loop axmap_isset_fn (suc (length levels)) (al ∷ levels) n ≡ (digit al n == 1)
topdown_loop-isset i nr_bits al [] n h lt =
    topdown_loop-cons axmap_isset_fn 0 al [] n ∙ unfold topdown_loop in at_digit-isset al n
topdown_loop-isset i nr_bits al (hi ∷ levels) n h lt =
    topdown_loop-cons axmap_isset_fn (suc (length levels)) al (hi ∷ levels) n
    ∙ ap (λ (b : Bool). b || at_digit axmap_isset_fn al n)
        (topdown_loop-isset (i + 1) al.map_size hi levels (n / 64) h.2 inside)
    ∙ elim (ℕ_discrete (digit hi (n / 64)) 1) [
      | yes set ↦
          ap (λ (b : Bool). b || at_digit axmap_isset_fn al n) (eq→== _ _ set)
          ∙ sym (eq→== _ _ (digit_of_full al n (is_full set)))
      | no clear ↦
          ap (λ (b : Bool). b || at_digit axmap_isset_fn al n) (ne→== _ _ clear)
          ∙ at_digit-isset al n
    ]
  where
    inside : n / 64 < al.map_size
    inside = omega (arith, h.0.size)

    is_full : digit hi (n / 64) ≡ 1 → word_at al (n / 64) ≡ full
    is_full set = elim (ℕ_discrete (word_at al (n / 64)) full) [
      | yes e ↦ e
      | no ne ↦ absurd (omega (arith, set, h.1.clear (n / 64) inside ne))
    ]

whole :
    (nr_bits : ℕ) (levels : List AxmapLevel) (n : ℕ)
    → 0 < length levels
    → IsChain 0 nr_bits levels
    → n < nr_bits
    → topdown_loop axmap_isset_fn (length levels) levels n ≡ (digits_of levels n == 1)
whole nr_bits [] n h v lt = absurd (omega arith)
whole nr_bits (al ∷ levels) n h v lt = topdown_loop-isset 0 nr_bits al levels n v lt

-- On a well-formed map and a number below its size, `axmap_isset` is true exactly for the numbers
-- in the set.
pub axmap_isset-eq-member :
    (axmap : Axmap) (n : ℕ)
    → IsAxmap axmap
    → n < axmap.nr_bits
    → axmap_isset axmap n ≡ (member axmap n == 1)
unfolding axmap_isset
axmap_isset-eq-member axmap n v lt = rw (le→leb n axmap.nr_bits (omega arith)) (
    ap (λ (k : ℕ). topdown_loop axmap_isset_fn k axmap.levels n) v.count
    ∙ whole axmap.nr_bits axmap.levels n (omega (arith, v.count)) v.chain lt)
