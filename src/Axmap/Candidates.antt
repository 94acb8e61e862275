-- ===== src/Axmap/Candidates.antt =====
-- lib/axmap.c: the first word of a search, `~bit_masks[bit] & ~map[offset]`.
use native.Mathlib.Decide.{dec_lt}
use native.Mathlib.Nat.{pow-le-pow_right}
use raptor_mark.Common.{
  ℕ, ◌-◌, ◌^◌, ◌≤◌, ◌<◌, ◌≡◌, ◌≢◌, ap, sym, subst, ◌∙◌, arith, Option, none, some, get_or, not64,
  bit_and,
}
use raptor_mark.Common.Bits.{
  bit, bit-lt-two, bit-bit_and, bit-mask_low, bit_high, bit-complement, bit_and-lt, bit-zero,
  two_pow_pos,
}
use raptor_mark.Ffz.{ffz, ffs64}
use raptor_mark.Ffz.Lowest.{IsLowest, ffs64-IsLowest, ffz-not64}
use raptor_mark.Axmap.{bit_masks}
use raptor_mark.Axmap.Digits.{get_or-bit_masks}

-- All numbers of the level from `from` on and below `to` are set.
abbrev pub AllSet : (ℕ → ℕ) → ℕ → ℕ → Type 0
AllSet f from to = (n : ℕ) → from ≤ n → n < to → f n ≡ 1

-- `r` is the first number from `from` on, and below `to`, that is not set.
pub record IsFirstFree (f : ℕ → ℕ) (from to r : ℕ) : Type 0 where
  pub inside : r < to
  pub behind : from ≤ r
  pub free : f r ≡ 0
  pub passed : AllSet f from r

-- What a search gives: such a number, or `none` where there is none.
abbrev pub IsFound : (ℕ → ℕ) → ℕ → ℕ → Option ℕ → Type 0
IsFound f from to none = AllSet f from to
IsFound f from to (some r) = IsFirstFree f from to r

below_word : (b : ℕ) → b < 64 → 2 ^ b - 1 < 2 ^ 64
below_word b lt = omega (arith, two_pow_pos b, below)
  where
    below : 2 ^ b ≤ 2 ^ 64
    below = pow-le-pow_right {n = 2} (omega arith) {i = b} {j = 64} (omega arith)

-- The candidates of the first word: the digits from `b` on that are not set.
abbrev pub candidates : ℕ → ℕ → ℕ
candidates w b = bit_and (not64 (get_or bit_masks b 0)) (not64 w)

bit-not64 : (w i : ℕ) → w < 2 ^ 64 → i < 64 → bit (not64 w) i ≡ 1 - bit w i
bit-not64 w i fits lt = bit-complement w 64 i fits lt

candidates-below : (w b i : ℕ) → b < 64 → w < 2 ^ 64 → i < b → bit (candidates w b) i ≡ 0
candidates-below w b i b-lt fits lt =
    omega (arith, bit-bit_and (not64 (get_or bit_masks b 0)) (not64 w) i, mask_clear)
  where
    mask_clear : bit (not64 (get_or bit_masks b 0)) i ≡ 0
    mask_clear =
        ap (λ (t : ℕ). bit (not64 t) i) (get_or-bit_masks b (omega arith))
        ∙ bit-not64 (2 ^ b - 1) i (below_word b b-lt) (omega arith)
        ∙ omega (arith, bit-mask_low b i lt)

candidates-from :
    (w b i : ℕ) → b < 64 → w < 2 ^ 64 → b ≤ i → i < 64 → bit (candidates w b) i ≡ 1 - bit w i
candidates-from w b i b-lt fits le lt =
    omega (
      arith,
      bit-bit_and (not64 (get_or bit_masks b 0)) (not64 w) i,
      mask_set,
      bit-not64 w i fits lt,
    )
  where
    mask_set : bit (not64 (get_or bit_masks b 0)) i ≡ 1
    mask_set =
        ap (λ (t : ℕ). bit (not64 t) i) (get_or-bit_masks b (omega arith))
        ∙ bit-not64 (2 ^ b - 1) i (below_word b b-lt) lt
        ∙ omega (arith, bit_high (2 ^ b - 1) b i (omega (arith, two_pow_pos b)) le)

candidates-lt : (w b : ℕ) → candidates w b < 2 ^ 64
candidates-lt w b = bit_and-lt (not64 (get_or bit_masks b 0)) (not64 w) 64 (omega arith)

-- The first candidate.
pub candidates_lowest :
    (w b : ℕ)
    → b < 64
    → w < 2 ^ 64
    → candidates w b ≢ 0
    → IsFirstFree (bit w) b 64 (ffz (not64 (candidates w b)))
candidates_lowest w b b-lt fits ne =
    subst (λ (k : ℕ). IsFirstFree (bit w) b 64 k) (sym (ffz-not64 c (candidates-lt w b)))
      (record {
        inside = inside;
        behind = behind;
        free = omega (arith, candidates-from w b k b-lt fits behind inside, lowest.found);
        passed = λ n p q. omega (
          arith,
          candidates-from w b n b-lt fits p (omega (arith, q, inside)),
          lowest.below n q,
          bit-lt-two w n,
        );
      })
  where
    c : ℕ
    c = candidates w b

    k : ℕ
    k = ffs64 c

    lowest : IsLowest c k
    lowest = ffs64-IsLowest c (candidates-lt w b) ne

    inside : k < 64
    inside = elim (dec_lt k 64) [
      | yes lt ↦ lt
      | no ge ↦
          absurd
            (omega (arith, lowest.found, bit_high c 64 k (candidates-lt w b) (omega (arith, ge))))
    ]

    behind : b ≤ k
    behind = elim (dec_lt k b) [
      | yes lt ↦ absurd (omega (arith, lowest.found, candidates-below w b k b-lt fits lt))
      | no ge ↦ omega (arith, ge)
    ]

pub no_candidates : (w b : ℕ) → b < 64 → w < 2 ^ 64 → candidates w b ≡ 0 → AllSet (bit w) b 64
no_candidates w b b-lt fits nothing n p q = omega (
  arith,
  candidates-from w b n b-lt fits p q,
  ap (λ (t : ℕ). bit t n) nothing ∙ bit-zero n,
  bit-lt-two w n,
)
