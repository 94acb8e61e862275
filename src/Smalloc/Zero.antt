-- ===== src/Smalloc/Zero.antt =====
-- smalloc.c: `find_next_zero`, whose argument is a signed `int`.
use native.Mathlib.Decide.{dec_lt, ℕ_discrete}
use native.Mathlib.Nat.{mul_assoc, div-lt_iff_lt-mul, div-le_self}
use raptor_mark.Common.{
  ℕ, zero, suc, ◌+◌, ◌-◌, ◌*◌, ◌/◌, ◌%◌, ◌^◌, ◌≤◌, ◌<◌, ◌≡◌, ◌≢◌, refl, sym, ap, subst, ◌∙◌, arith,
  some, ne→==, lt→ltb, ge→ltb, u32,
}
use raptor_mark.Common.Bits.{
  bit, bit-mod_low, bit-mask_low, eq_of_low_bits, two_pow_pos, two_pow-suc,
}
use raptor_mark.Ffz.{ffz, ffs64, ffs_step}
use raptor_mark.Ffz.Lowest.{ffz_lowest_clear}
use raptor_mark.Smalloc.{all_busy, shift_right, find_next_zero}

two_pow-add : (a b : ℕ) → 2 ^ (a + b) ≡ 2 ^ a * 2 ^ b
two_pow-add zero b = ap (λ (t : ℕ). 2 ^ t) {y = b} (omega arith) ∙ omega arith
two_pow-add (suc a) b =
    ap (λ (t : ℕ). 2 ^ t) {y = suc (a + b)} (omega arith)
    ∙ two_pow-suc (a + b)
    ∙ ap (λ (t : ℕ). 2 * t) (two_pow-add a b)
    ∙ sym (mul_assoc 2 (2 ^ a) (2 ^ b))
    ∙ ap (λ (t : ℕ). t * 2 ^ b) (sym (two_pow-suc a))

shift_right-lt : (word start : ℕ) → word < 2 ^ 32 → start < 32 → shift_right word start < 2 ^ 64
unfolding shift_right
shift_right-lt word start fits lt = elim (dec_lt word (2 ^ 31)) [
  | yes positive ↦ rw (lt→ltb word (2 ^ 31) positive) (omega (arith, div-le_self word (2 ^ start)))
  | no negative ↦
      rw (ge→ltb word (2 ^ 31) (omega arith)) (omega (arith, two_pow_pos (64 - start), bound))
]
  where
    whole : 2 ^ (64 - start) * 2 ^ start ≡ 2 ^ 64
    whole = sym (two_pow-add (64 - start) start) ∙ ap (λ (t : ℕ). 2 ^ t) {y = 64} (omega arith)

    bound : (word + (2 ^ 64 - 2 ^ 32)) / 2 ^ start < 2 ^ (64 - start)
    bound = (div-lt_iff_lt-mul (two_pow_pos start)).1 (omega (arith, whole))

ffz-all_ones : ffz (2 ^ 64 - 1) < 64
unfolding ffz ffs64 ffs_step
ffz-all_ones = omega arith

ffz-lt : (word : ℕ) → word < 2 ^ 64 → ffz word < 64
ffz-lt word fits = elim (ℕ_discrete word (2 ^ 64 - 1)) [
  | yes e ↦ subst (λ (w : ℕ). ffz w < 64) (sym e) ffz-all_ones
  | no ne ↦ (ffz_lowest_clear word fits ne).1
]

-- An index that is found is not before the one where the search begins.
pub find_next_zero-le :
    (word start : ℕ)
    → word < 2 ^ 32
    → start < 32
    → word ≢ all_busy
    → (idx : ℕ) × (find_next_zero word start ≡ some idx) × (start ≤ idx) × (idx < 96)
unfolding find_next_zero
find_next_zero-le word start fits lt ne =
    let k = ffz (shift_right word start) in
    let k-lt = ffz-lt (shift_right word start) (shift_right-lt word start fits lt) in
    rw (ne→== word all_busy ne) (u32 (k + start), refl, omega (arith, k-lt), omega (arith, k-lt))

-- From the first digit on, the lowest clear digit of the word is found.
pub find_next_zero-first :
    (word : ℕ)
    → word < 2 ^ 32
    → word ≢ all_busy
    → (idx : ℕ) × (find_next_zero word 0 ≡ some idx)
      × (idx < 32)
      × (bit word idx ≡ 0)
      × ((k : ℕ) → k < idx → bit word k ≡ 1)
unfolding find_next_zero shift_right
find_next_zero-first word fits ne =
    rw (ne→== word all_busy ne) (u32 (k + 0), refl, answer.0, answer.1, answer.2)
  where
    wide : ℕ
    wide = shift_right word 0

    low : wide % 2 ^ 32 ≡ word
    low = elim (dec_lt word (2 ^ 31)) [
      | yes positive ↦ rw (lt→ltb word (2 ^ 31) positive) (omega arith)
      | no negative ↦ rw (ge→ltb word (2 ^ 31) (omega arith)) (omega arith)
    ]

    k : ℕ
    k = ffz wide

    Good : ℕ → Type 0
    Good j = (j < 32) × (bit word j ≡ 0) × ((i : ℕ) → i < j → bit word i ≡ 1)

    digit : (i : ℕ) → i < 32 → bit wide i ≡ bit word i
    digit i lt = sym (bit-mod_low wide 32 i lt) ∙ ap (λ (w : ℕ). bit w i) low

    found : (bit wide k ≡ 0) × (k < 64) × ((i : ℕ) → i < k → bit wide i ≡ 1)
    found =
        ffz_lowest_clear wide (shift_right-lt word 0 fits (omega arith))
          λ e. ne (sym low ∙ omega (arith, e))

    k-lt : k < 32
    k-lt = elim (dec_lt k 32) [
      | yes lt ↦ lt
      | no ge ↦ absurd (
          ne (
            eq_of_low_bits 32 word all_busy fits (omega arith)
              λ i lt. sym (digit i lt) ∙ found.2 i (omega arith) ∙ sym (bit-mask_low 32 i lt)))
    ]

    good : Good k
    good = (
      k-lt,
      sym (digit k k-lt) ∙ found.0,
      λ i lt. sym (digit i (omega (arith, k-lt))) ∙ found.2 i lt,
    )

    answer : Good (u32 (k + 0))
    answer = subst Good (omega (arith, k-lt)) good
