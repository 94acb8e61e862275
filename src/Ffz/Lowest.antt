-- ===== src/Ffz/Lowest.antt =====
-- lib/ffz.h: the scan of `ffs64`, digit by digit.
use native.Mathlib.Nat.{div-add-mod', mul-mod_left}
use native.Mathlib.Decide.{dec_lt}
use raptor_mark.Common.{
  ℕ, ◌+◌, ◌-◌, ◌*◌, ◌/◌, ◌%◌, ◌^◌, ◌<◌, ◌≡◌, ◌≢◌, refl, ap, sym, ◌∙◌, bit_and, not64, arith, inl,
  inr, Bool-cases, ==→eq, ==→ne, ◌==◌, if◌then◌else◌,
}
use raptor_mark.Common.Bits.{
  bit, bit_and-mask, bit-div, bit-mod_low, bit-zero, bit_cong, bit-complement, bit-lt-two, bit_high,
}
use raptor_mark.Ffz.{Scan, ffs_step, ffs64, ffz}

-- Digit `k` of the word is its lowest set one.
pub record IsLowest (word k : ℕ) : Type 0 where
  pub found : bit word k ≡ 1
  pub below : (i : ℕ) → i < k → bit word i ≡ 0

-- The scan of `word` has passed `c.r` zeros, and one of the next `n` digits is set.
record IsScan (word n : ℕ) (c : Scan) : Type 0 where
  rest : (i : ℕ) → bit c.word i ≡ bit word (c.r + i)
  passed : (i : ℕ) → i < c.r → bit word i ≡ 0
  live : c.word % 2 ^ n ≢ 0

ffs_step-IsScan :
    (word s n mask : ℕ) (c : Scan)
    → mask ≡ 2 ^ s - 1
    → 2 ^ n ≡ 2 ^ s * 2 ^ s
    → IsScan word n c
    → IsScan word s (ffs_step mask s c)
unfolding ffs_step
ffs_step-IsScan word s n mask c e w h = elim (Bool-cases (bit_and c.word mask == 0)) [
  | inl zeros ↦ rw zeros (skip (==→eq _ _ zeros))
  | inr some ↦
      rw some (record { rest = h.rest; passed = h.passed; live = λ z. ==→ne _ _ some (masked ∙ z) })
]
  where
    x : ℕ
    x = c.word

    masked : bit_and x mask ≡ x % 2 ^ s
    masked = rw e (bit_and-mask s x)

    skip : bit_and x mask ≡ 0 → IsScan word s (record { r = c.r + s; word = x / 2 ^ s })
    skip z = record {
      rest = λ i.
          bit-div x s i
          ∙ h.rest (s + i)
          ∙ bit_cong word word (c.r + (s + i)) (c.r + s + i) refl (omega arith);
      passed = λ i lt. elim (dec_lt i c.r) [
        | yes before ↦ h.passed i before
        | no after ↦
            bit_cong word word i (c.r + (i - c.r)) refl (omega arith)
            ∙ sym (h.rest (i - c.r))
            ∙ sym (bit-mod_low x s (i - c.r) (omega arith))
            ∙ ap (λ (t : ℕ). bit t (i - c.r)) (sym masked ∙ z)
            ∙ bit-zero (i - c.r)
      ];
      live = λ z'. h.live (
          ap (λ (t : ℕ). t % 2 ^ n) (all_zero z')
          ∙ ap (λ (t : ℕ). x / 2 ^ s / 2 ^ s * (2 ^ s * 2 ^ s) % t) w
          ∙ mul-mod_left (x / 2 ^ s / 2 ^ s) (2 ^ s * 2 ^ s));
    }
      where
        all_zero : x / 2 ^ s % 2 ^ s ≡ 0 → x ≡ x / 2 ^ s / 2 ^ s * (2 ^ s * 2 ^ s)
        all_zero z' = omega (
          arith,
          div-add-mod' x (2 ^ s),
          sym masked ∙ z,
          div-add-mod' (x / 2 ^ s) (2 ^ s),
          z',
          ap (λ (t : ℕ). t * 2 ^ s) (div-add-mod' (x / 2 ^ s) (2 ^ s)),
          ap (λ (t : ℕ). t * 2 ^ s) z',
        )

-- The last step does not shift.
last_step :
    (word : ℕ) (c : Scan)
    → IsScan word 2 c
    → IsLowest word (if bit_and c.word 1 == 0 then c.r + 1 else c.r)
last_step word c h = elim (Bool-cases (bit_and c.word 1 == 0)) [
  | inl zeros ↦
      let even : c.word % 2 ≡ 0 = sym (bit_and-mask 1 c.word) ∙ ==→eq _ _ zeros in
      rw zeros (record {
        found = sym (h.rest 1) ∙ omega (arith, h.live);
        below = λ i lt. elim (dec_lt i c.r) [
          | yes before ↦ h.passed i before
          | no after ↦ bit_cong word word i (c.r + 0) refl (omega arith) ∙ sym (h.rest 0) ∙ even
        ];
      })
  | inr some ↦
      let odd : c.word % 2 ≢ 0 = λ z. ==→ne _ _ some (bit_and-mask 1 c.word ∙ z) in
      rw some (record {
        found =
            bit_cong word word c.r (c.r + 0) refl (omega arith)
            ∙ sym (h.rest 0)
            ∙ omega (arith, odd);
        below = h.passed;
      })
]

-- The lowest set digit of a word that has one; the last step does not shift.
pub ffs64-IsLowest : (word : ℕ) → word < 2 ^ 64 → word ≢ 0 → IsLowest word (ffs64 word)
unfolding ffs64
ffs64-IsLowest word fits ne = last_step word c2 s2
  where
    c32 : Scan
    c32 = ffs_step 0xffff_ffff 32 (record { r = 0; word = word })

    c16 : Scan
    c16 = ffs_step 0xffff 16 c32

    c8 : Scan
    c8 = ffs_step 0xff 8 c16

    c4 : Scan
    c4 = ffs_step 0xf 4 c8

    c2 : Scan
    c2 = ffs_step 3 2 c4

    start : IsScan word 64 (record { r = 0; word = word })
    start = record {
      rest = λ i. bit_cong word word i (0 + i) refl (omega arith);
      passed = λ i lt. absurd (omega arith);
      live = λ z. ne (omega arith);
    }

    s32 : IsScan word 32 c32
    s32 = ffs_step-IsScan word 32 64 0xffff_ffff _ refl refl start

    s16 : IsScan word 16 c16
    s16 = ffs_step-IsScan word 16 32 0xffff _ refl refl s32

    s8 : IsScan word 8 c8
    s8 = ffs_step-IsScan word 8 16 0xff _ refl refl s16

    s4 : IsScan word 4 c4
    s4 = ffs_step-IsScan word 4 8 0xf _ refl refl s8

    s2 : IsScan word 2 c2
    s2 = ffs_step-IsScan word 2 4 3 _ refl refl s4

-- `ffz` is given the complement of the word whose set digit is looked for.
pub ffz-not64 : (word : ℕ) → word < 2 ^ 64 → ffz (not64 word) ≡ ffs64 word
unfolding ffz
ffz-not64 word fits = ap ffs64 (omega arith)

-- The lowest clear digit of a word that has one.
pub ffz_lowest_clear :
    (word : ℕ)
    → word < 2 ^ 64
    → word ≢ 2 ^ 64 - 1
    → (bit word (ffz word) ≡ 0) × (ffz word < 64) × ((i : ℕ) → i < ffz word → bit word i ≡ 1)
unfolding ffz
ffz_lowest_clear word fits ne = (
  omega (arith, found, bit-complement word 64 k fits k-lt, bit-lt-two word k),
  k-lt,
  λ i lt. omega (
    arith,
    lowest.below i lt,
    bit-complement word 64 i fits (omega (arith, k-lt)),
    bit-lt-two word i,
  ),
)
  where
    k : ℕ
    k = ffs64 (not64 word)

    lowest : IsLowest (not64 word) k
    lowest = ffs64-IsLowest (not64 word) (omega arith) (omega arith)

    found : bit (not64 word) k ≡ 1
    found = lowest.found

    k-lt : k < 64
    k-lt = elim (dec_lt k 64) [
      | yes lt ↦ lt
      | no ge ↦
          absurd (omega (arith, found, bit_high (not64 word) 64 k (omega arith) (omega arith)))
    ]
