-- ===== src/Smalloc/Compare.antt =====
-- smalloc.c: what an answer of `blocks_free` says of the blocks.
use native.Mathlib.Decide.{dec_lt, ℕ_discrete}
use mathlib.Core.Bool.{true≢false}
use raptor_mark.Common.{
  ℕ, zero, suc, ◌+◌, ◌-◌, ◌*◌, ◌%◌, ◌^◌, ◌≤◌, ◌<◌, ◌≡◌, ◌≢◌, refl, sym, ap, subst, ◌∙◌, arith,
  bit_and, ◌⊎◌, if◌then◌else◌, Bool, true, false, Option, none, some, List, [], ◌∷◌, get_or, set,
  ◌==◌, ne→==, gt→leb, le→leb, lt→ltb, ge→ltb, Bool-cases, inl, inr, ==→eq, some_injective,
}
use raptor_mark.Common.Bits.{bit, bit-bit_and, bit-zero, bit-lt-two}
use raptor_mark.Smalloc.{mask_cmp, this_round, round_mask, blocks_iter}
use raptor_mark.Smalloc.Blocks.{busy, AllBlocks, this_round-min, round_mask-IsMask}

set_same : (xs : List ℕ) (i : ℕ) → set xs i (get_or xs i 0) ≡ xs
set_same [] i = refl
set_same (x ∷ xs) zero = refl
set_same (x ∷ xs) (suc i) = ap (λ (ys : List ℕ). x ∷ ys) (set_same xs i)

-- An index behind the word has a round that C leaves undefined.
pub blocks_iter_undefined :
    (rounds words : ℕ) (bitmap : List ℕ) (i idx n : ℕ)
    → i < words
    → 32 ≤ idx
    → idx < 2 ^ 31
    → n ≢ 0
    → n < 2 ^ 31
    → blocks_iter mask_cmp (suc rounds) words bitmap i idx n ≡ none
unfolding blocks_iter this_round round_mask
blocks_iter_undefined rounds words bitmap i idx n i-lt ge idx-lt ne small = rw (ne→== n 0 ne) (
    rw (gt→leb words i i-lt) (
      rw (lt→ltb 32 ((n % 2 ^ 32 + idx) % 2 ^ 32) (omega (arith, ne))) (
        rw (ne→== ((32 + 2 ^ 32 - idx) % 2 ^ 32) 32 (omega arith)) (elim (ℕ_discrete idx 32) [
          | yes e ↦
              rw (lt→ltb ((32 + 2 ^ 32 - idx) % 2 ^ 32) 32 (omega (arith, e)))
                (rw (ge→ltb idx 32 ge) refl)
          | no other ↦ rw (ge→ltb ((32 + 2 ^ 32 - idx) % 2 ^ 32) 32 (omega arith)) refl
        ]))))

-- What one round of a comparison gives.
past_end :
    (rounds words : ℕ) (bitmap : List ℕ) (i idx n : ℕ)
    → n ≢ 0
    → words ≤ i
    → blocks_iter mask_cmp (suc rounds) words bitmap i idx n ≡ some (false, bitmap)
unfolding blocks_iter
past_end rounds words bitmap i idx n ne le = rw (ne→== n 0 ne) (rw (le→leb words i le) refl)

compare_word :
    (rounds words : ℕ) (bitmap : List ℕ) (i idx n mask : ℕ)
    → n ≢ 0
    → i < words
    → round_mask (this_round idx n) idx ≡ some mask
    → blocks_iter mask_cmp (suc rounds) words bitmap i idx n ≡ (
        if bit_and (get_or bitmap i 0) mask == 0
        then blocks_iter mask_cmp rounds words bitmap (i + 1) 0 (n - this_round idx n)
        else some (false, bitmap))
unfolding blocks_iter mask_cmp
compare_word rounds words bitmap i idx n mask ne lt e =
    rw (ne→== n 0 ne) (rw (gt→leb words i lt) (rw e (rw (set_same bitmap i) refl)))

not_false : (a b : List ℕ) → ◌≡◌ {A = Option (Bool × List ℕ)} (some (false, a)) (some (true, b)) → ⊥
not_false a b h = true≢false (sym (ap (λ (r : Bool × List ℕ). r.0) (some_injective h)))

word_free :
    (bitmap : List ℕ) (i j k mask : ℕ)
    → j ≡ i
    → bit_and (get_or bitmap i 0) mask ≡ 0
    → bit mask k ≡ 1
    → busy bitmap j k ≡ 0
unfolding busy
word_free bitmap i j k mask e z one =
    ap (λ (t : ℕ). bit (get_or bitmap t 0) k) e
    ∙ omega (
      arith,
      bit-bit_and (get_or bitmap i 0) mask k,
      one,
      ap (λ (w : ℕ). bit w k) z,
      bit-zero k,
      bit-lt-two (get_or bitmap i 0) k,
    )

-- A comparison that succeeds has seen clear digits only, and has not met the end of the bitmap.
pub compare_free :
    (rounds words : ℕ) (bitmap : List ℕ) (i idx n : ℕ) (same : List ℕ)
    → n ≤ rounds
    → idx < 32
    → n < 2 ^ 31
    → blocks_iter mask_cmp rounds words bitmap i idx n ≡ some (true, same)
    → ((n ≡ 0) ⊎ (i * 32 + idx + n ≤ words * 32)) × AllBlocks bitmap (i * 32 + idx) n 0
compare_free zero words bitmap i idx n same enough idx-lt small h =
    (inl (omega arith), λ j k lt le lt'. absurd (omega arith))
compare_free (suc rounds) words bitmap i idx n same enough idx-lt small h = elim (ℕ_discrete n 0) [
  | yes e ↦ (inl e, λ j k lt le lt'. absurd (omega (arith, e)))
  | no ne ↦ elim (dec_lt i words) [
    | no past ↦
        absurd (not_false _ _ (sym (past_end rounds words bitmap i idx n ne (omega arith)) ∙ h))
    | yes within ↦
        let this_min = this_round-min idx n idx-lt small in
        let round =
          round_mask-IsMask (this_round idx n) idx idx-lt (omega (arith, this_min, idx-lt)) in
        let step = compare_word rounds words bitmap i idx n round.0 ne within round.1 in
        elim (Bool-cases (bit_and (get_or bitmap i 0) round.0 == 0)) [
          | inr taken ↦ absurd (
              not_false _ _ (
                subst
                  (λ (b : Bool).
                    (if b
                      then blocks_iter mask_cmp rounds words bitmap (i + 1) 0 (n - this_round idx n)
                      else some (false, bitmap))
                    ≡ some (true, same))
                  taken (sym step ∙ h)))
          | inl clear ↦
              let later =
                compare_free rounds words bitmap (i + 1) 0 (n - this_round idx n) same
                  (omega (arith, this_min)) (omega arith) (omega arith)
                  (subst
                    (λ (b : Bool).
                      (if b
                        then blocks_iter mask_cmp rounds words bitmap (i + 1) 0
                            (n - this_round idx n)
                        else some (false, bitmap))
                      ≡ some (true, same))
                    clear (sym step ∙ h)) in
              (
                inr (omega (arith, later.0, this_min, within)),
                λ j k lt le lt'. elim (ℕ_discrete j i) [
                  | yes e ↦
                      word_free bitmap i j k round.0 e (==→eq _ _ clear)
                        (round.2.ones k (omega (arith, e)) (omega (arith, e, this_min)))
                  | no other ↦
                      later.1 j k lt (omega (arith, other)) (omega (arith, this_min, other))
                ],
              )
        ]
  ]
]
