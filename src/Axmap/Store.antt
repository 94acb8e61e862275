-- ===== src/Axmap/Store.antt =====
-- One word of a level with a run of its digits set.
use native.Mathlib.Decide.{ℕ_discrete}
use raptor_mark.Common.{
  ℕ, ◌+◌, ◌/◌, ◌%◌, ◌^◌, ◌≤◌, ◌<◌, max, ◌≡◌, ◌≢◌, ap, sym, subst, ◌∙◌, ◌⊎◌, inl, inr, bit_or, arith,
  set, length, length-set, get_or-set_self, get_or-set_ne,
}
use raptor_mark.Common.Bits.{bit, bit-bit_or, bit-lt-two, bit_or-lt, bit-mask_low}
use raptor_mark.Axmap.{AxmapLevel, mask_of}
use raptor_mark.Axmap.Digits.{bit-mask_below, bit-mask_inside, bit-mask_above, mask_of-lt}
use raptor_mark.Axmap.Layout.{IsLevel, IsSummary, digit, word_at, full}

-- The level after the word `o` has had `r` digits from `b` on set.
abbrev pub stored : AxmapLevel → ℕ → ℕ → ℕ → AxmapLevel
stored al o b r = record al { words = set al.words o (bit_or (word_at al o) (mask_of r b)) }

module _ (al : AxmapLevel) (index r : ℕ) (fits : index % 64 + r ≤ 64)
    (in_range : index / 64 < length al.words) where
  abbrev o : ℕ
  o = index / 64

  abbrev b : ℕ
  b = index % 64

  abbrev al' : AxmapLevel
  al' = stored al (index / 64) (index % 64) r

  pub word_at-stored : word_at al' o ≡ bit_or (word_at al o) (mask_of r b)
  word_at-stored = get_or-set_self al.words o (bit_or (word_at al o) (mask_of r b)) 0 in_range

  pub word_at-stored_ne : (o' : ℕ) → o' ≢ o → word_at al' o' ≡ word_at al o'
  word_at-stored_ne o' ne =
      get_or-set_ne al.words o o' (bit_or (word_at al o) (mask_of r b)) 0 (λ e. ne (sym e))

  digit_here : (n : ℕ) → n / 64 ≡ o → digit al' n ≡ max (digit al n) (bit (mask_of r b) (n % 64))
  digit_here n e =
      ap (λ (k : ℕ). bit (word_at al' k) (n % 64)) e
      ∙ ap (λ (w : ℕ). bit w (n % 64)) word_at-stored
      ∙ bit-bit_or (word_at al o) (mask_of r b) (n % 64)
      ∙ ap (λ (k : ℕ). max (bit (word_at al k) (n % 64)) (bit (mask_of r b) (n % 64))) (sym e)

  pub digit-stored_inside : (n : ℕ) → index ≤ n → n < index + r → digit al' n ≡ 1
  digit-stored_inside n le lt = omega (
    arith,
    digit_here n (omega arith),
    bit-mask_inside r b fits (n % 64) (omega arith) (omega arith),
    bit-lt-two (word_at al (n / 64)) (n % 64),
  )

  pub digit-stored_outside : (n : ℕ) → (n < index) ⊎ (index + r ≤ n) → digit al' n ≡ digit al n
  digit-stored_outside n out = elim (ℕ_discrete (n / 64) o) [
    | yes e ↦ omega (arith, digit_here n e, unmasked out e)
    | no ne ↦ ap (λ (w : ℕ). bit w (n % 64)) (word_at-stored_ne (n / 64) ne)
  ]
    where
      unmasked : (n < index) ⊎ (index + r ≤ n) → n / 64 ≡ o → bit (mask_of r b) (n % 64) ≡ 0
      unmasked (inl lt) e = bit-mask_below r b fits (n % 64) (omega arith)
      unmasked (inr ge) e = bit-mask_above r b fits (n % 64) (omega arith)

  pub stored-IsLevel : (i nr_bits : ℕ) → IsLevel i nr_bits al → IsLevel i nr_bits al'
  stored-IsLevel i nr_bits v = record {
    level = v.level;
    size = v.size;
    stored = length-set al.words o (bit_or (word_at al o) (mask_of r b)) ∙ v.stored;
    words = λ o'. elim (ℕ_discrete o' o) [
      | yes e ↦
          subst (λ k. k < 2 ^ 64) (sym (ap (word_at al') e ∙ word_at-stored))
            (bit_or-lt (word_at al o) (mask_of r b) 64 (v.words o) (mask_of-lt r b))
      | no ne ↦ subst (λ k. k < 2 ^ 64) (sym (word_at-stored_ne o' ne)) (v.words o')
    ];
  }

  -- A word with a clear digit is not full.
  pub not_full : digit al index ≡ 0 → word_at al o ≢ full
  not_full clear e =
      omega (arith, clear, ap (λ (w : ℕ). bit w b) e, bit-mask_low 64 b (omega arith))

  -- While the word stays short of full, the level above stays as it is.
  pub stored-IsSummary :
      (hi : AxmapLevel)
      → digit al index ≡ 0
      → word_at al' o ≢ full
      → IsSummary al hi
      → IsSummary al' hi
  stored-IsSummary hi clear short v = record {
    set = λ o' lt e. elim (ℕ_discrete o' o) [
      | yes same ↦ absurd (short (ap (word_at al') (sym same) ∙ e))
      | no ne ↦ v.set o' lt (sym (word_at-stored_ne o' ne) ∙ e)
    ];
    clear = λ o' lt ne_full. elim (ℕ_discrete o' o) [
      | yes same ↦
          ap (digit hi) same ∙ v.clear o (subst (λ k. k < al.map_size) same lt) (not_full clear)
      | no ne ↦ v.clear o' lt (λ e. ne_full (word_at-stored_ne o' ne ∙ e))
    ];
  }

  -- Once it is full, its digit of the level above is set.
  pub stored-IsSummary_full :
      (hi hi' : AxmapLevel)
      → word_at al' o ≡ full
      → digit hi' o ≡ 1
      → ((n : ℕ) → n ≢ o → digit hi' n ≡ digit hi n)
      → IsSummary al hi
      → IsSummary al' hi'
  stored-IsSummary_full hi hi' is_full here there v = record {
    set = λ o' lt e. elim (ℕ_discrete o' o) [
      | yes same ↦ ap (digit hi') same ∙ here
      | no ne ↦ there o' ne ∙ v.set o' lt (sym (word_at-stored_ne o' ne) ∙ e)
    ];
    clear = λ o' lt ne_full. elim (ℕ_discrete o' o) [
      | yes same ↦ absurd (ne_full (ap (word_at al') same ∙ is_full))
      | no ne ↦ there o' ne ∙ v.clear o' lt (λ e. ne_full (word_at-stored_ne o' ne ∙ e))
    ];
  }
