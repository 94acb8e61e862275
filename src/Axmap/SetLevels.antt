-- ===== src/Axmap/SetLevels.antt =====
-- A run of digits set at a level, and what the levels above make of it.
use native.Mathlib.Decide.{ℕ_discrete}
use raptor_mark.Common.{
  ℕ, suc, ◌+◌, ◌-◌, ◌/◌, ◌%◌, ◌^◌, ◌≤◌, ◌<◌, min, ◌≡◌, ◌≢◌, refl, ap, sym, ◌∙◌, ◌⊎◌, inl, bit_or,
  Bool, true, arith, ◌==◌, eq→==, ne→==, if◌then◌else◌, List, [], ◌∷◌, length,
}
use raptor_mark.Common.Bits.{bit}
use raptor_mark.Axmap.{
  AxmapLevel, SetData, Handled, handler_loop, store_mask, mask_of, axmap_set_fn,
}
use raptor_mark.Axmap.Digits.{run_unique}
use raptor_mark.Axmap.Layout.{
  IsLevel, IsSummary, IsChain, Summarised, digit, digits_of, word_at, full, low_bits,
}
use raptor_mark.Axmap.SetWord.{axmap_set_fn-free, free}
use raptor_mark.Axmap.Store.{
  stored, stored-IsLevel, stored-IsSummary, stored-IsSummary_full, digit-stored_inside,
  digit-stored_outside, word_at-stored, not_full,
}

-- The digits from `index` on, `r` of them, are set, all others as they were.
pub record IsSetAt (i nr_bits index r : ℕ) (before after : List AxmapLevel) : Type 0 where
  pub chain : IsChain i nr_bits after
  pub same_length : length after ≡ length before
  pub inside : (n : ℕ) → index ≤ n → n < index + r → digits_of after n ≡ 1
  pub outside : (n : ℕ) → (n < index) ⊎ (index + r ≤ n) → digits_of after n ≡ digits_of before n

abbrev pub Swept : Type 0
Swept = Bool × List AxmapLevel × SetData

abbrev pub go_on : AxmapLevel → Bool → Swept → Swept → Swept
go_on al' stop here rest = if stop then here else (rest.0, al' ∷ rest.1, rest.2)

pub handler_loop-suc :
    (left index : ℕ) (al : AxmapLevel) (levels : List AxmapLevel) (d : SetData) (h : Handled)
    → axmap_set_fn al (index / 64) (index % 64) d ≡ h
    → handler_loop axmap_set_fn (suc left) (al ∷ levels) index d
      ≡ go_on h.1 h.0
          (true, h.1 ∷ levels, h.2)
          (handler_loop axmap_set_fn left levels (index / 64) h.2)
unfolding handler_loop
handler_loop-suc left index al levels d h e = rw (low_bits index, e, next_index index)
  where
    next_index : (n : ℕ) → (if n == 0 then n else n / 64) ≡ n / 64
    next_index n = ground arith

-- A single clear digit is a run of one.
free_one :
    (al : AxmapLevel) (o b : ℕ) (d : SetData) (fits : word_at al o < 2 ^ 64) (b-lt : b < 64)
    (some : 0 < d.nr_bits)
    → d.nr_bits ≡ 1
    → bit (word_at al o) b ≡ 0
    → free al o b d fits b-lt some ≡ 1
unfolding free
free_one al o b d fits b-lt some one clear =
    run_unique (bit (word_at al o)) b (min d.nr_bits (64 - b)) 1 (omega arith)
      (λ i p q. let e : i ≡ b = omega arith in ap (bit (word_at al o)) e ∙ clear)
      (inl (omega arith))

-- So `axmap_set_fn` sets it.
single_store :
    (al : AxmapLevel) (index i nr_bits : ℕ) (d : SetData)
    → IsLevel i nr_bits al
    → d.nr_bits ≡ 1
    → digit al index ≡ 0
    → axmap_set_fn al (index / 64) (index % 64) d
      ≡ store_mask al (index / 64) 1 (mask_of 1 (index % 64)) d
single_store al index i nr_bits d v one clear =
    axmap_set_fn-free al o b d fits b-lt some (λ z. absurd (omega (arith, e, z)))
    ∙ ap (λ (r : ℕ). store_mask al o r (mask_of r b) d) e
  where
    o : ℕ
    o = index / 64

    b : ℕ
    b = index % 64

    fits : word_at al o < 2 ^ 64
    fits = v.words o

    b-lt : b < 64
    b-lt = omega arith

    some : 0 < d.nr_bits
    some = omega arith

    e : free al o b d fits b-lt some ≡ 1
    e = free_one al o b d fits b-lt some one clear

Summarised-short :
    (al : AxmapLevel) (index r : ℕ) (fits : index % 64 + r ≤ 64)
    (in_range : index / 64 < length al.words) (levels : List AxmapLevel)
    → digit al index ≡ 0
    → word_at (stored al (index / 64) (index % 64) r) (index / 64) ≢ full
    → Summarised al levels
    → Summarised (stored al (index / 64) (index % 64) r) levels
Summarised-short al index r fits in_range [] clear short v = tt
Summarised-short al index r fits in_range (hi ∷ levels) clear short v =
    stored-IsSummary al index r fits in_range hi clear short v

Summarised-full :
    (al : AxmapLevel) (index r : ℕ) (fits : index % 64 + r ≤ 64)
    (in_range : index / 64 < length al.words) (hi : AxmapLevel) (levels : List AxmapLevel)
    → word_at (stored al (index / 64) (index % 64) r) (index / 64) ≡ full
    → digits_of levels (index / 64) ≡ 1
    → ((n : ℕ) → n ≢ index / 64 → digits_of levels n ≡ digit hi n)
    → IsSummary al hi
    → Summarised (stored al (index / 64) (index % 64) r) levels
Summarised-full al index r fits in_range hi [] is_full here there v = tt
Summarised-full al index r fits in_range hi (hi' ∷ levels) is_full here there v =
    stored-IsSummary_full al index r fits in_range hi hi' is_full here there v

-- What the sweep over the levels above has to leave behind, the word below being full.
record IsClimbed (i nr_bits set_bits : ℕ) (al' : AxmapLevel) (rest : List AxmapLevel) (s : Swept)
    : Type 0 where
  summarised : Summarised al' s.1
  chain : IsChain i nr_bits s.1
  same_length : length s.1 ≡ length rest
  carried : s.2.set_bits ≡ set_bits

module _ (i nr_bits index r : ℕ) (al : AxmapLevel) (rest : List AxmapLevel) (d : SetData)
    (v : IsChain i nr_bits (al ∷ rest)) (lt : index < nr_bits) (fits : index % 64 + r ≤ 64)
    (clear : digit al index ≡ 0) where
  abbrev after : AxmapLevel
  after = stored al (index / 64) (index % 64) r

  abbrev next : SetData
  next = record { nr_bits = 1; set_bits = if al.level == 0 then r else d.set_bits }

  in_range : index / 64 < length al.words
  in_range = omega (arith, v.0.size, v.0.stored)

  assembled :
      (levels : List AxmapLevel)
      → Summarised after levels
      → IsChain (i + 1) al.map_size levels
      → length levels ≡ length rest
      → IsSetAt i nr_bits index r (al ∷ rest) (after ∷ levels)
  assembled levels summary chain same = record {
    chain = (stored-IsLevel al index r fits in_range i nr_bits v.0, summary, chain);
    same_length = ap suc same;
    inside = digit-stored_inside al index r fits in_range;
    outside = digit-stored_outside al index r fits in_range;
  }

  -- One level swept, given the levels above.
  level_step :
      axmap_set_fn al (index / 64) (index % 64) d
        ≡ store_mask al (index / 64) r (mask_of r (index % 64)) d
      → (word_at after (index / 64) ≡ full
          → IsClimbed
              (i + 1)
              al.map_size
              next.set_bits
              after
              rest
              (handler_loop axmap_set_fn (length rest) rest (index / 64) next))
      → let s = handler_loop axmap_set_fn (suc (length rest)) (al ∷ rest) index d in
        IsSetAt i nr_bits index r (al ∷ rest) s.1 × (s.2.set_bits ≡ next.set_bits)
  unfolding store_mask
  level_step e climb =
      rw (handler_loop-suc (length rest) index al rest d _ e)
        (elim (ℕ_discrete (bit_or (word_at al (index / 64)) (mask_of r (index % 64))) full) [
          | yes whole ↦
              let c = climb (word_at-stored al index r fits in_range ∙ whole) in
              rw (eq→== _ _ whole) (assembled _ c.summarised c.chain c.same_length, c.carried)
          | no short ↦ rw (ne→== _ _ short) (
            assembled rest
                (Summarised-short al index r fits in_range rest clear
                  (λ z. short (sym (word_at-stored al index r fits in_range) ∙ z)) v.1)
                v.2 refl,
            refl,
          )
        ])

IsClimbed-nil :
    (i nr_bits : ℕ) (al' : AxmapLevel) (index : ℕ) (d : SetData)
    → IsClimbed i nr_bits d.set_bits al' [] (handler_loop axmap_set_fn 0 [] index d)
unfolding handler_loop
IsClimbed-nil i nr_bits al' index d = record {
  summarised = tt;
  chain = tt;
  same_length = refl;
  carried = refl;
}

-- The sweep over the levels from one on whose digits at `index` are clear.
pub set_level :
    (rest : List AxmapLevel) (i nr_bits index r : ℕ) (al : AxmapLevel) (d : SetData)
    → IsChain i nr_bits (al ∷ rest)
    → index < nr_bits
    → index % 64 + r ≤ 64
    → digit al index ≡ 0
    → axmap_set_fn al (index / 64) (index % 64) d
      ≡ store_mask al (index / 64) r (mask_of r (index % 64)) d
    → let s = handler_loop axmap_set_fn (suc (length rest)) (al ∷ rest) index d in
      IsSetAt i nr_bits index r (al ∷ rest) s.1
      × (s.2.set_bits ≡ (if al.level == 0 then r else d.set_bits))
set_level [] i nr_bits index r al d v lt fits clear e =
    level_step i nr_bits index r al [] d v lt fits clear e
      (λ whole. IsClimbed-nil (i + 1) al.map_size _ (index / 64) _)
set_level (hi ∷ more) i nr_bits index r al d v lt fits clear e =
    level_step i nr_bits index r al (hi ∷ more) d v lt fits clear e λ whole.
      let up =
        set_level more (i + 1) al.map_size o 1 hi above v.2 o-lt (omega arith) hi_clear
          (single_store hi o (i + 1) al.map_size above v.2.0 refl hi_clear) in
      record {
        summarised =
            Summarised-full al index r fits stored_in hi _ whole
              (up.0.inside o (omega arith) (omega arith)) (λ n ne. up.0.outside n (apart n ne)) v.1;
        chain = up.0.chain;
        same_length = up.0.same_length;
        carried = up.1 ∙ ap (λ b. if b then 1 else above.set_bits) (ne→== _ _ not_zero);
      }
  where
    o : ℕ
    o = index / 64

    above : SetData
    above = record { nr_bits = 1; set_bits = if al.level == 0 then r else d.set_bits }

    o-lt : o < al.map_size
    o-lt = omega (arith, v.0.size)

    stored_in : o < length al.words
    stored_in = omega (arith, v.0.size, v.0.stored)

    hi_clear : digit hi o ≡ 0
    hi_clear = v.1.clear o o-lt (not_full al index r fits stored_in clear)

    apart : (n : ℕ) → n ≢ o → (n < o) ⊎ (o + 1 ≤ n)
    apart n ne = omega arith

    not_zero : hi.level ≢ 0
    not_zero = omega (arith, v.2.0.level)
