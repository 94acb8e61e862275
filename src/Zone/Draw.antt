-- ===== src/Zone/Draw.antt =====
-- io_u.c: the block that a zoned distribution draws.
use native.Mathlib.Decide.{dec_lt, ℕ_discrete}
use native.Mathlib.Nat.{mul-le-mul_right, mul_comm, add-mul, mod-eq_of_lt}
use raptor_mark.Common.{
  ℕ, suc, ◌+◌, ◌-◌, ◌*◌, ◌/◌, ◌^◌, ◌≤◌, ◌<◌, ◌≡◌, ◌≢◌, refl, sym, ap, subst, ◌∙◌, arith, ◌⊎◌, inl,
  inr, Bool, false, Option, none, some, List, [], ◌∷◌, length, get_or, map, if◌then◌else◌, lt→ltb,
  ge→ltb, u32, u64, ◌==◌, eq→==, ne→==, some_injective, none_ne, Option-cases,
}
use raptor_mark.Offset.{Ddir, Options, FioFile, last_block, next_rand_offset, free_block}
use raptor_mark.Zone.{
  ZoneSplit, ZoneSplitIndex, zone_of, zone_split_ddir, td_zone_gen_index, no_entry,
  next_rand_offset_zoned,
}
use raptor_mark.Zone.Fill.{access_total, size_total, IsSplit}
use raptor_mark.Zone.Split.{zone_split_ddir-IsSplit}
use raptor_mark.Zone.Table.{entry_of, td_zone_gen_index_lem}

-- The percentages of an entry.
entry_of-le :
    (zones : List ZoneSplit) (sprev sprev_sz j : ℕ)
    → sprev + size_total zones ≤ 100
    → j < access_total zones
    → ((entry_of zones sprev sprev_sz j).size_perc_prev
        ≤ (entry_of zones sprev sprev_sz j).size_perc)
      × ((entry_of zones sprev sprev_sz j).size_perc ≤ 100)
unfolding entry_of size_total access_total
entry_of-le [] sprev sprev_sz j le lt = absurd (omega arith)
entry_of-le (z ∷ zones) sprev sprev_sz j le lt = elim (dec_lt j z.access_perc) [
  | yes here ↦ rw (lt→ltb j z.access_perc here) (omega arith, omega arith)
  | no later ↦ rw (ge→ltb j z.access_perc (omega arith)) (
      entry_of-le zones (sprev + z.size_perc) (u64 (sprev_sz + z.size)) (j - z.access_perc)
        (omega arith) (omega arith))
]

-- The blocks in front of a range of percentages and those in it are no more than all blocks.
range_within :
    (lastb prev perc b : ℕ)
    → 0 < lastb
    → prev < perc
    → perc ≤ 100
    → (b < lastb * (perc - prev) / 100) ⊎ (b ≡ 0)
    → b + prev * lastb / 100 < lastb
range_within lastb prev perc b pos lt le drawn = omega (arith, drawn, whole, most)
  where
    parts : prev * lastb + lastb * (perc - prev) ≡ perc * lastb
    parts =
        ap (λ (t : ℕ). prev * lastb + t) (mul_comm lastb (perc - prev))
        ∙ sym (add-mul prev (perc - prev) lastb)
        ∙ ap (λ (t : ℕ). t * lastb) {x = prev + (perc - prev)} {y = perc} (omega arith)

    whole : prev * lastb + lastb * (perc - prev) ≤ 100 * lastb
    whole = omega (arith, parts, mul-le-mul_right {m = perc} {n = 100} lastb le)

    most : prev * lastb ≤ 99 * lastb
    most = mul-le-mul_right {m = prev} {n = 99} lastb (omega arith)

-- The words do not wrap.
offset_lem :
    (prev lastb : ℕ)
    → prev ≤ 100
    → lastb ≤ 2 ^ 56
    → (if prev == 0 then 0 else u64 (prev * lastb) / 100) ≡ prev * lastb / 100
offset_lem prev lastb le few = elim (ℕ_discrete prev 0) [
  | yes e ↦ rw (eq→== prev 0 e) (omega (arith, ap (λ (t : ℕ). t * lastb) e))
  | no ne ↦ rw (ne→== prev 0 ne) (
      ap (λ (t : ℕ). t / 100)
        (mod-eq_of_lt {n = prev * lastb} {m = 2 ^ 64}
          (omega (arith, mul-le-mul_right {m = prev} {n = 100} lastb le))))
]

count_lem :
    (perc prev lastb : ℕ)
    → prev < perc
    → perc ≤ 100
    → lastb ≤ 2 ^ 56
    → u64 (lastb * u32 (perc + 2 ^ 32 - prev)) / 100 ≡ lastb * (perc - prev) / 100
count_lem perc prev lastb lt le few =
    ap (λ (t : ℕ). u64 (lastb * t) / 100) {x = u32 (perc + 2 ^ 32 - prev)} {y = perc - prev}
      (omega arith)
    ∙ ap (λ (t : ℕ). t / 100)
        (mod-eq_of_lt {n = lastb * (perc - prev)} {m = 2 ^ 64} (
          omega (
            arith,
            mul_comm lastb (perc - prev),
            mul-le-mul_right {m = perc - prev} {n = 100} lastb (omega arith),
          )))

abbrev entry : List ZoneSplitIndex → ℕ → ZoneSplitIndex
entry index v = get_or index (v - 1) no_entry

abbrev in_front : ZoneSplitIndex → ℕ → ℕ
in_front zsi lastb = if zsi.size_perc_prev == 0 then 0 else u64 (zsi.size_perc_prev * lastb) / 100

abbrev range_count : ZoneSplitIndex → ℕ → ℕ
range_count zsi lastb = u64 (lastb * u32 (zsi.size_perc + 2 ^ 32 - zsi.size_perc_prev)) / 100

-- The block drawn, behind the blocks in front of the range.
moved : ℕ → Option ℕ → Option ℕ
moved offset drawn = elim drawn [ none ↦ none | some c ↦ some (u64 (c + offset)) ]

moved_lem :
    (offset : ℕ) (drawn : Option ℕ) (b : ℕ)
    → moved offset drawn ≡ some b
    → (c : ℕ) × (drawn ≡ some c) × (b ≡ u64 (c + offset))
unfolding moved
moved_lem offset none b h = absurd (none_ne {a = b} h)
moved_lem offset (some c) b h = (c, refl, sym (some_injective h))

module _ {S : Type 0} (next : ℕ → S → Option ℕ × S) where
  -- A draw from no blocks may give the first one.
  abbrev pub DrawsBelow : Type 0
  DrawsBelow = (n : ℕ) (s : S) (b : ℕ) → (next n s).0 ≡ some b → (b < n) ⊎ (b ≡ 0)

  -- A file that keeps no map has the block that is drawn.
  drawn_below :
      DrawsBelow
      → (o : Options) (f : FioFile) (count : ℕ) (s : S) (b : ℕ) → f.io_axmap ≡ none
      → (next_rand_offset next (λ (t : S). t) o f count s).0 ≡ some b
      → (b < count) ⊎ (b ≡ 0)
  unfolding next_rand_offset free_block
  drawn_below law o f count s b no_map h = elim (Option-cases (next count s).0) [
    | inl e ↦ absurd (none_ne {a = b} (sym (rw e refl) ∙ h))
    | inr (c, e) ↦
        let got : some c ≡ some b = sym (rw e (rw no_map refl)) ∙ h in law count s b (e ∙ got)
  ]

  zoned_lem :
      (index : List ZoneSplitIndex) (nr v : ℕ) (o : Options) (f : FioFile) (ddir : Ddir) (s : S)
      → last_block o f ddir ≢ 0
      → nr ≢ 0
      → (next_rand_offset_zoned next index nr v o f ddir s).0
        ≡ moved
            (in_front (entry index v) (last_block o f ddir))
            (next_rand_offset next
              (λ (t : S). t)
              o
              f
              (range_count (entry index v) (last_block o f ddir))
              s).0
  unfolding next_rand_offset_zoned moved
  zoned_lem index nr v o f ddir s some_block some_zone =
      rw (ne→== (last_block o f ddir) 0 some_block) (rw (ne→== nr 0 some_zone) refl)

  no_block_lem :
      (index : List ZoneSplitIndex) (nr v : ℕ) (o : Options) (f : FioFile) (ddir : Ddir) (s : S)
      → last_block o f ddir ≡ 0
      → (next_rand_offset_zoned next index nr v o f ddir s).0 ≡ none
  unfolding next_rand_offset_zoned
  no_block_lem index nr v o f ddir s e = rw (eq→== (last_block o f ddir) 0 e) refl

  -- The block of an entry with a range that is not empty.
  entry_drawn :
      DrawsBelow
      → (index : List ZoneSplitIndex) (nr v : ℕ) (o : Options) (f : FioFile) (ddir : Ddir) (s : S)
        (b : ℕ)
      → nr ≢ 0
      → last_block o f ddir ≤ 2 ^ 56
      → f.io_axmap ≡ none
      → (entry index v).size_perc_prev < (entry index v).size_perc
      → (entry index v).size_perc ≤ 100
      → (next_rand_offset_zoned next index nr v o f ddir s).0 ≡ some b
      → b < last_block o f ddir
  entry_drawn law index nr v o f ddir s b some_zone few no_map lt le h =
      elim (ℕ_discrete (last_block o f ddir) 0) [
        | yes e ↦ absurd (none_ne {a = b} (sym (no_block_lem index nr v o f ddir s e) ∙ h))
        | no ne ↦
            let lastb = last_block o f ddir in
            let prev = (entry index v).size_perc_prev in
            let perc = (entry index v).size_perc in
            let m = moved_lem _ _ b (sym (zoned_lem index nr v o f ddir s ne some_zone) ∙ h) in
            let below = drawn_below law o f (range_count (entry index v) lastb) s m.0 no_map m.1 in
            let drawn =
              subst (λ (n : ℕ). (m.0 < n) ⊎ (m.0 ≡ 0)) (count_lem perc prev lastb lt le few)
                below in
            let inside = range_within lastb prev perc m.0 (omega arith) lt le drawn in
            let fits : m.0 + prev * lastb / 100 < 2 ^ 64 = omega (arith, inside, few) in
            let same : b ≡ m.0 + prev * lastb / 100 =
              m.2
              ∙ ap (λ (t : ℕ). u64 (m.0 + t)) (offset_lem prev lastb (omega arith) few)
              ∙ mod-eq_of_lt fits in
            omega (arith, same, inside)
      ]

length-zones :
    (absolute : Bool) (split : List (ℕ × ℕ)) → length (map (zone_of absolute) split) ≡ length split
length-zones absolute [] = refl
length-zones absolute (w ∷ split) = ap suc (length-zones absolute split)

-- With zones of a relative distribution that `zone_split_ddir` accepts, their table, and a number from 1 to
-- 100 whose zone has a part of the file, the block that `__get_next_rand_offset_zoned` draws for a file
-- without a map is one of the file: the file has 2^56 blocks at most, and a block drawn from a number of
-- blocks is below it, or the first.
pub next_rand_offset_zoned_within :
    {S : Type 0} (next : ℕ → S → Option ℕ × S)
    → DrawsBelow next
    → (split : List (ℕ × ℕ)) (zones : List ZoneSplit) (fresh table : List ZoneSplitIndex)
    → length (map (zone_of false) split) ≢ 0
    → zone_split_ddir false split ≡ some zones
    → length fresh ≡ 100
    → td_zone_gen_index zones fresh ≡ some table
    → (v : ℕ) (o : Options) (f : FioFile) (ddir : Ddir) (s : S) (b : ℕ) → 1 ≤ v
    → v ≤ 100
    → (entry table v).size_perc_prev < (entry table v).size_perc
    → last_block o f ddir ≤ 2 ^ 56
    → f.io_axmap ≡ none
    → (next_rand_offset_zoned next table (length split) v o f ddir s).0 ≡ some b
    → b < last_block o f ddir
next_rand_offset_zoned_within next law split zones fresh table some_zone accepted len made v o f
      ddir s b low high part few no_map h =
    entry_drawn next law table (length split) v o f ddir s b
      (λ e. some_zone (length-zones false split ∙ e)) few no_map part perc-le h
  where
    is_split : IsSplit zones
    is_split = zone_split_ddir-IsSplit split zones some_zone accepted

    index :
        (t : List ZoneSplitIndex) × (td_zone_gen_index zones fresh ≡ some t)
        × (length t ≡ 100)
        × ((j : ℕ) → j < 100 → get_or t j no_entry ≡ entry_of zones 0 0 j)
    index = td_zone_gen_index_lem zones fresh is_split.access len

    here : entry table v ≡ entry_of zones 0 0 (v - 1)
    here =
        ap (λ (t : List ZoneSplitIndex). get_or t (v - 1) no_entry)
          (some_injective (sym made ∙ index.1))
        ∙ index.3 (v - 1) (omega arith)

    bounds :
        ((entry_of zones 0 0 (v - 1)).size_perc_prev ≤ (entry_of zones 0 0 (v - 1)).size_perc)
        × ((entry_of zones 0 0 (v - 1)).size_perc ≤ 100)
    bounds =
        entry_of-le zones 0 0 (v - 1) (omega (arith, is_split.size))
          (omega (arith, is_split.access))

    perc-le : (entry table v).size_perc ≤ 100
    perc-le = subst (λ (z : ZoneSplitIndex). z.size_perc ≤ 100) (sym here) (bounds.1)
