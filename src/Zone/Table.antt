-- ===== src/Zone/Table.antt =====
-- zone-dist.c: the table that `__td_zone_gen_index` makes.
use native.Mathlib.Decide.{dec_lt, ℕ_discrete}
use raptor_mark.Common.{
  ℕ, zero, suc, ◌+◌, ◌-◌, ◌≤◌, ◌<◌, ◌≡◌, refl, ap, ◌∙◌, arith, ◌⊎◌, inl, some, List, [], ◌∷◌,
  length, get_or, set, length-set, get_or-set_self, get_or-set_ne, if◌then◌else◌, ltb, lt→ltb,
  ge→ltb, u8, u64,
}
use raptor_mark.Zone.{
  ZoneSplit, ZoneSplitIndex, gen_entries, gen_zones, td_zone_gen_index, no_entry,
}
use raptor_mark.Zone.Fill.{access_total}

-- Entries `j` to `j + n` are `zsi`, the others as before.
record IsFilled (before : List ZoneSplitIndex) (j n : ℕ) (zsi : ZoneSplitIndex)
    (after : List ZoneSplitIndex) : Type 0 where
  same_length : length after ≡ length before
  inside : (k : ℕ) → j ≤ k → k < j + n → get_or after k no_entry ≡ zsi
  outside : (k : ℕ) → (k < j) ⊎ (j + n ≤ k) → get_or after k no_entry ≡ get_or before k no_entry

gen_entries-IsFilled :
    (n j : ℕ) (zsi : ZoneSplitIndex) (table : List ZoneSplitIndex)
    → j + n ≤ length table
    → (after : List ZoneSplitIndex) × (gen_entries n j zsi table ≡ some after)
      × IsFilled table j n zsi after
unfolding gen_entries
gen_entries-IsFilled zero j zsi table fits = (
  table,
  refl,
  record { same_length = refl; inside = λ k le lt. absurd (omega arith); outside = λ k out. refl },
)
gen_entries-IsFilled (suc n) j zsi table fits =
    let rest =
      gen_entries-IsFilled n (j + 1) zsi (set table j zsi)
        (omega (arith, length-set table j zsi)) in
    rw (lt→ltb j (length table) (omega arith)) (
      rest.0,
      rest.1,
      record {
        same_length = rest.2.same_length ∙ length-set table j zsi;
        inside = λ k le lt. elim (ℕ_discrete k j) [
          | yes e ↦
              rest.2.outside k (omega (arith, e))
              ∙ ap (λ (t : ℕ). get_or (set table j zsi) t no_entry) e
              ∙ get_or-set_self table j zsi no_entry (omega arith)
          | no ne ↦ rest.2.inside k (omega (arith, ne)) (omega arith)
        ];
        outside = λ k out.
            rest.2.outside k (omega (arith, out))
            ∙ get_or-set_ne table j k zsi no_entry (omega (arith, out));
      },
    )

-- The entry of the zone that the percentage `j` of the accesses falls into, with what lies in front of it.
unfoldable pub entry_of : List ZoneSplit → ℕ → ℕ → ℕ → ZoneSplitIndex
entry_of [] sprev sprev_sz j = no_entry
entry_of (z ∷ zones) sprev sprev_sz j =
    let later =
      entry_of zones (sprev + z.size_perc) (u64 (sprev_sz + z.size)) (j - z.access_perc) in
    if ltb j z.access_perc
    then record {
      size_perc = u8 (sprev + z.size_perc);
      size_perc_prev = u8 sprev;
      size = u64 (sprev_sz + z.size);
      size_prev = sprev_sz;
    }
    else later

gen_zones_lem :
    (zones : List ZoneSplit) (aprev sprev sprev_sz : ℕ) (table : List ZoneSplitIndex)
    → aprev + access_total zones ≤ length table
    → (after : List ZoneSplitIndex) × (gen_zones zones aprev sprev sprev_sz table ≡ some after)
      × (length after ≡ length table)
      × ((k : ℕ) → k < aprev → get_or after k no_entry ≡ get_or table k no_entry)
      × ((j : ℕ)
          → j < access_total zones
          → get_or after (aprev + j) no_entry ≡ entry_of zones sprev sprev_sz j)
unfolding gen_zones access_total entry_of
gen_zones_lem [] aprev sprev sprev_sz table fits =
    (table, refl, refl, λ k lt. refl, λ j lt. absurd (omega arith))
gen_zones_lem (z ∷ zones) aprev sprev sprev_sz table fits =
    let zsi : ZoneSplitIndex = record {
      size_perc = u8 (sprev + z.size_perc);
      size_perc_prev = u8 sprev;
      size = u64 (sprev_sz + z.size);
      size_prev = sprev_sz;
    } in
    let mine = gen_entries-IsFilled z.access_perc aprev zsi table (omega arith) in
    let rest =
      gen_zones_lem zones (aprev + z.access_perc) (sprev + z.size_perc) (u64 (sprev_sz + z.size))
        mine.0 (omega (arith, mine.2.same_length)) in
    rw (gen_zones, mine.1)
      (
        rest.0,
        rest.1,
        rest.2 ∙ mine.2.same_length,
        λ k lt. rest.3 k (omega arith) ∙ mine.2.outside k (inl lt),
        λ j lt. elim (dec_lt j z.access_perc) [
          | yes here ↦
              rest.3 (aprev + j) (omega arith)
              ∙ mine.2.inside (aprev + j) (omega arith) (omega arith)
              ∙ rw (lt→ltb j z.access_perc here) refl
          | no later ↦
              ap (λ (t : ℕ). get_or rest.0 t no_entry) {x = aprev + j}
                {y = aprev + z.access_perc + (j - z.access_perc)} (omega arith)
              ∙ rest.4 (j - z.access_perc) (omega arith)
              ∙ rw (ge→ltb j z.access_perc (omega arith)) refl
        ],
      )

-- On zones whose access percentages are 100 together, `__td_zone_gen_index` writes inside its hundred
-- entries, and each of these is the entry of the zone that its percentage of the accesses falls into.
pub td_zone_gen_index_lem :
    (zones : List ZoneSplit) (fresh : List ZoneSplitIndex)
    → access_total zones ≡ 100
    → length fresh ≡ 100
    → (table : List ZoneSplitIndex) × (td_zone_gen_index zones fresh ≡ some table)
      × (length table ≡ 100)
      × ((j : ℕ) → j < 100 → get_or table j no_entry ≡ entry_of zones 0 0 j)
unfolding td_zone_gen_index
td_zone_gen_index_lem zones fresh full len =
    let g = gen_zones_lem zones 0 0 0 fresh (omega (arith, full, len)) in
    (
      g.0,
      g.1,
      g.2 ∙ len,
      λ j lt.
          ap (λ (t : ℕ). get_or g.0 t no_entry) {x = j} {y = 0 + j} (omega arith)
          ∙ g.4 j (omega (arith, full)),
    )
