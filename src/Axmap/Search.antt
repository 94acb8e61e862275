-- ===== src/Axmap/Search.antt =====
-- lib/axmap.c: the inner part of `axmap_find_first_free`, which searches one level.
use native.Mathlib.Decide.{dec_lt, ℕ_discrete}
use raptor_mark.Common.{
  ℕ, zero, suc, ◌+◌, ◌-◌, ◌*◌, ◌/◌, ◌%◌, ◌^◌, ◌≤◌, ◌<◌, ◌≡◌, ◌≢◌, ap, subst, ◌∙◌, inl, inr, arith,
  Option, none, some, u64, not64, Bool-cases, ◌==◌, ==→eq, ==→ne, eq→==, ne→==, le→leb, gt→leb,
  ◌<<<◌,
}
use raptor_mark.Common.Bits.{bit}
use raptor_mark.Ffz.{ffz}
use raptor_mark.Ffz.Lowest.{ffz_lowest_clear}
use raptor_mark.Axmap.{AxmapLevel, scan_words, search_level}
use raptor_mark.Axmap.Layout.{digit, word_at, low_bits, full}
use raptor_mark.Axmap.Isset.{digit_of_full}
use raptor_mark.Axmap.Candidates.{
  AllSet, IsFirstFree, IsFound, candidates, candidates_lowest, no_candidates,
}

-- What `scan_words` promises: a word that is not full, behind full ones.
abbrev IsScanned : AxmapLevel → ℕ → ℕ → Option ℕ → Type 0
IsScanned al from to none = (o : ℕ) → from ≤ o → o < to → word_at al o ≡ full
IsScanned al from to (some r) =
    (from ≤ r)
    × (r < to)
    × (word_at al r ≢ full)
    × ((o : ℕ) → from ≤ o → o < r → word_at al o ≡ full)

widen :
    (al : AxmapLevel) (from to : ℕ) (o : Option ℕ)
    → word_at al from ≡ full
    → from < to
    → IsScanned al (from + 1) to o
    → IsScanned al from to o
widen al from to none e lt h = λ o p q. elim (ℕ_discrete o from) [
  | yes same ↦ ap (word_at al) same ∙ e
  | no ne ↦ h o (omega arith) q
]
widen al from to (some r) e lt h = (
  omega (arith, h.0),
  h.1,
  h.2,
  λ o p q. elim (ℕ_discrete o from) [
    | yes same ↦ ap (word_at al) same ∙ e
    | no ne ↦ h.3 o (omega arith) q
  ],
)

scan_words_lem :
    (left : ℕ) (al : AxmapLevel) (offset : ℕ)
    → ((o : ℕ) → word_at al o < 2 ^ 64)
    → IsScanned al offset (offset + left) (scan_words left al offset)
unfolding scan_words
scan_words_lem zero al offset fits = λ o p q. absurd (omega arith)
scan_words_lem (suc left) al offset fits = elim (Bool-cases (not64 (word_at al offset) == 0)) [
  | inl busy ↦
      let e : offset + 1 + left ≡ offset + suc left = omega arith in
      rw busy (
        widen al offset (offset + suc left) _ (omega (arith, fits offset, ==→eq _ _ busy))
          (omega arith)
          (subst (λ (t : ℕ). IsScanned al (offset + 1) t (scan_words left al (offset + 1))) e
            (scan_words_lem left al (offset + 1) fits)))
  | inr free ↦ rw free (
    omega arith,
    omega arith,
    λ z. ==→ne _ _ free (omega (arith, z)),
    λ o p q. absurd (omega arith),
  )
]

-- A word that is not full, from its first digit on.
lone_word : (w : ℕ) → w < 2 ^ 64 → w ≢ full → IsFirstFree (bit w) 0 64 (ffz (not64 (not64 w)))
lone_word w fits ne =
    let e : not64 (not64 w) ≡ w = omega arith in
    let lowest = ffz_lowest_clear w fits ne in
    rw e (record {
      inside = lowest.1;
      behind = omega arith;
      free = lowest.0;
      passed = λ n p q. lowest.2 n q;
    })

-- The search within the word `o`, as one of the level.
pub within :
    (al : AxmapLevel) (o b k to : ℕ)
    → IsFirstFree (bit (word_at al o)) b 64 k
    → o < to
    → IsFirstFree (digit al) (o * 64 + b) (to * 64) (o * 64 + k)
within al o b k to h lt = record {
  inside = omega (arith, h.inside);
  behind = omega (arith, h.behind);
  free = at k h.inside ∙ h.free;
  passed = λ n p q.
      let lt : n - o * 64 < 64 = omega (arith, h.inside) in
      let e : n ≡ o * 64 + (n - o * 64) = omega arith in
      ap (digit al) e ∙ at (n - o * 64) lt ∙ h.passed (n - o * 64) (omega arith) (omega arith);
}
  where
    at : (j : ℕ) → j < 64 → digit al (o * 64 + j) ≡ bit (word_at al o) j
    at j lt =
        let q : (o * 64 + j) / 64 ≡ o = omega arith in
        let m : (o * 64 + j) % 64 ≡ j = omega arith in λ i. bit (word_at al (q i)) (m i)

-- Where the word of `start` has nothing free from `start` on, the search goes on in the next words.
module _ (al : AxmapLevel) (start : ℕ)
    (rest_set : AllSet (bit (word_at al (start / 64))) (start % 64) 64) where
  up_to :
      (o : ℕ)
      → ((w : ℕ) → start / 64 + 1 ≤ w → w < o → word_at al w ≡ full)
      → AllSet (digit al) start (o * 64)
  up_to o full_words n p q = elim (ℕ_discrete (n / 64) (start / 64)) [
    | yes same ↦
        ap (λ (t : ℕ). bit (word_at al t) (n % 64)) same
        ∙ rest_set (n % 64) (omega (arith, same)) (omega arith)
    | no ne ↦ digit_of_full al n (full_words (n / 64) (omega (arith, ne)) (omega arith))
  ]

  scanned :
      (to : ℕ) (o : Option ℕ)
      → start / 64 < to
      → ((k : ℕ) → word_at al k < 2 ^ 64)
      → to ≤ 2 ^ 56
      → IsScanned al (start / 64 + 1) to o
      → IsFound (digit al) start (to * 64) (elim o [
        | none ↦ none
        | some r ↦ some (u64 (r <<< 6) + ffz (not64 (not64 (word_at al r))))
      ])
  scanned to none lt fits small h = up_to to h
  scanned to (some r) lt fits small h =
      let e : u64 (r <<< 6) ≡ r * 64 = omega (arith, h.1) in
      let found = within al r 0 _ to (lone_word (word_at al r) (fits r) h.2) h.1 in
      rw e (record {
        inside = found.inside;
        behind = omega (arith, h.0);
        free = found.free;
        passed = λ n p q. elim (dec_lt n (r * 64)) [
          | yes before ↦ up_to r h.3 n p before
          | no inside ↦ found.passed n (omega arith) q
        ];
      })

-- The search of a level gives its first free digit from `start` on.
pub search_level_lem :
    (al : AxmapLevel) (start : ℕ)
    → ((o : ℕ) → word_at al o < 2 ^ 64)
    → al.map_size ≤ 2 ^ 56
    → IsFound (digit al) start (al.map_size * 64) (search_level al start)
unfolding search_level
search_level_lem al start words small =
    rw (low_bits start) (elim (dec_lt (start / 64) al.map_size) [
      | no out ↦ rw (le→leb al.map_size (start / 64) (omega arith)) (λ n p q. absurd (omega arith))
      | yes in_range ↦
          rw (gt→leb al.map_size (start / 64) in_range) (elim (ℕ_discrete (candidates w b) 0) [
            | yes nothing ↦ rw (eq→== _ _ nothing) (
                scanned al start (no_candidates w b b-lt (words o) nothing) al.map_size _ in_range
                  words small
                  (subst
                    (λ (t : ℕ).
                      IsScanned al (o + 1) t (scan_words (al.map_size - (o + 1)) al (o + 1)))
                    (omega arith) (scan_words_lem (al.map_size - (o + 1)) al (o + 1) words)))
            | no some_free ↦
                let e : u64 (o <<< 6) ≡ o * 64 = omega arith in
                rw (ne→== _ _ some_free, e)
                  (subst
                    (λ (t : ℕ).
                      IsFirstFree (digit al) t (al.map_size * 64)
                        (o * 64 + ffz (not64 (candidates w b))))
                    (omega arith)
                    (within al o b _ al.map_size (candidates_lowest w b b-lt (words o) some_free)
                      in_range))
          ])
    ])
  where
    o : ℕ
    o = start / 64

    b : ℕ
    b = start % 64

    b-lt : b < 64
    b-lt = omega arith

    w : ℕ
    w = word_at al o
