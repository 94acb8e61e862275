-- ===== src/Zone/Split.antt =====
-- options.c: the percentages of zones that `zone_split_ddir` accepts.
use mathlib.Core.Bool.{true≢false}
use native.Mathlib.Decide.{ℕ_discrete}
use raptor_mark.Common.{
  ℕ, ◌*◌, ◌≤◌, ◌≡◌, ◌≢◌, refl, sym, ap, subst, ◌∙◌, arith, inl, inr, Bool, true, false, ◌||◌, none,
  some, List, map, length, if◌then◌else◌, ltb, ◌==◌, eq→==, ne→==, Bool-cases, ltb→ge,
  some_injective, none_ne,
}
use raptor_mark.Zone.{ZoneSplit, zone_of, given_sum, nr_missing, share, fill_size, zone_split_ddir}
use raptor_mark.Zone.Fill.{
  accesses, sizes, filled, filled_size_total, no_sizes_given, filled-access, filled-sizes,
  filled_size-access, share-le, IsSplit,
}

module _ (split : List (ℕ × ℕ)) (some_zone : length (map (zone_of false) split) ≢ 0) where
  abbrev given : List ZoneSplit
  given = map (zone_of false) split

  too_much :
      (ltb 100 (given_sum (accesses given)) || ltb 100 (given_sum (sizes given))) ≡ true
      → zone_split_ddir false split ≡ none
  unfolding zone_split_ddir
  too_much e = rw (ne→== (length given) 0 some_zone) (rw e refl)

  too_little :
      (ltb 100 (given_sum (accesses given)) || ltb 100 (given_sum (sizes given))) ≡ false
      → ltb (given_sum (accesses given)) 100 ≡ true
      → zone_split_ddir false split ≡ none
  unfolding zone_split_ddir
  too_little e e' = rw (ne→== (length given) 0 some_zone) (rw e (rw e' refl))

  accepted :
      (ltb 100 (given_sum (accesses given)) || ltb 100 (given_sum (sizes given))) ≡ false
      → ltb (given_sum (accesses given)) 100 ≡ false
      → zone_split_ddir false split ≡ (
          if nr_missing (sizes given) == 0
          then some (filled given)
          else some (
              map
                (fill_size
                  (share (given_sum (sizes given)) (nr_missing (sizes given)) (length given)))
                (filled given)))
  unfolding zone_split_ddir filled
  accepted e e' = rw (ne→== (length given) 0 some_zone) (rw e (rw e' refl))

  -- What the zones become.
  outcome :
      (zones : List ZoneSplit)
      → given_sum (accesses given) ≡ 100
      → given_sum (sizes given) ≤ 100
      → (if nr_missing (sizes given) == 0
          then some (filled given)
          else some (
              map
                (fill_size
                  (share (given_sum (sizes given)) (nr_missing (sizes given)) (length given)))
                (filled given)))
        ≡ some zones
      → IsSplit zones
  outcome zones full le h = elim (ℕ_discrete (nr_missing (sizes given)) 0) [
    | yes e ↦
        let same : filled given ≡ zones =
          some_injective (sym (rw (eq→== (nr_missing (sizes given)) 0 e) refl) ∙ h) in
        subst IsSplit same (record {
          access = filled-access given full;
          size = omega (
            arith,
            no_sizes_given (filled given) (ap nr_missing (filled-sizes given) ∙ e),
            ap given_sum (filled-sizes given),
            le,
          );
        })
    | no ne ↦
        let part = share (given_sum (sizes given)) (nr_missing (sizes given)) (length given) in
        let same : map (fill_size part) (filled given) ≡ zones =
          some_injective (sym (rw (ne→== (nr_missing (sizes given)) 0 ne) refl) ∙ h) in
        subst IsSplit same (record {
          access = filled_size-access part (filled given) ∙ filled-access given full;
          size = omega (
            arith,
            filled_size_total part (filled given),
            ap given_sum (filled-sizes given),
            ap (λ (xs : List ℕ). nr_missing xs * part) (filled-sizes given),
            share-le (given_sum (sizes given)) (nr_missing (sizes given)) (length given) le,
          );
        })
  ]

or_false_both : (a b : Bool) → (a || b) ≡ false → (a ≡ false) × (b ≡ false)
or_false_both true b h = absurd (true≢false h)
or_false_both false b h = (refl, h)

-- The zones of a relative distribution that `zone_split_ddir` accepts, when there are any: their access
-- percentages are 100 together, and their size percentages 100 at most, those that were missing included.
pub zone_split_ddir-IsSplit :
    (split : List (ℕ × ℕ)) (zones : List ZoneSplit)
    → length (map (zone_of false) split) ≢ 0
    → zone_split_ddir false split ≡ some zones
    → IsSplit zones
zone_split_ddir-IsSplit split zones some_zone h =
    elim (Bool-cases (ltb 100 (given_sum (accesses given)) || ltb 100 (given_sum (sizes given)))) [
      | inl e ↦ absurd (none_ne {a = zones} (sym (too_much split some_zone e) ∙ h))
      | inr e ↦ elim (Bool-cases (ltb (given_sum (accesses given)) 100)) [
        | inl e' ↦ absurd (none_ne {a = zones} (sym (too_little split some_zone e e') ∙ h))
        | inr e' ↦
            let both =
              or_false_both (ltb 100 (given_sum (accesses given)))
                (ltb 100 (given_sum (sizes given))) e in
            let at_most = ltb→ge 100 (given_sum (accesses given)) both.0 in
            let at_least = ltb→ge (given_sum (accesses given)) 100 e' in
            outcome split some_zone zones (omega arith)
              (ltb→ge 100 (given_sum (sizes given)) both.1)
              (sym (accepted split some_zone e e') ∙ h)
      ]
    ]
  where
    given : List ZoneSplit
    given = map (zone_of false) split
