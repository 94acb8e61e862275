-- ===== src/Zone/Fill.antt =====
-- options.c: the percentages of zones, and the missing ones filled up.
use native.Mathlib.Decide.{ℕ_discrete}
use native.Mathlib.Nat.{div-mul-le_self}
use raptor_mark.Common.{
  ℕ, suc, ◌+◌, ◌-◌, ◌*◌, ◌≤◌, ◌≡◌, refl, sym, ap, ◌∙◌, arith, inl, inr, ◌&&◌, List, [], ◌∷◌, map,
  length, if◌then◌else◌, ◌==◌, eq→==, ne→==, Bool-cases,
}
use raptor_mark.Zone.{ZoneSplit, given_sum, nr_missing, share, fill_access, fill_size}

-- The percentages of all zones together.
unfoldable pub access_total : List ZoneSplit → ℕ
access_total [] = 0
access_total (z ∷ zones) = z.access_perc + access_total zones

unfoldable pub size_total : List ZoneSplit → ℕ
size_total [] = 0
size_total (z ∷ zones) = z.size_perc + size_total zones

abbrev pub accesses : List ZoneSplit → List ℕ
accesses zones = map (λ (z : ZoneSplit). z.access_perc) zones

abbrev pub sizes : List ZoneSplit → List ℕ
sizes zones = map (λ (z : ZoneSplit). z.size_perc) zones

filled_access_total :
    (part : ℕ) (zones : List ZoneSplit)
    → access_total (map (fill_access part) zones)
      ≡ given_sum (accesses zones) + nr_missing (accesses zones) * part
unfolding access_total given_sum nr_missing fill_access
filled_access_total part [] = omega arith
filled_access_total part (z ∷ zones) = elim (ℕ_discrete z.access_perc 255) [
  | yes e ↦ rw (eq→== z.access_perc 255 e) (omega (arith, filled_access_total part zones))
  | no ne ↦ rw (ne→== z.access_perc 255 ne) (omega (arith, filled_access_total part zones))
]

pub filled_size_total :
    (part : ℕ) (zones : List ZoneSplit)
    → size_total (map (fill_size part) zones)
      ≡ given_sum (sizes zones) + nr_missing (sizes zones) * part
unfolding size_total given_sum nr_missing fill_size
filled_size_total part [] = omega arith
filled_size_total part (z ∷ zones) = elim (ℕ_discrete z.size_perc 255) [
  | yes e ↦ rw (eq→== z.size_perc 255 e) (omega (arith, filled_size_total part zones))
  | no ne ↦ rw (ne→== z.size_perc 255 ne) (omega (arith, filled_size_total part zones))
]

all_given :
    (zones : List ZoneSplit)
    → nr_missing (accesses zones) ≡ 0
    → access_total zones ≡ given_sum (accesses zones)
unfolding access_total given_sum nr_missing
all_given [] h = refl
all_given (z ∷ zones) h = elim (ℕ_discrete z.access_perc 255) [
  | yes e ↦
      let one_more : nr_missing (accesses (z ∷ zones)) ≡ suc (nr_missing (accesses zones)) =
        rw (eq→== z.access_perc 255 e) refl in
      absurd (omega (arith, one_more, h))
  | no ne ↦
      let same : nr_missing (accesses (z ∷ zones)) ≡ nr_missing (accesses zones) =
        rw (ne→== z.access_perc 255 ne) refl in
      rw (ne→== z.access_perc 255 ne) (omega (arith, all_given zones (sym same ∙ h)))
]

-- To fill up one percentage leaves the other.
filled_access-sizes :
    (part : ℕ) (zones : List ZoneSplit) → sizes (map (fill_access part) zones) ≡ sizes zones
unfolding fill_access
filled_access-sizes part [] = refl
filled_access-sizes part (z ∷ zones) = elim (Bool-cases (z.access_perc == 255)) [
  | inl e ↦ rw e (ap (λ (xs : List ℕ). z.size_perc ∷ xs) (filled_access-sizes part zones))
  | inr e ↦ rw e (ap (λ (xs : List ℕ). z.size_perc ∷ xs) (filled_access-sizes part zones))
]

pub filled_size-access :
    (part : ℕ) (zones : List ZoneSplit)
    → access_total (map (fill_size part) zones) ≡ access_total zones
unfolding fill_size access_total
filled_size-access part [] = refl
filled_size-access part (z ∷ zones) = elim (Bool-cases (z.size_perc == 255)) [
  | inl e ↦ rw e (ap (λ (n : ℕ). z.access_perc + n) (filled_size-access part zones))
  | inr e ↦ rw e (ap (λ (n : ℕ). z.access_perc + n) (filled_size-access part zones))
]

pub share-le : (sum missed nr : ℕ) → sum ≤ 100 → missed * share sum missed nr + sum ≤ 100
unfolding share
share-le sum missed nr le = elim (Bool-cases ((missed == 1) && (nr == 1))) [
  | inl e ↦ rw e (omega (arith, div-mul-le_self 0 missed))
  | inr e ↦ rw e (omega (arith, div-mul-le_self (100 - sum) missed))
]

pub no_sizes_given :
    (zones : List ZoneSplit)
    → nr_missing (sizes zones) ≡ 0
    → size_total zones ≡ given_sum (sizes zones)
unfolding size_total given_sum nr_missing
no_sizes_given [] h = refl
no_sizes_given (z ∷ zones) h = elim (ℕ_discrete z.size_perc 255) [
  | yes e ↦
      let one_more : nr_missing (sizes (z ∷ zones)) ≡ suc (nr_missing (sizes zones)) =
        rw (eq→== z.size_perc 255 e) refl in
      absurd (omega (arith, one_more, h))
  | no ne ↦
      let same : nr_missing (sizes (z ∷ zones)) ≡ nr_missing (sizes zones) =
        rw (ne→== z.size_perc 255 ne) refl in
      rw (ne→== z.size_perc 255 ne) (omega (arith, no_sizes_given zones (sym same ∙ h)))
]

-- The zones with the access percentages filled up.
unfoldable pub filled : List ZoneSplit → List ZoneSplit
filled zones =
    if nr_missing (accesses zones) == 0
    then zones
    else map
        (fill_access
          (share (given_sum (accesses zones)) (nr_missing (accesses zones)) (length zones)))
        zones

pub filled-access :
    (zones : List ZoneSplit) → given_sum (accesses zones) ≡ 100 → access_total (filled zones) ≡ 100
unfolding filled share
filled-access zones full = elim (ℕ_discrete (nr_missing (accesses zones)) 0) [
  | yes e ↦ rw (eq→== (nr_missing (accesses zones)) 0 e) (all_given zones e ∙ full)
  | no ne ↦ rw (ne→== (nr_missing (accesses zones)) 0 ne) (
      filled_access_total
        (share (given_sum (accesses zones)) (nr_missing (accesses zones)) (length zones)) zones
      ∙ omega (
        arith,
        full,
        share-le (given_sum (accesses zones)) (nr_missing (accesses zones)) (length zones)
            (omega (arith, full)),
      ))
]

pub filled-sizes : (zones : List ZoneSplit) → sizes (filled zones) ≡ sizes zones
unfolding filled
filled-sizes zones = elim (Bool-cases (nr_missing (accesses zones) == 0)) [
  | inl e ↦ rw e refl
  | inr e ↦ rw e (filled_access-sizes _ zones)
]

-- The percentages of accepted zones: the accesses are all of them, the sizes at most all.
pub record IsSplit (zones : List ZoneSplit) : Type 0 where
  pub access : access_total zones ≡ 100
  pub size : size_total zones ≤ 100
