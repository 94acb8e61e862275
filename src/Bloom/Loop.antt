-- ===== src/Bloom/Loop.antt =====
-- lib/bloom.c: the loop of `__bloom_check` over the hashes, when it sets digits and when it only looks.
use native.Mathlib.Decide.{ℕ_discrete}
use raptor_mark.Common.{
  ℕ, ◌+◌, ◌/◌, ◌≤◌, ◌<◌, ◌≡◌, ◌≢◌, refl, sym, ap, ◌∙◌, arith, ◌⊎◌, inl, inr, Bool, true, false,
  List, [], ◌∷◌, length, length-set, some, lt→ltb,
}
use raptor_mark.Bloom.{check_loop}
use raptor_mark.Bloom.Digits.{
  digit, digit-lt-two, found_true, found_false, put_digit, digit-put_here, digit-put_other,
}

-- A number of a list.
abbrev pub Among : ℕ → List ℕ → Type 0
Among n [] = ⊥
Among n (h ∷ hs) = (n ≡ h) ⊎ Among n hs

-- Every hash has its digit inside the map.
abbrev pub AllInside : List ℕ → ℕ → Type 0
AllInside hs len = (n : ℕ) → Among n hs → n / 32 < len

digit-cases : (words : List ℕ) (n : ℕ) → (digit words n ≡ 1) ⊎ (digit words n ≡ 0)
digit-cases words n = omega (arith, digit-lt-two words n)

module _ (h : ℕ) (hs : List ℕ) (was : ℕ) (words : List ℕ) (inside : h / 32 < length words) where
  pub check_found :
      (put : Bool)
      → digit words h ≡ 1
      → check_loop put (h ∷ hs) was words ≡ check_loop put hs (was + 1) words
  unfolding check_loop
  check_found put e = rw (lt→ltb (h / 32) (length words) inside) (rw (found_true words h e) refl)

  pub check_put :
      digit words h ≡ 0
      → check_loop true (h ∷ hs) was words ≡ check_loop true hs was (put_digit words h)
  unfolding check_loop
  check_put e = rw (lt→ltb (h / 32) (length words) inside) (rw (found_false words h e) refl)

  pub check_stop : digit words h ≡ 0 → check_loop false (h ∷ hs) was words ≡ some (was, words)
  unfolding check_loop
  check_stop e = rw (lt→ltb (h / 32) (length words) inside) (rw (found_false words h e) refl)

-- The digits of the hashes are set, and no other changes.
pub record IsPut (before : List ℕ) (hs : List ℕ) (after : List ℕ) : Type 0 where
  pub same_length : length after ≡ length before
  pub put : (n : ℕ) → Among n hs → digit after n ≡ 1
  pub kept : (n : ℕ) → digit before n ≡ 1 → digit after n ≡ 1
  pub only : (n : ℕ) → digit after n ≡ 1 → (digit before n ≡ 1) ⊎ Among n hs

-- One more digit in front.
IsPut-cons :
    (before middle after : List ℕ) (h : ℕ) (hs : List ℕ)
    → length middle ≡ length before
    → digit middle h ≡ 1
    → ((n : ℕ) → n ≢ h → digit middle n ≡ digit before n)
    → IsPut middle hs after
    → IsPut before (h ∷ hs) after
IsPut-cons before middle after h hs len here others rest = record {
  same_length = rest.same_length ∙ len;
  put = λ n among. elim among [
    | inl e ↦ ap (λ (t : ℕ). digit after t) e ∙ rest.kept h here
    | inr later ↦ rest.put n later
  ];
  kept = λ n set. elim (ℕ_discrete n h) [
    | yes e ↦ ap (λ (t : ℕ). digit after t) e ∙ rest.kept h here
    | no ne ↦ rest.kept n (others n ne ∙ set)
  ];
  only = λ n set. elim (ℕ_discrete n h) [
    | yes e ↦ inr (inl e)
    | no ne ↦ elim (rest.only n set) [
      | inl old ↦ inl (sym (others n ne) ∙ old)
      | inr later ↦ inr (inr later)
    ]
  ];
}

pub check_loop-IsPut :
    (hs : List ℕ) (was : ℕ) (words : List ℕ)
    → AllInside hs (length words)
    → (was' : ℕ) × (after : List ℕ) × (check_loop true hs was words ≡ some (was', after))
      × IsPut words hs after
unfolding check_loop
check_loop-IsPut [] was words inside = (
  was,
  words,
  refl,
  record {
    same_length = refl;
    put = λ n no_such. absurd no_such;
    kept = λ n set. set;
    only = λ n set. inl set;
  },
)
check_loop-IsPut (h ∷ hs) was words inside = elim (digit-cases words h) [
  | inl set ↦
      let rest = check_loop-IsPut hs (was + 1) words (λ n among. inside n (inr among)) in
      (
        rest.0,
        rest.1,
        check_found h hs was words (inside h (inl refl)) true set ∙ rest.2,
        IsPut-cons words words rest.1 h hs refl set (λ n ne. refl) rest.3,
      )
  | inr clear ↦
      let len : length (put_digit words h) ≡ length words = length-set words (h / 32) _ in
      let rest =
        check_loop-IsPut hs was (put_digit words h)
          (λ n among. omega (arith, inside n (inr among), len)) in
      (
        rest.0,
        rest.1,
        check_put h hs was words (inside h (inl refl)) clear ∙ rest.2,
        IsPut-cons words (put_digit words h) rest.1 h hs len
            (digit-put_here words h (inside h (inl refl)))
            (digit-put_other words h (inside h (inl refl))) rest.3,
      )
]

-- Looking changes nothing, and counts all hashes just if all their digits are set.
pub record IsLook (words : List ℕ) (hs : List ℕ) (was was' : ℕ) : Type 0 where
  pub at_most : was' ≤ was + length hs
  pub all_set : ((n : ℕ) → Among n hs → digit words n ≡ 1) → was' ≡ was + length hs
  pub only_set : was' ≡ was + length hs → (n : ℕ) → Among n hs → digit words n ≡ 1

pub check_loop-IsLook :
    (hs : List ℕ) (was : ℕ) (words : List ℕ)
    → AllInside hs (length words)
    → (was' : ℕ) × (check_loop false hs was words ≡ some (was', words)) × IsLook words hs was was'
unfolding check_loop
check_loop-IsLook [] was words inside = (
  was,
  refl,
  record {
    at_most = omega arith;
    all_set = λ all. omega arith;
    only_set = λ e n no_such. absurd no_such;
  },
)
check_loop-IsLook (h ∷ hs) was words inside = elim (digit-cases words h) [
  | inl set ↦
      let rest = check_loop-IsLook hs (was + 1) words (λ n among. inside n (inr among)) in
      (
        rest.0,
        check_found h hs was words (inside h (inl refl)) false set ∙ rest.1,
        record {
          at_most = omega (arith, rest.2.at_most);
          all_set = λ all. omega (arith, rest.2.all_set (λ n among. all n (inr among)));
          only_set = λ e n among. elim among [
            | inl here ↦ ap (λ (t : ℕ). digit words t) here ∙ set
            | inr later ↦ rest.2.only_set (omega (arith, e)) n later
          ];
        },
      )
  | inr clear ↦ (
    was,
    check_stop h hs was words (inside h (inl refl)) clear,
    record {
      at_most = omega arith;
      all_set = λ all. absurd (omega (arith, all h (inl refl), clear));
      only_set = λ e. absurd (omega (arith, e));
    },
  )
]
