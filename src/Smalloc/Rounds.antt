-- ===== src/Smalloc/Rounds.antt =====
-- smalloc.c: `blocks_iter`, one word of the bitmap a round.
use native.Mathlib.Decide.{dec_lt, ℕ_discrete}
use raptor_mark.Common.{
  ℕ, zero, suc, ◌+◌, ◌-◌, ◌*◌, ◌^◌, ◌≤◌, ◌<◌, ◌≡◌, ◌≢◌, refl, sym, ap, subst, ◌∙◌, arith, min, ◌⊎◌,
  Bool, true, Option, some, List, length, length-set, get_or, set, get_or-set_self, get_or-set_ne,
  eq→==, ne→==, gt→leb,
}
use raptor_mark.Common.Bits.{bit}
use raptor_mark.Smalloc.{this_round, round_mask, blocks_iter}
use raptor_mark.Smalloc.Blocks.{
  busy, WordsFit, AllBlocks, IsChanged, this_round-min, IsMask, round_mask-IsMask, IsMasked,
  IsMaskChange,
}

busy-set_ne :
    (bitmap : List ℕ) (i j k word : ℕ) → i ≢ j → busy (set bitmap i word) j k ≡ busy bitmap j k
unfolding busy
busy-set_ne bitmap i j k word ne = ap (λ (w : ℕ). bit w k) (get_or-set_ne bitmap i j word 0 ne)

busy-set_self :
    (bitmap : List ℕ) (i j k word : ℕ)
    → i < length bitmap
    → j ≡ i
    → busy (set bitmap i word) j k ≡ bit word k
unfolding busy
busy-set_self bitmap i j k word lt e =
    ap (λ (t : ℕ). bit (get_or (set bitmap i word) t 0) k) e
    ∙ ap (λ (w : ℕ). bit w k) (get_or-set_self bitmap i word 0 lt)

busy-word : (bitmap : List ℕ) (i j k : ℕ) → j ≡ i → busy bitmap j k ≡ bit (get_or bitmap i 0) k
unfolding busy
busy-word bitmap i j k e = ap (λ (t : ℕ). bit (get_or bitmap t 0) k) e

no_blocks-IsChanged :
    (bitmap : List ℕ) (b n d : ℕ) → n ≡ 0 → WordsFit bitmap → IsChanged bitmap b n d bitmap
no_blocks-IsChanged bitmap b n d e fit = record {
  same_length = refl;
  fit = fit;
  inside = λ j k lt le lt'. absurd (omega (arith, e));
  below = λ j k lt h. refl;
  above = λ j k lt h. refl;
}

-- One round: the digits of word `i`.
set_word-IsChanged :
    (bitmap : List ℕ) (i idx this mask d word : ℕ)
    → i < length bitmap
    → idx + this ≤ 32
    → WordsFit bitmap
    → IsMask idx this mask
    → IsMasked (get_or bitmap i 0) mask d word
    → IsChanged bitmap (i * 32 + idx) this d (set bitmap i word)
set_word-IsChanged bitmap i idx this mask d word lt within fit im m = record {
  same_length = length-set bitmap i word;
  fit = λ j. elim (ℕ_discrete i j) [
    | yes e ↦
        subst (λ (w : ℕ). w < 2 ^ 32)
          (sym (get_or-set_self bitmap i word 0 lt)
            ∙ ap (λ (t : ℕ). get_or (set bitmap i word) t 0) e)
          m.fit
    | no ne ↦ subst (λ (w : ℕ). w < 2 ^ 32) (sym (get_or-set_ne bitmap i j word 0 ne)) (fit j)
  ];
  inside = λ j k k-lt le h.
      busy-set_self bitmap i j k word lt (omega arith)
      ∙ m.ones k k-lt (im.ones k (omega arith) (omega arith));
  below = λ j k k-lt h. elim (ℕ_discrete i j) [
    | yes e ↦ kept j k k-lt (sym e) (im.low k (omega (arith, e)))
    | no ne ↦ busy-set_ne bitmap i j k word ne
  ];
  above = λ j k k-lt h. elim (ℕ_discrete i j) [
    | yes e ↦ kept j k k-lt (sym e) (im.high k (omega (arith, e)))
    | no ne ↦ busy-set_ne bitmap i j k word ne
  ];
}
  where
    kept :
        (j k : ℕ) → k < 32 → j ≡ i → bit mask k ≡ 0 → busy (set bitmap i word) j k ≡ busy bitmap j k
    kept j k k-lt e z =
        busy-set_self bitmap i j k word lt e ∙ m.zeros k k-lt z ∙ sym (busy-word bitmap i j k e)

-- Two adjacent ranges.
IsChanged-append :
    (before mid after : List ℕ) (b this next left n d : ℕ)
    → IsChanged before b this d mid
    → IsChanged mid next left d after
    → n ≡ this + left
    → (left ≡ 0) ⊎ (next ≡ b + this)
    → IsChanged before b n d after
IsChanged-append before mid after b this next left n d f s total at = record {
  same_length = s.same_length ∙ f.same_length;
  fit = s.fit;
  inside = λ j k lt le h. elim (dec_lt (j * 32 + k) (b + this)) [
    | yes first ↦ second_out j k lt (omega arith) ∙ f.inside j k lt le first
    | no then ↦ s.inside j k lt (omega arith) (omega arith)
  ];
  below = λ j k lt h. second_out j k lt (omega arith) ∙ f.below j k lt h;
  above = λ j k lt h. second_out j k lt (omega arith) ∙ f.above j k lt (omega arith);
}
  where
    second_out :
        (j k : ℕ)
        → k < 32
        → (j * 32 + k < b + this) ⊎ (b + n ≤ j * 32 + k)
        → busy after j k ≡ busy mid j k
    second_out j k lt out = elim (dec_lt (j * 32 + k) next) [
      | yes before ↦ s.below j k lt before
      | no behind ↦ s.above j k lt (omega (arith, out, at))
    ]

-- The range lies in the bitmap, and a round is left for each of its blocks.
pub record IsRange (rounds words : ℕ) (bitmap : List ℕ) (i idx n : ℕ) : Type 0 where
  pub enough : n ≤ rounds
  pub idx-lt : idx < 32
  pub small : n < 2 ^ 31
  pub words_eq : length bitmap ≡ words
  pub inside : i * 32 + idx + n ≤ words * 32
  pub fit : WordsFit bitmap

-- A round takes the blocks up to the end of the word.
one_round :
    (func : ℕ → ℕ → Option (Bool × ℕ)) (want d : ℕ)
    → IsMaskChange func want d
    → (rounds words : ℕ) (bitmap : List ℕ) (i idx n : ℕ) → n ≢ 0
    → IsRange (suc rounds) words bitmap i idx n
    → AllBlocks bitmap (i * 32 + idx) n want
    → (bitmap' : List ℕ) × (blocks_iter func (suc rounds) words bitmap i idx n
        ≡ blocks_iter func rounds words bitmap' (i + 1) 0 (n - this_round idx n))
      × IsChanged bitmap (i * 32 + idx) (this_round idx n) d bitmap'
unfolding blocks_iter
one_round func want d change rounds words bitmap i idx n ne r all = (
  set bitmap i went.0,
  rw (ne→== n 0 ne)
      (rw (gt→leb words i (omega (arith, r.inside, ne))) (rw round.1 (rw went.1 refl))),
  set_word-IsChanged bitmap i idx this round.0 d went.0 (omega (arith, r.inside, r.words_eq, ne))
      (omega (arith, this_min, r.idx-lt)) r.fit round.2 went.2,
)
  where
    this : ℕ
    this = this_round idx n

    this_min : this ≡ min n (32 - idx)
    this_min = this_round-min idx n r.idx-lt r.small

    round : (mask : ℕ) × (round_mask this idx ≡ some mask) × IsMask idx this mask
    round = round_mask-IsMask this idx r.idx-lt (omega (arith, this_min, r.idx-lt))

    word : ℕ
    word = get_or bitmap i 0

    wanted : (k : ℕ) → k < 32 → bit round.0 k ≡ 1 → bit word k ≡ want
    wanted k lt one = elim (dec_lt k idx) [
      | yes below ↦ absurd (omega (arith, one, round.2.low k below))
      | no from ↦ elim (dec_lt k (idx + this)) [
        | yes inside ↦
            sym (busy-word bitmap i i k refl) ∙ all i k lt (omega arith) (omega (arith, this_min))
        | no above ↦ absurd (omega (arith, one, round.2.high k (omega arith)))
      ]
    ]

    went : (word' : ℕ) × (func word round.0 ≡ some (true, word')) × IsMasked word round.0 d word'
    went = change word round.0 (r.fit i) round.2.fit wanted

next-IsRange :
    (rounds words : ℕ) (bitmap bitmap' : List ℕ) (i idx n b d : ℕ)
    → n ≢ 0
    → IsRange (suc rounds) words bitmap i idx n
    → IsChanged bitmap b (this_round idx n) d bitmap'
    → IsRange rounds words bitmap' (i + 1) 0 (n - this_round idx n)
next-IsRange rounds words bitmap bitmap' i idx n b d ne r c =
    let this_min = this_round-min idx n r.idx-lt r.small in
    record {
      enough = omega (arith, this_min, r.enough, ne, r.idx-lt);
      idx-lt = omega arith;
      small = omega (arith, r.small);
      words_eq = c.same_length ∙ r.words_eq;
      inside = omega (arith, this_min, r.inside, r.idx-lt, ne);
      fit = c.fit;
    }

none_left :
    (func : ℕ → ℕ → Option (Bool × ℕ)) (rounds words : ℕ) (bitmap : List ℕ) (i idx n : ℕ)
    → n ≡ 0
    → blocks_iter func rounds words bitmap i idx n ≡ some (true, bitmap)
unfolding blocks_iter
none_left func zero words bitmap i idx n e = refl
none_left func (suc rounds) words bitmap i idx n e = rw (eq→== n 0 e) refl

-- A range whose blocks all have the digit that the operation wants is worked off to its end.
pub blocks_iter-IsChanged :
    (func : ℕ → ℕ → Option (Bool × ℕ)) (want d : ℕ)
    → IsMaskChange func want d
    → (rounds words : ℕ) (bitmap : List ℕ) (i idx n : ℕ) → IsRange rounds words bitmap i idx n
    → AllBlocks bitmap (i * 32 + idx) n want
    → (bitmap' : List ℕ) × (blocks_iter func rounds words bitmap i idx n ≡ some (true, bitmap'))
      × IsChanged bitmap (i * 32 + idx) n d bitmap'
blocks_iter-IsChanged func want d change zero words bitmap i idx n r all = (
  bitmap,
  none_left func 0 words bitmap i idx n (omega (arith, r.enough)),
  no_blocks-IsChanged bitmap _ n d (omega (arith, r.enough)) r.fit,
)
blocks_iter-IsChanged func want d change (suc rounds) words bitmap i idx n r all =
    elim (ℕ_discrete n 0) [
      | yes e ↦ (
        bitmap,
        none_left func (suc rounds) words bitmap i idx n e,
        no_blocks-IsChanged bitmap _ n d e r.fit,
      )
      | no ne ↦
          let this = this_round idx n in
          let this_min = this_round-min idx n r.idx-lt r.small in
          let first = one_round func want d change rounds words bitmap i idx n ne r all in
          let mid = first.0 in
          let range = next-IsRange rounds words bitmap mid i idx n (i * 32 + idx) d ne r first.2 in
          let rest =
            blocks_iter-IsChanged func want d change rounds words mid (i + 1) 0 (n - this) range
              (λ j k lt le h.
                first.2.above j k lt (omega (arith, this_min))
                ∙ all j k lt (omega arith) (omega (arith, this_min))) in
          (
            rest.0,
            first.1 ∙ rest.1,
            IsChanged-append bitmap mid rest.0 (i * 32 + idx) this ((i + 1) * 32 + 0) (n - this) n d
                first.2 rest.2 (omega (arith, this_min)) (omega (arith, this_min)),
          )
    ]
