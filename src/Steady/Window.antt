-- ===== src/Steady/Window.antt =====
-- steadystate.c: the ring of samples and the running sum of steadystate_deviation.
use native.Mathlib.Decide.{ℕ_discrete}
use native.Mathlib.Nat.{mod-lt, mod_self, mod-eq_of_lt}
use mathlib.Core.Bool.{true≢false}
use raptor_mark.Common.{
  ℕ, zero, suc, ◌+◌, ◌-◌, ◌%◌, ◌^◌, ◌<◌, ◌≡◌, ◌≢◌, refl, ap, sym, ◌∙◌, arith, Bool, true, false,
  ◌||◌, Bool-cases, inl, inr, List, [], ◌∷◌, u64, sub32, if◌then◌else◌, ◌==◌, eq→==, ne→==, ==→eq,
  ==→ne, length, get_or, set, length-set, get_or-set_self, get_or-set_ne,
}
use raptor_mark.Steady.{
  SteadyState, samples, sum_loop, store, is_ready, update_sum, advance, steadystate_deviation,
}

abbrev pub total : List ℕ → ℕ
total [] = 0
total (y ∷ ys) = y + total ys

sum_loop_lem : (sum : ℕ) (ys : List ℕ) → sum < 2 ^ 64 → sum_loop sum ys ≡ (sum + total ys) % 2 ^ 64
unfolding sum_loop
sum_loop_lem sum [] lt = omega arith
sum_loop_lem sum (y ∷ ys) lt = sum_loop_lem (u64 (sum + y)) ys (omega arith) ∙ omega arith

total-set :
    (ys : List ℕ) (i v : ℕ) → i < length ys → total (set ys i v) + get_or ys i 0 ≡ total ys + v
total-set [] i v lt = absurd (omega arith)
total-set (y ∷ ys) zero v lt = omega arith
total-set (y ∷ ys) (suc i) v lt = omega (arith, total-set ys i v (omega arith))

-- What holds between two samples: before the ring is full it begins in the first place; after that the
-- place to write next is the oldest, whose sample is at hand, and the sum is that of the samples.
pub record IsWindow (intervals : ℕ) (ss : SteadyState) : Type 0 where
  pub some_interval : (0 < intervals) × (intervals < 2 ^ 32)
  pub stored : length (samples ss) ≡ intervals
  pub words : (i : ℕ) → get_or (samples ss) i 0 < 2 ^ 64
  pub tail : ss.tail < intervals
  pub begin : ss.full ≡ false → ss.head ≡ 0
  pub behind : ss.full ≡ true → ss.head ≡ (ss.tail + 1) % intervals
  pub oldest : ss.full ≡ true → ss.oldest_y ≡ get_or (samples ss) ss.tail 0
  pub sum : ss.full ≡ true → ss.sum_y ≡ total (samples ss) % 2 ^ 64

-- What a call that reports the steady state leaves: the ring is full and its place is not moved on, and
-- the comparison held on the samples and their sum.
pub record IsStopped (attained : List ℕ → ℕ → Bool) (intervals : ℕ) (ss : SteadyState)
    : Type 0 where
  pub full : ss.full ≡ true
  pub stored : length (samples ss) ≡ intervals
  pub words : (i : ℕ) → get_or (samples ss) i 0 < 2 ^ 64
  pub sum : ss.sum_y ≡ total (samples ss) % 2 ^ 64
  pub holds : attained (samples ss) ss.sum_y ≡ true

-- The samples behind a new one.
samples-store :
    (iops bw : ℕ) (ss : SteadyState)
    → samples (store iops bw ss) ≡ set (samples ss) ss.tail (if ss.by_iops then iops else bw)
unfolding samples store
samples-store iops bw ss = elim (Bool-cases ss.by_iops) [ inl e ↦ rw e refl | inr e ↦ rw e refl ]

module _ (n iops bw : ℕ) (ss : SteadyState) (h : IsWindow n ss) (p : iops < 2 ^ 64)
    (q : bw < 2 ^ 64) where
  v : ℕ
  v = if ss.by_iops then iops else bw

  v-lt : v < 2 ^ 64
  unfolding v
  v-lt = elim (Bool-cases ss.by_iops) [ inl e ↦ rw e p | inr e ↦ rw e q ]

  abbrev now : SteadyState
  now = store iops bw ss

  stored_now : length (samples now) ≡ n
  stored_now = ap length (samples-store iops bw ss) ∙ length-set (samples ss) ss.tail _ ∙ h.stored

  here : get_or (samples now) ss.tail 0 ≡ v
  unfolding v
  here =
      ap (λ (ys : List ℕ). get_or ys ss.tail 0) (samples-store iops bw ss)
      ∙ get_or-set_self (samples ss) ss.tail _ 0 (omega (arith, h.stored, h.tail))

  elsewhere : (i : ℕ) → ss.tail ≢ i → get_or (samples now) i 0 ≡ get_or (samples ss) i 0
  elsewhere i ne =
      ap (λ (ys : List ℕ). get_or ys i 0) (samples-store iops bw ss)
      ∙ get_or-set_ne (samples ss) ss.tail i _ 0 ne

  sum_moved : total (samples now) + get_or (samples ss) ss.tail 0 ≡ total (samples ss) + v
  unfolding v
  sum_moved =
      ap (λ (ys : List ℕ). total ys + get_or (samples ss) ss.tail 0) (samples-store iops bw ss)
      ∙ total-set (samples ss) ss.tail _ (omega (arith, h.stored, h.tail))

  -- The sum after the update, whether it is the first or not.
  sum_now : (update_sum now).sum_y ≡ total (samples now) % 2 ^ 64
  unfolding update_sum store samples
  sum_now = elim (Bool-cases ss.full) [
    | inl full ↦
        rw full (omega (arith, h.sum full, h.oldest full, here, sum_moved, v-lt, h.words ss.tail))
    | inr first ↦ rw first (sum_loop_lem 0 (samples now) (omega arith) ∙ omega arith)
  ]

  words_now : (i : ℕ) → get_or (samples now) i 0 < 2 ^ 64
  words_now i = elim (ℕ_discrete ss.tail i) [
    | yes e ↦ omega (arith, sym (ap (λ (j : ℕ). get_or (samples now) j 0) e) ∙ here, v-lt)
    | no ne ↦ omega (arith, elsewhere i ne, h.words i)
  ]

  stopped :
      (attained : List ℕ → ℕ → Bool)
      → attained (samples (update_sum now)) (update_sum now).sum_y ≡ true
      → IsStopped attained n (update_sum now)
  unfolding update_sum store samples
  stopped attained end = record {
    full = refl;
    stored = stored_now;
    words = words_now;
    sum = sum_now;
    holds = end;
  }

  -- Where the ring is full, the oldest sample stands behind the newest.
  head_next : is_ready n now ≡ true → ss.head ≡ (ss.tail + 1) % n
  unfolding is_ready store
  head_next ready = elim (Bool-cases ss.full) [
    | inl full ↦ h.behind full
    | inr first ↦
        let at_end : sub32 ss.tail ss.head ≡ n - 1 =
          ==→eq (sub32 ss.tail ss.head) (n - 1)
            (sym (ap (λ (b : Bool). b || (sub32 ss.tail ss.head == n - 1)) first) ∙ ready) in
        let last : ss.tail + 1 ≡ n =
          omega (arith, at_end, h.begin first, h.tail, h.some_interval.0, h.some_interval.1) in
        h.begin first ∙ sym (mod_self n) ∙ ap (λ (t : ℕ). t % n) (sym last)
  ]

  full-IsWindow : is_ready n now ≡ true → IsWindow n (advance n (update_sum now))
  unfolding advance update_sum store samples
  full-IsWindow ready =
      let e = head_next ready in
      rw (eq→== ((ss.tail + 1) % n) ss.head (sym e)) (record {
        some_interval = h.some_interval;
        stored = stored_now;
        words = words_now;
        tail = mod-lt (ss.tail + 1) h.some_interval.0;
        begin = λ f. absurd (true≢false f);
        behind = λ f. ap (λ (t : ℕ). (t + 1) % n) e;
        oldest = λ f. ap (λ (t : ℕ). get_or (samples now) t 0) e;
        sum = λ f. sum_now;
      })

  filling-IsWindow : is_ready n now ≡ false → IsWindow n (advance n now)
  unfolding advance is_ready store samples
  filling-IsWindow not_ready = elim (Bool-cases ss.full) [
    | inl full ↦ absurd (
        true≢false
          (sym (ap (λ (b : Bool). b || (sub32 ss.tail ss.head == n - 1)) full) ∙ not_ready))
    | inr first ↦
        let short : sub32 ss.tail ss.head ≢ n - 1 =
          ==→ne (sub32 ss.tail ss.head) (n - 1)
            (sym (ap (λ (b : Bool). b || (sub32 ss.tail ss.head == n - 1)) first) ∙ not_ready) in
        let e : (ss.tail + 1) % n ≡ ss.tail + 1 =
          mod-eq_of_lt
            (omega (arith, short, h.begin first, h.tail, h.some_interval.0, h.some_interval.1)) in
        rw (ne→== ((ss.tail + 1) % n) ss.head (λ z. omega (arith, z, e, h.begin first))) (record {
          some_interval = h.some_interval;
          stored = stored_now;
          words = words_now;
          tail = mod-lt (ss.tail + 1) h.some_interval.0;
          begin = λ f. h.begin first;
          behind = λ f. absurd (true≢false (sym f ∙ first));
          oldest = λ f. absurd (true≢false (sym f ∙ first));
          sum = λ f. absurd (true≢false (sym f ∙ first));
        })
  ]

-- What a call leaves.
abbrev pub IsKept : (List ℕ → ℕ → Bool) → ℕ → Bool × SteadyState → Type 0
IsKept attained intervals (false, ss) = IsWindow intervals ss
IsKept attained intervals (true, ss) = IsStopped attained intervals ss

-- A call of steadystate_deviation on a well-formed ring that does not report the steady state leaves a
-- well-formed ring, whose running sum is, once the ring is full, the sum of the samples in it, modulo
-- 2^64. A call that reports it leaves a full ring of as many samples, all of 64 bits, whose running sum
-- is theirs, modulo 2^64, and the comparison with the limit holds of the samples and this sum.
pub steadystate_deviation-IsKept :
    (attained : List ℕ → ℕ → Bool) (intervals iops bw : ℕ) (ss : SteadyState)
    → IsWindow intervals ss
    → iops < 2 ^ 64
    → bw < 2 ^ 64
    → IsKept attained intervals (steadystate_deviation attained intervals iops bw ss)
unfolding steadystate_deviation
steadystate_deviation-IsKept attained n iops bw ss h p q =
    elim (Bool-cases (is_ready n (store iops bw ss))) [
      | inr not_ready ↦ rw not_ready (filling-IsWindow n iops bw ss h p q not_ready)
      | inl ready ↦
          let summed = update_sum (store iops bw ss) in
          rw ready (elim (Bool-cases (attained (samples summed) summed.sum_y)) [
            | inr go_on ↦ rw go_on (full-IsWindow n iops bw ss h p q ready)
            | inl end ↦ rw end (stopped n iops bw ss h p q attained end)
          ])
    ]
