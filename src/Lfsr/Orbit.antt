-- ===== src/Lfsr/Orbit.antt =====
-- Iteration of a function that maps different states to different states, on finitely many states.
use native.Mathlib.Decide.{ℕ_discrete}
use raptor_mark.Common.{
  ℕ, zero, suc, ◌+◌, ◌-◌, ◌≤◌, ◌<◌, ◌≡◌, refl, sym, ap, ◌∙◌, arith, ◌⊎◌, inl, inr, ◌==◌,
  if◌then◌else◌, eq→==, ne→==,
}
use raptor_mark.Common.Count.{free_count, free_count_range}

-- The numbers among the first `k` of a sequence.
seen : (ℕ → ℕ) → ℕ → ℕ → ℕ
seen x zero v = 0
seen x (suc k) v = if v == x k then 1 else seen x k v

seen_at :
    (x : ℕ → ℕ) (k v : ℕ) → (seen x k v ≡ 0) ⊎ (seen x k v ≡ 1) × (i : ℕ) × (i < k) × (x i ≡ v)
unfolding seen
seen_at x zero v = inl refl
seen_at x (suc k) v = elim (ℕ_discrete v (x k)) [
  | yes e ↦ rw (eq→== v (x k) e) (inr (refl, k, omega arith, sym e))
  | no ne ↦
      rw (ne→== v (x k) ne) (elim (seen_at x k v) [
        | inl z ↦ inl z
        | inr (one, i, lt, e) ↦ inr (one, i, omega arith, e)
      ])
]

free_count_empty : (n : ℕ) → free_count (λ m. 0) n ≡ n
unfolding free_count
free_count_empty zero = refl
free_count_empty (suc n) = omega (arith, free_count_empty n)

-- Each new number takes one from the count of those that are left.
repeated :
    (x : ℕ → ℕ) (total k : ℕ)
    → ((i : ℕ) → x i < total)
    → ((i : ℕ) × (j : ℕ) × (i < j) × (j < k) × (x i ≡ x j))
      ⊎ (free_count (seen x k) total + k ≡ total)
unfolding seen free_count
repeated x total zero bound = inr (omega (arith, free_count_empty total))
repeated x total (suc k) bound = elim (repeated x total k bound) [
  | inl (i, j, lt, j-lt, e) ↦ inl (i, j, lt, omega arith, e)
  | inr left ↦ elim (seen_at x k (x k)) [
    | inr (one, i, lt, e) ↦ inl (i, k, lt, omega arith, e)
    | inl fresh ↦ inr (
        omega (
          arith,
          left,
          bound k,
          free_count_range (seen x k) (seen x (suc k)) (x k) 1 total
              (λ m lt. sym (rw (ne→== m (x k) (omega arith)) refl))
              (λ m le lt. ap (seen x k) {x = m} {y = x k} (omega arith) ∙ fresh)
              (λ m le lt. rw (eq→== m (x k) (omega arith)) refl)
              (λ m le. sym (rw (ne→== m (x k) (omega arith)) refl)),
        ))
  ]
]

unfoldable pub times : {S : Type 0} → (S → S) → ℕ → S → S
times f zero s = s
times f (suc n) s = times f n (f s)

pub times-suc : {S : Type 0} (f : S → S) (n : ℕ) (s : S) → times f (suc n) s ≡ f (times f n s)
unfolding times
times-suc f zero s = refl
times-suc f (suc n) s = times-suc f n (f s)

-- A state is told by its code, a number below `total`.
module _ {S : Type 0} (f : S → S) (Valid : S → Type 0) (code : S → ℕ) (total : ℕ)
    (kept : (s : S) → Valid s → Valid (f s)) (code-lt : (s : S) → Valid s → code s < total)
    (apart : (s t : S) → Valid s → Valid t → code (f s) ≡ code (f t) → code s ≡ code t) where
  pub times-Valid : (n : ℕ) (s : S) → Valid s → Valid (times f n s)
  unfolding times
  times-Valid zero s v = v
  times-Valid (suc n) s v = times-Valid n (f s) (kept s v)

  -- Where two iterates meet, the later one has met the start before.
  back :
      (i d : ℕ) (s : S)
      → Valid s
      → code (times f i s) ≡ code (times f (i + d) s)
      → code s ≡ code (times f d s)
  unfolding times
  back zero d s v h = h ∙ ap (λ (n : ℕ). code (times f n s)) {x = 0 + d} {y = d} (omega arith)
  back (suc i) d s v h = back i d s v (
      apart (times f i s) (times f (i + d) s) (times-Valid i s v) (times-Valid (i + d) s v) (
        sym (ap code (times-suc f i s))
        ∙ h
        ∙ ap (λ (n : ℕ). code (times f n s)) {x = suc i + d} {y = suc (i + d)} (omega arith)
        ∙ ap code (times-suc f (i + d) s)))

  -- Each state comes again, within as many steps as there are codes.
  pub returns : (s : S) → Valid s → (d : ℕ) × (0 < d) × (d ≤ total) × (code (times f d s) ≡ code s)
  returns s v =
      elim (repeated (λ i. code (times f i s)) total (suc total)
        (λ i. code-lt (times f i s) (times-Valid i s v))) [
          | inr left ↦ absurd (omega arith)
          | inl (i, j, lt, j-lt, e) ↦ (
            j - i,
            omega arith,
            omega arith,
            sym (
                back i (j - i) s v
                  (e ∙ ap (λ (n : ℕ). code (times f n s)) {y = i + (j - i)} (omega arith))),
          )
        ]
