-- ===== src/Axmap/Runs.antt =====
-- Runs of clear digits, moved, extended and cut.
use raptor_mark.Common.{
  ℕ, ◌+◌, ◌-◌, ◌≤◌, ◌<◌, ◌≡◌, ◌≢◌, ap, sym, ◌∙◌, ◌⊎◌, inl, inr, arith, ◌==◌, Bool-cases, true,
  false, ==→eq, ltb, ltb→lt, ltb→ge,
}
use raptor_mark.Axmap.Digits.{run, run-le, run_unique, run_clear, run_ends}

-- A run depends on the digits that it looks at only.
pub run_cong :
    (f g : ℕ → ℕ) (a b n : ℕ) → ((j : ℕ) → j < n → f (a + j) ≡ g (b + j)) → run f a n ≡ run g b n
run_cong f g a b n same =
    run_unique f a n (run g b n) (run-le g b n)
      (λ i p q.
        let e : a + (i - a) ≡ i = omega arith in
        sym (ap f e)
        ∙ same (i - a) (omega (arith, run-le g b n))
        ∙ run_clear g b n (b + (i - a)) (omega arith) (omega arith))
      (ends (Bool-cases (run g b n == n)))
  where
    ends :
        ((run g b n == n) ≡ true) ⊎ ((run g b n == n) ≡ false)
        → (run g b n ≡ n) ⊎ (f (a + run g b n) ≢ 0)
    ends (inl e) = inl (==→eq _ _ e)
    ends (inr e) =
        let lt : run g b n < n = ground (arith, run-le g b n) in
        inr (λ z. run_ends g b n lt (sym (same (run g b n) lt) ∙ z))

-- A run that fills its `m` places goes on behind them.
pub run_on : (f : ℕ → ℕ) (a m c : ℕ) → run f a m ≡ m → run f a (m + c) ≡ m + run f (a + m) c
run_on f a m c e =
    run_unique f a (m + c) (m + run f (a + m) c) (omega (arith, run-le f (a + m) c))
      (λ i p q. clear i p q (Bool-cases (ltb i (a + m)))) (ends (Bool-cases (run f (a + m) c == c)))
  where
    clear :
        (i : ℕ)
        → a ≤ i
        → i < a + (m + run f (a + m) c)
        → (ltb i (a + m) ≡ true) ⊎ (ltb i (a + m) ≡ false)
        → f i ≡ 0
    clear i p q (inl lt) = run_clear f a m i p (omega (arith, e, ltb→lt _ _ lt))
    clear i p q (inr ge) = run_clear f (a + m) c i (omega (arith, ltb→ge _ _ ge)) (omega arith)

    ends :
        ((run f (a + m) c == c) ≡ true) ⊎ ((run f (a + m) c == c) ≡ false)
        → (m + run f (a + m) c ≡ m + c) ⊎ (f (a + (m + run f (a + m) c)) ≢ 0)
    ends (inl same) = inl (omega (arith, ==→eq _ _ same))
    ends (inr short) =
        let lt : run f (a + m) c < c = ground (arith, run-le f (a + m) c) in
        inr (λ z. run_ends f (a + m) c lt (ap f (omega arith) ∙ z))

-- A run that stops before its `m` places are full stays as it is.
pub run_stops : (f : ℕ → ℕ) (a m c : ℕ) → run f a m ≢ m → run f a (m + c) ≡ run f a m
run_stops f a m c ne =
    run_unique f a (m + c) (run f a m) (omega (arith, run-le f a m))
      (λ i p q. run_clear f a m i p q) (inr (run_ends f a m (omega (arith, run-le f a m))))
