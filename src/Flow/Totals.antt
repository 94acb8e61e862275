-- ===== src/Flow/Totals.antt =====
-- flow.c: what the jobs of a flow add up to, and what the list of flows keeps of it.
use native.Mathlib.Decide.{ℕ_discrete}
use raptor_mark.Common.{
  ℕ, zero, suc, ◌+◌, ◌%◌, ◌^◌, ◌≤◌, ◌<◌, ◌≡◌, ◌≢◌, refl, sym, ap, ◌∙◌, arith, inl, inr, List, [],
  ◌∷◌, length, get_or, set, none, some, ◌==◌, eq→==, ne→==, Bool-cases, Option-cases, if◌then◌else◌,
}
use raptor_mark.Flow.{FioFlow, Job, find_flow}
use raptor_mark.Flow.Listed.{occurs}

-- A job that is not there.
abbrev pub no_job : Job
no_job = record { flow = none; flow_counter = 0; weight = 0; flow_id = 0 }

-- What a job adds to the sum of its flow.
unfoldable pub share_of : (Job → ℕ) → ℕ → Job → ℕ
share_of amount id td = elim td.flow [ none ↦ 0 | some k ↦ if k == id then amount td else 0 ]

unfoldable pub total : (Job → ℕ) → ℕ → List Job → ℕ
total amount id [] = 0
total amount id (td ∷ jobs) = share_of amount id td + total amount id jobs

abbrev pub one : Job → ℕ
one td = 1

abbrev pub counter : Job → ℕ
counter td = td.flow_counter

abbrev pub weight_of : Job → ℕ
weight_of td = td.weight

module _ (amount : Job → ℕ) (id : ℕ) where
  pub share_none : (td : Job) → td.flow ≡ none → share_of amount id td ≡ 0
  unfolding share_of
  share_none td e = rw e refl

  pub share_self : (td : Job) → td.flow ≡ some id → share_of amount id td ≡ amount td
  unfolding share_of
  share_self td e = rw e (rw (eq→== id id refl) refl)

  pub share_other : (td : Job) (k : ℕ) → td.flow ≡ some k → id ≢ k → share_of amount id td ≡ 0
  unfolding share_of
  share_other td k e ne = rw e (rw (ne→== k id (λ same. ne (sym same))) refl)

  pub total-set :
      (jobs : List Job) (i : ℕ) (td : Job)
      → i < length jobs
      → total amount id (set jobs i td) + share_of amount id (get_or jobs i no_job)
        ≡ total amount id jobs + share_of amount id td
  unfolding total
  total-set [] i td lt = absurd (omega arith)
  total-set (t ∷ jobs) zero td lt = omega arith
  total-set (t ∷ jobs) (suc i) td lt = omega (arith, total-set jobs i td (omega arith))

share-le-one : (id : ℕ) (td : Job) → share_of one id td ≤ 1
unfolding share_of
share-le-one id td = elim (Option-cases td.flow) [
  | inl e ↦ rw e (omega arith)
  | inr (k, e) ↦ elim (Bool-cases (k == id)) [
    | inl same ↦ rw e (rw same (omega arith))
    | inr other ↦ rw e (rw other (omega arith))
  ]
]

pub total-le : (id : ℕ) (jobs : List Job) → total one id jobs ≤ length jobs
unfolding total
total-le id [] = omega arith
total-le id (td ∷ jobs) = omega (arith, share-le-one id td, total-le id jobs)

-- A flow without jobs has nothing to add up.
pub total-zero :
    (amount : Job → ℕ) (id : ℕ) (jobs : List Job) → total one id jobs ≡ 0 → total amount id jobs ≡ 0
unfolding total
total-zero amount id [] h = refl
total-zero amount id (td ∷ jobs) h = elim (Option-cases td.flow) [
  | inl e ↦ omega (arith, total-zero amount id jobs (omega (arith, h)), share_none amount id td e)
  | inr (k, e) ↦ elim (ℕ_discrete k id) [
    | yes same ↦ absurd (omega (arith, h, share_self one id td (e ∙ ap some same)))
    | no ne ↦ omega (
      arith,
      total-zero amount id jobs (omega (arith, h)),
      share_other amount id td k e (λ t. ne (sym t)),
    )
  ]
]

pub share-le-total :
    (amount : Job → ℕ) (id : ℕ) (jobs : List Job) (i : ℕ)
    → i < length jobs
    → share_of amount id (get_or jobs i no_job) ≤ total amount id jobs
share-le-total amount id jobs i lt =
    omega (arith, total-set amount id jobs i no_job lt, share_none amount id no_job refl)

-- A flow counts its jobs, their I/Os and their weights.
pub record IsShared (jobs : List Job) (id : ℕ) (flow : FioFlow) : Type 0 where
  pub refs : flow.refs ≡ total one id jobs
  pub used : 0 < total one id jobs
  pub sum : flow.flow_counter ≡ (1 + total counter id jobs) % 2 ^ 64
  pub weights : flow.total_weight ≡ total weight_of id jobs % 2 ^ 32

pub record IsCounted (jobs : List Job) (flows : List FioFlow) (id : ℕ) : Type 0 where
  pub listed : (flow : FioFlow) → find_flow id flows ≡ some flow → IsShared jobs id flow
  pub unlisted : find_flow id flows ≡ none → total one id jobs ≡ 0

pub record IsJob (td : Job) : Type 0 where
  pub counter_fits : td.flow_counter < 2 ^ 64
  pub weight_fits : td.weight < 2 ^ 32

-- The flows are those of the jobs.
pub record IsFlows (jobs : List Job) (flows : List FioFlow) : Type 0 where
  pub unique : (id : ℕ) → occurs id flows ≤ 1
  pub counted : (id : ℕ) → IsCounted jobs flows id
  pub few : length jobs < 2 ^ 32
  pub job : (i : ℕ) → i < length jobs → IsJob (get_or jobs i no_job)
