-- ===== src/Flow/Steps.antt =====
-- flow.c: any order of its functions on the jobs of a run.
use raptor_mark.Common.{
  ℕ, suc, ◌^◌, ◌<◌, ◌≡◌, ◌≢◌, refl, sym, subst, ◌∙◌, arith, Bool, List, [], ◌∷◌, length, get_or,
  set, none, some, none_ne, some_injective, eq→==,
}
use raptor_mark.Flow.{
  FioFlow, Job, find_flow, flow_init_job, flow_threshold_exceeded, flow_exit_job,
}
use raptor_mark.Flow.Listed.{occurs}
use raptor_mark.Flow.Totals.{no_job, total, one, share_none, IsJob, IsFlows}
use raptor_mark.Flow.Exit.{flow_exit_job-IsFlows}
use raptor_mark.Flow.Threshold.{flow_threshold_exceeded-IsFlows}
use raptor_mark.Flow.Init.{flow_init_job-IsFlows}

-- What is reached from jobs that are in no flow: a job in no flow begins, a job asks whether it goes too fast,
-- whatever the ratios are, or a job ends.
pub data Reached (start : List Job) : List Job → List FioFlow → Type 0 where
  at_start : Reached start start []
  begins :
      (jobs : List Job) (flows : List FioFlow) (i : ℕ) (allocated : Bool) (td' : Job)
      (flows' : List FioFlow)
      → Reached start jobs flows
      → i < length jobs
      → (get_or jobs i no_job).flow ≡ none
      → flow_init_job allocated (get_or jobs i no_job) flows ≡ some (td', flows')
      → Reached start (set jobs i td') flows'
  asks :
      (jobs : List Job) (flows : List FioFlow) (i : ℕ) (above : ℕ → ℕ → ℕ → ℕ → Bool) (r : Bool)
      (td' : Job) (flows' : List FioFlow)
      → Reached start jobs flows
      → i < length jobs
      → flow_threshold_exceeded above (get_or jobs i no_job) flows ≡ some (r, td', flows')
      → Reached start (set jobs i td') flows'
  ends :
      (jobs : List Job) (flows : List FioFlow) (i : ℕ) (td' : Job) (flows' : List FioFlow)
      → Reached start jobs flows
      → i < length jobs
      → flow_exit_job (get_or jobs i no_job) flows ≡ some (td', flows')
      → Reached start (set jobs i td') flows'

-- Jobs before they begin.
pub record IsStart (jobs : List Job) : Type 0 where
  pub few : length jobs < 2 ^ 32
  pub out : (i : ℕ) → i < length jobs → (get_or jobs i no_job).flow ≡ none
  pub job : (i : ℕ) → i < length jobs → IsJob (get_or jobs i no_job)

-- Jobs in no flow add nothing.
total_out :
    (amount : Job → ℕ) (id : ℕ) (jobs : List Job)
    → ((i : ℕ) → i < length jobs → (get_or jobs i no_job).flow ≡ none)
    → total amount id jobs ≡ 0
unfolding total
total_out amount id [] out = refl
total_out amount id (td ∷ jobs) out = omega (
  arith,
  share_none amount id td (out 0 (omega arith)),
  total_out amount id jobs (λ i lt. out (suc i) (omega arith)),
)

start-IsFlows : (jobs : List Job) → IsStart jobs → IsFlows jobs []
unfolding occurs find_flow
start-IsFlows jobs s = record {
  unique = λ id. omega arith;
  counted = λ id. record {
    listed = λ flow found. absurd (none_ne {a = flow} found);
    unlisted = λ missed. total_out one id jobs s.out;
  };
  few = s.few;
  job = s.job;
}

-- In any order of the functions of flow.c on less than 2^32 jobs: no two flows have one id; a flow is in the
-- list just if a job is in it; it counts its jobs, and, as unsigned words, one and the I/Os that they have
-- counted, and their weights.
pub Reached-IsFlows :
    (start jobs : List Job) (flows : List FioFlow)
    → IsStart start
    → Reached start jobs flows
    → IsFlows jobs flows
Reached-IsFlows start jobs flows s at_start = start-IsFlows start s
Reached-IsFlows start jobs flows s (begins js fs i allocated td' fs' before lt out h) =
    flow_init_job-IsFlows js fs i (Reached-IsFlows start js fs s before) lt out allocated td' fs' h
Reached-IsFlows start jobs flows s (asks js fs i above r td' fs' before lt h) =
    let done =
      flow_threshold_exceeded-IsFlows above js fs i (Reached-IsFlows start js fs s before) lt in
    let same : (r, td', fs') ≡ (done.0, done.1, done.2) = some_injective (sym h ∙ done.3) in
    subst (λ (x : Bool × Job × List FioFlow). IsFlows (set js i x.1) x.2) (sym same) done.4
Reached-IsFlows start jobs flows s (ends js fs i td' fs' before lt h) =
    let done = flow_exit_job-IsFlows js fs i (Reached-IsFlows start js fs s before) lt in
    let same : (td', fs') ≡ (done.0, done.1) = some_injective (sym h ∙ done.2) in
    subst (λ (x : Job × List FioFlow). IsFlows (set js i x.0) x.1) (sym same) done.4

-- In any order of the functions of flow.c on less than 2^32 jobs, `flow_exit_job` follows no bad pointer and
-- its assertion, that the counter of a flow is back at one when its last job ends, holds.
pub flow_exit_job_ends :
    (start jobs : List Job) (flows : List FioFlow) (i : ℕ)
    → IsStart start
    → Reached start jobs flows
    → i < length jobs
    → (td' : Job) × (flows' : List FioFlow) × (flow_exit_job (get_or jobs i no_job) flows
        ≡ some (td', flows'))
      × (td'.flow ≡ none)
flow_exit_job_ends start jobs flows i s reached lt =
    let done = flow_exit_job-IsFlows jobs flows i (Reached-IsFlows start jobs flows s reached) lt in
    (done.0, done.1, done.2, done.3)

nothing_listed :
    (flows : List FioFlow)
    → ((id : ℕ) (flow : FioFlow) → find_flow id flows ≢ some flow)
    → flows ≡ []
unfolding find_flow
nothing_listed [] h = refl
nothing_listed (flow ∷ flows) h = absurd (h flow.id flow (rw (eq→== flow.id flow.id refl) refl))

-- In any order of the functions of flow.c on less than 2^32 jobs, no flow is left when no job is in one.
pub flows_released :
    (start jobs : List Job) (flows : List FioFlow)
    → IsStart start
    → Reached start jobs flows
    → ((i : ℕ) → i < length jobs → (get_or jobs i no_job).flow ≡ none)
    → flows ≡ []
flows_released start jobs flows s reached out = nothing_listed flows λ id flow found.
    let v = Reached-IsFlows start jobs flows s reached in
    let shared = (v.counted id).listed flow found in
    absurd (omega (arith, shared.used, total_out one id jobs out))
