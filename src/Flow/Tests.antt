-- ===== src/Flow/Tests.antt =====
-- flow.c: two jobs of a flow, and the theorems where they end.
use raptor_mark.Common.{
  ℕ, zero, suc, ◌<◌, ◌≡◌, refl, arith, true, false, List, [], ◌∷◌, get_or, none, some,
}
use raptor_mark.Flow.{
  FioFlow, Job, find_flow, put_flow, del_flow, flow_get, flow_init_job, flow_threshold_exceeded,
  flow_put, flow_exit_job,
}
use raptor_mark.Flow.Listed.{}
use raptor_mark.Flow.Totals.{no_job, IsJob, IsFlows}
use raptor_mark.Flow.Steps.{
  Reached, at_start, begins, asks, ends, IsStart, Reached-IsFlows, flow_exit_job_ends,
  flows_released,
}

abbrev first : Job
first = record { flow = none; flow_counter = 0; weight = 3; flow_id = 7 }

abbrev second : Job
second = record { flow = none; flow_counter = 0; weight = 5; flow_id = 7 }

abbrev two_jobs : List Job
two_jobs = first ∷ second ∷ []

two_jobs-IsStart : IsStart two_jobs
two_jobs-IsStart = record { few = omega arith; out = out; job = fits }
  where
    out : (i : ℕ) → i < 2 → (get_or two_jobs i no_job).flow ≡ none
    out zero lt = refl
    out (suc zero) lt = refl
    out (suc (suc i)) lt = absurd (omega arith)

    fits : (i : ℕ) → i < 2 → IsJob (get_or two_jobs i no_job)
    fits zero lt = record { counter_fits = omega arith; weight_fits = omega arith }
    fits (suc zero) lt = record { counter_fits = omega arith; weight_fits = omega arith }
    fits (suc (suc i)) lt = absurd (omega arith)

abbrev seven : ℕ → ℕ → ℕ → FioFlow
seven refs flow_counter total_weight = record {
  refs = refs;
  id = 7;
  flow_counter = flow_counter;
  total_weight = total_weight;
}

abbrev first_in : ℕ → Job
first_in flow_counter = record {
  flow = some 7;
  flow_counter = flow_counter;
  weight = 3;
  flow_id = 7;
}

abbrev second_in : Job
second_in = record { flow = some 7; flow_counter = 0; weight = 5; flow_id = 7 }

first_begins : flow_init_job true first [] ≡ some (first_in 0, seven 1 1 3 ∷ [])
unfolding flow_init_job flow_get find_flow put_flow
first_begins = refl

second_begins : flow_init_job false second (seven 1 1 3 ∷ []) ≡ some (second_in, seven 2 1 8 ∷ [])
unfolding flow_init_job flow_get find_flow put_flow
second_begins = refl

first_asks :
    flow_threshold_exceeded (λ a b c d. false) (first_in 0) (seven 2 1 8 ∷ [])
    ≡ some (false, first_in 1, seven 2 2 8 ∷ [])
unfolding flow_threshold_exceeded find_flow put_flow
first_asks = refl

first_ends :
    flow_exit_job (first_in 1) (seven 2 2 8 ∷ [])
    ≡ some (record { flow = none; flow_counter = 1; weight = 3; flow_id = 7 }, seven 1 1 5 ∷ [])
unfolding flow_exit_job flow_put find_flow put_flow
first_ends = refl

second_ends : flow_exit_job second_in (seven 1 1 5 ∷ []) ≡ some (second, [])
unfolding flow_exit_job flow_put find_flow del_flow
second_ends = refl

-- Without memory there is no flow, and `flow_init_job` writes to NULL.
null_flow : flow_init_job false first [] ≡ none
unfolding flow_init_job flow_get find_flow
null_flow = refl

-- The first job has done an I/O and has ended.
abbrev late_jobs : List Job
late_jobs = record { flow = none; flow_counter = 1; weight = 3; flow_id = 7 } ∷ second_in ∷ []

late : Reached two_jobs late_jobs (seven 1 1 5 ∷ [])
late =
    ends (first_in 1 ∷ second_in ∷ []) (seven 2 2 8 ∷ []) 0 _ _
      (asks (first_in 0 ∷ second_in ∷ []) (seven 2 1 8 ∷ []) 0 (λ a b c d. false) false _ _
        (begins (first_in 0 ∷ second ∷ []) (seven 1 1 3 ∷ []) 1 false _ _
          (begins two_jobs [] 0 true _ _ at_start (omega arith) refl first_begins) (omega arith)
          refl second_begins)
        (omega arith) first_asks)
      (omega arith) first_ends

flow_exit_job_ends_example :
    (td' : Job) × (flows' : List FioFlow) × (flow_exit_job second_in (seven 1 1 5 ∷ [])
      ≡ some (td', flows'))
    × (td'.flow ≡ none)
flow_exit_job_ends_example =
    flow_exit_job_ends two_jobs late_jobs (seven 1 1 5 ∷ []) 1 two_jobs-IsStart late (omega arith)

Reached-IsFlows_example : IsFlows late_jobs (seven 1 1 5 ∷ [])
Reached-IsFlows_example =
    Reached-IsFlows two_jobs late_jobs (seven 1 1 5 ∷ []) two_jobs-IsStart late

abbrev ended_jobs : List Job
ended_jobs = record { flow = none; flow_counter = 1; weight = 3; flow_id = 7 } ∷ second ∷ []

ended : Reached two_jobs ended_jobs []
ended = ends late_jobs (seven 1 1 5 ∷ []) 1 _ _ late (omega arith) second_ends

all_out : (i : ℕ) → i < 2 → (get_or ended_jobs i no_job).flow ≡ none
all_out zero lt = refl
all_out (suc zero) lt = refl
all_out (suc (suc i)) lt = absurd (omega arith)

abbrev no_flows : List FioFlow
no_flows = []

flows_released_example : no_flows ≡ []
flows_released_example = flows_released two_jobs ended_jobs no_flows two_jobs-IsStart ended all_out
