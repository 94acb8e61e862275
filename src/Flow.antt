-- ===== src/Flow.antt =====
-- flow.c: jobs of a flow group share the counter of its I/Os, and the group goes when its last job ends. A
-- pointer to a flow is its id, since the list has one flow of an id; `none` stands for a NULL pointer or one
-- to no flow that is followed, and for a failed assertion. The comparison of the two ratios is in floating
-- point and an argument. The lock is there: each function runs alone.
pub mod Listed
pub mod Totals
pub mod Change
pub mod Exit
pub mod Threshold
pub mod Init
pub mod Steps
mod Tests
use raptor_mark.Common.{
  ℕ, ◌+◌, ◌-◌, ◌%◌, ◌^◌, u32, u64, sub32, sub64, Bool, true, false, Option, none, some, List, [],
  ◌∷◌, ◌++◌, if◌then◌else◌, ◌==◌,
}

-- `struct fio_flow`
pub record FioFlow : Type 0 where
  pub refs : ℕ
  pub id : ℕ
  pub flow_counter : ℕ
  pub total_weight : ℕ

-- What flow.c uses of `struct thread_data`, with `o.flow` and `o.flow_id`.
pub record Job : Type 0 where
  pub flow : Option ℕ
  pub flow_counter : ℕ
  pub weight : ℕ
  pub flow_id : ℕ

-- The search of `flow_get`, which also follows a pointer.
unfoldable pub find_flow : ℕ → List FioFlow → Option FioFlow
find_flow id [] = none
find_flow id (flow ∷ flows) =
    let rest = find_flow id flows in if flow.id == id then some flow else rest

-- A write to the flow of an id.
unfoldable pub put_flow : ℕ → FioFlow → List FioFlow → List FioFlow
put_flow id flow' [] = []
put_flow id flow' (flow ∷ flows) =
    let rest = put_flow id flow' flows in if flow.id == id then flow' ∷ flows else flow ∷ rest

-- flist_del
unfoldable pub del_flow : ℕ → List FioFlow → List FioFlow
del_flow id [] = []
del_flow id (flow ∷ flows) =
    let rest = del_flow id flows in if flow.id == id then flows else flow ∷ rest

unfoldable pub flow_get : Bool → ℕ → List FioFlow → Option (List FioFlow)
flow_get allocated id flows = elim (find_flow id flows) [
  | some flow ↦ some (put_flow id (record flow { refs = u32 (flow.refs + 1) }) flows)
  | none ↦
      if allocated
      then some (flows ++ (record { refs = 1; id = id; flow_counter = 1; total_weight = 0 } ∷ []))
      else none
]

unfoldable pub flow_init_job : Bool → Job → List FioFlow → Option (Job × List FioFlow)
flow_init_job allocated td flows =
    let got = flow_get allocated td.flow_id flows in
    let added : List FioFlow → Option (Job × List FioFlow) = λ flows'.
      elim (find_flow td.flow_id flows') [
        | none ↦ none
        | some flow ↦ some (
          record td { flow = some td.flow_id; flow_counter = 0 },
          put_flow td.flow_id (record flow { total_weight = u32 (flow.total_weight + td.weight) })
              flows',
        )
      ] in
    if td.weight == 0
    then some (td, flows)
    else elim got [ none ↦ none | some flows' ↦ added flows' ]

-- `above` compares the ratios of the counters and of the weights.
unfoldable pub flow_threshold_exceeded :
    (ℕ → ℕ → ℕ → ℕ → Bool) → Job → List FioFlow → Option (Bool × Job × List FioFlow)
flow_threshold_exceeded above td flows = elim td.flow [
  | none ↦ some (false, td, flows)
  | some id ↦ elim (find_flow id flows) [
    | none ↦ none
    | some flow ↦
        if above td.flow_counter flow.flow_counter td.weight flow.total_weight
        then some (true, td, flows)
        else some (
          false,
          record td { flow_counter = u64 (td.flow_counter + 1) },
          put_flow id (record flow { flow_counter = u64 (flow.flow_counter + 1) }) flows,
        )
  ]
]

unfoldable pub flow_put : ℕ → ℕ → ℕ → List FioFlow → Option (List FioFlow)
flow_put id flow_counter weight flows = elim (find_flow id flows) [
  | none ↦ none
  | some flow ↦
      let flow' : FioFlow = record flow {
        refs = sub32 flow.refs 1;
        flow_counter = sub64 flow.flow_counter flow_counter;
        total_weight = sub32 flow.total_weight weight;
      } in
      if flow'.refs == 0
      then if flow'.flow_counter == 1 then some (del_flow id flows) else none
      else some (put_flow id flow' flows)
]

unfoldable pub flow_exit_job : Job → List FioFlow → Option (Job × List FioFlow)
flow_exit_job td flows = elim td.flow [
  | none ↦ some (td, flows)
  | some id ↦ elim (flow_put id td.flow_counter td.weight flows) [
    | none ↦ none
    | some flows' ↦ some (record td { flow = none }, flows')
  ]
]
