-- ===== src/Flow/Threshold.antt =====
-- flow.c: `flow_threshold_exceeded`.
use raptor_mark.Common.{
  ℕ, ◌+◌, ◌<◌, ◌≡◌, refl, sym, subst, ◌∙◌, arith, inl, inr, Bool, true, false, u64, List, length,
  get_or, set, none, some, Option-cases, Bool-cases,
}
use raptor_mark.Flow.{FioFlow, Job, find_flow, put_flow, flow_threshold_exceeded}
use raptor_mark.Flow.Listed.{find-id}
use raptor_mark.Flow.Totals.{
  no_job, total, one, counter, weight_of, total-set, share-le-total, share_self, share_other,
  IsFlows,
}
use raptor_mark.Flow.Change.{set-get, put-IsFlows}

module _ (above : ℕ → ℕ → ℕ → ℕ → Bool) where
  not_in_flow :
      (td : Job) (flows : List FioFlow)
      → td.flow ≡ none
      → flow_threshold_exceeded above td flows ≡ some (false, td, flows)
  unfolding flow_threshold_exceeded
  not_in_flow td flows e = simp (flow_threshold_exceeded, e) refl

  held_back :
      (td : Job) (flows : List FioFlow) (k : ℕ) (flow : FioFlow)
      → td.flow ≡ some k
      → find_flow k flows ≡ some flow
      → above td.flow_counter flow.flow_counter td.weight flow.total_weight ≡ true
      → flow_threshold_exceeded above td flows ≡ some (true, td, flows)
  unfolding flow_threshold_exceeded
  held_back td flows k flow e found more =
      simp (flow_threshold_exceeded, e) (rw found (rw more refl))

  -- One more I/O.
  abbrev more_of_job : Job → Job
  more_of_job td = record td { flow_counter = u64 (td.flow_counter + 1) }

  abbrev more_of_flow : FioFlow → FioFlow
  more_of_flow flow = record flow { flow_counter = u64 (flow.flow_counter + 1) }

  let_through :
      (td : Job) (flows : List FioFlow) (k : ℕ) (flow : FioFlow)
      → td.flow ≡ some k
      → find_flow k flows ≡ some flow
      → above td.flow_counter flow.flow_counter td.weight flow.total_weight ≡ false
      → flow_threshold_exceeded above td flows
        ≡ some (false, more_of_job td, put_flow k (more_of_flow flow) flows)
  unfolding flow_threshold_exceeded
  let_through td flows k flow e found more =
      simp (flow_threshold_exceeded, e)
        (rw found (
          rw more λ t. some (
            false,
            record {
              flow = e t;
              flow_counter = u64 (td.flow_counter + 1);
              weight = td.weight;
              flow_id = td.flow_id;
            },
            put_flow k (more_of_flow flow) flows,
          )))

  module _ (jobs : List Job) (flows : List FioFlow) (i : ℕ) (v : IsFlows jobs flows)
      (lt : i < length jobs) where
    counted_flow :
        (k : ℕ) (flow : FioFlow)
        → (get_or jobs i no_job).flow ≡ some k
        → find_flow k flows ≡ some flow
        → IsFlows
            (set jobs i (more_of_job (get_or jobs i no_job)))
            (put_flow k (more_of_flow flow) flows)
    counted_flow k flow e found =
        let td = get_or jobs i no_job in
        let now = more_of_job td in
        let shared = (v.counted k).listed flow found in
        let moved : (amount : Job → ℕ)
            → total amount k (set jobs i now) + amount td ≡ total amount k jobs + amount now =
          λ amount. omega (
            arith,
            total-set amount k jobs i now lt,
            share_self amount k td e,
            share_self amount k now e,
          ) in
        put-IsFlows jobs flows i k v lt flow (more_of_flow flow) found (find-id k flow flows found)
          now (record { counter_fits = omega arith; weight_fits = (v.job i lt).weight_fits })
          (λ amount other ne.
            share_other amount other now k e ne ∙ sym (share_other amount other td k e ne))
          (record {
            refs = omega (arith, shared.refs, moved one);
            used = omega (arith, shared.used, moved one);
            sum = omega (arith, shared.sum, moved counter, (v.job i lt).counter_fits);
            weights = omega (arith, shared.weights, moved weight_of);
          })

    -- On the flows of the jobs, `flow_threshold_exceeded` of any job follows no bad pointer, whatever the
    -- ratios are, and the flows are those of the jobs again.
    pub flow_threshold_exceeded-IsFlows :
        (r : Bool) × (td' : Job) × (flows' : List FioFlow) × (flow_threshold_exceeded above
            (get_or jobs i no_job)
            flows
          ≡ some (r, td', flows'))
        × IsFlows (set jobs i td') flows'
    flow_threshold_exceeded-IsFlows = elim (Option-cases (get_or jobs i no_job).flow) [
      | inl e ↦
          (false, get_or jobs i no_job, flows, not_in_flow (get_or jobs i no_job) flows e, same)
      | inr (k, e) ↦ elim (Option-cases (find_flow k flows)) [
        | inl missed ↦ absurd (
            omega (
              arith,
              (v.counted k).unlisted missed,
              share-le-total one k jobs i lt,
              share_self one k (get_or jobs i no_job) e,
            ))
        | inr (flow, found) ↦
            elim (Bool-cases (
              above (get_or jobs i no_job).flow_counter flow.flow_counter
                (get_or jobs i no_job).weight flow.total_weight)) [
                  | inl more ↦ (
                    true,
                    get_or jobs i no_job,
                    flows,
                    held_back (get_or jobs i no_job) flows k flow e found more,
                    same,
                  )
                  | inr less ↦ (
                    false,
                    more_of_job (get_or jobs i no_job),
                    put_flow k (more_of_flow flow) flows,
                    let_through (get_or jobs i no_job) flows k flow e found less,
                    counted_flow k flow e found,
                  )
                ]
      ]
    ]
      where
        same : IsFlows (set jobs i (get_or jobs i no_job)) flows
        same = subst (λ (js : List Job). IsFlows js flows) (sym (set-get jobs i)) v
