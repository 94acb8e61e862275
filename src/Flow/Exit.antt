-- ===== src/Flow/Exit.antt =====
-- flow.c: `flow_exit_job`.
use native.Mathlib.Decide.{ℕ_discrete}
use raptor_mark.Common.{
  ℕ, ◌+◌, ◌%◌, ◌^◌, ◌<◌, ◌≡◌, ◌≢◌, refl, sym, subst, ◌∙◌, arith, inl, inr, sub32, sub64, List,
  length, get_or, set, none, some, Option-cases, none_ne, some_injective, eq→==, ne→==,
}
use raptor_mark.Flow.{FioFlow, Job, find_flow, put_flow, del_flow, flow_put, flow_exit_job}
use raptor_mark.Flow.Listed.{
  find-put_self, find-put_other, occurs-put, find-del_self, find-del_other, occurs-del, find-id,
}
use raptor_mark.Flow.Totals.{
  no_job, share_of, total, one, counter, weight_of, total-set, total-le, total-zero, share-le-total,
  share_none, share_self, share_other, IsShared, IsJob, IsFlows,
}
use raptor_mark.Flow.Change.{set-get, change-IsFlows}

-- The flow without a job of it.
abbrev lessened : FioFlow → ℕ → ℕ → FioFlow
lessened flow c w = record flow {
  refs = sub32 flow.refs 1;
  flow_counter = sub64 flow.flow_counter c;
  total_weight = sub32 flow.total_weight w;
}

put_last :
    (k c w : ℕ) (flow : FioFlow) (flows : List FioFlow)
    → find_flow k flows ≡ some flow
    → sub32 flow.refs 1 ≡ 0
    → sub64 flow.flow_counter c ≡ 1
    → flow_put k c w flows ≡ some (del_flow k flows)
unfolding flow_put
put_last k c w flow flows found last one_left =
    rw (flow_put, found)
      (rw (eq→== (sub32 flow.refs 1) 0 last)
        (rw (eq→== (sub64 flow.flow_counter c) 1 one_left) refl))

put_more :
    (k c w : ℕ) (flow : FioFlow) (flows : List FioFlow)
    → find_flow k flows ≡ some flow
    → sub32 flow.refs 1 ≢ 0
    → flow_put k c w flows ≡ some (put_flow k (lessened flow c w) flows)
unfolding flow_put
put_more k c w flow flows found more =
    rw (flow_put, found) (rw (ne→== (sub32 flow.refs 1) 0 more) refl)

exit_some :
    (td : Job) (k : ℕ) (flows flows' : List FioFlow)
    → td.flow ≡ some k
    → flow_put k td.flow_counter td.weight flows ≡ some flows'
    → flow_exit_job td flows ≡ some (record td { flow = none }, flows')
unfolding flow_exit_job
exit_some td k flows flows' e put = rw (flow_exit_job, e) (rw put refl)

exit_none :
    (td : Job) (flows : List FioFlow) → td.flow ≡ none → flow_exit_job td flows ≡ some (td, flows)
unfolding flow_exit_job
exit_none td flows e = simp (flow_exit_job, e) refl

module _ (jobs : List Job) (flows : List FioFlow) (i k : ℕ) (v : IsFlows jobs flows)
    (lt : i < length jobs) (flow : FioFlow) (e : (get_or jobs i no_job).flow ≡ some k)
    (found : find_flow k flows ≡ some flow) where
  td : Job
  td = get_or jobs i no_job

  left : Job
  unfolding td
  left = record td { flow = none }

  shared : IsShared jobs k flow
  shared = (v.counted k).listed flow found

  -- The sums go down by what the job had.
  less :
      (amount : Job → ℕ)
      → total amount k (set jobs i left) + amount (get_or jobs i no_job) ≡ total amount k jobs
  unfolding left td
  less amount = omega (
    arith,
    total-set amount k jobs i left lt,
    share_none amount k left refl,
    share_self amount k (get_or jobs i no_job) e,
  )

  refs-less : sub32 flow.refs 1 ≡ total one k (set jobs i left)
  refs-less = omega (arith, shared.refs, less one, total-le k jobs, v.few)

  sum-less :
      sub64 flow.flow_counter (get_or jobs i no_job).flow_counter
      ≡ (1 + total counter k (set jobs i left)) % 2 ^ 64
  sum-less = omega (arith, shared.sum, less counter, (v.job i lt).counter_fits)

  weights-less :
      sub32 flow.total_weight (get_or jobs i no_job).weight
      ≡ total weight_of k (set jobs i left) % 2 ^ 32
  weights-less = omega (arith, shared.weights, less weight_of, (v.job i lt).weight_fits)

  shares_same :
      (amount : Job → ℕ) (other : ℕ)
      → other ≢ k
      → share_of amount other left ≡ share_of amount other (get_or jobs i no_job)
  unfolding left td
  shares_same amount other ne =
      share_none amount other left refl
      ∙ sym (share_other amount other (get_or jobs i no_job) k e ne)

  left-IsJob : IsJob left
  unfolding left td
  left-IsJob = record {
    counter_fits = (v.job i lt).counter_fits;
    weight_fits = (v.job i lt).weight_fits;
  }

  exit_last :
      total one k (set jobs i left) ≡ 0
      → (flow_exit_job (get_or jobs i no_job) flows ≡ some (left, del_flow k flows))
        × IsFlows (set jobs i left) (del_flow k flows)
  unfolding left td
  exit_last last = (
    exit_some (get_or jobs i no_job) k flows (del_flow k flows) e (
        put_last k (get_or jobs i no_job).flow_counter (get_or jobs i no_job).weight flow flows
          found (refs-less ∙ last)
          (omega (arith, sum-less, total-zero counter k (set jobs i left) last))),
    change-IsFlows jobs flows i k v lt left (del_flow k flows) left-IsJob
        (λ other ne. find-del_other k other flows ne) shares_same
        (λ id. omega (arith, occurs-del k id flows, v.unique id))
        (record {
          listed = λ f there.
              absurd (none_ne {a = f} (sym (find-del_self k flows (v.unique k)) ∙ there));
          unlisted = λ missed. last;
        }),
  )

  exit_more :
      total one k (set jobs i left) ≢ 0
      → (flow_exit_job (get_or jobs i no_job) flows
          ≡ some (
            left,
            put_flow k
                (lessened flow (get_or jobs i no_job).flow_counter (get_or jobs i no_job).weight)
                flows,
          ))
        × IsFlows (set jobs i left) (
            put_flow k
              (lessened flow (get_or jobs i no_job).flow_counter (get_or jobs i no_job).weight)
              flows)
  unfolding left td
  exit_more more =
      let less_flow =
        lessened flow (get_or jobs i no_job).flow_counter (get_or jobs i no_job).weight in
      let same : less_flow.id ≡ k = find-id k flow flows found in
      (
        exit_some (get_or jobs i no_job) k flows (put_flow k less_flow flows) e (
            put_more k (get_or jobs i no_job).flow_counter (get_or jobs i no_job).weight flow flows
              found (λ z. more (sym refs-less ∙ z))),
        change-IsFlows jobs flows i k v lt left (put_flow k less_flow flows) left-IsJob
            (λ other ne. find-put_other k other less_flow flows same ne) shares_same
            (λ id. omega (arith, occurs-put k id less_flow flows same, v.unique id))
            (record {
              listed = λ f there.
                  subst (IsShared (set jobs i left) k)
                    (some_injective (sym (find-put_self k less_flow flow flows same found) ∙ there))
                    (record {
                      refs = refs-less;
                      used = omega (arith, more);
                      sum = sum-less;
                      weights = weights-less;
                    });
              unlisted = λ missed. absurd (
                  none_ne {a = less_flow}
                    (sym missed ∙ find-put_self k less_flow flow flows same found));
            }),
      )

-- On the flows of the jobs, `flow_exit_job` of any job follows no bad pointer, its assertion holds, and the
-- flows are those of the jobs again.
pub flow_exit_job-IsFlows :
    (jobs : List Job) (flows : List FioFlow) (i : ℕ)
    → IsFlows jobs flows
    → i < length jobs
    → (td' : Job) × (flows' : List FioFlow) × (flow_exit_job (get_or jobs i no_job) flows
        ≡ some (td', flows'))
      × (td'.flow ≡ none)
      × IsFlows (set jobs i td') flows'
unfolding left td
flow_exit_job-IsFlows jobs flows i v lt = elim (Option-cases (get_or jobs i no_job).flow) [
  | inl e ↦ (
    get_or jobs i no_job,
    flows,
    exit_none (get_or jobs i no_job) flows e,
    e,
    subst (λ (js : List Job). IsFlows js flows) (sym (set-get jobs i)) v,
  )
  | inr (k, e) ↦ elim (Option-cases (find_flow k flows)) [
    | inl missed ↦ absurd (
        omega (
          arith,
          (v.counted k).unlisted missed,
          share-le-total one k jobs i lt,
          share_self one k (get_or jobs i no_job) e,
        ))
    | inr (flow, found) ↦
        let left_job : Job = left jobs flows i k v lt flow e found in
        elim (ℕ_discrete (total one k (set jobs i left_job)) 0) [
          | yes last ↦
              let done = exit_last jobs flows i k v lt flow e found last in
              (left_job, del_flow k flows, done.0, refl, done.1)
          | no more ↦
              let done = exit_more jobs flows i k v lt flow e found more in
              (left_job, _, done.0, refl, done.1)
        ]
  ]
]
