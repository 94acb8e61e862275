-- ===== src/Flow/Init.antt =====
-- flow.c: `flow_init_job`.
use native.Mathlib.Decide.{ℕ_discrete}
use raptor_mark.Common.{
  ℕ, ◌+◌, ◌%◌, ◌^◌, ◌≤◌, ◌<◌, ◌≡◌, ◌≢◌, refl, sym, ap, subst, ◌∙◌, arith, inl, inr, Bool, u32, List,
  [], ◌∷◌, ◌++◌, length, get_or, set, length-set, none, some, Option-cases, Bool-cases, none_ne,
  some_injective, eq→==, ne→==, if◌then◌else◌,
}
use raptor_mark.Flow.{FioFlow, Job, find_flow, put_flow, flow_get, flow_init_job}
use raptor_mark.Flow.Listed.{
  occurs, find-put_self, find-put_other, occurs-put, find-id, find-append_self, find-append_other,
  occurs-append_other, occurs-append_self,
}
use raptor_mark.Flow.Totals.{
  no_job, total, one, counter, weight_of, total-set, total-le, total-zero, share_none, share_self,
  share_other, IsShared, IsFlows,
}
use raptor_mark.Flow.Change.{set-get, change-IsFlows}

-- What `flow_get` makes of the flows, before the weight of the job is added.
record IsGot (jobs : List Job) (flows : List FioFlow) (k : ℕ) (flow : FioFlow)
    (flows' : List FioFlow) : Type 0 where
  found : find_flow k flows' ≡ some flow
  same : flow.id ≡ k
  others : (other : ℕ) → other ≢ k → find_flow other flows' ≡ find_flow other flows
  unique : (id : ℕ) → occurs id flows' ≤ 1
  refs : flow.refs ≡ (total one k jobs + 1) % 2 ^ 32
  sum : flow.flow_counter ≡ (1 + total counter k jobs) % 2 ^ 64
  weights : flow.total_weight ≡ total weight_of k jobs % 2 ^ 32

get_there :
    (allocated : Bool) (k : ℕ) (flow : FioFlow) (flows : List FioFlow)
    → find_flow k flows ≡ some flow
    → flow_get allocated k flows
      ≡ some (put_flow k (record flow { refs = u32 (flow.refs + 1) }) flows)
unfolding flow_get
get_there allocated k flow flows found = rw (flow_get, found) refl

get_new :
    (allocated : Bool) (k : ℕ) (flows : List FioFlow)
    → find_flow k flows ≡ none
    → flow_get allocated k flows ≡ (
        if allocated
        then some (flows ++ (record { refs = 1; id = k; flow_counter = 1; total_weight = 0 } ∷ []))
        else none)
unfolding flow_get
get_new allocated k flows missed = rw (flow_get, missed) refl

module _ (jobs : List Job) (flows : List FioFlow) (v : IsFlows jobs flows) (k : ℕ) where
  there-IsGot :
      (flow : FioFlow)
      → find_flow k flows ≡ some flow
      → IsGot jobs flows k
          (record flow { refs = u32 (flow.refs + 1) })
          (put_flow k (record flow { refs = u32 (flow.refs + 1) }) flows)
  there-IsGot flow found =
      let shared = (v.counted k).listed flow found in
      let flow1 : FioFlow = record flow { refs = u32 (flow.refs + 1) } in
      let id_same : flow1.id ≡ k = find-id k flow flows found in
      record {
        found = find-put_self k flow1 flow flows id_same found;
        same = id_same;
        others = λ other ne. find-put_other k other flow1 flows id_same ne;
        unique = λ id. omega (arith, occurs-put k id flow1 flows id_same, v.unique id);
        refs = omega (arith, shared.refs);
        sum = shared.sum;
        weights = shared.weights;
      }

  new-IsGot :
      find_flow k flows ≡ none
      → IsGot jobs flows k
          (record { refs = 1; id = k; flow_counter = 1; total_weight = 0 })
          (flows ++ (record { refs = 1; id = k; flow_counter = 1; total_weight = 0 } ∷ []))
  new-IsGot missed =
      let new : FioFlow = record { refs = 1; id = k; flow_counter = 1; total_weight = 0 } in
      let no_one = (v.counted k).unlisted missed in
      record {
        found = find-append_self new flows missed;
        same = refl;
        others = λ other ne. find-append_other new other flows ne;
        unique = λ id. elim (ℕ_discrete id k) [
          | yes e ↦ omega (
            arith,
            ap (λ (t : ℕ). occurs t (flows ++ (new ∷ []))) e,
            occurs-append_self new flows missed,
          )
          | no ne ↦ omega (arith, occurs-append_other new id flows ne, v.unique id)
        ];
        refs = omega (arith, no_one);
        sum = omega (arith, total-zero counter k jobs no_one);
        weights = omega (arith, total-zero weight_of k jobs no_one);
      }

-- The job, and its flow with the weight added.
abbrev begun : Job → Job
begun td = record td { flow = some td.flow_id; flow_counter = 0 }

abbrev heavier : Job → FioFlow → FioFlow
heavier td flow = record flow { total_weight = u32 (flow.total_weight + td.weight) }

no_weight :
    (allocated : Bool) (td : Job) (flows : List FioFlow)
    → td.weight ≡ 0
    → flow_init_job allocated td flows ≡ some (td, flows)
unfolding flow_init_job
no_weight allocated td flows e = simp (flow_init_job, eq→== td.weight 0 e) refl

some_weight :
    (allocated : Bool) (td : Job) (flows flows' : List FioFlow) (flow : FioFlow)
    → td.weight ≢ 0
    → flow_get allocated td.flow_id flows ≡ some flows'
    → find_flow td.flow_id flows' ≡ some flow
    → flow_init_job allocated td flows
      ≡ some (begun td, put_flow td.flow_id (heavier td flow) flows')
unfolding flow_init_job
some_weight allocated td flows flows' flow ne got found =
    simp (flow_init_job, ne→== td.weight 0 ne) (rw got (rw found refl))

no_memory :
    (allocated : Bool) (td : Job) (flows : List FioFlow)
    → td.weight ≢ 0
    → flow_get allocated td.flow_id flows ≡ none
    → flow_init_job allocated td flows ≡ none
unfolding flow_init_job
no_memory allocated td flows ne got = simp (flow_init_job, ne→== td.weight 0 ne) (rw got refl)

module _ (jobs : List Job) (flows : List FioFlow) (i : ℕ) (v : IsFlows jobs flows)
    (lt : i < length jobs) (out : (get_or jobs i no_job).flow ≡ none) where
  begun-IsFlows :
      (flow : FioFlow) (flows' : List FioFlow)
      → IsGot jobs flows (get_or jobs i no_job).flow_id flow flows'
      → IsFlows
          (set jobs i (begun (get_or jobs i no_job)))
          (put_flow (get_or jobs i no_job).flow_id (heavier (get_or jobs i no_job) flow) flows')
  begun-IsFlows flow flows' g =
      let td = get_or jobs i no_job in
      let now = begun td in
      let k = td.flow_id in
      let flow2 = heavier td flow in
      let joined : (amount : Job → ℕ)
          → total amount k (set jobs i now) ≡ total amount k jobs + amount now =
        λ amount. omega (
          arith,
          total-set amount k jobs i now lt,
          share_none amount k td out,
          share_self amount k now refl,
        ) in
      change-IsFlows jobs flows i k v lt now (put_flow k flow2 flows')
        (record { counter_fits = omega arith; weight_fits = (v.job i lt).weight_fits })
        (λ other ne. find-put_other k other flow2 flows' g.same ne ∙ g.others other ne)
        (λ amount other ne.
          share_other amount other now k refl ne ∙ sym (share_none amount other td out))
        (λ id. omega (arith, occurs-put k id flow2 flows' g.same, g.unique id))
        (record {
          listed = λ f there.
              subst (IsShared (set jobs i now) k)
                (some_injective (sym (find-put_self k flow2 flow flows' g.same g.found) ∙ there))
                (record {
                  refs = omega (
                    arith,
                    g.refs,
                    joined one,
                    total-le k (set jobs i now),
                    length-set jobs i now,
                    v.few,
                  );
                  used = omega (arith, joined one);
                  sum = omega (arith, g.sum, joined counter);
                  weights = omega (arith, g.weights, joined weight_of);
                });
          unlisted = λ missed.
              absurd (
                none_ne {a = flow2}
                  (sym missed ∙ find-put_self k flow2 flow flows' g.same g.found));
        })

  -- A job that is in no flow enters one by `flow_init_job`, if it has a weight and there is memory; then the
  -- flows are those of the jobs again.
  pub flow_init_job-IsFlows :
      (allocated : Bool) (td' : Job) (flows' : List FioFlow)
      → flow_init_job allocated (get_or jobs i no_job) flows ≡ some (td', flows')
      → IsFlows (set jobs i td') flows'
  flow_init_job-IsFlows allocated td' flows' h = elim (ℕ_discrete td.weight 0) [
    | yes e ↦
        arrived td flows (no_weight allocated td flows e)
          (subst (λ (js : List Job). IsFlows js flows) (sym (set-get jobs i)) v)
    | no ne ↦ elim (Option-cases (find_flow td.flow_id flows)) [
      | inr (flow, found) ↦
          let g = there-IsGot jobs flows v td.flow_id flow found in
          arrived _ _
            (some_weight allocated td flows _ _ ne (get_there allocated td.flow_id flow flows found)
              g.found)
            (begun-IsFlows _ _ g)
      | inl missed ↦ elim (Bool-cases allocated) [
        | inl yes_there ↦
            let g = new-IsGot jobs flows v td.flow_id missed in
            arrived _ _
              (some_weight allocated td flows _ _ ne
                (get_new allocated td.flow_id flows missed ∙ rw yes_there refl) g.found)
              (begun-IsFlows _ _ g)
        | inr none_there ↦ absurd (
            none_ne {a = (td', flows')} (
              sym (
                no_memory allocated td flows ne
                  (get_new allocated td.flow_id flows missed ∙ rw none_there refl))
              ∙ h))
      ]
    ]
  ]
    where
      td : Job
      td = get_or jobs i no_job

      arrived :
          (now : Job) (flows1 : List FioFlow)
          → flow_init_job allocated td flows ≡ some (now, flows1)
          → IsFlows (set jobs i now) flows1
          → IsFlows (set jobs i td') flows'
      arrived now flows1 made good =
          subst (λ (r : Job × List FioFlow). IsFlows (set jobs i r.0) r.1)
            (some_injective (sym made ∙ h)) good
