-- ===== src/Flow/Change.antt =====
-- flow.c: a function changes one job and one flow.
use native.Mathlib.Decide.{ℕ_discrete}
use raptor_mark.Common.{
  ℕ, zero, suc, ◌+◌, ◌%◌, ◌^◌, ◌≤◌, ◌<◌, ◌≡◌, ◌≢◌, refl, sym, ap, subst, ◌∙◌, arith, List, [], ◌∷◌,
  length, get_or, set, length-set, get_or-set_self, get_or-set_ne, some, none_ne, some_injective,
}
use raptor_mark.Flow.{FioFlow, Job, find_flow, put_flow}
use raptor_mark.Flow.Listed.{occurs, find-put_self, find-put_other, occurs-put}
use raptor_mark.Flow.Totals.{
  no_job, share_of, total, one, counter, weight_of, total-set, IsShared, IsCounted, IsJob, IsFlows,
}

pub set-get : (jobs : List Job) (i : ℕ) → set jobs i (get_or jobs i no_job) ≡ jobs
set-get [] i = refl
set-get (td ∷ jobs) zero = refl
set-get (td ∷ jobs) (suc i) = ap (λ (rest : List Job). td ∷ rest) (set-get jobs i)

module _ (jobs : List Job) (flows : List FioFlow) (i k : ℕ) (v : IsFlows jobs flows)
    (lt : i < length jobs) (td' : Job) (flows' : List FioFlow) (fits : IsJob td')
    (others : (other : ℕ) → other ≢ k → find_flow other flows' ≡ find_flow other flows)
    (shares : (amount : Job → ℕ) (other : ℕ)
      → other ≢ k
      → share_of amount other td' ≡ share_of amount other (get_or jobs i no_job)) where
  same_total :
      (amount : Job → ℕ) (other : ℕ)
      → other ≢ k
      → total amount other (set jobs i td') ≡ total amount other jobs
  same_total amount other ne =
      omega (arith, total-set amount other jobs i td' lt, shares amount other ne)

  other-IsCounted : (other : ℕ) → other ≢ k → IsCounted (set jobs i td') flows' other
  other-IsCounted other ne = record {
    listed = λ flow found.
        let shared = (v.counted other).listed flow (sym (others other ne) ∙ found) in
        record {
          refs = shared.refs ∙ sym (same_total one other ne);
          used = omega (arith, shared.used, same_total one other ne);
          sum = shared.sum ∙ ap (λ (n : ℕ). (1 + n) % 2 ^ 64) (sym (same_total counter other ne));
          weights =
              shared.weights ∙ ap (λ (n : ℕ). n % 2 ^ 32) (sym (same_total weight_of other ne));
        };
    unlisted = λ missed.
        same_total one other ne ∙ (v.counted other).unlisted (sym (others other ne) ∙ missed);
  }

  pub change-IsFlows :
      ((id : ℕ) → occurs id flows' ≤ 1)
      → IsCounted (set jobs i td') flows' k
      → IsFlows (set jobs i td') flows'
  change-IsFlows unique here = record {
    unique = unique;
    counted = λ id. elim (ℕ_discrete id k) [
      | yes e ↦ subst (IsCounted (set jobs i td') flows') (sym e) here
      | no ne ↦ other-IsCounted id ne
    ];
    few = omega (arith, v.few, length-set jobs i td');
    job = λ j within. elim (ℕ_discrete i j) [
      | yes e ↦
          subst IsJob
            (sym (
              ap (λ (t : ℕ). get_or (set jobs i td') t no_job) (sym e)
              ∙ get_or-set_self jobs i td' no_job lt))
            fits
      | no ne ↦
          subst IsJob (sym (get_or-set_ne jobs i j td' no_job ne))
            (v.job j (omega (arith, within, length-set jobs i td')))
    ];
  }

module _ (jobs : List Job) (flows : List FioFlow) (i k : ℕ) (v : IsFlows jobs flows)
    (lt : i < length jobs) (flow flow' : FioFlow) (found : find_flow k flows ≡ some flow)
    (same : flow'.id ≡ k) (td' : Job) (fits : IsJob td')
    (shares : (amount : Job → ℕ) (other : ℕ)
      → other ≢ k
      → share_of amount other td' ≡ share_of amount other (get_or jobs i no_job)) where
  -- A write to the flow of the job.
  pub put-IsFlows :
      IsShared (set jobs i td') k flow' → IsFlows (set jobs i td') (put_flow k flow' flows)
  put-IsFlows shared =
      change-IsFlows jobs flows i k v lt td' (put_flow k flow' flows) fits
        (λ other ne. find-put_other k other flow' flows same ne) shares
        (λ id. omega (arith, occurs-put k id flow' flows same, v.unique id))
        (record {
          listed = λ f there.
              subst (IsShared (set jobs i td') k)
                (some_injective (sym (find-put_self k flow' flow flows same found) ∙ there)) shared;
          unlisted = λ missed.
              absurd
                (none_ne {a = flow'} (sym missed ∙ find-put_self k flow' flow flows same found));
        })
