-- ===== src/Flow/Listed.antt =====
-- flow.c: the list of flows, read and written by id.
use native.Mathlib.Decide.{ℕ_discrete}
use raptor_mark.Common.{
  ℕ, ◌+◌, ◌≤◌, ◌≡◌, ◌≢◌, refl, sym, ap, ◌∙◌, arith, inl, inr, List, [], ◌∷◌, ◌++◌, Option, none,
  some, ◌==◌, eq→==, ne→==, Bool-cases, some_injective, none_ne, if◌then◌else◌,
}
use raptor_mark.Flow.{FioFlow, find_flow, put_flow, del_flow}

-- How many flows have an id.
unfoldable pub occurs : ℕ → List FioFlow → ℕ
occurs id [] = 0
occurs id (flow ∷ flows) = (if flow.id == id then 1 else 0) + occurs id flows

pub find-put_self :
    (id : ℕ) (flow' flow : FioFlow) (flows : List FioFlow)
    → flow'.id ≡ id
    → find_flow id flows ≡ some flow
    → find_flow id (put_flow id flow' flows) ≡ some flow'
unfolding find_flow put_flow
find-put_self id flow' flow [] same h = absurd (none_ne {a = flow} h)
find-put_self id flow' flow (g ∷ flows) same h = elim (ℕ_discrete g.id id) [
  | yes e ↦ rw (eq→== g.id id e) (rw (eq→== flow'.id id same) refl)
  | no ne ↦
      let later : find_flow id flows ≡ some flow = sym (rw (ne→== g.id id ne) refl) ∙ h in
      rw (ne→== g.id id ne) (rw (ne→== g.id id ne) (find-put_self id flow' flow flows same later))
]

pub find-put_other :
    (id other : ℕ) (flow' : FioFlow) (flows : List FioFlow)
    → flow'.id ≡ id
    → other ≢ id
    → find_flow other (put_flow id flow' flows) ≡ find_flow other flows
unfolding find_flow put_flow
find-put_other id other flow' [] same ne = refl
find-put_other id other flow' (g ∷ flows) same ne = elim (ℕ_discrete g.id id) [
  | yes e ↦ rw (eq→== g.id id e) (
      rw (ne→== flow'.id other (omega (arith, same, ne)))
        (rw (ne→== g.id other (omega (arith, e, ne))) refl))
  | no away ↦ rw (ne→== g.id id away) (
      ap (λ (o : Option FioFlow). if g.id == other then some g else o)
        (find-put_other id other flow' flows same ne))
]

pub occurs-put :
    (id other : ℕ) (flow' : FioFlow) (flows : List FioFlow)
    → flow'.id ≡ id
    → occurs other (put_flow id flow' flows) ≡ occurs other flows
unfolding occurs put_flow
occurs-put id other flow' [] same = refl
occurs-put id other flow' (g ∷ flows) same = elim (ℕ_discrete g.id id) [
  | yes e ↦ rw (eq→== g.id id e) (
      ap (λ (n : ℕ). (if n == other then 1 else 0) + occurs other flows) {x = flow'.id} {y = g.id}
        (omega (arith, e, same)))
  | no ne ↦
      rw (ne→== g.id id ne) (
        ap (λ (n : ℕ). (if g.id == other then 1 else 0) + n) (occurs-put id other flow' flows same))
]

pub absent : (id : ℕ) (flows : List FioFlow) → occurs id flows ≡ 0 → find_flow id flows ≡ none
unfolding occurs find_flow
absent id [] h = refl
absent id (g ∷ flows) h = elim (ℕ_discrete g.id id) [
  | yes e ↦
      let one_more : occurs id (g ∷ flows) ≡ 1 + occurs id flows = rw (eq→== g.id id e) refl in
      absurd (omega (arith, one_more, h))
  | no ne ↦
      let same : occurs id (g ∷ flows) ≡ 0 + occurs id flows = rw (ne→== g.id id ne) refl in
      rw (ne→== g.id id ne) (absent id flows (omega (arith, same, h)))
]

pub find-del_self :
    (id : ℕ) (flows : List FioFlow) → occurs id flows ≤ 1 → find_flow id (del_flow id flows) ≡ none
unfolding occurs find_flow del_flow
find-del_self id [] h = refl
find-del_self id (g ∷ flows) h = elim (ℕ_discrete g.id id) [
  | yes e ↦
      let one_more : occurs id (g ∷ flows) ≡ 1 + occurs id flows = rw (eq→== g.id id e) refl in
      rw (eq→== g.id id e) (absent id flows (omega (arith, one_more, h)))
  | no ne ↦
      let same : occurs id (g ∷ flows) ≡ 0 + occurs id flows = rw (ne→== g.id id ne) refl in
      rw (ne→== g.id id ne)
        (rw (ne→== g.id id ne) (find-del_self id flows (omega (arith, same, h))))
]

pub find-del_other :
    (id other : ℕ) (flows : List FioFlow)
    → other ≢ id
    → find_flow other (del_flow id flows) ≡ find_flow other flows
unfolding find_flow del_flow
find-del_other id other [] ne = refl
find-del_other id other (g ∷ flows) ne = elim (ℕ_discrete g.id id) [
  | yes e ↦ rw (eq→== g.id id e) (rw (ne→== g.id other (omega (arith, e, ne))) refl)
  | no away ↦ rw (ne→== g.id id away) (
      ap (λ (o : Option FioFlow). if g.id == other then some g else o)
        (find-del_other id other flows ne))
]

pub occurs-del :
    (id other : ℕ) (flows : List FioFlow) → occurs other (del_flow id flows) ≤ occurs other flows
unfolding occurs del_flow
occurs-del id other [] = omega arith
occurs-del id other (g ∷ flows) = elim (Bool-cases (g.id == id)) [
  | inl e ↦ rw e (omega arith)
  | inr e ↦ rw e (omega (arith, occurs-del id other flows))
]

pub find-id :
    (id : ℕ) (flow : FioFlow) (flows : List FioFlow) → find_flow id flows ≡ some flow → flow.id ≡ id
unfolding find_flow
find-id id flow [] h = absurd (none_ne {a = flow} h)
find-id id flow (g ∷ flows) h = elim (ℕ_discrete g.id id) [
  | yes e ↦
      let same : g ≡ flow = some_injective (sym (rw (eq→== g.id id e) refl) ∙ h) in
      ap (λ (f : FioFlow). f.id) (sym same) ∙ e
  | no ne ↦ find-id id flow flows (sym (rw (ne→== g.id id ne) refl) ∙ h)
]

-- A flow that is added at the end.
module _ (new : FioFlow) where
  pub find-append_self :
      (flows : List FioFlow)
      → find_flow new.id flows ≡ none
      → find_flow new.id (flows ++ (new ∷ [])) ≡ some new
  unfolding find_flow
  find-append_self [] h = rw (eq→== new.id new.id refl) refl
  find-append_self (g ∷ flows) h = elim (ℕ_discrete g.id new.id) [
    | yes e ↦ absurd (none_ne {a = g} (sym h ∙ rw (eq→== g.id new.id e) refl))
    | no ne ↦
        rw (ne→== g.id new.id ne)
          (find-append_self flows (sym (rw (ne→== g.id new.id ne) refl) ∙ h))
  ]

  pub find-append_other :
      (other : ℕ) (flows : List FioFlow)
      → other ≢ new.id
      → find_flow other (flows ++ (new ∷ [])) ≡ find_flow other flows
  unfolding find_flow
  find-append_other other [] ne = rw (ne→== new.id other (λ e. ne (sym e))) refl
  find-append_other other (g ∷ flows) ne =
      ap (λ (o : Option FioFlow). if g.id == other then some g else o)
        (find-append_other other flows ne)

  pub occurs-append_other :
      (other : ℕ) (flows : List FioFlow)
      → other ≢ new.id
      → occurs other (flows ++ (new ∷ [])) ≡ occurs other flows
  unfolding occurs
  occurs-append_other other [] ne = rw (ne→== new.id other (λ e. ne (sym e))) refl
  occurs-append_other other (g ∷ flows) ne =
      ap (λ (n : ℕ). (if g.id == other then 1 else 0) + n) (occurs-append_other other flows ne)

  pub occurs-append_self :
      (flows : List FioFlow)
      → find_flow new.id flows ≡ none
      → occurs new.id (flows ++ (new ∷ [])) ≡ 1
  unfolding occurs find_flow
  occurs-append_self [] h = rw (eq→== new.id new.id refl) refl
  occurs-append_self (g ∷ flows) h = elim (ℕ_discrete g.id new.id) [
    | yes e ↦ absurd (none_ne {a = g} (sym h ∙ rw (eq→== g.id new.id e) refl))
    | no ne ↦
        rw (ne→== g.id new.id ne)
          (omega (arith, occurs-append_self flows (sym (rw (ne→== g.id new.id ne) refl) ∙ h)))
  ]
