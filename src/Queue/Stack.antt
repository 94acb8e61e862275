-- ===== src/Queue/Stack.antt =====
-- io_u_queue.h: the queue and the stack that it holds.
use native.Mathlib.Decide.{dec_lt, ℕ_discrete}
use raptor_mark.Common.{
  ℕ, suc, ◌+◌, ◌-◌, ◌≤◌, ◌<◌, ◌≡◌, refl, ap, sym, ◌∙◌, arith, Option, none, some, List, [], ◌∷◌,
  eq→==, ne→==, ltb, lt→ltb, ge→ltb, if◌then◌else◌, length, get_or, set, length-set,
  get_or-set_self, get_or-set_ne,
}
use raptor_mark.Queue.{IoUQueue, io_u_qpush, io_u_qpop}

-- The stack `xs`, the top first, stands in the first entries of the array.
pub record IsStack (q : IoUQueue) (xs : List ℕ) : Type 0 where
  pub count : length xs ≡ q.nr
  pub room : q.nr ≤ q.max
  pub stored : length q.io_us ≡ q.max
  pub entries : (i : ℕ) → i < q.nr → get_or q.io_us i 0 ≡ get_or xs (q.nr - 1 - i) 0

-- The top of a stack and what is below it.
abbrev pub top : List ℕ → ℕ
top [] = 0
top (x ∷ xs) = x

abbrev pub rest : List ℕ → List ℕ
rest [] = []
rest (x ∷ xs) = xs

-- A push into a stack of `max` places.
abbrev pub push : ℕ → List ℕ → ℕ → Option (List ℕ)
push max xs x = if ltb (length xs) max then some (x ∷ xs) else none

-- Both fail, or the queue holds the stack.
abbrev pub Holds : Option IoUQueue → Option (List ℕ) → Type 0
Holds none none = Unit
Holds (some q) (some xs) = IsStack q xs
Holds none (some xs) = ⊥
Holds (some q) none = ⊥

io_u_qpush-Holds :
    (q : IoUQueue) (xs : List ℕ) (x : ℕ) → IsStack q xs → Holds (io_u_qpush q x) (push q.max xs x)
unfolding io_u_qpush
io_u_qpush-Holds q xs x h = elim (dec_lt q.nr q.max) [
  | yes lt ↦
      rw (lt→ltb q.nr q.max lt, lt→ltb (length xs) q.max (omega (arith, h.count)))
        (record {
          count = omega (arith, h.count);
          room = omega arith;
          stored = length-set q.io_us q.nr x ∙ h.stored;
          entries = λ i p. elim (ℕ_discrete i q.nr) [
            | yes last ↦
                let e : q.nr + 1 - 1 - i ≡ 0 = omega arith in
                let f : q.nr ≡ i = omega arith in
                rw e (
                  ap (λ (t : ℕ). get_or (set q.io_us q.nr x) t 0) last
                  ∙ get_or-set_self q.io_us q.nr x 0 (omega (arith, h.stored)))
            | no ne ↦
                let e : q.nr + 1 - 1 - i ≡ suc (q.nr - 1 - i) = omega arith in
                rw e
                  (get_or-set_ne q.io_us q.nr i x 0 (λ z. ne (sym z)) ∙ h.entries i (omega arith))
          ];
        })
  | no ge ↦
      rw
        (
          ge→ltb q.nr q.max (omega (arith, ge)),
          ge→ltb (length xs) q.max (omega (arith, h.count, ge)),
        )
        tt
]

io_u_qpop-IsStack :
    (q : IoUQueue) (xs : List ℕ)
    → IsStack q xs
    → ((io_u_qpop q).0 ≡ top xs) × IsStack (io_u_qpop q).1 (rest xs)
unfolding io_u_qpop
io_u_qpop-IsStack q [] h = rw (eq→== q.nr 0 (omega (arith, h.count))) (refl, h)
io_u_qpop-IsStack q (x ∷ xs) h =
    let next = q.nr - 1 in
    let z : q.nr - 1 - next ≡ 0 = omega arith in
    rw (ne→== q.nr 0 (omega (arith, h.count))) (
      h.entries next (omega (arith, h.count)) ∙ ap (λ (t : ℕ). get_or (x ∷ xs) t 0) z,
      record {
        count = omega (arith, h.count);
        room = omega (arith, h.room);
        stored = length-set q.io_us next 0 ∙ h.stored;
        entries = λ i p.
            let e : q.nr - 1 - i ≡ suc (next - 1 - i) = omega arith in
            get_or-set_ne q.io_us next i 0 0 (λ z. absurd (omega (arith, z)))
            ∙ h.entries i (omega arith)
            ∙ ap (λ (t : ℕ). get_or (x ∷ xs) t 0) e;
      },
    )

-- On a queue that holds a stack, io_u_qpush puts an I/O on top if there is room and fails if there is
-- none, and io_u_qpop gives the top and takes it off, or gives NULL if the stack is empty.
pub io_u_queue_lem :
    (q : IoUQueue) (xs : List ℕ) (x : ℕ)
    → IsStack q xs
    → Holds (io_u_qpush q x) (push q.max xs x)
      × ((io_u_qpop q).0 ≡ top xs)
      × IsStack (io_u_qpop q).1 (rest xs)
io_u_queue_lem q xs x h =
    let pop = io_u_qpop-IsStack q xs h in (io_u_qpush-Holds q xs x h, pop.0, pop.1)
