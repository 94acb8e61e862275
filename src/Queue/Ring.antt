-- ===== src/Queue/Ring.antt =====
-- io_u_queue.h: the ring and the queue, first in, first out, that it holds.
use native.Mathlib.Decide.{dec_lt, ℕ_discrete}
use native.Mathlib.Nat.{mod-eq_of_lt, mod_self}
use raptor_mark.Common.{
  ℕ, suc, ◌+◌, ◌-◌, ◌%◌, ◌^◌, ◌≤◌, ◌<◌, ◌≡◌, ◌≢◌, ◌⊎◌, inl, inr, refl, ap, sym, ◌∙◌, arith, some,
  List, [], ◌∷◌, ◌++◌, ◌==◌, eq→==, ne→==, length, get_or, set, length-set, length-append,
  get_or-set_self, get_or-set_ne, get_or-append_left, get_or-append_right, bit_and, u32,
}
use raptor_mark.Common.Bits.{bit_and-mask}
use raptor_mark.Queue.{IoURing, io_u_rpush, io_u_rpop, io_u_rempty}
use raptor_mark.Queue.Stack.{top, rest}

-- `i` places behind `t`, round the end.
abbrev pub slot : ℕ → ℕ → ℕ → ℕ
slot max t i = elim (dec_lt (t + i) max) [ yes lt ↦ t + i | no ge ↦ t + i - max ]

-- The ring has a power of two of places and holds `xs`, the first in first, in those from `tail` on.
pub record IsQueue (r : IoURing) (xs : List ℕ) : Type 0 where
  pub power : (k : ℕ) × (r.max ≡ 2 ^ k) × (r.max < 2 ^ 32)
  pub inside : r.tail < r.max
  pub stored : length r.ring ≡ r.max
  pub room : length xs < r.max
  pub head : r.head ≡ slot r.max r.tail (length xs)
  pub entries : (i : ℕ) → i < length xs → get_or r.ring (slot r.max r.tail i) 0 ≡ get_or xs i 0

pub slot_low : (max t i : ℕ) → t + i < max → slot max t i ≡ t + i
slot_low max t i lt =
    elim (dec_lt (t + i) max) as (λ d. (elim d [ yes lt ↦ t + i | no ge ↦ t + i - max ]) ≡ t + i) [
      | yes lt' ↦ refl
      | no ge ↦ absurd (ge lt)
    ]

slot_high : (max t i : ℕ) → max ≤ t + i → slot max t i ≡ t + i - max
slot_high max t i ge =
    elim (dec_lt (t + i) max)
      as (λ d. (elim d [ yes lt ↦ t + i | no ge ↦ t + i - max ]) ≡ t + i - max) [
        | yes lt ↦ absurd (omega arith)
        | no ge' ↦ refl
      ]

-- The step of an index, by the mask.
masked :
    (max t k : ℕ)
    → max ≡ 2 ^ k
    → max < 2 ^ 32
    → t < max
    → bit_and (u32 (t + 1)) (max - 1) ≡ slot max t 1
masked max t k power small lt = elim (dec_lt (t + 1) max) [
  | yes in_range ↦
      ap (λ (m : ℕ). bit_and (u32 (t + 1)) (m - 1)) power
      ∙ bit_and-mask k (u32 (t + 1))
      ∙ ap (λ (m : ℕ). u32 (t + 1) % m) (sym power)
      ∙ ap (λ (m : ℕ). m % max) (omega arith)
      ∙ mod-eq_of_lt in_range
      ∙ sym (slot_low max t 1 in_range)
  | no end ↦
      ap (λ (m : ℕ). bit_and (u32 (t + 1)) (m - 1)) power
      ∙ bit_and-mask k (u32 (t + 1))
      ∙ ap (λ (m : ℕ). u32 (t + 1) % m) (sym power)
      ∙ ap (λ (m : ℕ). m % max) (omega (arith, end))
      ∙ mod_self max
      ∙ omega (arith, slot_high max t 1 (omega (arith, end)), end)
]

slot_cases :
    (max t i : ℕ)
    → ((t + i < max) × (slot max t i ≡ t + i)) ⊎ ((max ≤ t + i) × (slot max t i ≡ t + i - max))
slot_cases max t i = elim (dec_lt (t + i) max) [
  | yes lt ↦ inl (lt, slot_low max t i lt)
  | no ge ↦ inr (omega (arith, ge), slot_high max t i (omega (arith, ge)))
]

slot-lt : (max t i : ℕ) → t < max → i < max → slot max t i < max
slot-lt max t i p q = omega (arith, slot_cases max t i)

slot-slot : (max t i : ℕ) → t < max → suc i < max → slot max (slot max t 1) i ≡ slot max t (suc i)
slot-slot max t i p q =
    omega (arith, slot_cases max t 1, slot_cases max t (suc i), slot_cases max (slot max t 1) i)

slot_apart : (max t i j : ℕ) → t < max → i < j → j < max → slot max t i ≢ slot max t j
slot_apart max t i j p q r z = omega (arith, slot_cases max t i, slot_cases max t j, z)

module _ (r : IoURing) (xs : List ℕ) (h : IsQueue r xs) where
  head-lt : r.head < r.max
  head-lt = omega (arith, h.head, slot-lt r.max r.tail (length xs) h.inside h.room)

  io_u_rpush-IsQueue :
      (x : ℕ)
      → length xs + 1 < r.max
      → (r' : IoURing) × (io_u_rpush r x ≡ some r') × IsQueue r' (xs ++ x ∷ [])
  unfolding io_u_rpush
  io_u_rpush-IsQueue x lt = rw (ne→== (u32 (r.head + 1)) r.tail not_full) (
    _,
    refl,
    record {
      power = h.power;
      inside = h.inside;
      stored = length-set r.ring r.head x ∙ h.stored;
      room = omega (arith, one_more, lt);
      head =
          masked r.max r.head h.power.0 h.power.1 h.power.2 head-lt
          ∙ ap (λ (t : ℕ). slot r.max t 1) h.head
          ∙ next
          ∙ ap (slot r.max r.tail) (sym one_more);
      entries = λ i p. elim (ℕ_discrete i (length xs)) [
        | yes last ↦
            ap (λ (t : ℕ). get_or (set r.ring r.head x) t 0)
              (ap (slot r.max r.tail) last ∙ sym h.head)
            ∙ get_or-set_self r.ring r.head x 0 (omega (arith, head-lt, h.stored))
            ∙ sym (get_or-append_right xs (x ∷ []) 0 0)
            ∙ ap (λ (t : ℕ). get_or (xs ++ x ∷ []) t 0) (omega (arith, last))
        | no ne ↦
            let early : i < length xs = omega (arith, ne, one_more, p) in
            get_or-set_ne r.ring r.head (slot r.max r.tail i) x 0
              (λ z. slot_apart r.max r.tail i (length xs) h.inside early h.room (sym z ∙ h.head))
            ∙ h.entries i early
            ∙ sym (get_or-append_left xs (x ∷ []) i 0 early)
      ];
    },
  )
    where
      one_more : length (xs ++ x ∷ []) ≡ length xs + 1
      one_more = length-append xs (x ∷ [])

      not_full : u32 (r.head + 1) ≢ r.tail
      not_full z =
          omega (
            arith,
            z,
            head-lt,
            h.power.2,
            h.head,
            slot_cases r.max r.tail (length xs),
            lt,
            h.inside,
          )

      next : slot r.max (slot r.max r.tail (length xs)) 1 ≡ slot r.max r.tail (length xs + 1)
      next = omega (
        arith,
        h.inside,
        lt,
        slot_cases r.max r.tail (length xs),
        slot_cases r.max r.tail (length xs + 1),
        slot_cases r.max (slot r.max r.tail (length xs)) 1,
      )

io_u_rpop-IsQueue :
    (r : IoURing) (xs : List ℕ)
    → IsQueue r xs
    → ((io_u_rpop r).0 ≡ top xs) × IsQueue (io_u_rpop r).1 (rest xs)
unfolding io_u_rpop
io_u_rpop-IsQueue r [] h =
    let e : r.head ≡ r.tail = omega (arith, h.head, h.inside, slot_cases r.max r.tail 0) in
    rw (eq→== r.head r.tail e) (refl, h)
io_u_rpop-IsQueue r (x ∷ xs) h =
    let full : r.head ≢ r.tail =
      λ z. omega (arith, z, h.head, h.room, h.inside, slot_cases r.max r.tail (suc (length xs))) in
    let next = masked r.max r.tail h.power.0 h.power.1 h.power.2 h.inside in
    rw (ne→== r.head r.tail full, next)
      (
        ap (λ (t : ℕ). get_or r.ring t 0) (omega (arith, h.inside, slot_cases r.max r.tail 0))
            ∙ h.entries 0 (omega arith),
        record {
          power = h.power;
          inside = slot-lt r.max r.tail 1 h.inside (omega (arith, h.room));
          stored = h.stored;
          room = omega (arith, h.room);
          head = h.head ∙ sym (slot-slot r.max r.tail (length xs) h.inside h.room);
          entries = λ i p.
              ap (λ (t : ℕ). get_or r.ring t 0)
                (slot-slot r.max r.tail i h.inside (omega (arith, h.room, p)))
              ∙ h.entries (suc i) (omega (arith, p));
        },
      )

-- On a ring that holds a queue with one place more free than the ring keeps empty, io_u_rpush puts
-- an I/O at the end of the queue, io_u_rpop gives the first and takes it away, or gives NULL if the
-- queue is empty, and io_u_rempty tells whether it is.
pub io_u_ring_lem :
    (r : IoURing) (xs : List ℕ) (x : ℕ)
    → IsQueue r xs
    → length xs + 1 < r.max
    → ((r' : IoURing) × (io_u_rpush r x ≡ some r') × IsQueue r' (xs ++ x ∷ []))
      × ((io_u_rpop r).0 ≡ top xs)
      × IsQueue (io_u_rpop r).1 (rest xs)
      × (io_u_rempty r ≡ (length xs == 0))
unfolding io_u_rempty
io_u_ring_lem r xs x h lt =
    let pop = io_u_rpop-IsQueue r xs h in
    (
      io_u_rpush-IsQueue r xs h x lt,
      pop.0,
      pop.1,
      elim (ℕ_discrete (length xs) 0) [
        | yes none_left ↦
            let e : r.head ≡ r.tail =
              omega (arith, h.head, h.inside, none_left, slot_cases r.max r.tail (length xs)) in
            eq→== r.head r.tail e ∙ sym (eq→== (length xs) 0 none_left)
        | no some_left ↦
            let ne : r.head ≢ r.tail = λ z. omega (
              arith,
              z,
              h.head,
              h.room,
              h.inside,
              some_left,
              slot_cases r.max r.tail (length xs),
            ) in
            ne→== r.head r.tail ne ∙ sym (ne→== (length xs) 0 some_left)
      ],
    )
