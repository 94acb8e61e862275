-- ===== src/Queue/Tests.antt =====
-- Queues of I/Os with addresses 7, 8 and 9, and the theorems on them.
use native.Mathlib.Decide.{dec_lt}
use raptor_mark.Common.{
  ℕ, zero, suc, ◌+◌, ◌*◌, ◌≤◌, ◌<◌, ◌≡◌, refl, arith, true, false, some, [], ◌∷◌, ◌++◌, get_or, ◌-◌,
}
use raptor_mark.Queue.{
  IoUQueue, IoURing, io_u_qpush, io_u_qpop, io_u_rinit, io_u_rpush, io_u_rpop, io_u_rempty,
}
use raptor_mark.Queue.Stack.{IsStack, Holds, push, io_u_queue_lem}
use raptor_mark.Queue.Ring.{IsQueue, slot, io_u_ring_lem}
use raptor_mark.Queue.Size.{io_u_rinit-IsQueue}

abbrev queue : IoUQueue
queue = record { io_us = 8 ∷ 7 ∷ 0 ∷ []; nr = 2; max = 3 }

queue_entries : (i : ℕ) → i < 2 → get_or queue.io_us i 0 ≡ get_or (7 ∷ 8 ∷ []) (2 - 1 - i) 0
queue_entries zero lt = refl
queue_entries (suc zero) lt = refl
queue_entries (suc (suc i)) lt = absurd (omega arith)

queue-IsStack : IsStack queue (7 ∷ 8 ∷ [])
queue-IsStack = record { count = refl; room = omega arith; stored = refl; entries = queue_entries }

io_u_queue_lem_example :
    Holds (io_u_qpush queue 9) (push 3 (7 ∷ 8 ∷ []) 9)
    × ((io_u_qpop queue).0 ≡ 7)
    × IsStack (io_u_qpop queue).1 (8 ∷ [])
io_u_queue_lem_example = io_u_queue_lem queue (7 ∷ 8 ∷ []) 9 queue-IsStack

-- Round the end: the first I/O in the last place.
abbrev ring : IoURing
ring = record { head = 1; tail = 3; max = 4; ring = 8 ∷ 0 ∷ 0 ∷ 7 ∷ [] }

ring_entries : (i : ℕ) → i < 2 → get_or ring.ring (slot 4 3 i) 0 ≡ get_or (7 ∷ 8 ∷ []) i 0
unfolding dec_lt
ring_entries zero lt = refl
ring_entries (suc zero) lt = refl
ring_entries (suc (suc i)) lt = absurd (omega arith)

ring-IsQueue : IsQueue ring (7 ∷ 8 ∷ [])
unfolding dec_lt
ring-IsQueue = record {
  power = (2, refl, omega arith);
  inside = omega arith;
  stored = refl;
  room = omega arith;
  head = refl;
  entries = ring_entries;
}

io_u_ring_lem_example :
    ((r' : IoURing) × (io_u_rpush ring 9 ≡ some r') × IsQueue r' ((7 ∷ 8 ∷ []) ++ 9 ∷ []))
    × ((io_u_rpop ring).0 ≡ 7)
    × IsQueue (io_u_rpop ring).1 (8 ∷ [])
    × (io_u_rempty ring ≡ false)
io_u_ring_lem_example = io_u_ring_lem ring (7 ∷ 8 ∷ []) 9 ring-IsQueue (omega arith)

io_u_rinit-IsQueue_example :
    (r : IoURing) × (io_u_rinit true 100 ≡ some r)
    × IsQueue r []
    × (100 + 1 ≤ r.max)
    × (r.max < 2 * (100 + 1))
io_u_rinit-IsQueue_example = io_u_rinit-IsQueue 100 (omega arith)

-- A full ring whose head is at the end: the push does not see it, and the ring counts as empty.
full_ring_lost :
    io_u_rpush (record { head = 3; tail = 0; max = 4; ring = 7 ∷ 8 ∷ 9 ∷ 0 ∷ [] }) 5
    ≡ some (record { head = 0; tail = 0; max = 4; ring = 7 ∷ 8 ∷ 9 ∷ 5 ∷ [] })
unfolding io_u_rpush
full_ring_lost = refl
