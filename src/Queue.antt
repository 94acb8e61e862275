-- ===== src/Queue.antt =====
-- io_u_queue.h and io_u_queue.c: the stack and the ring that hold the I/Os of a thread. An I/O is the
-- number of its address, and 0 is NULL. `none` stands for the failed assertion of a push into a full
-- queue. What memory holds after an allocation is `garbage`.
pub mod Stack
pub mod Ring
pub mod Size
mod Tests
use raptor_mark.Common.{
  ℕ, ◌+◌, ◌-◌, ◌^◌, bit_and, bit_or, u32, ◌>>>◌, Bool, true, false, not, Option, none, some, List,
  [], ◌∷◌, if◌then◌else◌, ltb, ◌==◌, get_or, set, replicate,
}

pub record IoUQueue : Type 0 where
  pub io_us : List ℕ
  pub nr : ℕ
  pub max : ℕ

unfoldable pub io_u_qinit : Bool → ℕ → ℕ → Option IoUQueue
io_u_qinit alloc_ok garbage nr =
    if alloc_ok then some (record { io_us = replicate nr garbage; nr = 0; max = nr }) else none

unfoldable pub io_u_qpop : IoUQueue → ℕ × IoUQueue
io_u_qpop q =
    if q.nr == 0
    then (0, q)
    else let next = q.nr - 1 in
      (get_or q.io_us next 0, record q { nr = next; io_us = set q.io_us next 0 })

unfoldable pub io_u_qpush : IoUQueue → ℕ → Option IoUQueue
io_u_qpush q io_u =
    if ltb q.nr q.max
    then some (record q { nr = q.nr + 1; io_us = set q.io_us q.nr io_u })
    else none

unfoldable pub io_u_qempty : IoUQueue → Bool
io_u_qempty q = q.nr == 0

pub record IoURing : Type 0 where
  pub head : ℕ
  pub tail : ℕ
  pub max : ℕ
  pub ring : List ℕ

unfoldable pub smear : ℕ → ℕ → ℕ
smear max by = bit_or max (max >>> by)

-- The size of the ring for `nr` I/Os.
unfoldable pub ring_size : ℕ → ℕ
ring_size nr =
    let max = u32 (nr + 1) in
    if bit_and max (u32 (max + 2 ^ 32 - 1)) == 0
    then max
    else u32 (smear (smear (smear (smear (smear (u32 (max + 2 ^ 32 - 1)) 1) 2) 4) 8) 16 + 1)

unfoldable pub io_u_rinit : Bool → ℕ → Option IoURing
io_u_rinit alloc_ok nr =
    if alloc_ok
    then some (record { head = 0; tail = 0; max = ring_size nr; ring = replicate (ring_size nr) 0 })
    else none

unfoldable pub io_u_rpush : IoURing → ℕ → Option IoURing
io_u_rpush r io_u =
    if u32 (r.head + 1) == r.tail
    then none
    else some
        (record r { ring = set r.ring r.head io_u; head = bit_and (u32 (r.head + 1)) (r.max - 1) })

unfoldable pub io_u_rpop : IoURing → ℕ × IoURing
io_u_rpop r =
    if r.head == r.tail
    then (0, r)
    else (get_or r.ring r.tail 0, record r { tail = bit_and (u32 (r.tail + 1)) (r.max - 1) })

unfoldable pub io_u_rempty : IoURing → Bool
io_u_rempty r = r.head == r.tail
