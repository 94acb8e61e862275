-- ===== src/Lib.antt =====
-- Models and proofs about fio, the I/O engine in C that the RaptorMark benchmark runs
-- (app/src/main/cpp/fio in the repository; the names of files below are relative to it).
--
-- What the parts are and how they work together. A job of fio reads or writes a file in blocks. For
-- each I/O, io_u.c chooses an offset: behind the last one (get_next_seq_offset), or a random block
-- (get_next_rand_block). Where random I/O is to touch each block once, the blocks done are in the
-- random map of the file (lib/axmap.c), a bitmap with levels of summaries above it, which finds a
-- free digit of a word by lib/ffz.h. mark_random_map puts the blocks of an I/O into the map and cuts
-- the I/O where it meets a block that is done. What is written can carry a checksum of crc/, which
-- verify.c compares. A zoned distribution draws the block from a part of the file (options.c, zone-
-- dist.c, io_u.c); without a map, a shift register (lib/lfsr.c) can draw each block once. Jobs of a
-- flow wait for each other by a common count (flow.c), which lives in shared memory (smalloc.c). A
-- server runs jobs for a client, with commands in frames (server.c).
--
-- Which file models what.
--   Common: comparisons, lists and words of C (u32 and u64 are the remainders that unsigned types
--     keep); the digits of numbers and the laws of & | ^ are in Common/Bits.
--   Ffz: ffs64 and ffz of lib/ffz.h.
--   Axmap: lib/axmap.c, one definition for each function or loop: axmap_new, axmap_reset,
--     __axmap_set (axmap_set_data), axmap_set, axmap_set_nr, axmap_isset, axmap_find_first_free
--     and axmap_next_free, with axmap_handler and axmap_handler_topdown as the loops that call the
--     callbacks. A level holds the list of its words; a pointer into it is an index. Axmap/Layout
--     says when a map is well formed (a summary digit is set exactly if its word is full) and
--     which set of numbers it stands for.
--   Offset: io_u.c from random_map_free to get_next_rand_block; Offset/Position has
--     get_next_seq_offset, get_next_block and get_next_offset. A return of 1 is `none`, or the
--     field `failed`; a failed assertion of mark_random_map is `none`. The state that the
--     functions write (the file's positions, the map, the counter of sequential I/Os) goes in and
--     comes out.
--   Queue: io_u_queue.h and io_u_queue.c, the stack of free I/Os and the ring of those to issue
--     again, with the size of the ring that io_u_rinit rounds up. A failed assertion is `none`.
--   Latency: plat_val_to_idx and plat_idx_to_val of stat.c, the buckets of the latency histogram.
--   Steady: steadystate_deviation of steadystate.c, the ring of the last samples and their running
--     sum.
--   Smalloc: smalloc.c, one pool of the allocator of shared memory. `smalloc_blocks` is
--     __smalloc_pool; an address is a number, and the memory holds the words that the allocator
--     writes. A failed assertion and a shift that C leaves undefined are `none`.
--   Lfsr: lib/lfsr.c, the shift registers that draw each block once; the switch of __lfsr_next is
--     a count of steps, `spin_steps`. Lfsr/Orbit is about iterating a function on finitely many
--     states.
--   Net: server.c, the framing of commands: fio_net_send_cmd and fio_net_recv_cmd with what they
--     call. A buffer is the list of its bytes; a command is sent and received as the bytes of its
--     structure (Net/Header). Net/Receive says what a stream that loses nothing does, and
--     Net/Tests has a pipe.
--   Zone: the zoned distributions: zone_split_ddir of options.c on the numbers that
--     split_parse_ddir gives, zone-dist.c, and __get_next_rand_offset_zoned and
--     __get_next_rand_offset_zoned_abs of io_u.c on the number that rand_between gives. The fields
--     that malloc leaves unset are 0; a write behind the table is `none`. The test for an end of
--     -1U in the relative draw is on a uint8_t and never holds, so the model does not have it.
--   Bloom: lib/bloom.c; the table of hash functions, which it calls through pointers, is an
--     argument. Bloom/Loop is the loop over the hashes, Bloom/Filter any sequence of operations,
--     and Bloom/Answer what the filter then says.
--   Flow: flow.c, the groups of jobs that share a count of I/Os. A pointer to a flow is its id;
--     the comparison of ratios in flow_threshold_exceeded is an argument. Flow/Steps has the
--     orders in which jobs begin, ask and end.
--   Crc: the table-driven checksums crc7, crc16, crc32, crc32c, crc64, crc64-nvme and crc-t10dif,
--     with their tables; Crc/Reflected and Crc/Msb hold the division of polynomials digit by
--     digit.
--
-- Numbers. unsigned int and uint64_t wrap as written. Words of a map have 64 digits (BITS_PER_LONG).
-- The maps of the theorems have 2^62 blocks at most, more than 2^64 bytes have in blocks of four
-- bytes or more.
--
-- Loops. axmap_set_nr runs on rounds, one more than the digits asked for, since each round but the
-- last adds one at least; count_levels has 32 rounds for an unsigned int that each round divides by
-- 64; the search of a pool has a round for each block and one more, as many as it needs since each
-- round is at a later block; blocks_iter has a round for each block asked for; fio_net_send_cmd has
-- a round for each byte and one more, and sends a byte at least in each but the last; lfsr_next has
-- a round for each state of the register and place in the cycle, within which it is back at the
-- value it began with, if that one is in range; all other loops run over a list or count down.
--
-- What is taken from outside. The socket is an argument of Net: a function that sends bytes and one
-- that receives a number of them, in the place of fio_send_data and fio_recv_data. malloc is an
-- argument: which allocations succeed, and what fresh memory holds. The random generators are an
-- argument: a function from a number of blocks and a state to a block or nothing; the theorems ask
-- that the blocks lie in the map. The comparison in floating point of the deviation with the limit
-- is an argument of steadystate_deviation. The draw of lib/rand.h goes through floating point, which
-- is not modelled.
--
-- Not modelled: floating point (rates, percentiles, the zipf, pareto and gauss distributions),
-- printing, the commands that client and server act on, the engines and the system calls, the
-- parsing of options, zoned block devices. The asm of arch_ffz that some processors use in place of
-- ffz is not C.
pub mod Common
pub mod Crc
pub mod Ffz
pub mod Axmap
pub mod Offset
pub mod Queue
pub mod Latency
pub mod Steady
pub mod Smalloc
pub mod Lfsr
pub mod Net
pub mod Zone
pub mod Bloom
pub mod Flow
