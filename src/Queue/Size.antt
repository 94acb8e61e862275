-- ===== src/Queue/Size.antt =====
-- io_u_queue.c: `io_u_rinit` and the size of a ring.
use native.Mathlib.Decide.{dec_lt, ℕ_discrete}
use raptor_mark.Common.{
  ℕ, suc, ◌+◌, ◌-◌, ◌*◌, ◌/◌, ◌^◌, ◌≤◌, ◌<◌, ◌≡◌, ◌≢◌, refl, ap, sym, ◌∙◌, arith, true, eq→==,
  ne→==, bit_and, u32, some, [], length-replicate,
}
use raptor_mark.Common.Bits.{
  bit, bit-lt-two, bit-bit_and, bit-bit_or, bit-div, bit_high, bit-mask_low, bit-zero, eq_of_bits,
  two_pow-suc, two_pow_pos, IsTop, highest, bit-top,
}
use raptor_mark.Queue.{IoURing, smear, ring_size, io_u_rinit}
use raptor_mark.Queue.Ring.{IsQueue, slot_low}

-- The `w` digits from each set digit down are set.
record IsSmeared (t w n : ℕ) : Type 0 where
  below : (i : ℕ) → i ≤ t → t < i + w → bit n i ≡ 1
  above : (i : ℕ) → t < i → bit n i ≡ 0

smear-IsSmeared : (t w n : ℕ) → IsSmeared t w n → IsSmeared t (w + w) (smear n w)
unfolding smear
smear-IsSmeared t w n h = record {
  below = λ i p q. elim (dec_lt t (i + w)) [
    | yes near ↦
        omega (arith, bit-bit_or n (n / 2 ^ w) i, h.below i p near, bit-lt-two (n / 2 ^ w) i)
    | no far ↦ omega (
      arith,
      bit-bit_or n (n / 2 ^ w) i,
      bit-div n w i,
      h.below (w + i) (omega (arith, far)) (omega (arith, q)),
      bit-lt-two n i,
    )
  ];
  above = λ i p. omega (
    arith,
    bit-bit_or n (n / 2 ^ w) i,
    bit-div n w i,
    h.above i p,
    h.above (w + i) (omega arith),
  );
}

IsTop-IsSmeared : (n t : ℕ) → IsTop n t → IsSmeared t 1 n
IsTop-IsSmeared n t h = record {
  below = λ i p q. let e : i ≡ t = omega arith in ap (bit n) e ∙ bit-top n t h;
  above = λ i p. bit_high n (suc t) i (omega (arith, h.high, two_pow-suc t)) p;
}

-- All digits up to the highest.
smeared_full : (t n : ℕ) → t < 32 → IsSmeared t 32 n → n ≡ 2 ^ suc t - 1
smeared_full t n lt h = eq_of_bits n (2 ^ suc t - 1) (λ i. elim (dec_lt t i) [
  | yes above ↦
      h.above i above
      ∙ sym (bit_high (2 ^ suc t - 1) (suc t) i (omega (arith, two_pow_pos (suc t))) above)
  | no below ↦
      h.below i (omega (arith, below)) (omega arith)
      ∙ sym (bit-mask_low (suc t) i (omega (arith, below)))
])

-- A number that has no digit in common with the one before is a power of two.
power_of_two : (n t : ℕ) → IsTop n t → bit_and n (n - 1) ≡ 0 → n ≡ 2 ^ t
power_of_two n t h e = elim (ℕ_discrete n (2 ^ t)) [
  | yes same ↦ same
  | no more ↦
      let before : IsTop (n - 1) t = record {
        low = omega (arith, h.low, more);
        high = omega (arith, h.high);
      } in
      absurd (
        omega (
          arith,
          bit-bit_and n (n - 1) t,
          bit-top n t h,
          bit-top (n - 1) t before,
          ap (λ (m : ℕ). bit m t) e ∙ bit-zero t,
        ))
]

ring_size_lem :
    (nr : ℕ)
    → nr + 1 < 2 ^ 31
    → (k : ℕ) × (ring_size nr ≡ 2 ^ k) × (nr + 1 ≤ 2 ^ k) × (2 ^ k < 2 * (nr + 1))
unfolding ring_size
ring_size_lem nr small =
    let e : u32 (nr + 1) ≡ nr + 1 = omega arith in
    let f : u32 (nr + 1 + 2 ^ 32 - 1) ≡ nr = omega arith in
    rw (e, f)
      (elim (ℕ_discrete (bit_and (nr + 1) nr) 0) [
        | yes power ↦
            let top = highest 31 (nr + 1) (omega arith) small in
            let p : nr ≡ nr + 1 - 1 = omega arith in
            let same = power_of_two (nr + 1) top.0 top.1 (ap (bit_and (nr + 1)) (sym p) ∙ power) in
            rw (eq→== _ _ power) (top.0, same, omega (arith, same), omega (arith, same))
        | no other ↦
            let top = highest 31 nr (some_io other) (omega arith) in
            let n = smear (smear (smear (smear (smear nr 1) 2) 4) 8) 16 in
            let full : n ≡ 2 ^ suc top.0 - 1 =
              smeared_full top.0 n (omega (arith, top.2)) (widened top.0 top.1) in
            rw (ne→== _ _ other) (
              suc top.0,
              omega (arith, full, two_pow-suc top.0, top.1.low, small, two_pow_pos top.0),
              omega (arith, two_pow-suc top.0, top.1.high),
              omega (arith, two_pow-suc top.0, top.1.low),
            )
      ])
  where
    some_io : bit_and (nr + 1) nr ≢ 0 → 0 < nr
    some_io ne = elim (ℕ_discrete nr 0) [
      | yes none_asked ↦ absurd (
          ne (
            eq_of_bits _ 0 (λ i. omega (
              arith,
              bit-bit_and (nr + 1) nr i,
              ap (λ (m : ℕ). bit m i) none_asked ∙ bit-zero i,
              bit-zero i,
            ))))
      | no pos ↦ omega (arith, pos)
    ]

    widened :
        (t : ℕ) → IsTop nr t → IsSmeared t 32 (smear (smear (smear (smear (smear nr 1) 2) 4) 8) 16)
    widened t h = smear-IsSmeared t 16 _ (
        smear-IsSmeared t 8 _ (
          smear-IsSmeared t 4 _
            (smear-IsSmeared t 2 _ (smear-IsSmeared t 1 nr (IsTop-IsSmeared nr t h)))))

-- For less than 2^31 I/Os, io_u_rinit gives an empty queue whose places are a power of two, more than the
-- I/Os, and less than twice as many as one more than the I/Os, if the allocation succeeds.
pub io_u_rinit-IsQueue :
    (nr : ℕ)
    → nr + 1 < 2 ^ 31
    → (r : IoURing) × (io_u_rinit true nr ≡ some r)
      × IsQueue r []
      × (nr + 1 ≤ r.max)
      × (r.max < 2 * (nr + 1))
unfolding io_u_rinit
io_u_rinit-IsQueue nr small =
    let s = ring_size_lem nr small in
    (
      _,
      refl,
      record {
        power = (s.0, s.1, omega (arith, s.1, s.3));
        inside = omega (arith, s.1, s.2);
        stored = length-replicate (ring_size nr) 0;
        room = omega (arith, s.1, s.2);
        head = sym (slot_low (ring_size nr) 0 0 (omega (arith, s.1, s.2)));
        entries = λ i p. absurd (omega arith);
      },
      omega (arith, s.1, s.2),
      omega (arith, s.1, s.3),
    )
