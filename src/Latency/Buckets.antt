-- ===== src/Latency/Buckets.antt =====
-- stat.c: what the bucket of a latency says of it.
use native.Mathlib.Decide.{dec_lt, ℕ_discrete}
use native.Mathlib.Nat.{
  pow-le-pow_right, mul-add-div_right, div-eq_of_lt, mul-le-mul_right, div-add-mod', mod-lt,
  le-div_iff_mul-le, div-lt_iff_lt-mul,
}
use raptor_mark.Common.{
  ℕ, zero, suc, ◌+◌, ◌-◌, ◌*◌, ◌/◌, ◌%◌, ◌^◌, ◌≤◌, ◌<◌, ◌≡◌, refl, ap, sym, subst, ◌∙◌, arith, true,
  bit_and, u32, ◌<<<◌, ◌>>>◌, lt→ltb, ge→ltb, le→leb, gt→leb, ◌==◌, ne→==, ==→eq, all_entries,
  entry_of_all,
}
use raptor_mark.Common.Bits.{
  bit-bit_and, eq_of_bits, bit_and-mask, two_pow-suc, two_pow_pos, IsTop, highest,
}
use raptor_mark.Latency.{leading_zeros, highest_bit, plat_val_to_idx, plat_idx_to_val, plat_nr}

leading_zeros_lem :
    (n val m : ℕ) → 2 ^ m ≤ val → val < 2 * 2 ^ m → m < n → leading_zeros n val ≡ n - 1 - m
unfolding leading_zeros
leading_zeros_lem zero val m low high lt = absurd (omega arith)
leading_zeros_lem (suc n) val m low high lt = elim (ℕ_discrete m n) [
  | yes same ↦
      let e : 2 ^ m ≡ 2 ^ n = ap (λ (t : ℕ). 2 ^ t) same in
      rw (le→leb (2 ^ n) val (omega (arith, e, low))) (omega (arith, same))
  | no ne ↦
      let more : m < n = omega (arith, ne, lt) in
      rw (gt→leb (2 ^ n) val (omega (arith, high, two_pow-suc m, above more)))
        (omega (arith, leading_zeros_lem n val m low high more, more))
]
  where
    above : m < n → 2 ^ suc m ≤ 2 ^ n
    above lt = pow-le-pow_right {n = 2} (omega arith) {i = suc m} {j = n} lt

highest_bit_lem : (val m : ℕ) → 2 ^ m ≤ val → val < 2 * 2 ^ m → m < 64 → highest_bit val ≡ m
unfolding highest_bit
highest_bit_lem val m low high lt =
    rw (ne→== val 0 (omega (arith, low, two_pow_pos m)))
      (omega (arith, leading_zeros_lem 64 val m low high lt))

small_values : all_entries (λ val. plat_val_to_idx val == val) 128 ≡ true
unfolding all_entries plat_val_to_idx highest_bit leading_zeros
small_values = refl

-- The values that have buckets of their own.
small_idx : (val : ℕ) → val < 128 → plat_val_to_idx val ≡ val
small_idx val lt = ==→eq (plat_val_to_idx val) val (entry_of_all _ 128 val lt small_values)

two_pow_plus_six : (e : ℕ) → 2 ^ (e + 6) ≡ 64 * 2 ^ e
two_pow_plus_six e =
    ap (λ (t : ℕ). 2 ^ t) six
    ∙ omega (
      arith,
      two_pow-suc (suc (suc (suc (suc (suc e))))),
      two_pow-suc (suc (suc (suc (suc e)))),
      two_pow-suc (suc (suc (suc e))),
      two_pow-suc (suc (suc e)),
      two_pow-suc (suc e),
      two_pow-suc e,
    )
  where
    six : e + 6 ≡ suc (suc (suc (suc (suc (suc e)))))
    six = omega arith

-- The bucket of `q * 2 ^ e + r`, where `q` has seven digits.
module _ (e q r : ℕ) (pos : 1 ≤ e) (small : e ≤ 27) (low : 64 ≤ q) (high : q < 128)
    (within : r < 2 ^ e) where
  msb : highest_bit (q * 2 ^ e + r) ≡ e + 6
  msb =
      highest_bit_lem (q * 2 ^ e + r) (e + 6)
        (omega (arith, two_pow_plus_six e, mul-le-mul_right {m = 64} {n = q} (2 ^ e) low))
        (omega
          (arith, two_pow_plus_six e, within, mul-le-mul_right {m = suc q} {n = 128} (2 ^ e) high))
        (omega (arith, small))

  top_digits : (q * 2 ^ e + r) / 2 ^ e ≡ q
  top_digits =
      mul-add-div_right (two_pow_pos e) q r ∙ omega (arith, div-eq_of_lt {n = r} {m = 2 ^ e} within)

  offset : bit_and 63 q ≡ q - 64
  offset =
      eq_of_bits (bit_and 63 q) (bit_and q 63)
        (λ i. omega (arith, bit-bit_and 63 q i, bit-bit_and q 63 i))
      ∙ bit_and-mask 6 q
      ∙ omega (arith, low, high)

  large_idx : plat_val_to_idx (q * 2 ^ e + r) ≡ e * 64 + q
  unfolding plat_val_to_idx
  large_idx =
      let d : e + 6 - 6 ≡ e = omega arith in
      let base : u32 ((e + 1) <<< 6) ≡ (e + 1) * 64 = omega (arith, small) in
      rw (msb, gt→leb (e + 6) 6 (omega (arith, pos)), d, top_digits, offset, base)
        (elim (dec_lt ((e + 1) * 64 + (q - 64)) 1855) [
          | yes lt ↦ rw (lt→ltb ((e + 1) * 64 + (q - 64)) 1855 lt) (omega (arith, low))
          | no last ↦
              rw (ge→ltb ((e + 1) * 64 + (q - 64)) 1855 (omega (arith, last)))
                (omega (arith, low, high, small, last))
        ])

double : (e : ℕ) → 1 ≤ e → 2 ^ e ≡ 2 * 2 ^ (e - 1)
double e pos = ap (λ (t : ℕ). 2 ^ t) (omega arith) ∙ two_pow-suc (e - 1)

half_sum :
    (k p : ℕ)
    → 1 * (64 * (2 * p)) + (2 * k + 1) * (1 * (2 * p)) / 2 ≡ (64 + k) * (2 * p) + 2 * p / 2
half_sum k p = omega arith

small_val : (idx : ℕ) → idx < 128 → plat_idx_to_val idx ≡ idx
unfolding plat_idx_to_val
small_val idx lt = rw (lt→ltb idx 128 lt) refl

-- The middle of a bucket of `e` error digits.
bucket_middle :
    (e q : ℕ) → 1 ≤ e → 64 ≤ q → q < 128 → plat_idx_to_val (e * 64 + q) ≡ q * 2 ^ e + 2 ^ e / 2
unfolding plat_idx_to_val
bucket_middle e q pos low high =
    let g : (e * 64 + q) / 64 - 1 ≡ e = omega (arith, low, high) in
    let k : (e * 64 + q) % 64 ≡ q - 64 = omega (arith, low, high) in
    rw (ge→ltb (e * 64 + q) 128 (omega (arith, pos, low)), g, k, two_pow_plus_six e)
      (subst
          (λ (p : ℕ). 1 * (64 * p) + (2 * (q - 64) + 1) * (1 * p) / 2 ≡ (64 + (q - 64)) * p + p / 2)
          (sym (double e pos)) (half_sum (q - 64) (2 ^ (e - 1)))
        ∙ ap (λ (t : ℕ). t * 2 ^ e + 2 ^ e / 2) (omega (arith, low)))

-- A number of more than seven digits, by its first seven.
record IsSplit (val e q r : ℕ) : Type 0 where
  sum : val ≡ q * 2 ^ e + r
  pos : 1 ≤ e
  low : 64 ≤ q
  high : q < 128
  within : r < 2 ^ e

top_seven : (val t : ℕ) → 128 ≤ val → IsTop val t → 7 ≤ t
top_seven val t large top = elim (dec_lt t 7) [
  | yes lt ↦
      let p : 2 ^ t ≤ 2 ^ 6 =
        pow-le-pow_right {n = 2} (omega arith) {i = t} {j = 6} (omega arith) in
      absurd (omega (arith, p, top.high, large))
  | no ge ↦ omega (arith, ge)
]

split :
    (val t : ℕ)
    → 128 ≤ val
    → IsTop val t
    → IsSplit val (t - 6) (val / 2 ^ (t - 6)) (val % 2 ^ (t - 6))
split val t large top = record {
  sum = sym (div-add-mod' val (2 ^ e));
  pos = omega (arith, long);
  low = (le-div_iff_mul-le (two_pow_pos e)).1 (omega (arith, power, top.low));
  high = (div-lt_iff_lt-mul (two_pow_pos e)).1 (omega (arith, power, top.high));
  within = mod-lt val (two_pow_pos e);
}
  where
    e : ℕ
    e = t - 6

    long : 7 ≤ t
    long = top_seven val t large top

    power : 2 ^ t ≡ 64 * 2 ^ e
    power = ap (λ (i : ℕ). 2 ^ i) (omega (arith, long)) ∙ two_pow_plus_six e

in_table : (val : ℕ) → 7 ≤ highest_bit val → plat_val_to_idx val < plat_nr
unfolding plat_val_to_idx
in_table val long = rw (gt→leb (highest_bit val) 6 long) (elim (dec_lt i 1855) [
  | yes lt ↦ rw (lt→ltb i 1855 lt) (omega (arith, lt))
  | no ge ↦ rw (ge→ltb i 1855 (omega (arith, ge))) (omega arith)
])
  where
    e : ℕ
    e = highest_bit val - 6

    i : ℕ
    i = u32 ((e + 1) <<< 6) + bit_and 63 (val >>> e)

-- Each 64-bit latency has a bucket of the table.
pub plat_val_to_idx-lt : (val : ℕ) → val < 2 ^ 64 → plat_val_to_idx val < plat_nr
plat_val_to_idx-lt val fits = elim (dec_lt val 128) [
  | yes small ↦ omega (arith, small_idx val small, small)
  | no large ↦
      let top = highest 64 val (omega (arith, large)) fits in
      in_table val (
        omega (
          arith,
          top_seven val top.0 (omega (arith, large)) top.1,
          highest_bit_lem val top.0 top.1.low top.1.high top.2,
        ))
]

-- For a latency below 2^34 nanoseconds, the value of its bucket is off by a 128th part of it at most.
pub plat_idx_to_val-plat_val_to_idx :
    (val : ℕ)
    → val < 2 ^ 34
    → (plat_idx_to_val (plat_val_to_idx val) ≤ val + val / 128)
      × (val ≤ plat_idx_to_val (plat_val_to_idx val) + val / 128)
plat_idx_to_val-plat_val_to_idx val fits = elim (dec_lt val 128) [
  | yes small ↦
      let e = ap plat_idx_to_val (small_idx val small) ∙ small_val val small in
      (omega (arith, e), omega (arith, e))
  | no large ↦
      let top = highest 34 val (omega (arith, large)) fits in
      let e = top.0 - 6 in
      let q = val / 2 ^ e in
      let s = split val top.0 (omega (arith, large)) top.1 in
      let v : plat_idx_to_val (plat_val_to_idx val) ≡ q * 2 ^ e + 2 ^ e / 2 =
        ap (λ (t : ℕ). plat_idx_to_val (plat_val_to_idx t)) s.sum
        ∙ ap plat_idx_to_val
            (large_idx e q (val % 2 ^ e) s.pos (omega (arith, top.2)) s.low s.high s.within)
        ∙ bucket_middle e q s.pos s.low s.high in
      let wide : 64 * 2 ^ e ≤ q * 2 ^ e = mul-le-mul_right {m = 64} {n = q} (2 ^ e) s.low in
      (omega (arith, v, s.sum, s.within, wide), omega (arith, v, s.sum, s.within, wide))
]

-- The value of a bucket lies in the bucket.
pub plat_val_to_idx-plat_idx_to_val :
    (idx : ℕ) → idx < plat_nr → plat_val_to_idx (plat_idx_to_val idx) ≡ idx
plat_val_to_idx-plat_idx_to_val idx lt = elim (dec_lt idx 128) [
  | yes small ↦ ap plat_val_to_idx (small_val idx small) ∙ small_idx idx small
  | no large ↦
      let e = idx / 64 - 1 in
      let q = idx % 64 + 64 in
      let pos : 1 ≤ e = omega (arith, large) in
      let same : idx ≡ e * 64 + q = omega (arith, large) in
      ap (λ (t : ℕ). plat_val_to_idx (plat_idx_to_val t)) same
      ∙ ap plat_val_to_idx (bucket_middle e q pos (omega arith) (omega arith))
      ∙ large_idx e q (2 ^ e / 2) pos (omega (arith, lt)) (omega arith) (omega arith)
          (omega (arith, two_pow_pos e))
      ∙ sym same
]
