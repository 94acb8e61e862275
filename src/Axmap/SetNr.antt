-- ===== src/Axmap/SetNr.antt =====
-- lib/axmap.c: `axmap_set_nr` as a change of the set.
use native.Mathlib.Decide.{dec_lt, ℕ_discrete}
use raptor_mark.Common.{
  ℕ, zero, suc, ◌+◌, ◌-◌, ◌%◌, ◌≤◌, ◌<◌, ◌≡◌, refl, ap, sym, subst, ◌∙◌, inl, bit_and, arith, ltb,
  lt→ltb, ge→ltb, ◌==◌, eq→==, ne→==, if◌then◌else◌, Option, some,
}
use raptor_mark.Axmap.{Axmap, SetData, axmap_set_data, set_nr_loop, axmap_set_nr}
use raptor_mark.Axmap.Digits.{run}
use raptor_mark.Axmap.Runs.{run_cong, run_on, run_stops}
use raptor_mark.Axmap.Layout.{IsAxmap, member, low_bits}
use raptor_mark.Axmap.SetOne.{IsAdded, axmap_set_data_lem}

IsAdded-trans :
    (a b c : Axmap) (n r s : ℕ) → IsAdded a n r b → IsAdded b (n + r) s c → IsAdded a n (r + s) c
IsAdded-trans a b c n r s h k = record {
  valid = k.valid;
  same_size = k.same_size ∙ h.same_size;
  inside = λ m p q. elim (dec_lt m (n + r)) [
    | yes lt ↦ k.outside m (inl lt) ∙ h.inside m p lt
    | no ge ↦ k.inside m (omega arith) (omega arith)
  ];
  outside = λ m out. k.outside m (omega arith) ∙ h.outside m (omega arith);
}

-- What one round asks of `__axmap_set`.
abbrev share : ℕ → ℕ → ℕ
share n k = if ltb (64 - bit_and n 63) k then 64 - bit_and n 63 else k

share_fits : (n k : ℕ) → 0 < k → (0 < share n k) × (share n k ≤ k) × (n % 64 + share n k ≤ 64)
share_fits n k pos = rw (low_bits n) (elim (dec_lt (64 - n % 64) k) [
  | yes lt ↦ rw (lt→ltb (64 - n % 64) k lt) (omega arith, omega arith, omega arith)
  | no ge ↦ rw (ge→ltb (64 - n % 64) k (omega arith)) (pos, omega arith, omega arith)
])

-- The end of one round, which found `done` numbers of the `this` that it asked for.
abbrev round_end : ℕ → ℕ → ℕ → ℕ → Axmap → Option (ℕ × Axmap) → Option (ℕ × Axmap)
round_end this done k acc axmap rest =
    if done == this
    then if k - done == 0 then some (acc + done, axmap) else rest
    else some (acc + done, axmap)

set_nr_loop-suc :
    (rounds : ℕ) (axmap : Axmap) (n k acc : ℕ)
    → let r = axmap_set_data axmap n (record { nr_bits = share n k; set_bits = 0 }) in
      set_nr_loop (suc rounds) axmap n k acc
      ≡ round_end
          (share n k)
          r.1.set_bits
          k
          acc
          r.0
          (set_nr_loop rounds r.0 (n + r.1.set_bits) (k - r.1.set_bits) (acc + r.1.set_bits))
unfolding set_nr_loop
set_nr_loop-suc rounds axmap n k acc = refl

-- What the loop promises of its result.
abbrev Swept : Axmap → ℕ → ℕ → ℕ → Option (ℕ × Axmap) → Type 0
Swept axmap n k acc result =
    (after : Axmap) × (result ≡ some (acc + run (member axmap) n k, after))
    × IsAdded axmap n (run (member axmap) n k) after

-- One round and, if the share was free and something is left, the others.
round_swept :
    (axmap b : Axmap) (n k acc this done : ℕ) (rest : Option (ℕ × Axmap))
    → IsAdded axmap n done b
    → done ≡ run (member axmap) n this
    → this ≤ k
    → (done ≡ this → this < k → Swept b (n + done) (k - done) (acc + done) rest)
    → Swept axmap n k acc (round_end this done k acc b rest)
round_swept axmap b n k acc this done rest added e le more = elim (ℕ_discrete done this) [
  | yes all ↦ elim (ℕ_discrete (k - done) 0) [
    | yes end ↦
        let whole : run (member axmap) n k ≡ done =
          ap (run (member axmap) n) (omega (arith, end, all)) ∙ sym e in
        rw (eq→== _ _ all, eq→== _ _ end, whole) (b, refl, added)
    | no left ↦
        let later = more all (omega (arith, left, all)) in
        let tail : run (member b) (n + done) (k - done) ≡ run (member axmap) (n + this) (k - this) =
          run_cong (member b) (member axmap) (n + done) (n + this) (k - done) (λ j p.
            added.outside (n + done + j) (omega arith) ∙ ap (member axmap) (omega (arith, all)))
          ∙ ap (run (member axmap) (n + this)) (omega (arith, all)) in
        let sum : run (member axmap) n k ≡ done + run (member b) (n + done) (k - done) =
          ap (run (member axmap) n) (omega (arith, le))
          ∙ run_on (member axmap) n this (k - this) (sym e ∙ all)
          ∙ omega (arith, all, tail) in
        rw (eq→== _ _ all, ne→== _ _ left, sum)
          (
            later.0,
            later.1 ∙ ap (λ (t : ℕ). some (t, later.0)) (omega arith),
            IsAdded-trans axmap b later.0 n done _ added later.2,
          )
  ]
  | no short ↦
      let whole : run (member axmap) n k ≡ done =
        ap (run (member axmap) n) (omega (arith, le))
        ∙ run_stops (member axmap) n this (k - this) (λ z. short (e ∙ z))
        ∙ sym e in
      rw (ne→== _ _ short, whole) (b, refl, added)
]

-- The loop ends with the whole run of numbers not in the set added and counted.
set_nr_loop_lem :
    (rounds : ℕ) (axmap : Axmap) (n k acc : ℕ)
    → k < rounds
    → IsAxmap axmap
    → 0 < k
    → n + k ≤ axmap.nr_bits
    → Swept axmap n k acc (set_nr_loop rounds axmap n k acc)
set_nr_loop_lem zero axmap n k acc h v pos fits = absurd (omega arith)
set_nr_loop_lem (suc rounds) axmap n k acc h v pos fits =
    rw (set_nr_loop-suc rounds axmap n k acc) (
      round_swept axmap r.0 n k acc this done _
        (subst (λ (t : ℕ). IsAdded axmap n t r.0) (sym once.1) once.0) once.1 part.1
        (λ all lt.
          set_nr_loop_lem rounds r.0 (n + done) (k - done) (acc + done) (omega (arith, all, part.0))
            once.0.valid (omega (arith, all)) (omega (arith, all, once.0.same_size))))
  where
    this : ℕ
    this = share n k

    part : (0 < this) × (this ≤ k) × (n % 64 + this ≤ 64)
    part = share_fits n k pos

    r : Axmap × SetData
    r = axmap_set_data axmap n (record { nr_bits = this; set_bits = 0 })

    done : ℕ
    done = r.1.set_bits

    once : IsAdded axmap n (run (member axmap) n this) r.0 × (done ≡ run (member axmap) n this)
    once = axmap_set_data_lem axmap n this v part.0 part.2 (omega arith)

-- On a well-formed map, for one number at least and all below its size, axmap_set_nr ends, returns
-- how many numbers from bit_nr on are not in the set up to the first that is (nr_bits at most), adds
-- these numbers and no other, and keeps the map well formed and its size.
pub axmap_set_nr_lem :
    (axmap : Axmap) (bit_nr nr_bits : ℕ)
    → IsAxmap axmap
    → 0 < nr_bits
    → bit_nr + nr_bits ≤ axmap.nr_bits
    → (after : Axmap) × (axmap_set_nr axmap bit_nr nr_bits
        ≡ some (run (member axmap) bit_nr nr_bits, after))
      × IsAdded axmap bit_nr (run (member axmap) bit_nr nr_bits) after
unfolding axmap_set_nr
axmap_set_nr_lem axmap bit_nr nr_bits v pos fits =
    let s = set_nr_loop_lem (nr_bits + 1) axmap bit_nr nr_bits 0 (omega arith) v pos fits in
    (s.0, s.1 ∙ ap (λ (t : ℕ). some (t, s.0)) (omega arith), s.2)
