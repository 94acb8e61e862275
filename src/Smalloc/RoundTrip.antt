-- ===== src/Smalloc/RoundTrip.antt =====
-- smalloc.c: `smalloc_pool` and then `sfree_pool`.
use raptor_mark.Common.{
  ℕ, ◌+◌, ◌*◌, ◌^◌, ◌≤◌, ◌<◌, ◌≡◌, ◌≢◌, refl, sym, ap, ◌∙◌, ◌⊎◌, inl, inr, arith, true, none, some,
  eq→==, ne→==, Option-cases, some_injective, none_ne,
}
use native.Mathlib.Decide.{ℕ_discrete}
use raptor_mark.Smalloc.{
  Pool, size_to_blocks, smalloc_blocks, redzones_intact, sfree_pool, smalloc_pool,
  size_to_alloc_size, postred_ptr, clear, fill_redzone, pre_red, post_red,
}
use raptor_mark.Smalloc.WellFormed.{IsPool}
use raptor_mark.Smalloc.Alloc.{IsGranted, smalloc_blocks-IsGranted}
use raptor_mark.Smalloc.Release.{IsBlock, sfree_pool_lem, bitmap_restored, IsFenced, fill-IsFenced}

-- The pool with the memory that `smalloc_pool` leaves behind the header at `hdr`.
abbrev fenced : Pool → ℕ → ℕ → Pool
fenced p hdr size = record p {
  memory = clear (fill_redzone p.memory hdr (size_to_alloc_size size)) (hdr + 16) size;
}

module _ (p : Pool) (size : ℕ) where
  pool_none : smalloc_blocks p (size_to_alloc_size size) ≡ none → smalloc_pool p size ≡ none
  unfolding smalloc_pool
  pool_none e = rw (smalloc_pool, e) refl

  pool_null :
      (hdr : ℕ) (p0 : Pool)
      → smalloc_blocks p (size_to_alloc_size size) ≡ some (hdr, p0)
      → hdr ≡ 0
      → smalloc_pool p size ≡ some (0, p0)
  unfolding smalloc_pool
  pool_null hdr p0 e z = rw (smalloc_pool, e) (rw (eq→== hdr 0 z) refl)

  pool_fenced :
      (hdr : ℕ) (p0 : Pool)
      → smalloc_blocks p (size_to_alloc_size size) ≡ some (hdr, p0)
      → hdr ≢ 0
      → smalloc_pool p size ≡ some (hdr + 16, fenced p0 hdr size)
  unfolding smalloc_pool
  pool_fenced hdr p0 e ne = rw (smalloc_pool, e) (rw (ne→== hdr 0 ne) refl)

-- What a call that returns an address did.
smalloc_pool-some :
    (p : Pool) (size ptr : ℕ) (p' : Pool)
    → smalloc_pool p size ≡ some (ptr, p')
    → ptr ≢ 0
    → (hdr : ℕ) × (p0 : Pool) × (smalloc_blocks p (size_to_alloc_size size) ≡ some (hdr, p0))
      × (hdr ≢ 0)
      × (hdr + 16 ≡ ptr)
      × (fenced p0 hdr size ≡ p')
smalloc_pool-some p size ptr p' h ne =
    elim (Option-cases (smalloc_blocks p (size_to_alloc_size size))) [
      | inl e ↦ absurd (none_ne {a = (ptr, p')} (sym (pool_none p size e) ∙ h))
      | inr ((hdr, p0), e) ↦ elim (ℕ_discrete hdr 0) [
        | yes z ↦ absurd (
            ne (
              sym (
                ap (λ (r : ℕ × Pool). r.0)
                  (some_injective (sym (pool_null p size hdr p0 e z) ∙ h)))))
        | no ne' ↦
            let same = some_injective (sym (pool_fenced p size hdr p0 e ne') ∙ h) in
            (hdr, p0, e, ne', ap (λ (r : ℕ × Pool). r.0) same, ap (λ (r : ℕ × Pool). r.1) same)
      ]
    ]

-- A client that writes to its own bytes only leaves the red zones as they are.
IsFenced-kept :
    (memory memory' : ℕ → ℕ) (hdr size : ℕ)
    → IsFenced memory hdr size
    → ((a : ℕ) → (a < hdr + 16) ⊎ (hdr + 16 + size ≤ a) → memory' a ≡ memory a)
    → IsFenced memory' hdr size
unfolding size_to_alloc_size postred_ptr
IsFenced-kept memory memory' hdr size f same = record {
  size_at = same hdr (omega arith) ∙ f.size_at;
  pre = same (hdr + 8) (omega arith) ∙ f.pre;
  post = same _ (omega arith) ∙ f.post;
}

IsFenced-intact :
    (memory : ℕ → ℕ) (hdr size : ℕ) → IsFenced memory hdr size → redzones_intact memory hdr ≡ true
unfolding redzones_intact
IsFenced-intact memory hdr size f =
    rw (eq→== (memory (hdr + 8)) pre_red f.pre)
      (eq→== _ post_red (ap (λ (s : ℕ). memory (postred_ptr hdr s)) f.size_at ∙ f.post))

alloc_bounds :
    (size : ℕ) → size < 2 ^ 31 → (0 < size_to_alloc_size size) × (size_to_alloc_size size < 2 ^ 32)
unfolding size_to_alloc_size
alloc_bounds size small = (omega arith, omega arith)

-- The round trip, at the header.
round_trip :
    (p : Pool) (size hdr : ℕ) (p0 : Pool) (memory : ℕ → ℕ)
    → IsPool p
    → size < 2 ^ 31
    → IsGranted p (size_to_blocks (size_to_alloc_size size)) hdr p0
    → IsFenced memory hdr size
    → (q : Pool) × (sfree_pool (record p0 { memory = memory }) (hdr + 16) ≡ some q)
      × (q.bitmap ≡ p.bitmap)
      × (q.free_blocks ≡ p.free_blocks)
      × IsPool q
unfolding size_to_blocks size_to_alloc_size
round_trip p size hdr p0 memory v small g f =
    let n = size_to_blocks (size_to_alloc_size size) in
    let p1 : Pool = record p0 { memory = memory } in
    let v1 : IsPool p1 = record {
      words_eq = g.valid.words_eq;
      fit = g.valid.fit;
      counted = g.valid.counted;
      start = g.valid.start;
      small = g.valid.small;
      map_pos = g.valid.map_pos;
    } in
    let block : IsBlock p1 hdr n g.word g.idx = record {
      address = omega (arith, g.address, g.same_map);
      idx-lt = g.taken.idx-lt;
      within = omega (arith, g.taken.within, g.same_words);
      pos = omega arith;
      small = omega arith;
      taken = g.taken.taken.inside;
      size = ap size_to_blocks f.size_at;
      intact = IsFenced-intact memory hdr size f;
    } in
    let freed = sfree_pool_lem p1 hdr n g.word g.idx v1 block in
    (
      freed.0,
      freed.1,
      bitmap_restored p.bitmap p0.bitmap freed.0.bitmap (g.word * 32 + g.idx) n v.fit g.taken.free
          g.taken.taken freed.3,
      freed.4 ∙ g.free_blocks,
      freed.2,
    )

-- An address that `smalloc_pool` returns for less than 2 GiB of a well-formed pool is taken back by
-- `sfree_pool`, whatever the client has written to its own bytes meanwhile: the red zones are intact, no
-- assertion fails, the bitmap and the count of free blocks are those from before the call, and the pool
-- is well-formed.
pub sfree_pool-smalloc_pool :
    (p : Pool) (size ptr : ℕ) (p' : Pool) (memory : ℕ → ℕ)
    → IsPool p
    → size < 2 ^ 31
    → smalloc_pool p size ≡ some (ptr, p')
    → ptr ≢ 0
    → ((a : ℕ) → (a < ptr) ⊎ (ptr + size ≤ a) → memory a ≡ p'.memory a)
    → (q : Pool) × (sfree_pool (record p' { memory = memory }) ptr ≡ some q)
      × (q.bitmap ≡ p.bitmap)
      × (q.free_blocks ≡ p.free_blocks)
      × IsPool q
sfree_pool-smalloc_pool p size ptr p' memory v small h ne kept =
    let s = smalloc_pool-some p size ptr p' h ne in
    let hdr = s.0 in
    let p0 = s.1 in
    let alloc = alloc_bounds size small in
    let g = smalloc_blocks-IsGranted p (size_to_alloc_size size) hdr p0 v alloc.0 alloc.1 s.2 s.3 in
    let f =
      IsFenced-kept (fenced p0 hdr size).memory memory hdr size (fill-IsFenced p0.memory hdr size)
        λ a out. kept a (omega (arith, out, s.4)) ∙ ap (λ (r : Pool). r.memory a) (sym s.5) in
    let r = round_trip p size hdr p0 memory v small g f in
    (
      r.0,
      ap (λ (x : Pool). sfree_pool (record x { memory = memory }) ptr) (sym s.5)
          ∙ ap (sfree_pool (record p0 { memory = memory })) (sym s.4)
          ∙ r.1,
      r.2,
      r.3,
      r.4,
    )
