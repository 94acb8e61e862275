-- ===== src/Bloom/Filter.antt =====
-- lib/bloom.c: what the filter says after any sequence of its operations.
use mathlib.Core.Bool.{true≢false}
use native.Mathlib.Nat.{mod-lt}
use raptor_mark.Common.{
  ℕ, suc, ◌*◌, ◌≤◌, ◌<◌, ◌≡◌, refl, sym, ap, ◌∙◌, arith, ◌⊎◌, inl, inr, Bool, true, false, List, [],
  ◌∷◌, length, map, Option, none, some, ◌==◌, u32,
}
use raptor_mark.Bloom.{Bloom, BloomHash, n_hashes, hash_of, check_loop, bloom_check, bloom_string}
use raptor_mark.Bloom.Digits.{digit}
use raptor_mark.Bloom.Loop.{Among, AllInside, IsPut, IsLook, check_loop-IsPut, check_loop-IsLook}

-- A filter of `entries` digits, with words for all of them.
pub record IsBloom (entries : ℕ) (b : Bloom) : Type 0 where
  pub count : b.nentries ≡ entries
  pub some_digit : 0 < entries
  pub room : entries ≤ length b.map * 32

module _ (hashes : List BloomHash) (entries : ℕ) where
  -- The digits of a string.
  abbrev pub digits_of : List ℕ → List ℕ
  digits_of buf = map (hash_of entries buf) hashes

  -- The digit belongs to a string that an operation of the list adds.
  abbrev pub AddedBy : List (List ℕ × Bool) → ℕ → Type 0
  AddedBy [] n = ⊥
  AddedBy ((buf, put) ∷ ops) n = ((put ≡ true) × Among n (digits_of buf)) ⊎ AddedBy ops n

  -- Operations one after the other: strings to add, and strings to look for.
  abbrev pub drive : List (List ℕ × Bool) → Bloom → Option Bloom
  drive [] b = some b
  drive ((buf, put) ∷ ops) b = elim (bloom_string hashes b buf put) [
    | none ↦ none
    | some (r, b') ↦ drive ops b'
  ]

hash_in_range :
    (entries : ℕ) (buf : List ℕ) (hashes : List BloomHash) (n : ℕ)
    → 0 < entries
    → Among n (map (hash_of entries buf) hashes)
    → n < entries
unfolding hash_of
hash_in_range entries buf [] n pos no_such = absurd no_such
hash_in_range entries buf (h ∷ hashes) n pos (inl e) =
    omega (arith, e, mod-lt (u32 (h.fn buf h.seed)) pos)
hash_in_range entries buf (h ∷ hashes) n pos (inr later) =
    hash_in_range entries buf hashes n pos later

pub length-digits :
    (entries : ℕ) (buf : List ℕ) (hashes : List BloomHash)
    → length (digits_of hashes entries buf) ≡ length hashes
length-digits entries buf [] = refl
length-digits entries buf (h ∷ hashes) = ap suc (length-digits entries buf hashes)

module _ (hashes : List BloomHash) (entries : ℕ) where
  digits_inside :
      (b : Bloom) (buf : List ℕ)
      → IsBloom entries b
      → AllInside (digits_of hashes entries buf) (length b.map)
  digits_inside b buf v n among =
      omega (arith, hash_in_range entries buf hashes n v.some_digit among, v.room)

  bloom_string_lem :
      (b : Bloom) (buf : List ℕ) (put : Bool) (was : ℕ) (words : List ℕ)
      → b.nentries ≡ entries
      → check_loop put (digits_of hashes entries buf) 0 b.map ≡ some (was, words)
      → bloom_string hashes b buf put ≡ some (was == n_hashes, record b { map = words })
  unfolding bloom_string bloom_check
  bloom_string_lem b buf put was words e loop =
      ap (λ (n : ℕ). bloom_string hashes (record { nentries = n; map = b.map }) buf put) e
      ∙ rw (bloom_check, loop)
          (λ i. some (was == n_hashes, record { nentries = sym e i; map = words }))

  pub bloom_string-IsPut :
      (b : Bloom) (buf : List ℕ)
      → IsBloom entries b
      → (r : Bool) × (b' : Bloom) × (bloom_string hashes b buf true ≡ some (r, b'))
        × IsBloom entries b'
        × IsPut b.map (digits_of hashes entries buf) b'.map
  bloom_string-IsPut b buf v =
      let loop = check_loop-IsPut (digits_of hashes entries buf) 0 b.map (digits_inside b buf v) in
      let put = loop.3 in
      (
        loop.0 == n_hashes,
        record b { map = loop.1 },
        bloom_string_lem b buf true loop.0 loop.1 v.count loop.2,
        record {
          count = v.count;
          some_digit = v.some_digit;
          room = omega (arith, v.room, put.same_length);
        },
        put,
      )

  pub bloom_string-IsLook :
      (b : Bloom) (buf : List ℕ)
      → IsBloom entries b
      → (was : ℕ) × (bloom_string hashes b buf false ≡ some (was == n_hashes, b))
        × IsLook b.map (digits_of hashes entries buf) 0 was
  bloom_string-IsLook b buf v =
      let loop = check_loop-IsLook (digits_of hashes entries buf) 0 b.map (digits_inside b buf v) in
      (loop.0, bloom_string_lem b buf false loop.0 b.map v.count loop.1, loop.2)

  -- The digits after operations are those from before and those of the strings added.
  pub record IsDriven (b : Bloom) (ops : List (List ℕ × Bool)) (b' : Bloom) : Type 0 where
    pub valid : IsBloom entries b'
    pub kept : (n : ℕ) → (digit b.map n ≡ 1) ⊎ AddedBy hashes entries ops n → digit b'.map n ≡ 1
    pub only : (n : ℕ) → digit b'.map n ≡ 1 → (digit b.map n ≡ 1) ⊎ AddedBy hashes entries ops n

  drive-next :
      (b : Bloom) (buf : List ℕ) (put : Bool) (ops : List (List ℕ × Bool)) (r : Bool) (b' : Bloom)
      → bloom_string hashes b buf put ≡ some (r, b')
      → drive hashes entries ((buf, put) ∷ ops) b ≡ drive hashes entries ops b'
  drive-next b buf put ops r b' e =
      ap
        (λ (o : Option (Bool × Bloom)). elim o [
          | none ↦ none
          | some (r, b') ↦ drive hashes entries ops b'
        ])
        e

  pub drive-IsDriven :
      (ops : List (List ℕ × Bool)) (b : Bloom)
      → IsBloom entries b
      → (b' : Bloom) × (drive hashes entries ops b ≡ some b') × IsDriven b ops b'
  drive-IsDriven [] b v = (
    b,
    refl,
    record {
      valid = v;
      kept = λ n set. elim set [ inl old ↦ old | inr no_such ↦ absurd no_such ];
      only = λ n set. inl set;
    },
  )
  drive-IsDriven ((buf, true) ∷ ops) b v =
      let step = bloom_string-IsPut b buf v in
      let rest = drive-IsDriven ops step.1 step.3 in
      let driven = rest.2 in
      (
        rest.0,
        drive-next b buf true ops step.0 step.1 step.2 ∙ rest.1,
        record {
          valid = driven.valid;
          kept = λ n set. elim set [
            | inl old ↦ driven.kept n (inl (step.4.kept n old))
            | inr (inl (e, among)) ↦ driven.kept n (inl (step.4.put n among))
            | inr (inr later) ↦ driven.kept n (inr later)
          ];
          only = λ n set. elim (driven.only n set) [
            | inl now ↦ elim (step.4.only n now) [
              | inl old ↦ inl old
              | inr among ↦ inr (inl (refl, among))
            ]
            | inr later ↦ inr (inr later)
          ];
        },
      )
  drive-IsDriven ((buf, false) ∷ ops) b v =
      let step = bloom_string-IsLook b buf v in
      let rest = drive-IsDriven ops b v in
      let driven = rest.2 in
      (
        rest.0,
        drive-next b buf false ops (step.0 == n_hashes) b step.1 ∙ rest.1,
        record {
          valid = driven.valid;
          kept = λ n set. elim set [
            | inl old ↦ driven.kept n (inl old)
            | inr (inl (e, among)) ↦ absurd (true≢false (sym e))
            | inr (inr later) ↦ driven.kept n (inr later)
          ];
          only =
              λ n set. elim (driven.only n set) [ inl old ↦ inl old | inr later ↦ inr (inr later) ];
        },
      )
