-- ===== src/Bloom/Answer.antt =====
-- lib/bloom.c: what the filter answers.
use raptor_mark.Common.{
  ℕ, ◌+◌, ◌-◌, ◌/◌, ◌%◌, ◌^◌, ◌<◌, ◌≡◌, refl, sym, ap, subst, ◌∙◌, arith, inl, inr, ◌↔◌, Bool, true,
  false, List, length, length-replicate, get_or-replicate, replicate, some, some_injective, ◌==◌,
  eq→==, ==→eq, u64,
}
use raptor_mark.Common.Bits.{bit, bit-zero}
use raptor_mark.Bloom.{Bloom, BloomHash, n_hashes, bloom_new, bloom_string}
use raptor_mark.Bloom.Digits.{digit}
use raptor_mark.Bloom.Loop.{Among}
use raptor_mark.Bloom.Filter.{
  IsBloom, digits_of, AddedBy, drive, length-digits, bloom_string-IsPut, bloom_string-IsLook,
  drive-IsDriven,
}

digit-clear : (len n : ℕ) → digit (replicate len 0) n ≡ 0
unfolding digit
digit-clear len n =
    ap (λ (w : ℕ). bit w (n % 32)) (get_or-replicate len (n / 32) 0) ∙ bit-zero (n % 32)

abbrev pub new_filter : ℕ → Bloom
new_filter entries = record { nentries = entries; map = replicate (u64 (entries + 32 - 1) / 32) 0 }

new_filter-IsBloom :
    (entries : ℕ) → 0 < entries → entries + 31 < 2 ^ 64 → IsBloom entries (new_filter entries)
new_filter-IsBloom entries pos small = record {
  count = refl;
  some_digit = pos;
  room = omega (arith, length-replicate {A = ℕ} (u64 (entries + 32 - 1) / 32) 0);
}

bloom_new-same :
    (entries : ℕ) (b : Bloom) → bloom_new true entries ≡ some b → new_filter entries ≡ b
unfolding bloom_new
bloom_new-same entries b e = some_injective e

-- The answer at a filter is whether all digits of the string are set.
answer :
    (hashes : List BloomHash) (entries : ℕ) (b : Bloom) (buf : List ℕ)
    → length hashes ≡ n_hashes
    → IsBloom entries b
    → (r : Bool) × (bloom_string hashes b buf false ≡ some (r, b))
      × ((r ≡ true) ↔ ((n : ℕ) → Among n (digits_of hashes entries buf) → digit b.map n ≡ 1))
answer hashes entries b buf five v =
    let look = bloom_string-IsLook hashes entries b buf v in
    let len : length (digits_of hashes entries buf) ≡ 5 = length-digits entries buf hashes ∙ five in
    (
      look.0 == n_hashes,
      look.1,
      (
        λ e. look.2.only_set (omega (arith, ==→eq look.0 5 e, len)),
        λ all. eq→== look.0 5 (omega (arith, look.2.all_set all, len)),
      ),
    )

-- A filter of at least one digit and less than 2^64 - 31, new, with five hash functions, after strings were
-- added and looked for in any order: no access is behind the map, and looking for a string changes nothing
-- and says true just if each of its five digits is one of a string that was added.
pub bloom_string-AddedBy :
    (hashes : List BloomHash) (entries : ℕ) (b : Bloom) (ops : List (List ℕ × Bool)) (buf : List ℕ)
    → length hashes ≡ n_hashes
    → 0 < entries
    → entries + 31 < 2 ^ 64
    → bloom_new true entries ≡ some b
    → (b' : Bloom) × (r : Bool) × (drive hashes entries ops b ≡ some b')
      × (bloom_string hashes b' buf false ≡ some (r, b'))
      × ((r ≡ true)
          ↔ ((n : ℕ) → Among n (digits_of hashes entries buf) → AddedBy hashes entries ops n))
bloom_string-AddedBy hashes entries b ops buf five pos small made =
    let same = bloom_new-same entries b made in
    let run =
      drive-IsDriven hashes entries ops b
        (subst (IsBloom entries) same (new_filter-IsBloom entries pos small)) in
    let clear : (n : ℕ) → digit b.map n ≡ 0 = λ n.
      ap (λ (f : Bloom). digit f.map n) (sym same) ∙ digit-clear (u64 (entries + 32 - 1) / 32) n in
    let says = answer hashes entries run.0 buf five run.2.valid in
    (
      run.0,
      says.0,
      run.1,
      says.1,
      (
        λ e n among. elim (run.2.only n (says.2.0 e n among)) [
          | inl old ↦ absurd (omega (arith, old, clear n))
          | inr added ↦ added
        ],
        λ all. says.2.1 (λ n among. run.2.kept n (inr (all n among))),
      ),
    )

-- With five hash functions, a string added to a filter of any state is found ever after, whatever is added or
-- looked for in between; no access is behind the map.
pub bloom_string_stays :
    (hashes : List BloomHash) (entries : ℕ) (b : Bloom) (buf : List ℕ) (ops : List (List ℕ × Bool))
    → length hashes ≡ n_hashes
    → IsBloom entries b
    → (r : Bool) × (b1 : Bloom) × (b2 : Bloom) × (bloom_string hashes b buf true ≡ some (r, b1))
      × (drive hashes entries ops b1 ≡ some b2)
      × (bloom_string hashes b2 buf false ≡ some (true, b2))
bloom_string_stays hashes entries b buf ops five v =
    let put = bloom_string-IsPut hashes entries b buf v in
    let run = drive-IsDriven hashes entries ops put.1 put.3 in
    let says = answer hashes entries run.0 buf five run.2.valid in
    let yes_it_is : says.0 ≡ true = says.2.1 (λ n among. run.2.kept n (inl (put.4.put n among))) in
    (put.0, put.1, run.0, put.2, run.1, says.1 ∙ ap (λ (r : Bool). some (r, run.0)) yes_it_is)
