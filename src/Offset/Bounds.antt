-- ===== src/Offset/Bounds.antt =====
-- io_u.c: `get_next_offset`, its checks and the extent of the file.
use mathlib.Core.Bool.{true≢false}
use raptor_mark.Common.{
  ℕ, ◌+◌, ◌-◌, ◌^◌, ◌≤◌, ◌<◌, ◌≡◌, refl, sym, ◌∙◌, Bool, true, false, arith, Option, none, some,
  if◌then◌else◌, leb, leb→gt, u32, u64, ◌==◌, ◌&&◌, ◌||◌,
}
use raptor_mark.Offset.{
  Ddir, RwSeq, rw_seq_seq, rw_seq_ident, rw_seq_other, Options, FioFile, fio_file_reset,
  get_next_rand_offset, get_next_rand_block,
}
use raptor_mark.Offset.Position.{
  IoU, Place, at_block, at_offset, nowhere, restart_if, start_again, rewind, get_next_seq_offset,
  Found, Placed, from_block, from_seq, find_place, place_at, get_next_block, check_offset,
  get_next_offset,
}

-- The places and sizes of the file stay as they are.
pub record SameExtent (f g : FioFile) : Type 0 where
  pub file_offset : g.file_offset ≡ f.file_offset
  pub io_size : g.io_size ≡ f.io_size
  pub real_file_size : g.real_file_size ≡ f.real_file_size

SameExtent-refl : (f : FioFile) → SameExtent f f
SameExtent-refl f = record { file_offset = refl; io_size = refl; real_file_size = refl }

SameExtent-trans : (f g h : FioFile) → SameExtent f g → SameExtent g h → SameExtent f h
SameExtent-trans f g h p q = record {
  file_offset = q.file_offset ∙ p.file_offset;
  io_size = q.io_size ∙ p.io_size;
  real_file_size = q.real_file_size ∙ p.real_file_size;
}

-- What holds of both branches of a test holds of the choice.
if_all : {A : Type 0} (P : A → Type 0) (b : Bool) (x y : A) → P x → P y → P (if b then x else y)
if_all P true x y p q = p
if_all P false x y p q = q

if_cases :
    {A : Type 0} (P : A → Type 0) (b : Bool) (x y : A)
    → (b ≡ true → P x)
    → (b ≡ false → P y)
    → P (if b then x else y)
if_cases P true x y p q = p refl
if_cases P false x y p q = q refl

seq_all :
    {A : Type 0} (P : A → Type 0) (o : RwSeq) (x y z : A)
    → P x
    → P y
    → P z
    → P (elim o [ rw_seq_seq ↦ x | rw_seq_ident ↦ y | rw_seq_other ↦ z ])
seq_all P rw_seq_seq x y z p q r = p
seq_all P rw_seq_ident x y z p q r = q
seq_all P rw_seq_other x y z p q r = r

option_all :
    {A : Type 0} (P : A → Type 0) (o : Option ℕ) (x : A) (y : ℕ → A)
    → P x
    → ((n : ℕ) → P (y n))
    → P (elim o [ none ↦ x | some n ↦ y n ])
option_all P none x y p q = p
option_all P (some n) x y p q = q n

restart_if-SameExtent :
    (wanted : Bool) (f : FioFile) (ddir : Ddir) → SameExtent f (restart_if wanted f ddir)
unfolding restart_if
restart_if-SameExtent wanted f ddir =
    if_all (SameExtent f) (leb (u64 (f.io_size + f.start_offset)) (f.last_pos ddir) && wanted) _ f
      (record { file_offset = refl; io_size = refl; real_file_size = refl }) (SameExtent-refl f)

rewind-SameExtent : (o : Options) (f : FioFile) (ddir : Ddir) → SameExtent f (rewind o f ddir)
unfolding rewind
rewind-SameExtent o f ddir =
    if_all (SameExtent f) _ _ f
      (record { file_offset = refl; io_size = refl; real_file_size = refl }) (SameExtent-refl f)

start_again-SameExtent :
    (o : Options) (f : FioFile) (ddir : Ddir) → SameExtent f (start_again o f ddir)
unfolding start_again
start_again-SameExtent o f ddir =
    SameExtent-trans f _ _ (restart_if-SameExtent _ f ddir) (restart_if-SameExtent _ _ ddir)

get_next_seq_offset-SameExtent :
    (o : Options) (f : FioFile) (ddir : Ddir) → SameExtent f (get_next_seq_offset o f ddir).1
unfolding get_next_seq_offset
get_next_seq_offset-SameExtent o f ddir =
    if_all (λ (r : Option ℕ × FioFile). SameExtent f r.1) _ _ _
      (SameExtent-trans f _ _ (start_again-SameExtent o f ddir) (rewind-SameExtent o _ ddir))
      (start_again-SameExtent o f ddir)

fio_file_reset-SameExtent : (f : FioFile) → SameExtent f (fio_file_reset f)
unfolding fio_file_reset
fio_file_reset-SameExtent f = record { file_offset = refl; io_size = refl; real_file_size = refl }

module _ {S : Type 0} (next : ℕ → S → Option ℕ × S) (reset : S → S) (percent : S → ℕ × S) where
  get_next_rand_block-SameExtent :
      (o : Options) (f : FioFile) (ddir : Ddir) (s : S)
      → SameExtent f (get_next_rand_block next reset o f ddir s).1
  unfolding get_next_rand_block
  get_next_rand_block-SameExtent o f ddir s =
      option_all (λ (r : Option ℕ × FioFile × S). SameExtent f r.1)
        (get_next_rand_offset next reset o f ddir s).0 _ _
        (if_all (λ (r : Option ℕ × FioFile × S). SameExtent f r.1) (o.time_based || o.nonuniform) _
          _ (fio_file_reset-SameExtent f) (SameExtent-refl f))
        (λ b. SameExtent-refl f)

  place_all :
      {A : Type 0} (P : A → Type 0) (p : Place next reset percent) (x y : ℕ → A) (z : A)
      → ((b : ℕ) → P (x b))
      → ((offset : ℕ) → P (y offset))
      → P z
      → P (elim p [ at_block b ↦ x b | at_offset offset ↦ y offset | nowhere ↦ z ])
  place_all P (at_block b) x y z h k l = h b
  place_all P (at_offset offset) x y z h k l = k offset
  place_all P nowhere x y z h k l = l

  from_block-SameExtent :
      (o : Options) (f : FioFile) (ddir : Ddir) (s : S) (is_random : Bool)
      → SameExtent f (from_block next reset percent o f ddir s is_random).file
  unfolding from_block
  from_block-SameExtent o f ddir s is_random = get_next_rand_block-SameExtent o f ddir s

  from_seq-SameExtent :
      (o : Options) (f : FioFile) (ddir : Ddir) (s : S) (or_random : Bool)
      → SameExtent f (from_seq next reset percent o f ddir s or_random).file
  unfolding from_seq
  from_seq-SameExtent o f ddir s or_random =
      let seq = get_next_seq_offset-SameExtent o f ddir in
      option_all (λ (r : Found next reset percent). SameExtent f r.file)
        (get_next_seq_offset o f ddir).0 _ _
        (if_all (λ (r : Found next reset percent). SameExtent f r.file) or_random _ _
          (SameExtent-trans f _ _ seq (from_block-SameExtent o _ ddir s false)) seq)
        (λ b. seq)

  find_place-SameExtent :
      (o : Options) (io_u : IoU) (f : FioFile) (rw_seq : Bool) (s : S)
      → SameExtent f (find_place next reset percent o io_u f rw_seq s).1.file
  unfolding find_place
  find_place-SameExtent o io_u f rw_seq s = if_all Kept _ _ _ (SameExtent-refl f) (
      if_all Kept rw_seq _ _
        (if_all Kept o.td_random _ _
          (if_all Kept _ _ _ (from_block-SameExtent o f _ _ true)
            (from_seq-SameExtent o f _ _ true))
          (from_seq-SameExtent o f _ s false))
        (seq_all Kept o.rw_seq _ _ _ (from_seq-SameExtent o f _ s true) (SameExtent-refl f)
          (SameExtent-refl f)))
    where
      Kept : Bool × Found next reset percent → Type 0
      Kept r = SameExtent f r.1.file

  place_at-SameExtent :
      (o : Options) (io_u : IoU) (f : FioFile) (r : Found next reset percent) (seq_nr : ℕ)
      → SameExtent f r.file
      → SameExtent f (place_at next reset percent o io_u r seq_nr).file
  unfolding place_at
  place_at-SameExtent o io_u f r seq_nr h =
      place_all Kept r.place _ _ _ (λ b. if_all Kept _ _ _ h h) (λ b. if_all Kept _ _ _ h h) h
    where
      Kept : Placed next reset percent → Type 0
      Kept r = SameExtent f r.file

  -- The I/O lies in the file, if the place was found.
  pub record InFile (f : FioFile) (r : Placed next reset percent) : Type 0 where
    pub behind : f.file_offset ≤ r.io_u.offset
    pub in_io_size : r.io_u.offset < f.file_offset + f.io_size
    pub in_real_file_size : r.io_u.offset < f.real_file_size
    pub verified : r.io_u.verify_offset ≡ r.io_u.offset

  check_offset_lem :
      (o : Options) (f : FioFile) (r : Placed next reset percent)
      → SameExtent f r.file
      → f.file_offset + f.io_size ≤ 2 ^ 64
      → (check_offset next reset percent o r).failed ≡ false
      → InFile f (check_offset next reset percent o r)
  unfolding check_offset
  check_offset_lem o f r same small =
      if_cases Sound r.failed _ _ (λ t h. absurd (true≢false (sym t ∙ h)))
        (λ e.
          if_cases Sound (leb r.file.io_size r.io_u.offset) _ _ (λ t h. absurd (true≢false h))
            (λ e.
              if_cases Sound (leb r.file.real_file_size (u64 (r.io_u.offset + r.file.file_offset)))
                _ _ (λ t h. absurd (true≢false h))
                (λ e' h. record {
                  behind = omega (arith, at e);
                  in_io_size = omega (arith, at e, inside e);
                  in_real_file_size = omega (arith, leb→gt _ _ e', same.real_file_size);
                  verified = refl;
                })))
    where
      Sound : Placed next reset percent → Type 0
      Sound r = r.failed ≡ false → InFile f r

      inside : leb r.file.io_size r.io_u.offset ≡ false → r.io_u.offset < f.io_size
      inside e = omega (arith, leb→gt r.file.io_size r.io_u.offset e, same.io_size)

      at :
          leb r.file.io_size r.io_u.offset ≡ false
          → u64 (r.io_u.offset + r.file.file_offset) ≡ r.io_u.offset + f.file_offset
      at e = omega (arith, inside e, same.file_offset, small)

  -- If the file does not reach over 2^64 and `get_next_offset` does not fail, the offset that it puts
  -- into the I/O lies in the part of the file that the job works on, below the end of the file, and
  -- is the offset to verify.
  pub get_next_offset-InFile :
      (o : Options) (io_u : IoU) (f : FioFile) (seq_nr : ℕ) (s : S)
      → f.file_offset + f.io_size ≤ 2 ^ 64
      → (get_next_offset next reset percent o io_u f seq_nr s).failed ≡ false
      → InFile f (get_next_offset next reset percent o io_u f seq_nr s)
  unfolding get_next_offset
  get_next_offset-InFile o io_u f seq_nr s small =
      check_offset_lem o f _
        (if_all Kept (o.ddir_seq_nr == 0) (at false seq_nr)
          (if left == 0 then at true o.ddir_seq_nr else at false left) (block false s seq_nr)
          (if_all Kept (left == 0) (at true o.ddir_seq_nr) (at false left)
            (block true s o.ddir_seq_nr) (block false s left)))
        small
    where
      left : ℕ
      left = u32 (seq_nr + 2 ^ 32 - 1)

      at : Bool → ℕ → Placed next reset percent
      at rw_seq n = get_next_block next reset percent o io_u f rw_seq s n

      Kept : Placed next reset percent → Type 0
      Kept r = SameExtent f r.file

      block :
          (rw_seq : Bool) (s : S) (seq_nr : ℕ)
          → Kept (get_next_block next reset percent o io_u f rw_seq s seq_nr)
      block rw_seq s seq_nr =
          unfold get_next_block in
          place_at-SameExtent o _ f _ seq_nr (find_place-SameExtent o io_u f rw_seq s)
