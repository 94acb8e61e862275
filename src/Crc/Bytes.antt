-- ===== src/Crc/Bytes.antt =====
-- What the checksums share: the loop over the buffer, bytes, and a check of a table's 256 entries.
use raptor_mark.Common.{ℕ, zero, suc, ◌<◌, ◌≡◌, refl, ◌∙◌, ap, ◌++◌, List, [], ◌∷◌}

-- `while (len--) crc = byte(crc, *buffer++);`, the list being the `len` bytes of the buffer.
unfoldable pub over_bytes : (ℕ → ℕ → ℕ) → ℕ → List ℕ → ℕ
over_bytes byte crc [] = crc
over_bytes byte crc (b ∷ buf) = over_bytes byte (byte crc b) buf

abbrev pub IsBytes : List ℕ → Type 0
IsBytes [] = Unit
IsBytes (b ∷ buf) = (b < 256) × IsBytes buf

-- `n` steps of one function.
abbrev pub times : ℕ → (ℕ → ℕ) → ℕ → ℕ
times zero f x = x
times (suc n) f x = times n f (f x)

pub over_bytes-append :
    (byte : ℕ → ℕ → ℕ) (crc : ℕ) (xs ys : List ℕ)
    → over_bytes byte crc (xs ++ ys) ≡ over_bytes byte (over_bytes byte crc xs) ys
unfolding over_bytes
over_bytes-append byte crc [] ys = refl
over_bytes-append byte crc (x ∷ xs) ys = over_bytes-append byte (byte crc x) xs ys

-- A loop whose step keeps an invariant and agrees there with another step gives the same result.
pub over_bytes_cong :
    (P : ℕ → Type 0) (f g : ℕ → ℕ → ℕ)
    → ((crc b : ℕ) → P crc → b < 256 → (f crc b ≡ g crc b) × P (g crc b))
    → (crc : ℕ) (buf : List ℕ) → P crc
    → IsBytes buf
    → over_bytes f crc buf ≡ over_bytes g crc buf
unfolding over_bytes
over_bytes_cong P f g same crc [] p h = refl
over_bytes_cong P f g same crc (b ∷ buf) p h =
    let s = same crc b p h.0 in
    ap (λ (c : ℕ). over_bytes f c buf) s.0 ∙ over_bytes_cong P f g same (g crc b) buf s.1 h.1

pub over_bytes_inv :
    (P : ℕ → Type 0) (f : ℕ → ℕ → ℕ)
    → ((crc b : ℕ) → P crc → b < 256 → P (f crc b))
    → (crc : ℕ) (buf : List ℕ) → P crc
    → IsBytes buf
    → P (over_bytes f crc buf)
unfolding over_bytes
over_bytes_inv P f keep crc [] p h = p
over_bytes_inv P f keep crc (b ∷ buf) p h =
    over_bytes_inv P f keep (f crc b) buf (keep crc b p h.0) h.1

-- Where each step is injective in the checksum, so is the loop.
pub over_bytes_injective :
    (P : ℕ → Type 0) (f : ℕ → ℕ → ℕ)
    → ((crc b : ℕ) → P crc → b < 256 → P (f crc b))
    → ((c d b : ℕ) → P c → P d → b < 256 → f c b ≡ f d b → c ≡ d)
    → (c d : ℕ) (buf : List ℕ) → P c
    → P d
    → IsBytes buf
    → over_bytes f c buf ≡ over_bytes f d buf
    → c ≡ d
unfolding over_bytes
over_bytes_injective P f keep inj c d [] p q h e = e
over_bytes_injective P f keep inj c d (b ∷ buf) p q h e =
    inj c d b p q h.0 (
      over_bytes_injective P f keep inj (f c b) (f d b) buf (keep c b p h.0) (keep d b q h.0) h.1 e)
