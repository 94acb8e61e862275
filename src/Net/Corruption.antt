-- ===== src/Net/Corruption.antt =====
-- server.c: a command that is changed on its way, and `verify_convert_cmd`.
use raptor_mark.Common.{
  ℕ, ◌<◌, ◌≡◌, ◌≢◌, refl, sym, ap, ◌∙◌, arith, true, false, List, ◌∷◌, ◌++◌, length, length-append,
  take, drop, take-append, drop-append, ◌==◌, ==→eq, and_true, ne→==,
}
use raptor_mark.Crc.Bytes.{IsBytes}
use raptor_mark.Crc.Crc16.{fio_crc16}
use raptor_mark.Crc.Detection.{one_byte_detected}
use raptor_mark.Net.{of_le_bytes, cmd_of_bytes, verify_convert_cmd}

-- The checksum that a header of twenty checked bytes carries behind them.
carried :
    (checked sums : List ℕ)
    → length checked ≡ 20
    → (cmd_of_bytes (checked ++ sums)).cmd_crc16 ≡ of_le_bytes (take 2 sums)
unfolding cmd_of_bytes
carried checked sums len =
    ap (λ (n : ℕ). of_le_bytes (take 2 (drop n (checked ++ sums)))) (sym len)
    ∙ ap (λ (xs : List ℕ). of_le_bytes (take 2 xs)) (drop-append checked sums)

summed_over :
    (checked sums : List ℕ)
    → length checked ≡ 20
    → fio_crc16 (take 20 (checked ++ sums)) ≡ fio_crc16 checked
summed_over checked sums len =
    ap (λ (n : ℕ). fio_crc16 (take n (checked ++ sums))) (sym len)
    ∙ ap fio_crc16 (take-append checked sums)

accepted_sum :
    (checked sums : List ℕ)
    → length checked ≡ 20
    → verify_convert_cmd (checked ++ sums) ≡ true
    → fio_crc16 checked ≡ of_le_bytes (take 2 sums)
unfolding verify_convert_cmd
accepted_sum checked sums len h =
    sym (summed_over checked sums len)
    ∙ ==→eq _ _
        (and_true
          (fio_crc16 (take 20 (checked ++ sums)) == (cmd_of_bytes (checked ++ sums)).cmd_crc16) _
          h).0
    ∙ carried checked sums len

refused_sum :
    (checked sums : List ℕ)
    → length checked ≡ 20
    → fio_crc16 checked ≢ of_le_bytes (take 2 sums)
    → verify_convert_cmd (checked ++ sums) ≡ false
unfolding verify_convert_cmd
refused_sum checked sums len ne =
    rw
      (ne→== (fio_crc16 (take 20 (checked ++ sums))) (cmd_of_bytes (checked ++ sums)).cmd_crc16
        (λ e. ne (sym (summed_over checked sums len) ∙ e ∙ carried checked sums len)))
      refl

-- A header of twenty checked bytes and the two checksums that `verify_convert_cmd` accepts is refused
-- when one of the checked bytes is changed to another byte.
pub changed_refused :
    (before after sums : List ℕ) (a b : ℕ)
    → IsBytes before
    → IsBytes after
    → a < 256
    → b < 256
    → length (before ++ a ∷ after) ≡ 20
    → a ≢ b
    → verify_convert_cmd ((before ++ a ∷ after) ++ sums) ≡ true
    → verify_convert_cmd ((before ++ b ∷ after) ++ sums) ≡ false
changed_refused before after sums a b hbefore hafter ha hb len ne h =
    refused_sum (before ++ b ∷ after) sums
      (length-append before (b ∷ after) ∙ sym (length-append before (a ∷ after)) ∙ len)
      λ e.
        (one_byte_detected 0 before after a b (omega arith) hbefore hafter ha hb ne).0
          (accepted_sum (before ++ a ∷ after) sums len h ∙ sym e)
