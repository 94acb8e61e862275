-- ===== src/Net/Header.antt =====
-- server.c: the bytes of `struct fio_net_cmd`, and its checksums.
use raptor_mark.Common.{
  ℕ, zero, suc, ◌/◌, ◌^◌, ◌≤◌, ◌<◌, ◌≡◌, refl, sym, ap, ◌∙◌, arith, true, List, [], ◌∷◌, ◌++◌, take,
  drop, bit_xor, get_or, ltb, ltb→lt, eq→==, ge→ltb, all_entries, entry_of_all, ◌>>>◌, bit_and,
}
use raptor_mark.Common.Bits.{bit_xor-lt, bit_and-mask}
use raptor_mark.Crc.Bytes.{IsBytes, over_bytes_inv}
use raptor_mark.Crc.Crc16.{crc16_table, crc16_byte, fio_crc16}
use raptor_mark.Net.{
  FioNetCmd, le_bytes, of_le_bytes, checked_bytes, cmd_bytes, cmd_of_bytes, verify_convert_cmd,
}

entries_fit : all_entries (λ i. ltb (get_or crc16_table i 0) (2 ^ 16)) 256 ≡ true
unfolding all_entries crc16_table
entries_fit = refl

crc16_byte-lt : (crc b : ℕ) → crc < 2 ^ 16 → crc16_byte crc b < 2 ^ 16
unfolding crc16_byte
crc16_byte-lt crc b lt = bit_xor-lt (crc >>> 8) _ 16 (omega arith) (
    ltb→lt _ (2 ^ 16) (
      entry_of_all (λ i. ltb (get_or crc16_table i 0) (2 ^ 16)) 256 (bit_and (bit_xor crc b) 0xff)
        (omega (arith, bit_and-mask 8 (bit_xor crc b))) entries_fit))

pub fio_crc16-lt : (buf : List ℕ) → IsBytes buf → fio_crc16 buf < 2 ^ 16
unfolding fio_crc16
fio_crc16-lt buf h =
    over_bytes_inv (λ crc. crc < 2 ^ 16) crc16_byte (λ crc b lt byte. crc16_byte-lt crc b lt) 0 buf
      (omega arith) h

-- The fields fit their widths.
pub record IsCmd (cmd : FioNetCmd) : Type 0 where
  pub version : cmd.version < 2 ^ 16
  pub opcode : cmd.opcode < 2 ^ 16
  pub flags : cmd.flags < 2 ^ 32
  pub tag : cmd.tag < 2 ^ 64
  pub pdu_len : cmd.pdu_len < 2 ^ 32
  pub cmd_crc16 : cmd.cmd_crc16 < 2 ^ 16
  pub pdu_crc16 : cmd.pdu_crc16 < 2 ^ 16

le_bytes-IsBytes : (width v : ℕ) → IsBytes (le_bytes width v)
le_bytes-IsBytes zero v = tt
le_bytes-IsBytes (suc width) v = (omega arith, le_bytes-IsBytes width (v / 256))

both : (xs ys : List ℕ) → IsBytes xs → IsBytes ys → IsBytes (xs ++ ys)
both [] ys p q = q
both (x ∷ xs) ys p q = (p.0, both xs ys p.1 q)

pub take-IsBytes : (n : ℕ) (xs : List ℕ) → IsBytes xs → IsBytes (take n xs)
take-IsBytes zero xs h = tt
take-IsBytes (suc n) [] h = tt
take-IsBytes (suc n) (x ∷ xs) h = (h.0, take-IsBytes n xs h.1)

pub drop-IsBytes : (n : ℕ) (xs : List ℕ) → IsBytes xs → IsBytes (drop n xs)
drop-IsBytes zero xs h = h
drop-IsBytes (suc n) [] h = tt
drop-IsBytes (suc n) (x ∷ xs) h = drop-IsBytes n xs h.1

pub checked_bytes-IsBytes : (cmd : FioNetCmd) → IsBytes (checked_bytes cmd)
checked_bytes-IsBytes cmd =
    let len = le_bytes 4 cmd.pdu_len in
    let tag = le_bytes 8 cmd.tag ++ len in
    let flags = le_bytes 4 cmd.flags ++ tag in
    let opcode = le_bytes 2 cmd.opcode ++ flags in
    both (le_bytes 2 cmd.version) opcode (le_bytes-IsBytes 2 cmd.version) (
      both (le_bytes 2 cmd.opcode) flags (le_bytes-IsBytes 2 cmd.opcode) (
        both (le_bytes 4 cmd.flags) tag (le_bytes-IsBytes 4 cmd.flags) (
          both (le_bytes 8 cmd.tag) len (le_bytes-IsBytes 8 cmd.tag)
            (le_bytes-IsBytes 4 cmd.pdu_len))))

-- The fields are read back from the bytes.
pub cmd_of_bytes-cmd_bytes : (cmd : FioNetCmd) → IsCmd cmd → cmd_of_bytes (cmd_bytes cmd) ≡ cmd
unfolding cmd_of_bytes
cmd_of_bytes-cmd_bytes cmd h = λ i. record {
  version = (two cmd.version h.version) i;
  opcode = (two cmd.opcode h.opcode) i;
  flags = (four cmd.flags h.flags) i;
  tag = (eight cmd.tag h.tag) i;
  pdu_len = (four cmd.pdu_len h.pdu_len) i;
  cmd_crc16 = (two cmd.cmd_crc16 h.cmd_crc16) i;
  pdu_crc16 = (two cmd.pdu_crc16 h.pdu_crc16) i;
}
  where
    two : (v : ℕ) → v < 2 ^ 16 → of_le_bytes (le_bytes 2 v) ≡ v
    two v lt = omega arith

    four : (v : ℕ) → v < 2 ^ 32 → of_le_bytes (le_bytes 4 v) ≡ v
    four v lt = omega arith

    eight : (v : ℕ) → v < 2 ^ 64 → of_le_bytes (le_bytes 8 v) ≡ v
    eight v lt = omega arith

-- A command with its own checksum, of the version of the server, is accepted.
pub verify_convert_cmd-accepts :
    (cmd : FioNetCmd)
    → IsCmd cmd
    → cmd.cmd_crc16 ≡ fio_crc16 (checked_bytes cmd)
    → cmd.version ≡ 107
    → cmd.pdu_len ≤ 1024
    → verify_convert_cmd (cmd_bytes cmd) ≡ true
unfolding verify_convert_cmd
verify_convert_cmd-accepts cmd h crc version len =
    rw
      (eq→== (fio_crc16 (checked_bytes cmd)) (cmd_of_bytes (cmd_bytes cmd)).cmd_crc16
        (sym crc ∙ sym (ap (λ (c : FioNetCmd). c.cmd_crc16) (cmd_of_bytes-cmd_bytes cmd h))))
      (rw
        (eq→== (cmd_of_bytes (cmd_bytes cmd)).version 107
          (ap (λ (c : FioNetCmd). c.version) (cmd_of_bytes-cmd_bytes cmd h) ∙ version))
        (rw
          (ge→ltb 1024 (cmd_of_bytes (cmd_bytes cmd)).pdu_len
            (omega (arith, ap (λ (c : FioNetCmd). c.pdu_len) (cmd_of_bytes-cmd_bytes cmd h), len)))
          refl))
