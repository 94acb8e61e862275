-- ===== src/Net/Text.antt =====
-- server.c: the end of the text that `fio_net_recv_cmd` marks in a command with a text.
use native.Mathlib.Decide.{ℕ_discrete}
use raptor_mark.Common.{
  ℕ, ◌+◌, ◌-◌, ◌^◌, ◌≤◌, ◌<◌, ◌≡◌, ◌≢◌, refl, ap, ◌∙◌, arith, some, List, length, take, drop, set,
  if◌then◌else◌, ◌==◌, lt→ltb, ge→ltb, eq→==, ne→==,
}
use raptor_mark.Net.{Received, of_le_bytes, end_text, zero_terminate, cmd_text, cmd_job}

-- The length that a buffer gives for its text, at a place of the buffer.
abbrev pub text_len : ℕ → List ℕ → ℕ
text_len at buf = of_le_bytes (take 4 (drop at buf))

-- The buffer of a command has no text, or one that ends inside of it.
pub data TextFits (opcode : ℕ) (buf : List ℕ) : Type 0 where
  no_payload : length buf ≡ 0 → TextFits opcode buf
  no_text : opcode ≢ cmd_text → opcode ≢ cmd_job → TextFits opcode buf
  of_text : opcode ≡ cmd_text → 24 + text_len 4 buf ≤ length buf → TextFits opcode buf
  of_job : opcode ≡ cmd_job → 8 + text_len 0 buf ≤ length buf → TextFits opcode buf

-- The buffer with a zero behind its text.
unfoldable pub with_end : ℕ → List ℕ → List ℕ
with_end opcode buf =
    if length buf == 0
    then buf
    else if opcode == cmd_text
    then set buf (24 + text_len 4 buf) 0
    else if opcode == cmd_job
    then set buf (8 + text_len 0 buf) 0
    else buf

end_text_lem :
    (offset at : ℕ) (r : Received)
    → at + 4 ≤ offset
    → offset + text_len at r.payload ≤ length r.payload
    → length r.payload < 2 ^ 31
    → end_text offset at r
      ≡ some (record { cmd = r.cmd; payload = set r.payload (offset + text_len at r.payload) 0 })
unfolding end_text
end_text_lem offset at r before inside small =
    rw
      (
        lt→ltb (text_len at r.payload) (2 ^ 31) (omega arith),
        ge→ltb (length r.payload) (at + 4) (omega arith),
        ge→ltb (24 + offset + text_len at r.payload) 24 (omega arith),
        ge→ltb (24 + length r.payload) (24 + offset + text_len at r.payload) (omega arith),
      )
      (ap (λ (t : ℕ). some (record { cmd = r.cmd; payload = set r.payload t 0 }))
        {x = 24 + offset + text_len at r.payload - 24} {y = offset + text_len at r.payload}
        (omega arith))

-- A text inside of the payload is ended there, and the command stays.
pub zero_terminate_lem :
    (opcode : ℕ) (r : Received)
    → r.cmd.opcode ≡ opcode
    → r.cmd.pdu_len ≡ length r.payload
    → length r.payload < 2 ^ 31
    → TextFits opcode r.payload
    → zero_terminate r ≡ some (record { cmd = r.cmd; payload = with_end opcode r.payload })
unfolding zero_terminate with_end
zero_terminate_lem opcode r same len small fits = elim (ℕ_discrete (length r.payload) 0) [
  | yes e ↦ simp (eq→== r.cmd.pdu_len 0 (len ∙ e), eq→== (length r.payload) 0 e) refl
  | no ne ↦
      let some_bytes = ne→== r.cmd.pdu_len 0 (λ z. ne (omega (arith, z, len))) in
      let some_length = ne→== (length r.payload) 0 ne in
      elim fits [
        | no_payload e ↦ absurd (ne e)
        | no_text not_text not_job ↦
            simp
              (
                some_bytes,
                some_length,
                ne→== r.cmd.opcode 5 (λ z. not_text (omega (arith, z, same))),
                ne→== opcode 5 not_text,
                ne→== r.cmd.opcode 3 (λ z. not_job (omega (arith, z, same))),
                ne→== opcode 3 not_job,
              )
              refl
        | of_text text inside ↦
            simp (some_bytes, some_length, eq→== r.cmd.opcode 5 (same ∙ text), eq→== opcode 5 text)
              (end_text_lem 24 4 r (omega arith) inside small)
        | of_job job inside ↦
            simp
              (
                some_bytes,
                some_length,
                ne→== r.cmd.opcode 5 (omega (arith, same, job)),
                ne→== opcode 5 (omega (arith, job)),
                eq→== r.cmd.opcode 3 (same ∙ job),
                eq→== opcode 3 job,
              )
              (end_text_lem 8 0 r (omega arith) inside small)
      ]
]
