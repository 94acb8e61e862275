-- ===== src/Net/Tests.antt =====
-- server.c: runs, and the theorem at a pipe.
use raptor_mark.Common.{
  ℕ, replicate, ◌≡◌, refl, arith, Bool, true, false, Option, none, some, List, [], ◌∷◌, ◌++◌,
  length, take, drop, ltb, if◌then◌else◌,
}
use raptor_mark.Crc.Bytes.{IsBytes}
use raptor_mark.Crc.Bytes.{over_bytes}
use raptor_mark.Crc.Crc16.{fio_crc16, crc16_byte, crc16_table}
use raptor_mark.Net.Corruption.{changed_refused}
use raptor_mark.Net.{
  verify_convert_cmd, cmd_of_bytes, Received, zero_terminate, end_text, server_ver,
}
use raptor_mark.Net.Text.{with_end}

-- A pipe: the bytes that are under way.
abbrev pipe_send : List ℕ → List ℕ → Bool × List ℕ
pipe_send bytes w = (true, w ++ bytes)

abbrev pipe_recv : ℕ → List ℕ → Option (List ℕ) × List ℕ
pipe_recv n w = if ltb (length w) n then (none, []) else (some (take n w), drop n w)

always : ℕ → Bool
always n = true

-- A text of two bytes behind its words, in a buffer of thirty.
abbrev text_words : List ℕ
text_words = 0 ∷ 0 ∷ 0 ∷ 0 ∷ 2 ∷ 0 ∷ 0 ∷ 0 ∷ []

abbrev text_buf : List ℕ
text_buf = text_words ++ replicate 16 0 ++ (104 ∷ 105 ∷ 33 ∷ 33 ∷ 33 ∷ 33 ∷ [])

text_buf_ended :
    with_end 5 text_buf ≡ text_words ++ replicate 16 0 ++ (104 ∷ 105 ∷ 0 ∷ 33 ∷ 33 ∷ 33 ∷ [])
unfolding with_end
text_buf_ended = refl

-- A command of forty bytes, with opcode 5, whose text has the length -32: the end goes into pdu_len.
abbrev bad_text : Received
bad_text = record {
  cmd = record {
    version = server_ver;
    opcode = 5;
    flags = 0;
    tag = 77;
    pdu_len = 40;
    cmd_crc16 = 0;
    pdu_crc16 = 0;
  };
  payload = 0 ∷ 0 ∷ 0 ∷ 0 ∷ 224 ∷ 255 ∷ 255 ∷ 255 ∷ replicate 32 0;
}

len_of : Option Received → List ℕ
len_of none = []
len_of (some r) = r.cmd.pdu_len ∷ []

before_payload : len_of (zero_terminate bad_text) ≡ 0 ∷ []
unfolding zero_terminate end_text cmd_of_bytes len_of
before_payload = refl

-- The command of an empty buffer, with opcode 9 and tag 77, in front of its opcode and behind it.
abbrev quiet_before : List ℕ
quiet_before = 107 ∷ 0 ∷ []

abbrev quiet_after : List ℕ
quiet_after = 0 ∷ 0 ∷ 0 ∷ 0 ∷ 0 ∷ 77 ∷ 0 ∷ 0 ∷ 0 ∷ 0 ∷ 0 ∷ 0 ∷ 0 ∷ 0 ∷ 0 ∷ 0 ∷ 0 ∷ []

abbrev quiet_sums : List ℕ
quiet_sums = 19 ∷ 160 ∷ 0 ∷ 0 ∷ []

quiet_accepted : verify_convert_cmd ((quiet_before ++ 9 ∷ quiet_after) ++ quiet_sums) ≡ true
unfolding verify_convert_cmd cmd_of_bytes fio_crc16 over_bytes crc16_byte crc16_table
quiet_accepted = refl

quiet_after-IsBytes : IsBytes quiet_after
quiet_after-IsBytes = (
  omega arith,
  (
    omega arith,
    (
      omega arith,
      (
        omega arith,
        (
          omega arith,
          (
            omega arith,
            (
              omega arith,
              (
                omega arith,
                (
                  omega arith,
                  (
                    omega arith,
                    (
                      omega arith,
                      (
                        omega arith,
                        (
                          omega arith,
                          (omega arith, (omega arith, (omega arith, (omega arith, tt)))),
                        ),
                      ),
                    ),
                  ),
                ),
              ),
            ),
          ),
        ),
      ),
    ),
  ),
)

changed_refused_example :
    verify_convert_cmd ((quiet_before ++ 10 ∷ quiet_after) ++ quiet_sums) ≡ false
changed_refused_example =
    changed_refused quiet_before quiet_after quiet_sums 9 10 (omega arith, (omega arith, tt))
      quiet_after-IsBytes (omega arith) (omega arith) refl (omega arith) quiet_accepted
