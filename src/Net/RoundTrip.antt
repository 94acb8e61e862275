-- ===== src/Net/RoundTrip.antt =====
-- server.c: `fio_net_send_cmd` at one end of a stream and `fio_net_recv_cmd` at the other.
use raptor_mark.Common.{ℕ, ◌-◌, ◌^◌, ◌<◌, ◌≡◌, Bool, true, Option, List, length}
use raptor_mark.Crc.Bytes.{IsBytes}
use raptor_mark.Net.{FioNetCmd, Received, fragment_cmd}
use raptor_mark.Net.Text.{with_end}
use raptor_mark.Net.Receive.{IsStream}

-- The command that arrives: the first fragment's, with the length and the bytes of the whole buffer.
abbrev whole : ℕ → ℕ → List ℕ → Received
whole opcode tag buf = record {
  cmd = record (fragment_cmd opcode tag buf) { pdu_len = length buf };
  payload = buf;
}

module _ {W : Type 0} (send : List ℕ → W → Bool × W) (recv : ℕ → W → Option (List ℕ) × W)
    (alloc : ℕ → Bool) (content : W → List ℕ) (stream : IsStream send recv content)
    (granted : (n : ℕ) → alloc n ≡ true) (opcode tag : ℕ) (op_fits : opcode < 2 ^ 16)
    (tag_fits : tag < 2 ^ 64) (buf : List ℕ) (bytes : IsBytes buf)
    (small : length buf < 2 ^ 31 - 25) where
  abbrev c : FioNetCmd
  c = fragment_cmd opcode tag buf

  abbrev ended : Received
  ended = record { cmd = (whole opcode tag buf).cmd; payload = with_end opcode buf }
