-- ===== src/Net/Receive.antt =====
-- server.c: one round of the loop of `fio_net_recv_cmd`.
use raptor_mark.Common.{
  ℕ, suc, ◌*◌, ◌/◌, ◌≤◌, ◌≡◌, ◌≢◌, refl, sym, Bool, true, false, Option, some, List, ◌++◌, length,
  eq→==, ne→==, ge→ltb, if◌then◌else◌,
}
use raptor_mark.Crc.Crc16.{fio_crc16}
use raptor_mark.Net.{
  FioNetCmd, Received, cmd_bytes, cmd_of_bytes, checked_bytes, verify_convert_cmd, recv_loop,
  joined, next_size, opcode_differs, kept, has_more,
}
use raptor_mark.Net.Header.{IsCmd, cmd_of_bytes-cmd_bytes, verify_convert_cmd-accepts}

-- A stream that loses and changes nothing: what is sent is added to its content, and what is received is
-- taken from the front of it.
pub record IsStream {W : Type 0} (send : List ℕ → W → Bool × W) (recv : ℕ → W → Option (List ℕ) × W)
    (content : W → List ℕ) : Type 0 where
  pub sent : (bytes : List ℕ) (w : W) → (send bytes w).0 ≡ true
  pub added : (bytes : List ℕ) (w : W) → content (send bytes w).1 ≡ content w ++ bytes
  pub received :
      (n : ℕ) (w : W) (bytes rest : List ℕ)
      → content w ≡ bytes ++ rest
      → length bytes ≡ n
      → (recv n w).0 ≡ some bytes
  pub left :
      (n : ℕ) (w : W) (bytes rest : List ℕ)
      → content w ≡ bytes ++ rest
      → length bytes ≡ n
      → content (recv n w).1 ≡ rest

-- A command as it is sent.
pub record IsSent (cmd : FioNetCmd) (pdu : List ℕ) : Type 0 where
  pub fits : IsCmd cmd
  pub crc : cmd.cmd_crc16 ≡ fio_crc16 (checked_bytes cmd)
  pub version : cmd.version ≡ 107
  pub len : cmd.pdu_len ≡ length pdu
  pub few : cmd.pdu_len ≤ 1024
  pub pdu_crc : cmd.pdu_crc16 ≡ fio_crc16 pdu

module _ {W : Type 0} (send : List ℕ → W → Bool × W) (recv : ℕ → W → Option (List ℕ) × W)
    (alloc : ℕ → Bool) (content : W → List ℕ) (stream : IsStream send recv content) where
  abbrev pub after_head : W → W
  after_head w = (recv 24 w).1

  abbrev pub after_body : FioNetCmd → W → W
  after_body cmd w = (recv cmd.pdu_len (after_head w)).1

  module _ (rounds : ℕ) (cmdret : Option Received) (size : ℕ) (w : W) (cmd : FioNetCmd)
      (pdu rest : List ℕ) (s : IsSent cmd pdu) (at : content w ≡ cmd_bytes cmd ++ (pdu ++ rest))
      (room : next_size cmdret size cmd.pdu_len / 1024 ≤ 2048 * 1024)
      (granted : alloc (next_size cmdret size cmd.pdu_len) ≡ true)
      (same : opcode_differs cmdret cmd.opcode ≡ false) where
    read : cmd_of_bytes (cmd_bytes cmd) ≡ cmd
    read = cmd_of_bytes-cmd_bytes cmd s.fits

    accepted : verify_convert_cmd (cmd_bytes cmd) ≡ true
    accepted = verify_convert_cmd-accepts cmd s.fits s.crc s.version s.few

    pub body : content (after_head w) ≡ pdu ++ rest
    body = stream.left 24 w (cmd_bytes cmd) (pdu ++ rest) at refl

    pub behind : content (after_body cmd w) ≡ rest
    behind = stream.left cmd.pdu_len (after_head w) pdu rest body (sym s.len)

    -- A fragment with a payload.
    pub recv_fragment :
        cmd.pdu_len ≢ 0
        → recv_loop recv alloc (suc rounds) cmdret size w ≡ (
            if has_more cmd.flags
            then recv_loop recv alloc rounds
                (some (joined cmdret cmd pdu))
                (next_size cmdret size cmd.pdu_len)
                (after_body cmd w)
            else (some (joined cmdret cmd pdu), after_body cmd w))
    unfolding recv_loop
    recv_fragment ne =
        rw (recv_loop, stream.received 24 w (cmd_bytes cmd) (pdu ++ rest) at refl)
          (rw read (
            rw accepted (
              rw (ge→ltb (2048 * 1024) _ room) (
                rw granted (
                  rw same (
                    rw (ne→== cmd.pdu_len 0 ne) (
                      rw (stream.received cmd.pdu_len (after_head w) pdu rest body (sym s.len)) (
                        rw read
                          (rw (eq→== (fio_crc16 pdu) cmd.pdu_crc16 (sym s.pdu_crc)) refl)))))))))

    pub recv_empty :
        cmd.pdu_len ≡ 0
        → recv_loop recv alloc (suc rounds) cmdret size w ≡ (some (kept cmdret cmd), after_head w)
    unfolding recv_loop
    recv_empty e =
        rw (recv_loop, stream.received 24 w (cmd_bytes cmd) (pdu ++ rest) at refl)
          (rw read (
            rw accepted (
              rw (ge→ltb (2048 * 1024) _ room)
                (rw granted (rw same (rw (eq→== cmd.pdu_len 0 e) refl))))))
