-- ===== src/Net.antt =====
-- server.c and server.h: the commands that client and server send each other. A buffer is the list of
-- its bytes. The stream, which the system carries, is an argument: `send` and `recv` stand for what
-- fio_send_data and fio_recv_data do with it.
pub mod Header
pub mod Receive
pub mod Send
pub mod Fragments
pub mod Text
pub mod RoundTrip
pub mod Corruption
mod Tests
use raptor_mark.Common.{
  ℕ, zero, suc, ◌+◌, ◌-◌, ◌*◌, ◌/◌, ◌%◌, ◌^◌, bit_and, u16, u32, u64, Bool, true, false, not, ◌&&◌,
  ◌||◌, Option, none, some, List, [], ◌∷◌, ◌++◌, length, take, drop, set, if◌then◌else◌, ltb, ◌==◌,
}
use raptor_mark.Crc.Crc16.{fio_crc16}

-- FIO_SERVER_VER, FIO_SERVER_MAX_FRAGMENT_PDU, FIO_SERVER_MAX_CMD_MB, FIO_NET_CMD_CRC_SZ
abbrev pub server_ver : ℕ
server_ver = 107

abbrev pub max_fragment_pdu : ℕ
max_fragment_pdu = 1024

abbrev pub max_cmd_mb : ℕ
max_cmd_mb = 2048

abbrev pub cmd_crc_sz : ℕ
cmd_crc_sz = 20

-- `sizeof(struct fio_net_cmd)`
abbrev pub cmd_sz : ℕ
cmd_sz = 24

-- FIO_NET_CMD_JOB and FIO_NET_CMD_TEXT
abbrev pub cmd_job : ℕ
cmd_job = 3

abbrev pub cmd_text : ℕ
cmd_text = 5

-- `struct fio_net_cmd`, without the payload.
pub record FioNetCmd : Type 0 where
  pub version : ℕ
  pub opcode : ℕ
  pub flags : ℕ
  pub tag : ℕ
  pub pdu_len : ℕ
  pub cmd_crc16 : ℕ
  pub pdu_crc16 : ℕ

-- Little endian words, `cpu_to_le` and `le_to_cpu`.
abbrev pub le_bytes : ℕ → ℕ → List ℕ
le_bytes zero v = []
le_bytes (suc width) v = v % 256 ∷ le_bytes width (v / 256)

abbrev pub of_le_bytes : List ℕ → ℕ
of_le_bytes [] = 0
of_le_bytes (b ∷ bytes) = b + 256 * of_le_bytes bytes

-- The bytes in front of the checksums, and all bytes of the structure.
abbrev pub checked_bytes : FioNetCmd → List ℕ
checked_bytes cmd =
    le_bytes 2 cmd.version
    ++ le_bytes 2 cmd.opcode
    ++ le_bytes 4 cmd.flags
    ++ le_bytes 8 cmd.tag
    ++ le_bytes 4 cmd.pdu_len

abbrev pub cmd_bytes : FioNetCmd → List ℕ
cmd_bytes cmd = checked_bytes cmd ++ le_bytes 2 cmd.cmd_crc16 ++ le_bytes 2 cmd.pdu_crc16

unfoldable pub cmd_of_bytes : List ℕ → FioNetCmd
cmd_of_bytes bytes = record {
  version = of_le_bytes (take 2 bytes);
  opcode = of_le_bytes (take 2 (drop 2 bytes));
  flags = of_le_bytes (take 4 (drop 4 bytes));
  tag = of_le_bytes (take 8 (drop 8 bytes));
  pdu_len = of_le_bytes (take 4 (drop 16 bytes));
  cmd_crc16 = of_le_bytes (take 2 (drop 20 bytes));
  pdu_crc16 = of_le_bytes (take 2 (drop 22 bytes));
}

-- `__fio_init_net_cmd`
unfoldable pub init_net_cmd : ℕ → ℕ → ℕ → FioNetCmd
init_net_cmd opcode pdu_len tag = record {
  version = server_ver;
  opcode = u16 opcode;
  flags = 0;
  tag = u64 tag;
  pdu_len = u32 pdu_len;
  cmd_crc16 = 0;
  pdu_crc16 = 0;
}

-- `fio_net_cmd_crc_pdu`
unfoldable pub net_cmd_crc_pdu : FioNetCmd → List ℕ → FioNetCmd
net_cmd_crc_pdu cmd pdu = record cmd {
  cmd_crc16 = fio_crc16 (checked_bytes cmd);
  pdu_crc16 = fio_crc16 (take cmd.pdu_len pdu);
}

-- `verify_convert_cmd`: true where it returns 0.
unfoldable pub verify_convert_cmd : List ℕ → Bool
verify_convert_cmd bytes =
    let cmd = cmd_of_bytes bytes in
    (fio_crc16 (take cmd_crc_sz bytes) == cmd.cmd_crc16)
    && ((cmd.version == server_ver) && not (ltb max_fragment_pdu cmd.pdu_len))

-- What is received: `cmdret` and its payload.
pub record Received : Type 0 where
  pub cmd : FioNetCmd
  pub payload : List ℕ

-- `buf[len] = '\0'` for a text that begins at `offset` of the payload, `len` being the word at `at` as an
-- int. The memory is that of the command, as a little-endian machine has it, the payload behind it and one
-- byte of room; a write before the payload goes into the command. `none` is a read of bytes that were not
-- received, or a write out of this memory.
unfoldable pub end_text : ℕ → ℕ → Received → Option Received
end_text offset at r =
    let len = of_le_bytes (take 4 (drop at r.payload)) in
    let start = cmd_sz + offset + len in
    let place = if ltb len (2 ^ 31) then start else start - 2 ^ 32 in
    if ltb (length r.payload) (at + 4)
    then none
    else if not (ltb len (2 ^ 31)) && ltb start (2 ^ 32)
    then none
    else if ltb place cmd_sz
    then some (record { cmd = cmd_of_bytes (set (cmd_bytes r.cmd) place 0); payload = r.payload })
    else if ltb (cmd_sz + length r.payload) place
    then none
    else some (record { cmd = r.cmd; payload = set r.payload (place - cmd_sz) 0 })

unfoldable pub zero_terminate : Received → Option Received
zero_terminate r =
    if r.cmd.pdu_len == 0
    then some r
    else if r.cmd.opcode == cmd_text
    then end_text 24 4 r
    else if r.cmd.opcode == cmd_job
    then end_text 8 0 r
    else some r

-- FIO_NET_CMD_F_MORE in the flags.
abbrev pub has_more : ℕ → Bool
has_more flags = not (bit_and flags 1 == 0)

-- The end of `fio_net_recv_cmd` on success: `flags &= ~FIO_NET_CMD_F_MORE`.
unfoldable pub without_more : Received → Received
without_more r = record {
  cmd = record r.cmd { flags = r.cmd.flags - bit_and r.cmd.flags 1 };
  payload = r.payload;
}

unfoldable pub finish : Received → Option Received
finish r = elim (zero_terminate r) [ none ↦ none | some ended ↦ some (without_more ended) ]

-- `this_len`, and the command of the first fragment of what is left of the buffer.
unfoldable pub fragment_len : List ℕ → ℕ
fragment_len buf = if ltb max_fragment_pdu (length buf) then max_fragment_pdu else length buf

unfoldable pub fragment_cmd : ℕ → ℕ → List ℕ → FioNetCmd
fragment_cmd opcode tag buf =
    let fresh = init_net_cmd opcode (fragment_len buf) tag in
    let flagged =
      if ltb (fragment_len buf) (length buf) then record fresh { flags = 1 } else fresh in
    net_cmd_crc_pdu flagged buf

-- What a fragment is joined to: the command so far, with its `cmd_size`, or nothing.
unfoldable pub joined : Option Received → FioNetCmd → List ℕ → Received
joined none cmd pdu = record { cmd = cmd; payload = pdu }
joined (some r) cmd pdu = record {
  cmd = record r.cmd { pdu_len = u32 (r.cmd.pdu_len + cmd.pdu_len) };
  payload = r.payload ++ pdu;
}

unfoldable pub next_size : Option Received → ℕ → ℕ → ℕ
next_size none cmd_size pdu_len = cmd_sz + pdu_len + 1
next_size (some r) cmd_size pdu_len = cmd_size + pdu_len

unfoldable pub opcode_differs : Option Received → ℕ → Bool
opcode_differs none opcode = false
opcode_differs (some r) opcode = not (r.cmd.opcode == opcode)

-- The command of a fragment without payload: the first is kept as it is.
unfoldable pub kept : Option Received → FioNetCmd → Received
kept none cmd = record { cmd = cmd; payload = [] }
kept (some r) cmd = r

module _ {W : Type 0} (send : List ℕ → W → Bool × W) where
  -- The loop of `fio_net_send_cmd`.
  unfoldable pub send_loop : ℕ → ℕ → ℕ → List ℕ → W → Bool × W
  send_loop zero opcode tag buf w = (true, w)
  send_loop (suc rounds) opcode tag buf w =
      let this_len = fragment_len buf in
      let sent = send (cmd_bytes (fragment_cmd opcode tag buf) ++ take this_len buf) w in
      let rest = send_loop rounds opcode tag (drop this_len buf) sent.1 in
      if sent.0 && not (length buf - this_len == 0) then rest else sent

  unfoldable pub net_send_cmd : ℕ → ℕ → List ℕ → W → Bool × W
  net_send_cmd opcode tag buf w = send_loop (length buf + 1) opcode tag buf w

module _ {W : Type 0} (recv : ℕ → W → Option (List ℕ) × W) (alloc : ℕ → Bool) where
  -- The loop of `fio_net_recv_cmd`; `none` for the return of NULL.
  unfoldable pub recv_loop : ℕ → Option Received → ℕ → W → Option Received × W
  recv_loop zero cmdret cmd_size w = (none, w)
  recv_loop (suc rounds) cmdret cmd_size w =
      let head = recv cmd_sz w in
      elim head.0 [
        | none ↦ (none, head.1)
        | some bytes ↦
            let cmd = cmd_of_bytes bytes in
            let size = next_size cmdret cmd_size cmd.pdu_len in
            let body = recv cmd.pdu_len head.1 in
            if not (verify_convert_cmd bytes)
            then (none, head.1)
            else if ltb (max_cmd_mb * 1024) (size / 1024) || not (alloc size)
            then (none, head.1)
            else if opcode_differs cmdret cmd.opcode
            then (none, head.1)
            else if cmd.pdu_len == 0
            then (some (kept cmdret cmd), head.1)
            else elim body.0 [
              | none ↦ (none, body.1)
              | some pdu ↦
                  let r = joined cmdret cmd pdu in
                  let rest = recv_loop rounds (some r) size body.1 in
                  if not (fio_crc16 pdu == cmd.pdu_crc16)
                  then (none, body.1)
                  else if has_more cmd.flags
                  then rest
                  else (some r, body.1)
            ]
      ]

  -- `none` for the return of NULL, and where the end of the text is written out of the memory.
  unfoldable pub net_recv_cmd : ℕ → W → Option Received × W
  net_recv_cmd rounds w =
      let r = recv_loop rounds none 0 w in
      elim r.0 [ none ↦ (none, r.1) | some received ↦ (finish received, r.1) ]
