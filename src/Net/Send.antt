-- ===== src/Net/Send.antt =====
-- server.c: the fragments that `fio_net_send_cmd` makes of a buffer.
use native.Mathlib.Decide.{dec_lt}
use raptor_mark.Common.{
  ℕ, zero, suc, ◌-◌, ◌%◌, ◌^◌, ◌≤◌, ◌<◌, ◌≡◌, refl, sym, ap, subst, ◌∙◌, arith, Bool, true, min,
  Option, List, [], ◌++◌, length, take, drop, length-take, length-drop, eq→==, ne→==, ge→ltb,
  lt→ltb, if◌then◌else◌, ltb, append_assoc, append-nil,
}
use raptor_mark.Crc.Bytes.{IsBytes}
use raptor_mark.Crc.Crc16.{fio_crc16}
use raptor_mark.Net.{
  FioNetCmd, cmd_bytes, checked_bytes, init_net_cmd, net_cmd_crc_pdu, fragment_len, fragment_cmd,
  send_loop,
}
use raptor_mark.Net.Header.{fio_crc16-lt, checked_bytes-IsBytes, take-IsBytes}
use raptor_mark.Net.Receive.{IsSent, IsStream}

pub fragment_len-min : (buf : List ℕ) → fragment_len buf ≡ min 1024 (length buf)
unfolding fragment_len
fragment_len-min buf = ground arith

-- The command without its checksums, by whether more fragments follow.
unfoldable pub plain : ℕ → ℕ → ℕ → ℕ → FioNetCmd
plain opcode tag len flags = record {
  version = 107;
  opcode = opcode;
  flags = flags;
  tag = tag;
  pdu_len = len;
  cmd_crc16 = 0;
  pdu_crc16 = 0;
}

abbrev pub summed : FioNetCmd → List ℕ → FioNetCmd
summed cmd pdu = record cmd { cmd_crc16 = fio_crc16 (checked_bytes cmd); pdu_crc16 = fio_crc16 pdu }

unfoldable pub more_of : List ℕ → ℕ
more_of buf = if ltb 1024 (length buf) then 1 else 0

init_net_cmd-plain :
    (opcode tag len : ℕ)
    → opcode < 2 ^ 16
    → tag < 2 ^ 64
    → len < 2 ^ 32
    → init_net_cmd opcode len tag ≡ plain opcode tag len 0
unfolding init_net_cmd plain
init_net_cmd-plain opcode tag len p q r = λ i. record {
  version = 107;
  opcode = (fit16 opcode p) i;
  flags = 0;
  tag = (fit64 tag q) i;
  pdu_len = (fit32 len r) i;
  cmd_crc16 = 0;
  pdu_crc16 = 0;
}
  where
    fit16 : (v : ℕ) → v < 2 ^ 16 → v % 2 ^ 16 ≡ v
    fit16 v lt = omega arith

    fit64 : (v : ℕ) → v < 2 ^ 64 → v % 2 ^ 64 ≡ v
    fit64 v lt = omega arith

    fit32 : (v : ℕ) → v < 2 ^ 32 → v % 2 ^ 32 ≡ v
    fit32 v lt = omega arith

pub fragment_cmd-summed :
    (opcode tag : ℕ) (buf : List ℕ)
    → opcode < 2 ^ 16
    → tag < 2 ^ 64
    → fragment_cmd opcode tag buf
      ≡ summed (plain opcode tag (fragment_len buf) (more_of buf)) (take (fragment_len buf) buf)
unfolding fragment_cmd net_cmd_crc_pdu plain more_of
fragment_cmd-summed opcode tag buf p q =
    rw (init_net_cmd-plain opcode tag (fragment_len buf) p q (omega (arith, fragment_len-min buf)))
      (elim (dec_lt 1024 (length buf)) [
        | yes long ↦
            rw (lt→ltb 1024 (length buf) long) (
              rw (lt→ltb (fragment_len buf) (length buf) (omega (arith, fragment_len-min buf)))
                refl)
        | no short ↦
            rw (ge→ltb 1024 (length buf) (omega arith)) (
              rw (ge→ltb (fragment_len buf) (length buf) (omega (arith, fragment_len-min buf)))
                refl)
      ])

pub fragment-IsSent :
    (opcode tag flags : ℕ) (buf : List ℕ)
    → opcode < 2 ^ 16
    → tag < 2 ^ 64
    → flags < 2 ^ 32
    → IsBytes buf
    → IsSent
        (summed (plain opcode tag (fragment_len buf) flags) (take (fragment_len buf) buf))
        (take (fragment_len buf) buf)
unfolding plain
fragment-IsSent opcode tag flags buf p q r bytes = record {
  fits = record {
    version = omega arith;
    opcode = p;
    flags = r;
    tag = q;
    pdu_len = omega (arith, fragment_len-min buf);
    cmd_crc16 = fio_crc16-lt _ (checked_bytes-IsBytes (plain opcode tag (fragment_len buf) flags));
    pdu_crc16 = fio_crc16-lt _ (take-IsBytes (fragment_len buf) buf bytes);
  };
  crc = refl;
  version = refl;
  len = omega (arith, fragment_len-min buf, length-take (fragment_len buf) buf);
  few = omega (arith, fragment_len-min buf);
  pdu_crc = refl;
}

-- What the command of a fragment says.
pub record IsFragment (opcode tag : ℕ) (buf : List ℕ) (cmd : FioNetCmd) : Type 0 where
  pub sent : IsSent cmd (take (fragment_len buf) buf)
  pub same_opcode : cmd.opcode ≡ opcode
  pub same_tag : cmd.tag ≡ tag
  pub flags : cmd.flags ≡ more_of buf
  pub len : cmd.pdu_len ≡ fragment_len buf

pub fragment_cmd-IsFragment :
    (opcode tag : ℕ) (buf : List ℕ)
    → opcode < 2 ^ 16
    → tag < 2 ^ 64
    → IsBytes buf
    → IsFragment opcode tag buf (fragment_cmd opcode tag buf)
unfolding more_of plain
fragment_cmd-IsFragment opcode tag buf p q bytes =
    subst (IsFragment opcode tag buf) (sym (fragment_cmd-summed opcode tag buf p q)) facts
  where
    small : more_of buf < 2 ^ 32
    small = ground arith

    facts :
        IsFragment opcode tag buf
          (summed (plain opcode tag (fragment_len buf) (more_of buf)) (take (fragment_len buf) buf))
    facts = record {
      sent = fragment-IsSent opcode tag (more_of buf) buf p q small bytes;
      same_opcode = refl;
      same_tag = refl;
      flags = refl;
      len = refl;
    }

-- The fragment as it goes over the wire, and all fragments of a buffer, in more rounds than it has bytes.
unfoldable pub fragment : ℕ → ℕ → List ℕ → List ℕ
fragment opcode tag buf = cmd_bytes (fragment_cmd opcode tag buf) ++ take (fragment_len buf) buf

unfoldable pub wire : ℕ → ℕ → ℕ → List ℕ → List ℕ
wire zero opcode tag buf = []
wire (suc rounds) opcode tag buf =
    let rest = wire rounds opcode tag (drop (fragment_len buf) buf) in
    fragment opcode tag buf ++ (if ltb 1024 (length buf) then rest else [])

module _ (rounds opcode tag : ℕ) (buf : List ℕ) where
  pub wire_more :
      1024 < length buf
      → wire (suc rounds) opcode tag buf
        ≡ fragment opcode tag buf ++ wire rounds opcode tag (drop (fragment_len buf) buf)
  unfolding wire
  wire_more long = rw (lt→ltb 1024 (length buf) long) refl

  pub wire_last :
      length buf ≤ 1024 → wire (suc rounds) opcode tag buf ≡ fragment opcode tag buf ++ []
  unfolding wire
  wire_last short = rw (ge→ltb 1024 (length buf) short) refl

module _ {W : Type 0} (send : List ℕ → W → Bool × W) (recv : ℕ → W → Option (List ℕ) × W)
    (content : W → List ℕ) (stream : IsStream send recv content) where
  send_more :
      (rounds opcode tag : ℕ) (buf : List ℕ) (w : W)
      → 1024 < length buf
      → send_loop send (suc rounds) opcode tag buf w
        ≡ send_loop send rounds opcode tag
            (drop (fragment_len buf) buf)
            (send (fragment opcode tag buf) w).1
  unfolding send_loop fragment
  send_more rounds opcode tag buf w long =
      rw (stream.sent (fragment opcode tag buf) w)
        (rw (ne→== (length buf - fragment_len buf) 0 (omega (arith, fragment_len-min buf))) refl)

  send_last :
      (rounds opcode tag : ℕ) (buf : List ℕ) (w : W)
      → length buf ≤ 1024
      → send_loop send (suc rounds) opcode tag buf w ≡ send (fragment opcode tag buf) w
  unfolding send_loop fragment
  send_last rounds opcode tag buf w short =
      rw (eq→== (length buf - fragment_len buf) 0 (omega (arith, fragment_len-min buf)))
        (rw (stream.sent (fragment opcode tag buf) w) refl)

  pub send_loop-wire :
      (rounds opcode tag : ℕ) (buf : List ℕ) (w : W)
      → length buf < rounds
      → ((send_loop send rounds opcode tag buf w).0 ≡ true)
        × (content (send_loop send rounds opcode tag buf w).1
            ≡ content w ++ wire rounds opcode tag buf)
  send_loop-wire zero opcode tag buf w enough = absurd (omega arith)
  send_loop-wire (suc rounds) opcode tag buf w enough = elim (dec_lt 1024 (length buf)) [
    | yes long ↦
        let e = send_more rounds opcode tag buf w long in
        let left = length-drop (fragment_len buf) buf in
        let w' = (send (fragment opcode tag buf) w).1 in
        let rest =
          send_loop-wire rounds opcode tag (drop (fragment_len buf) buf) w'
            (omega (arith, fragment_len-min buf, left)) in
        (
          ap (λ (r : Bool × W). r.0) e ∙ rest.0,
          ap (λ (r : Bool × W). content r.1) e
              ∙ rest.1
              ∙ ap (λ (xs : List ℕ). xs ++ wire rounds opcode tag (drop (fragment_len buf) buf))
                  (stream.added (fragment opcode tag buf) w)
              ∙ append_assoc (content w) (fragment opcode tag buf)
                  (wire rounds opcode tag (drop (fragment_len buf) buf))
              ∙ ap (λ (xs : List ℕ). content w ++ xs) (sym (wire_more rounds opcode tag buf long)),
        )
    | no short ↦
        let e = send_last rounds opcode tag buf w (omega arith) in
        (
          ap (λ (r : Bool × W). r.0) e ∙ stream.sent (fragment opcode tag buf) w,
          ap (λ (r : Bool × W). content r.1) e
              ∙ stream.added (fragment opcode tag buf) w
              ∙ ap (λ (xs : List ℕ). content w ++ xs)
                  (sym (
                    wire_last rounds opcode tag buf (omega arith)
                    ∙ append-nil (fragment opcode tag buf))),
        )
  ]
