-- ===== src/Net/Fragments.antt =====
-- server.c: the loop of `fio_net_recv_cmd` on the fragments of a buffer.
use native.Mathlib.Decide.{dec_lt}
use raptor_mark.Common.{
  ℕ, zero, suc, ◌+◌, ◌^◌, ◌≤◌, ◌<◌, ◌≡◌, refl, sym, ap, ◌∙◌, arith, Bool, true, false, not, Option,
  some, List, [], ◌∷◌, ◌++◌, length, take, drop, length-take, length-drop, eq→==, ge→ltb, lt→ltb,
  if◌then◌else◌, ◌==◌, append_assoc, u32,
}
use raptor_mark.Crc.Bytes.{IsBytes}
use raptor_mark.Net.{
  FioNetCmd, Received, cmd_bytes, fragment_len, fragment_cmd, recv_loop, joined, next_size,
  opcode_differs, has_more,
}
use raptor_mark.Net.Header.{drop-IsBytes}
use raptor_mark.Net.Receive.{IsStream, recv_fragment, behind, after_body}
use raptor_mark.Net.Send.{
  fragment_len-min, more_of, fragment_cmd-IsFragment, fragment, wire, wire_more, wire_last,
}

-- A command with more of its payload.
abbrev pub extended : Received → List ℕ → Received
extended r buf = record {
  cmd = record r.cmd { pdu_len = r.cmd.pdu_len + length buf };
  payload = r.payload ++ buf;
}

joined-extended :
    (r : Received) (cmd : FioNetCmd) (buf front back : List ℕ)
    → cmd.pdu_len ≡ length front
    → buf ≡ front ++ back
    → length buf ≡ length front + length back
    → r.cmd.pdu_len + length buf < 2 ^ 32
    → extended (joined (some r) cmd front) back ≡ extended r buf
unfolding joined
joined-extended r cmd buf front back e split total fits =
    λ i. record { cmd = record r.cmd { pdu_len = len i }; payload = bytes i }
  where
    len : u32 (r.cmd.pdu_len + cmd.pdu_len) + length back ≡ r.cmd.pdu_len + length buf
    len = omega (arith, e, total, fits)

    bytes : (r.payload ++ front) ++ back ≡ r.payload ++ buf
    bytes = append_assoc r.payload front back ∙ ap (λ (xs : List ℕ). r.payload ++ xs) (sym split)

-- The last fragment is all that is left.
joined_last :
    (r : Received) (cmd : FioNetCmd) (buf front : List ℕ)
    → cmd.pdu_len ≡ length buf
    → front ≡ buf
    → r.cmd.pdu_len + length buf < 2 ^ 32
    → joined (some r) cmd front ≡ extended r buf
unfolding joined
joined_last r cmd buf front e same fits =
    λ i. record { cmd = record r.cmd { pdu_len = len i }; payload = r.payload ++ same i }
  where
    len : u32 (r.cmd.pdu_len + cmd.pdu_len) ≡ r.cmd.pdu_len + length buf
    len = omega (arith, e, fits)

pub split_at : (n : ℕ) (xs : List ℕ) → xs ≡ take n xs ++ drop n xs
split_at zero xs = refl
split_at (suc n) [] = refl
split_at (suc n) (x ∷ xs) = ap (λ (ys : List ℕ). x ∷ ys) (split_at n xs)

pub take_all : (n : ℕ) (xs : List ℕ) → length xs ≤ n → take n xs ≡ xs
take_all zero [] h = refl
take_all zero (x ∷ xs) h = absurd (omega arith)
take_all (suc n) [] h = refl
take_all (suc n) (x ∷ xs) h = ap (λ (ys : List ℕ). x ∷ ys) (take_all n xs (omega arith))

four : (a b c d : List ℕ) → ((a ++ b) ++ c) ++ d ≡ a ++ (b ++ (c ++ d))
four a b c d = append_assoc (a ++ b) c d ∙ append_assoc a b (c ++ d)

module _ (opcode tag : ℕ) (op_fits : opcode < 2 ^ 16) (tag_fits : tag < 2 ^ 64) where
  pub has_more_of :
      (buf : List ℕ)
      → IsBytes buf
      → 1024 < length buf
      → has_more (fragment_cmd opcode tag buf).flags ≡ true
  unfolding more_of
  has_more_of buf bytes long = ap has_more {y = 1} (
      (fragment_cmd-IsFragment opcode tag buf op_fits tag_fits bytes).flags
      ∙ rw (lt→ltb 1024 (length buf) long) refl)

  pub no_more_of :
      (buf : List ℕ)
      → IsBytes buf
      → length buf ≤ 1024
      → has_more (fragment_cmd opcode tag buf).flags ≡ false
  unfolding more_of
  no_more_of buf bytes short = ap has_more {y = 0} (
      (fragment_cmd-IsFragment opcode tag buf op_fits tag_fits bytes).flags
      ∙ rw (ge→ltb 1024 (length buf) short) refl)

  -- The bytes of the first fragment are in front.
  pub front_more :
      (n : ℕ) (buf rest : List ℕ)
      → 1024 < length buf
      → wire (suc n) opcode tag buf ++ rest
        ≡ cmd_bytes (fragment_cmd opcode tag buf)
          ++ (take (fragment_len buf) buf
              ++ (wire n opcode tag (drop (fragment_len buf) buf) ++ rest))
  unfolding fragment
  front_more n buf rest long =
      ap (λ (xs : List ℕ). xs ++ rest) (wire_more n opcode tag buf long)
      ∙ four (cmd_bytes (fragment_cmd opcode tag buf)) (take (fragment_len buf) buf)
          (wire n opcode tag (drop (fragment_len buf) buf)) rest

  pub front_last :
      (n : ℕ) (buf rest : List ℕ)
      → length buf ≤ 1024
      → wire (suc n) opcode tag buf ++ rest
        ≡ cmd_bytes (fragment_cmd opcode tag buf) ++ (take (fragment_len buf) buf ++ rest)
  unfolding fragment
  front_last n buf rest short =
      ap (λ (xs : List ℕ). xs ++ rest) (wire_last n opcode tag buf short)
      ∙ four (cmd_bytes (fragment_cmd opcode tag buf)) (take (fragment_len buf) buf) [] rest

module _ {W : Type 0} (send : List ℕ → W → Bool × W) (recv : ℕ → W → Option (List ℕ) × W)
    (alloc : ℕ → Bool) (content : W → List ℕ) (stream : IsStream send recv content)
    (granted : (n : ℕ) → alloc n ≡ true) (opcode tag : ℕ) (op_fits : opcode < 2 ^ 16)
    (tag_fits : tag < 2 ^ 64) where
  -- The answer of the loop to one fragment, by whether more of them follow.
  pub one_fragment :
      (rounds : ℕ) (cmdret : Option Received) (size : ℕ) (w : W) (buf rest : List ℕ)
      → IsBytes buf
      → 0 < length buf
      → content w ≡ cmd_bytes (fragment_cmd opcode tag buf) ++ (take (fragment_len buf) buf ++ rest)
      → next_size cmdret size (fragment_cmd opcode tag buf).pdu_len < 2 ^ 31
      → opcode_differs cmdret (fragment_cmd opcode tag buf).opcode ≡ false
      → (w' : W) × (content w' ≡ rest)
        × (recv_loop recv alloc (suc rounds) cmdret size w ≡ (
            if has_more (fragment_cmd opcode tag buf).flags
            then recv_loop recv alloc rounds
                (some (joined cmdret (fragment_cmd opcode tag buf) (take (fragment_len buf) buf)))
                (next_size cmdret size (fragment_cmd opcode tag buf).pdu_len)
                w'
            else (
              some (joined cmdret (fragment_cmd opcode tag buf) (take (fragment_len buf) buf)),
              w',
            )))
  one_fragment rounds cmdret size w buf rest bytes pos at room same =
      let f = fragment_cmd-IsFragment opcode tag buf op_fits tag_fits bytes in
      let c = fragment_cmd opcode tag buf in
      let pdu = take (fragment_len buf) buf in
      (
        after_body send recv alloc content stream c w,
        behind send recv alloc content stream rounds cmdret size w c pdu rest f.sent at
            (omega arith) (granted _) same,
        recv_fragment send recv alloc content stream rounds cmdret size w c pdu rest f.sent at
            (omega arith) (granted _) same (omega (arith, f.len, fragment_len-min buf)),
      )

  pub parts :
      (buf : List ℕ)
      → length buf ≡ length (take (fragment_len buf) buf) + length (drop (fragment_len buf) buf)
  parts buf = omega (
    arith,
    length-take (fragment_len buf) buf,
    length-drop (fragment_len buf) buf,
    fragment_len-min buf,
  )

  -- The fragments behind the first.
  pub recv_more :
      (n rounds : ℕ) (r : Received) (size : ℕ) (buf : List ℕ) (w : W) (rest : List ℕ)
      → IsBytes buf
      → 0 < length buf
      → length buf < n
      → n ≤ rounds
      → r.cmd.opcode ≡ opcode
      → size + length buf < 2 ^ 31
      → r.cmd.pdu_len + length buf < 2 ^ 32
      → content w ≡ wire n opcode tag buf ++ rest
      → (w' : W) × (content w' ≡ rest)
        × (recv_loop recv alloc rounds (some r) size w ≡ (some (extended r buf), w'))
  unfolding next_size opcode_differs joined
  recv_more zero rounds r size buf w rest bytes pos enough le same small fits at =
      absurd (omega arith)
  recv_more (suc n) zero r size buf w rest bytes pos enough le same small fits at =
      absurd (omega arith)
  recv_more (suc n) (suc rounds) r size buf w rest bytes pos enough le same small fits at =
      let f = fragment_cmd-IsFragment opcode tag buf op_fits tag_fits bytes in
      let c = fragment_cmd opcode tag buf in
      let room : size + c.pdu_len < 2 ^ 31 = omega (arith, f.len, fragment_len-min buf) in
      let agree : not (r.cmd.opcode == c.opcode) ≡ false =
        rw (eq→== r.cmd.opcode c.opcode (same ∙ sym f.same_opcode)) refl in
      let front = take (fragment_len buf) buf in
      let back = drop (fragment_len buf) buf in
      elim (dec_lt 1024 (length buf)) [
        | yes long ↦
            let one =
              one_fragment rounds (some r) size w buf (wire n opcode tag back ++ rest) bytes pos
                (at ∙ front_more opcode tag op_fits tag_fits n buf rest long) room agree in
            let later =
              recv_more n rounds (joined (some r) c front) (size + c.pdu_len) back one.0 rest
                (drop-IsBytes (fragment_len buf) buf bytes)
                (omega (arith, length-drop (fragment_len buf) buf, fragment_len-min buf))
                (omega (arith, parts buf, length-drop (fragment_len buf) buf, fragment_len-min buf))
                (omega arith) same
                (omega (arith, f.len, length-drop (fragment_len buf) buf, fragment_len-min buf))
                (omega (
                  arith,
                  f.len,
                  parts buf,
                  length-take (fragment_len buf) buf,
                  fragment_len-min buf,
                ))
                one.1 in
            (
              later.0,
              later.1,
              one.2
                  ∙ ap
                      (λ (b : Bool).
                        if b
                        then recv_loop recv alloc rounds (some (joined (some r) c front))
                            (size + c.pdu_len) one.0
                        else (some (joined (some r) c front), one.0))
                      (has_more_of opcode tag op_fits tag_fits buf bytes long)
                  ∙ later.2
                  ∙ ap (λ (x : Received). (some x, later.0))
                      (joined-extended r c buf front back
                        (omega
                          (arith, f.len, length-take (fragment_len buf) buf, fragment_len-min buf))
                        (split_at (fragment_len buf) buf) (parts buf) fits),
            )
        | no short ↦
            let one =
              one_fragment rounds (some r) size w buf rest bytes pos
                (at ∙ front_last opcode tag op_fits tag_fits n buf rest (omega arith)) room agree in
            (
              one.0,
              one.1,
              one.2
                  ∙ ap
                      (λ (b : Bool).
                        if b
                        then recv_loop recv alloc rounds (some (joined (some r) c front))
                            (size + c.pdu_len) one.0
                        else (some (joined (some r) c front), one.0))
                      (no_more_of opcode tag op_fits tag_fits buf bytes (omega arith))
                  ∙ ap (λ (x : Received). (some x, one.0))
                      (joined_last r c buf front (omega (arith, f.len, fragment_len-min buf))
                        (take_all (fragment_len buf) buf (omega (arith, fragment_len-min buf)))
                        fits),
            )
      ]
