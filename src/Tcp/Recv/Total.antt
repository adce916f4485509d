-- ===== src/Tcp/Recv/Total.antt =====
-- The loop over the buffer in `CTcpTask::RecvProcess`, common/mytask.cpp, and its fuel.
use websocket_test.Base.{
  ℕ, zero, suc, ◌+◌, ◌-◌, ◌%◌, ◌^◌, ◌≤◌, ◌<◌, ◌≡◌, ◌≢◌, refl, subst, arith, Option, none, some,
  List, true, inl, inr, Bool-cases,
}
use websocket_test.Buffer.{CvBuffer, get_raw, jump, align_buf}
use websocket_test.Buffer.Order.{to_network, htons}
use websocket_test.Buffer.Bounds.{IsValid}
use websocket_test.Tcp.Recv.{
  State, read_packet_len, read_packet, Receiver, Parsed, unfinished, parse_loop, parse,
  process_one_packet, read_state, read_len, read_body, Read, stop, go_on, packet_finished, finish,
  length_field,
}

-- Where the read position stands in each state, and what is known of the frame that is awaited.
abbrev pub StateInv : State → Receiver → Type 0
StateInv read_packet_len r = r.buffer.get_offset ≡ 0
StateInv read_packet r =
    (r.buffer.get_offset ≡ 2)
    × (0 < r.total_len)
    × (r.total_len < 2 ^ 16)
    × (r.data_size ≡ (r.total_len + 2 ^ 16 - 2) % 2 ^ 16)

pub record IsParsing (r : Receiver) : Type 0 where
  pub valid : IsValid r.buffer
  pub inv : StateInv r.state r

abbrev Continues : ℕ → Read → Type 0
Continues n (stop r ret) = Unit {0}
Continues n (go_on r) = IsValid r.buffer × StateInv read_packet r × (r.buffer.offset ≡ n)

length_field-lt : (f : Option (List ℕ)) → length_field f < 2 ^ 16
unfolding length_field to_network htons
length_field-lt none = omega arith
length_field-lt (some bytes) = omega arith

get_raw_two :
    (b : CvBuffer)
    → IsValid b
    → b.get_offset ≡ 0
    → 2 ≤ b.offset
    → ((get_raw b 2).0.get_offset ≡ 2) × ((get_raw b 2).0.offset ≡ b.offset)
unfolding get_raw
get_raw_two b v e h = ground arith

read_len-Continues :
    (r : Receiver)
    → IsValid r.buffer
    → r.buffer.get_offset ≡ 0
    → Continues r.buffer.offset (read_len r)
unfolding read_len
read_len-Continues r v e =
    ground (arith, get_raw_two r.buffer v e, length_field-lt (get_raw r.buffer 2).1)

read_state-Continues :
    (s : State) (r : Receiver)
    → IsValid r.buffer
    → StateInv s r
    → Continues r.buffer.offset (read_state s r)
unfolding read_state
read_state-Continues read_packet_len r v i = read_len-Continues r v i
read_state-Continues read_packet r v i = (v, i, refl)

abbrev Shrinks : ℕ → Option Receiver → Type 0
Shrinks n none = Unit {0}
Shrinks n (some r) = IsValid r.buffer × (r.buffer.get_offset ≡ 0) × (r.buffer.offset < n)

process-Shrinks :
    (r : Receiver)
    → IsValid r.buffer
    → StateInv read_packet r
    → packet_finished r ≡ true
    → Shrinks r.buffer.offset (process_one_packet r)
unfolding process_one_packet packet_finished jump align_buf
process-Shrinks r v i h = ground arith

body_ends :
    (next : Receiver → Parsed) (n : ℕ)
    → ((r : Receiver) → IsParsing r → r.buffer.offset < n → next r ≢ unfinished)
    → (rd : Read) → Continues n rd
    → read_body next rd ≢ unfinished
unfolding read_body finish
body_ends next n ends (stop r ret) c = ground arith
body_ends next n ends (go_on r) c = elim (Bool-cases (packet_finished r)) [
  | inl whole ↦ rw whole (
      finish_ends (process_one_packet r)
        (subst (λ k. Shrinks k (process_one_packet r)) c.2 (process-Shrinks r c.0 c.1 whole)))
  | inr partial ↦ rw partial (ground arith)
]
  where
    finish_ends : (o : Option Receiver) → Shrinks n o → finish next o ≢ unfinished
    finish_ends none s = ground arith
    finish_ends (some r') s = ends _ (record { valid = s.0; inv = s.1 }) s.2

-- From any well-formed receiver the parsing loop returns, or makes a copy of a negative size: each
-- frame takes at least two bytes off the buffer, so the fuel that `parse` gives does not run out.
parse_loop-ends :
    (fuel : ℕ) (r : Receiver)
    → IsParsing r
    → r.buffer.offset < fuel
    → parse_loop fuel r ≢ unfinished
unfolding parse_loop
parse_loop-ends zero r p h = absurd (omega arith)
parse_loop-ends (suc fuel) r p h = ground (
  arith,
  body_ends (parse_loop fuel) r.buffer.offset (λ r' p' h'. parse_loop-ends fuel r' p' (omega arith))
      (read_state r.state r) (read_state-Continues r.state r p.valid p.inv),
)

-- From a receiver whose buffer is valid and whose positions fit its state, the fuel given to the
-- parsing loop is enough: it returns or faults, and is never left unfinished.
pub parse-ends : (r : Receiver) → IsParsing r → parse r ≢ unfinished
unfolding parse
parse-ends r p = parse_loop-ends (suc r.buffer.offset) r p (omega arith)
