-- ===== src/Tcp/Recv/Frames.antt =====
-- `CTcpTask::RecvProcess` of common/mytask.cpp on whole frames.
use websocket_test.Base.{
  ℕ, zero, suc, ◌+◌, ◌-◌, ◌*◌, ◌^◌, ◌≤◌, ◌<◌, ◌≡◌, refl, sym, ap, subst, ◌∙◌, arith, some, List, [],
  ◌∷◌, ◌++◌, length, take, drop, append_assoc, append-nil, code, take-append, drop-append,
  length-append, take_all, All, sub32, ◌==◌, false,
}
use websocket_test.Buffer.{CvBuffer, max_size, jump, align_buf, jump_buffer, add_data_size}
use websocket_test.Buffer.Bytes.{load, store, load-store}
use websocket_test.Buffer.Order.{w16}
use websocket_test.Buffer.Bounds.{IsValid, jump-IsValid, align_buf-IsValid}
use websocket_test.Buffer.Fifo.{
  unread, length-unread, unread-jump, unread-align_buf, get_offset-align_buf, load-jump_buffer,
}
use websocket_test.Buffer.Wire.{wire}
use websocket_test.Tcp.Recv.Field.{
  IsReady, awaiting, field_left, field_within, awaiting-IsValid, read_state-awaiting,
}
use websocket_test.Tcp.Recv.{
  read_packet_len, read_packet, Receiver, Parsed, returns, parse_loop, parse, recv_process, bytes,
  process_one_packet, read_state, read_body, go_on, packet_finished,
}

-- A body as the peer frames it: its length and 2, big-endian, and the body.
abbrev pub frame : List ℕ → List ℕ
frame body = wire w16 (length body + 2) ++ body

abbrev pub frames : List (List ℕ) → List ℕ
frames [] = []
frames (body ∷ rest) = frame body ++ frames rest

module _ (r : Receiver) (body rest : List ℕ) (ready : IsReady r) (small : length body < 2 ^ 15)
    (e : unread r.buffer ≡ frame body ++ rest) where
  regroup : unread r.buffer ≡ wire w16 (length body + 2) ++ (body ++ rest)
  regroup = e ∙ append_assoc (wire w16 (length body + 2)) body rest

  body_left : unread (awaiting r (length body)).buffer ≡ body ++ rest
  body_left = field_left r (length body) (body ++ rest) ready (omega arith) regroup

  has_frame : length body + 2 ≤ r.buffer.offset
  has_frame = omega (
    arith,
    field_within r (length body) (body ++ rest) ready (omega arith) regroup,
    length-append body rest,
  )

  whole-IsValid : IsValid (awaiting r (length body)).buffer
  whole-IsValid = awaiting-IsValid r (length body) (body ++ rest) ready (omega arith) regroup

  read_state-frame : read_state r.state r ≡ go_on (awaiting r (length body))
  read_state-frame = read_state-awaiting r (length body) (body ++ rest) ready (omega arith) regroup

  -- The state after the frame.
  after : Receiver
  after = record r {
    buffer = align_buf (jump (awaiting r (length body)).buffer (length body));
    total_len = length body + 2;
    state = read_packet_len;
    data_size = length body;
    delivered = r.delivered ++ body ∷ [];
  }

  long_enough : length body ≤ length (unread (awaiting r (length body)).buffer)
  long_enough = omega (arith, ap length body_left, length-append body rest)

  body_copied :
      load r.buffer.buffer (jump_buffer (awaiting r (length body)).buffer) (length body) ≡ body
  body_copied =
      load-jump_buffer (awaiting r (length body)).buffer (length body) whole-IsValid long_enough
      ∙ ap (take (length body)) body_left
      ∙ take-append (length body) body rest refl

  process_frame :
      process_one_packet (awaiting r (length body)) ≡ some (record after { state = read_packet })
  unfolding process_one_packet after
  process_frame = ground (arith, body_copied)

  jumped-IsValid : IsValid (jump (awaiting r (length body)).buffer (length body))
  jumped-IsValid = jump-IsValid (awaiting r (length body)).buffer (length body) whole-IsValid

  after-unread : unread after.buffer ≡ rest
  unfolding after
  after-unread =
      unread-align_buf _ jumped-IsValid
      ∙ unread-jump (awaiting r (length body)).buffer (length body) (omega arith) whole-IsValid
      ∙ ap (drop (length body)) body_left
      ∙ drop-append (length body) body rest refl

  after-IsReady : IsReady after
  unfolding after
  after-IsReady = record {
    valid = align_buf-IsValid _ jumped-IsValid;
    aligned = get_offset-align_buf _ jumped-IsValid;
    state = refl;
  }

  -- One turn of the loop takes the frame off the buffer and hands on its body.
  parse_frame : (fuel : ℕ) → parse_loop (suc fuel) r ≡ parse_loop fuel after
  unfolding parse_loop read_body packet_finished after
  parse_frame fuel = ground (arith, read_state-frame, has_frame, process_frame)

-- The parser has handed on these bodies and is between frames, with nothing in the buffer.
pub record Received (before : List (List ℕ)) (bodies : List (List ℕ)) (out : Parsed) : Type 0 where
  pub receiver : Receiver
  pub returned : out ≡ returns receiver (code 0)
  pub handed_on : receiver.delivered ≡ before ++ bodies
  pub ready : IsReady receiver
  pub empty : receiver.buffer.offset ≡ 0

abbrev pub IsFramed : List ℕ → Type 0
IsFramed body = length body < 2 ^ 15

length-frames : (bodies : List (List ℕ)) → 2 * length bodies ≤ length (frames bodies)
length-frames [] = omega arith
length-frames (body ∷ rest) =
    omega (arith, length-append (frame body) (frames rest), length-frames rest)

parse_loop-Received :
    (fuel : ℕ) (bodies : List (List ℕ)) (r : Receiver)
    → IsReady r
    → All IsFramed bodies
    → unread r.buffer ≡ frames bodies
    → length bodies < fuel
    → Received r.delivered bodies (parse_loop fuel r)
parse_loop-Received zero bodies r ready small e h = absurd (omega arith)
parse_loop-Received (suc fuel) [] r ready small e h =
    let done : r.buffer.offset ≡ 0 =
      omega (arith, ap length e, length-unread r.buffer, ready.aligned) in
    record {
      receiver = r;
      returned = unfold parse_loop in ground arith;
      handed_on = sym (append-nil r.delivered);
      ready = ready;
      empty = done;
    }
parse_loop-Received (suc fuel) (body ∷ rest) r ready small e h =
    let next = after r body (frames rest) ready small.0 e in
    let later =
      parse_loop-Received fuel rest next (after-IsReady r body (frames rest) ready small.0 e)
        small.1 (after-unread r body (frames rest) ready small.0 e) (omega arith) in
    record {
      receiver = later.receiver;
      returned = parse_frame r body (frames rest) ready small.0 e fuel ∙ later.returned;
      handed_on = later.handed_on ∙ unfold after in append_assoc r.delivered (body ∷ []) rest;
      ready = later.ready;
      empty = later.empty;
    }

-- The receiver after `recv` has put `got` into its empty buffer.
abbrev pub filled : Receiver → List ℕ → Receiver
filled r got = record r {
  buffer = record r.buffer {
    buffer = store r.buffer.buffer 0 got;
    offset = length got;
    get_offset = 0;
  };
}

-- What the buffer holds after `recv` put `got` where `JumpBuffer` points.
abbrev pub refilled : CvBuffer → List ℕ → CvBuffer
refilled b got =
    add_data_size (record b { buffer = store b.buffer (jump_buffer b) got }) (length got)

-- A `recv` that fits is followed by parsing.
pub recv_process-parse :
    (got : List ℕ) (r : Receiver)
    → r.buffer.offset ≤ max_size
    → 0 < length got
    → length got ≤ max_size - r.buffer.offset
    → recv_process (bytes got) r ≡ parse (record r { buffer = refilled r.buffer got })
unfolding recv_process
recv_process-parse got r valid some_byte room =
    let kept : take (sub32 max_size r.buffer.offset) got ≡ got = take_all _ got (omega arith) in
    let more : (length got == 0) ≡ false = ground arith in rw (kept, more)

refilled_empty :
    (b : CvBuffer) (got : List ℕ)
    → b.offset ≡ 0
    → b.get_offset ≡ 0
    → length got ≤ max_size
    → refilled b got ≡ record { buffer = store b.buffer 0 got; offset = length got; get_offset = 0 }
unfolding add_data_size jump_buffer
refilled_empty b got e g h = ground arith

pub recv_process-filled :
    (got : List ℕ) (r : Receiver)
    → r.buffer.offset ≡ 0
    → r.buffer.get_offset ≡ 0
    → 0 < length got
    → length got ≤ max_size
    → recv_process (bytes got) r ≡ parse (filled r got)
recv_process-filled got r e g some_byte room =
    recv_process-parse got r (omega arith) some_byte (omega arith)
    ∙ ap (λ b. parse (record r { buffer = b })) (refilled_empty r.buffer got e g room)

-- Any number of whole frames in one recv, each body shorter than 2^15 bytes and all of them
-- together within the buffer, are handed on as they were framed, in order, by a receiver between
-- frames with an empty buffer, and leave it so.
pub recv_process-Received :
    (bodies : List (List ℕ)) (r : Receiver)
    → IsReady r
    → r.buffer.offset ≡ 0
    → All IsFramed bodies
    → 0 < length bodies
    → length (frames bodies) ≤ max_size
    → Received r.delivered bodies (recv_process (bytes (frames bodies)) r)
unfolding parse
recv_process-Received bodies r ready empty small some_frame room =
    subst (Received r.delivered bodies)
      (sym (
        recv_process-filled (frames bodies) r empty ready.aligned
          (omega (arith, length-frames bodies)) room))
      (parse_loop-Received (suc (length (frames bodies))) bodies (filled r (frames bodies))
        (record { valid = omega arith; aligned = refl; state = ready.state }) small
        (ap (load (store r.buffer.buffer 0 (frames bodies)) 0) {x = length (frames bodies) - 0}
            {y = length (frames bodies)} (omega arith)
          ∙ load-store r.buffer.buffer 0 (frames bodies))
        (omega (arith, length-frames bodies)))
