-- ===== src/Tcp/Recv/Split.antt =====
-- `CTcpTask::RecvProcess` of common/mytask.cpp on a frame in two pieces, and on one that is too long.
use websocket_test.Base.{
  ℕ, suc, ◌+◌, ◌-◌, ◌^◌, ◌≤◌, ◌<◌, ◌≡◌, refl, sym, ap, ◌∙◌, arith, some, List, [], ◌∷◌, ◌++◌,
  length, take, drop, code, length-drop, length-take,
}
use websocket_test.Buffer.{CvBuffer, max_size, jump, align_buf, jump_buffer, add_data_size}
use websocket_test.Buffer.Bytes.{load, store, load-store, length-load, take-load}
use websocket_test.Buffer.Order.{w16}
use websocket_test.Buffer.Fifo.{unread}
use websocket_test.Buffer.Wire.{wire}
use websocket_test.Tcp.Recv.Field.{IsReady, awaiting, field_within, read_state-awaiting}
use websocket_test.Tcp.Recv.Frames.{filled, refilled, recv_process-parse, recv_process-filled}
use websocket_test.Tcp.Recv.{
  read_packet_len, read_packet, Receiver, returns, parse_loop, parse, recv_process, bytes,
  process_one_packet, read_state, read_body, finish, faults, packet_finished,
}

-- The first piece: the length field and some of the body's bytes. The receiver waits for more.
first_piece :
    (r : Receiver) (n : ℕ) (tail : List ℕ)
    → IsReady r
    → r.buffer.offset ≡ 0
    → n < 2 ^ 15
    → length tail < n
    → recv_process (bytes (wire w16 (n + 2) ++ tail)) r
      ≡ returns (awaiting (filled r (wire w16 (n + 2) ++ tail)) n) (code 1)
unfolding parse parse_loop read_body packet_finished
first_piece r n tail ready empty small short =
    let got = wire w16 (n + 2) ++ tail in
    let r' = filled r got in
    let e : unread r'.buffer ≡ got =
      ap (load r'.buffer.buffer 0) {x = length got - 0} {y = length got} (omega arith)
      ∙ load-store r.buffer.buffer 0 got in
    let ready' : IsReady r' = record { valid = omega arith; aligned = refl; state = ready.state } in
    recv_process-filled got r empty ready.aligned (omega arith) (omega arith)
    ∙ ground (arith, read_state-awaiting r' n tail ready' (omega arith) e)

-- A receiver that waits for a body of `n` bytes and has some of them.
pub record IsWaiting (n : ℕ) (r : Receiver) : Type 0 where
  pub state : r.state ≡ read_packet
  pub total : r.total_len ≡ n + 2
  pub size : r.data_size ≡ n
  pub read : r.buffer.get_offset ≡ 2
  pub some_body : 2 < r.buffer.offset
  pub not_all : r.buffer.offset < n + 2

-- What is handed on once the rest has come: `recv` has put the rest over the first part of the body.
abbrev pub mixed : Receiver → ℕ → List ℕ → List ℕ
mixed r n got = load (store r.buffer.buffer 2 got) 2 n

refilled_waiting :
    (b : CvBuffer) (got : List ℕ)
    → b.get_offset ≡ 2
    → 2 < b.offset
    → b.offset + length got ≤ max_size
    → refilled b got
      ≡ record { buffer = store b.buffer 2 got; offset = b.offset + length got; get_offset = 2 }
unfolding add_data_size jump_buffer
refilled_waiting b got e h room = ground arith

consumed :
    (m : ℕ → ℕ) (n : ℕ)
    → n < 2 ^ 15
    → (align_buf (jump (record { buffer = m; offset = n + 2; get_offset = 2 }) n)).offset ≡ 0
unfolding align_buf jump
consumed m n h = ground arith

-- The buffer once the whole frame's bytes have come.
abbrev complete : Receiver → ℕ → List ℕ → CvBuffer
complete r n got = record { buffer = store r.buffer.buffer 2 got; offset = n + 2; get_offset = 2 }

-- The receiver after the body has been handed on.
abbrev pub handed_on : Receiver → ℕ → List ℕ → Receiver
handed_on r n got = record r {
  buffer = align_buf (jump (complete r n got) n);
  state = read_packet_len;
  delivered = r.delivered ++ mixed r n got ∷ [];
}

process_waiting :
    (r : Receiver) (n : ℕ) (got : List ℕ)
    → IsWaiting n r
    → n < 2 ^ 15
    → process_one_packet (record r { buffer = complete r n got })
      ≡ some (record (handed_on r n got) { state = read_packet })
unfolding process_one_packet jump_buffer
process_waiting r n got w small = ground arith

second_parse :
    (r : Receiver) (n : ℕ) (got : List ℕ) (fuel : ℕ)
    → IsWaiting n r
    → n < 2 ^ 15
    → parse_loop (suc (suc fuel)) (record r { buffer = complete r n got })
      ≡ returns (handed_on r n got) (code 0)
unfolding parse_loop read_body read_state packet_finished
second_parse r n got fuel w small =
    ground (arith, process_waiting r n got w small, consumed (store r.buffer.buffer 2 got) n small)

second_piece :
    (r : Receiver) (n : ℕ) (got : List ℕ)
    → IsWaiting n r
    → n < 2 ^ 15
    → r.buffer.offset + length got ≡ n + 2
    → recv_process (bytes got) r ≡ returns (handed_on r n got) (code 0)
unfolding parse
second_piece r n got w small e =
    recv_process-parse got r (omega arith) (omega arith) (omega arith)
    ∙ ap (λ b. parse (record r { buffer = b }))
        (refilled_waiting r.buffer got w.read w.some_body (omega arith)
          ∙ ap (λ o. record { buffer = store r.buffer.buffer 2 got; offset = o; get_offset = 2 }) e)
    ∙ ap (λ f. parse_loop f (record r { buffer = complete r n got })) {x = suc (n + 2)}
        {y = suc (suc (n + 1))} (omega arith)
    ∙ second_parse r n got (n + 1) w small

-- What comes of a frame in two pieces: two receivers, and one message, which begins with the body's end.
pub record SplitFrame (r : Receiver) (body : List ℕ) (j : ℕ) : Type 0 where
  pub waiting : Receiver
  pub final : Receiver
  pub message : List ℕ
  pub first :
      recv_process (bytes (wire w16 (length body + 2) ++ take j body)) r ≡ returns waiting (code 1)
  pub second : recv_process (bytes (drop j body)) waiting ≡ returns final (code 0)
  pub handed : final.delivered ≡ r.delivered ++ message ∷ []
  pub size : length message ≡ length body
  pub overwritten : take (length body - j) message ≡ drop j body

-- A frame with a body shorter than 2^15 that comes in two pieces, cut behind at least one byte of
-- its body and before its last, to a receiver between frames with an empty buffer, is handed on as
-- a message of the right size whose front is the end of the body: the second recv writes over the
-- first bytes of the body.
pub split_frame :
    (r : Receiver) (body : List ℕ) (j : ℕ)
    → IsReady r
    → r.buffer.offset ≡ 0
    → length body < 2 ^ 15
    → 0 < j
    → j < length body
    → SplitFrame r body j
split_frame r body j ready empty small some_byte before_end =
    let n = length body in
    let head = take j body in
    let rest = drop j body in
    let got = wire w16 (n + 2) ++ head in
    let waiting = awaiting (filled r got) n in
    let length_head : length head ≡ j = omega (arith, length-take j body) in
    let length_rest : length rest ≡ n - j = length-drop j body in
    let w : IsWaiting n waiting = record {
      state = refl;
      total = refl;
      size = refl;
      read = refl;
      some_body = omega arith;
      not_all = omega arith;
    } in
    record {
      waiting = waiting;
      final = handed_on waiting n rest;
      message = mixed waiting n rest;
      first = first_piece r n head ready empty small (omega arith);
      second = second_piece waiting n rest w small (omega arith);
      handed = refl;
      size = length-load _ 2 n;
      overwritten =
          ap (λ k. take (n - j) (load (store waiting.buffer.buffer 2 rest) 2 k)) {x = n}
            {y = (n - j) + j} (omega arith)
          ∙ take-load (store waiting.buffer.buffer 2 rest) 2 (n - j) j
          ∙ ap (load (store waiting.buffer.buffer 2 rest) 2) (sym length_rest)
          ∙ load-store waiting.buffer.buffer 2 rest;
    }

-- A whole frame in the buffer of a receiver between frames whose body has 2^15 bytes or more, and
-- less than 2^16 - 2, makes m_iDataSize, a short, negative: the copy into the message is made with
-- a negative size.
pub parse_oversized :
    (r : Receiver) (n : ℕ) (tail : List ℕ)
    → IsReady r
    → 2 ^ 15 ≤ n
    → n + 2 < 2 ^ 16
    → unread r.buffer ≡ wire w16 (n + 2) ++ tail
    → n ≤ length tail
    → parse r ≡ faults
unfolding parse parse_loop read_body packet_finished process_one_packet finish
parse_oversized r n tail ready big small e whole =
    ground (arith, read_state-awaiting r n tail ready small e, field_within r n tail ready small e)
