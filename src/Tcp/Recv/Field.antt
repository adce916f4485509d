-- ===== src/Tcp/Recv/Field.antt =====
-- The case `ReadPacketLen` of `CTcpTask::RecvProcess`, common/mytask.cpp.
use websocket_test.Base.{
  ℕ, ◌+◌, ◌^◌, ◌<◌, ◌≡◌, refl, ap, ap₂, ◌∙◌, arith, some, List, ◌++◌, length, take, drop,
  take-append, drop-append,
}
use websocket_test.Buffer.{get_raw}
use websocket_test.Buffer.Order.{w16}
use websocket_test.Buffer.Bounds.{IsValid}
use websocket_test.Buffer.Fifo.{unread, length-unread, get_raw_lem}
use websocket_test.Buffer.Wire.{wire, value_of_wire}
use websocket_test.Tcp.Recv.{read_packet_len, read_packet, Receiver, read_state, go_on}

-- Between frames: the read position is at the front.
pub record IsReady (r : Receiver) : Type 0 where
  pub valid : IsValid r.buffer
  pub aligned : r.buffer.get_offset ≡ 0
  pub state : r.state ≡ read_packet_len

-- After the length field of a body of `n` bytes: the receiver waits for the body.
abbrev pub awaiting : Receiver → ℕ → Receiver
awaiting r n = record r {
  buffer = record r.buffer { get_offset = 2 };
  total_len = n + 2;
  state = read_packet;
  data_size = n;
}

module _ (r : Receiver) (n : ℕ) (tail : List ℕ) (ready : IsReady r) (small : n + 2 < 2 ^ 16)
    (e : unread r.buffer ≡ wire w16 (n + 2) ++ tail) where
  pub length-field : length (unread r.buffer) ≡ 2 + length tail
  length-field = omega (arith, ap length e)

  field_read : get_raw r.buffer 2 ≡ (record r.buffer { get_offset = 2 }, some (wire w16 (n + 2)))
  field_read =
      (get_raw_lem r.buffer 2 ready.valid (omega (arith, length-field))).0
      ∙ ap₂ (λ g bs. (record r.buffer { get_offset = g }, some bs)) {x = r.buffer.get_offset + 2}
          {y = 2} (omega arith) (ap (take 2) e ∙ take-append 2 (wire w16 (n + 2)) tail refl)

  pub field_left : unread (awaiting r n).buffer ≡ tail
  field_left =
      ap (λ g. unread (record r.buffer { get_offset = g })) {x = 2} {y = r.buffer.get_offset + 2}
        (omega arith)
      ∙ (get_raw_lem r.buffer 2 ready.valid (omega (arith, length-field))).1
      ∙ ap (drop 2) e
      ∙ drop-append 2 (wire w16 (n + 2)) tail refl

  pub field_within : 2 + length tail ≡ r.buffer.offset
  field_within = omega (arith, length-field, length-unread r.buffer, ready.aligned)

  pub awaiting-IsValid : IsValid (awaiting r n).buffer
  awaiting-IsValid = let room = ready.valid.room in omega (arith, field_within)

  -- The field stands for the length of the frame, and the switch falls through to the body.
  pub read_state-awaiting : read_state r.state r ≡ go_on (awaiting r n)
  unfolding read_state
  read_state-awaiting =
      ap (λ s. read_state s r) ready.state
      ∙ ground (arith, field_read, field_within, value_of_wire w16 (n + 2) (omega arith))
