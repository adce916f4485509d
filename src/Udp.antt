-- ===== src/Udp.antt =====
-- `CUdpTask` of common/mytask.h and common/mytask.cpp: one datagram is one framed packet.
pub mod Datagrams
pub mod Send
use websocket_test.Base.{
  ℕ, ◌+◌, ◌-◌, ◌%◌, ◌^◌, Bool, true, false, Option, none, some, List, [], ◌∷◌, ◌++◌, ◌==◌, ltb, leb,
  if◌then◌else◌, length, Status, failed, code, take, min,
}
use websocket_test.Buffer.{CvBuffer, max_size, clear, get_raw, jump_buffer, add_data_size}
use websocket_test.Buffer.Bytes.{load, store}
use websocket_test.Buffer.Order.{w16, from_host, to_network}
use websocket_test.Task.{SendMsg, Address, get_len, Link, next_reply, may_retry}

-- The receiving fields, and the messages handed to `CMyserver`. `data_size` is an `unsigned short`.
pub record Receiver : Type 0 where
  pub buffer : CvBuffer
  pub data_size : ℕ
  pub delivered : List (List ℕ)

length_field : Option (List ℕ) → ℕ
length_field none = to_network w16 0
length_field (some field) = to_network w16 (from_host field)

-- `PacketFinished`, which also reads the length field and sets `m_iDataSize`.
pub packet_finished : Receiver → Receiver × Bool
unfolding length_field
packet_finished r =
    let (b, field) = get_raw r.buffer 2 in
    let s_len = length_field field in
    (record r { buffer = b; data_size = (s_len + 2 ^ 16 - 2) % 2 ^ 16 }, leb s_len r.buffer.offset)

-- `ProcessOnePacket`.
pub process_one_packet : Receiver → Receiver
process_one_packet r = record r {
  delivered = r.delivered ++ load r.buffer.buffer (jump_buffer r.buffer) r.data_size ∷ [];
}

-- What a `recvfrom` that returns bytes puts into the cleared buffer: at most its size.
received : List ℕ → Receiver → Receiver
received datagram r =
    let b = clear r.buffer in
    let got = take max_size datagram in
    record r {
      buffer =
          add_data_size (record b { buffer = store b.buffer (jump_buffer b) got }) (length got);
    }

handle_packet : Receiver → Receiver
unfolding packet_finished process_one_packet
handle_packet r = let (r', whole) = packet_finished r in if whole then process_one_packet r' else r'

-- One turn of the loop, for a datagram that is not empty.
pub recv_one : List ℕ → Receiver → Receiver
unfolding received handle_packet
recv_one datagram r = handle_packet (received datagram r)

-- `RecvProcess`: it returns at the first `recvfrom` that is 0 or less, whatever `errno` says. The list
-- is what the socket holds, and behind it the socket would block.
pub recv_process : List (List ℕ) → Receiver → Receiver
recv_process [] r = record r { buffer = clear r.buffer }
recv_process (datagram ∷ rest) r =
    let later = recv_process rest (recv_one datagram r) in
    if length datagram == 0 then record r { buffer = clear r.buffer } else later

-- A datagram on its way: where to, and its bytes.
pub record Datagram : Type 0 where
  pub destination : Address
  pub payload : List ℕ

-- `SendData` with the message at `m_pCurSendMsg`: the whole message each time, and a message that
-- cannot be sent is dropped.
unfoldable pub send_data : SendMsg → Link Datagram → Link Datagram × Status
send_data m l =
    let t = l.task in
    let (reply, rest) = next_reply l.replies in
    let ret_len = min reply.count (get_len m) in
    let l' = record l { replies = rest } in
    let out : Datagram = record { destination = m.to_addr; payload = take ret_len m.body } in
    if ltb 0 ret_len
    then (if ret_len == get_len m
        then (
          record l' {
            task = record t { cur_send_len = 0; cur_send_msg = none };
            sent = l.sent ++ out ∷ [];
          },
          code 0,
        )
        else (
          record l' { task = record t { cur_send_len = ret_len }; sent = l.sent ++ out ∷ [] },
          code 1,
        ))
    else if may_retry reply.errno
    then (record l' { task = record t { cur_send_len = 0 } }, code 1)
    else (record l' { task = record t { cur_send_len = 0; cur_send_msg = none } }, code 0)
