-- ===== src/Tcp/Recv.antt =====
-- `CTcpTask::RecvProcess`, `PacketFinished` and `ProcessOnePacket` of common/mytask.cpp: frames of a
-- two-byte length, which counts itself, and a body.
pub mod Field
pub mod Frames
pub mod Split
pub mod Total
pub mod Several
use websocket_test.Base.{
  ℕ, zero, suc, ◌+◌, ◌-◌, ◌*◌, ◌%◌, ◌^◌, Bool, true, false, not, ◌||◌, ◌&&◌, Option, none, some,
  List, [], ◌∷◌, ◌++◌, ◌==◌, ltb, leb, if◌then◌else◌, length, take, Status, failed, code, sub32,
}
use websocket_test.Buffer.{CvBuffer, max_size, get_raw, jump, align_buf, jump_buffer, add_data_size}
use websocket_test.Buffer.Bytes.{load, store}
use websocket_test.Buffer.Order.{w16, from_host, to_network}
use websocket_test.Task.{Errno, may_retry}

-- `enum State`.
pub data State : Type 0 where
  read_packet_len read_packet : State

-- The receiving fields of a `CTcpTask`, and the messages that it has handed to `CMyserver`.
-- `data_size` is the bit pattern of a `short`.
pub record Receiver : Type 0 where
  pub buffer : CvBuffer
  pub state : State
  pub data_size : ℕ
  pub total_len : ℕ
  pub delivered : List (List ℕ)

-- What `recv` says: bytes (none of them when the peer has closed), or a failure with its `errno`.
pub data RecvReply : Type 0 where
  bytes : List ℕ → RecvReply
  error : Errno → RecvReply

-- How the parsing ends: it returns; a copy with a negative size is made; or the fuel runs out.
pub data Parsed : Type 0 where
  returns : Receiver → Status → Parsed
  faults : Parsed
  unfinished : Parsed

-- `PacketFinished`.
pub packet_finished : Receiver → Bool
packet_finished r = leb r.total_len r.buffer.offset

-- `ProcessOnePacket`: `none` if `m_iDataSize`, a `short`, is negative.
pub process_one_packet : Receiver → Option Receiver
process_one_packet r =
    if leb (2 ^ 15) r.data_size
    then none
    else some (record r {
      delivered = r.delivered ++ load r.buffer.buffer (jump_buffer r.buffer) r.data_size ∷ [];
      buffer = align_buf (jump r.buffer r.data_size);
    })

length_field : Option (List ℕ) → ℕ
length_field none = to_network w16 0
length_field (some field) = to_network w16 (from_host field)

-- The case `ReadPacketLen`, up to the fall through: `inl` is a return.
pub data Read : Type 0 where
  stop : Receiver → Status → Read
  go_on : Receiver → Read

pub read_len : Receiver → Read
unfolding length_field
read_len r =
    let (b, field) = get_raw r.buffer 2 in
    let total = length_field field in
    let r' = record r { buffer = b; total_len = total } in
    if ltb r.buffer.offset 2
    then stop r (code 1)
    else if ltb (400 * 1024 * 1024) total || total == 0
    then stop r' failed
    else go_on (record r' { state = read_packet; data_size = (total + 2 ^ 16 - 2) % 2 ^ 16 })

-- The switch up to the second case.
pub read_state : State → Receiver → Read
unfolding read_len
read_state read_packet_len r = read_len r
read_state read_packet r = go_on r

finish : (Receiver → Parsed) → Option Receiver → Parsed
finish next none = faults
finish next (some r) = next (record r { state = read_packet_len })

-- The case `ReadPacket`, with the rest of the loop.
read_body : (Receiver → Parsed) → Read → Parsed
unfolding finish
read_body next (stop r ret) = returns r ret
read_body next (go_on r) =
    if packet_finished r then finish next (process_one_packet r) else returns r (code 1)

-- `while (m_vReceiveBuffer.getSize())`, on fuel.
pub parse_loop : ℕ → Receiver → Parsed
unfolding read_body
parse_loop zero r = unfinished
parse_loop (suc fuel) r =
    let body = read_body (parse_loop fuel) (read_state r.state r) in
    if r.buffer.offset == 0 then returns r (code 0) else body

-- The loop over what is in the buffer: a frame takes at least two bytes off it.
pub parse : Receiver → Parsed
unfolding parse_loop
parse r = parse_loop (suc r.buffer.offset) r

-- `recv` writes where `JumpBuffer` points, and at most what the array has room for behind `m_uOffset`.
pub recv_process : RecvReply → Receiver → Parsed
unfolding parse
recv_process (error e) r = if may_retry e then returns r (code 0) else returns r failed
recv_process (bytes sent) r =
    let u_max = sub32 max_size r.buffer.offset in
    let got = take u_max sent in
    let b = record r.buffer { buffer = store r.buffer.buffer (jump_buffer r.buffer) got } in
    if length got == 0 && not (u_max == 0)
    then returns r failed
    else parse (record r { buffer = add_data_size b (length got) })
