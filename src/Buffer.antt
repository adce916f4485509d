-- ===== src/Buffer.antt =====
-- `CVBuffer` of common/buffer.h and common/buffer.cpp: a byte buffer of 64 KiB with a write position
-- and a read position. `memcpy` and the positions are written out; a position is an `unsigned int`.
pub mod Bytes
pub mod Order
pub mod Bounds
pub mod Fifo
pub mod Wire
use websocket_test.Base.{
  ℕ, ◌+◌, ◌-◌, ◌≤◌, Bool, true, false, ◌||◌, Option, none, some, List, [], ◌∷◌, ltb, leb, ◌==◌,
  if◌then◌else◌, length, add32, sub32,
}
use Bytes.{Memory, load, store}
use Order.{Width, w8, w16, w32, w64, size_of, host_bytes, from_host, to_network}

-- `MAX_CVBUFFER_SIZE`.
abbrev pub max_size : ℕ
max_size = 65536

pub record CvBuffer : Type 0 where
  pub buffer : Memory
  pub offset : ℕ
  pub get_offset : ℕ

-- `Clear` leaves the bytes where they are.
unfoldable pub clear : CvBuffer → CvBuffer
clear b = record b { offset = 0; get_offset = 0 }

-- A pointer argument is `none` for NULL, or the bytes that it points at; the size is their number.
unfoldable pub set_buffer : CvBuffer → Option (List ℕ) → CvBuffer × Bool
set_buffer b none = (b, false)
set_buffer b (some bytes) =
    if length bytes == 0
    then (b, false)
    else if ltb max_size (length bytes)
    then (b, false)
    else (record { buffer = store b.buffer 0 bytes; offset = length bytes; get_offset = 0 }, true)

unfoldable pub set_size : CvBuffer → ℕ → CvBuffer
set_size b size = record b { offset = size; get_offset = 0 }

unfoldable pub append : CvBuffer → Option (List ℕ) → CvBuffer × Bool
append b none = (b, false)
append b (some bytes) =
    if length bytes == 0
    then (b, false)
    else if ltb max_size (add32 b.offset (length bytes))
    then (b, false)
    else (
      record b { buffer = store b.buffer b.offset bytes; offset = add32 b.offset (length bytes) },
      true,
    )

-- `Set<type>`: the same guard, with no test for an empty value.
unfoldable pub set_raw : CvBuffer → List ℕ → CvBuffer × Bool
set_raw b bytes = if ltb max_size (add32 b.offset (length bytes)) then (b, false) else (
  record b { buffer = store b.buffer b.offset bytes; offset = add32 b.offset (length bytes) },
  true,
)

-- `Copy` with a pointer that is not NULL: the bytes that are copied out, or `none` for `false`.
unfoldable pub copy : CvBuffer → ℕ → Option (List ℕ)
copy b len =
    if len == 0
    then none
    else if ltb b.offset (add32 b.get_offset len)
    then none
    else some (load b.buffer b.get_offset len)

advanced : CvBuffer → ℕ → Option (List ℕ) → CvBuffer × Option (List ℕ)
advanced b len none = (b, none)
advanced b len (some bytes) = (record b { get_offset = add32 b.get_offset len }, some bytes)

-- `Get(char*, unsigned)`: `Copy`'s tests and read, and then the read position moves.
unfoldable pub get : CvBuffer → ℕ → CvBuffer × Option (List ℕ)
unfolding advanced copy
get b len = advanced b len (copy b len)

-- `Get<type>`: no test for an empty read.
unfoldable pub get_raw : CvBuffer → ℕ → CvBuffer × Option (List ℕ)
get_raw b len =
    if ltb b.offset (add32 b.get_offset len)
    then (b, none)
    else (record b { get_offset = add32 b.get_offset len }, some (load b.buffer b.get_offset len))

-- `AlignBuf` moves what is unread to the front.
unfoldable pub align_buf : CvBuffer → CvBuffer
align_buf b =
    if leb b.get_offset b.offset
    then record {
      buffer = store b.buffer 0 (load b.buffer b.get_offset (b.offset - b.get_offset));
      offset = b.offset - b.get_offset;
      get_offset = 0;
    }
    else b

unfoldable pub add_data_size : CvBuffer → ℕ → CvBuffer
add_data_size b size = record b { offset = add32 b.offset size }

unfoldable pub jump : CvBuffer → ℕ → CvBuffer
jump b len =
    let moved = add32 b.get_offset len in
    record b { get_offset = if ltb b.offset moved then b.offset else moved }

-- `JumpBuffer`: the index into `m_Buffer` at which the returned pointer stands.
unfoldable pub jump_buffer : CvBuffer → ℕ
jump_buffer b = if ltb b.get_offset b.offset then b.get_offset else 0

unfoldable pub remain_size : CvBuffer → ℕ
remain_size b = if ltb b.get_offset b.offset then b.offset - b.get_offset else 0

-- `64*1024 - m_uOffset` in `unsigned int`.
unfoldable pub not_used_size : CvBuffer → ℕ
not_used_size b = sub32 max_size b.offset

-- `setTcpMsgLen` and `setMsgLen`: the first two bytes, in network order.
unfoldable pub set_msg_len : CvBuffer → ℕ → CvBuffer
set_msg_len b len = record b { buffer = store b.buffer 0 (host_bytes 2 (to_network w16 len)) }

unfoldable pub set_tlv_len : CvBuffer → ℕ → CvBuffer
set_tlv_len b len = record b { buffer = store b.buffer 0 (host_bytes 1 len) }

-- The markers of the private protocol; a marker that does not fit is left out.
unfoldable pub marked : ℕ → CvBuffer → CvBuffer
marked c b = (set_raw b (c ∷ [])).0

unfoldable pub with_room_for_len : CvBuffer → CvBuffer
with_room_for_len b = (set_raw b (0 ∷ 0 ∷ [])).0

unfoldable pub updastart : CvBuffer → CvBuffer
updastart b = marked 10 b

unfoldable pub start : CvBuffer → CvBuffer
start b = marked 2 (with_room_for_len b)

unfoldable pub astart : CvBuffer → CvBuffer
astart b = marked 10 (with_room_for_len b)

unfoldable pub bstart : CvBuffer → CvBuffer
bstart b = marked 11 (with_room_for_len b)

unfoldable pub end_mark : CvBuffer → CvBuffer
end_mark b = marked 3 b

-- `operator<<`: the value is swapped by its width, and its bytes in memory are appended.
unfoldable pub put_value : Width → CvBuffer → ℕ → CvBuffer
unfolding append
put_value w b v = (append b (some (host_bytes (size_of w) (to_network w v)))).0

taken : Width → CvBuffer × Option (List ℕ) → CvBuffer × ℕ
taken w (b, none) = (b, 0)
taken w (b, some bytes) = (b, to_network w (from_host bytes))

-- `operator>>`: the value is 0 where the read fails.
unfoldable pub take_value : Width → CvBuffer → CvBuffer × ℕ
unfolding taken get
take_value w b = taken w (get b (size_of w))

stored : CvBuffer → ℕ → Option (List ℕ) → CvBuffer
stored b at none = b
stored b at (some bytes) = record b { buffer = store b.buffer at bytes }

-- `storageData`: a length field in front, and that many bytes taken out of the other buffer. Both
-- buffers come back.
unfoldable pub storage_data : Width → CvBuffer → ℕ → CvBuffer → CvBuffer × CvBuffer
unfolding clear put_value stored get
storage_data w b len from =
    let head = put_value w (clear b) len in
    let sized = record head { offset = add32 len (size_of w); get_offset = 0 } in
    let (from', bytes) = get from len in (stored sized (size_of w) bytes, from')
