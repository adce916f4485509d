-- ===== src/Buffer/Bounds.antt =====
-- The positions of `CVBuffer` (common/buffer.cpp) and the bounds of its array.
use websocket_test.Base.{ℕ, ◌+◌, ◌^◌, ◌≤◌, ◌<◌, ◌≡◌, arith, some, true, List, [], ◌∷◌, length}
use websocket_test.Buffer.{
  CvBuffer, max_size, clear, set_buffer, append, get, align_buf, jump, set_raw, marked,
  with_room_for_len, start, astart, bstart, updastart, end_mark,
}
use websocket_test.Buffer.Bytes.{store_outside}

pub record IsValid (b : CvBuffer) : Type 0 where
  pub order : b.get_offset ≤ b.offset
  pub room : b.offset ≤ max_size

-- A length for which the sums of the guards do not wrap.
abbrev pub IsSmall : ℕ → Type 0
IsSmall n = n ≤ 2 ^ 31

pub clear-IsValid : (b : CvBuffer) → IsValid (clear b)
unfolding clear
clear-IsValid b = omega arith

pub append-IsValid :
    (b : CvBuffer) (bytes : List ℕ)
    → IsSmall (length bytes)
    → IsValid b
    → IsValid (append b (some bytes)).0
unfolding append
append-IsValid b bytes h v = ground arith

pub get-IsValid : (b : CvBuffer) (n : ℕ) → IsSmall n → IsValid b → IsValid (get b n).0
unfolding get
get-IsValid b n h v = ground arith

pub align_buf-IsValid : (b : CvBuffer) → IsValid b → IsValid (align_buf b)
unfolding align_buf
align_buf-IsValid b v = ground arith

pub jump-IsValid : (b : CvBuffer) (n : ℕ) → IsValid b → IsValid (jump b n)
unfolding jump
jump-IsValid b n v = ground arith

set_buffer-IsValid :
    (b : CvBuffer) (bytes : List ℕ) → IsValid b → IsValid (set_buffer b (some bytes)).0
unfolding set_buffer
set_buffer-IsValid b bytes v = ground arith

set_raw-IsValid :
    (b : CvBuffer) (bytes : List ℕ)
    → IsSmall (length bytes)
    → IsValid b
    → IsValid (set_raw b bytes).0
unfolding set_raw
set_raw-IsValid b bytes h v = ground arith

marked-IsValid : (c : ℕ) (b : CvBuffer) → IsValid b → IsValid (marked c b)
unfolding marked
marked-IsValid c b v = set_raw-IsValid b (c ∷ []) (omega arith) v

with_room-IsValid : (b : CvBuffer) → IsValid b → IsValid (with_room_for_len b)
unfolding with_room_for_len
with_room-IsValid b v = set_raw-IsValid b (0 ∷ 0 ∷ []) (omega arith) v

-- Loading, appending, reading, skipping (by any number), aligning, clearing, Set, and the markers
-- of the private protocol keep the positions of a valid buffer in order and within the array, for
-- appended and read lengths of at most 2^31.
pub operations-IsValid :
    (b : CvBuffer) (bytes : List ℕ) (n any : ℕ)
    → IsSmall (length bytes)
    → IsSmall n
    → IsValid b
    → IsValid (set_buffer b (some bytes)).0
      × IsValid (append b (some bytes)).0
      × IsValid (get b n).0
      × IsValid (jump b any)
      × IsValid (align_buf b)
      × IsValid (clear b)
      × IsValid (set_raw b bytes).0
      × (IsValid (start b)
          × IsValid (astart b)
          × IsValid (bstart b)
          × IsValid (updastart b)
          × IsValid (end_mark b))
unfolding start astart bstart updastart end_mark
operations-IsValid b bytes n any hb hn v = (
  set_buffer-IsValid b bytes v,
  append-IsValid b bytes hb v,
  get-IsValid b n hn v,
  jump-IsValid b any v,
  align_buf-IsValid b v,
  clear-IsValid b,
  set_raw-IsValid b bytes hb v,
  (
    marked-IsValid 2 (with_room_for_len b) (with_room-IsValid b v),
    marked-IsValid 10 (with_room_for_len b) (with_room-IsValid b v),
    marked-IsValid 11 (with_room_for_len b) (with_room-IsValid b v),
    marked-IsValid 10 b v,
    marked-IsValid 3 b v,
  ),
)

-- An append of at most 2^31 bytes to a valid buffer changes no byte at an index from 65536 on.
pub append-in_bounds :
    (b : CvBuffer) (bytes : List ℕ) (i : ℕ)
    → IsSmall (length bytes)
    → IsValid b
    → max_size ≤ i
    → (append b (some bytes)).0.buffer i ≡ b.buffer i
unfolding append
append-in_bounds b bytes i h v far = ground (arith, store_outside b.buffer b.offset bytes i)

-- The guard of `Append` is an `unsigned int` sum: from a length on that wraps it, the append goes
-- ahead although the bytes do not fit.
pub append_overflow :
    (b : CvBuffer) (bytes : List ℕ)
    → IsValid b
    → 0 < length bytes
    → length bytes < 2 ^ 32
    → 2 ^ 32 ≤ b.offset + length bytes
    → (append b (some bytes)).1 ≡ true
unfolding append
append_overflow b bytes v h k w = ground arith
