-- ===== src/Buffer/Fifo.antt =====
-- `CVBuffer` (common/buffer.cpp) beside a bounded queue of bytes: what is unread, oldest first.
use websocket_test.Base.{
  ℕ, ◌+◌, ◌-◌, ◌≤◌, ◌≡◌, refl, sym, zero, suc, ◌<◌, lt→ltb, ap, ap₂, ◌∙◌, arith, Bool, true, false,
  ◌&&◌, Option, none, some, List, [], ◌∷◌, ◌++◌, inl, min, drop_all, length, take, drop, leb,
  if◌then◌else◌, All,
}
use websocket_test.Buffer.{
  CvBuffer, jump_buffer, remain_size, get_raw, max_size, append, get, align_buf, jump,
}
use websocket_test.Buffer.Bounds.{
  IsValid, IsSmall, append-IsValid, get-IsValid, jump-IsValid, align_buf-IsValid,
}
use websocket_test.Buffer.Bytes.{
  load, store, length-load, load-append, load-store, load-store_outside, take-load, drop-load,
}

-- The bytes that have been appended and not yet read.
abbrev pub unread : CvBuffer → List ℕ
unread b = load b.buffer b.get_offset (b.offset - b.get_offset)

-- The specification: the unread bytes, and how many were read since the last compaction.
pub record Queue : Type 0 where
  pub bytes : List ℕ
  pub used : ℕ

pub data Op : Type 0 where
  put : List ℕ → Op
  take_out : ℕ → Op
  skip : ℕ → Op
  compact : Op

abbrev pub Reply : Type 0
Reply = Bool × List ℕ

pub room_for : Queue → ℕ → Bool
room_for q n = leb 1 n && leb (q.used + length q.bytes + n) max_size

-- A queue takes bytes while the read and the unread ones fit, and gives out as many as it has.
pub step : Queue → Op → Queue × Reply
unfolding room_for
step q (put bytes) =
    if room_for q (length bytes)
    then (record q { bytes = q.bytes ++ bytes }, (true, []))
    else (q, (false, []))
step q (take_out n) =
    if leb 1 n && leb n (length q.bytes)
    then (record { bytes = drop n q.bytes; used = q.used + n }, (true, take n q.bytes))
    else (q, (false, []))
step q (skip n) =
    (record { bytes = drop n q.bytes; used = q.used + min n (length q.bytes) }, (true, []))
step q compact = (record q { used = 0 }, (true, []))

answer : CvBuffer × Option (List ℕ) → CvBuffer × Reply
answer (b, none) = (b, (false, []))
answer (b, some bytes) = (b, (true, bytes))

-- The same calls on the buffer.
pub call : CvBuffer → Op → CvBuffer × Reply
unfolding answer
call b (put bytes) = let (b', done) = append b (some bytes) in (b', (done, []))
call b (take_out n) = answer (get b n)
call b (skip n) = (jump b n, (true, []))
call b compact = (align_buf b, (true, []))

abbrev pub view : CvBuffer → Queue
view b = record { bytes = unread b; used = b.get_offset }

abbrev pub IsSmallOp : Op → Type 0
IsSmallOp (put bytes) = IsSmall (length bytes)
IsSmallOp (take_out n) = IsSmall n
IsSmallOp (skip n) = IsSmall n
IsSmallOp compact = Unit {0}

pub length-unread : (b : CvBuffer) → length (unread b) ≡ b.offset - b.get_offset
length-unread b = length-load b.buffer b.get_offset (b.offset - b.get_offset)

pub unread-append :
    (b : CvBuffer) (bytes : List ℕ)
    → IsValid b
    → load (store b.buffer b.offset bytes) b.get_offset (b.offset + length bytes - b.get_offset)
      ≡ unread b ++ bytes
unread-append b bytes v =
    let m = store b.buffer b.offset bytes in
    let n = b.offset - b.get_offset in
    ap (load m b.get_offset) {x = b.offset + length bytes - b.get_offset} {y = n + length bytes}
      (omega arith)
    ∙ load-append m b.get_offset n (length bytes)
    ∙ ap₂ ◌++◌ (load-store_outside b.buffer b.offset bytes b.get_offset n (inl (omega arith))) (
        ap (λ k. load m k (length bytes)) {x = b.get_offset + n} {y = b.offset} (omega arith)
        ∙ load-store b.buffer b.offset bytes)

module _ (b : CvBuffer) (n : ℕ) (v : IsValid b) (h : n ≤ b.offset - b.get_offset) where
  left : ℕ
  left = b.offset - b.get_offset - n

  split : b.offset - b.get_offset ≡ n + left
  unfolding left
  split = omega arith

  pub take-unread : take n (unread b) ≡ load b.buffer b.get_offset n
  take-unread = rw split (take-load b.buffer b.get_offset n left)

  pub drop-unread :
      drop n (unread b) ≡ load b.buffer (b.get_offset + n) (b.offset - (b.get_offset + n))
  drop-unread =
      rw split (drop-load b.buffer b.get_offset n left)
      ∙ ap (load b.buffer (b.get_offset + n)) {x = left} {y = b.offset - (b.get_offset + n)}
          (unfold left in omega arith)

-- A read that the buffer can answer.
pub get_lem :
    (b : CvBuffer) (n : ℕ)
    → IsValid b
    → 1 ≤ n
    → n ≤ length (unread b)
    → (get b n ≡ (record b { get_offset = b.get_offset + n }, some (take n (unread b))))
      × (unread (record b { get_offset = b.get_offset + n }) ≡ drop n (unread b))
unfolding get
get_lem b n v one h = ground (arith, length-unread b, take-unread b n v, drop-unread b n v)

call-put :
    (b : CvBuffer) (bytes : List ℕ)
    → IsSmall (length bytes)
    → IsValid b
    → let (b', r) = call b (put bytes) in (view b', r) ≡ step (view b) (put bytes)
unfolding call step append
call-put b bytes h v = ground (arith, length-unread b, unread-append b bytes v)

call-take_out :
    (b : CvBuffer) (n : ℕ)
    → IsSmall n
    → IsValid b
    → let (b', r) = call b (take_out n) in (view b', r) ≡ step (view b) (take_out n)
unfolding call step get
call-take_out b n h v = ground (arith, length-unread b, take-unread b n v, drop-unread b n v)

jump_far :
    (b : CvBuffer) (n : ℕ)
    → b.offset - b.get_offset ≤ n
    → drop n (unread b) ≡ load b.buffer b.offset (b.offset - b.offset)
unfolding load
jump_far b n h =
    drop_all n (unread b) (omega (arith, length-unread b))
    ∙ ap (load b.buffer b.offset) {x = 0} {y = b.offset - b.offset} (omega arith)

call-skip :
    (b : CvBuffer) (n : ℕ)
    → IsSmall n
    → IsValid b
    → let (b', r) = call b (skip n) in (view b', r) ≡ step (view b) (skip n)
unfolding call step jump
call-skip b n h v = ground (arith, length-unread b, drop-unread b n v, jump_far b n)

compacted :
    (b : CvBuffer) → load (store b.buffer 0 (unread b)) 0 (b.offset - b.get_offset - 0) ≡ unread b
compacted b =
    ap (load (store b.buffer 0 (unread b)) 0) {x = b.offset - b.get_offset - 0}
      {y = length (unread b)} (omega (arith, length-unread b))
    ∙ load-store b.buffer 0 (unread b)

call-compact :
    (b : CvBuffer)
    → IsValid b
    → let (b', r) = call b compact in (view b', r) ≡ step (view b) compact
unfolding call step align_buf
call-compact b v = ground (arith, compacted b)

call-step :
    (b : CvBuffer) (op : Op)
    → IsSmallOp op
    → IsValid b
    → let (b', r) = call b op in (view b', r) ≡ step (view b) op
call-step b (put bytes) h v = call-put b bytes h v
call-step b (take_out n) h v = call-take_out b n h v
call-step b (skip n) h v = call-skip b n h v
call-step b compact h v = call-compact b v

call-IsValid : (b : CvBuffer) (op : Op) → IsSmallOp op → IsValid b → IsValid (call b op).0
unfolding call answer
call-IsValid b (put bytes) h v = append-IsValid b bytes h v
call-IsValid b (take_out n) h v = ground (arith, get-IsValid b n h v)
call-IsValid b (skip n) h v = jump-IsValid b n v
call-IsValid b compact h v = align_buf-IsValid b v

-- The parts of a view after a skip and a compaction, and a copy out from `JumpBuffer`.
pub unread-jump :
    (b : CvBuffer) (n : ℕ) → IsSmall n → IsValid b → unread (jump b n) ≡ drop n (unread b)
unfolding call step
unread-jump b n h v = ap (λ p. p.0.bytes) (call-skip b n h v)

pub unread-align_buf : (b : CvBuffer) → IsValid b → unread (align_buf b) ≡ unread b
unfolding call step
unread-align_buf b v = ap (λ p. p.0.bytes) (call-compact b v)

pub get_offset-align_buf : (b : CvBuffer) → IsValid b → (align_buf b).get_offset ≡ 0
unfolding call step
get_offset-align_buf b v = ap (λ p. p.0.used) (call-compact b v)

pub load-jump_buffer :
    (b : CvBuffer) (n : ℕ)
    → IsValid b
    → n ≤ length (unread b)
    → load b.buffer (jump_buffer b) n ≡ take n (unread b)
unfolding jump_buffer load
load-jump_buffer b zero v h = refl
load-jump_buffer b (suc n) v h =
    let more : b.get_offset < b.offset = omega (arith, length-unread b) in
    rw (lt→ltb b.get_offset b.offset more)
      (sym (take-unread b (suc n) v (omega (arith, length-unread b))))

pub length-unread-remain_size : (b : CvBuffer) → IsValid b → length (unread b) ≡ remain_size b
unfolding remain_size
length-unread-remain_size b v = ground (arith, length-unread b)

pub get_raw_lem :
    (b : CvBuffer) (n : ℕ)
    → IsValid b
    → n ≤ length (unread b)
    → (get_raw b n ≡ (record b { get_offset = b.get_offset + n }, some (take n (unread b))))
      × (unread (record b { get_offset = b.get_offset + n }) ≡ drop n (unread b))
unfolding get_raw
get_raw_lem b n v h = ground (arith, length-unread b, take-unread b n v, drop-unread b n v)

-- A client's calls in order, with what each returns.
pub run : CvBuffer → List Op → List Reply
run b [] = []
run b (op ∷ ops) = let (b', r) = call b op in r ∷ run b' ops

pub run_queue : Queue → List Op → List Reply
run_queue q [] = []
run_queue q (op ∷ ops) = let (q', r) = step q op in r ∷ run_queue q' ops

-- No sequence of appends, reads, skips and compactions (each of a length of at most 2^31) tells a
-- valid buffer from the bounded queue of its unread bytes.
pub run-run_queue :
    (ops : List Op) (b : CvBuffer)
    → All IsSmallOp ops
    → IsValid b
    → run b ops ≡ run_queue (view b) ops
unfolding run run_queue
run-run_queue [] b h v = refl
run-run_queue (op ∷ ops) b h v =
    rw (run-run_queue ops (call b op).0 h.1 (call-IsValid b op h.0 v)) (rw (← call-step b op h.0 v))
