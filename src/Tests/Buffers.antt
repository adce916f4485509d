-- ===== src/Tests/Buffers.antt =====
-- The theorems on `CVBuffer` and on receiving, at small inputs.
use websocket_test.Base.{◌≡◌, refl, arith, some, List, [], ◌∷◌}
use websocket_test.Tests.{empty, empty-IsValid}
use websocket_test.Buffer.{
  set_buffer, append, get, jump, align_buf, clear, set_raw, start, astart, bstart, updastart,
  end_mark,
}
use websocket_test.Buffer.Bytes.{load}
use websocket_test.Buffer.Order.{w8, w16, w32}
use websocket_test.Buffer.Bounds.{IsValid, operations-IsValid, append-in_bounds}
use websocket_test.Buffer.Fifo.{
  unread, Op, put, take_out, skip, compact, run, run_queue, view, run-run_queue,
}
use websocket_test.Buffer.Wire.{
  put_values, take_values, widths, values, Field, take_values-put_values,
}

abbrev ops : List Op
ops = put (1 ∷ 2 ∷ 3 ∷ []) ∷ take_out 2 ∷ compact ∷ skip 1 ∷ []

run-run_queue_example : run empty ops ≡ run_queue (view empty) ops
run-run_queue_example =
    run-run_queue ops empty (omega arith, (omega arith, (tt, (omega arith, tt)))) empty-IsValid

operations-IsValid_example :
    IsValid (set_buffer empty (some (7 ∷ []))).0
    × IsValid (append empty (some (7 ∷ []))).0
    × IsValid (get empty 3).0
    × IsValid (jump empty 9)
    × IsValid (align_buf empty)
    × IsValid (clear empty)
    × IsValid (set_raw empty (7 ∷ [])).0
    × (IsValid (start empty)
        × IsValid (astart empty)
        × IsValid (bstart empty)
        × IsValid (updastart empty)
        × IsValid (end_mark empty))
operations-IsValid_example =
    operations-IsValid empty (7 ∷ []) 3 9 (omega arith) (omega arith) empty-IsValid

append-in_bounds_example : (append empty (some (7 ∷ []))).0.buffer 65536 ≡ 0
append-in_bounds_example =
    append-in_bounds empty (7 ∷ []) 65536 (omega arith) empty-IsValid (omega arith)

abbrev fields : List Field
fields = (w8, 7) ∷ (w16, 258) ∷ (w32, 66051) ∷ []

take_values-put_values_example :
    ((take_values (widths fields) (put_values empty fields)).0 ≡ values fields)
    × (unread (take_values (widths fields) (put_values empty fields)).1 ≡ [])
unfolding load
take_values-put_values_example =
    take_values-put_values fields empty empty-IsValid refl
      (omega arith, (omega arith, (omega arith, tt))) (omega arith)
