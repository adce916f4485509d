-- ===== src/Tests/Tasks.antt =====
-- The theorems on sending and receiving, at small inputs.
use websocket_test.Base.{
  ℕ, ◌≡◌, ◌≢◌, refl, ap, ◌∙◌, arith, List, [], ◌∷◌, ◌++◌, length, length-append,
}
use websocket_test.Tests.{
  idle, idle-IsReady, zeros, length-zeros, empty-IsValid, message_of, task_with,
}
use websocket_test.Buffer.Bytes.{store, load, load-store}
use websocket_test.Buffer.Order.{w16}
use websocket_test.Buffer.Wire.{wire, length-wire}
use websocket_test.Epoll.{writing, find}
use websocket_test.Task.{again, other, Reply, Link, send_process, has_pending}
use websocket_test.Task.Armed.{IsArmed}
use websocket_test.Tcp.{send_data}
use websocket_test.Tcp.Send.{Streams, send_process-Streams, send_process-IsArmed}
use websocket_test.Tcp.Recv.{Receiver, bytes, faults, unfinished, parse, recv_process}
use websocket_test.Tcp.Recv.Frames.{Received, frames, recv_process-Received}
use websocket_test.Tcp.Recv.Split.{SplitFrame, split_frame, parse_oversized}
use websocket_test.Tcp.Recv.Total.{parse-ends}

-- A full send, a short one, and a kernel that is busy.
abbrev replies : List Reply
replies =
    record { count = 2; errno = other }
    ∷ record { count = 1; errno = other }
    ∷ record { count = 0; errno = again }
    ∷ []

abbrev sending : Link ℕ
sending = record {
  task = task_with (message_of (1 ∷ 2 ∷ []) ∷ message_of (3 ∷ 4 ∷ 5 ∷ []) ∷ []);
  epoll = (5, writing) ∷ [];
  replies = replies;
  sent = [];
}

send_process-Streams_example : Streams (1 ∷ 2 ∷ 3 ∷ 4 ∷ 5 ∷ []) (send_process send_data sending).0
send_process-Streams_example = send_process-Streams (1 ∷ 2 ∷ 3 ∷ 4 ∷ 5 ∷ []) sending (record {
  sendable = record {
    current = refl;
    queued = (omega arith, omega arith, (omega arith, omega arith, tt));
  };
  stream = refl;
})

send_process-IsArmed_example : IsArmed 5 (send_process send_data sending).0
unfolding has_pending find
send_process-IsArmed_example =
    send_process-IsArmed 5 sending (record { open_socket = refl; armed = refl })

recv_process-Received_example :
    Received []
      ((1 ∷ 2 ∷ []) ∷ (3 ∷ []) ∷ [])
      (recv_process (bytes (frames ((1 ∷ 2 ∷ []) ∷ (3 ∷ []) ∷ []))) idle)
recv_process-Received_example =
    recv_process-Received ((1 ∷ 2 ∷ []) ∷ (3 ∷ []) ∷ []) idle idle-IsReady refl
      (omega arith, (omega arith, tt)) (omega arith) (omega arith)

split_frame_example : SplitFrame idle (1 ∷ 2 ∷ 3 ∷ 4 ∷ []) 2
split_frame_example =
    split_frame idle (1 ∷ 2 ∷ 3 ∷ 4 ∷ []) 2 idle-IsReady refl (omega arith) (omega arith)
      (omega arith)

parse-ends_example : parse idle ≢ unfinished
parse-ends_example = parse-ends idle (record { valid = empty-IsValid; inv = refl })

-- A frame with a body of 32768 bytes.
many : List ℕ
many = zeros 32768

length-many : length many ≡ 32768
unfolding many
length-many = length-zeros 32768

abbrev oversized : List ℕ
oversized = wire w16 32770 ++ many

abbrev holding_oversized : Receiver
holding_oversized = record idle {
  buffer = record { buffer = store (λ i. 0) 0 oversized; offset = 32770; get_offset = 0 };
}

length-oversized : length oversized ≡ 32770
length-oversized =
    length-append (wire w16 32770) many ∙ omega (arith, length-wire w16 32770, length-many)

parse_oversized_example : parse holding_oversized ≡ faults
parse_oversized_example =
    parse_oversized holding_oversized 32768 many
      (record { valid = omega arith; aligned = refl; state = refl }) (omega arith) (omega arith)
      (ap (load (store (λ i. 0) 0 oversized) 0) (omega (arith, length-oversized))
        ∙ load-store (λ i. 0) 0 oversized)
      (omega (arith, length-many))
