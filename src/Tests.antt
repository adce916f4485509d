-- ===== src/Tests.antt =====
-- Concrete inputs at which the theorems with hypotheses apply: the memory is zero, the bytes are few.
mod Buffers
mod Tasks
mod Queues
mod Hosts
mod Files
mod Logs
mod Pools
mod Requests
mod Loops
mod Web
mod Watchers
mod Sessions
use websocket_test.Base.{
  ℕ, zero, suc, ◌∷◌, ◌≡◌, refl, length, ◌≤◌, arith, Option, none, some, List, [],
}
use websocket_test.Buffer.{CvBuffer}
use websocket_test.Buffer.Bounds.{IsValid}
use websocket_test.Tcp.Recv.{Receiver, read_packet_len}
use websocket_test.Tcp.Recv.Field.{IsReady}
use websocket_test.Task.{BaseTask, Address, SendMsg}

-- An empty buffer.
abbrev pub empty : CvBuffer
empty = record { buffer = λ i. 0; offset = 0; get_offset = 0 }

pub empty-IsValid : IsValid empty
empty-IsValid = omega arith

abbrev pub somewhere : Address
somewhere = record { family = 2; addr = 16777343; port = 20480 }

abbrev pub message_of : List ℕ → SendMsg
message_of bytes = record { body = bytes; to_addr = somewhere }

-- A task at descriptor 5 with these messages queued.
abbrev pub task_with : List SendMsg → BaseTask
task_with ms = record {
  send_list = ms;
  cur_send_len = 0;
  cur_send_msg = none;
  send_num = 20;
  recv_num = 2;
  socket = some 5;
}

-- This many zeros.
pub zeros : ℕ → List ℕ
zeros zero = []
zeros (suc n) = 0 ∷ zeros n

pub length-zeros : (n : ℕ) → length (zeros n) ≡ n
unfolding zeros
length-zeros zero = refl
length-zeros (suc n) = omega (arith, length-zeros n)

-- A receiver between frames.
abbrev pub idle : Receiver
idle = record {
  buffer = empty;
  state = read_packet_len;
  data_size = 0;
  total_len = 0;
  delivered = [];
}

pub idle-IsReady : IsReady idle
idle-IsReady = record { valid = empty-IsValid; aligned = refl; state = refl }
