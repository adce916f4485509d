-- ===== src/Worker.antt =====
-- `CWorkThread` of common/work_thread.h and common/work_thread.cpp. Protobuf's `SSHead::ParseFromArray` and
-- `command`, and the dispatch service behind `GetUdpServerAddr`, are parameters.
pub mod Packet
pub mod Thread
use websocket_test.Base.{
  ℕ, ◌+◌, ◌-◌, Bool, true, false, not, ◌||◌, Option, none, some, List, [], ◌∷◌, ◌++◌, ◌==◌, zero,
  suc, if◌then◌else◌, length, ltb,
}
use websocket_test.Buffer.{CvBuffer, set_buffer, take_value, jump, jump_buffer, remain_size}
use websocket_test.Buffer.Bytes.{load}
use websocket_test.Buffer.Order.{w16}
use websocket_test.SynQueue.{max_queue_size}
use websocket_test.Registry.{Cmd, Callback, CmdMap, find}

-- `CDataOpBase`: `Process` with the command set gives `iRet`, 0 for success, and `strResult`.
pub record DataOp : Type 0 where
  pub process : ℕ → ℕ × List ℕ

-- `CDataObjectFactory::CreateDataObject` on the protocol buffer; NULL is `none`.
abbrev pub Factory : Type 0
Factory = List ℕ → Option DataOp

-- What `GetUdpServerAddr` finds.
pub record UdpServer : Type 0 where
  pub self_type : ℕ
  pub ip : List ℕ
  pub port : ℕ

-- What is handed to `SendToUdpServer`.
pub record Outgoing : Type 0 where
  pub cmd : ℕ
  pub result : List ℕ
  pub server : UdpServer

-- Why `Process` returns -1, and what it does where it returns 0.
pub data Outcome : Type 0 where
  bad_head bad_length unknown_command no_factory no_object process_error no_server : Outcome
  done : Option Outgoing → Outcome

module _ (parse_head : List ℕ → Option ℕ) (get_udp_server_addr : Option UdpServer)
    (commands : CmdMap Factory) where
  send_result : ℕ → List ℕ → Option UdpServer → Outcome
  send_result cmd [] server = done none
  send_result cmd (x ∷ xs) none = no_server
  send_result cmd (x ∷ xs) (some s) =
      done (some (record { cmd = cmd; result = x ∷ xs; server = s }))

  process_object : ℕ → Option DataOp → Outcome
  unfolding send_result
  process_object cmd none = no_object
  process_object cmd (some o) =
      let (ret, result) = o.process cmd in
      if ret == 0 then send_result cmd result get_udp_server_addr else process_error

  create_object : ℕ → List ℕ → Option Factory → Outcome
  unfolding process_object
  create_object cmd body none = no_factory
  create_object cmd body (some create) = process_object cmd (create body)

  pub call_back : ℕ → List ℕ → Option (Callback Factory) → Outcome
  unfolding create_object
  call_back cmd body none = unknown_command
  call_back cmd body (some c) = create_object cmd body c.factory

  -- Behind the head: its bytes are skipped, and the body's length has to be what is left.
  process_body : CvBuffer → ℕ → Option ℕ → Outcome
  unfolding call_back
  process_body b head_len none = bad_head
  process_body b head_len (some cmd) =
      let (b', body_len) = take_value w16 (jump b head_len) in
      let body = load b'.buffer (jump_buffer b') (remain_size b') in
      if remain_size b' == body_len
      then call_back cmd body (find (record { cmd = cmd; sub_cmd = 0 }) commands)
      else bad_length

  process_buffer : CvBuffer → Outcome
  unfolding process_body
  process_buffer b =
      let (b', head_len) = take_value w16 b in
      process_body b' head_len (parse_head (load b'.buffer (jump_buffer b') head_len))

  -- `Process`. The buffer is built on the stack: what `stack` holds stays where `setBuffer` refuses the
  -- message.
  pub process : CvBuffer → List ℕ → Outcome
  unfolding process_buffer
  process stack msg = process_buffer (set_buffer stack (some msg)).0

-- `CWorkThread`: its flag, the threads that are about to test the flag in `Run`, the threads that have
-- found it set and are in `get` or `Process`, its input list, and what `Process` made of each message.
pub record WorkThread : Type 0 where
  pub run_flag : Bool
  pub testing : ℕ
  pub working : ℕ
  pub msg_list : List (List ℕ)
  pub results : List Outcome

unfoldable pub new_thread : WorkThread
new_thread = record { run_flag = false; testing = 0; working = 0; msg_list = []; results = [] }

-- The calls of its public methods, and the steps of a thread in `Run`. `start` says whether
-- `pthread_create` makes the thread.
pub data Call : Type 0 where
  put_msg : List ℕ → Call
  stop : Call
  process_msg : List ℕ → Call
  start : Bool → Call
  run : Call
  test_flag : Call
  work : Call

-- `put`; where the queue is full it waits, and nothing is added.
unfoldable pub add_msg : List ℕ → WorkThread → WorkThread
add_msg m t =
    if ltb (length t.msg_list) (max_queue_size - 1)
    then record t { msg_list = t.msg_list ++ (m ∷ []) }
    else t

-- The loop's condition: the thread goes on to its body, or `Run` is over.
unfoldable pub loop_test : ℕ → WorkThread → WorkThread
loop_test zero t = t
loop_test (suc n) t =
    if t.run_flag
    then record t { testing = n; working = suc t.working }
    else record t { testing = n }

module _ (handle : List ℕ → Outcome) where
  -- A message is processed by the derived class's `Process`, or by the one above.
  unfoldable pub processed : List ℕ → WorkThread → WorkThread
  processed m t = record t { results = t.results ++ (handle m ∷ []) }

  take_msg : ℕ → List (List ℕ) → WorkThread → WorkThread
  unfolding processed
  take_msg n [] t = t
  take_msg n (m ∷ ms) t =
      processed m (record t { msg_list = ms; testing = suc t.testing; working = n })

  -- The loop's body, and back to its condition; at an empty list it waits in `get`.
  unfoldable pub loop_body : ℕ → WorkThread → WorkThread
  unfolding take_msg
  loop_body zero t = t
  loop_body (suc n) t = take_msg n t.msg_list t

  unfoldable pub thread_call : Call → WorkThread → WorkThread
  unfolding processed add_msg loop_test loop_body
  thread_call (put_msg m) t = add_msg m t
  thread_call stop t = record t { run_flag = false }
  thread_call (process_msg m) t = processed m t
  thread_call (start created) t = if created then record t { testing = suc t.testing } else t
  thread_call run t = record t { testing = suc t.testing }
  thread_call test_flag t = loop_test t.testing t
  thread_call work t = loop_body t.working t

  unfoldable pub thread_calls : List Call → WorkThread → WorkThread
  unfolding thread_call
  thread_calls [] t = t
  thread_calls (c ∷ cs) t = thread_calls cs (thread_call c t)
