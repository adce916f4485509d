-- ===== src/Task.antt =====
-- `CSendMsg` and `CBaseTask` of common/basetask.h and common/basetask.cpp: a task owns a socket and a
-- queue of messages to send. Logging and socket options have no effect on this state.
pub mod Stream
pub mod Armed
pub mod After
pub mod Loop
use websocket_test.Base.{
  ℕ, zero, suc, ◌+◌, ◌-◌, Bool, true, false, not, ◌||◌, ◌&&◌, Option, none, some, List, [], ◌∷◌,
  ◌++◌, ◌==◌, ltb, if◌then◌else◌, length, Status, failed, code,
}
use websocket_test.Epoll.{
  Events, reading, writing, Interest, add_to_epoll, del_from_epoll, modify_from_epoll,
}

-- `sockaddr_in`: the port in network order.
pub record Address : Type 0 where
  pub family : ℕ
  pub addr : ℕ
  pub port : ℕ

pub record SendMsg : Type 0 where
  pub body : List ℕ
  pub to_addr : Address

abbrev pub get_len : SendMsg → ℕ
get_len m = length m.body

-- `DEFAULT_SEND_NUM` of basetask.cpp.
abbrev pub default_send_num : ℕ
default_send_num = 20

abbrev pub default_recv_num : ℕ
default_recv_num = 2

-- A descriptor is `none` for -1, and a message pointer is `none` for NULL.
pub record BaseTask : Type 0 where
  pub send_list : List SendMsg
  pub cur_send_len : ℕ
  pub cur_send_msg : Option SendMsg
  pub send_num : ℕ
  pub recv_num : ℕ
  pub socket : Option ℕ

unfoldable pub new_task : Option ℕ → BaseTask
new_task fd = record {
  send_list = [];
  cur_send_len = 0;
  cur_send_msg = none;
  send_num = default_send_num;
  recv_num = default_recv_num;
  socket = fd;
}

-- What the kernel says to one `send`: how many bytes it takes (0 for a return value of 0 or less),
-- and `errno` afterwards.
pub data Errno : Type 0 where
  again interrupted other : Errno

pub record Reply : Type 0 where
  pub count : ℕ
  pub errno : Errno

-- A task with the kernel's interest list, the kernel's answers to come, and what it has sent so far.
pub record Link (S : Type 0) : Type 0 where
  pub task : BaseTask
  pub epoll : Interest
  pub replies : List Reply
  pub sent : List S

-- A kernel that has no more to say would block.
abbrev pub would_block : Reply
would_block = record { count = 0; errno = again }

abbrev pub next_reply : List Reply → Reply × List Reply
next_reply [] = (would_block, [])
next_reply (r ∷ rest) = (r, rest)

-- `errno == EAGAIN || errno == EINTR`.
abbrev pub may_retry : Errno → Bool
may_retry again = true
may_retry interrupted = true
may_retry other = false

-- `m_sendList.size() != 0 || m_pCurSendMsg != NULL`.
unfoldable pub has_pending : List SendMsg → Option SendMsg → Bool
has_pending (m ∷ ms) cur = true
has_pending [] (some m) = true
has_pending [] none = false

-- `PutMsgToSendList`; NULL is `none`.
module _ {S : Type 0} where
  pub put_msg_to_send_list : Option SendMsg → Link S → Link S × Status
  put_msg_to_send_list none l = (l, failed)
  put_msg_to_send_list (some m) l = if get_len m == 0 then (l, failed) else (
    record l {
      task = record l.task { send_list = l.task.send_list ++ m ∷ [] };
      epoll = modify_from_epoll l.task.socket writing l.epoll;
    },
    code 0,
  )

  -- `AddToEpoll` and `Init`.
  unfoldable pub init : Link S → Link S
  unfolding has_pending
  init l = record l {
    epoll =
        add_to_epoll l.task.socket
          (if has_pending l.task.send_list l.task.cur_send_msg then writing else reading) l.epoll;
  }

  -- `CloseConnect`.
  pub close_connect : Link S → Link S
  close_connect l = record l {
    task = record l.task { socket = none };
    epoll = del_from_epoll l.task.socket l.epoll;
  }

-- `GetMsgFromSendList`.
unfoldable pub get_msg_from_send_list : List SendMsg → Option SendMsg × List SendMsg
get_msg_from_send_list [] = (none, [])
get_msg_from_send_list (m ∷ ms) = (some m, ms)

-- `retValue == 2 || retValue == -1`.
abbrev pub ends_loop : Status → Bool
ends_loop failed = true
ends_loop (code n) = n == 2

-- `SendProcess`, over the subclass's `SendData`.
module _ {S : Type 0} (send_data : SendMsg → Link S → Link S × Status) where
  unfoldable pub send_popped : Option SendMsg × List SendMsg → Link S → Link S × Status
  send_popped (some m, ms) l =
      send_data m (record l { task = record l.task { send_list = ms; cur_send_msg = some m } })
  send_popped (none, ms) l =
      (record l { epoll = modify_from_epoll l.task.socket reading l.epoll }, code 2)

  unfoldable pub send_round_of : Option SendMsg → Link S → Link S × Status
  unfolding send_popped get_msg_from_send_list
  send_round_of (some m) l = send_data m l
  send_round_of none l = send_popped (get_msg_from_send_list l.task.send_list) l

  -- One turn of the loop.
  unfoldable pub send_round : Link S → Link S × Status
  unfolding send_round_of
  send_round l = send_round_of l.task.cur_send_msg l

  unfoldable pub send_loop : ℕ → Status → Link S → Link S × Status
  send_loop zero last l = (l, last)
  send_loop (suc turns) last l =
      let (l', ret) = send_round l in
      let rest = send_loop turns ret l' in if ends_loop ret then (l', ret) else rest

  unfoldable pub send_process : Link S → Link S × Status
  send_process l = send_loop l.task.send_num (code 0) l

-- `DestroySelf`: the connection is closed and the task is deleted; what stays is the interest list.
pub destroy_self : {S : Type 0} → Link S → Interest
unfolding close_connect
destroy_self l = (close_connect l).epoll

-- What a handler leaves: the task, or the interest list that a destroyed task leaves behind.
pub data Outcome (T : Type 0) : Type 0 where
  alive : T → Status → Outcome T
  destroyed : Interest → Outcome T

-- `HandleProcess`, over the subclass's `RecvProcess` and `SendProcess` and its state.
module _ {T : Type 0} (recv_process send : T → T × Status) (destroy : T → Interest) where
  on_failure : (T → Outcome T) → T × Status → Outcome T
  on_failure go_on (t, failed) = destroyed (destroy t)
  on_failure go_on (t, code n) = go_on t

  handle_output : Bool → T → Outcome T
  unfolding on_failure
  handle_output false t = alive t (code 0)
  handle_output true t = on_failure (λ t'. alive t' (code 0)) (send t)

  handle_input : Bool → Bool → T → Outcome T
  unfolding on_failure handle_output
  handle_input false output t = handle_output output t
  handle_input true output t = on_failure (handle_output output) (recv_process t)

  -- An error or a hang-up counts as input and output.
  pub handle_process : Events → T → Outcome T
  unfolding handle_input
  handle_process e t =
      let broken = e.error || e.hang_up in handle_input (e.input || broken) (e.output || broken) t
