-- ===== src/Tcp.antt =====
-- `CTcpTask` of common/mytask.h and common/mytask.cpp: the sending half. The receiving half is `Tcp.Recv`.
pub mod Send
pub mod Drain
pub mod Progress
pub mod Recv
use websocket_test.Base.{
  ℕ, ◌+◌, ◌-◌, Bool, true, false, not, ◌||◌, Option, none, some, List, [], ◌∷◌, ◌++◌, ◌==◌, ltb,
  if◌then◌else◌, length, Status, failed, code, take, drop, add32, min,
}
use websocket_test.Task.{SendMsg, get_len, BaseTask, Link, next_reply, may_retry}

-- `SendData` with the message at `m_pCurSendMsg`: `send` hands the kernel what is left of it, and the
-- kernel takes at most that. [0, ok] [1, retry] [-1, error].
unfoldable pub send_data : SendMsg → Link ℕ → Link ℕ × Status
send_data m l =
    let t = l.task in
    let send_len = get_len m - t.cur_send_len in
    let (reply, rest) = next_reply l.replies in
    let ret_len = min reply.count send_len in
    let cur = add32 t.cur_send_len ret_len in
    let l' = record l { replies = rest } in
    let l'' = record l' { sent = l.sent ++ take ret_len (drop t.cur_send_len m.body) } in
    if ltb 0 ret_len
    then (if cur == get_len m
        then (record l'' { task = record t { cur_send_len = 0; cur_send_msg = none } }, code 0)
        else (record l'' { task = record t { cur_send_len = cur } }, code 1))
    else if may_retry reply.errno
    then (l', code 1)
    else (l', failed)
