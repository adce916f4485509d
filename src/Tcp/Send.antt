-- ===== src/Tcp/Send.antt =====
-- `CTcpTask::SendData` of common/mytask.cpp within a whole `SendProcess`: the stream of bytes.
use websocket_test.Base.{
  ℕ, ◌+◌, ◌-◌, ◌^◌, ◌<◌, ◌≡◌, sym, ap, subst, ◌∙◌, arith, Option, none, some, List, [], ◌∷◌, ◌++◌,
  length, take, drop, take-append-drop, drop-drop, drop_all, append_assoc, min,
}
use websocket_test.Task.{SendMsg, Link, BaseTask, send_process, next_reply}
use websocket_test.Task.Stream.{bodies, KeepsTurn, send_process-keeps}
use websocket_test.Task.Armed.{IsArmed, IsArmed-turns}
use websocket_test.Tcp.{send_data}

-- What of the current message is still to be sent, and all that is.
abbrev pub remaining : ℕ → Option SendMsg → List ℕ
remaining n none = []
remaining n (some m) = drop n m.body

abbrev pub pending : BaseTask → List ℕ
pending t = remaining t.cur_send_len t.cur_send_msg ++ bodies t.send_list

-- The position lies within the current message, and is 0 where there is none.
abbrev pub Within : ℕ → Option SendMsg → Type 0
Within n none = n ≡ 0
Within n (some m) = (n < length m.body) × (length m.body < 2 ^ 32)

abbrev pub AllSendable : List SendMsg → Type 0
AllSendable [] = Unit {0}
AllSendable (m ∷ ms) = (0 < length m.body) × (length m.body < 2 ^ 32) × AllSendable ms

pub record IsSendable (t : BaseTask) : Type 0 where
  pub current : Within t.cur_send_len t.cur_send_msg
  pub queued : AllSendable t.send_list

-- The bytes accepted by the kernel, followed by those still pending, are a given stream.
pub record Streams (all : List ℕ) (l : Link ℕ) : Type 0 where
  pub sendable : IsSendable l.task
  pub stream : l.sent ++ pending l.task ≡ all

-- One `SendData`: the bytes that it takes move from the front of what remains to the end of what is sent.
taken_bytes :
    (n k : ℕ) (body rest sent : List ℕ)
    → (sent ++ take k (drop n body)) ++ (drop (n + k) body ++ rest) ≡ sent ++ (drop n body ++ rest)
taken_bytes n k body rest sent =
    append_assoc sent (take k (drop n body)) (drop (n + k) body ++ rest)
    ∙ ap (λ xs. sent ++ xs)
        (sym (append_assoc (take k (drop n body)) (drop (n + k) body) rest)
          ∙ ap (λ xs. (take k (drop n body) ++ xs) ++ rest) (sym (drop-drop n k body))
          ∙ ap (λ xs. xs ++ rest) (take-append-drop k (drop n body)))

taken_all :
    (n k : ℕ) (body rest sent : List ℕ)
    → n + k ≡ length body
    → (sent ++ take k (drop n body)) ++ rest ≡ sent ++ (drop n body ++ rest)
taken_all n k body rest sent e =
    sym (
      ap (λ xs. (sent ++ take k (drop n body)) ++ (xs ++ rest))
        (drop_all (n + k) body (omega arith)))
    ∙ taken_bytes n k body rest sent

send_data-Streams :
    (all : List ℕ) (m : SendMsg) (l : Link ℕ)
    → l.task.cur_send_msg ≡ some m
    → Streams all l
    → Streams all (send_data m l).0
unfolding send_data
send_data-Streams all m l e s =
    let n = l.task.cur_send_len in
    let k = min (next_reply l.replies).0.count (length m.body - n) in
    let stream : l.sent ++ (drop n m.body ++ bodies l.task.send_list) ≡ all =
      ap (λ c. l.sent ++ (remaining n c ++ bodies l.task.send_list)) (sym e) ∙ s.stream in
    let within : Within n (some m) = subst (Within n) e s.sendable.current in
    record {
      sendable = ground arith;
      stream = ground (
        arith,
        taken_bytes n k m.body (bodies l.task.send_list) l.sent,
        taken_all n k m.body (bodies l.task.send_list) l.sent,
      );
    }

-- Taking the next message off the queue changes where its bytes stand, and not the stream.
pop-Streams :
    (all : List ℕ) (m : SendMsg) (ms : List SendMsg) (l : Link ℕ)
    → l.task.cur_send_msg ≡ none
    → l.task.send_list ≡ m ∷ ms
    → Streams all l
    → Streams all (record l { task = record l.task { send_list = ms; cur_send_msg = some m } })
pop-Streams all m ms l e q s =
    let n = l.task.cur_send_len in
    let start : n ≡ 0 = subst (Within n) e s.sendable.current in
    let queued : AllSendable (m ∷ ms) = subst AllSendable q s.sendable.queued in
    record {
      sendable = record { current = omega arith; queued = queued.2 };
      stream =
          ap (λ k. l.sent ++ (drop k m.body ++ bodies ms)) start
          ∙ ap (λ ms'. l.sent ++ bodies ms') (sym q)
          ∙ ap (λ c. l.sent ++ (remaining n c ++ bodies l.task.send_list)) (sym e)
          ∙ s.stream;
    }

pub Streams-turns : (all : List ℕ) → KeepsTurn send_data (Streams all)
Streams-turns all = record {
  send = send_data-Streams all;
  pop = pop-Streams all;
  rest = λ l e q s. record { sendable = s.sendable; stream = s.stream };
}

-- Whatever the kernel answers (short writes, EAGAIN, EINTR, errors), over a whole SendProcess the
-- bytes that it has taken followed by the bytes still pending stay the same stream, and the queue
-- stays one that can be sent.
pub send_process-Streams :
    (all : List ℕ) (l : Link ℕ) → Streams all l → Streams all (send_process send_data l).0
send_process-Streams all = send_process-keeps send_data (Streams all) (Streams-turns all)

pub send_data_leaves :
    (m : SendMsg) (l : Link ℕ)
    → ((send_data m l).0.epoll ≡ l.epoll) × ((send_data m l).0.task.socket ≡ l.task.socket)
unfolding send_data
send_data_leaves m l = ground arith

-- No wake-up is lost: a task whose socket is registered, and for EPOLLOUT while anything waits, is
-- so registered after a whole SendProcess, whatever the kernel answers.
pub send_process-IsArmed :
    (fd : ℕ) (l : Link ℕ) → IsArmed fd l → IsArmed fd (send_process send_data l).0
send_process-IsArmed fd =
    send_process-keeps send_data (IsArmed fd) (IsArmed-turns send_data fd send_data_leaves)
