-- ===== src/Tcp/Drain.antt =====
-- `SendProcess` of a `CTcpTask` (common/mytask.cpp) under a kernel that takes what it is given.
use websocket_test.Base.{
  ℕ, zero, suc, ◌^◌, ◌≤◌, ◌<◌, ◌≡◌, refl, sym, subst, ap, ◌∙◌, arith, none, some, List, [], ◌∷◌,
  ◌++◌, length, append_assoc, append-nil, Status, code, take_all,
}
use websocket_test.Task.{SendMsg, Link, Reply, send_loop, send_process}
use websocket_test.Task.Stream.{bodies, send_round_next, send_round_idle, send_loop_step}
use websocket_test.Tcp.{send_data}
use websocket_test.Tcp.Send.{AllSendable, pending, remaining}

-- One answer for each message, which takes all of it.
abbrev pub Willing : List SendMsg → List Reply → Type 0
Willing [] rs = Unit {0}
Willing (m ∷ ms) [] = ⊥
Willing (m ∷ ms) (r ∷ rs) = (length m.body ≤ r.count) × Willing ms rs

-- The link after a whole message has gone.
abbrev sent_one : SendMsg → List SendMsg → List Reply → Link ℕ → Link ℕ
sent_one m ms rs l = record l {
  task = record l.task { send_list = ms; cur_send_msg = none; cur_send_len = 0 };
  replies = rs;
  sent = l.sent ++ m.body;
}

send_whole :
    (m : SendMsg) (ms : List SendMsg) (r : Reply) (rs : List Reply) (l : Link ℕ)
    → l.task.cur_send_len ≡ 0
    → l.replies ≡ r ∷ rs
    → 0 < length m.body
    → length m.body < 2 ^ 32
    → length m.body ≤ r.count
    → send_data m (record l { task = record l.task { send_list = ms; cur_send_msg = some m } })
      ≡ (sent_one m ms rs l, code 0)
unfolding send_data
send_whole m ms r rs l z e pos small enough = ground (arith, take_all (length m.body) m.body)

-- What a link with nothing left to send looks like, after it has sent `all`.
pub record Drained (all : List ℕ) (out : Link ℕ × Status) : Type 0 where
  pub idle : out.1 ≡ code 2
  pub nothing_pending : pending out.0.task ≡ []
  pub all_sent : out.0.sent ≡ all

-- With a turn for each queued message and one more, and a kernel that takes each message whole,
-- the loop sends the queue in order and ends with 2, nothing pending.
pub send_loop-Drained :
    (turns : ℕ) (last : Status) (ms : List SendMsg) (rs : List Reply) (l : Link ℕ)
    → l.task.send_list ≡ ms
    → l.replies ≡ rs
    → l.task.cur_send_msg ≡ none
    → l.task.cur_send_len ≡ 0
    → AllSendable ms
    → Willing ms rs
    → length ms < turns
    → Drained (l.sent ++ bodies ms) (send_loop send_data turns last l)
send_loop-Drained zero last ms rs l q e c z s w h = absurd (omega arith)
send_loop-Drained (suc turns) last [] rs l q e c z s w h =
    subst (Drained (l.sent ++ []))
      (sym (send_loop_step send_data turns last (code 2) l _ (send_round_idle send_data l c q)))
      (record {
        idle = refl;
        nothing_pending =
            ap (λ ms. remaining l.task.cur_send_len l.task.cur_send_msg ++ bodies ms) q
            ∙ ap (λ m. remaining l.task.cur_send_len m ++ []) c;
        all_sent = sym (append-nil l.sent);
      })
send_loop-Drained (suc turns) last (m ∷ ms) [] l q e c z s w h = absurd w
send_loop-Drained (suc turns) last (m ∷ ms) (r ∷ rs) l q e c z s w h =
    let next = sent_one m ms rs l in
    let gone = send_round_next send_data l c m ms q ∙ send_whole m ms r rs l z e s.0 s.1 w.0 in
    subst (λ out. Drained (l.sent ++ bodies (m ∷ ms)) out)
      (sym (send_loop_step send_data turns last (code 0) l next gone))
      (subst (λ all. Drained all (send_loop send_data turns (code 0) next))
        (append_assoc l.sent m.body (bodies ms))
        (send_loop-Drained turns (code 0) ms rs next refl refl refl refl s.2 w.1 (omega arith)))

-- A SendProcess of a task with no message begun and fewer messages queued than its rounds
-- (m_nSendNum), each of them not empty and shorter than 2^32, and with a kernel that takes each
-- whole, sends all of them in order, leaves nothing pending and reports that nothing is left.
send_process-Drained :
    (l : Link ℕ)
    → l.task.cur_send_msg ≡ none
    → l.task.cur_send_len ≡ 0
    → AllSendable l.task.send_list
    → Willing l.task.send_list l.replies
    → length l.task.send_list < l.task.send_num
    → Drained (l.sent ++ bodies l.task.send_list) (send_process send_data l)
unfolding send_process
send_process-Drained l c z s w h =
    send_loop-Drained l.task.send_num (code 0) l.task.send_list l.replies l refl refl c z s w h
