-- ===== src/Task/Stream.antt =====
-- The send loop of common/basetask.cpp, over any `SendData`.
use websocket_test.Base.{
  ℕ, zero, suc, ◌≡◌, ◌≢◌, refl, ◌∙◌, arith, Option, none, some, List, [], ◌∷◌, ◌++◌, if◌then◌else◌,
  Status, failed, code, ap,
}
use websocket_test.Epoll.{reading, modify_from_epoll}
use websocket_test.Task.{
  SendMsg, Link, get_msg_from_send_list, send_popped, send_round_of, send_round, send_loop,
  send_process, ends_loop,
}

-- The bodies of queued messages, in order.
abbrev pub bodies : List SendMsg → List ℕ
bodies [] = []
bodies (m ∷ ms) = m.body ++ bodies ms

-- `SendProcess` a number of times.
module _ {S : Type 0} (send_data : SendMsg → Link S → Link S × Status) where
  unfoldable pub sends : ℕ → Link S → Link S
  sends zero l = l
  sends (suc n) l = sends n (send_process send_data l).0

module _ {S : Type 0} (send_data : SendMsg → Link S → Link S × Status) (P : Link S → Type 0) where
  -- What the loop needs of a subclass: `SendData` on the current message keeps `P`, and so does taking a
  -- message off the queue, and dropping the wish for EPOLLOUT once nothing is queued.
  pub record KeepsTurn : Type 0 where
    pub send : (m : SendMsg) (l : Link S) → l.task.cur_send_msg ≡ some m → P l → P (send_data m l).0
    pub pop :
        (m : SendMsg) (ms : List SendMsg) (l : Link S)
        → l.task.cur_send_msg ≡ none
        → l.task.send_list ≡ m ∷ ms
        → P l
        → P (record l { task = record l.task { send_list = ms; cur_send_msg = some m } })
    pub rest :
        (l : Link S)
        → l.task.cur_send_msg ≡ none
        → l.task.send_list ≡ []
        → P l
        → P (record l { epoll = modify_from_epoll l.task.socket reading l.epoll })

  module _ (keeps : KeepsTurn) where
    send_popped-keeps :
        (ms : List SendMsg) (l : Link S)
        → l.task.cur_send_msg ≡ none
        → l.task.send_list ≡ ms
        → P l
        → P (send_popped send_data (get_msg_from_send_list ms) l).0
    unfolding send_popped get_msg_from_send_list
    send_popped-keeps [] l e q p = keeps.rest l e q p
    send_popped-keeps (m ∷ ms) l e q p = keeps.send m _ refl (keeps.pop m ms l e q p)

    send_round_of-keeps :
        (cur : Option SendMsg) (l : Link S)
        → l.task.cur_send_msg ≡ cur
        → P l
        → P (send_round_of send_data cur l).0
    unfolding send_round_of
    send_round_of-keeps none l e p = send_popped-keeps l.task.send_list l e refl p
    send_round_of-keeps (some m) l e p = keeps.send m l e p

    pub send_round-keeps : (l : Link S) → P l → P (send_round send_data l).0
    unfolding send_round
    send_round-keeps l p = send_round_of-keeps l.task.cur_send_msg l refl p

    pub send_loop-keeps :
        (turns : ℕ) (last : Status) (l : Link S) → P l → P (send_loop send_data turns last l).0
    unfolding send_loop
    send_loop-keeps zero last l p = p
    send_loop-keeps (suc turns) last l p = ground (
      arith,
      send_round-keeps l p,
      send_loop-keeps turns (send_round send_data l).1 (send_round send_data l).0,
    )

    -- A whole `SendProcess` keeps it.
    pub send_process-keeps : (l : Link S) → P l → P (send_process send_data l).0
    unfolding send_process
    send_process-keeps l p = send_loop-keeps l.task.send_num (code 0) l p

    pub sends-keeps : (n : ℕ) (l : Link S) → P l → P (sends send_data n l)
    unfolding sends
    sends-keeps zero l p = p
    sends-keeps (suc n) l p = sends-keeps n (send_process send_data l).0 (send_process-keeps l p)

-- A turn with no current message: it takes the next one, or stops asking for EPOLLOUT.
module _ {S : Type 0} (send_data : SendMsg → Link S → Link S × Status) (l : Link S)
    (e : l.task.cur_send_msg ≡ none) where
  pub send_round_next :
      (m : SendMsg) (ms : List SendMsg)
      → l.task.send_list ≡ m ∷ ms
      → send_round send_data l
        ≡ send_data m (record l { task = record l.task { send_list = ms; cur_send_msg = some m } })
  unfolding send_round send_round_of send_popped get_msg_from_send_list
  send_round_next m ms q =
      ap (λ c. send_round_of send_data c l) e
      ∙ ap (λ ms'. send_popped send_data (get_msg_from_send_list ms') l) q

  pub send_round_idle :
      l.task.send_list ≡ []
      → send_round send_data l
        ≡ (record l { epoll = modify_from_epoll l.task.socket reading l.epoll }, code 2)
  unfolding send_round send_round_of send_popped get_msg_from_send_list
  send_round_idle q =
      ap (λ c. send_round_of send_data c l) e
      ∙ ap (λ ms'. send_popped send_data (get_msg_from_send_list ms') l) q

pub send_round-some :
    {S : Type 0} (send_data : SendMsg → Link S → Link S × Status) (l : Link S) (m : SendMsg)
    → l.task.cur_send_msg ≡ some m
    → send_round send_data l ≡ send_data m l
unfolding send_round send_round_of
send_round-some send_data l m e = ap (λ c. send_round_of send_data c l) e

-- One turn of the loop, at its result.
pub send_loop_step :
    {S : Type 0} (send_data : SendMsg → Link S → Link S × Status) (turns : ℕ) (last r : Status)
    (l l' : Link S)
    → send_round send_data l ≡ (l', r)
    → send_loop send_data (suc turns) last l
      ≡ (if ends_loop r then (l', r) else send_loop send_data turns r l')
unfolding send_loop
send_loop_step send_data turns last r l l' e =
    ap (λ p. if ends_loop p.1 then (p.0, p.1) else send_loop send_data turns p.1 p.0) e

-- A `SendData` that never returns -1 makes a `SendProcess` that never does.
module _ {S : Type 0} (send_data : SendMsg → Link S → Link S × Status)
    (never : (m : SendMsg) (l : Link S) → (send_data m l).1 ≢ failed) where
  send_popped-ne_failed :
      (ms : List SendMsg) (l : Link S)
      → (send_popped send_data (get_msg_from_send_list ms) l).1 ≢ failed
  unfolding send_popped get_msg_from_send_list
  send_popped-ne_failed [] l = ground arith
  send_popped-ne_failed (m ∷ ms) l = never m _

  send_round_of-ne_failed :
      (cur : Option SendMsg) (l : Link S) → (send_round_of send_data cur l).1 ≢ failed
  unfolding send_round_of
  send_round_of-ne_failed none l = send_popped-ne_failed l.task.send_list l
  send_round_of-ne_failed (some m) l = never m l

  send_loop-ne_failed :
      (turns : ℕ) (last : Status) (l : Link S)
      → last ≢ failed
      → (send_loop send_data turns last l).1 ≢ failed
  unfolding send_loop send_round
  send_loop-ne_failed zero last l h = h
  send_loop-ne_failed (suc turns) last l h =
      let now = send_round_of-ne_failed l.task.cur_send_msg l in
      ground (
        arith,
        now,
        send_loop-ne_failed turns (send_round send_data l).1 (send_round send_data l).0 now,
      )

  pub send_process-ne_failed : (l : Link S) → (send_process send_data l).1 ≢ failed
  unfolding send_process
  send_process-ne_failed l = send_loop-ne_failed l.task.send_num (code 0) l (λ e. cc e)
