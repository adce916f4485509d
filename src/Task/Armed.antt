-- ===== src/Task/Armed.antt =====
-- The registration of a `CBaseTask` (common/basetask.cpp) for EPOLLOUT while a message waits.
use websocket_test.Base.{
  ℕ, ◌≡◌, refl, sym, ap, ap₂, ◌∙◌, arith, Bool, true, false, Option, none, some, List, [], ◌∷◌,
  ◌==◌, if◌then◌else◌, inl, inr, Bool-cases, Status, subst,
}
use websocket_test.Epoll.{
  Events, reading, writing, Interest, find, modify_from_epoll, add_to_epoll, modify,
}
use websocket_test.Epoll.Laws.{find-modify, find-add}
use websocket_test.Task.{SendMsg, get_len, BaseTask, Link, has_pending, put_msg_to_send_list, init}
use websocket_test.Task.Stream.{KeepsTurn}

abbrev pub IsPending : BaseTask → Type 0
IsPending t = has_pending t.send_list t.cur_send_msg ≡ true

-- The socket is registered, for EPOLLOUT too if anything waits.
abbrev pub IsArmedFor : Bool → Option Events → Type 0
IsArmedFor waits none = ⊥
IsArmedFor true (some e) = e.output ≡ true
IsArmedFor false (some e) = Unit {0}

pub record IsArmed {S : Type 0} (fd : ℕ) (l : Link S) : Type 0 where
  pub open_socket : l.task.socket ≡ some fd
  pub armed : IsArmedFor (has_pending l.task.send_list l.task.cur_send_msg) (find fd l.epoll)

-- A registration that lets the task write serves whatever waits.
abbrev pub IsWriting : Option Events → Type 0
IsWriting = IsArmedFor true

writing-any : (b : Bool) (o : Option Events) → IsWriting o → IsArmedFor b o
writing-any b none h = absurd h
writing-any true (some e) h = h
writing-any false (some e) h = tt

modified : Events → Option Events → Option Events
modified e none = none
modified e (some old) = some e

find-modify_self :
    (fd : ℕ) (e : Events) (i : Interest) → find fd (modify fd e i) ≡ modified e (find fd i)
unfolding modified
find-modify_self fd e i = ground (arith, find-modify fd fd e i)

modified-writing : (w : Bool) (o : Option Events) → IsArmedFor w o → IsWriting (modified writing o)
unfolding modified
modified-writing w none h = h
modified-writing w (some e) h = refl

modified-reading :
    (w : Bool) (o : Option Events) → IsArmedFor w o → IsArmedFor false (modified reading o)
unfolding modified
modified-reading w none h = h
modified-reading w (some e) h = tt

module _ {S : Type 0} (fd : ℕ) (l : Link S) (a : IsArmed fd l) where
  -- `ModifyFromEpoll` through the task's own descriptor.
  modified_epoll :
      (e : Events)
      → find fd (modify_from_epoll l.task.socket e l.epoll) ≡ modified e (find fd l.epoll)
  unfolding modify_from_epoll
  modified_epoll e =
      ap (λ s. find fd (modify_from_epoll s e l.epoll)) a.open_socket
      ∙ find-modify_self fd e l.epoll

  pub now-writing :
      (b : Bool) → IsArmedFor b (find fd (modify_from_epoll l.task.socket writing l.epoll))
  now-writing b =
      writing-any b _
        (subst IsWriting (sym (modified_epoll writing)) (modified-writing _ _ a.armed))

  pub now-reading : IsArmedFor false (find fd (modify_from_epoll l.task.socket reading l.epoll))
  now-reading =
      subst (IsArmedFor false) (sym (modified_epoll reading)) (modified-reading _ _ a.armed)

  -- While something waits, the registration stands for any later state of the queue.
  pub still-armed : (b : Bool) → IsPending l.task → IsArmedFor b (find fd l.epoll)
  still-armed b w = writing-any b _ (subst (λ p. IsArmedFor p (find fd l.epoll)) w a.armed)

-- `PutMsgToSendList` of any message, accepted or refused, keeps the task armed.
pub put_msg_to_send_list-IsArmed :
    {S : Type 0} (fd : ℕ) (m : Option SendMsg) (l : Link S)
    → IsArmed fd l
    → IsArmed fd (put_msg_to_send_list m l).0
unfolding put_msg_to_send_list
put_msg_to_send_list-IsArmed fd none l a = a
put_msg_to_send_list-IsArmed fd (some m) l a = elim (Bool-cases (get_len m == 0)) [
  | inl empty ↦ rw empty a
  | inr full ↦ rw full (record { open_socket = a.open_socket; armed = now-writing fd l a _ })
]

initially :
    (b : Bool) (fd : ℕ) (i : Interest)
    → find fd i ≡ none
    → IsArmedFor b (find fd (add_to_epoll (some fd) (if b then writing else reading) i))
unfolding add_to_epoll
initially b fd i f =
    subst (IsArmedFor b) {x = some (if b then writing else reading)}
      (sym (ground (arith, find-add fd fd (if b then writing else reading) i))) (chosen b)
  where
    chosen : (b : Bool) → IsArmedFor b (some (if b then writing else reading))
    chosen true = refl
    chosen false = tt

-- `Init` arms a task whose socket is not yet registered, whatever it has queued.
pub init-IsArmed :
    {S : Type 0} (fd : ℕ) (l : Link S)
    → l.task.socket ≡ some fd
    → find fd l.epoll ≡ none
    → IsArmed fd (init l)
unfolding init
init-IsArmed fd l e f =
    let waits = has_pending l.task.send_list l.task.cur_send_msg in
    record {
      open_socket = e;
      armed =
          subst
            (λ s.
              IsArmedFor waits
                (find fd (add_to_epoll s (if waits then writing else reading) l.epoll)))
            (sym e) (initially waits fd l.epoll f);
    }

has_pending_current : (ms : List SendMsg) (m : SendMsg) → has_pending ms (some m) ≡ true
unfolding has_pending
has_pending_current [] m = refl
has_pending_current (x ∷ ms) m = refl

module _ {S : Type 0} (send_data : SendMsg → Link S → Link S × Status) (fd : ℕ) where
  abbrev waits_after : SendMsg → Link S → Bool
  waits_after m l = has_pending (send_data m l).0.task.send_list (send_data m l).0.task.cur_send_msg

  -- A `SendData` that leaves the registration and the socket alone keeps the task armed through the loop.
  pub IsArmed-turns :
      ((m : SendMsg) (l : Link S)
        → ((send_data m l).0.epoll ≡ l.epoll) × ((send_data m l).0.task.socket ≡ l.task.socket))
      → KeepsTurn send_data (IsArmed fd)
  unfolding has_pending
  IsArmed-turns same = record {
    send = λ m l e a. record {
      open_socket = (same m l).1 ∙ a.open_socket;
      armed =
          subst (λ i. IsArmedFor (waits_after m l) (find fd i)) (sym (same m l).0)
            (still-armed fd l a (waits_after m l)
              (ap (has_pending l.task.send_list) e ∙ has_pending_current l.task.send_list m));
    };
    pop = λ m ms l e q a. record {
      open_socket = a.open_socket;
      armed = still-armed fd l a _ (ap (λ ms'. has_pending ms' l.task.cur_send_msg) q);
    };
    rest = λ l e q a. record {
      open_socket = a.open_socket;
      armed =
          subst (λ b. IsArmedFor b (find fd (modify_from_epoll l.task.socket reading l.epoll)))
            (sym (ap₂ has_pending q e)) (now-reading fd l a);
    };
  }
