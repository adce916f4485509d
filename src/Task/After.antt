-- ===== src/Task/After.antt =====
-- `HandleProcess` of common/basetask.cpp: what is kept by receiving, sending and the end of a task.
use websocket_test.Base.{◌≡◌, ◌≢◌, refl, Bool, true, false, ◌||◌, Status, failed, code}
use websocket_test.Epoll.{Events, Interest}
use websocket_test.Task.{
  Link, Outcome, alive, destroyed, destroy_self, on_failure, handle_output, handle_input,
  handle_process,
}

-- What a handler leaves: a task with `P`, or an interest list with `Q`.
abbrev pub IsAfter :
    {S : Type 0} → (Link S → Type 0) → (Interest → Type 0) → Outcome (Link S) → Type 0
IsAfter P Q (alive l r) = P l
IsAfter P Q (destroyed i) = Q i

module _ {S : Type 0} (recv_process send : Link S → Link S × Status) (P : Link S → Type 0)
    (Q : Interest → Type 0) (recv-keeps : (l : Link S) → P l → P (recv_process l).0)
    (send-keeps : (l : Link S) → P l → P (send l).0)
    (destroy-keeps : (l : Link S) → P l → Q (destroy_self l)) where
  on_failure-IsAfter :
      (go_on : Link S → Outcome (Link S)) (l : Link S) (r : Status)
      → P l
      → IsAfter P Q (go_on l)
      → IsAfter P Q (on_failure recv_process send destroy_self go_on (l, r))
  unfolding on_failure
  on_failure-IsAfter go_on l failed p h = destroy-keeps l p
  on_failure-IsAfter go_on l (code n) p h = h

  handle_output-IsAfter :
      (b : Bool) (l : Link S) → P l → IsAfter P Q (handle_output recv_process send destroy_self b l)
  unfolding handle_output
  handle_output-IsAfter false l p = p
  handle_output-IsAfter true l p =
      on_failure-IsAfter (λ t. alive t (code 0)) (send l).0 (send l).1 (send-keeps l p)
        (send-keeps l p)

  handle_input-IsAfter :
      (b c : Bool) (l : Link S)
      → P l
      → IsAfter P Q (handle_input recv_process send destroy_self b c l)
  unfolding handle_input
  handle_input-IsAfter false c l p = handle_output-IsAfter c l p
  handle_input-IsAfter true c l p =
      on_failure-IsAfter (handle_output recv_process send destroy_self c) (recv_process l).0
        (recv_process l).1 (recv-keeps l p)
        (handle_output-IsAfter c (recv_process l).0 (recv-keeps l p))

  pub handle_process-IsAfter :
      (e : Events) (l : Link S)
      → P l
      → IsAfter P Q (handle_process recv_process send destroy_self e l)
  unfolding handle_process
  handle_process-IsAfter e l p =
      let broken = e.error || e.hang_up in
      handle_input-IsAfter (e.input || broken) (e.output || broken) l p

-- The socket can be written to, and nothing else has happened.
abbrev pub only_writable : Events
only_writable = record { input = false; output = true; error = false; hang_up = false }

-- `HandleProcess` then is a `SendProcess`, where that does not fail.
module _ {S : Type 0} (recv_process send : Link S → Link S × Status) where
  went_on :
      (go_on : Link S → Outcome (Link S)) (r : Link S × Status)
      → r.1 ≢ failed
      → on_failure recv_process send destroy_self go_on r ≡ go_on r.0
  unfolding on_failure
  went_on go_on (l, failed) h = absurd (h refl)
  went_on go_on (l, code n) h = refl

  pub handle_process-only_writable :
      (l : Link S)
      → (send l).1 ≢ failed
      → handle_process recv_process send destroy_self only_writable l ≡ alive (send l).0 (code 0)
  unfolding handle_process handle_input handle_output
  handle_process-only_writable l h = went_on (λ t. alive t (code 0)) (send l) h
