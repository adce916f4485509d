-- ===== src/Sockets/Accepted.antt =====
-- `CAcceptTask::HandleProcess` of common/mytask.cpp: the descriptor that is waited on.
use websocket_test.Base.{
  ℕ, ◌≡◌, ◌≢◌, sym, ◌∙◌, Bool, true, false, Option, none, some, List, if◌then◌else◌, Status,
}
use websocket_test.Epoll.{Events, Interest, reading, find}
use websocket_test.Epoll.Laws.{find-add_to_epoll, find-add_to_epoll_other}
use websocket_test.Task.{new_task}
use websocket_test.Sockets.{
  Selected, wait_writable, start, connect, started, long_con_init, Server, replace_instance,
  replaced, accept_one,
}

-- The events that the kernel reports for a descriptor, once a round of the loop is over.
abbrev pub waits_on : ℕ → Option Server → Option Events
waits_on fd none = none
waits_on fd (some s) = find fd s.epoll

-- The first connection accepted is waited on only if the timeout, which its task's constructor
-- leaves unset, is negative; otherwise a new socket's descriptor is waited on instead. Both
-- descriptors are new to the interest list, they differ, and Connect returns.
pub first_accepted :
    (fd other : ℕ) (negative : Bool) (selects : List Selected) (epoll : Interest) (fds : List ℕ)
    (r : Status)
    → fd ≢ other
    → find fd epoll ≡ none
    → find other epoll ≡ none
    → wait_writable selects ≡ some r
    → (waits_on fd (
          accept_one
            (record { fd = fd; negative = negative; socket = some other; selects = selects })
            (record { current = none; epoll = epoll; fds = fds }))
        ≡ (if negative then some reading else none))
      × (waits_on other (
            accept_one
              (record { fd = fd; negative = negative; socket = some other; selects = selects })
              (record { current = none; epoll = epoll; fds = fds }))
          ≡ (if negative then none else some reading))
unfolding accept_one replaced replace_instance long_con_init started connect start new_task
first_accepted fd other true selects epoll fds r ne e1 e2 w =
    (find-add_to_epoll fd reading epoll e1, find-add_to_epoll_other fd other reading epoll ne ∙ e2)
first_accepted fd other false selects epoll fds r ne e1 e2 w = rw w (
  find-add_to_epoll_other other fd reading epoll (λ e. ne (sym e)) ∙ e1,
  find-add_to_epoll other reading epoll e2,
)
