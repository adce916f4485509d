-- ===== src/Task/Loop.antt =====
-- The event loop: `CEpoll::EpollWait` (common/myepoll.cpp) over tasks that share its interest list, each with
-- `CBaseTask::HandleProcess` of common/basetask.cpp, as a `CTcpTask` and a `CUdpTask` have it. A `CAcceptTask`, which
-- has its own `HandleProcess` (Sockets), is not among them: it deletes the task that it accepted before. A task is known by its descriptor, under which it is registered.
pub mod Safety
use websocket_test.Base.{
  ℕ, ◌≡◌, ◌≢◌, refl, sym, ap, ◌∙◌, subst, arith, Bool, true, false, ◌||◌, Option, none, some, List,
  [], ◌∷◌, ◌==◌, ==_iff, if◌then◌else◌, length, Status, failed, code, Bool-cases, inl, inr, All,
}
use websocket_test.Epoll.{
  Events, Interest, Ready, reading, find, remove, modify, modify_from_epoll, del_from_epoll,
  dispatch, epoll_wait,
}
use websocket_test.Epoll.Laws.{find-modify, find-remove}
use websocket_test.Task.{
  SendMsg, Link, Outcome, alive, destroyed, destroy_self, close_connect, on_failure, handle_output,
  handle_input, handle_process, send_process,
}
use websocket_test.Task.Stream.{KeepsTurn, send_process-keeps}

-- The tasks that are alive, and the interest list.
pub record Server (S : Type 0) : Type 0 where
  pub tasks : ℕ → Option (Link S)
  pub interest : Interest

module _ {S : Type 0} (send_data : SendMsg → Link S → Link S × Status)
    (recv_process : Link S → Link S × Status) where
  unfoldable pub put_task : ℕ → Option (Link S) → Server S → Server S
  put_task fd o s = record s { tasks = λ k. if k == fd then o else s.tasks k }

  unfoldable pub settled : ℕ → Server S → Outcome (Link S) → Server S
  settled fd s (alive l r) = record (put_task fd (some l) s) { interest = l.epoll }
  settled fd s (destroyed i) = record (put_task fd none s) { interest = i }

  unfoldable pub outcome : Events → Link S → Outcome (Link S)
  outcome e l = handle_process recv_process (send_process send_data) destroy_self e l

  -- A call through the pointer of a task that has been deleted has no result.
  unfoldable pub handled_by : Option (Link S) → ℕ → Events → Server S → Option (Server S)
  handled_by none fd e s = none
  handled_by (some l) fd e s = some (settled fd s (outcome e (record l { epoll = s.interest })))

  -- The call through the pointer, of a task that has `CBaseTask::HandleProcess`.
  unfoldable pub handle : ℕ → Events → Option (Server S) → Option (Server S)
  handle fd e none = none
  handle fd e (some s) = handled_by (s.tasks fd) fd e s

  -- `EpollWait` with what the kernel reports.
  unfoldable pub wait : Option (List Ready) → Server S → Option (Server S) × ℕ
  wait report s = epoll_wait handle report (some s)
