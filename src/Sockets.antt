-- ===== src/Sockets.antt =====
-- How the tasks of common/mytask.cpp get their sockets: `CUdpTask::CreateBindSocket`,
-- `CAcceptTask::CreateListenSocket` and `HandleProcess`, `CLongConTask::Connect` and `Init`. What the
-- kernel answers is an argument. A Boolean argument is whether the call succeeds.
pub mod Setup
pub mod Accepted
use websocket_test.Base.{
  ℕ, Bool, true, false, not, Option, none, some, List, [], ◌∷◌, ◌==◌, if◌then◌else◌, Status, failed,
  code,
}
use websocket_test.Epoll.{Interest, del_from_epoll}
use websocket_test.Task.{BaseTask, Link, init, new_task}

-- A task, the kernel's interest list, and the descriptors that the process holds.
pub record Endpoint : Type 0 where
  pub task : BaseTask
  pub epoll : Interest
  pub fds : List ℕ

unfoldable pub close_fd : ℕ → List ℕ → List ℕ
close_fd fd [] = []
close_fd fd (x ∷ xs) = let rest = close_fd fd xs in if x == fd then rest else x ∷ rest

unfoldable pub is_open : ℕ → List ℕ → Bool
is_open fd [] = false
is_open fd (x ∷ xs) = if x == fd then true else is_open fd xs

-- `CBaseTask::Init`.
unfoldable pub start : Endpoint → Endpoint
unfolding init
start e =
    let linked : Link ℕ = record { task = e.task; epoll = e.epoll; replies = []; sent = [] } in
    record e { epoll = (init linked).epoll }

unfoldable pub take_socket : ℕ → Endpoint → Endpoint
take_socket fd e = record e { task = record e.task { socket = some fd } }

-- `if (iSocket) Init()`.
unfoldable pub start_unless_zero : ℕ → Endpoint → Endpoint
start_unless_zero fd e = if fd == 0 then e else start e

-- `CreateBindSocket`: the descriptor of `socket`, and whether `bind` succeeds.
unfoldable pub create_bind_socket : Option ℕ → Bool → Endpoint → Endpoint × Status
create_bind_socket none bound e = (e, failed)
create_bind_socket (some fd) true e =
    (start_unless_zero fd (take_socket fd (record e { fds = fd ∷ e.fds })), code 0)
create_bind_socket (some fd) false e = (record e { fds = close_fd fd (fd ∷ e.fds) }, failed)

-- `CreateListenSocket`; where `listen` fails the descriptor is not closed.
unfoldable pub listening : ℕ → Bool → Endpoint → Endpoint × Status
listening fd true e = (if fd == 0 then e else start (take_socket fd e), code 0)
listening fd false e = (e, failed)

unfoldable pub create_listen_socket : Option ℕ → Bool → Bool → Endpoint → Endpoint × Status
create_listen_socket none bound listens e = (e, failed)
create_listen_socket (some fd) true listens e = listening fd listens (record e { fds = fd ∷ e.fds })
create_listen_socket (some fd) false listens e =
    (record e { fds = close_fd fd (fd ∷ e.fds) }, failed)

-- What one `select` says: an error that is EINTR, another error, the timeout, or a writable socket.
pub data Selected : Type 0 where
  interrupted select_error timed_out writable : Selected

-- The loop of `Connect`; none while it waits.
unfoldable pub wait_writable : List Selected → Option Status
wait_writable [] = none
wait_writable (interrupted ∷ rest) = wait_writable rest
wait_writable (select_error ∷ rest) = some failed
wait_writable (timed_out ∷ rest) = some failed
wait_writable (writable ∷ rest) = some (code 0)

unfoldable pub opened : Option ℕ → List ℕ → List ℕ
opened none fds = fds
opened (some fd) fds = fd ∷ fds

-- `Connect`: whether the timeout is negative, and what `socket` gives, which is not checked.
unfoldable pub connect : Bool → Option ℕ → List Selected → Endpoint → Endpoint × Option Status
connect true fd selects e = (e, some failed)
connect false fd selects e = (
  record e { task = record e.task { socket = fd }; fds = opened fd e.fds },
  wait_writable selects,
)

-- `CLongConTask::Init`, which does not look at what `Connect` returns; none while that waits.
unfoldable pub started : Endpoint × Option Status → Option Endpoint
started (e, none) = none
started (e, some r) = some (start e)

unfoldable pub long_con_init : Bool → Option ℕ → List Selected → Endpoint → Option Endpoint
long_con_init negative fd selects e = started (connect negative fd selects e)

-- One connection that `accept` gives, with what `Connect` meets in the new task. The constructor
-- leaves the timeout unset, so whether it is negative is an argument.
pub record Accept : Type 0 where
  pub fd : ℕ
  pub negative : Bool
  pub socket : Option ℕ
  pub selects : List Selected

-- The process on the accepting side: `CMySingleton<CLongConTask>` holds one task.
pub record Server : Type 0 where
  pub current : Option BaseTask
  pub epoll : Interest
  pub fds : List ℕ

unfoldable pub close_socket : Option ℕ → List ℕ → List ℕ
close_socket none fds = fds
close_socket (some fd) fds = close_fd fd fds

-- `SetInstance` deletes the task that was there, whose destructor closes its socket; the kernel drops a
-- closed descriptor from the interest list.
unfoldable pub replace_instance : Option BaseTask → Endpoint → Server
replace_instance none e = record { current = some e.task; epoll = e.epoll; fds = e.fds }
replace_instance (some old) e = record {
  current = some e.task;
  epoll = del_from_epoll old.socket e.epoll;
  fds = close_socket old.socket e.fds;
}

unfoldable pub replaced : Option BaseTask → Option Endpoint → Option Server
replaced old none = none
replaced old (some e) = some (replace_instance old e)

-- One round of the loop in `CAcceptTask::HandleProcess`; none where `Connect` waits.
unfoldable pub accept_one : Accept → Server → Option Server
accept_one a s = replaced s.current (
    long_con_init a.negative a.socket a.selects
      (record { task = new_task (some a.fd); epoll = s.epoll; fds = a.fd ∷ s.fds }))

-- The loop, over what `accept` gives until it gives none.
unfoldable pub accept_rest : (Server → Option Server) → Option Server → Option Server
accept_rest rest none = none
accept_rest rest (some s) = rest s

unfoldable pub accept_all : List Accept → Server → Option Server
accept_all [] s = some s
accept_all (a ∷ rest) s = accept_rest (accept_all rest) (accept_one a s)

-- `HandleProcess`: nothing is accepted without EPOLLIN.
unfoldable pub accept_process : Bool → List Accept → Server → Option Server
accept_process true accepts s = accept_all accepts s
accept_process false accepts s = some s
