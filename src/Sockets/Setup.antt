-- ===== src/Sockets/Setup.antt =====
-- `CreateBindSocket` and `CreateListenSocket` of common/mytask.cpp: who holds the descriptor.
use websocket_test.Base.{
  ℕ, ◌≡◌, ◌≢◌, refl, ap, arith, Bool, true, false, none, some, List, [], ◌∷◌, ◌==◌, Status, failed,
  code,
}
use websocket_test.Epoll.{reading, find}
use websocket_test.Epoll.Laws.{find-add_to_epoll}
use websocket_test.Sockets.{
  Endpoint, close_fd, is_open, start, take_socket, start_unless_zero, create_bind_socket, listening,
  create_listen_socket,
}

close_fd_fresh : (fd : ℕ) (xs : List ℕ) → is_open fd xs ≡ false → close_fd fd xs ≡ xs
unfolding close_fd is_open
close_fd_fresh fd [] h = refl
close_fd_fresh fd (x ∷ xs) h = ground (arith, close_fd_fresh fd xs)

close_opened : (fd : ℕ) (xs : List ℕ) → is_open fd xs ≡ false → close_fd fd (fd ∷ xs) ≡ xs
unfolding close_fd
close_opened fd xs h = ground (arith, close_fd_fresh fd xs h)

-- A task that has nothing to send.
abbrev pub IsIdle : Endpoint → Type 0
IsIdle e = (e.task.send_list ≡ []) × (e.task.cur_send_msg ≡ none)

-- A descriptor that the kernel has not handed out.
abbrev pub IsFresh : ℕ → Endpoint → Type 0
IsFresh fd e = (is_open fd e.fds ≡ false) × (find fd e.epoll ≡ none)

abbrev pub Holds : ℕ → Endpoint → Type 0
Holds fd e =
    (e.task.socket ≡ some fd) × (is_open fd e.fds ≡ true) × (find fd e.epoll ≡ some reading)

start-reading :
    (fd : ℕ) (e : Endpoint)
    → IsIdle e
    → IsFresh fd e
    → find fd (start (take_socket fd (record e { fds = fd ∷ e.fds }))).epoll ≡ some reading
unfolding start take_socket
start-reading fd e (no_list, no_msg) (closed, absent) =
    rw (no_list, no_msg) (find-add_to_epoll fd reading e.epoll absent)

opened_first : (fd : ℕ) (xs : List ℕ) → is_open fd (fd ∷ xs) ≡ true
unfolding is_open
opened_first fd xs = ground arith

started-Holds :
    (fd : ℕ) (e : Endpoint)
    → IsIdle e
    → IsFresh fd e
    → Holds fd (start (take_socket fd (record e { fds = fd ∷ e.fds })))
unfolding start take_socket
started-Holds fd e idle fresh = (refl, opened_first fd e.fds, start-reading fd e idle fresh)

-- What comes of a bind, from the state before it.
abbrev pub Bound : ℕ → Bool → Endpoint → Endpoint × Status → Type 0
Bound fd true e (e', r) = (r ≡ code 0) × Holds fd e'
Bound fd false e (e', r) = (r ≡ failed) × (e' ≡ e)

ne_zero : (n : ℕ) → n ≢ 0 → (n == 0) ≡ false
ne_zero n h = ground arith

-- CreateBindSocket of a task with nothing to send, for a new descriptor other than 0: after a bind
-- the task owns the descriptor, the process holds it and it is waited on for input; after a failed
-- bind the process holds what it held, and the task and the interest list are as they were.
pub create_bind_socket-Bound :
    (fd : ℕ) (bound : Bool) (e : Endpoint)
    → fd ≢ 0
    → IsIdle e
    → IsFresh fd e
    → Bound fd bound e (create_bind_socket (some fd) bound e)
unfolding create_bind_socket start_unless_zero
create_bind_socket-Bound fd true e nz idle fresh =
    rw (ne_zero fd nz) (refl, started-Holds fd e idle fresh)
create_bind_socket-Bound fd false e nz idle fresh =
    (refl, ap (λ fds. record e { fds = fds }) (close_opened fd e.fds fresh.0))

-- `CreateListenSocket`: where `listen` fails, the process keeps the descriptor, and no task owns it.
pub create_listen_socket-leak :
    (fd : ℕ) (e : Endpoint)
    → ((create_listen_socket (some fd) true false e).1 ≡ failed)
      × ((create_listen_socket (some fd) true false e).0.fds ≡ fd ∷ e.fds)
      × ((create_listen_socket (some fd) true false e).0.task ≡ e.task)
unfolding create_listen_socket listening
create_listen_socket-leak fd e = (refl, refl, refl)
