-- ===== src/Tests/Loops.antt =====
-- The theorem on the event loop, at a task whose peer has closed the connection.
use websocket_test.Base.{
  ℕ, ◌≡◌, refl, true, false, none, some, Option, [], ◌∷◌, ◌==◌, ==_iff, ap, Bool, if◌then◌else◌,
  length, Status, failed,
}
use websocket_test.Tests.{message_of, task_with}
use websocket_test.Epoll.{writing, find}
use websocket_test.Task.{Link}
use websocket_test.Task.Loop.{Server, wait}
use websocket_test.Task.Loop.Safety.{IsKept, IsSound, ready, wait-IsSound}
use websocket_test.Tcp.{send_data}
use websocket_test.Tcp.Send.{send_data_leaves}

-- A task at descriptor 5 with a message to send, and a RecvProcess that fails.
abbrev link : Link ℕ
link = record {
  task = task_with (message_of (1 ∷ 2 ∷ []) ∷ []);
  epoll = [];
  replies = [];
  sent = [];
}

abbrev closed : Link ℕ → Link ℕ × Status
closed l = (l, failed)

abbrev one_task : ℕ → Option (Link ℕ)
one_task k = if 5 == k then some link else none

abbrev server : Server ℕ
server = record { tasks = one_task; interest = (5, writing) ∷ [] }

server-IsSound : IsSound server
unfolding find
server-IsSound k = chosen (5 == k) refl
  where
    chosen :
        (b : Bool)
        → (5 == k) ≡ b
        → IsKept k (if b then some link else none) (if b then some writing else none)
    chosen true e = ap some ((==_iff 5 k).0 e)
    chosen false e = refl

wait-IsSound_example :
    (s' : Server ℕ) × (wait send_data closed (some (ready ((5, writing) ∷ []))) server
      ≡ (some s', length (ready ((5, writing) ∷ []))))
    × IsSound s'
unfolding find
wait-IsSound_example =
    wait-IsSound send_data closed send_data_leaves (λ l. (refl, refl)) ((5, writing) ∷ []) server
      server-IsSound ((λ e. cc), tt, tt)
