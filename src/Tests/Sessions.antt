-- ===== src/Tests/Sessions.antt =====
-- The theorems on the client and the server, on the life of a condition and on a kernel that gets on, at small inputs.
use websocket_test.Base.{
  ℕ, ◌+◌, ◌≤◌, ◌≡◌, refl, arith, true, false, not, same_bytes, some, inl, inr, List, [], ◌∷◌, ◌++◌,
  length, Status, code,
}
use websocket_test.Tests.{message_of, task_with}
use websocket_test.Epoll.{writing, find}
use websocket_test.Task.{Link, alive, has_pending, again, interrupted, other}
use websocket_test.Tcp.Send.{pending}
use websocket_test.Tcp.Progress.Handled.{handles, handles-delivered}
use websocket_test.Task.Armed.{IsArmed}
use websocket_test.Cond.Life.{Method, inits, destories, waits, sets, waits_for, expected}
use websocket_test.Echo.{
  System, Event, opens, serves, receives, start, run, happens, on_open, csend, serve_next,
  server_on_message,
}
use websocket_test.Echo.Accounts.{AllAre}
use websocket_test.Echo.Exchange.{drain, events-answered}

-- Three bytes, and a kernel that takes one at a time and sometimes none.
abbrev slow : Link ℕ
slow = record {
  task = task_with (message_of (1 ∷ 2 ∷ []) ∷ message_of (3 ∷ []) ∷ []);
  epoll = (5, writing) ∷ [];
  replies =
      record { count = 1; errno = other }
      ∷ record { count = 0; errno = again }
      ∷ record { count = 1; errno = other }
      ∷ record { count = 0; errno = interrupted }
      ∷ record { count = 1; errno = other }
      ∷ [];
  sent = [];
}

-- Nothing is ever received.
abbrev receives_nothing : Link ℕ → Link ℕ × Status
receives_nothing l = (l, code 0)

handles-delivered_example :
    (l' : Link ℕ) × (handles receives_nothing 1 slow ≡ alive l' (code 0))
    × (pending l'.task ≡ [])
    × (l'.sent ≡ 1 ∷ 2 ∷ 3 ∷ [])
    × IsArmed 5 l'
unfolding has_pending find
handles-delivered_example =
    handles-delivered receives_nothing 1 5 (1 ∷ 2 ∷ 3 ∷ []) slow
      (record {
        sendable = record {
          current = refl;
          queued = (omega arith, omega arith, (omega arith, omega arith, tt));
        };
        stream = refl;
      })
      (record { open_socket = refl; armed = refl })
      (inl (omega arith), (inr refl, (inl (omega arith), (inr refl, (inl (omega arith), tt)))))
      (omega arith) (omega arith)

-- A condition that is destroyed twice.
abbrev twice : List Method
twice = waits 0 ∷ inits ∷ sets 0 ∷ waits_for 110 ∷ destories ∷ waits 0 ∷ destories ∷ []

-- Two connections, one of them answered.
abbrev some_events : List Event
some_events = opens true ∷ opens false ∷ opens true ∷ serves true ∷ []

abbrev half_way : System
half_way = record {
  to_server = record { payload = 1 ∷ []; opcode = 1 } ∷ [];
  to_client = record { payload = 2 ∷ []; opcode = 1 } ∷ [];
  reports = [];
  asked = 2;
  answered = 1;
}

run-some_events : run (1 ∷ []) (2 ∷ []) some_events start ≡ some half_way
unfolding run happens on_open csend serve_next server_on_message start
run-some_events = refl

events-answered_example :
    (s' : System) × (run (1 ∷ []) (2 ∷ []) (some_events ++ drain (1 ∷ []) (2 ∷ []) half_way) start
      ≡ some s')
    × (s'.to_server ≡ [])
    × (s'.to_client ≡ [])
    × (length s'.reports
        ≡ length half_way.reports + length half_way.to_client + length half_way.to_server)
    × (length s'.reports ≤ s'.asked)
    × AllAre (not (same_bytes (2 ∷ []) websocket_test.Echo.expected)) s'.reports
events-answered_example = events-answered (1 ∷ []) (2 ∷ []) some_events half_way run-some_events
