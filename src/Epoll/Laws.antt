-- ===== src/Epoll/Laws.antt =====
-- The interest list as a map from descriptor to events.
use websocket_test.Base.{ℕ, ◌≡◌, arith, none, some, [], ◌∷◌, ◌==◌, if◌then◌else◌, ◌≢◌}
use websocket_test.Epoll.{Events, Interest, find, remove, modify, add, add_unless, add_to_epoll}

pub find-remove :
    (fd k : ℕ) (i : Interest) → find k (remove fd i) ≡ (if fd == k then none else find k i)
unfolding find remove
find-remove fd k [] = ground arith
find-remove fd k ((j, e) ∷ i) = ground (arith, find-remove fd k i)

-- A modification reaches the descriptor that is there, and no other.
pub find-modify :
    (fd k : ℕ) (e : Events) (i : Interest)
    → find k (modify fd e i)
      ≡ (if fd == k then (elim (find k i) [ none ↦ none | some old ↦ some e ]) else find k i)
unfolding find modify
find-modify fd k e [] = ground arith
find-modify fd k e ((j, old) ∷ i) = ground (arith, find-modify fd k e i)

-- An addition keeps what is there for the descriptor.
pub find-add :
    (fd k : ℕ) (e : Events) (i : Interest)
    → find k (add fd e i)
      ≡ (if fd == k then (elim (find k i) [ none ↦ some e | some old ↦ some old ]) else find k i)
unfolding find add
find-add fd k e i = ground (arith)

-- A new descriptor has the events it is added with, and the others have theirs.
pub find-add_to_epoll :
    (fd : ℕ) (e : Events) (i : Interest)
    → find fd i ≡ none
    → find fd (add_to_epoll (some fd) e i) ≡ some e
unfolding add_to_epoll add add_unless
find-add_to_epoll fd e i h = ground (arith, find-add fd fd e i, h)

pub find-add_to_epoll_other :
    (fd k : ℕ) (e : Events) (i : Interest) → fd ≢ k → find k (add_to_epoll (some fd) e i) ≡ find k i
unfolding add_to_epoll
find-add_to_epoll_other fd k e i h = ground (arith, find-add fd k e i)
