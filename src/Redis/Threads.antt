-- ===== src/Redis/Threads.antt =====
-- `get` and `giveback` of common/redisCliMgr.h step by step, with the lock of common/lock.h, in threads that use the
-- pool at once.
pub mod Inv
pub mod Apart
pub mod Exclusive
use websocket_test.Base.{
  ℕ, zero, suc, Bool, true, false, Option, none, some, List, [], ◌∷◌, ◌++◌, if◌then◌else◌,
}
use websocket_test.Redis.{Pool, new_pool}

-- The pool, and whether a `ScopeWLock` on `m_lock` is alive.
pub record Shared : Type 0 where
  pub pool : Pool
  pub locked : Bool

-- Where a thread is. In `get`: at `empty`, behind `begin`, behind `pop_front`, or behind the test where the list was
-- empty, all with the lock; about to make a client. With a client. In `giveback`: at `push_back`, and behind it.
pub data Phase : Type 0 where
  outside testing missed making gave : Phase
  peeked popped holding giving : ℕ → Phase

-- `WLock`, which waits for the lock.
unfoldable pub w_lock : Phase → Shared → Option (Phase × Shared)
w_lock next s = if s.locked then none else some (next, record s { locked = true })

unfoldable pub w_unlock : Phase → Shared → Option (Phase × Shared)
w_unlock next s = some (next, record s { locked = false })

-- `m_listCli.empty()`, and `*m_listCli.begin()`.
unfoldable pub test_empty : List ℕ → Shared → Option (Phase × Shared)
test_empty [] s = some (missed, s)
test_empty (c ∷ rest) s = some (peeked c, s)

abbrev pub pop_front : List ℕ → List ℕ
pop_front [] = []
pop_front (c ∷ rest) = rest

-- The next step of a thread.
unfoldable pub advance : Phase → Shared → Option (Phase × Shared)
advance outside s = w_lock testing s
advance testing s = test_empty s.pool.idle s
advance (peeked c) s =
    some (popped c, record s { pool = record s.pool { idle = pop_front s.pool.idle } })
advance (popped c) s = w_unlock (holding c) s
advance missed s = w_unlock making s
advance making s =
    some (holding s.pool.made, record s { pool = record s.pool { made = suc s.pool.made } })
advance (holding c) s = w_lock (giving c) s
advance (giving c) s =
    some (gave, record s { pool = record s.pool { idle = s.pool.idle ++ (c ∷ []) } })
advance gave s = w_unlock outside s

-- A step of the thread at an index.
unfoldable pub step_at : ℕ → List Phase → Shared → Option (List Phase × Shared)
step_at i [] s = none
step_at zero (p ∷ ps) s = elim (advance p s) [ none ↦ none | some (p', s') ↦ some (p' ∷ ps, s') ]
step_at (suc i) (p ∷ ps) s = elim (step_at i ps s) [
  | none ↦ none
  | some (ps', s') ↦ some (p ∷ ps', s')
]

-- Steps in the order of a schedule.
unfoldable pub run : List ℕ → List Phase → Shared → Option (List Phase × Shared)
run [] ps s = some (ps, s)
run (i ∷ is) ps s = elim (step_at i ps s) [ none ↦ none | some (ps', s') ↦ run is ps' s' ]

abbrev pub unlocked : Pool → Shared
unlocked p = record { pool = p; locked = false }

abbrev pub all_outside : ℕ → List Phase
all_outside zero = []
all_outside (suc n) = outside ∷ all_outside n
