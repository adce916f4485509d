-- ===== src/SynQueue.antt =====
-- `CSynQueue` of common/synqueue_t.h: a deque between two counting semaphores. A thread's `put` is the
-- steps `put_wait`, one of the pushes, `put_post`; a `get` is `get_wait`, `get_pop`, `get_post`. The mutex
-- makes each push and pop one step; the steps of different threads interleave in any order.
pub mod Safety
use websocket_test.Base.{
  ℕ, ◌+◌, ◌-◌, Bool, true, false, Option, none, some, List, [], ◌∷◌, ◌++◌, ◌==◌, if◌then◌else◌,
}

-- `MAX_QUEUE_SIZE`.
abbrev pub max_queue_size : ℕ
max_queue_size = 512000

-- `CQUE_PRI_HIGH`.
abbrev pub pri_high : ℕ
pri_high = 1

-- The queue and its semaphores; how many threads stand between the steps of a `put` and of a `get`; and
-- what was put and what was got (`none` for NULL), in order.
pub record SynQueue (A : Type 0) : Type 0 where
  pub queue : List A
  pub sem_write : ℕ
  pub sem_read : ℕ
  pub putting : ℕ
  pub pushed : ℕ
  pub getting : ℕ
  pub popped : ℕ
  pub given : List A
  pub taken : List (Option A)

-- `put(T*, int pri)` pushes to the front at high priority, and otherwise pushes nothing.
pub data Action (A : Type 0) : Type 0 where
  put_wait put_post get_wait get_pop get_post : Action A
  push_back : A → Action A
  push_pri : A → ℕ → Action A

module _ {A : Type 0} where
  unfoldable pub new : SynQueue A
  new = record {
    queue = [];
    sem_write = max_queue_size - 1;
    sem_read = 0;
    putting = 0;
    pushed = 0;
    getting = 0;
    popped = 0;
    given = [];
    taken = [];
  }

  abbrev pub front : List A → Option A
  front [] = none
  front (x ∷ xs) = some x

  abbrev pub pop_front : List A → List A
  pop_front [] = []
  pop_front (x ∷ xs) = xs

  -- One step, or `none` where the thread blocks or no thread stands there.
  unfoldable pub step : Action A → SynQueue A → Option (SynQueue A)
  step put_wait q =
      if q.sem_write == 0
      then none
      else some (record q { sem_write = q.sem_write - 1; putting = q.putting + 1 })
  step (push_back x) q =
      if q.putting == 0
      then none
      else some (record q {
        queue = q.queue ++ x ∷ [];
        putting = q.putting - 1;
        pushed = q.pushed + 1;
        given = q.given ++ x ∷ [];
      })
  step (push_pri x pri) q =
      if q.putting == 0
      then none
      else some (record q {
        queue = if pri == pri_high then x ∷ q.queue else q.queue;
        putting = q.putting - 1;
        pushed = q.pushed + 1;
        given = q.given ++ x ∷ [];
      })
  step put_post q =
      if q.pushed == 0
      then none
      else some (record q { sem_read = q.sem_read + 1; pushed = q.pushed - 1 })
  step get_wait q =
      if q.sem_read == 0
      then none
      else some (record q { sem_read = q.sem_read - 1; getting = q.getting + 1 })
  step get_pop q =
      if q.getting == 0
      then none
      else some (record q {
        queue = pop_front q.queue;
        getting = q.getting - 1;
        popped = q.popped + 1;
        taken = q.taken ++ front q.queue ∷ [];
      })
  step get_post q =
      if q.popped == 0
      then none
      else some (record q { sem_write = q.sem_write + 1; popped = q.popped - 1 })

  -- A schedule: the steps of all threads, in the order in which they happen.
  unfoldable pub run : List (Action A) → SynQueue A → Option (SynQueue A)
  run [] q = some q
  run (a ∷ rest) q = elim (step a q) [ none ↦ none | some q' ↦ run rest q' ]
