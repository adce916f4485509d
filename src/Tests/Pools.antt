-- ===== src/Tests/Pools.antt =====
-- The theorems on the Redis clients, at small inputs.
use websocket_test.Base.{
  ℕ, ◌+◌, ◌≤◌, ◌≢◌, ltb, length, List, some, none, ◌==◌, if◌then◌else◌, ◌≡◌, refl, arith, [], ◌∷◌,
}
use websocket_test.Redis.{done, thrown, broken_pipe, new_pool}
use websocket_test.Redis.Owners.{count}
use websocket_test.Redis.Threads.{
  Phase, Shared, outside, holding, run, step_at, advance, w_lock, w_unlock, test_empty, unlocked,
  all_outside,
}
use websocket_test.Redis.Threads.Inv.{locks, has, total}
use websocket_test.Redis.Threads.Exclusive.{threads-exclusive}
use websocket_test.Redis.Retry.{Work, Chain, operations, operations-one_client}

-- Two threads get a client, one after the other, and then the first gives its own back.
abbrev schedule : List ℕ
schedule = 0 ∷ 0 ∷ 0 ∷ 0 ∷ 1 ∷ 1 ∷ 1 ∷ 1 ∷ 0 ∷ 0 ∷ 0 ∷ []

abbrev one_holder : List Phase
one_holder = outside ∷ holding 1 ∷ []

abbrev one_idle : Shared
one_idle = unlocked (record { idle = 0 ∷ []; made = 2 })

run-schedule : run schedule (all_outside 2) (unlocked new_pool) ≡ some (one_holder, one_idle)
unfolding run step_at advance w_lock w_unlock test_empty new_pool
run-schedule = refl

threads-exclusive_example :
    ((c : ℕ)
      → count c one_idle.pool.idle + total (has c) one_holder
        ≡ (if ltb c one_idle.pool.made then 1 else 0))
    × (one_idle.pool.made ≤ 2)
    × (total locks one_holder ≡ (if one_idle.locked then 1 else 0))
    × (length one_holder ≡ 2)
    × (i : ℕ) × (step_at i one_holder one_idle ≢ none)
threads-exclusive_example =
    threads-exclusive 2 schedule one_holder one_idle (omega arith) run-schedule

-- A connection that breaks at the first call and works at the second.
abbrev breaks_once : Work ℕ
breaks_once = record {
  func = λ c v. if v == 0 then (thrown broken_pipe, v) else (done, v);
  reconnect = λ c v. (done, 1);
}

operations-one_client_example :
    Chain
      (breaks_once ∷ breaks_once ∷ [])
      0
      (operations (breaks_once ∷ breaks_once ∷ []) new_pool 0).0
      (operations (breaks_once ∷ breaks_once ∷ []) new_pool 0).1.0
    × ((operations (breaks_once ∷ breaks_once ∷ []) new_pool 0).1.1 ≡ new_pool)
operations-one_client_example = operations-one_client (breaks_once ∷ breaks_once ∷ []) 0
