-- ===== src/Cond.antt =====
-- `CThreadCond::WaitCondTimeOut` of common/threadmutex.h: the time at which the wait ends.
pub mod Life
use websocket_test.Base.{ℕ, ◌+◌, ◌-◌, ◌*◌, ◌/◌, ◌%◌, ◌^◌, ◌≤◌, ◌<◌, ◌≡◌, arith, ltb, if◌then◌else◌}

-- `msec * 1000`, an `int`, as it is widened to 64 bits; a product out of range wraps.
unfoldable pub widened : ℕ → ℕ
widened msec =
    let product = msec * 1000 % 2 ^ 32 in
    if ltb product (2 ^ 31) then product else product + (2 ^ 64 - 2 ^ 32)

-- `to`, from the seconds and microseconds of `gettimeofday`: seconds and nanoseconds.
unfoldable pub deadline : ℕ → ℕ → ℕ → ℕ × ℕ
unfolding widened
deadline sec usec msec =
    let tmp = (sec * 1000000 + usec + widened msec) % 2 ^ 64 in
    (tmp / 1000000, (tmp - tmp / 1000000 * 1000000) * 1000)

-- The deadline of WaitCondTimeOut has less than 10^9 nanoseconds and is exactly msec milliseconds
-- from now, for a time of less than 2^43 seconds, less than 10^6 microseconds, and at most 2147483
-- milliseconds.
pub deadline-exact :
    (sec usec msec : ℕ)
    → sec < 2 ^ 43
    → usec < 1000000
    → msec ≤ 2147483
    → ((deadline sec usec msec).1 < 1000000000)
      × ((deadline sec usec msec).0 * 1000000000 + (deadline sec usec msec).1
          ≡ sec * 1000000000 + usec * 1000 + msec * 1000000)
unfolding deadline
deadline-exact sec usec msec h1 h2 h3 = ground arith

-- From 2147484 to 4294967 milliseconds, at a time from 4295 to less than 2^43 seconds with less
-- than 10^6 microseconds, and with an int that wraps, the deadline of WaitCondTimeOut is in the
-- past.
deadline-past :
    (sec usec msec : ℕ)
    → 4295 ≤ sec
    → sec < 2 ^ 43
    → usec < 1000000
    → 2147484 ≤ msec
    → msec ≤ 4294967
    → (deadline sec usec msec).0 * 1000000000 + (deadline sec usec msec).1
      < sec * 1000000000 + usec * 1000
unfolding deadline
deadline-past sec usec msec h0 h1 h2 h3 h4 = ground arith
