-- ===== src/Tests/Queues.antt =====
-- The theorems on the synchronised queue, at small inputs.
use websocket_test.Base.{ℕ, ◌<◌, ◌≡◌, refl, arith, some, List, [], ◌∷◌, ◌++◌, map, length, All}
use websocket_test.SynQueue.{
  SynQueue, Action, put_wait, put_post, get_wait, get_pop, get_post, push_back, push_pri,
  max_queue_size, new, step, run,
}
use websocket_test.SynQueue.Safety.{IsCounted, IsSome, run-safe, run-fifo, put_pri_lost}

-- Two puts and a get, the second put between the steps of the get.
abbrev interleaved : List (Action ℕ)
interleaved =
    put_wait
    ∷ push_back 10
    ∷ put_post
    ∷ get_wait
    ∷ put_wait
    ∷ push_back 20
    ∷ get_pop
    ∷ put_post
    ∷ get_post
    ∷ []

abbrev afterwards : SynQueue ℕ
afterwards = record {
  queue = 20 ∷ [];
  sem_write = 511998;
  sem_read = 1;
  putting = 0;
  pushed = 0;
  getting = 0;
  popped = 0;
  given = 10 ∷ 20 ∷ [];
  taken = some 10 ∷ [];
}

run-interleaved : run interleaved new ≡ some afterwards
unfolding run step new
run-interleaved = refl

run-safe_example :
    IsCounted afterwards × (length afterwards.queue < max_queue_size) × All IsSome afterwards.taken
run-safe_example =
    run-safe interleaved afterwards (tt, (tt, (tt, (tt, (tt, (tt, (tt, (tt, (tt, tt)))))))))
      run-interleaved

run-fifo_example : afterwards.taken ++ map some afterwards.queue ≡ map some afterwards.given
run-fifo_example =
    run-fifo interleaved afterwards (tt, (tt, (tt, (tt, (tt, (tt, (tt, (tt, (tt, tt)))))))))
      run-interleaved

put_pri_lost_example :
    (q' : SynQueue ℕ) × (run
        (put_wait ∷ push_pri 30 0 ∷ put_post ∷ get_wait ∷ get_pop ∷ get_post ∷ [])
        afterwards
      ≡ some q')
    × (q'.queue ≡ [])
    × (q'.taken ≡ some 10 ∷ some 20 ∷ [])
put_pri_lost_example = put_pri_lost 30 0 afterwards (λ e. omega arith) (omega arith)
