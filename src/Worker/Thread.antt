-- ===== src/Worker/Thread.antt =====
-- `CWorkThread` of common/work_thread.cpp: what its methods and its threads do, and the flag that `Run`
-- waits for.
use websocket_test.Base.{
  ℕ, ◌-◌, ◌≡◌, refl, sym, subst, ap, ◌∙◌, zero, suc, Bool, true, false, List, [], ◌∷◌, ◌++◌,
  append_assoc, append-nil, length, ltb, lt→ltb, take, map, map-append, if◌then◌else◌, arith,
}
use websocket_test.SynQueue.{max_queue_size}
use websocket_test.Worker.{
  Outcome, WorkThread, new_thread, Call, put_msg, stop, process_msg, start, run, test_flag, work,
  processed, add_msg, loop_test, loop_body, thread_call, thread_calls,
}

-- The messages that are put into the list, and those that Process is called on directly.
unfoldable pub put_messages : List Call → List (List ℕ)
put_messages [] = []
put_messages (put_msg m ∷ cs) = m ∷ put_messages cs
put_messages (c ∷ cs) = put_messages cs

unfoldable pub direct_messages : List Call → List (List ℕ)
direct_messages [] = []
direct_messages (process_msg m ∷ cs) = m ∷ direct_messages cs
direct_messages (c ∷ cs) = direct_messages cs

take-nil : {A : Type 0} (n : ℕ) → take {A = A} n [] ≡ []
take-nil zero = refl
take-nil (suc n) = refl

-- A list that takes no more than n elements.
take-add :
    {A : Type 0} (n : ℕ) (xs : List A) (x : A)
    → (if ltb (length (take n xs)) n then take n xs ++ (x ∷ []) else take n xs)
      ≡ take n (xs ++ (x ∷ []))
take-add zero xs x = refl
take-add (suc n) [] x = rw (lt→ltb 0 (suc n) (omega arith), take-nil n) refl
take-add (suc n) (y ∷ ys) x = ground (arith, take-add n ys x)

module _ (handle : List ℕ → Outcome) where
  -- A thread whose loops never begin: the messages put, but for those that find the list full, are in
  -- the list, and the results are those of the direct calls.
  record Idle (puts directs : List (List ℕ)) (t : WorkThread) : Type 0 where
    flag : t.run_flag ≡ false
    nobody : t.working ≡ 0
    listed : t.msg_list ≡ take (max_queue_size - 1) puts
    made : t.results ≡ map handle directs

  add_msg-Idle :
      (m : List ℕ) (puts directs : List (List ℕ)) (t : WorkThread)
      → Idle puts directs t
      → Idle (puts ++ (m ∷ [])) directs (add_msg m t)
  unfolding add_msg
  add_msg-Idle m puts directs t i = added (ltb (length t.msg_list) (max_queue_size - 1)) (
      subst
        (λ l.
          (if ltb (length l) (max_queue_size - 1) then l ++ (m ∷ []) else l)
          ≡ take (max_queue_size - 1) (puts ++ (m ∷ [])))
        (sym i.listed) (take-add (max_queue_size - 1) puts m))
    where
      added :
          (b : Bool)
          → (if b then t.msg_list ++ (m ∷ []) else t.msg_list)
            ≡ take (max_queue_size - 1) (puts ++ (m ∷ []))
          → Idle
              (puts ++ (m ∷ []))
              directs
              (if b then record t { msg_list = t.msg_list ++ (m ∷ []) } else t)
      added true e = record { flag = i.flag; nobody = i.nobody; listed = e; made = i.made }
      added false e = record { flag = i.flag; nobody = i.nobody; listed = e; made = i.made }

  loop_test-Idle :
      (n : ℕ) (puts directs : List (List ℕ)) (t : WorkThread)
      → Idle puts directs t
      → Idle puts directs (loop_test n t)
  unfolding loop_test
  loop_test-Idle zero puts directs t i = i
  loop_test-Idle (suc n) puts directs t i =
      rw i.flag (record { flag = refl; nobody = i.nobody; listed = i.listed; made = i.made })

  thread_call-Idle :
      (c : Call) (puts directs : List (List ℕ)) (t : WorkThread)
      → Idle puts directs t
      → Idle
          (puts ++ put_messages (c ∷ []))
          (directs ++ direct_messages (c ∷ []))
          (thread_call handle c t)
  unfolding thread_call put_messages direct_messages processed loop_body
  thread_call-Idle (put_msg m) puts directs t i =
      rw (append-nil directs) (add_msg-Idle m puts directs t i)
  thread_call-Idle stop puts directs t i =
      rw (append-nil directs, append-nil puts)
        (record { flag = refl; nobody = i.nobody; listed = i.listed; made = i.made })
  thread_call-Idle (process_msg m) puts directs t i = rw (append-nil puts) (record {
    flag = i.flag;
    nobody = i.nobody;
    listed = i.listed;
    made = ap (λ rs. rs ++ (handle m ∷ [])) i.made ∙ sym (map-append handle directs (m ∷ []));
  })
  thread_call-Idle (start true) puts directs t i =
      rw (append-nil directs, append-nil puts)
        (record { flag = i.flag; nobody = i.nobody; listed = i.listed; made = i.made })
  thread_call-Idle (start false) puts directs t i = rw (append-nil directs, append-nil puts) i
  thread_call-Idle run puts directs t i =
      rw (append-nil directs, append-nil puts)
        (record { flag = i.flag; nobody = i.nobody; listed = i.listed; made = i.made })
  thread_call-Idle test_flag puts directs t i =
      rw (append-nil directs, append-nil puts) (loop_test-Idle t.testing puts directs t i)
  thread_call-Idle work puts directs t i =
      rw (append-nil directs, append-nil puts)
        (subst (λ n. Idle puts directs (loop_body handle n t)) (sym i.nobody) i)

  messages-append :
      (c : Call) (cs : List Call)
      → (put_messages (c ∷ []) ++ put_messages cs ≡ put_messages (c ∷ cs))
        × (direct_messages (c ∷ []) ++ direct_messages cs ≡ direct_messages (c ∷ cs))
  unfolding put_messages direct_messages
  messages-append (put_msg m) cs = (refl, refl)
  messages-append (process_msg m) cs = (refl, refl)
  messages-append stop cs = (refl, refl)
  messages-append (start b) cs = (refl, refl)
  messages-append run cs = (refl, refl)
  messages-append test_flag cs = (refl, refl)
  messages-append work cs = (refl, refl)

  thread_calls-Idle :
      (cs : List Call) (puts directs : List (List ℕ)) (t : WorkThread)
      → Idle puts directs t
      → Idle (puts ++ put_messages cs) (directs ++ direct_messages cs) (thread_calls handle cs t)
  unfolding thread_calls put_messages direct_messages
  thread_calls-Idle [] puts directs t i = rw (append-nil directs, append-nil puts) i
  thread_calls-Idle (c ∷ cs) puts directs t i =
      let (p, d) = messages-append c cs in
      let t' = thread_call handle c t in
      let i' =
        thread_calls-Idle cs (puts ++ put_messages (c ∷ [])) (directs ++ direct_messages (c ∷ []))
          t' (thread_call-Idle c puts directs t i) in
      rw⁻¹ (p, d)
        (rw⁻¹
          (
            append_assoc puts (put_messages (c ∷ [])) (put_messages cs),
            append_assoc directs (direct_messages (c ∷ [])) (direct_messages cs),
          )
          i')

  -- Over any calls of the public methods of a new work thread, Start, Stop and Run included, and
  -- any steps of its threads: the results are those of the direct calls of Process and no others,
  -- and the messages put, up to the 511999 that the list holds, are all still in the list; no
  -- thread passes the loop's condition.
  pub never_processes :
      (cs : List Call)
      → ((thread_calls handle cs new_thread).results ≡ map handle (direct_messages cs))
        × ((thread_calls handle cs new_thread).msg_list
            ≡ take (max_queue_size - 1) (put_messages cs))
        × ((thread_calls handle cs new_thread).working ≡ 0)
  unfolding new_thread
  never_processes cs =
      let i =
        thread_calls-Idle cs [] [] new_thread
          (record { flag = refl; nobody = refl; listed = refl; made = refl }) in
      (i.made, i.listed, i.nobody)
