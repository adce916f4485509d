-- ===== src/Task/Loop/Safety.antt =====
-- The event loop over tasks that share an interest list: no deleted task is called (common/myepoll.cpp,
-- common/basetask.cpp).
use websocket_test.Base.{
  ℕ, ◌≡◌, ◌≢◌, refl, sym, ap, ◌∙◌, subst, arith, false, Option, none, some, List, [], ◌∷◌, ◌==◌,
  ==_iff, length, Status, Bool-cases, inl, inr, All,
}
use websocket_test.Epoll.{
  Events, Interest, Ready, reading, find, remove, modify, modify_from_epoll, del_from_epoll,
  dispatch, epoll_wait,
}
use websocket_test.Epoll.Laws.{find-modify, find-remove}
use websocket_test.Task.{
  SendMsg, Link, Outcome, alive, destroyed, destroy_self, close_connect, send_process,
}
use websocket_test.Task.Stream.{KeepsTurn, send_process-keeps}
use websocket_test.Task.After.{IsAfter, handle_process-IsAfter}
use websocket_test.Task.Loop.{Server, put_task, settled, outcome, handled_by, handle, wait}

-- A descriptor without a task is not registered, and a task has the socket under which it is known.
abbrev pub IsKept : {S : Type 0} → ℕ → Option (Link S) → Option Events → Type 0
IsKept k none o = o ≡ none
IsKept k (some l) o = l.task.socket ≡ some k

abbrev pub IsSound : {S : Type 0} → Server S → Type 0
IsSound s = (k : ℕ) → IsKept k (s.tasks k) (find k s.interest)

-- What the kernel reports: descriptors that are registered, each once.
abbrev pub IsReport : Interest → List (ℕ × Events) → Type 0
IsReport i [] = Unit {0}
IsReport i ((fd, e) ∷ rs) = (find fd i ≢ none) × All (λ r. fd ≢ r.0) rs × IsReport i rs

abbrev pub ready : List (ℕ × Events) → List Ready
ready [] = []
ready ((fd, e) ∷ rs) = (some fd, e) ∷ ready rs

module _ {S : Type 0} (send_data : SendMsg → Link S → Link S × Status)
    (recv_process : Link S → Link S × Status)
    (send_leaves : (m : SendMsg) (l : Link S)
      → ((send_data m l).0.epoll ≡ l.epoll) × ((send_data m l).0.task.socket ≡ l.task.socket))
    (recv_leaves : (l : Link S)
      → ((recv_process l).0.epoll ≡ l.epoll)
        × ((recv_process l).0.task.socket ≡ l.task.socket)) where
  abbrev HasSocket : ℕ → Link S → Type 0
  HasSocket fd l = l.task.socket ≡ some fd

  abbrev Leaves : ℕ → ℕ → Option Events → Link S → Type 0
  Leaves fd k o l = (l.task.socket ≡ some fd) × (find k l.epoll ≡ o)

  HasSocket-turns : (fd : ℕ) → KeepsTurn send_data (HasSocket fd)
  HasSocket-turns fd = record {
    send = λ m l e h. (send_leaves m l).1 ∙ h;
    pop = λ m ms l e q h. h;
    rest = λ l e q h. h;
  }

  modified-other :
      (fd k : ℕ) (e : Events) (i : Interest) → fd ≢ k → find k (modify fd e i) ≡ find k i
  modified-other fd k e i n = ground (arith, find-modify fd k e i)

  removed-other : (fd k : ℕ) (i : Interest) → fd ≢ k → find k (remove fd i) ≡ find k i
  removed-other fd k i n = ground (arith, find-remove fd k i)

  Leaves-turns : (fd k : ℕ) (o : Option Events) → fd ≢ k → KeepsTurn send_data (Leaves fd k o)
  unfolding modify_from_epoll
  Leaves-turns fd k o n = record {
    send = λ m l e h. ((send_leaves m l).1 ∙ h.0, ap (find k) (send_leaves m l).0 ∙ h.1);
    pop = λ m ms l e q h. h;
    rest = λ l e q h. (
      h.0,
      ap (λ s. find k (modify_from_epoll s reading l.epoll)) h.0
          ∙ modified-other fd k reading l.epoll n
          ∙ h.1,
    );
  }

  outcome-HasSocket :
      (fd : ℕ) (e : Events) (l : Link S)
      → HasSocket fd l
      → IsAfter (HasSocket fd) (λ i. find fd i ≡ none) (outcome send_data recv_process e l)
  unfolding outcome destroy_self close_connect del_from_epoll
  outcome-HasSocket fd =
      handle_process-IsAfter recv_process (send_process send_data) (HasSocket fd)
        (λ i. find fd i ≡ none) (λ l h. (recv_leaves l).1 ∙ h)
        (send_process-keeps send_data (HasSocket fd) (HasSocket-turns fd))
        (λ l h.
          ap (λ s. find fd (del_from_epoll s l.epoll)) h
          ∙ ground (arith, find-remove fd fd l.epoll))

  outcome-Leaves :
      (fd k : ℕ) (o : Option Events) (e : Events) (l : Link S)
      → fd ≢ k
      → Leaves fd k o l
      → IsAfter (Leaves fd k o) (λ i. find k i ≡ o) (outcome send_data recv_process e l)
  unfolding outcome destroy_self close_connect del_from_epoll
  outcome-Leaves fd k o e l n =
      handle_process-IsAfter recv_process (send_process send_data) (Leaves fd k o)
        (λ i. find k i ≡ o) (λ l h. ((recv_leaves l).1 ∙ h.0, ap (find k) (recv_leaves l).0 ∙ h.1))
        (send_process-keeps send_data (Leaves fd k o) (Leaves-turns fd k o n))
        (λ l h.
          ap (λ s. find k (del_from_epoll s l.epoll)) h.0 ∙ removed-other fd k l.epoll n ∙ h.1)
        e l

  settled-other :
      (fd k : ℕ) (s : Server S) (r : Outcome (Link S))
      → IsAfter (Leaves fd k (find k s.interest)) (λ i. find k i ≡ find k s.interest) r
      → find k (settled send_data recv_process fd s r).interest ≡ find k s.interest
  unfolding settled put_task
  settled-other fd k s (alive l st) h = h.1
  settled-other fd k s (destroyed i) h = h

  settled-IsKept :
      (fd : ℕ) (s : Server S) (r : Outcome (Link S))
      → IsAfter (HasSocket fd) (λ i. find fd i ≡ none) r
      → IsKept fd
          ((settled send_data recv_process fd s r).tasks fd)
          (find fd (settled send_data recv_process fd s r).interest)
  unfolding settled put_task
  settled-IsKept fd s (alive l st) h = rw ((==_iff fd fd).1 refl) h
  settled-IsKept fd s (destroyed i) h = rw ((==_iff fd fd).1 refl) h

  settled_tasks-other :
      (fd k : ℕ) (s : Server S) (r : Outcome (Link S))
      → k == fd ≡ false
      → (settled send_data recv_process fd s r).tasks k ≡ s.tasks k
  unfolding settled put_task
  settled_tasks-other fd k s (alive l st) e = rw e refl
  settled_tasks-other fd k s (destroyed i) e = rw e refl

  module _ (fd : ℕ) (e : Events) (s : Server S) (l : Link S) (sound : IsSound s)
      (live : s.tasks fd ≡ some l) where
    abbrev after : Server S
    after =
        settled send_data recv_process fd s
          (outcome send_data recv_process e (record l { epoll = s.interest }))

    has_socket : l.task.socket ≡ some fd
    has_socket = subst (λ o. IsKept fd o (find fd s.interest)) live (sound fd)

    after-other : (k : ℕ) → fd ≢ k → find k after.interest ≡ find k s.interest
    after-other k n = settled-other fd k s _ (
        outcome-Leaves fd k (find k s.interest) e (record l { epoll = s.interest }) n
          (has_socket, refl))

    after-IsSound : IsSound after
    after-IsSound k = elim (Bool-cases (k == fd)) [
      | inl y ↦
          subst (λ j. IsKept j (after.tasks j) (find j after.interest)) (sym ((==_iff k fd).0 y))
            (settled-IsKept fd s _
              (outcome-HasSocket fd e (record l { epoll = s.interest }) has_socket))
      | inr n ↦
          subst (λ o. IsKept k o (find k after.interest)) (sym (settled_tasks-other fd k s _ n))
            (subst (IsKept k (s.tasks k)) (sym (after-other k (λ q. ground (arith, n, q))))
              (sound k))
    ]

  IsReport-other :
      (fd : ℕ) (i j : Interest) (rs : List (ℕ × Events))
      → ((k : ℕ) → fd ≢ k → find k j ≡ find k i)
      → All (λ r. fd ≢ r.0) rs
      → IsReport i rs
      → IsReport j rs
  IsReport-other fd i j [] same others h = tt
  IsReport-other fd i j ((k, e) ∷ rs) same (n, others) (reg, once, h) =
      (subst (λ o. o ≢ none) (sym (same k n)) reg, once, IsReport-other fd i j rs same others h)

  -- A registered descriptor has a task.
  registered :
      (s : Server S) (fd : ℕ)
      → IsSound s
      → find fd s.interest ≢ none
      → (o : Option (Link S)) → s.tasks fd ≡ o
      → (l : Link S) × (s.tasks fd ≡ some l)
  registered s fd sound reg none e =
      absurd (reg (subst (λ o. IsKept fd o (find fd s.interest)) e (sound fd)))
  registered s fd sound reg (some l) e = (l, e)

  Waited : List (ℕ × Events) → Server S → Type 0
  Waited rs s =
      (s' : Server S) × (dispatch (handle send_data recv_process) (ready rs) (some s) ≡ some s')
      × IsSound s'

  dispatch-IsSound :
      (rs : List (ℕ × Events)) (s : Server S) → IsSound s → IsReport s.interest rs → Waited rs s
  unfolding Waited dispatch handle handled_by
  dispatch-IsSound [] s sound h = (s, refl, sound)
  dispatch-IsSound ((fd, e) ∷ rs) s sound (reg, once, h) =
      let (l, live) = registered s fd sound reg (s.tasks fd) refl in
      let s' = after fd e s l sound live in
      let (last, e', sound') =
        dispatch-IsSound rs s' (after-IsSound fd e s l sound live)
          (IsReport-other fd s.interest s'.interest rs (after-other fd e s l sound live) once h) in
      (
        last,
        ap
              (λ o.
                dispatch (handle send_data recv_process) (ready rs)
                  (handled_by send_data recv_process o fd e s))
              live
            ∙ e',
        sound',
      )

  -- Over tasks that all have the HandleProcess of CBaseTask, so that no CAcceptTask is among
  -- them, and whose SendData and RecvProcess leave the interest list and the socket alone, where
  -- a descriptor without a task is not registered and each task has its own socket: EpollWait,
  -- for a report of registered descriptors, each once, calls no task that has been deleted, ends
  -- in such a state again, and answers the number of descriptors reported.
  pub wait-IsSound :
      (rs : List (ℕ × Events)) (s : Server S)
      → IsSound s
      → IsReport s.interest rs
      → (s' : Server S) × (wait send_data recv_process (some (ready rs)) s
          ≡ (some s', length (ready rs)))
        × IsSound s'
  unfolding wait epoll_wait Waited
  wait-IsSound rs s sound h =
      let (s', e, sound') = dispatch-IsSound rs s sound h in
      (s', ap (λ o. (o, length (ready rs))) e, sound')
