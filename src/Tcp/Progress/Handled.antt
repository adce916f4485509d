-- ===== src/Tcp/Progress/Handled.antt =====
-- `HandleProcess` of common/basetask.cpp for a `CTcpTask` whose socket can be written to, again and again.
use websocket_test.Base.{
  ℕ, zero, suc, ◌*◌, ◌≤◌, ◌≡◌, refl, sym, subst, ap, ◌∙◌, arith, inr, List, [], ◌++◌, length,
  append-nil, All, Status, code,
}
use websocket_test.Task.{
  Link, Outcome, alive, destroyed, destroy_self, handle_process, send_process,
}
use websocket_test.Task.Stream.{sends, sends-keeps}
use websocket_test.Task.Armed.{IsArmed, IsArmed-turns}
use websocket_test.Task.After.{only_writable, handle_process-only_writable}
use websocket_test.Tcp.{send_data}
use websocket_test.Tcp.Send.{Streams, Streams-turns, pending, send_data_leaves}
use websocket_test.Tcp.Progress.{IsTolerable, taking, Due, length-pending}
use websocket_test.Tcp.Progress.Rounds.{Due-nothing, send_process-Progressed}

module _ (recv_process : Link ℕ → Link ℕ × Status) where
  abbrev pub handle : Link ℕ → Outcome (Link ℕ)
  handle = handle_process recv_process (send_process send_data) destroy_self only_writable

  -- As long as the task lives.
  unfoldable pub handles : ℕ → Link ℕ → Outcome (Link ℕ)
  handles zero l = alive l (code 0)
  handles (suc n) l = elim (handle l) [ alive l' r ↦ handles n l' | destroyed i ↦ destroyed i ]

  handles-sends :
      (n k : ℕ) (l : Link ℕ)
      → l.task.send_num ≡ k
      → Due (n * k) l
      → (handles n l ≡ alive (sends send_data n l) (code 0)) × Due 0 (sends send_data n l)
  unfolding handles sends
  handles-sends zero k l e d = (refl, subst (λ r. Due r l) (omega arith) d)
  handles-sends (suc n) k l e d =
      let p = send_process-Progressed n k l e d in
      let out = send_process send_data l in
      let (later, due) = handles-sends n k out.0 p.rounds p.due in
      (
        ap (λ o. elim o [ alive l' r ↦ handles n l' | destroyed i ↦ destroyed i ])
              (handle_process-only_writable recv_process (send_process send_data) l p.no_failure)
            ∙ later,
        due,
      )

  -- A task that is registered, for EPOLLOUT while anything waits, and whose queue can be sent,
  -- with a kernel each of whose answers takes something or says to try again, and as many of
  -- which take something, one byte at least, as bytes are pending: after as many HandleProcess,
  -- each for a socket that can be written to and nothing else, as have rounds of m_nSendNum for
  -- all the answers, the task lives, nothing is pending, what has been sent is the whole stream,
  -- and the task is registered in that way again.
  pub handles-delivered :
      (n fd : ℕ) (all : List ℕ) (l : Link ℕ)
      → Streams all l
      → IsArmed fd l
      → All IsTolerable l.replies
      → length (pending l.task) ≤ taking l.replies
      → length l.replies ≤ n * l.task.send_num
      → (l' : Link ℕ) × (handles n l ≡ alive l' (code 0))
        × (pending l'.task ≡ [])
        × (l'.sent ≡ all)
        × IsArmed fd l'
  handles-delivered n fd all l s a t e h =
      let (went, d) = handles-sends n l.task.send_num l refl (record {
        sendable = s.sendable;
        tolerable = t;
        enough = omega (arith, length-pending l.task, e);
        soon = inr h;
      }) in
      let l' = sends send_data n l in
      let done = Due-nothing l' d in
      let s' = sends-keeps send_data (Streams all) (Streams-turns all) n l s in
      (
        l',
        went,
        done,
        sym (append-nil l'.sent) ∙ ap (λ p. l'.sent ++ p) (sym done) ∙ s'.stream,
        sends-keeps send_data (IsArmed fd) (IsArmed-turns send_data fd send_data_leaves) n l a,
      )
