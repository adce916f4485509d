-- ===== src/Tcp/Progress/Rounds.antt =====
-- The loop of a `SendProcess` of common/mytask.cpp and a whole one, under a kernel that gets on.
use websocket_test.Base.{
  ℕ, zero, suc, ◌+◌, ◌*◌, ◌≤◌, ◌≡◌, ◌≢◌, refl, subst, ap, ◌∙◌, inl, inr, arith, Bool-cases, ◌==◌,
  ==_iff, List, [], ◌∷◌, length, Status, failed, code, if◌then◌else◌,
}
use websocket_test.Task.{Link, Reply, send_loop, send_round, send_process, ends_loop}
use websocket_test.Task.Stream.{KeepsTurn, send_loop-keeps}
use websocket_test.Tcp.{send_data}
use websocket_test.Tcp.Send.{pending}
use websocket_test.Tcp.Progress.{Due, Turned, taking, length-pending, Due-idle, send_round-Turned}

-- Behind a turn: the loop ends there, or goes on.
go_on :
    (n k : ℕ) (r : Status) (l' : Link ℕ) (rest : Link ℕ × Status)
    → Turned k (l', r)
    → Due n rest.0
    → Due n (if ends_loop r then (l', r) else rest).0
go_on n k failed l' rest t d = absurd (t.no_failure refl)
go_on n k (code c) l' rest t d = elim (Bool-cases (c == 2)) [
  | inl e ↦ rw e (Due-idle k n l' t.due (t.at_rest (ap code ((==_iff c 2).0 e))))
  | inr e ↦ rw e d
]

send_loop-Due :
    (n turns : ℕ) (last : Status) (l : Link ℕ)
    → Due (turns + n) l
    → Due n (send_loop send_data turns last l).0
unfolding send_loop
send_loop-Due n zero last l d = subst (λ k. Due k l) (omega arith) d
send_loop-Due n (suc turns) last l d =
    let now = send_round send_data l in
    let t =
      send_round-Turned (turns + n) l.task.cur_send_msg l.task.send_list l refl refl
        (subst (λ k. Due k l) (omega arith) d) in
    go_on n (turns + n) now.1 now.0 (send_loop send_data turns now.1 now.0) t
      (send_loop-Due n turns now.1 now.0 t.due)

-- The rounds of a `SendProcess` stay what they are.
send_num-turns : (k : ℕ) → KeepsTurn send_data (λ l. l.task.send_num ≡ k)
unfolding send_data
send_num-turns k = record {
  send = λ m l e p. ground arith;
  pop = λ m ms l e q p. p;
  rest = λ l e q p. p;
}

-- While everything is to go and the answers are tolerable, the loop does not fail.
went_on :
    (k : ℕ) (r : Status) (l' : Link ℕ) (rest : Link ℕ × Status)
    → Turned k (l', r)
    → rest.1 ≢ failed
    → (if ends_loop r then (l', r) else rest).1 ≢ failed
went_on k failed l' rest t h = absurd (t.no_failure refl)
went_on k (code c) l' rest t h = elim (Bool-cases (c == 2)) [
  | inl e ↦ rw e t.no_failure
  | inr e ↦ rw e h
]

send_loop-ne_failed :
    (n turns : ℕ) (last : Status) (l : Link ℕ)
    → Due (turns + n) l
    → last ≢ failed
    → (send_loop send_data turns last l).1 ≢ failed
unfolding send_loop
send_loop-ne_failed n zero last l d h = h
send_loop-ne_failed n (suc turns) last l d h =
    let now = send_round send_data l in
    let t =
      send_round-Turned (turns + n) l.task.cur_send_msg l.task.send_list l refl refl
        (subst (λ k. Due k l) (omega arith) d) in
    went_on (turns + n) now.1 now.0 (send_loop send_data turns now.1 now.0) t
      (send_loop-ne_failed n turns now.1 now.0 t.due t.no_failure)

-- What a whole `SendProcess` makes of it.
pub record Progressed (n k : ℕ) (out : Link ℕ × Status) : Type 0 where
  pub rounds : out.0.task.send_num ≡ k
  pub due : Due (n * k) out.0
  pub no_failure : out.1 ≢ failed

pub send_process-Progressed :
    (n k : ℕ) (l : Link ℕ)
    → l.task.send_num ≡ k
    → Due (suc n * k) l
    → Progressed n k (send_process send_data l)
unfolding send_process
send_process-Progressed n k l e d =
    let d' : Due (l.task.send_num + n * k) l = subst (λ r. Due r l) (grind (arith, e)) d in
    record {
      rounds =
          send_loop-keeps send_data (λ l. l.task.send_num ≡ k) (send_num-turns k) l.task.send_num
            (code 0) l e;
      due = send_loop-Due (n * k) l.task.send_num (code 0) l d';
      no_failure =
          send_loop-ne_failed (n * k) l.task.send_num (code 0) l d' (λ e. ground (arith, e));
    }

no_bytes : (xs : List ℕ) → length xs ≡ 0 → xs ≡ []
no_bytes [] e = refl
no_bytes (x ∷ xs) e = absurd (omega (arith, e))

no_answers : (rs : List Reply) → length rs ≤ 0 → taking rs ≡ 0
no_answers [] e = refl
no_answers (r ∷ rs) e = absurd (omega (arith, e))

pub Due-nothing : (l : Link ℕ) → Due 0 l → pending l.task ≡ []
Due-nothing l d = no_bytes (pending l.task) (
    length-pending l.task
    ∙ elim d.soon [ inl z ↦ z | inr s ↦ omega (arith, d.enough, no_answers l.replies s) ])
