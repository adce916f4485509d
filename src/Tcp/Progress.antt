-- ===== src/Tcp/Progress.antt =====
-- `SendProcess` of a `CTcpTask` (common/mytask.cpp), called again and again, under a kernel that gets on.
pub mod Rounds
pub mod Handled
use websocket_test.Base.{
  ℕ, zero, suc, ◌+◌, ◌-◌, ◌*◌, ◌≤◌, ◌<◌, ◌≡◌, ◌≢◌, refl, sym, subst, ap, ◌∙◌, ◌⊎◌, inl, inr, arith,
  true, Bool-cases, ◌==◌, ==_iff, Option, none, some, List, [], ◌∷◌, ◌++◌, length, length-append,
  length-drop, append-nil, All, Status, failed, code, ltb, if◌then◌else◌,
}
use websocket_test.Task.{
  SendMsg, BaseTask, Link, Reply, may_retry, send_loop, send_round, send_process, ends_loop,
}
use websocket_test.Task.Stream.{
  bodies, sends, sends-keeps, send_round-some, send_round_next, send_round_idle, KeepsTurn,
  send_process-keeps,
}
use websocket_test.Tcp.{send_data}
use websocket_test.Tcp.Send.{
  AllSendable, IsSendable, Within, Streams, Streams-turns, pending, remaining,
}

-- An answer that takes something, or says to try again.
abbrev pub IsTolerable : Reply → Type 0
IsTolerable r = (0 < r.count) ⊎ (may_retry r.errno ≡ true)

-- How many answers take something.
abbrev pub taking : List Reply → ℕ
taking [] = 0
taking (r ∷ rs) = (if ltb 0 r.count then 1 else 0) + taking rs

abbrev pub left : ℕ → Option SendMsg → ℕ
left n none = 0
left n (some m) = length m.body - n

abbrev pub total : List SendMsg → ℕ
total [] = 0
total (m ∷ ms) = length m.body + total ms

length-bodies : (ms : List SendMsg) → length (bodies ms) ≡ total ms
length-bodies [] = refl
length-bodies (m ∷ ms) = omega (arith, length-append m.body (bodies ms), length-bodies ms)

length-remaining : (n : ℕ) (c : Option SendMsg) → length (remaining n c) ≡ left n c
length-remaining n none = refl
length-remaining n (some m) = length-drop n m.body

abbrev pub owed : BaseTask → ℕ
owed t = left t.cur_send_len t.cur_send_msg + total t.send_list

pub length-pending : (t : BaseTask) → length (pending t) ≡ owed t
length-pending t = omega (
  arith,
  length-append (remaining t.cur_send_len t.cur_send_msg) (bodies t.send_list),
  length-remaining t.cur_send_len t.cur_send_msg,
  length-bodies t.send_list,
)

-- With so many turns to come, everything goes: nothing is left, or the answers are used up by then.
pub record Due (turns : ℕ) (l : Link ℕ) : Type 0 where
  pub sendable : IsSendable l.task
  pub tolerable : All IsTolerable l.replies
  pub enough : owed l.task ≤ taking l.replies
  pub soon : (owed l.task ≡ 0) ⊎ (length l.replies ≤ turns)

-- What a turn makes of it: it does not fail, and says that nothing is left only where that is so.
pub record Turned (turns : ℕ) (out : Link ℕ × Status) : Type 0 where
  pub due : Due turns out.0
  pub no_failure : out.1 ≢ failed
  pub at_rest : out.1 ≡ code 2 → owed out.0.task ≡ 0

later :
    {turns : ℕ} (rs : List Reply) (l : Link ℕ)
    → l.replies ≡ rs
    → Due turns l
    → owed l.task ≢ 0
    → length rs ≤ turns
later rs l e d h = elim d.soon [ inl z ↦ absurd (h z) | inr s ↦ omega (arith, s, ap length e) ]

send_data-Turned :
    (turns : ℕ) (m : SendMsg) (rs : List Reply) (l : Link ℕ)
    → l.replies ≡ rs
    → l.task.cur_send_msg ≡ some m
    → Due (suc turns) l
    → Turned turns (send_data m l)
unfolding send_data
send_data-Turned turns m [] l e c d =
    let within : Within l.task.cur_send_len (some m) =
      subst (Within l.task.cur_send_len) c d.sendable.current in
    let now = ap (λ o. left l.task.cur_send_len o + total l.task.send_list) c in
    absurd (omega (arith, d.enough, ap taking e))
send_data-Turned turns m (r ∷ rs) l e c d =
    let within : Within l.task.cur_send_len (some m) =
      subst (Within l.task.cur_send_len) c d.sendable.current in
    let tolerable : All IsTolerable (r ∷ rs) = subst (All IsTolerable) e d.tolerable in
    let now = ap (λ o. left l.task.cur_send_len o + total l.task.send_list) c in
    let enough : (length m.body - l.task.cur_send_len) + total l.task.send_list ≤ taking (r ∷ rs) =
      omega (arith, now, d.enough, ap taking e) in
    let soon : length (r ∷ rs) ≤ suc turns = later (r ∷ rs) l e d (omega (arith, now)) in
    record {
      due = record {
        sendable = ground arith;
        tolerable = ground arith;
        enough = ground arith;
        soon = ground arith;
      };
      no_failure = ground arith;
      at_rest = ground arith;
    }

pub Due-idle : (n turns : ℕ) (l : Link ℕ) → Due n l → owed l.task ≡ 0 → Due turns l
Due-idle n turns l d z = record {
  sendable = d.sendable;
  tolerable = d.tolerable;
  enough = d.enough;
  soon = inl z;
}

begun-Due :
    (turns : ℕ) (m : SendMsg) (ms : List SendMsg) (l : Link ℕ)
    → l.task.cur_send_msg ≡ none
    → l.task.send_list ≡ m ∷ ms
    → Due turns l
    → Due turns (record l { task = record l.task { send_list = ms; cur_send_msg = some m } })
begun-Due turns m ms l c q d =
    let start : l.task.cur_send_len ≡ 0 = subst (Within l.task.cur_send_len) c d.sendable.current in
    let queued : AllSendable (m ∷ ms) = subst AllSendable q d.sendable.queued in
    let now = ap (λ o. left l.task.cur_send_len o + total l.task.send_list) c in
    record {
      sendable = record { current = omega arith; queued = queued.2 };
      tolerable = d.tolerable;
      enough = omega (arith, now, ap total q, start, d.enough);
      soon = elim d.soon [ inl z ↦ inl (omega (arith, now, ap total q, start, z)) | inr s ↦ inr s ];
    }

pub send_round-Turned :
    (turns : ℕ) (cur : Option SendMsg) (ms : List SendMsg) (l : Link ℕ)
    → l.task.cur_send_msg ≡ cur
    → l.task.send_list ≡ ms
    → Due (suc turns) l
    → Turned turns (send_round send_data l)
send_round-Turned turns (some m) ms l c q d =
    subst (Turned turns) (sym (send_round-some send_data l m c))
      (send_data-Turned turns m l.replies l refl c d)
send_round-Turned turns none [] l c q d =
    let z : owed l.task ≡ 0 =
      omega (arith, ap (λ o. left l.task.cur_send_len o + total l.task.send_list) c, ap total q) in
    subst (Turned turns) (sym (send_round_idle send_data l c q)) (record {
      due = record {
        sendable = d.sendable;
        tolerable = d.tolerable;
        enough = d.enough;
        soon = inl z;
      };
      no_failure = λ e. ground (arith, e);
      at_rest = λ e. z;
    })
send_round-Turned turns none (m ∷ ms) l c q d =
    subst (Turned turns) (sym (send_round_next send_data l c m ms q))
      (send_data-Turned turns m l.replies _ refl refl (begun-Due (suc turns) m ms l c q d))
