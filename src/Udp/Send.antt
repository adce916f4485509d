-- ===== src/Udp/Send.antt =====
-- `CUdpTask::SendData` of common/mytask.cpp within a whole `SendProcess`.
use websocket_test.Base.{
  ℕ, ◌^◌, ◌≤◌, ◌<◌, ◌≡◌, ◌≢◌, refl, sym, ap, subst, ◌∙◌, ◌⊎◌, inr, arith, Option, none, some, List,
  [], ◌∷◌, ◌++◌, All, length, take_all, append_assoc, failed, map, true,
}
use websocket_test.Task.{SendMsg, Link, Reply, send_process, next_reply, may_retry}
use websocket_test.Task.Stream.{KeepsTurn, sends, sends-keeps, send_process-ne_failed}
use websocket_test.Udp.{Datagram, send_data}

abbrev pub datagram : SendMsg → Datagram
datagram m = record { destination = m.to_addr; payload = m.body }

-- The messages that are still to go, the current one first.
abbrev pub waiting : Option SendMsg → List SendMsg → List Datagram
waiting none ms = map datagram ms
waiting (some m) ms = datagram m ∷ map datagram ms

-- A datagram socket takes a datagram whole, or not at all and then says to try again.
abbrev pub IsWhole : Reply → Type 0
IsWhole r = (2 ^ 16 ≤ r.count) ⊎ ((r.count ≡ 0) × (may_retry r.errno ≡ true))

abbrev pub IsShort : Option SendMsg → Type 0
IsShort none = Unit {0}
IsShort (some m) = (0 < length m.body) × (length m.body < 2 ^ 16)

abbrev pub AllShort : List SendMsg → Type 0
AllShort [] = Unit {0}
AllShort (m ∷ ms) = (0 < length m.body) × (length m.body < 2 ^ 16) × AllShort ms

-- The datagrams sent, followed by those still to go, are a given list.
pub record Delivers (all : List Datagram) (l : Link Datagram) : Type 0 where
  pub whole : All IsWhole l.replies
  pub current : IsShort l.task.cur_send_msg
  pub queued : AllShort l.task.send_list
  pub order : l.sent ++ waiting l.task.cur_send_msg l.task.send_list ≡ all

next-IsWhole :
    (rs : List Reply) → All IsWhole rs → IsWhole (next_reply rs).0 × All IsWhole (next_reply rs).1
next-IsWhole [] h = (inr (refl, refl), tt)
next-IsWhole (r ∷ rs) h = h

send_data-Delivers :
    (all : List Datagram) (m : SendMsg) (l : Link Datagram)
    → l.task.cur_send_msg ≡ some m
    → Delivers all l
    → Delivers all (send_data m l).0
unfolding send_data
send_data-Delivers all m l e d =
    let (now, later) = next-IsWhole l.replies d.whole in
    let short : IsShort (some m) = subst IsShort e d.current in
    let order : l.sent ++ (datagram m ∷ map datagram l.task.send_list) ≡ all =
      ap (λ c. l.sent ++ waiting c l.task.send_list) (sym e) ∙ d.order in
    record {
      whole = ground (arith);
      current = ground (arith);
      queued = ground (arith);
      order = ground (
        arith,
        take_all (length m.body) m.body,
        append_assoc l.sent (datagram m ∷ []) (map datagram l.task.send_list),
      );
    }

Delivers-turns : (all : List Datagram) → KeepsTurn send_data (Delivers all)
Delivers-turns all = record {
  send = send_data-Delivers all;
  pop = λ m ms l e q d.
      let queued : AllShort (m ∷ ms) = subst AllShort q d.queued in
      record {
        whole = d.whole;
        current = (queued.0, queued.1);
        queued = queued.2;
        order =
            ap (λ ms'. l.sent ++ map datagram ms') (sym q)
            ∙ ap (λ c. l.sent ++ waiting c l.task.send_list) (sym e)
            ∙ d.order;
      };
  rest = λ l e q d. record {
    whole = d.whole;
    current = d.current;
    queued = d.queued;
    order = d.order;
  };
}

-- However often `SendProcess` is called, no message is lost, cut, repeated or reordered.
pub sends-Delivers :
    (all : List Datagram) (n : ℕ) (l : Link Datagram)
    → Delivers all l
    → Delivers all (sends send_data n l)
sends-Delivers all = sends-keeps send_data (Delivers all) (Delivers-turns all)

send_data-ne_failed : (m : SendMsg) (l : Link Datagram) → (send_data m l).1 ≢ failed
unfolding send_data
send_data-ne_failed m l = ground arith

-- Whatever the kernel answers, a UDP task's SendProcess never returns -1.
send_process-ne-failed : (l : Link Datagram) → (send_process send_data l).1 ≢ failed
send_process-ne-failed = send_process-ne_failed send_data send_data-ne_failed
