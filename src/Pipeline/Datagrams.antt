-- ===== src/Pipeline/Datagrams.antt =====
-- From peer to peer: framed packets that a `CUdpTask` (common/mytask.cpp) sends to several addresses, and what the
-- one at an address hands on.
use websocket_test.Base.{
  ℕ, ◌+◌, ◌^◌, ◌<◌, ◌≡◌, refl, sym, ap, ◌∙◌, subst, arith, Bool, true, false, ◌&&◌, none, List, [],
  ◌∷◌, ◌++◌, ◌==◌, if◌then◌else◌, map, append-nil, length, length-append, All,
}
use websocket_test.Buffer.Order.{w16}
use websocket_test.Buffer.Wire.{wire, length-wire}
use websocket_test.Task.{SendMsg, Address, Link}
use websocket_test.Task.Stream.{sends}
use websocket_test.Udp.{Datagram, send_data, Receiver, recv_process}
use websocket_test.Udp.Send.{
  datagram, waiting, IsShort, IsWhole, AllShort, Delivers, sends-Delivers,
}
use websocket_test.Udp.Datagrams.{
  packet, Packet, IsPacket, packets, packet_bodies, delivered-recv_process,
}

-- A packet with the address it is for, and its message.
abbrev pub Addressed : Type 0
Addressed = Address × Packet

abbrev pub message_for : Addressed → SendMsg
message_for (to, (body, tail)) = record { body = packet body tail; to_addr = to }

abbrev pub same_address : Address → Address → Bool
same_address a b = (a.family == b.family && a.addr == b.addr) && a.port == b.port

-- What arrives at an address, over a network that loses nothing.
abbrev pub arriving : Address → List Datagram → List (List ℕ)
arriving at [] = []
arriving at (d ∷ ds) =
    let rest = arriving at ds in if same_address at d.destination then d.payload ∷ rest else rest

abbrev pub for_address : Address → List Addressed → List Packet
for_address at [] = []
for_address at ((to, p) ∷ ps) =
    let rest = for_address at ps in if same_address at to then p ∷ rest else rest

abbrev pub IsAddressed : Addressed → Type 0
IsAddressed (to, (body, tail)) = length (packet body tail) < 2 ^ 16

-- A task with these messages queued and nothing sent, on a socket that takes datagrams whole or says to try again.
pub record HasQueued (ms : List SendMsg) (l : Link Datagram) : Type 0 where
  pub queue : l.task.send_list ≡ ms
  pub no_current : l.task.cur_send_msg ≡ none
  pub nothing_sent : l.sent ≡ []
  pub whole : All IsWhole l.replies

length-packet : (body tail : List ℕ) → length (packet body tail) ≡ 2 + (length body + length tail)
length-packet body tail = omega (
  arith,
  length-append (wire w16 (length body + 2)) (body ++ tail),
  length-wire w16 (length body + 2),
  length-append body tail,
)

messages-AllShort : (ps : List Addressed) → All IsAddressed ps → AllShort (map message_for ps)
messages-AllShort [] h = tt
messages-AllShort ((to, (body, tail)) ∷ ps) (h, hs) =
    (omega (arith, length-packet body tail), h, messages-AllShort ps hs)

for_address-IsPacket :
    (at : Address) (ps : List Addressed) → All IsAddressed ps → All IsPacket (for_address at ps)
for_address-IsPacket at [] h = tt
for_address-IsPacket at ((to, (body, tail)) ∷ ps) (h, hs) =
    chosen (same_address at to) (for_address-IsPacket at ps hs)
  where
    chosen :
        (b : Bool)
        → All IsPacket (for_address at ps)
        → All IsPacket (if b then (body, tail) ∷ for_address at ps else for_address at ps)
    chosen true later = ((omega (arith, h), omega (arith, h, length-packet body tail)), later)
    chosen false later = later

arriving-messages :
    (at : Address) (ps : List Addressed)
    → arriving at (map datagram (map message_for ps)) ≡ packets (for_address at ps)
arriving-messages at [] = refl
arriving-messages at ((to, (body, tail)) ∷ ps) =
    chosen (same_address at to) (arriving-messages at ps)
  where
    chosen :
        (b : Bool)
        → arriving at (map datagram (map message_for ps)) ≡ packets (for_address at ps)
        → (if b
            then packet body tail ∷ arriving at (map datagram (map message_for ps))
            else arriving at (map datagram (map message_for ps)))
          ≡ packets (if b then (body, tail) ∷ for_address at ps else for_address at ps)
    chosen true e = ap (λ r. packet body tail ∷ r) e
    chosen false e = e

queued-Delivers :
    (ms : List SendMsg) (l : Link Datagram)
    → AllShort ms
    → HasQueued ms l
    → Delivers (map datagram ms) l
queued-Delivers ms l s h = record {
  whole = h.whole;
  current = subst IsShort (sym h.no_current) tt;
  queued = subst AllShort (sym h.queue) s;
  order =
      ap (λ x. x ++ waiting l.task.cur_send_msg l.task.send_list) h.nothing_sent
      ∙ ap (λ c. waiting c l.task.send_list) h.no_current
      ∙ ap (map datagram) h.queue;
}

-- Packets for any addresses, each a length, a body and any bytes behind it, of fewer than 2^16
-- bytes together, queued at a UDP task that has sent nothing, on a socket that takes datagrams
-- whole or says to try again: if nothing waits after any number of SendProcess, then a receiver at
-- an address, over a network that loses nothing, hands on the bodies of the packets for that
-- address, in order, each once, behind what it has handed on before.
pub sent_packets-delivered :
    (ps : List Addressed) (l : Link Datagram) (n : ℕ) (at : Address) (r : Receiver)
    → HasQueued (map message_for ps) l
    → All IsAddressed ps
    → waiting (sends send_data n l).task.cur_send_msg (sends send_data n l).task.send_list ≡ []
    → (recv_process (arriving at (sends send_data n l).sent) r).delivered
      ≡ r.delivered ++ packet_bodies (for_address at ps)
sent_packets-delivered ps l n at r h ok done =
    let d =
      sends-Delivers (map datagram (map message_for ps)) n l
        (queued-Delivers (map message_for ps) l (messages-AllShort ps ok) h) in
    let all =
      sym (append-nil (sends send_data n l).sent)
      ∙ ap (λ w. (sends send_data n l).sent ++ w) (sym done)
      ∙ d.order in
    ap (λ s. (recv_process (arriving at s) r).delivered) all
    ∙ ap (λ s. (recv_process s r).delivered) (arriving-messages at ps)
    ∙ delivered-recv_process (for_address at ps) r (for_address-IsPacket at ps ok)
