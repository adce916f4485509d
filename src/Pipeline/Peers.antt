-- ===== src/Pipeline/Peers.antt =====
-- From peer to peer: requests that a `CTcpTask` (common/mytask.cpp) sends, received by another and processed by
-- `CWorkThread::Process` (common/work_thread.cpp).
use websocket_test.Base.{
  ℕ, ◌+◌, ◌^◌, ◌<◌, ◌≡◌, refl, sym, ap, ◌∙◌, subst, arith, Option, none, List, [], ◌∷◌, ◌++◌, map,
  append-nil, length, length-append, All, code,
}
use websocket_test.Buffer.{CvBuffer}
use websocket_test.Buffer.Order.{w16}
use websocket_test.Buffer.Wire.{wire, length-wire}
use websocket_test.Registry.{CmdMap}
use websocket_test.Worker.{Factory, UdpServer, process}
use websocket_test.Task.{SendMsg, Address, Link}
use websocket_test.Task.Stream.{bodies, sends, sends-keeps}
use websocket_test.Tcp.{send_data}
use websocket_test.Tcp.Send.{AllSendable, Streams, Within, remaining, pending, Streams-turns}
use websocket_test.Tcp.Recv.{Receiver, returns}
use websocket_test.Tcp.Recv.Field.{IsReady}
use websocket_test.Tcp.Recv.Frames.{frame, frames}
use websocket_test.Pipeline.{
  Request, packed, packed_arrival, requests_of, answered, IsRequest, packed_short,
  bodies_of-packed_arrival, requests_answered,
}
use websocket_test.Tcp.Recv.Several.{recvs, reply_of, bytes_of, FitsBuffer, bytes_of-bodies_of}

sends-Streams :
    (all : List ℕ) (n : ℕ) (l : Link ℕ) → Streams all l → Streams all (sends send_data n l)
sends-Streams all = sends-keeps send_data (Streams all) (Streams-turns all)

-- The message of one frame.
abbrev pub as_frame : Address → List ℕ → SendMsg
as_frame to b = record { body = frame b; to_addr = to }

bodies-as_frame : (to : Address) (bs : List (List ℕ)) → bodies (map (as_frame to) bs) ≡ frames bs
bodies-as_frame to [] = refl
bodies-as_frame to (b ∷ bs) = ap (λ r. frame b ++ r) (bodies-as_frame to bs)

as_frame-AllSendable :
    (to : Address) (bs : List (List ℕ))
    → All (λ b. length b < 2 ^ 15) bs
    → AllSendable (map (as_frame to) bs)
as_frame-AllSendable to [] h = tt
as_frame-AllSendable to (b ∷ bs) (h, hs) =
    let long = length-append (wire w16 (length b + 2)) b in
    let two = length-wire w16 (length b + 2) in
    (omega (arith, long, two), omega (arith, long, two), as_frame-AllSendable to bs hs)

-- A task with these messages queued and nothing sent.
pub record HasQueued (ms : List SendMsg) (l : Link ℕ) : Type 0 where
  pub queue : l.task.send_list ≡ ms
  pub no_current : l.task.cur_send_msg ≡ none
  pub at_start : l.task.cur_send_len ≡ 0
  pub nothing_sent : l.sent ≡ []

queued-Streams :
    (ms : List SendMsg) (l : Link ℕ) → AllSendable ms → HasQueued ms l → Streams (bodies ms) l
queued-Streams ms l s h = record {
  sendable = record {
    current = subst (λ c. Within l.task.cur_send_len c) (sym h.no_current) h.at_start;
    queued = subst AllSendable (sym h.queue) s;
  };
  stream =
      ap (λ x. x ++ pending l.task) h.nothing_sent
      ∙ ap (λ c. remaining l.task.cur_send_len c ++ bodies l.task.send_list) h.no_current
      ∙ ap bodies h.queue;
}

-- Once nothing is pending, what has been sent is all that was queued.
pub sends_all :
    (n : ℕ) (ms : List SendMsg) (l : Link ℕ)
    → AllSendable ms
    → HasQueued ms l
    → pending (sends send_data n l).task ≡ []
    → (sends send_data n l).sent ≡ bodies ms
sends_all n ms l s h e =
    let streams = sends-Streams (bodies ms) n l (queued-Streams ms l s h) in
    sym (append-nil (sends send_data n l).sent)
    ∙ ap (λ p. (sends send_data n l).sent ++ p) (sym e)
    ∙ streams.stream

module _ (parse_head : List ℕ → Option ℕ) (server : Option UdpServer) (commands : CmdMap Factory)
    (stack : CvBuffer) where
  -- Any number of requests, each shorter than 2^15 bytes and with a head that parses to its
  -- command, queued as frames at a task that has sent nothing: if, after any number of
  -- SendProcess and whatever the kernel answers, nothing is pending, then the bytes sent are
  -- those frames in order; and where they arrive in pieces cut between frames, each of one frame
  -- or more and within the buffer, with answers of EAGAIN anywhere between them, then the
  -- RecvProcess calls of a receiver between frames with an empty buffer and nothing handed on
  -- never fail, the last returns 0, and Process of what is handed on answers each request, in
  -- order, as its command's factory does.
  pub sent_requests-answered :
      (ps : List (Option (List Request))) (to : Address) (l : Link ℕ) (n : ℕ) (r : Receiver)
      → HasQueued (map (as_frame to) (map packed (requests_of ps))) l
      → All (IsRequest parse_head server commands stack) (requests_of ps)
      → All FitsBuffer (map packed_arrival ps)
      → pending (sends send_data n l).task ≡ []
      → IsReady r
      → r.buffer.offset ≡ 0
      → r.delivered ≡ []
      → ((sends send_data n l).sent ≡ bytes_of (map packed_arrival ps))
        × (r' : Receiver) × (recvs (map reply_of (map packed_arrival ps)) r ≡ returns r' (code 0))
        × (map (process parse_head server commands stack) r'.delivered
            ≡ map (answered parse_head server commands stack) (requests_of ps))
  sent_requests-answered ps to l n r h ok fits done ready empty none_yet =
      let qs = map packed (requests_of ps) in
      let short = packed_short parse_head server commands stack (requests_of ps) ok in
      let got =
        requests_answered parse_head server commands stack ps r ready empty none_yet ok fits in
      (
        sends_all n _ l (as_frame-AllSendable to qs short) h done
            ∙ bodies-as_frame to qs
            ∙ ap frames (sym (bodies_of-packed_arrival parse_head server commands stack ps))
            ∙ sym (bytes_of-bodies_of (map packed_arrival ps)),
        got.0,
        got.1,
        got.2,
      )
