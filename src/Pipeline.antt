-- ===== src/Pipeline.antt =====
-- From the socket to the handler: the messages that a `CTcpTask` (common/mytask.cpp) hands on, each given
-- to `CWorkThread::Process` (common/work_thread.cpp).
pub mod Peers
pub mod Datagrams
use websocket_test.Base.{
  ℕ, ◌+◌, ◌^◌, ◌≤◌, ◌<◌, ◌≡◌, refl, ap, ap₂, ◌∙◌, arith, Option, none, some, sym, subst, map-append,
  List, [], ◌∷◌, ◌++◌, map, length, length-append, All, code, ==_iff,
}
use websocket_test.Buffer.{CvBuffer, max_size}
use websocket_test.Buffer.Order.{w16}
use websocket_test.Buffer.Wire.{wire, length-wire}
use websocket_test.Registry.{CmdMap, find}
use websocket_test.Worker.{Factory, UdpServer, Outcome, call_back, process}
use websocket_test.Worker.Packet.{message, process-message}
use websocket_test.Tcp.Recv.{Receiver, returns}
use websocket_test.Tcp.Recv.Field.{IsReady}
use websocket_test.Tcp.Recv.Frames.{IsFramed}
use websocket_test.Tcp.Recv.Several.{
  recvs, Arrival, reply_of, bodies_of, FitsBuffer, recvs-Received,
}

-- A request: its head, the command that the head stands for, and its body.
pub record Request : Type 0 where
  pub head : List ℕ
  pub cmd : ℕ
  pub body : List ℕ

-- What the peer puts into one frame.
abbrev pub packed : Request → List ℕ
packed q = message q.head (length q.body) q.body

-- What arrives at once: nothing yet, or the frames of some requests; and all that arrives.
abbrev pub packed_arrival : Option (List Request) → Arrival
packed_arrival none = none
packed_arrival (some qs) = some (map packed qs)

abbrev pub requests_of : List (Option (List Request)) → List Request
requests_of [] = []
requests_of (none ∷ ps) = requests_of ps
requests_of (some qs ∷ ps) = qs ++ requests_of ps

module _ (parse_head : List ℕ → Option ℕ) (server : Option UdpServer) (commands : CmdMap Factory)
    (stack : CvBuffer) where
  -- The handler's answer to a request.
  abbrev pub answered : Request → Outcome
  answered q =
      call_back parse_head server commands q.cmd q.body
        (find (record { cmd = q.cmd; sub_cmd = 0 }) commands)

  abbrev pub IsRequest : Request → Type 0
  IsRequest q = (parse_head q.head ≡ some q.cmd) × (length (packed q) < 2 ^ 15)

  length-packed : (q : Request) → length (packed q) ≡ length q.head + length q.body + 4
  length-packed q =
      length-append (wire w16 (length q.head)) (q.head ++ (wire w16 (length q.body) ++ q.body))
      ∙ omega (
        arith,
        length-wire w16 (length q.head),
        length-append q.head (wire w16 (length q.body) ++ q.body),
        length-append (wire w16 (length q.body)) q.body,
        length-wire w16 (length q.body),
      )

  process-packed :
      (q : Request) → IsRequest q → process parse_head server commands stack (packed q) ≡ answered q
  process-packed q (e, short) =
      process-message parse_head server commands stack q.head q.body (length q.body) q.cmd
        (omega (arith, length-packed q)) (omega (arith, length-packed q)) (omega arith) e
      ∙ rw ((==_iff (length q.body) (length q.body)).1 refl) refl

  answers_each :
      (qs : List Request)
      → All IsRequest qs
      → map (process parse_head server commands stack) (map packed qs) ≡ map answered qs
  answers_each [] h = refl
  answers_each (q ∷ qs) (h, hs) = ap₂ ◌∷◌ (process-packed q h) (answers_each qs hs)

  pub packed_short :
      (qs : List Request) → All IsRequest qs → All (λ b. length b < 2 ^ 15) (map packed qs)
  packed_short [] h = tt
  packed_short (q ∷ qs) ((e, short), hs) = (short, packed_short qs hs)

  bodies_of-packed_arrival :
      (ps : List (Option (List Request)))
      → bodies_of (map packed_arrival ps) ≡ map packed (requests_of ps)
  bodies_of-packed_arrival [] = refl
  bodies_of-packed_arrival (none ∷ ps) = bodies_of-packed_arrival ps
  bodies_of-packed_arrival (some qs ∷ ps) =
      ap (λ r. map packed qs ++ r) (bodies_of-packed_arrival ps)
      ∙ sym (map-append packed qs (requests_of ps))

  -- Framed requests that arrive in pieces cut between frames are received, and each is answered.
  pub requests_answered :
      (ps : List (Option (List Request))) (r : Receiver)
      → IsReady r
      → r.buffer.offset ≡ 0
      → r.delivered ≡ []
      → All IsRequest (requests_of ps)
      → All FitsBuffer (map packed_arrival ps)
      → (r' : Receiver) × (recvs (map reply_of (map packed_arrival ps)) r ≡ returns r' (code 0))
        × (map (process parse_head server commands stack) r'.delivered
            ≡ map answered (requests_of ps))
  requests_answered ps r ready empty none_yet ok fits =
      let all = bodies_of-packed_arrival ps in
      let got =
        recvs-Received (map packed_arrival ps) r ready empty fits
          (subst (All IsFramed) (sym all) (packed_short (requests_of ps) ok)) in
      (
        got.receiver,
        got.returned,
        ap (map (process parse_head server commands stack))
              (got.handed_on ∙ ap (λ d. d ++ bodies_of (map packed_arrival ps)) none_yet ∙ all)
            ∙ answers_each (requests_of ps) ok,
      )
