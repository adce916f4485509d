-- ===== src/Tcp/Recv/Several.antt =====
-- Several `RecvProcess` of a `CTcpTask` (common/mytask.cpp), one after another.
use websocket_test.Base.{
  ℕ, ◌≤◌, ◌<◌, ◌≡◌, refl, sym, ap, ◌∙◌, Option, none, some, List, [], ◌∷◌, ◌++◌, append_assoc,
  append-nil, length, map, All, code,
}
use websocket_test.Buffer.{max_size}
use websocket_test.Task.{again}
use websocket_test.Tcp.Recv.{RecvReply, error, bytes, Receiver, Parsed, returns, recv_process}
use websocket_test.Tcp.Recv.Field.{IsReady}
use websocket_test.Tcp.Recv.Frames.{frame, frames, IsFramed, Received, recv_process-Received}

-- The next one, unless -1 has ended the task.
unfoldable pub then_next : (Receiver → Parsed) → Parsed → Parsed
then_next next (returns r (code n)) = next r
then_next next other = other

unfoldable pub recvs : List RecvReply → Receiver → Parsed
recvs [] r = returns r (code 0)
recvs (a ∷ xs) r = then_next (recvs xs) (recv_process a r)

-- What arrives at once: nothing yet, or whole frames.
abbrev pub Arrival : Type 0
Arrival = Option (List (List ℕ))

abbrev pub reply_of : Arrival → RecvReply
reply_of none = error again
reply_of (some bodies) = bytes (frames bodies)

abbrev pub bodies_of : List Arrival → List (List ℕ)
bodies_of [] = []
bodies_of (none ∷ xs) = bodies_of xs
bodies_of (some bodies ∷ xs) = bodies ++ bodies_of xs

abbrev pub bytes_of : List Arrival → List ℕ
bytes_of [] = []
bytes_of (none ∷ xs) = bytes_of xs
bytes_of (some bodies ∷ xs) = frames bodies ++ bytes_of xs

frames-append : (bs cs : List (List ℕ)) → frames (bs ++ cs) ≡ frames bs ++ frames cs
frames-append [] cs = refl
frames-append (b ∷ bs) cs =
    ap (λ r. frame b ++ r) (frames-append bs cs)
    ∙ sym (append_assoc (frame b) (frames bs) (frames cs))

-- The arrivals are the stream of the frames, cut between frames.
pub bytes_of-bodies_of : (xs : List Arrival) → bytes_of xs ≡ frames (bodies_of xs)
bytes_of-bodies_of [] = refl
bytes_of-bodies_of (none ∷ xs) = bytes_of-bodies_of xs
bytes_of-bodies_of (some bodies ∷ xs) =
    ap (λ r. frames bodies ++ r) (bytes_of-bodies_of xs) ∙ sym (frames-append bodies (bodies_of xs))

-- Some frames, and all within the buffer.
abbrev pub FitsBuffer : Arrival → Type 0
FitsBuffer none = Unit {0}
FitsBuffer (some bodies) = (0 < length bodies) × (length (frames bodies) ≤ max_size)

All-split : (bs cs : List (List ℕ)) → All IsFramed (bs ++ cs) → All IsFramed bs × All IsFramed cs
All-split [] cs h = (tt, h)
All-split (b ∷ bs) cs (h, hs) = let (now, later) = All-split bs cs hs in ((h, now), later)

then_next-Received :
    {before bodies later : List (List ℕ)} {out : Parsed} (next : Receiver → Parsed)
    (got : Received before bodies out)
    → Received got.receiver.delivered later (next got.receiver)
    → Received before (bodies ++ later) (then_next next out)
unfolding then_next
then_next-Received {before} {bodies} {later} next got rest = record {
  receiver = rest.receiver;
  returned = ap (then_next next) got.returned ∙ rest.returned;
  handed_on =
      rest.handed_on ∙ ap (λ d. d ++ later) got.handed_on ∙ append_assoc before bodies later;
  ready = rest.ready;
  empty = rest.empty;
}

-- Whole frames that arrive in several pieces, cut between frames, with nothing in between now and then, are handed
-- on in order.
pub recvs-Received :
    (xs : List Arrival) (r : Receiver)
    → IsReady r
    → r.buffer.offset ≡ 0
    → All FitsBuffer xs
    → All IsFramed (bodies_of xs)
    → Received r.delivered (bodies_of xs) (recvs (map reply_of xs) r)
unfolding recvs then_next recv_process
recvs-Received [] r ready empty fits framed = record {
  receiver = r;
  returned = refl;
  handed_on = sym (append-nil r.delivered);
  ready = ready;
  empty = empty;
}
recvs-Received (none ∷ xs) r ready empty (f, fits) framed =
    recvs-Received xs r ready empty fits framed
recvs-Received (some bodies ∷ xs) r ready empty ((some_frame, room), fits) framed =
    let now = All-split bodies (bodies_of xs) framed in
    let got = recv_process-Received bodies r ready empty now.0 some_frame room in
    then_next-Received (recvs (map reply_of xs)) got
      (recvs-Received xs got.receiver got.ready got.empty fits now.1)
