-- ===== src/Worker/Packet.antt =====
-- `CWorkThread::Process` of common/work_thread.cpp on a message of a head and a body.
use websocket_test.Base.{
  ℕ, ◌^◌, ◌≤◌, ◌<◌, ◌≡◌, refl, sym, ap, ◌∙◌, arith, Option, some, List, ◌++◌, length, take, drop,
  take-append, drop-append, take_all, length-append, ◌==◌, if◌then◌else◌,
}
use websocket_test.Buffer.{
  CvBuffer, max_size, set_buffer, take_value, jump, jump_buffer, remain_size,
}
use websocket_test.Buffer.Bytes.{load, load-store}
use websocket_test.Buffer.Order.{w16}
use websocket_test.Buffer.Bounds.{IsValid, jump-IsValid}
use websocket_test.Buffer.Fifo.{unread, load-jump_buffer, unread-jump, length-unread-remain_size}
use websocket_test.Buffer.Wire.{wire, length-wire, take_value_lem}
use websocket_test.Registry.{CmdMap, find}
use websocket_test.Worker.{
  Factory, UdpServer, Outcome, bad_length, call_back, process_body, process_buffer, process,
}

-- What a peer sends: each part behind a length, that of the body being what the peer says it is.
abbrev pub message : List ℕ → ℕ → List ℕ → List ℕ
message head len body = wire w16 (length head) ++ (head ++ (wire w16 len ++ body))

set_buffer-loaded :
    (stack : CvBuffer) (bytes : List ℕ)
    → 0 < length bytes
    → length bytes ≤ max_size
    → (unread (set_buffer stack (some bytes)).0 ≡ bytes) × IsValid (set_buffer stack (some bytes)).0
unfolding set_buffer
set_buffer-loaded stack bytes pos room = ground (arith, load-store stack.buffer 0 bytes)

module _ (parse_head : List ℕ → Option ℕ) (server : Option UdpServer)
    (commands : CmdMap Factory) where
  -- The message is in the buffer, and both lengths fit their fields.
  module _ (head body : List ℕ) (len : ℕ) (b : CvBuffer) (valid : IsValid b)
      (head_fits : length head < 2 ^ 16) (len_fits : len < 2 ^ 16)
      (e : unread b ≡ wire w16 (length head) ++ (head ++ (wire w16 len ++ body))) where
    after_len : CvBuffer
    after_len = (take_value w16 b).0

    tail : List ℕ
    tail = head ++ (wire w16 len ++ body)

    first : ((take_value w16 b).1 ≡ length head) × (unread after_len ≡ tail) × IsValid after_len
    unfolding after_len tail
    first = take_value_lem w16 b (length head) (head ++ (wire w16 len ++ body)) valid head_fits e

    head_read : load after_len.buffer (jump_buffer after_len) (length head) ≡ head
    unfolding tail
    head_read =
        load-jump_buffer after_len (length head) first.2
          (omega (arith, ap length first.1, length-append head (wire w16 len ++ body)))
        ∙ ap (take (length head)) first.1
        ∙ take-append (length head) head (wire w16 len ++ body) refl

    skipped : CvBuffer
    skipped = jump after_len (length head)

    skipped-unread : unread skipped ≡ wire w16 len ++ body
    unfolding skipped tail
    skipped-unread =
        unread-jump after_len (length head) (omega arith) first.2
        ∙ ap (drop (length head)) first.1
        ∙ drop-append (length head) head (wire w16 len ++ body) refl

    skipped-IsValid : IsValid skipped
    unfolding skipped
    skipped-IsValid = jump-IsValid after_len (length head) first.2

    last : CvBuffer
    last = (take_value w16 skipped).0

    second : ((take_value w16 skipped).1 ≡ len) × (unread last ≡ body) × IsValid last
    unfolding last
    second = take_value_lem w16 skipped len body skipped-IsValid len_fits skipped-unread

    remains : remain_size last ≡ length body
    remains = sym (length-unread-remain_size last second.2) ∙ ap length second.1

    body_read : load last.buffer (jump_buffer last) (remain_size last) ≡ body
    body_read =
        ap (load last.buffer (jump_buffer last)) remains
        ∙ load-jump_buffer last (length body) second.2 (omega (arith, ap length second.1))
        ∙ ap (take (length body)) second.1
        ∙ take_all (length body) body (omega arith)

    -- What `process_body` answers for a body that was read, given its announced length.
    answer : ℕ → ℕ → List ℕ → ℕ → Outcome
    answer cmd left bytes announced =
        if left == announced
        then call_back parse_head server commands cmd bytes
            (find (record { cmd = cmd; sub_cmd = 0 }) commands)
        else bad_length

    process_head_lem :
        (cmd : ℕ)
        → parse_head head ≡ some cmd
        → process_buffer parse_head server commands b
          ≡ process_body parse_head server commands after_len (length head) (some cmd)
    unfolding process_buffer after_len
    process_head_lem cmd p =
        ap
          (λ n.
            process_body parse_head server commands after_len n
              (parse_head (load after_len.buffer (jump_buffer after_len) n)))
          first.0
        ∙ ap (λ h. process_body parse_head server commands after_len (length head) (parse_head h))
            head_read
        ∙ ap (process_body parse_head server commands after_len (length head)) p

    process_body_lem :
        (cmd : ℕ)
        → process_body parse_head server commands after_len (length head) (some cmd)
          ≡ answer cmd (length body) body len
    unfolding process_body after_len skipped last answer
    process_body_lem cmd =
        ap (λ bytes. answer cmd (remain_size last) bytes (take_value w16 skipped).1) body_read
        ∙ ap (λ n. answer cmd n body (take_value w16 skipped).1) remains
        ∙ ap (answer cmd (length body) body) second.0

-- A message that fits the buffer, each of whose lengths fits its field, and whose head parses to a
-- command, reaches the factory registered for that command, with its body as it was sent, where the
-- length in front of the body is the body's; any other length there makes Process answer that the
-- length is bad.
pub process-message :
    (parse_head : List ℕ → Option ℕ) (server : Option UdpServer) (commands : CmdMap Factory)
    (stack : CvBuffer) (head body : List ℕ) (len cmd : ℕ)
    → length head < 2 ^ 16
    → len < 2 ^ 16
    → length (message head len body) ≤ max_size
    → parse_head head ≡ some cmd
    → process parse_head server commands stack (message head len body) ≡ (
        if length body == len
        then call_back parse_head server commands cmd body
            (find (record { cmd = cmd; sub_cmd = 0 }) commands)
        else bad_length)
unfolding process answer
process-message parse_head server commands stack head body len cmd hf lf room p =
    let b = (set_buffer stack (some (message head len body))).0 in
    let (e, v) =
      set_buffer-loaded stack (message head len body)
        (omega (
          arith,
          length-append (wire w16 (length head)) (head ++ (wire w16 len ++ body)),
          length-wire w16 (length head),
        ))
        room in
    process_head_lem parse_head server commands head body len b v hf lf e cmd p
    ∙ process_body_lem parse_head server commands head body len b v hf lf e cmd
