-- ===== src/Udp/Datagrams.antt =====
-- `CUdpTask::RecvProcess` of common/mytask.cpp on framed datagrams, and on a runt.
use websocket_test.Base.{
  ℕ, ◌+◌, ◌-◌, ◌^◌, ◌≤◌, ◌<◌, ◌≡◌, refl, sym, ap, ap₂, ◌∙◌, arith, none, some, List, [], ◌∷◌, ◌++◌,
  length, take, drop, take_all, take-append, drop-append, length-append, append_assoc, append-nil,
  inr, All, map,
}
use websocket_test.Buffer.{CvBuffer, max_size, clear, get_raw, jump_buffer, add_data_size}
use websocket_test.Buffer.Bytes.{Memory, load, store, load-append, load-store_outside, load-store}
use websocket_test.Buffer.Order.{w16, to_network}
use websocket_test.Buffer.Bounds.{IsValid}
use websocket_test.Buffer.Fifo.{unread, get_raw_lem, load-jump_buffer}
use websocket_test.Buffer.Wire.{wire, value_of_wire}
use websocket_test.Udp.{Receiver, length_field, handle_packet, received, recv_one, recv_process}

-- A body as the peer frames it, with anything behind it.
abbrev pub packet : List ℕ → List ℕ → List ℕ
packet body tail = wire w16 (length body + 2) ++ (body ++ tail)

-- The buffer after a datagram that fits.
abbrev pub holding : Receiver → List ℕ → CvBuffer
holding r d = record { buffer = store r.buffer.buffer 0 d; offset = length d; get_offset = 0 }

received_lem :
    (d : List ℕ) (r : Receiver)
    → length d ≤ max_size
    → received d r ≡ record r { buffer = holding r d }
unfolding received clear add_data_size jump_buffer
received_lem d r h = ap (λ b. record r { buffer = b }) (rw (take_all max_size d h) (ground arith))

holding-unread : (r : Receiver) (d : List ℕ) → unread (holding r d) ≡ d
holding-unread r d =
    ap (load (store r.buffer.buffer 0 d) 0) {x = length d - 0} {y = length d} (omega arith)
    ∙ load-store r.buffer.buffer 0 d

module _ (r : Receiver) (body tail : List ℕ) (room : length (packet body tail) ≤ max_size)
    (fits : length body + 2 < 2 ^ 16) where
  datagram : List ℕ
  datagram = packet body tail

  b : CvBuffer
  unfolding datagram
  b = holding r datagram

  b-IsValid : IsValid b
  unfolding b
  b-IsValid = omega arith

  regroup : unread b ≡ packet body tail
  unfolding b
  regroup = holding-unread r datagram

  length-datagram : length (packet body tail) ≡ 2 + (length body + length tail)
  length-datagram = omega (arith, length-append body tail)

  field_read : get_raw b 2 ≡ (record b { get_offset = 2 }, some (wire w16 (length body + 2)))
  unfolding b
  field_read =
      (get_raw_lem b 2 b-IsValid (omega (arith, ap length regroup))).0
      ∙ ap₂ (λ g bs. (record b { get_offset = g }, some bs)) {x = 0 + 2} {y = 2} refl
          (ap (take 2) regroup ∙ take-append 2 (wire w16 (length body + 2)) (body ++ tail) refl)

  body_left : unread (record b { get_offset = 2 }) ≡ body ++ tail
  unfolding b
  body_left =
      (get_raw_lem b 2 b-IsValid (omega (arith, ap length regroup))).1
      ∙ ap (drop 2) regroup
      ∙ drop-append 2 (wire w16 (length body + 2)) (body ++ tail) refl

  body_copied : load b.buffer (jump_buffer (record b { get_offset = 2 })) (length body) ≡ body
  body_copied =
      load-jump_buffer (record b { get_offset = 2 }) (length body)
        (unfold b in omega (arith, length-datagram))
        (omega (arith, ap length body_left, length-append body tail))
      ∙ ap (take (length body)) body_left
      ∙ take-append (length body) body tail refl

  handled : (handle_packet (record r { buffer = b })).delivered ≡ r.delivered ++ body ∷ []
  unfolding handle_packet length_field b
  handled =
      ground
        (arith, field_read, body_copied, length-datagram, value_of_wire w16 (length body + 2) fits)

  -- One datagram hands on its body.
  pub delivered-recv_one : (recv_one (packet body tail) r).delivered ≡ r.delivered ++ body ∷ []
  unfolding recv_one b datagram
  delivered-recv_one =
      ap (λ x. (handle_packet x).delivered) (received_lem (packet body tail) r room) ∙ handled

-- A framed body and what stands behind it in its datagram.
abbrev pub Packet : Type 0
Packet = List ℕ × List ℕ

abbrev pub IsPacket : Packet → Type 0
IsPacket (body, tail) = (length (packet body tail) ≤ max_size) × (length body + 2 < 2 ^ 16)

abbrev pub packets : List Packet → List (List ℕ)
packets = map λ p. packet p.0 p.1

abbrev pub packet_bodies : List Packet → List (List ℕ)
packet_bodies = map λ p. p.0

recv_process_step :
    (d : List ℕ) (rest : List (List ℕ)) (r : Receiver)
    → 0 < length d
    → recv_process (d ∷ rest) r ≡ recv_process rest (recv_one d r)
unfolding recv_process
recv_process_step d rest r h = ground arith

-- Every datagram that holds a whole framed packet within the buffer, with any bytes behind it, is
-- handed on as its body, and in the order of arrival.
pub delivered-recv_process :
    (ps : List Packet) (r : Receiver)
    → All IsPacket ps
    → (recv_process (packets ps) r).delivered ≡ r.delivered ++ packet_bodies ps
unfolding recv_process
delivered-recv_process [] r h = sym (append-nil r.delivered)
delivered-recv_process ((body, tail) ∷ ps) r h =
    let next = recv_one (packet body tail) r in
    ap (λ x. x.delivered) (recv_process_step (packet body tail) (packets ps) r (omega arith))
    ∙ delivered-recv_process ps next h.1
    ∙ ap (λ ds. ds ++ packet_bodies ps) (delivered-recv_one r body tail h.0.0 h.0.1)
    ∙ append_assoc r.delivered (body ∷ []) (packet_bodies ps)

runt_copied : (m : Memory) (byte : ℕ) → load (store m 0 (byte ∷ [])) 0 65534 ≡ byte ∷ load m 1 65533
runt_copied m byte =
    load-append (store m 0 (byte ∷ [])) 0 1 65533
    ∙ ap₂ ◌++◌ (load-store m 0 (byte ∷ []))
        (load-store_outside m 0 (byte ∷ []) 1 65533 (inr (omega arith)))

runt_read :
    (m : Memory) (byte : ℕ)
    → get_raw (record { buffer = store m 0 (byte ∷ []); offset = 1; get_offset = 0 }) 2
      ≡ (record { buffer = store m 0 (byte ∷ []); offset = 1; get_offset = 0 }, none)
unfolding get_raw
runt_read m byte = refl

runt_handled :
    (byte : ℕ) (r : Receiver)
    → (handle_packet (record r { buffer = holding r (byte ∷ []) })).delivered
      ≡ r.delivered ++ load (store r.buffer.buffer 0 (byte ∷ [])) 0 65534 ∷ []
unfolding handle_packet length_field to_network jump_buffer
runt_handled byte r = ground (arith, runt_read r.buffer.buffer byte)

-- A datagram of a single byte, which is no packet, is handed on as a message of 65534 bytes: that
-- byte and what the buffer held before.
runt :
    (byte : ℕ) (r : Receiver)
    → (recv_one (byte ∷ []) r).delivered ≡ r.delivered ++ (byte ∷ load r.buffer.buffer 1 65533) ∷ []
unfolding recv_one
runt byte r =
    ap (λ x. (handle_packet x).delivered) (received_lem (byte ∷ []) r (omega arith))
    ∙ runt_handled byte r
    ∙ ap (λ d. r.delivered ++ d ∷ []) (runt_copied r.buffer.buffer byte)
