-- ===== src/Tests/Requests.antt =====
-- The theorems on the way of messages from peer to peer, at small inputs.
use websocket_test.Base.{
  ℕ, ◌≡◌, refl, arith, Option, none, some, List, [], ◌∷◌, ◌++◌, map, code, inl, inr,
}
use websocket_test.Tests.{empty, idle, idle-IsReady, somewhere, message_of, task_with}
use websocket_test.Epoll.{writing}
use websocket_test.Task.{
  Address, Link, other, again, send_process, send_round, send_round_of, send_popped,
  get_msg_from_send_list,
}
use websocket_test.Task.Stream.{sends}
use websocket_test.Worker.{process}
use websocket_test.Tcp.Recv.{Receiver, returns}
use websocket_test.Tcp.Recv.Several.{recvs, reply_of, bytes_of}
use websocket_test.Tcp.Recv.Frames.{frame}
use websocket_test.Pipeline.{Request, packed, packed_arrival, answered}
use websocket_test.Pipeline.Peers.{sent_requests-answered}
use websocket_test.Udp.{Datagram}
use websocket_test.Udp.Datagrams.{packet_bodies}
use websocket_test.Pipeline.Datagrams.{
  Addressed, arriving, for_address, message_for, sent_packets-delivered,
}

-- A parser that reads the first byte as the command.
abbrev first_byte : List ℕ → Option ℕ
first_byte [] = none
first_byte (c ∷ rest) = some c

abbrev ask : Request
ask = record { head = 4 ∷ []; cmd = 4; body = 8 ∷ 9 ∷ [] }

-- A task that has the framed request to send, and a kernel that takes five bytes and later the rest.
abbrev asking : Link ℕ
asking = record {
  task = task_with (message_of (frame (packed ask)) ∷ message_of (frame (packed ask)) ∷ []);
  epoll = (5, writing) ∷ [];
  replies =
      record { count = 5; errno = other }
      ∷ record { count = 0; errno = again }
      ∷ record { count = 100; errno = other }
      ∷ record { count = 100; errno = other }
      ∷ [];
  sent = [];
}

-- One request arrives, then nothing for a while, then the other.
abbrev asked : List (Option (List Request))
asked = some (ask ∷ []) ∷ none ∷ some (ask ∷ []) ∷ []

asking-sent :
    websocket_test.Tcp.Send.pending (sends websocket_test.Tcp.send_data 2 asking).task ≡ []
unfolding sends send_process websocket_test.Task.send_loop send_round send_round_of send_popped
    get_msg_from_send_list websocket_test.Tcp.send_data
asking-sent = refl

sent_requests-answered_example :
    ((sends websocket_test.Tcp.send_data 2 asking).sent ≡ bytes_of (map packed_arrival asked))
    × (r' : Receiver) × (recvs (map reply_of (map packed_arrival asked)) idle ≡ returns r' (code 0))
    × (map (process first_byte none [] empty) r'.delivered
        ≡ answered first_byte none [] empty ask ∷ answered first_byte none [] empty ask ∷ [])
sent_requests-answered_example =
    sent_requests-answered first_byte none [] empty asked somewhere asking 2 idle
      (record { queue = refl; no_current = refl; at_start = refl; nothing_sent = refl })
      ((refl, omega arith), ((refl, omega arith), tt))
      ((omega arith, omega arith), (tt, ((omega arith, omega arith), tt))) asking-sent idle-IsReady
      refl refl

-- Three packets for two addresses.
abbrev elsewhere : Address
elsewhere = record somewhere { port = 1 }

abbrev three_packets : List Addressed
three_packets =
    (somewhere, (1 ∷ 2 ∷ [], 9 ∷ [])) ∷ (elsewhere, (3 ∷ [], [])) ∷ (somewhere, (4 ∷ [], [])) ∷ []

-- A task that has them to send, and a kernel that has no room after the first.
abbrev casting : Link Datagram
casting = record {
  task = task_with (map message_for three_packets);
  epoll = (5, writing) ∷ [];
  replies =
      record { count = 65536; errno = other }
      ∷ record { count = 0; errno = again }
      ∷ record { count = 65536; errno = other }
      ∷ record { count = 65536; errno = other }
      ∷ [];
  sent = [];
}

casting-sent :
    websocket_test.Udp.Send.waiting
      (sends websocket_test.Udp.send_data 2 casting).task.cur_send_msg
      (sends websocket_test.Udp.send_data 2 casting).task.send_list
    ≡ []
unfolding sends send_process websocket_test.Task.send_loop send_round send_round_of send_popped
    get_msg_from_send_list websocket_test.Udp.send_data
casting-sent = refl

abbrev listening : websocket_test.Udp.Receiver
listening = record { buffer = empty; data_size = 0; delivered = [] }

sent_packets-delivered_example :
    (websocket_test.Udp.recv_process
      (arriving somewhere (sends websocket_test.Udp.send_data 2 casting).sent)
      listening).delivered
    ≡ [] ++ packet_bodies (for_address somewhere three_packets)
sent_packets-delivered_example =
    sent_packets-delivered three_packets casting 2 somewhere listening
      (record {
        queue = refl;
        no_current = refl;
        nothing_sent = refl;
        whole =
            (inl (omega arith), (inr (refl, refl), (inl (omega arith), (inl (omega arith), tt))));
      })
      (omega arith, (omega arith, (omega arith, tt))) casting-sent
