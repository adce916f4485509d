-- ===== src/Tests/Hosts.antt =====
-- The theorems on the registry, the work thread and the discovery client, at small inputs.
use websocket_test.Base.{
  ℕ, zero, suc, ◌≡◌, refl, arith, true, Option, none, some, List, [], ◌∷◌, ◌++◌, length,
}
use websocket_test.Tests.{empty}
use websocket_test.Registry.{Cmd, CmdMap, find}
use websocket_test.Worker.{
  Call, bad_length, call_back, process, new_thread, put_msg, start, test_flag, process_msg,
  thread_calls,
}
use websocket_test.Worker.Packet.{message, process-message}
use websocket_test.Worker.Thread.{put_messages, direct_messages, never_processes}
use websocket_test.Discovery.{
  HostInfo, contains, Watches, running, get_server_list, split_string, parse_host_info,
  generate_addr_info, slash,
}
use websocket_test.Discovery.Names.{parse_host_info-generate_addr_info}
use websocket_test.Discovery.Split.{before_nul, fields, not_empty, split_string-fields}
use websocket_test.Discovery.Counter.{get_server_list-never}
use websocket_test.Discovery.Client.{Views, hosts_of}
use websocket_test.Sockets.{}

abbrev cmd : ℕ → Cmd
cmd n = record { cmd = n; sub_cmd = 0 }

abbrev registered : CmdMap ℕ
registered = (cmd 1, record { key = cmd 1; factory = some 100 }) ∷ []

-- A parser that reads the first byte as the command.
abbrev first_byte : List ℕ → Option ℕ
first_byte [] = none
first_byte (c ∷ rest) = some c

process-message_example :
    process first_byte none [] empty (message (4 ∷ []) 2 (8 ∷ 9 ∷ []))
    ≡ call_back first_byte none [] 4 (8 ∷ 9 ∷ []) none
unfolding find
process-message_example =
    process-message first_byte none [] empty (4 ∷ []) (8 ∷ 9 ∷ []) 2 4 (omega arith) (omega arith)
      (omega arith) refl

abbrev started : List Call
started = put_msg (1 ∷ []) ∷ start true ∷ test_flag ∷ process_msg (2 ∷ []) ∷ []

never_processes_example :
    ((thread_calls (λ m. bad_length) started new_thread).results ≡ bad_length ∷ [])
    × ((thread_calls (λ m. bad_length) started new_thread).msg_list ≡ (1 ∷ []) ∷ [])
    × ((thread_calls (λ m. bad_length) started new_thread).working ≡ 0)
unfolding put_messages direct_messages
never_processes_example = never_processes (λ m. bad_length) started

abbrev host : ℕ → HostInfo
host n = record { name = 97 ∷ []; ip = 49 ∷ []; port = n }

abbrev path : List ℕ
path = 47 ∷ 97 ∷ []

abbrev watching : Watches
watching = (path, []) ∷ []

-- The subscribers at the start.
abbrev at_first : Views
at_first p h = contains h (hosts_of p watching)

split_string-fields_example :
    split_string (47 ∷ 97 ∷ 47 ∷ 47 ∷ 98 ∷ []) slash
    ≡ not_empty (fields slash (before_nul (47 ∷ 97 ∷ 47 ∷ 47 ∷ 98 ∷ [])))
split_string-fields_example = split_string-fields slash (47 ∷ 97 ∷ 47 ∷ 47 ∷ 98 ∷ [])

-- Port 80, as it is printed and read.
parse_host_info-generate_addr_info_example :
    parse_host_info
      (λ s. 80)
      (slash ∷ (97 ∷ []) ++ (slash ∷ generate_addr_info (λ n. 56 ∷ 48 ∷ []) (host 80)))
    ≡ some (host 80)
unfolding generate_addr_info
parse_host_info-generate_addr_info_example =
    parse_host_info-generate_addr_info (λ s. 80) (λ n. 56 ∷ 48 ∷ []) (host 80)
      ((λ e. ground (arith, e)), (λ e. ground (arith, e)), (λ e. ground (arith, e)))
      (((λ e. omega arith), (λ e. omega arith)), tt)
      (
        ((λ e. omega arith), (λ e. omega arith)),
        (
          ((λ e. omega arith), (λ e. omega arith)),
          (
            ((λ e. omega arith), (λ e. omega arith)),
            (((λ e. omega arith), (λ e. omega arith)), tt),
          ),
        ),
      )
      (((λ e. omega arith), (λ e. omega arith)), tt)
      (((λ e. omega arith), (λ e. omega arith)), (((λ e. omega arith), (λ e. omega arith)), tt))
      (omega arith) refl

-- A service with 256 nodes.
nodes : ℕ → List (List ℕ)
nodes zero = []
nodes (suc n) = (49 ∷ []) ∷ nodes n

length-nodes : (n : ℕ) → length (nodes n) ≡ n
unfolding nodes
length-nodes zero = refl
length-nodes (suc n) = omega (arith, length-nodes n)

crowd : List (List ℕ)
crowd = nodes 256

length-crowd : length crowd ≡ 256
unfolding crowd
length-crowd = length-nodes 256

get_server_list-never_example : get_server_list (λ s. 80) 1000 path crowd ≡ running
get_server_list-never_example =
    get_server_list-never (λ s. 80) 1000 path crowd (omega (arith, length-crowd))
