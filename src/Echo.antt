-- ===== src/Echo.antt =====
-- The programs on websocketpp: `CClient` of client/cclient.cpp and the handlers of server/main.cpp, over connections
-- that keep the order of their messages. The texts that `Json::FastWriter` makes of the two values, and what
-- websocketpp does, are arguments.
pub mod Accounts
pub mod Exchange
use websocket_test.Base.{
  ℕ, suc, ◌+◌, Bool, true, false, not, Option, none, some, List, [], ◌∷◌, ◌++◌, same_bytes,
  if◌then◌else◌,
}

-- A frame: its payload and its opcode, which is 1 for a text.
pub record Message : Type 0 where
  pub payload : List ℕ
  pub opcode : ℕ

abbrev pub text : List ℕ → Message
text payload = record { payload = payload; opcode = 1 }

-- `coo` of `on_message`: {"msgid":"200","result":[0,"Ok"]}.
abbrev pub expected : List ℕ
expected =
    123 ∷ 34 ∷ 109 ∷ 115 ∷ 103 ∷ 105 ∷ 100 ∷ 34 ∷ 58 ∷ 34 ∷ 50 ∷ 48 ∷ 48 ∷ 34 ∷ 44 ∷ 34 ∷ 114 ∷ 101
    ∷ 115 ∷ 117 ∷ 108 ∷ 116 ∷ 34 ∷ 58 ∷ 91 ∷ 48 ∷ 44 ∷ 34 ∷ 79 ∷ 107 ∷ 34 ∷ 93 ∷ 125 ∷ []

-- Whether `on_message` of the client prints ok: where `compare` is not 0.
unfoldable pub reports_ok : Message → Bool
reports_ok m = not (same_bytes m.payload expected)

-- The messages on their way, what the client has reported, and how often a send has succeeded on either side.
pub record System : Type 0 where
  pub to_server : List Message
  pub to_client : List Message
  pub reports : List Bool
  pub asked : ℕ
  pub answered : ℕ

unfoldable pub start : System
start = record { to_server = []; to_client = []; reports = []; asked = 0; answered = 0 }

-- `csend`: a `send` that throws an error code is only printed.
unfoldable pub csend : Bool → List ℕ → System → System
csend sends payload s =
    if sends
    then record s { to_server = s.to_server ++ text payload ∷ []; asked = s.asked + 1 }
    else s

-- `on_open` of the client, with the text of `createRoom`.
unfoldable pub on_open : Bool → List ℕ → System → System
on_open sends request s = csend sends request s

-- `on_message` of the server, with the text of `rsp`; it answers with the message's own opcode.
unfoldable pub server_on_message : Bool → List ℕ → Message → System → System
server_on_message sends answer m s =
    if sends
    then record s {
      to_client = s.to_client ++ record { payload = answer; opcode = m.opcode } ∷ [];
      answered = s.answered + 1;
    }
    else s

-- `on_message` of the client.
unfoldable pub client_on_message : Message → System → System
client_on_message m s = record s { reports = s.reports ++ reports_ok m ∷ [] }

-- What happens: a connection opens, or the server or the client gets its next message. The Boolean is whether
-- websocketpp's `send` succeeds.
pub data Event : Type 0 where
  opens serves : Bool → Event
  receives : Event

unfoldable pub serve_next : Bool → List ℕ → List Message → System → Option System
serve_next sends answer [] s = none
serve_next sends answer (m ∷ ms) s =
    some (server_on_message sends answer m (record s { to_server = ms }))

unfoldable pub receive_next : List Message → System → Option System
receive_next [] s = none
receive_next (m ∷ ms) s = some (client_on_message m (record s { to_client = ms }))

module _ (request answer : List ℕ) where
  -- `none` where there is no message to hand on.
  unfoldable pub happens : Event → System → Option System
  happens (opens sends) s = some (on_open sends request s)
  happens (serves sends) s = serve_next sends answer s.to_server s
  happens receives s = receive_next s.to_client s

  unfoldable pub run : List Event → System → Option System
  run [] s = some s
  run (e ∷ es) s = elim (happens e s) [ none ↦ none | some s' ↦ run es s' ]
