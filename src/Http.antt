-- ===== src/Http.antt =====
-- `CHttpClient` of common/http_client.h and common/http_client.cpp, and `GetUdpServerAddr` of common/common.cpp.
-- libcurl, jsoncpp and `atoi` are arguments.
pub mod Transfers
pub mod Lookup
use websocket_test.Base.{
  ℕ, zero, suc, ◌-◌, ◌%◌, ◌^◌, Bool, true, false, not, Option, none, some, List, [], ◌∷◌, ◌++◌,
  ◌==◌, if◌then◌else◌, length, same_bytes, Status, failed, code,
}
use websocket_test.Config.Load.{c_string}

-- What is set on a handle by `curl_easy_setopt`. Without a call, libcurl verifies the peer.
pub record Options : Type 0 where
  pub url : List ℕ
  pub post_fields : Option (List ℕ)
  pub verify : Bool
  pub ca_info : Option (List ℕ)
  pub timeout : ℕ

-- What a transfer does: its code, and the pieces with which it calls the write function, whose `size` is 1.
pub record Transfer : Type 0 where
  pub res : ℕ
  pub pieces : List (List ℕ)

-- `OnWirteData`: what it returns, and the response; a buffer that is NULL is none.
unfoldable pub on_write_data : Option (List ℕ) → List ℕ → ℕ × List ℕ
on_write_data none response = (2 ^ 64 - 1, response)
on_write_data (some piece) response = (length piece, response ++ piece)

unfoldable pub received : List (List ℕ) → List ℕ → List ℕ
received [] response = response
received (piece ∷ pieces) response = received pieces (on_write_data (some piece) response).1

abbrev pub failed_init : ℕ
failed_init = 2

-- The library's state, and the handles that have been made and not cleaned up.
pub record Session (W : Type 0) : Type 0 where
  pub world : W
  pub handles : ℕ

pub data Request : Type 0 where
  post : List ℕ → List ℕ → Request
  get : List ℕ → Request
  posts : List ℕ → List ℕ → Option (List ℕ) → Request
  gets : List ℕ → Option (List ℕ) → Request

-- A certificate's path that is NULL turns the verification off.
unfoldable pub verifies : Option (List ℕ) → Bool
verifies none = false
verifies (some path) = true

unfoldable pub options : Request → Options
options (post url fields) = record {
  url = url;
  post_fields = some fields;
  verify = true;
  ca_info = none;
  timeout = 2;
}
options (get url) = record {
  url = url;
  post_fields = none;
  verify = true;
  ca_info = none;
  timeout = 20;
}
options (posts url fields ca) = record {
  url = url;
  post_fields = some fields;
  verify = verifies ca;
  ca_info = ca;
  timeout = 10;
}
options (gets url ca) = record {
  url = url;
  post_fields = none;
  verify = verifies ca;
  ca_info = ca;
  timeout = 3;
}

module _ {W : Type 0} (easy_init : W → Bool × W) (perform : Options → W → Transfer × W) where
  -- `curl_easy_perform`.
  unfoldable pub performed : Options → List ℕ → W → ℕ × (List ℕ × W)
  performed o response w = let (t, w') = perform o w in (t.res, (received t.pieces response, w'))

  -- `Post` and `Gets`, behind the options: one transfer, and the handle is cleaned up.
  unfoldable pub once : Options → List ℕ → Session W → ℕ × (List ℕ × Session W)
  once o response s =
      let (res, (response', w)) = performed o response s.world in
      (res, (response', record s { world = w; handles = s.handles - 1 }))

  -- `Get` and `Posts`: two transfers.
  unfoldable pub twice : Options → List ℕ → Session W → ℕ × (List ℕ × Session W)
  twice o response s =
      let (res, (response', w)) = performed o response s.world in
      let (ignored, (response'', w')) = performed o response' w in
      (res, (response'', record s { world = w' }))

  unfoldable pub with_handle : Request → List ℕ → Session W → ℕ × (List ℕ × Session W)
  with_handle (post url fields) = once (options (post url fields))
  with_handle (get url) = twice (options (get url))
  with_handle (posts url fields ca) = twice (options (posts url fields ca))
  with_handle (gets url ca) = once (options (gets url ca))

  -- `Post`, `Get`, `Posts` and `Gets`, each from `curl_easy_init`.
  unfoldable pub request : Request → List ℕ → Session W → ℕ × (List ℕ × Session W)
  request q response s =
      let (made, w) = easy_init s.world in
      if made
      then with_handle q response (record s { world = w; handles = suc s.handles })
      else (failed_init, (response, record s { world = w }))

-- The arguments of `GetUdpServerAddr` that are references.
pub record ServerAddr : Type 0 where
  pub self_type : ℕ
  pub addr : List ℕ
  pub port : ℕ

-- The names of the members of the response, and the text "200".
abbrev pub errno_key : List ℕ
errno_key = 101 ∷ 114 ∷ 114 ∷ 110 ∷ 111 ∷ []

abbrev pub ip_key : List ℕ
ip_key = 105 ∷ 112 ∷ []

abbrev pub port_key : List ℕ
port_key = 112 ∷ 111 ∷ 114 ∷ 116 ∷ []

abbrev pub type_key : List ℕ
type_key = 116 ∷ 121 ∷ 112 ∷ 101 ∷ []

abbrev pub ok_text : List ℕ
ok_text = 50 ∷ 48 ∷ 48 ∷ []

-- How `GetUdpServerAddr` ends: it returns, or an exception of jsoncpp leaves it.
pub data Ended : Type 0 where
  returned : Status → Ended
  raised : Ended

-- jsoncpp's `parse` of a C string gives `JRspData[name].asString()` by the name, which is none where
-- `operator[]` or `asString` throws.
abbrev pub Parser : Type 0
Parser = List ℕ → Option (List ℕ → Option (List ℕ))

module _ (parse : Parser) (atoi : List ℕ → ℕ) where
  -- "type" goes to an argument passed by value.
  unfoldable pub read_type : Option (List ℕ) → ServerAddr → Ended × ServerAddr
  read_type none a = (raised, a)
  read_type (some text) a = (returned (code 0), a)

  unfoldable pub read_port :
      (List ℕ → Option (List ℕ)) → Option (List ℕ) → ServerAddr → Ended × ServerAddr
  read_port member none a = (raised, a)
  read_port member (some text) a =
      read_type (member type_key) (record a { port = atoi (c_string text) % 2 ^ 16 })

  unfoldable pub read_ip :
      (List ℕ → Option (List ℕ)) → Option (List ℕ) → ServerAddr → Ended × ServerAddr
  read_ip member none a = (raised, a)
  read_ip member (some text) a = read_port member (member port_key) (record a { addr = text })

  unfoldable pub read_errno :
      (List ℕ → Option (List ℕ)) → Option (List ℕ) → ServerAddr → Ended × ServerAddr
  read_errno member none a = (raised, a)
  read_errno member (some text) a =
      if same_bytes text ok_text then read_ip member (member ip_key) a else (returned failed, a)

  -- The members of the response, if it parses.
  unfoldable pub read_members : Option (List ℕ → Option (List ℕ)) → ServerAddr → Ended × ServerAddr
  read_members none a = (returned failed, a)
  read_members (some member) a = read_errno member (member errno_key) a

  unfoldable pub read_response : ℕ → List ℕ → ServerAddr → Ended × ServerAddr
  read_response res response a =
      if res == 0 then read_members (parse (c_string response)) a else (returned failed, a)

  -- `GetUdpServerAddr`.
  unfoldable pub get_udp_server_addr :
      {W : Type 0}
      → (W → Bool × W)
      → (Options → W → Transfer × W)
      → List ℕ
      → ServerAddr
      → Session W
      → (Ended × ServerAddr) × Session W
  get_udp_server_addr easy_init perform url a s =
      let (res, (response, s')) = request easy_init perform (get url) [] s in
      (read_response res response a, s')
