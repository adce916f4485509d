-- ===== src/Tests/Web.antt =====
-- The theorems on the HTTP requests, at a server that answers every request with a page in two pieces.
use websocket_test.Base.{
  ℕ, ◌+◌, ◌≡◌, refl, Bool, true, some, List, [], ◌∷◌, map, if◌then◌else◌, same_bytes,
}
use websocket_test.Http.{
  Options, Transfer, Session, Request, get, post, options, ServerAddr, get_udp_server_addr, Parser,
  errno_key, ok_text,
}
use websocket_test.Config.Load.{c_string}
use websocket_test.Http.Transfers.{requests, requests-answers, answer_to, total_open}
use websocket_test.Http.Lookup.{Finds, get_udp_server_addr_lem}

-- The library's state is how often it has been called.
abbrev makes : ℕ → Bool × ℕ
makes w = (true, w)

abbrev answer : Options → Transfer
answer o = record { res = 0; pieces = o.url ∷ (49 ∷ []) ∷ [] }

abbrev performs : Options → ℕ → Transfer × ℕ
performs o w = (answer o, w + 1)

abbrev new_session : Session ℕ
new_session = record { world = 0; handles = 0 }

abbrev asked : List Request
asked = get (97 ∷ []) ∷ post (98 ∷ []) [] ∷ []

requests-answers_example :
    ((requests makes performs asked new_session).0 ≡ map (answer_to answer) asked)
    × ((requests makes performs asked new_session).1.handles ≡ 0 + total_open asked)
requests-answers_example =
    requests-answers makes performs answer (λ w. refl) (λ o w. refl) asked new_session

abbrev old_addr : ServerAddr
old_addr = record { self_type = 7; addr = []; port = 0 }

-- A parser whose members are all the text itself but for "errno", and a number that is the first byte.
abbrev whole : Parser
whole text = some (λ key. some (if same_bytes key errno_key then ok_text else text))

abbrev first : List ℕ → ℕ
first [] = 0
first (c ∷ rest) = c

get_udp_server_addr_lem_example :
    Finds whole first 0
      (97 ∷ 49 ∷ 97 ∷ 49 ∷ [])
      old_addr
      (get_udp_server_addr whole first makes performs (97 ∷ []) old_addr new_session).0.0
      (get_udp_server_addr whole first makes performs (97 ∷ []) old_addr new_session).0.1
    × ((get_udp_server_addr whole first makes performs (97 ∷ []) old_addr new_session).1.handles
        ≡ 0 + 1)
unfolding options c_string
get_udp_server_addr_lem_example =
    get_udp_server_addr_lem whole first makes performs answer (97 ∷ []) old_addr new_session
      (λ w. refl) (λ o w. refl)
