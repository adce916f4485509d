-- ===== src/Echo/Exchange.antt =====
-- The client and the server of client/cclient.cpp and server/main.cpp, over any events.
use websocket_test.Base.{
  ℕ, zero, suc, ◌+◌, ◌≡◌, refl, subst, ap, map, ◌≤◌, ◌∙◌, arith, true, not, Option, none, some,
  append-nil, append_assoc, List, [], ◌∷◌, ◌++◌, same_bytes, length,
}
use websocket_test.Echo.{
  Message, expected, reports_ok, System, start, server_on_message, client_on_message, Event, serves,
  receives, serve_next, receive_next, happens, run,
}
use websocket_test.Echo.Accounts.{AllAre, IfSome, Exchange, run-Exchange, start-Exchange}

bind_some :
    (o : Option System) (f g : System → Option System) (r : Option System) (s' : System)
    → (elim o [ none ↦ none | some s ↦ f s ]) ≡ some s'
    → ((s : System) → f s ≡ some s' → g s ≡ r)
    → (elim o [ none ↦ none | some s ↦ g s ]) ≡ r
bind_some none f g r s' e h = absurd (ground (arith, e))
bind_some (some s) f g r s' e h = h s e

abbrev pub times : {A : Type 0} → ℕ → A → List A
times zero x = []
times (suc n) x = x ∷ times n x

module _ (request answer : List ℕ) where
  run-append :
      (es fs : List Event) (s s' : System)
      → run request answer es s ≡ some s'
      → run request answer (es ++ fs) s ≡ run request answer fs s'
  unfolding run
  run-append [] fs s s' e = ap (λ o. elim o [ none ↦ none | some t ↦ run request answer fs t ]) e
  run-append (e ∷ es) fs s s' r =
      bind_some (happens request answer e s) (run request answer es) (run request answer (es ++ fs))
        _ s' r (λ t. run-append es fs t s')

  -- The messages that are left are handed on, the requests and then the answers.
  abbrev pub reply_to : Message → Message
  reply_to m = record { payload = answer; opcode = m.opcode }

  serve_all :
      (ms : List Message) (s : System)
      → s.to_server ≡ ms
      → run request answer (times (length ms) (serves true)) s
        ≡ some (record s {
          to_server = [];
          to_client = s.to_client ++ map reply_to ms;
          answered = s.answered + length ms;
        })
  unfolding run happens serve_next server_on_message
  serve_all [] s e = ground (arith, e, append-nil s.to_client)
  serve_all (m ∷ ms) s e =
      let next = server_on_message true answer m (record s { to_server = ms }) in
      ap
        (λ q. elim (serve_next true answer q s) [
          | none ↦ none
          | some t ↦ run request answer (times (length ms) (serves true)) t
        ])
        e
      ∙ serve_all ms next refl
      ∙ ground (arith, append_assoc s.to_client (reply_to m ∷ []) (map reply_to ms))

  receive_all :
      (ms : List Message) (s : System)
      → s.to_client ≡ ms
      → run request answer (times (length ms) receives) s
        ≡ some (record s { to_client = []; reports = s.reports ++ map reports_ok ms })
  unfolding run happens receive_next client_on_message
  receive_all [] s e = ground (arith, e, append-nil s.reports)
  receive_all (m ∷ ms) s e =
      let next = client_on_message m (record s { to_client = ms }) in
      ap
        (λ q. elim (receive_next q s) [
          | none ↦ none
          | some t ↦ run request answer (times (length ms) receives) t
        ])
        e
      ∙ receive_all ms next refl
      ∙ ground (arith, append_assoc s.reports (reports_ok m ∷ []) (map reports_ok ms))

  -- As many events as there are messages left.
  abbrev pub drain : System → List Event
  drain s =
      times (length s.to_server) (serves true)
      ++ times (length (s.to_client ++ map reply_to s.to_server)) receives

  abbrev pub drained : System → System
  drained s =
      let cs = s.to_client ++ map reply_to s.to_server in
      record {
        to_server = [];
        to_client = [];
        reports = s.reports ++ map reports_ok cs;
        asked = s.asked;
        answered = s.answered + length s.to_server;
      }

  drain-drained : (s : System) → run request answer (drain s) s ≡ some (drained s)
  drain-drained s =
      let cs = s.to_client ++ map reply_to s.to_server in
      run-append (times (length s.to_server) (serves true)) (times (length cs) receives) s _
        (serve_all s.to_server s refl)
      ∙ receive_all cs
          (record s { to_server = []; to_client = cs; answered = s.answered + length s.to_server })
          refl

  reached :
      (es : List Event) (s : System)
      → run request answer es start ≡ some s
      → Exchange request answer s
  reached es s r =
      subst (IfSome (Exchange request answer)) r
        (run-Exchange request answer es start (start-Exchange request answer))

  -- Whatever events came before, once the messages still on their way are handed on and the
  -- server's sends succeed: no message is left, the client has made one more report for each of
  -- them, never more reports than its sends that succeeded, and each report is ok exactly where
  -- the server's answer is not the text that on_message compares with.
  pub events-answered :
      (es : List Event) (s : System)
      → run request answer es start ≡ some s
      → (s' : System) × (run request answer (es ++ drain s) start ≡ some s')
        × (s'.to_server ≡ [])
        × (s'.to_client ≡ [])
        × (length s'.reports ≡ length s.reports + length s.to_client + length s.to_server)
        × (length s'.reports ≤ s'.asked)
        × AllAre (not (same_bytes answer expected)) s'.reports
  events-answered es s r =
      let whole = run-append es (drain s) start s r ∙ drain-drained s in
      let x = reached (es ++ drain s) (drained s) whole in
      let before = reached es s r in
      (
        drained s,
        whole,
        refl,
        refl,
        omega (arith, x.reported, before.reported),
        omega (arith, x.reported, x.bounded),
        x.reports,
      )
