-- ===== src/Echo/Accounts.antt =====
-- The messages between the client and the server of client/cclient.cpp and server/main.cpp, accounted for.
use websocket_test.Base.{
  ℕ, ◌+◌, ◌≡◌, refl, subst, ap, ◌≤◌, arith, Bool, true, false, not, Option, none, some, List, [],
  ◌∷◌, same_bytes, length, length-append, All, All-append,
}
use websocket_test.Echo.{
  Message, text, expected, reports_ok, System, start, csend, on_open, server_on_message,
  client_on_message, Event, opens, serves, receives, serve_next, receive_next, happens, run,
}

-- Every verdict of a list is this one.
abbrev pub AllAre : Bool → List Bool → Type 0
AllAre b = All (λ c. c ≡ b)

-- What a run that goes through ends in.
abbrev pub IfSome : (System → Type 0) → Option System → Type 0
IfSome P none = Unit {0}
IfSome P (some s) = P s

IfSome-bind :
    (P : System → Type 0) (o : Option System) (f : System → Option System)
    → IfSome P o
    → ((s : System) → P s → IfSome P (f s))
    → IfSome P (elim o [ none ↦ none | some s ↦ f s ])
IfSome-bind P none f x h = tt
IfSome-bind P (some s) f x h = h s x

module _ (request answer : List ℕ) where
  abbrev pub verdict : Bool
  verdict = not (same_bytes answer expected)

  -- Every message is a request or an answer, as a text, and each is accounted for.
  pub record Exchange (s : System) : Type 0 where
    pub requests : All (λ m. m ≡ text request) s.to_server
    pub answers : All (λ m. m ≡ text answer) s.to_client
    pub reports : AllAre verdict s.reports
    pub reported : s.answered ≡ length s.reports + length s.to_client
    pub bounded : s.answered + length s.to_server ≤ s.asked

  opens-Exchange : (sends : Bool) (s : System) → Exchange s → Exchange (on_open sends request s)
  unfolding on_open csend
  opens-Exchange false s x = x
  opens-Exchange true s x = record {
    requests =
        All-append (λ m. m ≡ text request) s.to_server (text request ∷ []) x.requests (refl, tt);
    answers = x.answers;
    reports = x.reports;
    reported = x.reported;
    bounded = omega (arith, x.bounded, length-append s.to_server (text request ∷ []));
  }

  serves-Exchange :
      (sends : Bool) (ms : List Message) (s : System)
      → s.to_server ≡ ms
      → Exchange s
      → IfSome Exchange (serve_next sends answer ms s)
  unfolding serve_next server_on_message
  serves-Exchange sends [] s e x = tt
  serves-Exchange false (m ∷ ms) s e x =
      let requests = subst (All (λ m. m ≡ text request)) e x.requests in
      record {
        requests = requests.1;
        answers = x.answers;
        reports = x.reports;
        reported = x.reported;
        bounded = omega (arith, x.bounded, ap length e);
      }
  serves-Exchange true (m ∷ ms) s e x =
      let requests = subst (All (λ m. m ≡ text request)) e x.requests in
      let reply : Message = record { payload = answer; opcode = m.opcode } in
      record {
        requests = requests.1;
        answers =
            All-append (λ m. m ≡ text answer) s.to_client (reply ∷ []) x.answers
              (ap (λ q. record { payload = answer; opcode = q.opcode }) requests.0, tt);
        reports = x.reports;
        reported = omega (arith, x.reported, length-append s.to_client (reply ∷ []));
        bounded = omega (arith, x.bounded, ap length e);
      }

  receives-Exchange :
      (ms : List Message) (s : System)
      → s.to_client ≡ ms
      → Exchange s
      → IfSome Exchange (receive_next ms s)
  unfolding receive_next client_on_message reports_ok
  receives-Exchange [] s e x = tt
  receives-Exchange (m ∷ ms) s e x =
      let answers = subst (All (λ m. m ≡ text answer)) e x.answers in
      record {
        requests = x.requests;
        answers = answers.1;
        reports =
            All-append (λ c. c ≡ verdict) s.reports (not (same_bytes m.payload expected) ∷ [])
              x.reports (ap (λ q. not (same_bytes q.payload expected)) answers.0, tt);
        reported = omega (
          arith,
          x.reported,
          ap length e,
          length-append s.reports (not (same_bytes m.payload expected) ∷ []),
        );
        bounded = x.bounded;
      }

  happens-Exchange :
      (e : Event) (s : System) → Exchange s → IfSome Exchange (happens request answer e s)
  unfolding happens
  happens-Exchange (opens sends) s x = opens-Exchange sends s x
  happens-Exchange (serves sends) s x = serves-Exchange sends s.to_server s refl x
  happens-Exchange receives s x = receives-Exchange s.to_client s refl x

  pub run-Exchange :
      (es : List Event) (s : System) → Exchange s → IfSome Exchange (run request answer es s)
  unfolding run
  run-Exchange [] s x = x
  run-Exchange (e ∷ es) s x =
      IfSome-bind Exchange (happens request answer e s) (run request answer es)
        (happens-Exchange e s x) (run-Exchange es)

  pub start-Exchange : Exchange start
  unfolding start
  start-Exchange = record {
    requests = tt;
    answers = tt;
    reports = tt;
    reported = refl;
    bounded = omega arith;
  }
