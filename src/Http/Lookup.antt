-- ===== src/Http/Lookup.antt =====
-- `GetUdpServerAddr` of common/common.cpp, with a dispatch server that answers a request as it did before.
use websocket_test.Base.{
  ℕ, ◌+◌, ◌%◌, ◌^◌, ◌≡◌, ◌≢◌, ◌⊎◌, inl, inr, refl, subst, arith, Bool, true, false, Option, none,
  some, List, [], ◌++◌, ◌==◌, if◌then◌else◌, failed, code, same_bytes, same_bytes_iff,
}
use websocket_test.Config.Load.{c_string}
use websocket_test.Http.{
  Options, Transfer, Session, get, options, ServerAddr, Ended, returned, raised, Parser, errno_key,
  ip_key, port_key, type_key, ok_text, read_type, read_port, read_ip, read_errno, read_members,
  read_response, get_udp_server_addr, request,
}
use websocket_test.Http.Transfers.{page, request-IsAnswer}

module _ (parse : Parser) (atoi : List ℕ → ℕ) where
  -- The members that are read before the port, and the address they give.
  unfoldable pub IsReady : (List ℕ → Option (List ℕ)) → List ℕ → Type 0
  IsReady member ip = (member errno_key ≡ some ok_text) × (member ip_key ≡ some ip)

  -- What a response gives: how the lookup ends, and what its arguments are then.
  pub data Finds (res : ℕ) (text : List ℕ) (a : ServerAddr) (e : Ended) (b : ServerAddr)
      : Type 0 where
    no_answer : res ≢ 0 → e ≡ returned failed → b ≡ a → Finds res text a e b
    no_json : res ≡ 0 → parse text ≡ none → e ≡ returned failed → b ≡ a → Finds res text a e b
    no_errno :
        (member : List ℕ → Option (List ℕ))
        → res ≡ 0
        → parse text ≡ some member
        → (member errno_key ≡ none) ⊎ ((member errno_key ≡ some ok_text) × (member ip_key ≡ none))
        → e ≡ raised
        → b ≡ a
        → Finds res text a e b
    refused :
        (member : List ℕ → Option (List ℕ)) (errno : List ℕ)
        → res ≡ 0
        → parse text ≡ some member
        → member errno_key ≡ some errno
        → errno ≢ ok_text
        → e ≡ returned failed
        → b ≡ a
        → Finds res text a e b
    no_port :
        (member : List ℕ → Option (List ℕ)) (ip : List ℕ)
        → res ≡ 0
        → parse text ≡ some member
        → IsReady member ip
        → member port_key ≡ none
        → e ≡ raised
        → b ≡ record { self_type = a.self_type; addr = ip; port = a.port }
        → Finds res text a e b
    found :
        (member : List ℕ → Option (List ℕ)) (ip port : List ℕ)
        → res ≡ 0
        → parse text ≡ some member
        → IsReady member ip
        → member port_key ≡ some port
        → ((member type_key ≡ none) × (e ≡ raised))
          ⊎ ((member type_key ≢ none) × (e ≡ returned (code 0)))
        → b ≡ record { self_type = a.self_type; addr = ip; port = atoi (c_string port) % 2 ^ 16 }
        → Finds res text a e b

  module _ (res : ℕ) (text : List ℕ) (a : ServerAddr) where
    FindsAs : Ended × ServerAddr → Type 0
    FindsAs (e, b) = Finds res text a e b

    FindsAs-if :
        (b : Bool) (x y : Ended × ServerAddr)
        → (b ≡ true → FindsAs x)
        → (b ≡ false → FindsAs y)
        → FindsAs (if b then x else y)
    FindsAs-if true x y p q = p refl
    FindsAs-if false x y p q = q refl

    module _ (member : List ℕ → Option (List ℕ)) (zero_res : res ≡ 0)
        (parsed : parse text ≡ some member) where
      read_type-Finds :
          (ip port : List ℕ) (o : Option (List ℕ))
          → IsReady member ip
          → member port_key ≡ some port
          → member type_key ≡ o
          → FindsAs (
              read_type parse atoi o (record {
                self_type = a.self_type;
                addr = ip;
                port = atoi (c_string port) % 2 ^ 16;
              }))
      unfolding FindsAs read_type
      read_type-Finds ip port none r p t =
          found member ip port zero_res parsed r p (inl (t, refl)) refl
      read_type-Finds ip port (some text') r p t =
          found member ip port zero_res parsed r p (inr (λ n. cc, refl)) refl

      read_port-Finds :
          (ip : List ℕ) (o : Option (List ℕ))
          → IsReady member ip
          → member port_key ≡ o
          → FindsAs (read_port parse atoi member o (record a { addr = ip }))
      unfolding FindsAs read_port
      read_port-Finds ip none r p = no_port member ip zero_res parsed r p refl refl
      read_port-Finds ip (some port) r p = read_type-Finds ip port (member type_key) r p refl

      read_ip-Finds :
          (o : Option (List ℕ))
          → member errno_key ≡ some ok_text
          → member ip_key ≡ o
          → FindsAs (read_ip parse atoi member o a)
      unfolding FindsAs read_ip IsReady
      read_ip-Finds none e i = no_errno member zero_res parsed (inr (e, i)) refl refl
      read_ip-Finds (some ip) e i = read_port-Finds ip (member port_key) (e, i) refl

      read_errno-Finds :
          (o : Option (List ℕ)) → member errno_key ≡ o → FindsAs (read_errno parse atoi member o a)
      unfolding FindsAs read_errno
      read_errno-Finds none e = no_errno member zero_res parsed (inl e) refl refl
      read_errno-Finds (some errno) e =
          FindsAs-if (same_bytes errno ok_text) _ _
            (λ b.
              read_ip-Finds (member ip_key)
                (subst (λ x. member errno_key ≡ some x) ((same_bytes_iff errno ok_text).0 b) e)
                refl)
            (λ b.
              refused member errno zero_res parsed e (ground (arith, same_bytes_iff errno ok_text))
                refl refl)

    read_members-Finds :
        (o : Option (List ℕ → Option (List ℕ)))
        → res ≡ 0
        → parse text ≡ o
        → FindsAs (read_members parse atoi o a)
    unfolding FindsAs read_members
    read_members-Finds none z p = no_json z p refl refl
    read_members-Finds (some member) z p = read_errno-Finds member z p (member errno_key) refl

  read_response-Finds :
      (res : ℕ) (text : List ℕ) (a : ServerAddr)
      → Finds res
          (c_string text)
          a
          (read_response parse atoi res text a).0
          (read_response parse atoi res text a).1
  unfolding read_response FindsAs
  read_response-Finds res text a =
      FindsAs-if res (c_string text) a (res == 0) _ _
        (λ b. read_members-Finds res (c_string text) a (parse (c_string text)) (ground arith) refl)
        (λ b. no_answer (ground arith) refl refl)

  -- With libcurl making the handle, and a dispatch server that answers a request as it did
  -- before: GetUdpServerAddr parses the page twice over, up to its first NUL, leaves iSelfType as
  -- it was in every case, and leaves one handle. Where the transfer fails, the text does not
  -- parse or "errno" is not "200", it returns -1 and changes nothing. Otherwise it sets sAddr to
  -- "ip", then iPort to the low 16 bits of "port", and returns 0 once "type" is read too; an
  -- exception of jsoncpp at a member leaves what was set before it.
  pub get_udp_server_addr_lem :
      {W : Type 0} (easy_init : W → Bool × W) (perform : Options → W → Transfer × W)
      (answer : Options → Transfer) (url : List ℕ) (a : ServerAddr) (s : Session W)
      → ((w : W) → (easy_init w).0 ≡ true)
      → ((o : Options) (w : W) → (perform o w).0 ≡ answer o)
      → Finds
          (answer (options (get url))).res
          (c_string
            (page (answer (options (get url))).pieces ++ page (answer (options (get url))).pieces))
          a
          (get_udp_server_addr parse atoi easy_init perform url a s).0.0
          (get_udp_server_addr parse atoi easy_init perform url a s).0.1
        × ((get_udp_server_addr parse atoi easy_init perform url a s).1.handles ≡ s.handles + 1)
  unfolding get_udp_server_addr
  get_udp_server_addr_lem easy_init perform answer url a s made answers =
      let (res, response, handles) =
        request-IsAnswer easy_init perform answer made answers (get url) [] s in
      let p = page (answer (options (get url))).pieces in
      let (r, (body, s')) = request easy_init perform (get url) [] s in
      let (e, b) = read_response parse atoi r body a in
      (
        subst (λ n. Finds n (c_string (p ++ p)) a e b) res
            (subst (λ xs. Finds r (c_string xs) a e b) response (read_response-Finds r body a)),
        handles,
      )
