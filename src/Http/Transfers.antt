-- ===== src/Http/Transfers.antt =====
-- The requests of `CHttpClient` (common/http_client.cpp), with a server that answers a request as it did before.
use websocket_test.Base.{
  ℕ, suc, ◌+◌, ◌≡◌, refl, sym, ap, ap₂, ◌∙◌, arith, Bool, true, List, [], ◌∷◌, ◌++◌, append-nil,
  append_assoc, map, subst, if◌then◌else◌,
}
use websocket_test.Http.{
  Options, Transfer, Session, Request, post, get, posts, gets, on_write_data, received, options,
  performed, once, failed_init, twice, with_handle, request,
}

abbrev pub page : List (List ℕ) → List ℕ
page [] = []
page (piece ∷ pieces) = piece ++ page pieces

pub received_lem :
    (pieces : List (List ℕ)) (response : List ℕ)
    → received pieces response ≡ response ++ page pieces
unfolding received on_write_data
received_lem [] response = sym (append-nil response)
received_lem (piece ∷ pieces) response =
    received_lem pieces (response ++ piece) ∙ append_assoc response piece (page pieces)

-- How often a request's page is in the response, and how many handles it leaves.
abbrev pub copies : Request → List ℕ → List ℕ
copies (post url fields) p = p
copies (get url) p = p ++ p
copies (posts url fields ca) p = p ++ p
copies (gets url ca) p = p

abbrev pub left_open : Request → ℕ
left_open (post url fields) = 0
left_open (get url) = 1
left_open (posts url fields ca) = 1
left_open (gets url ca) = 0

abbrev pub total_open : List Request → ℕ
total_open [] = 0
total_open (q ∷ qs) = left_open q + total_open qs

-- The code and the response that a request ends with, at a server that answers by a function of the options.
abbrev pub answer_to : (Options → Transfer) → Request → ℕ × List ℕ
answer_to answer q = ((answer (options q)).res, copies q (page (answer (options q)).pieces))

-- Requests one after another, each with a response that is empty at first.
unfoldable pub requests :
    {W : Type 0}
    → (W → Bool × W)
    → (Options → W → Transfer × W)
    → List Request
    → Session W
    → List (ℕ × List ℕ) × Session W
requests easy_init perform [] s = ([], s)
requests easy_init perform (q ∷ qs) s =
    let (res, (response, s')) = request easy_init perform q [] s in
    let (rest, last) = requests easy_init perform qs s' in ((res, response) ∷ rest, last)

module _ {W : Type 0} (easy_init : W → Bool × W) (perform : Options → W → Transfer × W)
    (answer : Options → Transfer) (made : (w : W) → (easy_init w).0 ≡ true)
    (answers : (o : Options) (w : W) → (perform o w).0 ≡ answer o) where
  -- The answer to a request: its code, and what stands behind the response.
  abbrev pub IsAnswer : Request → List ℕ → Session W → ℕ × (List ℕ × Session W) → Type 0
  IsAnswer q response s (res, (response', s')) =
      (res ≡ (answer (options q)).res)
      × (response' ≡ response ++ copies q (page (answer (options q)).pieces))
      × (s'.handles ≡ s.handles + left_open q)

  performed-answer :
      (o : Options) (response : List ℕ) (w : W)
      → ((performed easy_init perform o response w).0 ≡ (answer o).res)
        × ((performed easy_init perform o response w).1.0 ≡ response ++ page (answer o).pieces)
  unfolding performed
  performed-answer o response w = (
    ap (λ t. t.res) (answers o w),
    ap (λ t. received t.pieces response) (answers o w) ∙ received_lem (answer o).pieces response,
  )

  -- A handle is made.
  abbrev more : Session W → Session W
  more s = record s { handles = suc s.handles }

  once-answer :
      (o : Options) (response : List ℕ) (s : Session W)
      → ((once easy_init perform o response (more s)).0 ≡ (answer o).res)
        × ((once easy_init perform o response (more s)).1.0 ≡ response ++ page (answer o).pieces)
        × ((once easy_init perform o response (more s)).1.1.handles ≡ s.handles + 0)
  unfolding once
  once-answer o response s = let (e, f) = performed-answer o response s.world in (e, f, omega arith)

  twice-answer :
      (o : Options) (response : List ℕ) (s : Session W)
      → ((twice easy_init perform o response (more s)).0 ≡ (answer o).res)
        × ((twice easy_init perform o response (more s)).1.0
            ≡ response ++ (page (answer o).pieces ++ page (answer o).pieces))
        × ((twice easy_init perform o response (more s)).1.1.handles ≡ s.handles + 1)
  unfolding twice
  twice-answer o response s =
      let (e, f) = performed-answer o response s.world in
      let p = page (answer o).pieces in
      let (response', w) = (performed easy_init perform o response s.world).1 in
      (
        e,
        (performed-answer o response' w).1 ∙ ap (λ r. r ++ p) f ∙ append_assoc response p p,
        omega arith,
      )

  with_handle-IsAnswer :
      (q : Request) (response : List ℕ) (s : Session W)
      → IsAnswer q response s (with_handle easy_init perform q response (more s))
  unfolding with_handle
  with_handle-IsAnswer (post url fields) response s =
      once-answer (options (post url fields)) response s
  with_handle-IsAnswer (get url) response s = twice-answer (options (get url)) response s
  with_handle-IsAnswer (posts url fields ca) response s =
      twice-answer (options (posts url fields ca)) response s
  with_handle-IsAnswer (gets url ca) response s = once-answer (options (gets url ca)) response s

  pub request-IsAnswer :
      (q : Request) (response : List ℕ) (s : Session W)
      → IsAnswer q response s (request easy_init perform q response s)
  unfolding request
  request-IsAnswer q response s =
      subst
        (λ b. IsAnswer q response s (
          if b
          then with_handle easy_init perform q response
              (record { world = (easy_init s.world).1; handles = suc s.handles })
          else (failed_init, (response, record s { world = (easy_init s.world).1 }))))
        (sym (made s.world))
        (with_handle-IsAnswer q response (record s { world = (easy_init s.world).1 }))

  -- At a server that answers a request as it did before, and with libcurl making each handle: of
  -- any requests one after another, each with an empty response, Post and Gets end with the page
  -- once and clean up their handle, Get and Posts end with the page twice and leave their handle,
  -- and all end with the code of a transfer.
  pub requests-answers :
      (qs : List Request) (s : Session W)
      → ((requests easy_init perform qs s).0 ≡ map (answer_to answer) qs)
        × ((requests easy_init perform qs s).1.handles ≡ s.handles + total_open qs)
  unfolding requests
  requests-answers [] s = (refl, omega arith)
  requests-answers (q ∷ qs) s =
      let (res, response, count) = request-IsAnswer q [] s in
      let s' = (request easy_init perform q [] s).1.1 in
      let (rest, total) = requests-answers qs s' in
      (ap₂ (λ a b. a ∷ b) (ap₂ (λ a b. (a, b)) res response) rest, omega (arith, total, count))
