-- ===== src/Discovery/Names.antt =====
-- `SplitString`, `parseHostInfo` and `generateAddrInfo` of common/zooClient.cpp.
use websocket_test.Base.{
  ℕ, ◌%◌, ◌^◌, ◌<◌, ◌≡◌, ◌≢◌, refl, sym, ap, ◌∙◌, arith, some, List, [], ◌∷◌, ◌++◌, append_assoc,
  append-nil, All,
}
use websocket_test.Discovery.{
  HostInfo, split_from, split_string, flush, slash, colon, parse_address, parse_parts,
  parse_host_info, generate_addr_info,
}

-- A byte that is neither NUL nor the delimiter.
abbrev pub IsPlain : ℕ → ℕ → Type 0
IsPlain delim c = (c ≢ 0) × (c ≢ delim)

flush-plain : (token : List ℕ) (rest : List (List ℕ)) → token ≢ [] → flush token rest ≡ token ∷ rest
unfolding flush
flush-plain [] rest h = absurd (h refl)
flush-plain (c ∷ token) rest h = refl

split_plain :
    (delim : ℕ) (token xs ys : List ℕ)
    → All (IsPlain delim) xs
    → split_from delim token (xs ++ ys) ≡ split_from delim (token ++ xs) ys
unfolding split_from
split_plain delim token [] ys h = ap (λ t. split_from delim t ys) (sym (append-nil token))
split_plain delim token (x ∷ xs) ys h =
    ground (arith, split_plain delim (token ++ (x ∷ [])) xs ys h.1, append_assoc token (x ∷ []) xs)

append-ne_nil : (xs ys : List ℕ) → xs ≢ [] → xs ++ ys ≢ []
append-ne_nil [] ys h = absurd (h refl)
append-ne_nil (x ∷ xs) ys h = λ e. ground (arith, e)

-- A token in front of the delimiter.
split_delim :
    (delim : ℕ) (xs ys : List ℕ)
    → delim ≢ 0
    → xs ≢ []
    → All (IsPlain delim) xs
    → split_from delim [] (xs ++ (delim ∷ ys)) ≡ xs ∷ split_from delim [] ys
unfolding split_from
split_delim delim xs ys d ne h =
    split_plain delim [] xs (delim ∷ ys) h
    ∙ ground (arith, flush-plain xs (split_from delim [] ys) ne)

split_end :
    (delim : ℕ) (xs : List ℕ) → xs ≢ [] → All (IsPlain delim) xs → split_from delim [] xs ≡ xs ∷ []
unfolding split_from
split_end delim xs ne h =
    ap (split_from delim []) (sym (append-nil xs))
    ∙ split_plain delim [] xs [] h
    ∙ flush-plain xs [] ne

module _ (atoi : List ℕ → ℕ) (print_u : ℕ → List ℕ) where
  -- The path of the node that a host registers is parsed to that host, where its name, its
  -- address and its printed port are not empty and contain no NUL, the name, the address and the
  -- port no slash, the address and the port no colon, and the port, of 16 bits, is read by atoi
  -- as it was printed.
  pub parse_host_info-generate_addr_info :
      (h : HostInfo)
      → (h.name ≢ []) × (h.ip ≢ []) × (print_u h.port ≢ [])
      → All (IsPlain slash) h.name
      → All (IsPlain slash) (generate_addr_info print_u h)
      → All (IsPlain colon) h.ip
      → All (IsPlain colon) (print_u h.port)
      → h.port < 2 ^ 16
      → atoi (print_u h.port) ≡ h.port
      → parse_host_info atoi (slash ∷ h.name ++ (slash ∷ generate_addr_info print_u h)) ≡ some h
  unfolding parse_host_info parse_parts parse_address split_string generate_addr_info
  parse_host_info-generate_addr_info h (n1, n2, n3) name info ip port small back =
      ap (parse_parts atoi) (
        split_delim slash h.name (generate_addr_info print_u h) (λ e. omega arith) n1 name
        ∙ ap (λ t. h.name ∷ t)
            (split_end slash (generate_addr_info print_u h)
              (append-ne_nil h.ip (colon ∷ print_u h.port) n2) info))
      ∙ ap (parse_address atoi h.name) (
          split_delim colon h.ip (print_u h.port) (λ e. omega arith) n2 ip
          ∙ ap (λ t. h.ip ∷ t) (split_end colon (print_u h.port) n3 port))
      ∙ ap (λ p. some (record { name = h.name; ip = h.ip; port = p }))
          {x = atoi (print_u h.port) % 2 ^ 16} {y = h.port} (omega (arith, back))
