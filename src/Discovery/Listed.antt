-- ===== src/Discovery/Listed.antt =====
-- `getServerList` of common/zooClient.cpp where its loops end and every name parses.
use websocket_test.Base.{
  ℕ, ◌+◌, ◌%◌, ◌^◌, ◌≤◌, ◌<◌, ◌≡◌, ◌≢◌, refl, ap, ◌∙◌, subst, arith, zero, suc, Option, none, some,
  List, [], ◌∷◌, ◌++◌, All, length, get_or, append_assoc, append-nil, drop, drop_all, lt→ltb,
  le→ltb, inl, inr,
}
use websocket_test.Discovery.{
  HostInfo, slash, aborted, ended, walk, parse_names, parse_host_info, get_server_list,
}
use websocket_test.Discovery.Counter.{lt_or_ge, drop-get_or}

module _ {A B : Type 0} (visit : A → Option B) (default : A) where
  -- What is found at the elements, in their order.
  abbrev pub found : List A → List B
  found [] = []
  found (x ∷ xs) = elim (visit x) [ none ↦ found xs | some b ↦ b ∷ found xs ]

  -- From an element that does not make the loop abort.
  visited_once :
      (n i : ℕ) (xs : List A) (out : List B)
      → ((b : B)
          → walk visit default n ((i + 1) % 2 ^ 8) xs (out ++ (b ∷ []))
            ≡ ended ((out ++ (b ∷ [])) ++ found (drop (suc i) xs)))
      → (o : Option B) → o ≢ none
      → (elim o [
        | none ↦ aborted
        | some b ↦ walk visit default n ((i + 1) % 2 ^ 8) xs (out ++ (b ∷ []))
      ])
        ≡ ended (
            out
            ++ (elim o [ none ↦ found (drop (suc i) xs) | some b ↦ b ∷ found (drop (suc i) xs) ]))
  visited_once n i xs out later none h = absurd (h refl)
  visited_once n i xs out later (some b) h =
      later b ∙ ap ended (append_assoc out (b ∷ []) (found (drop (suc i) xs)))

  walk-found :
      (n i : ℕ) (xs : List A) (out : List B)
      → length xs < 2 ^ 8
      → i ≤ length xs
      → length xs < i + n
      → All (λ x. visit x ≢ none) (drop i xs)
      → walk visit default n i xs out ≡ ended (out ++ found (drop i xs))
  unfolding walk
  walk-found zero i xs out hl le e all = absurd (omega arith)
  walk-found (suc n) i xs out hl le e all = elim (lt_or_ge i (length xs)) [
    | inl h ↦
        let (first, others) =
          subst (All (λ x. visit x ≢ none)) (drop-get_or (λ x. x) default i xs h) all in
        rw (lt→ltb i (length xs) h, drop-get_or (λ x. x) default i xs h)
          (visited_once n i xs out
            (λ b.
              ap (λ k. walk visit default n k xs (out ++ (b ∷ []))) {x = (i + 1) % 2 ^ 8}
                {y = suc i} (omega arith)
              ∙ walk-found n (suc i) xs (out ++ (b ∷ [])) hl h (omega arith) others)
            (visit (get_or xs i default)) first)
    | inr h ↦ rw (le→ltb i (length xs) h, drop_all i xs h, append-nil out) refl
  ]

found-some : {A : Type 0} (default : A) (xs : List A) → found some default xs ≡ xs
found-some default [] = refl
found-some default (x ∷ xs) = ap (λ ys. x ∷ ys) (found-some default xs)

All_some : {A : Type 0} (xs : List A) → All (λ x. some x ≢ none) xs
All_some [] = tt
All_some (x ∷ xs) = (λ e. cc, All_some xs)

module _ (atoi : List ℕ → ℕ) (path : List ℕ) (names : List (List ℕ)) where
  abbrev node_host : List ℕ → Option HostInfo
  node_host n = parse_host_info atoi (path ++ (slash ∷ n))

  -- The hosts of the nodes of a path.
  unfoldable pub hosts_named : List HostInfo
  hosts_named = found node_host [] names

  -- Fewer than 256 nodes, each with the name of a host.
  abbrev pub IsListed : Type 0
  IsListed =
      (length names < 2 ^ 8) × All (λ n. parse_host_info atoi (path ++ (slash ∷ n)) ≢ none) names

  -- With fuel for 256 rounds, getServerList finds the hosts of all nodes, in their order.
  pub get_server_list-hosts_named :
      (fuel : ℕ)
      → 2 ^ 8 ≤ fuel
      → IsListed
      → get_server_list atoi fuel path names ≡ ended hosts_named
  unfolding get_server_list parse_names hosts_named
  get_server_list-hosts_named fuel enough (few, hosts) =
      ap (parse_names atoi fuel path) (
        walk-found some [] fuel 0 names [] few (omega arith) (omega arith) (All_some names)
        ∙ ap ended (found-some [] names))
      ∙ walk-found node_host [] fuel 0 names [] few (omega arith) (omega arith) hosts
