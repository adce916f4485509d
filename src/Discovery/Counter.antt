-- ===== src/Discovery/Counter.antt =====
-- The loops of `zoo_wget_children` and `getServerList` of common/zooClient.cpp, whose counter is a `uint8_t`.
use websocket_test.Base.{
  ℕ, ◌+◌, ◌%◌, ◌^◌, ◌≤◌, ◌<◌, ◌⊎◌, ◌≡◌, refl, ap, ◌∙◌, arith, zero, suc, some, List, [], ◌∷◌, ◌++◌,
  map, length, get_or, append_assoc, append-nil, drop, drop_all, lt→ltb, le→ltb, inl, inr,
}
use websocket_test.Discovery.{running, ended, walk, parse_names, get_server_list}

pub lt_or_ge : (i n : ℕ) → (i < n) ⊎ (n ≤ i)
lt_or_ge i n = ground arith

module _ {A B : Type 0} (f : A → B) (default : A) where
  -- With more than 255 elements the counter comes round before the end: the loop runs however long
  -- one waits, though no element makes it abort.
  pub walk_never :
      (n i : ℕ) (xs : List A) (out : List B)
      → i < 2 ^ 8
      → 2 ^ 8 ≤ length xs
      → walk (λ x. some (f x)) default n i xs out ≡ running
  unfolding walk
  walk_never zero i xs out hi hl = refl
  walk_never (suc n) i xs out hi hl =
      ground (arith, walk_never n ((i + 1) % 2 ^ 8) xs (out ++ (f (get_or xs i default) ∷ [])))

  pub drop-get_or :
      (i : ℕ) (xs : List A) → i < length xs → drop i xs ≡ get_or xs i default ∷ drop (suc i) xs
  drop-get_or i [] h = absurd (omega arith)
  drop-get_or zero (x ∷ xs) h = refl
  drop-get_or (suc i) (x ∷ xs) h = drop-get_or i xs (omega arith)

  walk_from :
      (n i : ℕ) (xs : List A) (out : List B)
      → length xs < 2 ^ 8
      → i ≤ length xs
      → i + n ≡ length xs + 1
      → walk (λ x. some (f x)) default n i xs out ≡ ended (out ++ map f (drop i xs))
  unfolding walk
  walk_from zero i xs out hl le e = absurd (omega arith)
  walk_from (suc n) i xs out hl le e = elim (lt_or_ge i (length xs)) [
    | inl h ↦
        rw (lt→ltb i (length xs) h, drop-get_or i xs h)
          (ap (λ k. walk (λ x. some (f x)) default n k xs (out ++ (f (get_or xs i default) ∷ [])))
              {x = (i + 1) % 2 ^ 8} {y = suc i} (omega arith)
            ∙ walk_from n (suc i) xs (out ++ (f (get_or xs i default) ∷ [])) hl h (omega arith)
            ∙ ap ended (append_assoc out (f (get_or xs i default) ∷ []) (map f (drop (suc i) xs))))
    | inr h ↦ rw (le→ltb i (length xs) h, drop_all i xs h, append-nil out) refl
  ]

  -- A loop with a uint8_t counter over at most 255 elements, none of which makes it abort, ends,
  -- having visited each of them once, in order, and makes as many rounds as there are elements.
  pub walk_ends :
      (xs : List A)
      → length xs < 2 ^ 8
      → walk (λ x. some (f x)) default (length xs + 1) 0 xs [] ≡ ended (map f xs)
  walk_ends xs h = walk_from (length xs + 1) 0 xs [] h (omega arith) (omega arith)

-- getServerList does not return, whatever the fuel, where a service has 256 nodes or more.
pub get_server_list-never :
    (atoi : List ℕ → ℕ) (fuel : ℕ) (path : List ℕ) (children : List (List ℕ))
    → 2 ^ 8 ≤ length children
    → get_server_list atoi fuel path children ≡ running
unfolding get_server_list parse_names
get_server_list-never atoi fuel path children h =
    ap (parse_names atoi fuel path) (walk_never (λ x. x) [] fuel 0 children [] (omega arith) h)
