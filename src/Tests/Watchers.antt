-- ===== src/Tests/Watchers.antt =====
-- The theorems on the watchers of the discovery client, at small inputs.
use websocket_test.Base.{
  same_bytes, same_bytes_iff, ℕ, ◌≡◌, ◌≢◌, refl, sym, subst, arith, true, false, none, some, List,
  [], ◌∷◌, ◌++◌, if◌then◌else◌, Bool-cases, inl, inr,
}
use websocket_test.Discovery.{
  HostInfo, contains, Watches, watched, parse_host_info, split_string, NodeReply, no_node, owned_by,
  ZooCall, create_node, create_ephemeral, delete_node, father_path, full_path, register_self,
}
use websocket_test.Discovery.Client.{Views, Tracks, hosts_of}
use websocket_test.Discovery.Listed.{IsListed}
use websocket_test.Discovery.Session.{
  connected, session_event, node_event, child, deleted, Event, Answers, Client, Told, Handled,
  gives, paths, children_found, handle, handle_all,
}
use websocket_test.Discovery.Events.{IsFine, fetched, deliver_all, events-Tracks}
use websocket_test.Discovery.Register.{IsEphemeral, ZooLaws, calls, register_self-owns}

abbrev host : ℕ → HostInfo
host n = record { name = 97 ∷ []; ip = 49 ∷ []; port = n }

abbrev path : List ℕ
path = 47 ∷ 97 ∷ []

-- A client that watches a path with these hosts, and what its subscribers hold.
abbrev watching : List HostInfo → Watches
watching hosts = (path, hosts) ∷ []

abbrev views : List HostInfo → Views
views hosts p h = contains h (hosts_of p (watching hosts))

abbrev client : List HostInfo → Client
client hosts = record { watches = watching hosts; inits = 1 }

-- ZooKeeper finds a node with the name of this one host, and no nodes besides.
abbrev finds : List ℕ → Answers
finds name = record { children = λ p. some (name ∷ []); exists = λ p. no_node; session = 5 }

abbrev first : List ℕ → ℕ
first [] = 0
first (c ∷ rest) = c

-- "1:P" and "1:Q", whose ports are the numbers of their letters.
abbrev one_name : List ℕ
one_name = 49 ∷ 58 ∷ 80 ∷ []

abbrev other_name : List ℕ
other_name = 49 ∷ 58 ∷ 81 ∷ []

-- A host comes up, and a node of the name of a host is deleted.
abbrev two_events : List (Answers × Event)
two_events =
    (finds one_name, node_event child connected path)
    ∷ (finds one_name, node_event deleted connected (path ++ (47 ∷ one_name)))
    ∷ []

finds-IsListed :
    IsListed first path (one_name ∷ [])
    × IsListed first path (other_name ∷ [])
    × (parse_host_info first (path ++ (47 ∷ one_name)) ≢ none)
unfolding parse_host_info split_string
finds-IsListed = ((omega arith, (λ e. cc, tt)), (omega arith, (λ e. cc, tt)), λ e. cc)

events-Tracks_example :
    (r : Client × Told) × (handle_all (λ n. []) (host 1) first 256 two_events (client []) []
      ≡ gives r)
    × Tracks r.0.watches (deliver_all r.1 (views []))
    × (h : Handled) × (handle
          (λ n. [])
          (host 1)
          first
          256
          (finds other_name)
          (session_event connected)
          r.0
        ≡ gives h)
    × (deliver_all (r.1 ++ h.told) (views []) path (host 81)
        ≡ contains (host 81) (fetched first (finds other_name) path))
unfolding IsFine paths children_found watched same_bytes
events-Tracks_example =
    events-Tracks first 256 (omega arith) (λ n. []) (host 1) two_events (finds other_name)
      (client []) (views []) path (host 81) (finds-IsListed.0, (finds-IsListed.2, tt))
      (finds-IsListed.1, tt) (λ p h. refl) ([], refl)

-- A tree of nodes, by their paths, and calls that succeed.
abbrev Tree : Type 0
Tree = List ℕ → NodeReply

abbrev found : List ℕ → Tree → NodeReply
found p t = t p

abbrev made_by : ℕ → NodeReply → NodeReply
made_by s no_node = owned_by s
made_by s (owned_by o) = owned_by o

abbrev done : ℕ → ZooCall → Tree → Tree
done s (create_node q) t p = if same_bytes p q then made_by 0 (t p) else t p
done s (create_ephemeral q) t p = if same_bytes p q then made_by s (t p) else t p
done s (delete_node q) t p = if same_bytes p q then no_node else t p

same_bytes_self : (p : List ℕ) → same_bytes p p ≡ true
same_bytes_self p = (same_bytes_iff p p).1 refl

same_bytes_other : (p q : List ℕ) → p ≢ q → same_bytes p q ≡ false
same_bytes_other p q n = elim (Bool-cases (same_bytes p q)) [
  | inl y ↦ absurd (n ((same_bytes_iff p q).0 y))
  | inr f ↦ f
]

made_by-ne-no_node : (s : ℕ) (r : NodeReply) → made_by s r ≢ no_node
made_by-ne-no_node s no_node e = cc
made_by-ne-no_node s (owned_by o) e = cc

done-ZooLaws : ZooLaws found done
done-ZooLaws = record {
  created = λ s p t.
      subst (λ b. (if b then made_by 0 (t p) else t p) ≢ no_node) (sym (same_bytes_self p))
        (made_by-ne-no_node 0 (t p));
  create_keeps = λ s p q t n. rw (same_bytes_other p q n) refl;
  deleted = λ s o p t e l. rw (same_bytes_self p) refl;
  delete_keeps = λ s p q t n. rw (same_bytes_other p q n) refl;
  owned = λ s p name t f e. rw (same_bytes_self (p ++ (47 ∷ name)), e) refl;
  exists_already = λ s o p t e. rw (same_bytes_self p, e) refl;
}

-- Another session has left the host's node behind.
abbrev stale : Tree
stale p = if same_bytes p (full_path (λ n. 56 ∷ []) (host 8)) then owned_by 3 else no_node

stale-IsEphemeral : IsEphemeral (found (full_path (λ n. 56 ∷ []) (host 8)) stale)
stale-IsEphemeral =
    subst (λ b. IsEphemeral (if b then owned_by 3 else no_node))
      (sym (same_bytes_self (full_path (λ n. 56 ∷ []) (host 8)))) (omega arith)

register_self-owns_example :
    found (full_path (λ n. 56 ∷ []) (host 8)) (
      calls found done 5
        (register_self
          (λ n. 56 ∷ [])
          (host 8)
          5
          (found (father_path (host 8)) stale)
          (found (full_path (λ n. 56 ∷ []) (host 8)) stale))
        stale)
    ≡ owned_by 5
register_self-owns_example =
    register_self-owns found done (λ n. 56 ∷ []) (host 8) 5 done-ZooLaws stale stale-IsEphemeral
