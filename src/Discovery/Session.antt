-- ===== src/Discovery/Session.antt =====
-- The watchers of `zookClient` (common/zooClient.cpp): the session's, which registers the host and observes the
-- paths, and the nodes', which fetches a path again.
use websocket_test.Base.{ℕ, suc, Option, none, some, List, [], ◌∷◌, ◌++◌}
use websocket_test.Discovery.{
  HostInfo, Notice, Watches, Walk, running, aborted, ended, get_server_list, parse_host_info,
  watched, update_server, NodeReply, no_node, owned_by, ZooCall, create_node, father_path,
  full_path, register_self,
}

-- `ZOO_CONNECTED_STATE`, `ZOO_EXPIRED_SESSION_STATE`, `ZOO_CONNECTING_STATE` and the others.
pub data State : Type 0 where
  connected expired connecting other_state : State

-- `DELETED_EVENT_DEF`, `CHILD_EVENT_DEF` and the others.
pub data NodeEvent : Type 0 where
  deleted child other_event : NodeEvent

-- A call of a watcher: of the session's, with an event that is one of the session or is not; or of a node's.
pub data Event : Type 0 where
  session_event : State → Event
  no_session_event : State → Event
  node_event : NodeEvent → State → List ℕ → Event

-- The names that `zoo_wget_children` pushes: on an error none, and its code is not looked at.
unfoldable pub children_found : Option (List (List ℕ)) → List (List ℕ)
children_found none = []
children_found (some names) = names

-- The paths of the map, in its order.
unfoldable pub paths : Watches → List (List ℕ)
paths [] = []
paths ((path, hosts) ∷ w) = path ∷ paths w

-- What the callbacks are told, each with its path.
abbrev pub Told : Type 0
Told = List (List ℕ × List Notice)

-- What ZooKeeper answers while an event is handled: the children of a path, none on an error, and what
-- `zoo_exists` finds; and the session.
pub record Answers : Type 0 where
  pub children : List ℕ → Option (List (List ℕ))
  pub exists : List ℕ → NodeReply
  pub session : ℕ

-- What runs the loops of `getServerList`: it is out of fuel, an assertion fails, or it gives its result.
pub data Exit (A : Type 0) : Type 0 where
  hangs crashes : Exit A
  gives : A → Exit A

module _ (atoi : List ℕ → ℕ) (fuel : ℕ) where
  unfoldable pub update_fetched : List ℕ → Watches → Walk HostInfo → Exit (Watches × List Notice)
  update_fetched path w running = hangs
  update_fetched path w aborted = crashes
  update_fetched path w (ended hosts) = gives (update_server path hosts w)

  -- `updateServer`: the children are fetched only for a path of the map.
  unfoldable pub update_path :
      Answers → List ℕ → Watches → Option (List HostInfo) → Exit (Watches × List Notice)
  update_path a path w none = gives (w, [])
  update_path a path w (some old) =
      update_fetched path w (get_server_list atoi fuel path (children_found (a.children path)))

  -- The loop of `observer`.
  unfoldable pub observe : Answers → List (List ℕ) → Watches → Told → Exit (Watches × Told)
  observe a [] w told = gives (w, told)
  observe a (path ∷ ps) w told = elim (update_path a path w (watched path w)) [
    | hangs ↦ hangs
    | crashes ↦ crashes
    | gives r ↦ observe a ps r.0 (told ++ ((path, r.1) ∷ []))
  ]

  unfoldable pub observer : Answers → Watches → Exit (Watches × Told)
  observer a w = observe a (paths w) w []

unfoldable pub missing_path : List ℕ → NodeReply → List ZooCall
missing_path path no_node = create_node path ∷ []
missing_path path (owned_by s) = []

unfoldable pub observe_calls : Answers → List (List ℕ) → List ZooCall
observe_calls a [] = []
observe_calls a (path ∷ ps) = missing_path path (a.exists path) ++ observe_calls a ps

-- The client: the hosts last seen, and how often `zookeeper_init` has been called.
pub record Client : Type 0 where
  pub watches : Watches
  pub inits : ℕ

-- What the handling of an event does: the client, what is told, and the calls that change ZooKeeper's tree.
pub record Handled : Type 0 where
  pub client : Client
  pub told : Told
  pub zoo_calls : List ZooCall

unfoldable pub ignored : Client → Handled
ignored c = record { client = c; told = []; zoo_calls = [] }

unfoldable pub at_updated : Client → Watches × Told → List ZooCall → Handled
at_updated c (w, told) zoo_calls = record {
  client = record c { watches = w };
  told = told;
  zoo_calls = zoo_calls;
}

unfoldable pub after_observer : Client → List ZooCall → Exit (Watches × Told) → Exit Handled
after_observer c zoo_calls hangs = hangs
after_observer c zoo_calls crashes = crashes
after_observer c zoo_calls (gives r) = gives (at_updated c r zoo_calls)

unfoldable pub after_update : Client → List ℕ → Exit (Watches × List Notice) → Exit Handled
after_update c path hangs = hangs
after_update c path crashes = crashes
after_update c path (gives (w, ns)) = gives (at_updated c (w, (path, ns) ∷ []) [])

-- `delServer`, which only parses the path.
unfoldable pub del_server : Client → Option HostInfo → Exit Handled
del_server c none = crashes
del_server c (some host) = gives (ignored c)

module _ (print_u : ℕ → List ℕ) (local : HostInfo) where
  -- `registerSelf`, between the nodes that `zoo_exists` finds.
  unfoldable pub registered_calls : Answers → List ZooCall
  registered_calls a =
      register_self print_u local a.session (a.exists (father_path local))
        (a.exists (full_path print_u local))

  -- `g_watcher_init_function` and `watcher_process`.
  unfoldable pub handle : (List ℕ → ℕ) → ℕ → Answers → Event → Client → Exit Handled
  handle atoi fuel a (session_event connected) c =
      after_observer c (registered_calls a ++ observe_calls a (paths c.watches))
        (observer atoi fuel a c.watches)
  handle atoi fuel a (session_event expired) c = gives (ignored (record c { inits = suc c.inits }))
  handle atoi fuel a (session_event connecting) c = gives (ignored c)
  handle atoi fuel a (session_event other_state) c = gives (ignored c)
  handle atoi fuel a (no_session_event state) c = gives (ignored c)
  handle atoi fuel a (node_event child connected path) c =
      after_update c path (update_path atoi fuel a path c.watches (watched path c.watches))
  handle atoi fuel a (node_event deleted connected path) c =
      del_server c (parse_host_info atoi path)
  handle atoi fuel a (node_event _ state path) c = gives (ignored c)

  -- Events, each with what ZooKeeper answers: the client at the end, and what was told.
  unfoldable pub handle_all :
      (List ℕ → ℕ) → ℕ → List (Answers × Event) → Client → Told → Exit (Client × Told)
  handle_all atoi fuel [] c told = gives (c, told)
  handle_all atoi fuel ((a, e) ∷ es) c told = elim (handle atoi fuel a e c) [
    | hangs ↦ hangs
    | crashes ↦ crashes
    | gives h ↦ handle_all atoi fuel es h.client (told ++ h.told)
  ]
