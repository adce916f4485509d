-- ===== src/Discovery/Events.antt =====
-- The subscribers of the paths over the events that the watchers of common/zooClient.cpp handle.
use websocket_test.Base.{
  ℕ, ◌^◌, ◌≤◌, ◌≡◌, ◌≢◌, refl, sym, subst, ap, ◌∙◌, Option, none, some, List, [], ◌∷◌, ◌++◌, All,
  append_assoc, append-nil,
}
use websocket_test.Discovery.{
  HostInfo, contains, Watches, watched, update_found, update_server, parse_host_info,
}
use websocket_test.Discovery.Client.{Views, Tracks, deliver, update_server-Tracks}
use websocket_test.Discovery.Listed.{hosts_named, IsListed, get_server_list-hosts_named}
use websocket_test.Discovery.Watched.{
  is_in, is_in-paths, watched_in, updates, paths-update_server, paths-updates, all_updates-watched,
}
use websocket_test.Discovery.Session.{
  session_event, no_session_event, node_event, connected, expired, connecting, other_state, deleted,
  child, other_event, Event, children_found, paths, Told, Answers, hangs, crashes, gives,
  update_fetched, update_path, observe, observer, Client, Handled, ignored, at_updated,
  after_observer, after_update, del_server, handle, handle_all,
}

abbrev pub deliver_all : Told → Views → Views
deliver_all [] v = v
deliver_all ((path, ns) ∷ told) v = deliver_all told (deliver path ns v)

deliver_all-append :
    (xs ys : Told) (v : Views) → deliver_all (xs ++ ys) v ≡ deliver_all ys (deliver_all xs v)
deliver_all-append [] ys v = refl
deliver_all-append ((path, ns) ∷ xs) ys v = deliver_all-append xs ys (deliver path ns v)

updates-Tracks :
    (f : List ℕ → List HostInfo) (ps : List (List ℕ)) (w : Watches) (v : Views)
    → Tracks w v
    → Tracks (updates f ps w).0 (deliver_all (updates f ps w).1 v)
unfolding updates
updates-Tracks f [] w v t = t
updates-Tracks f (path ∷ ps) w v t =
    let (w', ns) = update_server path (f path) w in
    updates-Tracks f ps w' (deliver path ns v) (update_server-Tracks path (f path) w v t)

-- A path that is watched.
abbrev pub IsWatched : List ℕ → Watches → Type 0
IsWatched path w = (hosts : List HostInfo) × (watched path w ≡ some hosts)

IsWatched-paths :
    (path : List ℕ) (w w' : Watches) → paths w ≡ paths w' → IsWatched path w → IsWatched path w'
IsWatched-paths path w w' same (old, e) =
    watched_in path w' (ap (is_in path) (sym same) ∙ is_in-paths path w old e)

module _ (atoi : List ℕ → ℕ) where
  -- The hosts of the children that ZooKeeper answers for a path; none where it answers an error.
  unfoldable pub fetched : Answers → List ℕ → List HostInfo
  fetched a path = hosts_named atoi path (children_found (a.children path))

  abbrev pub IsFetched : Answers → List ℕ → Type 0
  IsFetched a path = IsListed atoi path (children_found (a.children path))

  -- What an event that is handled to its end finds: of each path that is fetched, fewer than 256
  -- children, which all have the names of hosts; or, of a node that is deleted, the path of a host.
  unfoldable pub IsFine : List (List ℕ) → Answers × Event → Type 0
  IsFine ps (a, session_event connected) = All (IsFetched a) ps
  IsFine ps (a, node_event child connected path) = IsFetched a path
  IsFine ps (a, node_event deleted connected path) = parse_host_info atoi path ≢ none
  IsFine ps (a, e) = Unit {0}

  module _ (fuel : ℕ) (enough : 2 ^ 8 ≤ fuel) where
    update_path-update_server :
        (a : Answers) (path : List ℕ) (w : Watches)
        → IsFetched a path
        → (o : Option (List HostInfo)) → watched path w ≡ o
        → update_path atoi fuel a path w o ≡ gives (update_server path (fetched a path) w)
    unfolding update_path update_fetched update_server update_found fetched
    update_path-update_server a path w l none e =
        ap (λ o. gives (update_found path (fetched a path) w o)) (sym e)
    update_path-update_server a path w l (some old) e =
        ap (update_fetched atoi fuel path w)
          (get_server_list-hosts_named atoi path (children_found (a.children path)) fuel enough l)

    observe-updates :
        (a : Answers) (ps : List (List ℕ)) (w : Watches) (told : Told)
        → All (IsFetched a) ps
        → observe atoi fuel a ps w told
          ≡ gives ((updates (fetched a) ps w).0, told ++ (updates (fetched a) ps w).1)
    unfolding observe updates
    observe-updates a [] w told l = rw (append-nil told) refl
    observe-updates a (path ∷ ps) w told (l, ls) =
        let (w', ns) = update_server path (fetched a path) w in
        ap
          (λ x. elim x [
            | hangs ↦ hangs
            | crashes ↦ crashes
            | gives r ↦ observe atoi fuel a ps r.0 (told ++ ((path, r.1) ∷ []))
          ])
          (update_path-update_server a path w l (watched path w) refl)
        ∙ observe-updates a ps w' (told ++ ((path, ns) ∷ [])) ls
        ∙ ap (λ t. gives ((updates (fetched a) ps w').0, t))
            (append_assoc told ((path, ns) ∷ []) (updates (fetched a) ps w').1)

    module _ (print_u : ℕ → List ℕ) (local : HostInfo) where
      -- The event is handled to its end, and the subscribers still hold what the client has seen.
      abbrev Keeps : Answers → Event → Client → Views → Type 0
      Keeps a e c v =
          (h : Handled) × (handle print_u local atoi fuel a e c ≡ gives h)
          × Tracks h.client.watches (deliver_all h.told v)
          × (paths h.client.watches ≡ paths c.watches)

      del_server-gives :
          (c : Client) (o : Option HostInfo) → o ≢ none → del_server c o ≡ gives (ignored c)
      unfolding del_server
      del_server-gives c none h = absurd (h refl)
      del_server-gives c (some host) h = refl

      handle-Keeps :
          (a : Answers) (e : Event) (c : Client) (v : Views)
          → IsFine (paths c.watches) (a, e)
          → Tracks c.watches v
          → Keeps a e c v
      unfolding handle ignored at_updated after_observer after_update observer IsFine
      handle-Keeps a (session_event connected) c v l t =
          let ps = paths c.watches in
          (
            _,
            ap (after_observer c _) (observe-updates a ps c.watches [] l),
            updates-Tracks (fetched a) ps c.watches v t,
            paths-updates (fetched a) ps c.watches,
          )
      handle-Keeps a (session_event expired) c v l t = (_, refl, t, refl)
      handle-Keeps a (session_event connecting) c v l t = (_, refl, t, refl)
      handle-Keeps a (session_event other_state) c v l t = (_, refl, t, refl)
      handle-Keeps a (no_session_event s) c v l t = (_, refl, t, refl)
      handle-Keeps a (node_event child connected path) c v l t = (
        _,
        ap (after_update c path)
            (update_path-update_server a path c.watches l (watched path c.watches) refl),
        update_server-Tracks path (fetched a path) c.watches v t,
        paths-update_server path (fetched a path) c.watches,
      )
      handle-Keeps a (node_event child expired path) c v l t = (_, refl, t, refl)
      handle-Keeps a (node_event child connecting path) c v l t = (_, refl, t, refl)
      handle-Keeps a (node_event child other_state path) c v l t = (_, refl, t, refl)
      handle-Keeps a (node_event deleted connected path) c v l t =
          (_, del_server-gives c (parse_host_info atoi path) l, t, refl)
      handle-Keeps a (node_event deleted expired path) c v l t = (_, refl, t, refl)
      handle-Keeps a (node_event deleted connecting path) c v l t = (_, refl, t, refl)
      handle-Keeps a (node_event deleted other_state path) c v l t = (_, refl, t, refl)
      handle-Keeps a (node_event other_event s path) c v l t = (_, refl, t, refl)

      handle_all-Keeps :
          (es : List (Answers × Event)) (c : Client) (told : Told) (v : Views)
          → All (IsFine (paths c.watches)) es
          → Tracks c.watches (deliver_all told v)
          → (r : Client × Told) × (handle_all print_u local atoi fuel es c told ≡ gives r)
            × Tracks r.0.watches (deliver_all r.1 v)
            × (paths r.0.watches ≡ paths c.watches)
      unfolding handle_all
      handle_all-Keeps [] c told v l t = ((c, told), refl, t, refl)
      handle_all-Keeps ((a, e) ∷ es) c told v (l, ls) t =
          let (h, ends, held, same) = handle-Keeps a e c (deliver_all told v) l t in
          let (r, all_end, kept, still) =
            handle_all-Keeps es h.client (told ++ h.told) v
              (subst (λ ps. All (IsFine ps) es) (sym same) ls)
              (subst (Tracks h.client.watches) (sym (deliver_all-append told h.told v)) held) in
          (
            r,
            ap
                  (λ x. elim x [
                    | hangs ↦ hangs
                    | crashes ↦ crashes
                    | gives h ↦ handle_all print_u local atoi fuel es h.client (told ++ h.told)
                  ])
                  ends
                ∙ all_end,
            kept,
            still ∙ same,
          )

      -- After the session is connected, a watched path has what is fetched for it.
      connected-fetched :
          (a : Answers) (c : Client) (v : Views) (path : List ℕ) (host : HostInfo)
          → All (IsFetched a) (paths c.watches)
          → Tracks c.watches v
          → IsWatched path c.watches
          → (h : Handled) × (handle print_u local atoi fuel a (session_event connected) c ≡ gives h)
            × (deliver_all h.told v path host ≡ contains host (fetched a path))
      unfolding handle at_updated after_observer observer
      connected-fetched a c v path host l t (old, w) =
          let ps = paths c.watches in
          (
            _,
            ap (after_observer c _) (observe-updates a ps c.watches [] l),
            updates-Tracks (fetched a) ps c.watches v t path host
                ∙ ap (λ o. contains host (elim o [ none ↦ [] | some hosts ↦ hosts ]))
                    (all_updates-watched (fetched a) path c.watches old w),
          )

      -- Over any events that the watchers handle, with fuel for 256 rounds of each loop, and
      -- where every path that is fetched has fewer than 256 children, whose names are those
      -- of hosts, and every node that is deleted has the path of a host: the handling ends,
      -- neither aborting nor looping, and the subscriber of each path holds the hosts that
      -- the client has last seen under the path, if it did before; and after a further event
      -- that the session is connected the subscriber of a path that is watched holds exactly
      -- the hosts of its children, and none where they cannot be fetched.
      pub events-Tracks :
          (es : List (Answers × Event)) (a : Answers) (c : Client) (v : Views) (path : List ℕ)
          (host : HostInfo)
          → All (IsFine (paths c.watches)) es
          → All (IsFetched a) (paths c.watches)
          → Tracks c.watches v
          → IsWatched path c.watches
          → (r : Client × Told) × (handle_all print_u local atoi fuel es c [] ≡ gives r)
            × Tracks r.0.watches (deliver_all r.1 v)
            × (h : Handled) × (handle print_u local atoi fuel a (session_event connected) r.0
                ≡ gives h)
            × (deliver_all (r.1 ++ h.told) v path host ≡ contains host (fetched a path))
      events-Tracks es a c v path host before last t w =
          let (r, ends, held, same) = handle_all-Keeps es c [] v before t in
          let (h, end, holds) =
            connected-fetched a r.0 (deliver_all r.1 v) path host
              (subst (All (IsFetched a)) (sym same) last) held
              (IsWatched-paths path c.watches r.0.watches (sym same) w) in
          (r, ends, held, h, end, ap (λ u. u path host) (deliver_all-append r.1 h.told v) ∙ holds)
