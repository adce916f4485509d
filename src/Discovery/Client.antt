-- ===== src/Discovery/Client.antt =====
-- `updateServer` of common/zooClient.cpp and the subscribers of the paths watched.
use websocket_test.Base.{
  same_bytes, same_bytes_iff, ℕ, ◌≡◌, refl, sym, ap, ◌∙◌, arith, Bool, true, false, Option, none,
  some, List, [], ◌∷◌, if◌then◌else◌,
}
use websocket_test.Discovery.{
  HostInfo, contains, Notice, Watches, watched, replace, update_found, update_server,
}
use websocket_test.Discovery.Hosts.{View, tell_all, tell-notices}

-- The hosts of a path; of one that is not watched, none.
abbrev pub hosts_of : List ℕ → Watches → List HostInfo
hosts_of path w = elim (watched path w) [ none ↦ [] | some hosts ↦ hosts ]

-- What the subscribers of the paths hold.
abbrev pub Views : Type 0
Views = List ℕ → View

abbrev pub deliver : List ℕ → List Notice → Views → Views
deliver path ns v p = if same_bytes path p then tell_all ns (v p) else v p

abbrev pub Tracks : Watches → Views → Type 0
Tracks w v = (path : List ℕ) (h : HostInfo) → v path h ≡ contains h (hosts_of path w)

pub watched-replace :
    (path p : List ℕ) (hosts : List HostInfo) (w : Watches)
    → watched p (replace path hosts w) ≡ (
        if same_bytes path p
        then (elim (watched path w) [ none ↦ none | some old ↦ some hosts ])
        else watched p w)
unfolding watched replace
watched-replace path p hosts [] = ground arith
watched-replace path p hosts ((q, old) ∷ w) = ground (
  arith,
  watched-replace path p hosts w,
  same_bytes_iff path q,
  same_bytes_iff p q,
  same_bytes_iff path p,
)

chosen :
    (b : Bool) (hosts : List HostInfo) (o : Option (List HostInfo))
    → (elim (if b then some hosts else o) [ none ↦ [] | some hs ↦ hs ])
      ≡ (if b then hosts else (elim o [ none ↦ [] | some hs ↦ hs ]))
chosen true hosts o = refl
chosen false hosts o = refl

hosts-replace :
    (path p : List ℕ) (hosts old : List HostInfo) (w : Watches)
    → watched path w ≡ some old
    → hosts_of p (replace path hosts w) ≡ (if same_bytes path p then hosts else hosts_of p w)
hosts-replace path p hosts old w e =
    ap (λ o. elim o [ none ↦ [] | some hs ↦ hs ])
      (watched-replace path p hosts w
        ∙ ap
            (λ o.
              if same_bytes path p
              then (elim o [ none ↦ none | some old ↦ some hosts ])
              else watched p w)
            e)
    ∙ chosen (same_bytes path p) hosts (watched p w)

-- The subscriber of the path: what it held was what the client had seen.
held :
    (path p : List ℕ) (old : List HostInfo) (w : Watches) (v : Views) (h : HostInfo)
    → Tracks w v
    → watched path w ≡ some old
    → same_bytes path p ≡ true
    → v p h ≡ contains h old
held path p old w v h t e s =
    t p h
    ∙ ap (λ q. contains h (hosts_of q w)) (sym ((same_bytes_iff path p).0 s))
    ∙ ap (λ o. contains h (elim o [ none ↦ [] | some hs ↦ hs ])) e

update_found-Tracks :
    (path p : List ℕ) (hosts : List HostInfo) (w : Watches) (v : Views) (h : HostInfo)
    → Tracks w v
    → (o : Option (List HostInfo)) → watched path w ≡ o
    → (b : Bool) → same_bytes path p ≡ b
    → deliver path (update_found path hosts w o).1 v p h
      ≡ contains h (hosts_of p (update_found path hosts w o).0)
unfolding update_found
update_found-Tracks path p hosts w v h t none e true s = rw s (t p h)
update_found-Tracks path p hosts w v h t none e false s = rw s (t p h)
update_found-Tracks path p hosts w v h t (some old) e true s =
    rw (hosts-replace path p hosts old w e, s)
      (tell-notices hosts old (v p) h (held path p old w v h t e s))
update_found-Tracks path p hosts w v h t (some old) e false s =
    rw (hosts-replace path p hosts old w e, s) (t p h)

-- If each path's subscriber holds the hosts last seen under its path, then after updateServer of a
-- path with fetched hosts each holds the hosts seen last: that path's the hosts just fetched, if it
-- is watched, and the others what they held.
pub update_server-Tracks :
    (path : List ℕ) (hosts : List HostInfo) (w : Watches) (v : Views)
    → Tracks w v
    → Tracks (update_server path hosts w).0 (deliver path (update_server path hosts w).1 v)
unfolding update_server
update_server-Tracks path hosts w v t p h =
    update_found-Tracks path p hosts w v h t (watched path w) refl (same_bytes path p) refl
