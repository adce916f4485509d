-- ===== src/Discovery/Watched.antt =====
-- What the client of common/zooClient.cpp has last seen under a path that is watched, after `observer`.
use websocket_test.Base.{
  same_bytes, same_bytes_iff, ℕ, ◌≡◌, refl, sym, ap, ◌∙◌, arith, Bool, true, false, Option, none,
  some, List, [], ◌∷◌, if◌then◌else◌, Bool-cases, inl, inr,
}
use websocket_test.Discovery.{HostInfo, Watches, watched, replace, update_found, update_server}
use websocket_test.Discovery.Client.{watched-replace}
use websocket_test.Discovery.Session.{paths, Told}

-- The updates of the paths one after another, with the hosts fetched for each.
unfoldable pub updates : (List ℕ → List HostInfo) → List (List ℕ) → Watches → Watches × Told
updates f [] w = (w, [])
updates f (path ∷ ps) w =
    let (w', ns) = update_server path (f path) w in
    let (last, told) = updates f ps w' in (last, (path, ns) ∷ told)

abbrev pub is_in : List ℕ → List (List ℕ) → Bool
is_in p [] = false
is_in p (q ∷ ps) = let rest = is_in p ps in if same_bytes q p then true else rest

pub is_in-paths :
    (p : List ℕ) (w : Watches) (old : List HostInfo)
    → watched p w ≡ some old
    → is_in p (paths w) ≡ true
unfolding watched paths
is_in-paths p [] old e = cc
is_in-paths p ((q, hosts) ∷ w) old e =
    ground (arith, is_in-paths p w old, same_bytes_iff p q, same_bytes_iff q p)

pub watched_in :
    (p : List ℕ) (w : Watches)
    → is_in p (paths w) ≡ true
    → (hosts : List HostInfo) × (watched p w ≡ some hosts)
unfolding watched paths
watched_in p [] b = absurd (ground (arith, b))
watched_in p ((q, hosts) ∷ w) b = elim (Bool-cases (same_bytes p q)) [
  | inl y ↦ (hosts, rw y refl)
  | inr n ↦
      let (found, e) =
        watched_in p w (ground (arith, n, b, same_bytes_iff p q, same_bytes_iff q p)) in
      (found, rw n e)
]

module _ (p q : List ℕ) (hosts old : List HostInfo) (w : Watches) (e : watched p w ≡ some old) where
  update_found-watched :
      (o : Option (List HostInfo))
      → watched q w ≡ o
      → (b : Bool) → same_bytes q p ≡ b
      → watched p (update_found q hosts w o).0 ≡ some (if b then hosts else old)
  unfolding update_found
  update_found-watched none f true s =
      let gone : watched p w ≡ none = ap (λ x. watched x w) (sym ((same_bytes_iff q p).0 s)) ∙ f in
      absurd (cc (gone, e))
  update_found-watched none f false s = e
  update_found-watched (some older) f true s = watched-replace q p hosts w ∙ rw (s, f) refl
  update_found-watched (some older) f false s = watched-replace q p hosts w ∙ rw s e

  pub update_server-watched :
      watched p (update_server q hosts w).0 ≡ some (if same_bytes q p then hosts else old)
  unfolding update_server
  update_server-watched = update_found-watched (watched q w) refl (same_bytes q p) refl

updates-watched :
    (f : List ℕ → List HostInfo) (p : List ℕ) (ps : List (List ℕ)) (w : Watches)
    (old : List HostInfo)
    → watched p w ≡ some old
    → watched p (updates f ps w).0 ≡ some (if is_in p ps then f p else old)
unfolding updates
updates-watched f p [] w old e = e
updates-watched f p (q ∷ ps) w old e =
    updates-watched f p ps (update_server q (f q) w).0 (if same_bytes q p then f q else old)
      (update_server-watched p q (f q) old w e)
    ∙ chosen (same_bytes q p) refl (is_in p ps)
  where
    chosen :
        (b : Bool)
        → same_bytes q p ≡ b
        → (c : Bool)
        → some (if c then f p else if b then f q else old)
          ≡ some (if (if b then true else c) then f p else old)
    chosen true s true = refl
    chosen true s false = ap (λ x. some (f x)) ((same_bytes_iff q p).0 s)
    chosen false s c = refl

pub all_updates-watched :
    (f : List ℕ → List HostInfo) (p : List ℕ) (w : Watches) (old : List HostInfo)
    → watched p w ≡ some old
    → watched p (updates f (paths w) w).0 ≡ some (f p)
all_updates-watched f p w old e =
    updates-watched f p (paths w) w old e ∙ rw (is_in-paths p w old e) refl

paths-replace :
    (path : List ℕ) (hosts : List HostInfo) (w : Watches) → paths (replace path hosts w) ≡ paths w
unfolding paths replace
paths-replace path hosts [] = refl
paths-replace path hosts ((p, old) ∷ w) = ground (arith, paths-replace path hosts w)

pub paths-update_server :
    (path : List ℕ) (hosts : List HostInfo) (w : Watches)
    → paths (update_server path hosts w).0 ≡ paths w
unfolding update_server update_found
paths-update_server path hosts w =
    elim (watched path w) as (λ o. paths (update_found path hosts w o).0 ≡ paths w) [
      | none ↦ refl
      | some old ↦ paths-replace path hosts w
    ]

pub paths-updates :
    (f : List ℕ → List HostInfo) (ps : List (List ℕ)) (w : Watches)
    → paths (updates f ps w).0 ≡ paths w
unfolding updates
paths-updates f [] w = refl
paths-updates f (path ∷ ps) w =
    paths-updates f ps (update_server path (f path) w).0 ∙ paths-update_server path (f path) w
