-- ===== src/Discovery/Hosts.antt =====
-- `compareHostInfo` of common/zooClient.cpp and a callback that keeps the set of hosts it is told of.
use websocket_test.Base.{
  same_bytes_iff, ◌≡◌, refl, ap, ap₂, ◌∙◌, arith, Bool, true, false, not, ◌&&◌, ◌||◌, ◌↔◌, List, [],
  ◌∷◌, ◌++◌,
}
use websocket_test.Discovery.{
  HostInfo, same_host, contains, missing, compare_host_info, e_add, e_del, e_update, Notice,
  notify_some, notices,
}

-- `==` of hosts is their equality.
pub same_host_iff : (a b : HostInfo) → (same_host a b ≡ true) ↔ (a ≡ b)
unfolding same_host
same_host_iff a b = ground (arith, same_bytes_iff b.name a.name, same_bytes_iff b.ip a.ip)

pub contains-missing :
    (h : HostInfo) (xs others : List HostInfo)
    → contains h (missing xs others) ≡ contains h xs && not (contains h others)
unfolding contains missing
contains-missing h [] others = refl
contains-missing h (x ∷ xs) others = ground (arith, contains-missing h xs others, same_host_iff h x)

-- What a subscriber holds: a set of hosts.
abbrev pub View : Type 0
View = HostInfo → Bool

abbrev pub tell : Notice → View → View
tell n v h = elim n.opt [
  | e_add ↦ contains h n.hosts || v h
  | e_del ↦ not (contains h n.hosts) && v h
  | e_update ↦ v h
]

abbrev pub tell_all : List Notice → View → View
tell_all [] v = v
tell_all (n ∷ ns) v = tell_all ns (tell n v)

-- The lists fetched one after the other, each compared with the last.
abbrev pub tell_updates : List HostInfo → List (List HostInfo) → View → View
tell_updates old [] v = v
tell_updates old (new ∷ later) v = tell_updates new later (tell_all (notices new old) v)

abbrev pub last_of : List HostInfo → List (List HostInfo) → List HostInfo
last_of old [] = old
last_of old (new ∷ later) = last_of new later

tell-append : (ns ms : List Notice) (v : View) → tell_all (ns ++ ms) v ≡ tell_all ms (tell_all ns v)
tell-append [] ms v = refl
tell-append (n ∷ ns) ms v = tell-append ns ms (tell n v)

tell-add :
    (hs : List HostInfo) (v : View) (h : HostInfo)
    → tell_all (notify_some e_add hs) v h ≡ contains h hs || v h
unfolding notify_some contains
tell-add [] v h = refl
tell-add (x ∷ hs) v h = refl

tell-del :
    (hs : List HostInfo) (v : View) (h : HostInfo)
    → tell_all (notify_some e_del hs) v h ≡ not (contains h hs) && v h
unfolding notify_some contains
tell-del [] v h = refl
tell-del (x ∷ hs) v h = refl

contradiction : (p : Bool) → not p && p ≡ false
contradiction true = refl
contradiction false = refl

settle : (p q : Bool) → (not (q && not p) && ((p && not q) || q)) ≡ p
settle true true = refl
settle true false = refl
settle false true = refl
settle false false = refl

-- One update takes the old hosts to the new ones.
pub tell-notices :
    (new old : List HostInfo) (v : View) (h : HostInfo)
    → v h ≡ contains h old
    → tell_all (notices new old) v h ≡ contains h new
unfolding notices compare_host_info contains
tell-notices [] old v h e =
    tell-del old v h ∙ ap (λ p. not (contains h old) && p) e ∙ contradiction (contains h old)
tell-notices (x ∷ new) old v h e =
    ap (λ w. w h)
      (tell-append (notify_some e_add (missing (x ∷ new) old))
        (notify_some e_del (missing old (x ∷ new))) v)
    ∙ tell-del (missing old (x ∷ new)) (tell_all (notify_some e_add (missing (x ∷ new) old)) v) h
    ∙ ap₂ (λ p q. not p && q) (contains-missing h old (x ∷ new))
        (tell-add (missing (x ∷ new) old) v h ∙ ap₂ ◌||◌ (contains-missing h (x ∷ new) old) e)
    ∙ settle (contains h (x ∷ new)) (contains h old)

-- A subscriber that adds what it is told was added and drops what it is told is gone holds, after
-- any sequence of updates, exactly the hosts of the last list fetched, if it held those of the list
-- before the first update.
updates_converge :
    (updates : List (List HostInfo)) (old : List HostInfo) (v : View)
    → ((h : HostInfo) → v h ≡ contains h old)
    → (h : HostInfo) → tell_updates old updates v h ≡ contains h (last_of old updates)
updates_converge [] old v e h = e h
updates_converge (new ∷ later) old v e h =
    updates_converge later new (tell_all (notices new old) v) (λ k. tell-notices new old v k (e k))
      h
