-- ===== src/Redis/Threads/Inv.antt =====
-- What holds of the threads that use the pool of common/redisCliMgr.h and of what they share.
use websocket_test.Base.{
  ℕ, ◌+◌, ◌≤◌, ◌≡◌, arith, Option, none, some, List, [], ◌∷◌, ◌++◌, ltb, if◌then◌else◌, length, All,
}
use websocket_test.Redis.Owners.{count}
use websocket_test.Redis.Threads.{
  Shared, Phase, outside, testing, missed, making, gave, peeked, popped, holding, giving,
}

-- Whether a thread has the lock, is about to make a client, has one, and has a given one.
abbrev pub locks : Phase → ℕ
locks outside = 0
locks testing = 1
locks (peeked c) = 1
locks (popped c) = 1
locks missed = 1
locks making = 0
locks (holding c) = 0
locks (giving c) = 1
locks gave = 1

abbrev pub wants : Phase → ℕ
wants outside = 0
wants testing = 0
wants (peeked c) = 0
wants (popped c) = 0
wants missed = 1
wants making = 1
wants (holding c) = 0
wants (giving c) = 0
wants gave = 0

abbrev pub held_by : Phase → List ℕ
held_by outside = []
held_by testing = []
held_by (peeked c) = []
held_by (popped c) = c ∷ []
held_by missed = []
held_by making = []
held_by (holding c) = c ∷ []
held_by (giving c) = c ∷ []
held_by gave = []

abbrev pub total : (Phase → ℕ) → List Phase → ℕ
total f [] = 0
total f (p ∷ ps) = f p + total f ps

pub total-append :
    (f : Phase → ℕ) (ps qs : List Phase) → total f (ps ++ qs) ≡ total f ps + total f qs
total-append f [] qs = omega arith
total-append f (p ∷ ps) qs = omega (arith, total-append f ps qs)

abbrev pub has : ℕ → Phase → ℕ
has c p = count c (held_by p)

abbrev pub holds : Phase → ℕ
holds p = length (held_by p)

-- A client that a thread has seen at the front is still there.
abbrev pub SeesFront : List ℕ → Phase → Type 0
SeesFront idle (peeked c) = (rest : List ℕ) × (idle ≡ c ∷ rest)
SeesFront idle outside = Unit {0}
SeesFront idle testing = Unit {0}
SeesFront idle (popped c) = Unit {0}
SeesFront idle missed = Unit {0}
SeesFront idle making = Unit {0}
SeesFront idle (holding c) = Unit {0}
SeesFront idle (giving c) = Unit {0}
SeesFront idle gave = Unit {0}

pub record Inv (ps : List Phase) (s : Shared) : Type 0 where
  pub lock : total locks ps ≡ (if s.locked then 1 else 0)
  pub once : (c : ℕ) → count c s.pool.idle + total (has c) ps ≡ (if ltb c s.pool.made then 1 else 0)
  pub accounted : s.pool.made ≡ length s.pool.idle + total holds ps
  pub few : s.pool.made + total wants ps ≤ length ps
  pub front : All (SeesFront s.pool.idle) ps

-- Threads without the lock have seen nothing.
pub no_lock : (idle : List ℕ) (ps : List Phase) → total locks ps ≡ 0 → All (SeesFront idle) ps
no_lock idle [] h = tt
no_lock idle (outside ∷ ps) h = (tt, no_lock idle ps (omega (arith, h)))
no_lock idle (making ∷ ps) h = (tt, no_lock idle ps (omega (arith, h)))
no_lock idle (holding c ∷ ps) h = (tt, no_lock idle ps (omega (arith, h)))
no_lock idle (testing ∷ ps) h = absurd (omega (arith, h))
no_lock idle (missed ∷ ps) h = absurd (omega (arith, h))
no_lock idle (gave ∷ ps) h = absurd (omega (arith, h))
no_lock idle (peeked c ∷ ps) h = absurd (omega (arith, h))
no_lock idle (popped c ∷ ps) h = absurd (omega (arith, h))
no_lock idle (giving c ∷ ps) h = absurd (omega (arith, h))

pub All-split : (P : Phase → Type 0) (ps qs : List Phase) → All P (ps ++ qs) → All P ps × All P qs
All-split P [] qs h = (tt, h)
All-split P (p ∷ ps) qs (h, hs) = let (now, later) = All-split P ps qs hs in ((h, now), later)

abbrev pub IfSome : {A : Type 0} → (A → Type 0) → Option A → Type 0
IfSome P none = Unit {0}
IfSome P (some a) = P a

-- No thread both has a client and is about to make one.
pub total_few : (ps : List Phase) → total holds ps + total wants ps ≤ length ps
total_few [] = omega arith
total_few (p ∷ ps) = omega (arith, total_few ps, one p)
  where
    one : (p : Phase) → holds p + wants p ≤ 1
    one outside = omega arith
    one testing = omega arith
    one (peeked c) = omega arith
    one (popped c) = omega arith
    one missed = omega arith
    one making = omega arith
    one (holding c) = omega arith
    one (giving c) = omega arith
    one gave = omega arith
