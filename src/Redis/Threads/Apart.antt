-- ===== src/Redis/Threads/Apart.antt =====
-- A step of one thread that uses the pool of common/redisCliMgr.h, among others.
use websocket_test.Base.{
  ℕ, suc, ◌+◌, ◌≤◌, ◌≡◌, refl, sym, ap, ◌∙◌, arith, Bool, true, false, Option, none, some, List, [],
  ◌∷◌, ◌++◌, ltb, if◌then◌else◌, length, length-append, All, All-append,
}
use websocket_test.Redis.Owners.{count, count-append}
use websocket_test.Redis.Threads.{
  Shared, Phase, outside, testing, missed, making, gave, peeked, popped, holding, giving, w_lock,
  w_unlock, test_empty, pop_front, advance,
}
use websocket_test.Redis.Threads.Inv.{
  locks, wants, has, holds, total, total-append, total_few, SeesFront, Inv, no_lock, All-split,
  IfSome,
}

-- The invariant with one thread apart from those before and those after it.
module _ (before after : List Phase) where
  abbrev others : (Phase → ℕ) → ℕ
  others f = total f before + total f after

  abbrev AllSee : List ℕ → Type 0
  AllSee idle = All (SeesFront idle) before × All (SeesFront idle) after

  record Apart (p : Phase) (s : Shared) : Type 0 where
    lock : locks p + others locks ≡ (if s.locked then 1 else 0)
    once :
        (c : ℕ)
        → count c s.pool.idle + (has c p + others (has c)) ≡ (if ltb c s.pool.made then 1 else 0)
    accounted : s.pool.made ≡ length s.pool.idle + (holds p + others holds)
    few : s.pool.made + (wants p + others wants) ≤ suc (length before + length after)
    sees : SeesFront s.pool.idle p
    front : AllSee s.pool.idle

  sums : (f : Phase → ℕ) (p : Phase) → total f (before ++ (p ∷ after)) ≡ f p + others f
  sums f p = omega (arith, total-append f before (p ∷ after))

  Inv-Apart : (p : Phase) (s : Shared) → Inv (before ++ (p ∷ after)) s → Apart p s
  Inv-Apart p s v =
      let (seen, (sees, later)) = All-split (SeesFront s.pool.idle) before (p ∷ after) v.front in
      record {
        lock = sym (sums locks p) ∙ v.lock;
        once = λ c. ap (λ t. count c s.pool.idle + t) (sym (sums (has c) p)) ∙ v.once c;
        accounted = v.accounted ∙ ap (λ t. length s.pool.idle + t) (sums holds p);
        few = omega (arith, v.few, sums wants p, length-append before (p ∷ after));
        sees = sees;
        front = (seen, later);
      }

  Apart-Inv : (p : Phase) (s : Shared) → Apart p s → Inv (before ++ (p ∷ after)) s
  Apart-Inv p s v = record {
    lock = sums locks p ∙ v.lock;
    once = λ c. ap (λ t. count c s.pool.idle + t) (sums (has c) p) ∙ v.once c;
    accounted = v.accounted ∙ ap (λ t. length s.pool.idle + t) (sym (sums holds p));
    few = omega (arith, v.few, sums wants p, length-append before (p ∷ after));
    front = All-append (SeesFront s.pool.idle) before (p ∷ after) v.front.0 (v.sees, v.front.1);
  }

  -- The others see nothing while this thread has the lock.
  alone : (idle : List ℕ) → others locks ≡ 0 → AllSee idle
  alone idle h = (no_lock idle before (omega (arith, h)), no_lock idle after (omega (arith, h)))

  abbrev shared : List ℕ → ℕ → Bool → Shared
  shared idle made locked = record { pool = record { idle = idle; made = made }; locked = locked }

  has_lock : (n : ℕ) (locked : Bool) → 1 + n ≡ (if locked then 1 else 0) → n ≡ 0
  has_lock n true e = omega (arith, e)
  has_lock n false e = absurd (omega (arith, e))

  advance-Apart :
      (p : Phase) (idle : List ℕ) (made : ℕ) (locked : Bool)
      → Apart p (shared idle made locked)
      → IfSome (λ r. Apart r.0 r.1) (advance p (shared idle made locked))
  unfolding advance w_lock w_unlock test_empty
  advance-Apart outside idle made true v = tt
  advance-Apart outside idle made false v = record {
    lock = omega (arith, v.lock);
    once = v.once;
    accounted = v.accounted;
    few = v.few;
    sees = tt;
    front = v.front;
  }
  advance-Apart testing [] made locked v = record {
    lock = v.lock;
    once = v.once;
    accounted = v.accounted;
    few = omega (arith, v.accounted, total_few before, total_few after);
    sees = tt;
    front = v.front;
  }
  advance-Apart testing (c ∷ idle) made locked v = record {
    lock = v.lock;
    once = v.once;
    accounted = v.accounted;
    few = v.few;
    sees = (idle, refl);
    front = v.front;
  }
  advance-Apart (peeked c) idle made locked v =
      let (rest, e) = v.sees in
      record {
        lock = v.lock;
        once = λ d. ground (arith, v.once d, ap (count d) e, ap (λ l. count d (pop_front l)) e);
        accounted = omega (arith, v.accounted, ap length e, ap (λ l. length (pop_front l)) e);
        few = v.few;
        sees = tt;
        front = alone (pop_front idle) (has_lock (others locks) locked v.lock);
      }
  advance-Apart (popped c) idle made locked v = record {
    lock = omega (arith, has_lock (others locks) locked v.lock);
    once = v.once;
    accounted = v.accounted;
    few = v.few;
    sees = tt;
    front = v.front;
  }
  advance-Apart missed idle made locked v = record {
    lock = omega (arith, has_lock (others locks) locked v.lock);
    once = v.once;
    accounted = v.accounted;
    few = v.few;
    sees = tt;
    front = v.front;
  }
  advance-Apart making idle made locked v = record {
    lock = v.lock;
    once = λ d. ground (arith, v.once d);
    accounted = omega (arith, v.accounted);
    few = omega (arith, v.few);
    sees = tt;
    front = v.front;
  }
  advance-Apart (holding c) idle made true v = tt
  advance-Apart (holding c) idle made false v = record {
    lock = omega (arith, v.lock);
    once = v.once;
    accounted = v.accounted;
    few = v.few;
    sees = tt;
    front = v.front;
  }
  advance-Apart (giving c) idle made locked v = record {
    lock = v.lock;
    once = λ d. ground (arith, v.once d, count-append d idle (c ∷ []));
    accounted = omega (arith, v.accounted, length-append idle (c ∷ []));
    few = v.few;
    sees = tt;
    front = alone (idle ++ (c ∷ [])) (has_lock (others locks) locked v.lock);
  }
  advance-Apart gave idle made locked v = record {
    lock = omega (arith, has_lock (others locks) locked v.lock);
    once = v.once;
    accounted = v.accounted;
    few = v.few;
    sees = tt;
    front = v.front;
  }

  pub advance-Inv :
      (p : Phase) (s : Shared)
      → Inv (before ++ (p ∷ after)) s
      → IfSome (λ r. Inv (before ++ (r.0 ∷ after)) r.1) (advance p s)
  advance-Inv p s v =
      again (advance p s) (advance-Apart p s.pool.idle s.pool.made s.locked (Inv-Apart p s v))
    where
      again :
          (o : Option (Phase × Shared))
          → IfSome (λ r. Apart r.0 r.1) o
          → IfSome (λ r. Inv (before ++ (r.0 ∷ after)) r.1) o
      again none a = tt
      again (some (p', s')) a = Apart-Inv p' s' a
