-- ===== src/Redis/Owners.antt =====
-- Who holds the clients of `RedisCliMgr`, over the threads' guards. The lock makes each call of `get` and of
-- `giveback` one step.
use websocket_test.Base.{
  ℕ, suc, ◌+◌, ◌≤◌, ◌<◌, ◌≡◌, refl, ap, arith, List, [], ◌∷◌, ◌++◌, ◌==◌, ltb, if◌then◌else◌,
  length, length-append,
}
use websocket_test.Redis.{Pool, new_pool, get, got, giveback}

-- The pool, and the clients that the guards hold.
pub record Users : Type 0 where
  pub pool : Pool
  pub held : List ℕ

-- `GET_REDIS_CLIENT`, and the end of a guard's scope.
unfoldable pub opened : Users → Users
opened u = let (c, p) = get u.pool in record { pool = p; held = c ∷ u.held }

unfoldable pub closed : ℕ → List ℕ → Users → Users
closed c rest u = record { pool = giveback c u.pool; held = rest }

abbrev pub at_start : Users
at_start = record { pool = new_pool; held = [] }

-- A thread opens a guard, of which at most `n` are alive at once, or one of the guards ends.
pub data Step (n : ℕ) : Users → Users → Type 0 where
  opens : (u : Users) → length u.held < n → Step n u (opened u)
  closes :
      (u : Users) (before after : List ℕ) (c : ℕ)
      → u.held ≡ before ++ (c ∷ after)
      → Step n u (closed c (before ++ after) u)

pub data Reach (n : ℕ) (u : Users) : Users → Type 0 where
  here : Reach n u u
  next : {v w : Users} → Reach n u v → Step n v w → Reach n u w

abbrev pub count : ℕ → List ℕ → ℕ
count c [] = 0
count c (x ∷ xs) = let rest = count c xs in if x == c then suc rest else rest

pub count-append : (c : ℕ) (xs ys : List ℕ) → count c (xs ++ ys) ≡ count c xs + count c ys
count-append c [] ys = ground arith
count-append c (x ∷ xs) ys = ground (arith, count-append c xs ys)

-- Every client that has been made is in the list or held by a guard, once, and no other is; and no more have
-- been made than guards were alive at once.
abbrev pub IsExclusive : ℕ → Users → Type 0
IsExclusive n u =
    ((c : ℕ) → count c u.pool.idle + count c u.held ≡ (if ltb c u.pool.made then 1 else 0))
    × (u.pool.made ≡ length u.pool.idle + length u.held)
    × (u.pool.made ≤ n)

abbrev users : List ℕ → ℕ → List ℕ → Users
users idle made held = record { pool = record { idle = idle; made = made }; held = held }

opened-IsExclusive :
    (n : ℕ) (idle : List ℕ) (made : ℕ) (held : List ℕ)
    → length held < n
    → IsExclusive n (users idle made held)
    → IsExclusive n (opened (users idle made held))
unfolding opened get got
opened-IsExclusive n [] made held h (once, all, few) =
    (λ c. ground (arith, once c), omega (arith, all), omega (arith, all))
opened-IsExclusive n (x ∷ idle) made held h (once, all, few) =
    (λ c. ground (arith, once c), omega (arith, all), few)

closed-IsExclusive :
    (n : ℕ) (u : Users) (before after : List ℕ) (c : ℕ)
    → u.held ≡ before ++ (c ∷ after)
    → IsExclusive n u
    → IsExclusive n (closed c (before ++ after) u)
unfolding closed giveback
closed-IsExclusive n u before after c e (once, all, few) = (
  λ d. ground (
    arith,
    once d,
    ap (count d) e,
    count-append d u.pool.idle (c ∷ []),
    count-append d before after,
    count-append d before (c ∷ after),
  ),
  omega (
    arith,
    all,
    ap length e,
    length-append u.pool.idle (c ∷ []),
    length-append before after,
    length-append before (c ∷ after),
  ),
  few,
)

Step-IsExclusive : (n : ℕ) {u v : Users} → Step n u v → IsExclusive n u → IsExclusive n v
Step-IsExclusive n (opens u h) x = opened-IsExclusive n u.pool.idle u.pool.made u.held h x
Step-IsExclusive n (closes u before after c e) x = closed-IsExclusive n u before after c e x

-- Whatever threads open and end guards, in any order, with at most n alive at once, and n not 0:
-- every client that has been made is in the pool's list or held by a guard, once, no other is, and
-- at most n have been made.
Reach-IsExclusive : (n : ℕ) (u : Users) → 0 < n → Reach n at_start u → IsExclusive n u
unfolding new_pool
Reach-IsExclusive n u h here = (λ c. ground arith, refl, h)
Reach-IsExclusive n u h (next r st) = Step-IsExclusive n st (Reach-IsExclusive n _ h r)
