-- ===== src/Redis/Threads/Exclusive.antt =====
-- The threads that use the pool of common/redisCliMgr.h at once, over any schedule.
use websocket_test.Base.{
  ℕ, zero, suc, ◌+◌, ◌≤◌, ◌<◌, ◌≡◌, ◌≢◌, ◌⊎◌, inl, inr, Bool-cases, refl, sym, ap, subst, ◌∙◌,
  arith, false, Option, none, some, List, [], ◌∷◌, ◌++◌, ltb, if◌then◌else◌, length, append_assoc,
  All,
}
use websocket_test.Redis.{Pool, new_pool, get, got, giveback}
use websocket_test.Redis.Owners.{count}
use websocket_test.Redis.Threads.{
  Shared, Phase, outside, testing, missed, making, gave, peeked, popped, holding, giving, w_lock,
  w_unlock, test_empty, advance, step_at, run, unlocked, all_outside,
}
use websocket_test.Redis.Threads.Inv.{locks, wants, has, holds, total, Inv, IfSome, SeesFront}
use websocket_test.Redis.Threads.Apart.{advance-Inv}

IfSome-map :
    {A B : Type 0} (P : A → Type 0) (Q : B → Type 0) (f : A → B) (o : Option A)
    → ((a : A) → P a → Q (f a))
    → IfSome P o
    → IfSome Q (elim o [ none ↦ none | some a ↦ some (f a) ])
IfSome-map P Q f none h p = tt
IfSome-map P Q f (some a) h p = h a p

IfSome-bind :
    {A B : Type 0} (P : A → Type 0) (Q : B → Type 0) (f : A → Option B) (o : Option A)
    → ((a : A) → P a → IfSome Q (f a))
    → IfSome P o
    → IfSome Q (elim o [ none ↦ none | some a ↦ f a ])
IfSome-bind P Q f none h p = tt
IfSome-bind P Q f (some a) h p = h a p

step_at-Inv :
    (i : ℕ) (before ps : List Phase) (s : Shared)
    → Inv (before ++ ps) s
    → IfSome (λ r. Inv (before ++ r.0) r.1 × (length r.0 ≡ length ps)) (step_at i ps s)
unfolding step_at
step_at-Inv i before [] s v = tt
step_at-Inv zero before (p ∷ ps) s v =
    IfSome-map (λ r. Inv (before ++ (r.0 ∷ ps)) r.1)
      (λ r. Inv (before ++ r.0) r.1 × (length r.0 ≡ suc (length ps))) (λ r. (r.0 ∷ ps, r.1))
      (advance p s) (λ r a. (a, refl)) (advance-Inv before ps p s v)
step_at-Inv (suc i) before (p ∷ ps) s v =
    IfSome-map (λ r. Inv ((before ++ (p ∷ [])) ++ r.0) r.1 × (length r.0 ≡ length ps))
      (λ r. Inv (before ++ r.0) r.1 × (length r.0 ≡ suc (length ps))) (λ r. (p ∷ r.0, r.1))
      (step_at i ps s)
      (λ r a. (subst (λ q. Inv q r.1) (append_assoc before (p ∷ []) r.0) a.0, ap suc a.1))
      (step_at-Inv i (before ++ (p ∷ [])) ps s
        (subst (λ q. Inv q s) (sym (append_assoc before (p ∷ []) ps)) v))

run-Inv :
    (is : List ℕ) (ps : List Phase) (s : Shared)
    → Inv ps s
    → IfSome (λ r. Inv r.0 r.1 × (length r.0 ≡ length ps)) (run is ps s)
unfolding run
run-Inv [] ps s v = (v, refl)
run-Inv (i ∷ is) ps s v =
    IfSome-bind (λ r. Inv r.0 r.1 × (length r.0 ≡ length ps))
      (λ r. Inv r.0 r.1 × (length r.0 ≡ length ps)) (λ r. run is r.0 r.1) (step_at i ps s)
      (λ r a.
        subst (λ k. IfSome (λ q. Inv q.0 q.1 × (length q.0 ≡ k)) (run is r.0 r.1)) a.1
          (run-Inv is r.0 r.1 a.0))
      (step_at-Inv i [] ps s v)

start-totals :
    (n : ℕ) (c : ℕ)
    → (total locks (all_outside n) ≡ 0)
      × (total (has c) (all_outside n) ≡ 0)
      × (total holds (all_outside n) ≡ 0)
      × (total wants (all_outside n) ≡ 0)
      × (length (all_outside n) ≡ n)
      × All (SeesFront (0 ∷ [])) (all_outside n)
start-totals zero c = (refl, refl, refl, refl, refl, tt)
start-totals (suc n) c =
    let (a, b, d, e, l, f) = start-totals n c in
    (
      omega (arith, a),
      omega (arith, b),
      omega (arith, d),
      omega (arith, e),
      omega (arith, l),
      (tt, f),
    )

start-Inv : (n : ℕ) → 0 < n → Inv (all_outside n) (unlocked new_pool)
unfolding new_pool
start-Inv n h =
    let (a, b, d, e, l, f) = start-totals n 0 in
    record {
      lock = a;
      once = λ c. ground (arith, (start-totals n c).1);
      accounted = omega (arith, d);
      few = omega (arith, e, l);
      front = f;
    }

-- A thread alone makes `get` in four steps, and `giveback` in three.
alone_on :
    (idle : List ℕ) (made : ℕ)
    → run (0 ∷ 0 ∷ 0 ∷ 0 ∷ []) (outside ∷ []) (unlocked (record { idle = idle; made = made }))
      ≡ some (
        holding (got idle (record { idle = idle; made = made })).0 ∷ [],
        unlocked (got idle (record { idle = idle; made = made })).1,
      )
unfolding run step_at advance w_lock w_unlock test_empty got
alone_on [] made = refl
alone_on (c ∷ idle) made = refl

alone-get :
    (p : Pool)
    → run (0 ∷ 0 ∷ 0 ∷ 0 ∷ []) (outside ∷ []) (unlocked p)
      ≡ some (holding (get p).0 ∷ [], unlocked (get p).1)
unfolding get
alone-get p = alone_on p.idle p.made

alone-giveback :
    (c : ℕ) (p : Pool)
    → run (0 ∷ 0 ∷ 0 ∷ []) (holding c ∷ []) (unlocked p)
      ≡ some (outside ∷ [], unlocked (giveback c p))
unfolding run step_at advance w_lock w_unlock giveback
alone-giveback c p = refl

some-ne_none : {A : Type 0} (a : A) → some a ≢ none
some-ne_none a e = ground (arith, e)

kept-ne_none :
    {A B : Type 0} (o : Option A) (f : A → B)
    → o ≢ none
    → (elim o [ none ↦ none | some a ↦ some (f a) ]) ≢ none
kept-ne_none none f h = absurd (h refl)
kept-ne_none (some a) f h = some-ne_none (f a)

test_empty-ne_none : (idle : List ℕ) (s : Shared) → test_empty idle s ≢ none
unfolding test_empty
test_empty-ne_none [] s = some-ne_none _
test_empty-ne_none (c ∷ idle) s = some-ne_none _

-- Nothing holds up a thread that has the lock, nor any thread while nobody has it.
advance-ne_none : (p : Phase) (s : Shared) → (s.locked ≡ false) ⊎ (locks p ≡ 1) → advance p s ≢ none
unfolding advance w_lock w_unlock
advance-ne_none outside s (inl e) = rw e (some-ne_none _)
advance-ne_none outside s (inr e) = absurd (omega (arith, e))
advance-ne_none testing s h = test_empty-ne_none s.pool.idle s
advance-ne_none (peeked c) s h = some-ne_none _
advance-ne_none (popped c) s h = some-ne_none _
advance-ne_none missed s h = some-ne_none _
advance-ne_none making s h = some-ne_none _
advance-ne_none (holding c) s (inl e) = rw e (some-ne_none _)
advance-ne_none (holding c) s (inr e) = absurd (omega (arith, e))
advance-ne_none (giving c) s h = some-ne_none _
advance-ne_none gave s h = some-ne_none _

first_steps :
    (p : Phase) (ps : List Phase) (s : Shared)
    → (s.locked ≡ false) ⊎ (locks p ≡ 1)
    → step_at 0 (p ∷ ps) s ≢ none
unfolding step_at
first_steps p ps s h = kept-ne_none (advance p s) (λ r. (r.0 ∷ ps, r.1)) (advance-ne_none p s h)

free_steps :
    (ps : List Phase) (s : Shared)
    → s.locked ≡ false
    → 0 < length ps
    → (i : ℕ) × (step_at i ps s ≢ none)
free_steps [] s e h = absurd (omega (arith, h))
free_steps (p ∷ ps) s e h = (0, first_steps p ps s (inl e))

locks-few : (p : Phase) → (locks p ≡ 0) ⊎ (locks p ≡ 1)
locks-few outside = inl refl
locks-few testing = inr refl
locks-few (peeked c) = inr refl
locks-few (popped c) = inr refl
locks-few missed = inr refl
locks-few making = inl refl
locks-few (holding c) = inl refl
locks-few (giving c) = inr refl
locks-few gave = inr refl

owner_steps :
    (ps : List Phase) (s : Shared) → total locks ps ≡ 1 → (i : ℕ) × (step_at i ps s ≢ none)
unfolding step_at
owner_steps [] s e = absurd (omega (arith, e))
owner_steps (p ∷ ps) s e = elim (locks-few p) [
  | inl z ↦
      let (i, h) = owner_steps ps s (omega (arith, e, z)) in
      (suc i, kept-ne_none (step_at i ps s) (λ r. (p ∷ r.0, r.1)) h)
  | inr o ↦ (0, first_steps p ps s (inr o))
]

someone_steps :
    (ps : List Phase) (s : Shared) → Inv ps s → 0 < length ps → (i : ℕ) × (step_at i ps s ≢ none)
someone_steps ps s v h = elim (Bool-cases s.locked) [
  | inl e ↦ owner_steps ps s (v.lock ∙ ap (λ b. if b then 1 else 0) e)
  | inr e ↦ free_steps ps s e h
]

-- Over any schedule of the steps of n threads that use a new pool, n not 0, each step of get and
-- giveback by itself: every client that has been made is in the list or with a thread, once, and no
-- other is; at most n have been made; just one thread has the lock where it is taken, and none
-- where it is free; the threads are still n, and some thread can make its next step.
pub threads-exclusive :
    (n : ℕ) (is : List ℕ) (ps : List Phase) (s : Shared)
    → 0 < n
    → run is (all_outside n) (unlocked new_pool) ≡ some (ps, s)
    → ((c : ℕ) → count c s.pool.idle + total (has c) ps ≡ (if ltb c s.pool.made then 1 else 0))
      × (s.pool.made ≤ n)
      × (total locks ps ≡ (if s.locked then 1 else 0))
      × (length ps ≡ n)
      × (i : ℕ) × (step_at i ps s ≢ none)
threads-exclusive n is ps s h e =
    let (v, l) =
      subst (IfSome (λ r. Inv r.0 r.1 × (length r.0 ≡ length (all_outside n)))) e
        (run-Inv is (all_outside n) (unlocked new_pool) (start-Inv n h)) in
    let (a, b, d, w, size, f) = start-totals n 0 in
    let (i, goes_on) = someone_steps ps s v (omega (arith, h, l, size)) in
    (v.once, omega (arith, v.few, l, size), v.lock, l ∙ size, i, goes_on)
