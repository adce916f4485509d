-- ===== src/SynQueue/Safety.antt =====
-- `CSynQueue` of common/synqueue_t.h over the interleavings of its threads.
use websocket_test.Base.{
  ℕ, ◌+◌, ◌-◌, ◌<◌, ◌≡◌, ◌≢◌, refl, sym, ap, ◌∙◌, arith, Option, none, some, List, [], ◌∷◌, ◌++◌,
  map, length, length-append, All, All-append, append_assoc,
}
use mathlib.Core.List.{map-append}
use websocket_test.SynQueue.{
  SynQueue, Action, put_wait, put_post, get_wait, get_pop, get_post, push_back, push_pri,
  max_queue_size, pri_high, new, step, run, front, pop_front,
}

-- The semaphores account for the queue and for every thread under way.
pub record IsCounted {A : Type 0} (q : SynQueue A) : Type 0 where
  pub readable : q.sem_read + q.pushed + q.getting ≡ length q.queue
  pub writable : q.sem_write + q.putting + length q.queue + q.popped ≡ max_queue_size - 1

-- A push at another priority than the high one posts an element that it has not pushed.
abbrev pub Pushes : {A : Type 0} → Action A → Type 0
Pushes (push_pri x pri) = pri ≡ pri_high
Pushes a = Unit {0}

abbrev pub IsSome : {A : Type 0} → Option A → Type 0
IsSome none = ⊥
IsSome (some x) = Unit {0}

pub record Inv {A : Type 0} (q : SynQueue A) : Type 0 where
  pub counted : IsCounted q
  pub no_null : All IsSome q.taken

length-pop_front : {A : Type 0} (xs : List A) → length (pop_front xs) ≡ length xs - 1
length-pop_front [] = omega arith
length-pop_front (x ∷ xs) = omega arith

front-IsSome : {A : Type 0} (xs : List A) → 0 < length xs → IsSome (front xs)
front-IsSome [] h = absurd (omega arith)
front-IsSome (x ∷ xs) h = tt

step-Inv :
    {A : Type 0} (a : Action A) (q q' : SynQueue A) → Pushes a → step a q ≡ some q' → Inv q → Inv q'
unfolding step
step-Inv put_wait q q' p e v = ground arith
step-Inv put_post q q' p e v = ground arith
step-Inv get_wait q q' p e v = ground arith
step-Inv get_post q q' p e v = ground arith
step-Inv get_pop q q' p e v = ground (
  arith,
  length-pop_front q.queue,
  All-append IsSome q.taken (front q.queue ∷ []) v.no_null,
  front-IsSome q.queue,
)
step-Inv (push_back x) q q' p e v = ground (arith, length-append q.queue (x ∷ []))
step-Inv (push_pri x pri) q q' p e v = ground arith

-- The first step of a schedule that runs through.
run-cons :
    {A : Type 0} (a : Action A) (acts : List (Action A)) (q q' : SynQueue A)
    → run (a ∷ acts) q ≡ some q'
    → (next : SynQueue A) × (step a q ≡ some next) × (run acts next ≡ some q')
unfolding run
run-cons {A} a acts q q' e = split (step a q) refl e
  where
    split :
        (o : Option (SynQueue A))
        → step a q ≡ o
        → elim o [ none ↦ none | some n ↦ run acts n ] ≡ some q'
        → (next : SynQueue A) × (step a q ≡ some next) × (run acts next ≡ some q')
    split none s e' = cc
    split (some next) s e' = (next, s, e')

run-Inv :
    {A : Type 0} (acts : List (Action A)) (q q' : SynQueue A)
    → All Pushes acts
    → run acts q ≡ some q'
    → Inv q
    → Inv q'
unfolding run
run-Inv [] q q' p e v = ground arith
run-Inv (a ∷ acts) q q' p e v =
    let (next, s, r) = run-cons a acts q q' e in
    run-Inv acts next q' p.1 r (step-Inv a q next p.0 s v)

new-Inv : {A : Type 0} → Inv (new {A = A})
unfolding new
new-Inv = record { counted = omega arith; no_null = tt }

-- However the threads interleave, if every push is a put or one at high priority: the semaphores
-- account for the queue, at most 511999 elements are queued, and no get hands out NULL.
pub run-safe :
    {A : Type 0} (acts : List (Action A)) (q : SynQueue A)
    → All Pushes acts
    → run acts new ≡ some q
    → IsCounted q × (length q.queue < max_queue_size) × All IsSome q.taken
run-safe acts q p e =
    let v = run-Inv acts new q p e new-Inv in
    (v.counted, omega (arith, v.counted.writable), v.no_null)

-- Only `put`s without a priority.
abbrev pub IsPlain : {A : Type 0} → Action A → Type 0
IsPlain (push_pri x pri) = ⊥
IsPlain a = Unit {0}

abbrev pub InOrder : {A : Type 0} → SynQueue A → Type 0
InOrder q = q.taken ++ map some q.queue ≡ map some q.given

pop-InOrder :
    {A : Type 0} (taken : List (Option A)) (queue : List A)
    → 0 < length queue
    → (taken ++ front queue ∷ []) ++ map some (pop_front queue) ≡ taken ++ map some queue
pop-InOrder taken [] h = absurd (omega arith)
pop-InOrder taken (x ∷ xs) h = append_assoc taken (some x ∷ []) (map some xs)

push-InOrder :
    {A : Type 0} (taken : List (Option A)) (queue given : List A) (x : A)
    → taken ++ map some queue ≡ map some given
    → taken ++ map some (queue ++ x ∷ []) ≡ map some (given ++ x ∷ [])
push-InOrder taken queue given x e =
    ap (λ xs. taken ++ xs) (map-append some queue (x ∷ []))
    ∙ sym (append_assoc taken (map some queue) (some x ∷ []))
    ∙ ap (λ xs. xs ++ some x ∷ []) e
    ∙ sym (map-append some given (x ∷ []))

step-InOrder :
    {A : Type 0} (a : Action A) (q q' : SynQueue A)
    → IsPlain a
    → step a q ≡ some q'
    → Inv q
    → InOrder q
    → InOrder q'
unfolding step
step-InOrder put_wait q q' p e v o = ground arith
step-InOrder put_post q q' p e v o = ground arith
step-InOrder get_wait q q' p e v o = ground arith
step-InOrder get_post q q' p e v o = ground arith
step-InOrder get_pop q q' p e v o = ground (arith, pop-InOrder q.taken q.queue)
step-InOrder (push_back x) q q' p e v o = ground (arith, push-InOrder q.taken q.queue q.given x)
step-InOrder (push_pri x pri) q q' p e v o = absurd p

IsPlain-Pushes : {A : Type 0} (a : Action A) → IsPlain a → Pushes a
IsPlain-Pushes (push_pri x pri) p = absurd p
IsPlain-Pushes _ p = tt

run-InOrder :
    {A : Type 0} (acts : List (Action A)) (q q' : SynQueue A)
    → All IsPlain acts
    → run acts q ≡ some q'
    → Inv q
    → InOrder q
    → InOrder q'
unfolding run
run-InOrder [] q q' p e v o = ground arith
run-InOrder (a ∷ acts) q q' p e v o =
    let (next, s, r) = run-cons a acts q q' e in
    run-InOrder acts next q' p.1 r (step-Inv a q next (IsPlain-Pushes a p.0) s v)
      (step-InOrder a q next p.0 s v o)

-- With plain puts only, the elements are got in the order in which they were pushed, each once,
-- whatever threads do it: what was got and then what is queued is what was pushed.
pub run-fifo :
    {A : Type 0} (acts : List (Action A)) (q : SynQueue A)
    → All IsPlain acts
    → run acts new ≡ some q
    → q.taken ++ map some q.queue ≡ map some q.given
unfolding new
run-fifo acts q p e = run-InOrder acts new q p e new-Inv refl

-- A put at a priority other than the high one, on a queue with room in its write semaphore,
-- followed by a get, loses its element: the get hands out what was at the front before, and NULL
-- where the queue was empty.
pub put_pri_lost :
    {A : Type 0} (x : A) (pri : ℕ) (q : SynQueue A)
    → pri ≢ pri_high
    → 0 < q.sem_write
    → (q' : SynQueue A) × (run
          (put_wait ∷ push_pri x pri ∷ put_post ∷ get_wait ∷ get_pop ∷ get_post ∷ [])
          q
        ≡ some q')
      × (q'.queue ≡ pop_front q.queue)
      × (q'.taken ≡ q.taken ++ front q.queue ∷ [])
unfolding run step
put_pri_lost x pri q h room = (
  record q {
    queue = pop_front q.queue;
    given = q.given ++ x ∷ [];
    taken = q.taken ++ front q.queue ∷ [];
  },
  ground arith,
  refl,
  refl,
)
