-- ===== src/Redis/Retry.antt =====
-- What `GPN_OPERATION` of common/operation.h does with its client: the calls, one operation after another.
use websocket_test.Base.{
  ℕ, ◌≡◌, ◌≢◌, ◌⊎◌, refl, sym, subst, Bool, true, false, List, [], ◌∷◌, ◌++◌, if◌then◌else◌,
  same_bytes_iff, arith,
}
use websocket_test.Redis.{
  Pool, new_pool, get, got, giveback, Outcome, done, thrown, broken_pipe, connect_error,
  bad_descriptor, is_broken, after_reconnect, caught, operation,
}

-- A call of `func`, or of `reconnect`, with its client.
pub data Act : Type 0 where
  runs : ℕ → Act
  reconnects : ℕ → Act

-- What the library does in one operation, from a state of its own.
pub record Work (V : Type 0) : Type 0 where
  pub func : ℕ → V → Outcome × V
  pub reconnect : ℕ → V → Outcome × V

-- The texts of the exceptions of a connection that is lost.
unfoldable pub IsConnectionError : List ℕ → Type 0
IsConnectionError what = (what ≡ broken_pipe) ⊎ ((what ≡ connect_error) ⊎ (what ≡ bad_descriptor))

is_broken-IsConnectionError :
    (what : List ℕ)
    → ((is_broken what ≡ true) → IsConnectionError what)
      × ((is_broken what ≡ false) → ¬ IsConnectionError what)
unfolding is_broken IsConnectionError
is_broken-IsConnectionError what = ground (
  arith,
  same_bytes_iff what broken_pipe,
  same_bytes_iff what connect_error,
  same_bytes_iff what bad_descriptor,
)

-- What one operation does from a state: how it ends, its calls in their order, and the state after it.
pub data Ends {V : Type 0} (w : Work V) (v : V) (o : Outcome) (acts : List Act) (last : V)
    : Type 0 where
  succeeds : w.func 0 v ≡ (done, last) → o ≡ done → acts ≡ runs 0 ∷ [] → Ends w v o acts last
  swallows :
      (what : List ℕ)
      → w.func 0 v ≡ (thrown what, last)
      → ¬ IsConnectionError what
      → o ≡ done
      → acts ≡ runs 0 ∷ []
      → Ends w v o acts last
  stays_down :
      (what : List ℕ) (u : V)
      → w.func 0 v ≡ (thrown what, u)
      → IsConnectionError what
      → w.reconnect 0 u ≡ (o, last)
      → o ≢ done
      → acts ≡ runs 0 ∷ (reconnects 0 ∷ [])
      → Ends w v o acts last
  repeats :
      (what : List ℕ) (u t : V)
      → w.func 0 v ≡ (thrown what, u)
      → IsConnectionError what
      → w.reconnect 0 u ≡ (done, t)
      → w.func 0 t ≡ (o, last)
      → acts ≡ runs 0 ∷ (reconnects 0 ∷ (runs 0 ∷ []))
      → Ends w v o acts last

module _ {V : Type 0} where
  -- A call that is written down.
  unfoldable pub noted :
      (ℕ → Act) → (ℕ → V → Outcome × V) → ℕ → List Act × V → Outcome × (List Act × V)
  noted act f c (acts, v) = let (o, v') = f c v in (o, (acts ++ (act c ∷ []), v'))

  unfoldable pub noted_operation : Work V → Pool → V → Outcome × ((List Act × V) × Pool)
  noted_operation w p v = operation (noted runs w.func) (noted reconnects w.reconnect) p ([], v)

  -- The operations in their order: of each its end and its calls; then the state and the pool.
  unfoldable pub operations : List (Work V) → Pool → V → List (Outcome × List Act) × (V × Pool)
  operations [] p v = ([], (v, p))
  operations (w ∷ ws) p v =
      let (o, ((acts, v'), p')) = noted_operation w p v in
      let (ends, last) = operations ws p' v' in ((o, acts) ∷ ends, last)

  -- One operation after another, each from the state that the one before it leaves.
  unfoldable pub Chain : List (Work V) → V → List (Outcome × List Act) → V → Type 0
  Chain [] v ends last = (ends ≡ []) × (last ≡ v)
  Chain (w ∷ ws) v [] last = ⊥
  Chain (w ∷ ws) v ((o, acts) ∷ ends) last = (u : V) × (Ends w v o acts u × Chain ws u ends last)

  module _ (w : Work V) (v : V) where
    EndsAs : Outcome × (List Act × V) → Type 0
    EndsAs (o, (acts, u)) = Ends w v o acts u

    after_reconnect-Ends :
        (what : List ℕ) (u : V)
        → w.func 0 v ≡ (thrown what, u)
        → IsConnectionError what
        → (x : Outcome × V) → w.reconnect 0 u ≡ x
        → EndsAs (
            after_reconnect
              (noted runs w.func)
              (noted reconnects w.reconnect)
              0
              (x.0, (runs 0 ∷ (reconnects 0 ∷ []), x.1)))
    unfolding EndsAs after_reconnect noted
    after_reconnect-Ends what u e lost (done, t) r = repeats what u t e lost r refl refl
    after_reconnect-Ends what u e lost (thrown why, t) r = stays_down what u e lost r (λ d. cc) refl

    EndsAs-if :
        (b : Bool) (x y : Outcome × (List Act × V))
        → (b ≡ true → EndsAs x)
        → (b ≡ false → EndsAs y)
        → EndsAs (if b then x else y)
    EndsAs-if true x y p q = p refl
    EndsAs-if false x y p q = q refl

    caught-Ends :
        (x : Outcome × V)
        → w.func 0 v ≡ x
        → EndsAs
            (caught (noted runs w.func) (noted reconnects w.reconnect) 0 (x.0, (runs 0 ∷ [], x.1)))
    unfolding EndsAs caught noted
    caught-Ends (done, u) e = succeeds e refl refl
    caught-Ends (thrown what, u) e =
        let (lost, other) = is_broken-IsConnectionError what in
        EndsAs-if (is_broken what) _ _
          (λ b. after_reconnect-Ends what u e (lost b) (w.reconnect 0 u) refl)
          (λ b. swallows what e (other b) refl refl)

    noted_operation-Ends :
        Ends w v
          (noted_operation w new_pool v).0
          (noted_operation w new_pool v).1.0.0
          (noted_operation w new_pool v).1.0.1
        × ((noted_operation w new_pool v).1.1 ≡ new_pool)
    unfolding noted_operation operation noted get got giveback new_pool EndsAs
    noted_operation-Ends = (caught-Ends (w.func 0 v) refl, refl)

  -- Whatever the Redis library returns or throws, operations that follow one another, from a new
  -- pool, all use its one client and give it back, each from the state that the one before it
  -- leaves. Each calls func once, and that is all where func returns, or throws anything but
  -- "Broken pipe", "connection was closed" or "Bad file descriptor", which is swallowed. After
  -- one of these three it reconnects: an exception of reconnect leaves the operation, and
  -- otherwise it ends as a second call of func does.
  pub operations-one_client :
      (ws : List (Work V)) (v : V)
      → Chain ws v (operations ws new_pool v).0 (operations ws new_pool v).1.0
        × ((operations ws new_pool v).1.1 ≡ new_pool)
  unfolding operations Chain
  operations-one_client [] v = ((refl, refl), refl)
  operations-one_client (w ∷ ws) v =
      let (ended, same) = noted_operation-Ends w v in
      let v' = (noted_operation w new_pool v).1.0.1 in
      let (chain, last) =
        subst
          (λ p.
            Chain ws v' (operations ws p v').0 (operations ws p v').1.0
            × ((operations ws p v').1.1 ≡ new_pool))
          (sym same) (operations-one_client ws v') in
      ((v', (ended, chain)), last)
