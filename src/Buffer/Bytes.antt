-- ===== src/Buffer/Bytes.antt =====
-- `m_Buffer` as a function from index to byte, and the copies into and out of it. The array has 64 KiB;
-- an index from there on stands for memory that is not the buffer's.
use websocket_test.Base.{
  ℕ, zero, suc, ◌+◌, ◌-◌, ◌≤◌, ◌<◌, ◌≡◌, refl, sym, ap, ap₂, ◌∙◌, ◌⊎◌, inl, inr, List, [], ◌∷◌,
  ◌++◌, arith, ltb, leb, ◌&&◌, if◌then◌else◌, length, get_or, take, drop, take-append, drop-append,
  lt→ltb, le→leb,
}
use Prim.Native.Nat.add

abbrev pub Memory : Type 0
Memory = ℕ → ℕ

-- memcpy(m_Buffer + at, bytes, length bytes).
unfoldable pub store : Memory → ℕ → List ℕ → Memory
store m at bytes i = if leb at i && ltb i (at + length bytes) then get_or bytes (i - at) 0 else m i

-- The `n` bytes from `at` on.
unfoldable pub load : Memory → ℕ → ℕ → List ℕ
load m at zero = []
load m at (suc n) = m at ∷ load m (at + 1) n

pub length-load : (m : Memory) (at n : ℕ) → length (load m at n) ≡ n
unfolding load
length-load m at zero = refl
length-load m at (suc n) = ap suc (length-load m (at + 1) n)

-- A copy out depends on the bytes of its range only.
load_ext :
    (m m' : Memory) (at n : ℕ)
    → ((i : ℕ) → at ≤ i → i < at + n → m i ≡ m' i)
    → load m at n ≡ load m' at n
unfolding load
load_ext m m' at zero h = refl
load_ext m m' at (suc n) h =
    ap₂ ◌∷◌ (h at (omega arith) (omega arith))
      (load_ext m m' (at + 1) n (λ i p q. h i (omega arith) (omega arith)))

pub load-append : (m : Memory) (at j k : ℕ) → load m at (j + k) ≡ load m at j ++ load m (at + j) k
unfolding load
load-append m at zero k = ap₂ (load m) (omega arith) (omega arith)
load-append m at (suc j) k =
    ap (load m at) (add.suc j k)
    ∙ ap (◌∷◌ (m at))
        (load-append m (at + 1) j k ∙ ap (λ p. load m (at + 1) j ++ load m p k) (omega arith))

pub store_outside :
    (m : Memory) (at : ℕ) (bytes : List ℕ) (i : ℕ)
    → (i < at) ⊎ (at + length bytes ≤ i)
    → store m at bytes i ≡ m i
unfolding store
store_outside m at bytes i h = ground arith

store_head : (m : Memory) (at b : ℕ) (bytes : List ℕ) → store m at (b ∷ bytes) at ≡ b
unfolding store
store_head m at b bytes =
    rw (le→leb at at (omega arith), lt→ltb at (at + suc (length bytes)) (omega arith))
      (ap (λ k. get_or (b ∷ bytes) k 0) (let e : at - at ≡ 0 = omega arith in e))

get_or_step :
    (b i at : ℕ) (bytes : List ℕ)
    → at < i
    → get_or (b ∷ bytes) (i - at) 0 ≡ get_or bytes (i - (at + 1)) 0
get_or_step b i at bytes h = let e : i - at ≡ suc (i - (at + 1)) = omega arith in rw e

store_tail :
    (m : Memory) (at b : ℕ) (bytes : List ℕ) (i : ℕ)
    → at < i
    → store m at (b ∷ bytes) i ≡ store m (at + 1) bytes i
unfolding store
store_tail m at b bytes i h = ground (arith, get_or_step b i at bytes)

-- What was copied in is what is copied out.
pub load-store :
    (m : Memory) (at : ℕ) (bytes : List ℕ) → load (store m at bytes) at (length bytes) ≡ bytes
unfolding load
load-store m at [] = refl
load-store m at (b ∷ bytes) = ap₂ ◌∷◌ (store_head m at b bytes) (
    load_ext _ (store m (at + 1) bytes) (at + 1) (length bytes)
      (λ i p q. store_tail m at b bytes i (omega arith))
    ∙ load-store m (at + 1) bytes)

-- A copy in leaves what lies before it and behind it.
pub load-store_outside :
    (m : Memory) (at : ℕ) (bytes : List ℕ) (from n : ℕ)
    → (from + n ≤ at) ⊎ (at + length bytes ≤ from)
    → load (store m at bytes) from n ≡ load m from n
load-store_outside m at bytes from n (inl h) =
    load_ext _ m from n (λ i p q. store_outside m at bytes i (inl (omega arith)))
load-store_outside m at bytes from n (inr h) =
    load_ext _ m from n (λ i p q. store_outside m at bytes i (inr (omega arith)))

-- The front and the rest of a copy out.
pub take-load : (m : Memory) (at j k : ℕ) → take j (load m at (j + k)) ≡ load m at j
take-load m at j k = rw (load-append m at j k) (take-append j _ _ (sym (length-load m at j)))

pub drop-load : (m : Memory) (at j k : ℕ) → drop j (load m at (j + k)) ≡ load m (at + j) k
drop-load m at j k = rw (load-append m at j k) (drop-append j _ _ (sym (length-load m at j)))
