-- ===== src/Base/Maps.antt =====
-- A `std::map` from strings: the list of its entries in the order of their keys.
use Prim.Native.Nat.{ℕ}
use mathlib.Core.Path.{◌≡◌, refl, sym, subst}
use mathlib.Core.Bool.{Bool, true, false}
use mathlib.Core.Option.{Option, none, some}
use mathlib.Core.List.{List, [], ◌∷◌, ◌++◌}
use native.Mathlib.Omega.{arith}
use websocket_test.Base.Tests.{◌==◌, ltb, if◌then◌else◌}
use websocket_test.Base.Strings.{same_bytes, same_bytes_iff}

-- The order of `std::string`.
unfoldable pub less_bytes : List ℕ → List ℕ → Bool
less_bytes xs [] = false
less_bytes [] (y ∷ ys) = true
less_bytes (x ∷ xs) (y ∷ ys) = if x == y then less_bytes xs ys else ltb x y

pub less_bytes_trans :
    (xs ys zs : List ℕ)
    → less_bytes xs ys ≡ true
    → less_bytes ys zs ≡ true
    → less_bytes xs zs ≡ true
unfolding less_bytes
less_bytes_trans xs [] zs p q = ground arith
less_bytes_trans xs (y ∷ ys) [] p q = ground arith
less_bytes_trans [] (y ∷ ys) (z ∷ zs) p q = refl
less_bytes_trans (x ∷ xs) (y ∷ ys) (z ∷ zs) p q = ground (arith, less_bytes_trans xs ys zs)

pub less_bytes_total :
    (xs ys : List ℕ) → same_bytes xs ys ≡ false → less_bytes ys xs ≡ false → less_bytes xs ys ≡ true
unfolding less_bytes same_bytes
less_bytes_total [] [] p q = ground arith
less_bytes_total [] (y ∷ ys) p q = refl
less_bytes_total (x ∷ xs) [] p q = ground arith
less_bytes_total (x ∷ xs) (y ∷ ys) p q = ground (arith, less_bytes_total xs ys)

pub less_bytes_irrefl : (xs : List ℕ) → less_bytes xs xs ≡ false
unfolding less_bytes
less_bytes_irrefl [] = refl
less_bytes_irrefl (x ∷ xs) = ground (arith, less_bytes_irrefl xs)

module _ {V : Type 0} where
  unfoldable pub lookup : List ℕ → List (List ℕ × V) → Option V
  lookup k [] = none
  lookup k ((j, v) ∷ m) = if same_bytes j k then some v else lookup k m

  unfoldable pub assign : List ℕ → V → List (List ℕ × V) → List (List ℕ × V)
  assign k v [] = (k, v) ∷ []
  assign k v ((j, w) ∷ m) =
      let later = assign k v m in
      if same_bytes j k
      then (j, v) ∷ m
      else if less_bytes k j
      then (k, v) ∷ ((j, w) ∷ m)
      else (j, w) ∷ later

  unfoldable pub erase : List ℕ → List (List ℕ × V) → List (List ℕ × V)
  erase k [] = []
  erase k ((j, w) ∷ m) = let later = erase k m in if same_bytes j k then later else (j, w) ∷ later

  pub lookup-assign :
      (k j : List ℕ) (v : V) (m : List (List ℕ × V))
      → lookup j (assign k v m) ≡ (if same_bytes k j then some v else lookup j m)
  unfolding lookup assign
  lookup-assign k j v [] = refl
  lookup-assign k j v ((i, w) ∷ m) =
      ground
        (arith, lookup-assign k j v m, same_bytes_iff i k, same_bytes_iff i j, same_bytes_iff k j)

  pub lookup-erase :
      (k j : List ℕ) (m : List (List ℕ × V))
      → lookup j (erase k m) ≡ (if same_bytes k j then none else lookup j m)
  unfolding lookup erase
  lookup-erase k j [] = ground arith
  lookup-erase k j ((i, w) ∷ m) =
      ground (arith, lookup-erase k j m, same_bytes_iff i k, same_bytes_iff i j, same_bytes_iff k j)

  -- The keys behind one, and the entries in order.
  abbrev pub AllAbove : List ℕ → List (List ℕ × V) → Type 0
  AllAbove k [] = Unit {0}
  AllAbove k ((j, v) ∷ m) = (less_bytes k j ≡ true) × AllAbove k m

  abbrev pub IsSorted : List (List ℕ × V) → Type 0
  IsSorted [] = Unit {0}
  IsSorted ((k, v) ∷ m) = AllAbove k m × IsSorted m

  AllAbove-trans :
      (i k : List ℕ) (m : List (List ℕ × V)) → less_bytes i k ≡ true → AllAbove k m → AllAbove i m
  AllAbove-trans i k [] p a = tt
  AllAbove-trans i k ((j, v) ∷ m) p (a, rest) =
      (less_bytes_trans i k j p a, AllAbove-trans i k m p rest)

  AllAbove-assign :
      (i k : List ℕ) (v : V) (m : List (List ℕ × V))
      → less_bytes i k ≡ true
      → AllAbove i m
      → AllAbove i (assign k v m)
  unfolding assign
  AllAbove-assign i k v [] p a = (p, tt)
  AllAbove-assign i k v ((j, w) ∷ m) p (a, rest) = ground (arith, AllAbove-assign i k v m p rest)

  pub assign-IsSorted :
      (k : List ℕ) (v : V) (m : List (List ℕ × V)) → IsSorted m → IsSorted (assign k v m)
  unfolding assign
  assign-IsSorted k v [] s = (tt, tt)
  assign-IsSorted k v ((j, w) ∷ m) (a, s) = ground (
    arith,
    assign-IsSorted k v m s,
    AllAbove-trans k j m,
    AllAbove-assign j k v m,
    less_bytes_total j k,
  )

  -- All entries are in front of a key.
  abbrev pub AllBelow : List (List ℕ × V) → List ℕ → Type 0
  AllBelow [] k = Unit {0}
  AllBelow ((j, v) ∷ m) k = (less_bytes j k ≡ true) × AllBelow m k

  -- A key that is behind all others is added at the end.
  pub assign-AllBelow :
      (k : List ℕ) (v : V) (m : List (List ℕ × V))
      → AllBelow m k
      → assign k v m ≡ m ++ ((k, v) ∷ [])
  unfolding assign
  assign-AllBelow k v [] b = refl
  assign-AllBelow k v ((j, w) ∷ m) (b, bs) = ground (
    arith,
    assign-AllBelow k v m bs,
    same_bytes_iff j k,
    less_bytes_irrefl k,
    less_bytes_trans k j k,
  )

  AllAbove-at :
      (j k : List ℕ) (v : V) (m c : List (List ℕ × V))
      → AllAbove j (m ++ ((k, v) ∷ c))
      → less_bytes j k ≡ true
  AllAbove-at j k v [] c a = a.0
  AllAbove-at j k v ((i, w) ∷ m) c a = AllAbove-at j k v m c a.1

  -- What is in front of an entry of a sorted map is below its key.
  pub IsSorted-AllBelow :
      (m : List (List ℕ × V)) (k : List ℕ) (v : V) (c : List (List ℕ × V))
      → IsSorted (m ++ ((k, v) ∷ c))
      → AllBelow m k
  IsSorted-AllBelow [] k v c s = tt
  IsSorted-AllBelow ((j, w) ∷ m) k v c s =
      (AllAbove-at j k v m c s.0, IsSorted-AllBelow m k v c s.1)

  -- All entries have a property.
  abbrev pub AllEntries : (List ℕ → V → Type 0) → List (List ℕ × V) → Type 0
  AllEntries P [] = Unit {0}
  AllEntries P ((k, v) ∷ m) = P k v × AllEntries P m

  pub assign-AllEntries :
      (P : List ℕ → V → Type 0) (k : List ℕ) (v : V) (m : List (List ℕ × V))
      → P k v
      → AllEntries P m
      → AllEntries P (assign k v m)
  unfolding assign
  assign-AllEntries P k v [] p a = (p, tt)
  assign-AllEntries P k v ((j, w) ∷ m) p (q, a) =
      chosen (same_bytes j k) (less_bytes k j)
        (λ e. subst (λ i. P i v) (sym ((same_bytes_iff j k).0 e)) p) (assign-AllEntries P k v m p a)
    where
      chosen :
          (b c : Bool)
          → (b ≡ true → P j v)
          → AllEntries P (assign k v m)
          → AllEntries P
              (if b then (j, v) ∷ m else if c then (k, v) ∷ ((j, w) ∷ m) else (j, w) ∷ assign k v m)
      chosen true c h later = (h refl, a)
      chosen false true h later = (p, (q, a))
      chosen false false h later = (q, later)

  pub lookup-AllEntries :
      (P : List ℕ → V → Type 0) (k : List ℕ) (v : V) (m : List (List ℕ × V))
      → lookup k m ≡ some v
      → AllEntries P m
      → P k v
  unfolding lookup
  lookup-AllEntries P k v [] e a = cc
  lookup-AllEntries P k v ((j, w) ∷ m) e (p, a) =
      found (same_bytes j k) refl e λ f. lookup-AllEntries P k v m f a
    where
      found :
          (b : Bool)
          → same_bytes j k ≡ b
          → (if b then some w else lookup k m) ≡ some v
          → (lookup k m ≡ some v → P k v)
          → P k v
      found true s h later =
          subst (λ i. P i v) ((same_bytes_iff j k).0 s) (subst (P j) (ground (arith, h)) p)
      found false s h later = later h
