-- ===== src/Prelude/Dict.antt =====
-- A JavaScript `Map` keyed by identifiers, in insertion order, and a `Set` of identifiers.
use Prim.Native.Nat.{ℕ}
use mathlib.Core.Path.{◌≡◌, refl, ap}
use mathlib.Core.Bool.{Bool, true, false, ◌||◌}
use mathlib.Core.Option.{Option, none, some}
use mathlib.Core.List.{List, [], ◌∷◌}
use native.Mathlib.Omega.{arith}
use joust_backend.Prelude.Tests.{◌==◌, if◌then◌else◌}
use joust_backend.Prelude.Lists.{All}

abbrev pub Dict {ℓ} : Type ℓ → Type ℓ
Dict V = List (ℕ × V)

module _ {ℓ} {V : Type ℓ} where
  -- `m.get(k)`
  unfoldable pub lookup : ℕ → Dict V → Option V
  lookup key [] = none
  lookup key (entry ∷ rest) = if entry.0 == key then some entry.1 else lookup key rest

  -- `m.set(k, v)`
  unfoldable pub insert : ℕ → V → Dict V → Dict V
  insert key v [] = (key, v) ∷ []
  insert key v (entry ∷ rest) =
      if entry.0 == key then (entry.0, v) ∷ rest else entry ∷ insert key v rest

  -- A later `get` sees the value that was set, and any other key as before.
  pub lookup-insert :
      (key other : ℕ) (v : V) (table : Dict V)
      → lookup other (insert key v table) ≡ (if key == other then some v else lookup other table)
  unfolding lookup insert
  lookup-insert key other v [] = refl
  lookup-insert key other v (entry ∷ rest) = ground (arith, lookup-insert key other v rest)

-- `set.has(k)` and `array.includes(k)`
unfoldable pub contains : ℕ → List ℕ → Bool
contains k [] = false
contains k (x ∷ xs) = x == k || contains k xs

-- Two numbers that are the same are both in the list, or neither.
pub same-contains : (a b : ℕ) (ids : List ℕ) → (a == b) ≡ true → contains b ids ≡ contains a ids
same-contains a b ids h = ap (λ n. contains n ids) (ground arith)

-- `set.add(k)`
unfoldable pub add : ℕ → List ℕ → List ℕ
add k xs = if contains k xs then xs else k ∷ xs

pub contains-add : (k j : ℕ) (xs : List ℕ) → contains j (add k xs) ≡ (k == j || contains j xs)
unfolding contains add
contains-add k j xs = ground arith

-- No identifier occurs twice.
abbrev pub Distinct : List ℕ → Type 0
Distinct [] = Unit
Distinct (x ∷ xs) = (contains x xs ≡ false) × Distinct xs

-- Every item of a list is in it.
contains_more :
    (x : ℕ) (pool xs : List ℕ)
    → All (λ c. contains c pool ≡ true) xs
    → All (λ c. contains c (x ∷ pool) ≡ true) xs
unfolding contains
contains_more x pool [] h = tt
contains_more x pool (c ∷ xs) (here, rest) = (ground arith, contains_more x pool xs rest)

pub contains_self : (xs : List ℕ) → All (λ c. contains c xs ≡ true) xs
unfolding contains
contains_self [] = tt
contains_self (x ∷ xs) = (ground arith, contains_more x xs xs (contains_self xs))
