-- ===== src/Seeding/Slots.antt =====
-- `nextPowerOfTwo` and `seedBracketSlots`: the size of the bracket, and who sits where.
use joust_backend.Prelude.{
  ℕ, zero, suc, ◌+◌, ◌-◌, ◌*◌, ◌^◌, min, max, ◌≤◌, ◌<◌, ◌≡◌, ◌≢◌, ◌↔◌, inl, inr, refl, List, [],
  ◌∷◌, none, Bool-cases, ltb, ltb→lt, ltb→le, length, get_elem?, two_pow-suc, two_pow_pos, arith,
}
use joust_backend.Seeding.{standard_seed_order, slot_of, power_loop, next_power_of_two}
use joust_backend.Seeding.Order.{
  PairsTo, InRange, standard_seed_order-PairsTo, standard_seed_order-InRange,
}

power_loop_lem :
    (fuel n j : ℕ)
    → 1 ≤ n
    → n ≤ 2 ^ j + fuel
    → 2 ^ j < n * 2
    → (k : ℕ) × (power_loop fuel n (2 ^ j) ≡ 2 ^ k) × (n ≤ 2 ^ k) × (2 ^ k < n * 2)
unfolding power_loop
power_loop_lem zero n j p h small = (j, refl, omega arith, small)
power_loop_lem (suc fuel) n j p h small = elim (Bool-cases (ltb (2 ^ j) n)) [
  | inl more ↦ rw more (
      rw (← two_pow-suc j) (
        power_loop_lem fuel n (suc j) p (omega (arith, two_pow_pos j, two_pow-suc j))
          (omega (arith, ltb→lt _ _ more, two_pow-suc j))))
  | inr done ↦ (j, rw done, ltb→le _ _ done, small)
]

-- For a field of at least one player the bracket size is a power of two that holds the field, and
-- the field fills more than half of it.
pub next_power_of_two_lem :
    (n : ℕ) → 1 ≤ n → (k : ℕ) × (next_power_of_two n ≡ 2 ^ k) × (n ≤ 2 ^ k) × (2 ^ k < n * 2)
unfolding next_power_of_two
next_power_of_two_lem n p = power_loop_lem n n 0 p (omega arith) (omega arith)

module _ {ℓ} {A : Type ℓ} where
  get_elem?-none : (l : List A) (i : ℕ) → length l ≤ i → get_elem? l i ≡ none
  get_elem?-none [] i h = refl
  get_elem?-none (x ∷ l) zero h = elim h [ ]
  get_elem?-none (x ∷ l) (suc i) h = get_elem?-none l i (omega arith)

  le_of_get_elem?-none : (l : List A) (i : ℕ) → get_elem? l i ≡ none → length l ≤ i
  le_of_get_elem?-none [] i h = omega arith
  le_of_get_elem?-none (x ∷ l) zero h = cc
  le_of_get_elem?-none (x ∷ l) (suc i) h = omega (arith, le_of_get_elem?-none l i h)

  get_elem?-ne-none : (l : List A) (i : ℕ) → i < length l → get_elem? l i ≢ none
  get_elem?-ne-none [] i h e = elim h [ ]
  get_elem?-ne-none (x ∷ l) zero h e = cc
  get_elem?-ne-none (x ∷ l) (suc i) h e = get_elem?-ne-none l i (omega arith) e

-- A property of each pair of neighbours.
abbrev pub Pairs {ℓ κ} : {A : Type ℓ} → (A → A → Type κ) → List A → Type κ
Pairs P [] = Unit
Pairs P (a ∷ []) = Unit
Pairs P (a ∷ b ∷ rest) = P a b × Pairs P rest

module _ {ℓ} {A : Type ℓ} (players : List A) where
  -- In a pair whose seeds add up to n + 1, in a bracket of n slots more than half full, the better
  -- seed is always a player, and meets nobody exactly when it is among the best n - length.
  abbrev pub SeatsPair : ℕ → ℕ → ℕ → Type ℓ
  SeatsPair n s t =
      (slot_of players (min s t) ≢ none)
      × ((slot_of players (max s t) ≡ none) ↔ (min s t ≤ n - length players))

  SeatsPair_lem :
      (n s t : ℕ)
      → 1 ≤ s
      → 1 ≤ t
      → s + t ≡ n + 1
      → length players ≤ n
      → n < length players * 2
      → SeatsPair n s t
  unfolding slot_of
  SeatsPair_lem n s t hs ht sum fits full = (
    get_elem?-ne-none players (min s t - 1) (omega arith),
    (
      (λ e. omega (arith, le_of_get_elem?-none players (max s t - 1) e)),
      (λ h. get_elem?-none players (max s t - 1) (omega arith)),
    ),
  )

  order-SeatsPair :
      (n : ℕ) (order : List ℕ)
      → PairsTo (n + 1) order
      → InRange n order
      → length players ≤ n
      → n < length players * 2
      → Pairs (SeatsPair n) order
  order-SeatsPair n [] sums range fits full = tt
  order-SeatsPair n (s ∷ []) sums range fits full = tt
  order-SeatsPair n (s ∷ t ∷ order) (sum, sums) (rs, (rt, range)) fits full =
      (SeatsPair_lem n s t rs.0 rt.0 sum fits full, order-SeatsPair n order sums range fits full)

  -- For a field of two players or more, every first-round pair of seeds has a player in its better
  -- seat, and its other seat is empty exactly when the better seed is among the best as many as the
  -- bracket has slots to spare.
  pub seats_and_byes :
      2 ≤ length players
      → let size = next_power_of_two (length players) in
        Pairs (SeatsPair size) (standard_seed_order size)
  seats_and_byes two = bracket (next_power_of_two_lem (length players) (omega arith))
    where
      bracket :
          ((k : ℕ) × (next_power_of_two (length players) ≡ 2 ^ k)
            × (length players ≤ 2 ^ k)
            × (2 ^ k < length players * 2))
          → Pairs
              (SeatsPair (next_power_of_two (length players)))
              (standard_seed_order (next_power_of_two (length players)))
      bracket (zero, e, fits, full) = absurd (omega arith)
      bracket (suc k, e, fits, full) = rw e (
          order-SeatsPair (2 ^ suc k) (standard_seed_order (2 ^ suc k))
            (standard_seed_order-PairsTo k) (standard_seed_order-InRange (suc k)) fits full)
