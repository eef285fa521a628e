-- ===== src/Seeding/Seats.antt =====
-- `seedBracketSlots`: every player gets exactly one slot.
use joust_backend.Prelude.{
  ℕ, zero, suc, ◌-◌, ◌^◌, ◌≤◌, ◌<◌, ◌≡◌, refl, ap, List, [], ◌∷◌, map, Option, Perm, length,
  get_elem?, arith,
}
use mathlib.Core.List.{filter_map}
use mathlib.Core.List.Perm
use mathlib.Core.Path.{subst}
use joust_backend.Seeding.{standard_seed_order, slot_of, seed_bracket_slots, next_power_of_two}
use joust_backend.Seeding.Order.{seeds, standard_seed_order-perm}
use joust_backend.Seeding.Slots.{next_power_of_two_lem}

-- The players that a list of slots holds, in order.
abbrev pub seated {ℓ} : {A : Type ℓ} → List (Option A) → List A
seated = filter_map (λ slot. slot)

module _ {ℓ} {A : Type ℓ} where
  -- The slot of seed `s`, counted from the seed `lo` of the first player.
  abbrev from_seed : List A → ℕ → ℕ → Option A
  from_seed xs lo s = get_elem? xs (s - lo)

  seeds-map :
      (x : A) (xs : List A) (lo hi n : ℕ)
      → lo < hi
      → map (from_seed (x ∷ xs) lo) (seeds hi n) ≡ map (from_seed xs (suc lo)) (seeds hi n)
  unfolding seeds
  seeds-map x xs lo hi zero h = refl
  seeds-map x xs lo hi (suc n) h =
      let e : hi - lo ≡ suc (hi - suc lo) = omega arith in
      rw (e, seeds-map x xs lo (suc hi) n (omega arith))

  seated-none : (lo hi n : ℕ) → seated (map (from_seed [] lo) (seeds hi n)) ≡ []
  unfolding seeds filter_map
  seated-none lo hi zero = refl
  seated-none lo hi (suc n) = seated-none lo (suc hi) n

  seated-seeds :
      (xs : List A) (lo n : ℕ) → length xs ≤ n → seated (map (from_seed xs lo) (seeds lo n)) ≡ xs
  unfolding seeds filter_map
  seated-seeds [] lo n h = seated-none lo lo n
  seated-seeds (x ∷ xs) lo zero h = elim h [ ]
  seated-seeds (x ∷ xs) lo (suc n) h =
      let e : lo - lo ≡ 0 = omega arith in
      rw (e, seeds-map x xs lo (suc lo) n (omega arith))
        (ap (◌∷◌ x) (seated-seeds xs (suc lo) n (omega arith)))

  -- For a field of at least one player the slots hold every player exactly once, and otherwise
  -- nobody.
  pub seed_bracket_slots-perm :
      (players : List A)
      → 1 ≤ length players
      → Perm (seated (seed_bracket_slots players (next_power_of_two (length players)))) players
  unfolding seed_bracket_slots slot_of
  seed_bracket_slots-perm players some_player =
      let (k, e, fits, _) = next_power_of_two_lem (length players) some_player in
      rw e (
        subst (Perm (seated (map (slot_of players) (standard_seed_order (2 ^ k)))))
          (seated-seeds players 1 (2 ^ k) fits)
          (Perm.filter_map (λ slot. slot)
            (Perm.map (slot_of players) (standard_seed_order-perm k))))
