-- ===== src/Seeding/Byes.antt =====
-- The bracket that `initSingleElimination` and `initDoubleElimination` build from a field of
-- players: byes stand in the first round only, and no match is empty on both sides.
use joust_backend.Prelude.{
  ℕ, zero, suc, ◌*◌, ◌^◌, min, ◌≤◌, ◌<◌, ◌≡◌, ◌≢◌, ◌⊎◌, inl, inr, refl, ap, ◌∙◌, List, [], ◌∷◌, map,
  false, Option, none, some, ltb, lt→ltb, length, length-map, All, two_pow-suc, two_pow_pos, arith,
}
use native.Mathlib.Decide.{dec_le}
use joust_backend.Seeding.{
  Entry, empty, alive, Pairing, pair_up, survivor, bracket_loop, generate_bracket, entry_of,
  slot_of, standard_seed_order, seed_bracket_slots, next_power_of_two,
}
use joust_backend.Seeding.Order.{length-standard_seed_order}
use joust_backend.Seeding.Slots.{Pairs, SeatsPair, seats_and_byes, next_power_of_two_lem}
use joust_backend.Seeding.Bracket.{length-pair_up}

-- A match with a player on one side at least.
abbrev pub HasPlayer : Entry → Entry → Type 0
HasPlayer a b = (a ≢ empty) ⊎ (b ≢ empty)

abbrev pub IsPlayable : Pairing → Type 0
IsPlayable m = HasPlayer m.p1 m.p2

-- A match whose two players come out of earlier matches.
abbrev pub IsWaiting : Pairing → Type 0
IsWaiting m = (m.p1 ≡ alive) × (m.p2 ≡ alive)

abbrev IsAlive : Entry → Type 0
IsAlive e = e ≡ alive

survivor-IsAlive : (m : Pairing) → IsPlayable m → survivor m ≡ alive
unfolding survivor
survivor-IsAlive m h = ground arith

survivors-IsAlive : (ms : List Pairing) → All IsPlayable ms → All IsAlive (map survivor ms)
survivors-IsAlive [] h = tt
survivors-IsAlive (m ∷ ms) (here, rest) = (survivor-IsAlive m here, survivors-IsAlive ms rest)

pair_up-IsPlayable :
    (k : ℕ) (es : List Entry) → length es ≡ k * 2 → Pairs HasPlayer es → All IsPlayable (pair_up es)
unfolding pair_up
pair_up-IsPlayable k [] h p = tt
pair_up-IsPlayable k (a ∷ []) h p = absurd (omega arith)
pair_up-IsPlayable zero (a ∷ b ∷ es) h p = absurd (omega arith)
pair_up-IsPlayable (suc k) (a ∷ b ∷ es) h (here, rest) =
    (here, pair_up-IsPlayable k es (omega arith) rest)

pair_up-IsWaiting :
    (k : ℕ) (es : List Entry) → length es ≡ k * 2 → All IsAlive es → All IsWaiting (pair_up es)
unfolding pair_up
pair_up-IsWaiting k [] h p = tt
pair_up-IsWaiting k (a ∷ []) h p = absurd (omega arith)
pair_up-IsWaiting zero (a ∷ b ∷ es) h p = absurd (omega arith)
pair_up-IsWaiting (suc k) (a ∷ b ∷ es) h (pa, (pb, rest)) =
    ((pa, pb), pair_up-IsWaiting k es (omega arith) rest)

IsWaiting-IsPlayable : (ms : List Pairing) → All IsWaiting ms → All IsPlayable ms
IsWaiting-IsPlayable [] h = tt
IsWaiting-IsPlayable (m ∷ ms) ((p, q), rest) = (inl (λ e. cc), IsWaiting-IsPlayable ms rest)

bracket_loop-IsWaiting :
    (k fuel : ℕ) (es : List Entry)
    → length es ≡ 2 ^ k
    → All IsAlive es
    → All (All IsWaiting) (bracket_loop fuel es)
unfolding bracket_loop
bracket_loop-IsWaiting k zero es h p = tt
bracket_loop-IsWaiting zero (suc fuel) es h p =
    let small : ltb 1 (length es) ≡ false = ground arith in rw small tt
bracket_loop-IsWaiting (suc k) (suc fuel) es h p =
    let even : length es ≡ 2 ^ k * 2 = omega (arith, two_pow-suc k) in
    let waiting = pair_up-IsWaiting (2 ^ k) es even p in
    let paired = length-map survivor (pair_up es) ∙ length-pair_up (2 ^ k) es even in
    rw (lt→ltb 1 (length es) (omega (arith, two_pow-suc k, two_pow_pos k))) (
      waiting,
      bracket_loop-IsWaiting k fuel (map survivor (pair_up es)) paired
          (survivors-IsAlive (pair_up es) (IsWaiting-IsPlayable (pair_up es) waiting)),
    )

-- The first round has somebody in each match, and each match of the later rounds waits for two.
abbrev pub IsSound : List (List Pairing) → Type 0
IsSound [] = ⊥
IsSound (first ∷ later) = All IsPlayable first × All (All IsWaiting) later

generate_bracket-IsSound :
    (k : ℕ) (es : List Entry)
    → length es ≡ 2 ^ suc k
    → Pairs HasPlayer es
    → IsSound (generate_bracket es)
unfolding generate_bracket bracket_loop
generate_bracket-IsSound k [] h p = absurd (omega (arith, two_pow_pos (suc k)))
generate_bracket-IsSound k (e ∷ es) h p =
    let all = e ∷ es in
    let even : length all ≡ 2 ^ k * 2 = omega (arith, two_pow-suc k) in
    let playable = pair_up-IsPlayable (2 ^ k) all even p in
    let paired = length-map survivor (pair_up all) ∙ length-pair_up (2 ^ k) all even in
    rw (lt→ltb 1 (length all) (omega (arith, two_pow-suc k, two_pow_pos k))) (
      playable,
      bracket_loop-IsWaiting k (length es) (map survivor (pair_up all)) paired
          (survivors-IsAlive (pair_up all) playable),
    )

entry_of-ne-empty : (o : Option ℕ) → o ≢ none → entry_of o ≢ empty
unfolding entry_of
entry_of-ne-empty none h e = h refl
entry_of-ne-empty (some id) h e = cc

module _ (players : List ℕ) where
  SeatsPair-HasPlayer :
      (n s t : ℕ)
      → SeatsPair players n s t
      → HasPlayer (entry_of (slot_of players s)) (entry_of (slot_of players t))
  SeatsPair-HasPlayer n s t h = elim (dec_le s t) [
    | yes le ↦ let e : min s t ≡ s = omega arith in inl (entry_of-ne-empty _ (rw e at h.0))
    | no gt ↦ let e : min s t ≡ t = omega arith in inr (entry_of-ne-empty _ (rw e at h.0))
  ]

  Pairs-HasPlayer :
      (n : ℕ) (order : List ℕ)
      → Pairs (SeatsPair players n) order
      → Pairs HasPlayer (map entry_of (map (slot_of players) order))
  Pairs-HasPlayer n [] h = tt
  Pairs-HasPlayer n (s ∷ []) h = tt
  Pairs-HasPlayer n (s ∷ t ∷ order) (here, rest) =
      (SeatsPair-HasPlayer n s t here, Pairs-HasPlayer n order rest)

  -- From a field of two players or more the bracket over the seeded slots has a player in every match
  -- of its first round, and every later match waits for two winners.
  pub seeded_bracket-IsSound :
      2 ≤ length players
      → let size = next_power_of_two (length players) in
        IsSound (generate_bracket (map entry_of (seed_bracket_slots players size)))
  unfolding seed_bracket_slots
  seeded_bracket-IsSound two = bracket (next_power_of_two_lem (length players) (omega arith))
    where
      bracket :
          ((k : ℕ) × (next_power_of_two (length players) ≡ 2 ^ k)
            × (length players ≤ 2 ^ k)
            × (2 ^ k < length players * 2))
          → IsSound (
              generate_bracket
                (map entry_of (seed_bracket_slots players (next_power_of_two (length players)))))
      bracket (zero, e, fits, full) = absurd (omega arith)
      bracket (suc k, e, fits, full) =
          let size = next_power_of_two (length players) in
          generate_bracket-IsSound k _
            (length-map entry_of (map (slot_of players) (standard_seed_order size))
              ∙ length-map (slot_of players) (standard_seed_order size)
              ∙ ap (λ n. length (standard_seed_order n)) e
              ∙ length-standard_seed_order (suc k))
            (Pairs-HasPlayer size (standard_seed_order size) (seats_and_byes players two))
