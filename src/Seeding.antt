-- ===== src/Seeding.antt =====
-- Bracket seeding: src/Formats/bracket-seeding.helper.ts, and `nextPowerOfTwo` and
-- `generateBracket` of src/Formats/formats.service.ts.
pub mod Order
pub mod Shuffle
pub mod Slots
pub mod Seats
pub mod Bracket
pub mod Byes
use joust_backend.Prelude.{
  ℕ, zero, suc, ◌+◌, ◌-◌, ◌*◌, Option, none, some, List, [], ◌∷◌, map, Bool, true, false, ltb,
  length, get_elem?, set, if◌then◌else◌,
}

-- The swap `[out[i], out[j]] = [out[j], out[i]]`. Both reads come before the writes. An index out
-- of range would write `undefined`; the draws below never give one, and the array is left alone.
swap {ℓ} : {A : Type ℓ} → List A → ℕ → ℕ → List A
swap out i j = elim (get_elem? out i) [
  | none ↦ out
  | some a ↦ elim (get_elem? out j) [ none ↦ out | some b ↦ set (set out i b) j a ]
]

-- The loop `for (let i = out.length - 1; i > 0; i--)`, on the number of indices that are left;
-- `draw i` is the value of `Math.floor(Math.random() * (i + 1))` in the round of index `i`.
shuffle_loop {ℓ} : {A : Type ℓ} → (ℕ → ℕ) → ℕ → List A → List A
unfolding swap
shuffle_loop draw zero out = out
shuffle_loop draw (suc i) out = shuffle_loop draw i (swap out (suc i) (draw (suc i)))

pub shuffled {ℓ} : {A : Type ℓ} → (ℕ → ℕ) → List A → List A
unfolding shuffle_loop
shuffled draw items = shuffle_loop draw (length items - 1) items

-- One doubling: each seed is followed by its complement `n + 1 - seed`.
unfoldable pub expand : ℕ → List ℕ → List ℕ
expand n [] = []
expand n (seed ∷ order) = seed ∷ (n + 1 - seed) ∷ expand n order

-- `while (order.length < size)`, on fuel.
unfoldable pub seed_loop : ℕ → ℕ → List ℕ → List ℕ
unfolding expand
seed_loop zero size order = order
seed_loop (suc fuel) size order =
    let next = seed_loop fuel size (expand (length order * 2) order) in
    if ltb (length order) size then next else order

-- The length at least doubles in each round, so `size` rounds are enough.
unfoldable pub standard_seed_order : ℕ → List ℕ
unfolding seed_loop
standard_seed_order size = seed_loop size size (1 ∷ [])

-- `players[seed - 1] ?? null`. Seeds start at 1, so the truncated subtraction is exact.
unfoldable pub slot_of {ℓ} : {A : Type ℓ} → List A → ℕ → Option A
slot_of players seed = get_elem? players (seed - 1)

unfoldable pub seed_bracket_slots {ℓ} : {A : Type ℓ} → List A → ℕ → List (Option A)
unfolding slot_of standard_seed_order
seed_bracket_slots players size = map (slot_of players) (standard_seed_order size)

-- `while (power < n) power *= 2`, on fuel: `power` grows in each round.
unfoldable pub power_loop : ℕ → ℕ → ℕ → ℕ
power_loop zero n power = power
power_loop (suc fuel) n power =
    let next = power_loop fuel n (power * 2) in if ltb power n then next else power

unfoldable pub next_power_of_two : ℕ → ℕ
unfolding power_loop
next_power_of_two n = power_loop n n 1

-- An entry of a bracket pairing: `null`, a player's id, or the mark 'ALIVE' for a slot that some
-- earlier match will fill. (Ids are UUIDs, so no player is called 'ALIVE'.)
pub data Entry : Type 0 where
  empty alive : Entry
  player : ℕ → Entry

pub record Pairing : Type 0 where
  pub p1 : Entry
  pub p2 : Entry

unfoldable pub entry_of : Option ℕ → Entry
entry_of none = empty
entry_of (some id) = player id

-- One round's matches; an odd last entry meets `null`.
unfoldable pub pair_up : List Entry → List Pairing
pair_up [] = []
pair_up (a ∷ []) = record { p1 = a; p2 = empty } ∷ []
pair_up (a ∷ b ∷ rest) = record { p1 = a; p2 = b } ∷ pair_up rest

unfoldable pub is_empty : Entry → Bool
is_empty empty = true
is_empty _ = false

-- `m.p1 !== null || m.p2 !== null ? 'ALIVE' : null`.
unfoldable pub survivor : Pairing → Entry
unfolding is_empty
survivor m = if is_empty m.p1 then (if is_empty m.p2 then empty else alive) else alive

unfoldable pub bracket_loop : ℕ → List Entry → List (List Pairing)
unfolding pair_up survivor
bracket_loop zero current = []
bracket_loop (suc fuel) current =
    let matches = pair_up current in
    let later = bracket_loop fuel (map survivor matches) in
    if ltb 1 (length current) then matches ∷ later else []

unfoldable pub generate_bracket : List Entry → List (List Pairing)
unfolding bracket_loop
generate_bracket players = bracket_loop (length players) players
