-- ===== src/Seeding/Bracket.antt =====
-- `generateBracket`: how many rounds a bracket has, how many matches each of them, and which
-- matches wait for players.
use joust_backend.Prelude.{
  ℕ, zero, suc, ◌*◌, ◌^◌, ◌≤◌, ◌≡◌, refl, ap, ◌∙◌, List, [], ◌∷◌, map, lt→ltb, length, length-map,
  two_pow-suc, two_pow_pos, lt-two_pow, arith,
}
use joust_backend.Seeding.Order.{size-le-standard_seed_order}
use joust_backend.Seeding.{
  seed_bracket_slots, slot_of, standard_seed_order, Pairing, Entry, pair_up, survivor, bracket_loop,
  generate_bracket,
}

pub length-pair_up :
    (k : ℕ) (entries : List Entry) → length entries ≡ k * 2 → length (pair_up entries) ≡ k
unfolding pair_up
length-pair_up zero [] h = refl
length-pair_up (suc k) [] h = absurd (omega arith)
length-pair_up k (a ∷ []) h = absurd (omega arith)
length-pair_up zero (a ∷ b ∷ entries) h = absurd (omega arith)
length-pair_up (suc k) (a ∷ b ∷ entries) h = ap suc (length-pair_up k entries (omega arith))

-- The sizes of the rounds of a bracket of 2 ^ k slots: each half of the one before, down to 1.
abbrev round_sizes : ℕ → List ℕ
round_sizes zero = []
round_sizes (suc k) = 2 ^ k ∷ round_sizes k

bracket_loop-round_sizes :
    (k fuel : ℕ) (entries : List Entry)
    → length entries ≡ 2 ^ k
    → k ≤ fuel
    → map length (bracket_loop fuel entries) ≡ round_sizes k
unfolding bracket_loop
bracket_loop-round_sizes zero zero entries h le = refl
bracket_loop-round_sizes zero (suc fuel) entries h le = ground arith
bracket_loop-round_sizes (suc k) zero entries h le = elim le [ ]
bracket_loop-round_sizes (suc k) (suc fuel) entries h le =
    let paired = length-pair_up (2 ^ k) entries (omega (arith, two_pow-suc k)) in
    let later =
      bracket_loop-round_sizes k fuel (map survivor (pair_up entries))
        (length-map survivor (pair_up entries) ∙ paired) (omega arith) in
    rw (lt→ltb 1 (length entries) (omega (arith, two_pow-suc k, two_pow_pos k)))
      (rw (paired, later))

-- A bracket of 2 ^ k entries has k rounds, of 2 ^ (k - 1), …, 2, 1 matches.
generate_bracket-round_sizes :
    (k : ℕ) (entries : List Entry)
    → length entries ≡ 2 ^ k
    → map length (generate_bracket entries) ≡ round_sizes k
unfolding generate_bracket
generate_bracket-round_sizes k entries h =
    bracket_loop-round_sizes k (length entries) entries h (omega (arith, lt-two_pow k))

-- The matches of the first round.
unfoldable pub first_round : List (List Pairing) → List Pairing
first_round [] = []
first_round (ms ∷ rounds) = ms

pub generate_bracket-first_round :
    (entries : List Entry)
    → 2 ≤ length entries
    → first_round (generate_bracket entries) ≡ pair_up entries
unfolding generate_bracket first_round bracket_loop
generate_bracket-first_round [] h = ground arith
generate_bracket-first_round (e ∷ entries) h = ground arith

-- There are at least as many slots as the size says.
pub size-le-seed_bracket_slots {ℓ} :
    {A : Type ℓ} (players : List A) (size : ℕ) → size ≤ length (seed_bracket_slots players size)
unfolding seed_bracket_slots
size-le-seed_bracket_slots players size = omega (
  arith,
  length-map (slot_of players) (standard_seed_order size),
  size-le-standard_seed_order size,
)
