-- ===== src/Launch/FirstRound.antt =====
-- What `isFirstRoundComplete` of src/tournament/tournament.service.ts decides.
use joust_backend.Prelude.{
  ℕ, ◌+◌, ◌≤◌, ◌≡◌, refl, ap, Option, none, some, List, [], ◌∷◌, Bool, true, false, ltb, every,
  length, Bool-cases, inl, inr, ◌&&◌, arith,
}
use joust_backend.Prelude.Dict.{Dict, contains, add, contains-add, same-contains}
use joust_backend.Match.{MatchRow}
use joust_backend.Completion.Table.{times}
use joust_backend.Launch.{seats_of, place_seats, is_first_round_complete}

abbrev one_if : Bool → ℕ
one_if true = 1
one_if false = 0

abbrev placed_in : ℕ → Option (List ℕ) → ℕ
placed_in p none = 0
placed_in p (some placed) = one_if (contains p placed)

-- The set of those placed has everybody of before and everybody with a seat, and nobody has two.
place_seats-times :
    (os : List (Option ℕ)) (seen placed : List ℕ) (p : ℕ)
    → place_seats os seen ≡ some placed
    → one_if (contains p placed) ≡ one_if (contains p seen) + times p os
unfolding place_seats times
place_seats-times [] seen placed p e =
    let same : one_if (contains p seen) ≡ one_if (contains p placed) = ap (λ o. placed_in p o) e in
    ground arith
place_seats-times (none ∷ os) seen placed p e = ground (arith, place_seats-times os seen placed p e)
place_seats-times (some id ∷ os) seen placed p e = ground (
  arith,
  place_seats-times os (add id seen) placed p,
  contains-add id p seen,
  same-contains id p seen,
)

-- Where nobody has two seats the loop comes to its end.
times-place_seats :
    (os : List (Option ℕ)) (seen : List ℕ)
    → ((p : ℕ) → one_if (contains p seen) + times p os ≤ 1)
    → (placed : List ℕ) × (place_seats os seen ≡ some placed)
unfolding place_seats times
times-place_seats [] seen h = (seen, refl)
times-place_seats (none ∷ os) seen h = times-place_seats os seen (λ p. ground (arith, h p))
times-place_seats (some id ∷ os) seen h = elim (Bool-cases (contains id seen)) [
  | inl twice ↦ ground (arith, h id)
  | inr new ↦ rw new (
      times-place_seats os (add id seen)
        (λ p. ground (arith, h p, contains-add id p seen, same-contains id p seen)))
]

every_contained :
    (player_ids placed : List ℕ)
    → every (λ id. contains id placed) player_ids ≡ true
    → (p : ℕ) → contains p player_ids ≡ true
    → contains p placed ≡ true
unfolding contains
every_contained [] placed h p there = ground arith
every_contained (id ∷ ids) placed h p there =
    ground (arith, every_contained ids placed (ground arith) p, same-contains id p placed)

contained_every :
    (player_ids placed : List ℕ)
    → ((p : ℕ) → contains p player_ids ≡ true → contains p placed ≡ true)
    → every (λ id. contains id placed) player_ids ≡ true
unfolding contains
contained_every [] placed h = refl
contained_every (id ∷ ids) placed h =
    ground (arith, h id (ground arith), contained_every ids placed (λ p there. h p (ground arith)))

-- A first round that passes has every participant in exactly one seat, and nobody in two.
pub is_first_round_complete_once :
    (rows : Dict MatchRow) (player_ids : List ℕ) (p : ℕ)
    → is_first_round_complete rows player_ids ≡ true
    → (times p (seats_of rows) ≤ 1) × (contains p player_ids ≡ true → times p (seats_of rows) ≡ 1)
unfolding is_first_round_complete contains
is_first_round_complete_once rows player_ids p e = go (place_seats (seats_of rows) []) refl e
  where
    go :
        (o : Option (List ℕ))
        → place_seats (seats_of rows) [] ≡ o
        → (ltb 0 (length rows)
            && (elim o [ none ↦ false | some seen ↦ every (λ id. contains id seen) player_ids ]))
          ≡ true
        → (times p (seats_of rows) ≤ 1)
          × (contains p player_ids ≡ true → times p (seats_of rows) ≡ 1)
    go none found passed = ground arith
    go (some placed) found passed =
        let once = place_seats-times (seats_of rows) [] placed p found in
        (
          ground (arith, once),
          λ there. ground (arith, once, every_contained player_ids placed (ground arith) p there),
        )

-- A round of at least one match passes if nobody has two seats and every participant has one.
pub once-is_first_round_complete :
    (rows : Dict MatchRow) (player_ids : List ℕ)
    → ltb 0 (length rows) ≡ true
    → ((p : ℕ) → times p (seats_of rows) ≤ 1)
    → ((p : ℕ) → contains p player_ids ≡ true → times p (seats_of rows) ≡ 1)
    → is_first_round_complete rows player_ids ≡ true
unfolding is_first_round_complete contains
once-is_first_round_complete rows player_ids some_match once there =
    let looped = times-place_seats (seats_of rows) [] (λ p. ground (arith, once p)) in
    rw looped.1 (
      ground (
        arith,
        contained_every player_ids looped.0 (λ p present.
            ground
              (arith, place_seats-times (seats_of rows) [] looped.0 p looped.1, there p present)),
      ))
