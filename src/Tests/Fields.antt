-- ===== src/Tests/Fields.antt =====
-- The seeding and pairing theorems on small fields: the order of eight seeds of
-- src/Formats/bracket-seeding.helper.ts, a bracket of five players, a Swiss round of five.
use joust_backend.Prelude.{
  ℕ, ◌%◌, ◌≡◌, ◌↔◌, ◌⊎◌, refl, none, some, List, [], ◌∷◌, ◌++◌, map, true, false, length, All, Perm,
  arith,
}
use joust_backend.Prelude.Dict.{contains}
use joust_backend.Prelude.Int.{ℤ, pos}
use joust_backend.Seeding.{
  standard_seed_order, seed_bracket_slots, next_power_of_two, entry_of, generate_bracket,
}
use joust_backend.Seeding.Slots.{Pairs, SeatsPair, seats_and_byes}
use joust_backend.Seeding.Seats.{seated, seed_bracket_slots-perm}
use joust_backend.Seeding.Byes.{IsSound, seeded_bracket-IsSound}
use joust_backend.Swiss.{
  HistoryRow, build_swiss_match_history, had_no_bye, bye_player, next_swiss_round,
}
use joust_backend.Swiss.Matching.{players_of}
use joust_backend.Swiss.Round.{bye_list, active_ids, next_swiss_round-perm, bye_player_fair}

abbrev five : List ℕ
five = 11 ∷ 12 ∷ 13 ∷ 14 ∷ 15 ∷ []

seed_order_of_eight : standard_seed_order 8 ≡ 1 ∷ 8 ∷ 4 ∷ 5 ∷ 2 ∷ 7 ∷ 3 ∷ 6 ∷ []
unfolding standard_seed_order
seed_order_of_eight = refl

abbrev slots : ℕ
slots = next_power_of_two (length five)

seats_and_byes_example : Pairs (SeatsPair five slots) (standard_seed_order slots)
seats_and_byes_example = seats_and_byes five (omega arith)

seed_bracket_slots-perm_example : Perm (seated (seed_bracket_slots five slots)) five
seed_bracket_slots-perm_example = seed_bracket_slots-perm five (omega arith)

seeded_bracket-IsSound_example :
    IsSound (generate_bracket (map entry_of (seed_bracket_slots five slots)))
seeded_bracket-IsSound_example = seeded_bracket-IsSound five (omega arith)

abbrev standings : List (ℕ × ℤ)
standings = (11, pos 6) ∷ (12, pos 6) ∷ (13, pos 3) ∷ (14, pos 3) ∷ (15, pos 0) ∷ []

abbrev past_rows : List HistoryRow
past_rows =
    record { player1_id = some 11; player2_id = some 12; is_bye = false }
    ∷ record { player1_id = some 15; player2_id = none; is_bye = true }
    ∷ []

next_swiss_round-perm_example :
    let plan = next_swiss_round standings [] (build_swiss_match_history past_rows) in
    Perm (players_of plan.pairings ++ bye_list plan.bye) (active_ids standings [])
unfolding contains
next_swiss_round-perm_example =
    next_swiss_round-perm standings [] (build_swiss_match_history past_rows)
      (refl, (refl, (refl, (refl, (refl, tt)))))

bye_player_fair_example :
    ((bye_player ((15, 1) ∷ []) five ≡ none) ↔ (length five % 2 ≡ 0))
    × ((p : ℕ)
        → bye_player ((15, 1) ∷ []) five ≡ some p
        → (contains p five ≡ true)
          × ((had_no_bye ((15, 1) ∷ []) p ≡ true)
              ⊎ All (λ c. had_no_bye ((15, 1) ∷ []) c ≡ false) five))
bye_player_fair_example = bye_player_fair ((15, 1) ∷ []) five
