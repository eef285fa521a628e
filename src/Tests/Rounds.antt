-- ===== src/Tests/Rounds.antt =====
-- Runs of the start of a tournament and of the rounds that are drawn up.
use joust_backend.Prelude.{some, ◌/◌, ◌≡◌, ◌≤◌, refl, [], ◌∷◌, true, false, length}
use joust_backend.Prelude.Dict.{contains, add}
use joust_backend.Match.{World, TournamentStatus, User, ok, refused}
use joust_backend.Match.Soundness.{Returns}
use joust_backend.Match.Requests.{Request, start, submit, serve_all}
use joust_backend.Completion.{Setting, create_round, matches_of_round}
use joust_backend.Completion.Step.{handle_match_completion}
use joust_backend.Completion.Start.{initialize_tournament_format, table_pairs, full_table}
use joust_backend.Completion.Table.{times, times_paired, turned, table_pairs_once}
use joust_backend.Launch.{Field, prepare, seats_of, place_seats, is_first_round_complete}
use joust_backend.Launch.FirstRound.{is_first_round_complete_once}
use joust_backend.Launch.Status.{prepare_once}
use joust_backend.Prelude.{List}
use joust_backend.Formats.{System}
use joust_backend.Prelude.{ℕ, Option}
use joust_backend.Seeding.{
  seed_bracket_slots, next_power_of_two, power_loop, standard_seed_order, seed_loop, expand,
  slot_of, is_empty, bracket_loop, generate_bracket, pair_up, survivor, entry_of,
}
use joust_backend.Completion.Build.{
  init_single_elimination, build_rounds, seat_of, is_bye_pairing, create_bracket_round,
  link_matches, link_one,
}
use joust_backend.Completion.{create_match, new_match, fresh_id}
use joust_backend.Prelude.Dict.{lookup, insert}
use joust_backend.Match.{first_refusal, User}
use joust_backend.Match.Service.{guarded}
use joust_backend.Launch.{is_stranger}
use joust_backend.Launch.Preview.{matchups, is_before_start, preview_bracket, seats_shown}
use joust_backend.Launch.Drawn.{both_seats}
use joust_backend.Launch.Drawn.Brackets.{preview_bracket-initialize_tournament_format}
use joust_backend.Tests.Results.{tournament, world, one_nil, nine}
use joust_backend.Tests.Brackets.{bracket, setting}

abbrev empty_world : World
empty_world = record world { matches = []; round_numbers = []; status = TournamentStatus.opened }

abbrev league : Setting
league = record setting { tournament = tournament }

abbrev drawn_world : World
drawn_world =
    elim (initialize_tournament_format (handle_match_completion 5 league) league (λ i. 0)
      System.swiss (7 ∷ 8 ∷ 9 ∷ []) false empty_world) [ refused why ↦ empty_world | ok v ↦ v ]

-- The organizer starts the match that is no bye and gives it to its first player, and asks for a match
-- that there is not.
abbrev evening : List Request
evening = start 200 0 nine ∷ submit 300 0 (some 8) ∷ submit 300 70 (some 9) ∷ []

abbrev after_evening : World
after_evening = serve_all (handle_match_completion 5 league) tournament evening drawn_world

table_pairs_once_example :
    times_paired 9 (
      table_pairs
        (turned 2 (full_table (7 ∷ 8 ∷ 9 ∷ [])))
        (length (turned 2 (full_table (7 ∷ 8 ∷ 9 ∷ []))) / 2)
        0)
    ≡ 1
unfolding contains
table_pairs_once_example = table_pairs_once 9 2 (7 ∷ 8 ∷ 9 ∷ []) (refl, (refl, (refl, tt)))

is_first_round_complete_once_example :
    (times 8 (seats_of ((1, one_nil) ∷ [])) ≤ 1)
    × (contains 8 (7 ∷ 8 ∷ []) ≡ true → times 8 (seats_of ((1, one_nil) ∷ [])) ≡ 1)
unfolding is_first_round_complete seats_of place_seats contains add
is_first_round_complete_once_example =
    is_first_round_complete_once ((1, one_nil) ∷ []) (7 ∷ 8 ∷ []) 8 refl

abbrev organizer : User
organizer = record { user_id = 9; is_admin = false }

abbrev field : Field
field = record {
  player_ids = 7 ∷ 8 ∷ 9 ∷ [];
  has_format = true;
  preset_system = bracket.system;
  builds_ready = true;
  is_manual = true;
  draw_field = λ i. 0;
  draw_round = λ i. 0;
}

prepare_once_example :
    Returns
      (λ v. times 9 (seats_of (matches_of_round 1 v.matches)) ≡ 1)
      (prepare (handle_match_completion 5 setting) setting field (7 ∷ 8 ∷ 9 ∷ []) empty_world)
unfolding contains
prepare_once_example =
    prepare_once (handle_match_completion 5 setting) setting field (7 ∷ 8 ∷ 9 ∷ []) empty_world 9
      refl

abbrev knockout_world : World
knockout_world =
    elim (initialize_tournament_format (handle_match_completion 5 setting) setting (λ i. 0)
      System.single_elimination (7 ∷ 8 ∷ 9 ∷ []) false empty_world) [
        | refused why ↦ empty_world
        | ok v ↦ v
      ]

abbrev slots : List (Option ℕ)
slots = seed_bracket_slots (7 ∷ 8 ∷ 9 ∷ []) (next_power_of_two 3)

preview_bracket-initialize_tournament_format_example :
    seats_of (matches_of_round 1 knockout_world.matches)
    ≡ both_seats (seats_shown (matchups 1 slots))
unfolding initialize_tournament_format preview_bracket guarded first_refusal is_before_start
    is_stranger init_single_elimination build_rounds generate_bracket bracket_loop
    seed_bracket_slots next_power_of_two power_loop standard_seed_order seed_loop expand slot_of
    entry_of pair_up survivor seat_of is_bye_pairing is_empty create_bracket_round create_round
    create_match new_match fresh_id link_matches link_one lookup insert
preview_bracket-initialize_tournament_format_example =
    preview_bracket-initialize_tournament_format bracket organizer TournamentStatus.opened
      (7 ∷ 8 ∷ 9 ∷ []) (matchups 1 slots) (handle_match_completion 5 setting) setting (λ i. 0)
      System.single_elimination empty_world knockout_world refl refl refl refl
