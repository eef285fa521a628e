-- ===== src/Tests/Results.antt =====
-- The theorems on results and statistics for a best-of-three between players 7 and 8 in a Swiss
-- tournament that player 9 runs.
use joust_backend.Prelude.{
  ℕ, ◌≡◌, refl, Option, none, some, or_else, List, [], ◌∷◌, [], ◌∷◌, true, false, ◌==◌,
  if◌then◌else◌, arith,
}
use joust_backend.Prelude.Dict.{lookup}
use joust_backend.Prelude.Int.{pos}
use joust_backend.Formats.{single_elimination, swiss, win}
use joust_backend.Stats.{
  ratio, rate_of, StatsRow, LifetimeRow, StatsDb, grant, revoke, PointsConfig, MatchResult,
  apply_match_stats, credit_walkover_win,
}
use joust_backend.Stats.Reversal.{apply_match_stats_reversal}
use joust_backend.Match.Reset.{taken_back}
use joust_backend.Leaderboard.Records.{zero_tally, PhaseConfig, compute_tournament_records}
use joust_backend.Leaderboard.Records.Agreement.{
  tally_of_row, credit_matches, credit_matches-compute_tournament_records,
}
use joust_backend.Match.{
  MatchStatus, MatchRow, World, put_match, completed_match_data, ScoreRule, StartRule, MatchConfig,
  wins_needed, User, Tournament, TournamentStatus, ok, resolve_score_actor, is_participant_of_match,
  check_tournament_access, first_refusal,
}
use joust_backend.Match.Service.{
  Handler, report_guards, game_won, is_decided, report_game_result, verify_result,
}
use joust_backend.Match.Lifecycle.{reject_reported_result, reopen_deciding}
use joust_backend.Match.Soundness.{Returns}
use joust_backend.Match.Requests.{Request, report_game, reject}
use joust_backend.Match.Authority.{Undecided, report_game_result-Undecided}
use joust_backend.Match.Deferral.{
  then_do, verify_result-report_game_result, reject_reported_result-report_game_result,
}

abbrev stats_row : StatsRow
stats_row = record {
  games_played = 3;
  wins = 2;
  losses = 1;
  draws = 0;
  points = pos 6;
  win_rate = ratio 2 3;
}

abbrev lifetime_row : LifetimeRow
lifetime_row = record { games_played = 9; wins = 4; losses = 5; draws = 0; win_rate = ratio 4 9 }

abbrev pub stats_db : StatsDb
stats_db = record {
  has_game = true;
  participant = λ j. some false;
  stats = λ j. some stats_row;
  global_stats = λ j. some lifetime_row;
  game_stats = λ j. some lifetime_row;
}

abbrev pub three_one_zero : PointsConfig
three_one_zero = record { for_win = pos 3; for_draw = pos 1; for_loss = pos 0 }

abbrev won_by_seven : MatchResult
won_by_seven = record {
  player1_id = some 7;
  player2_id = some 8;
  winner_id = some 7;
  is_bye = false;
  phase = 1;
}

abbrev granted : StatsDb
granted = apply_match_stats swiss three_one_zero win grant false won_by_seven stats_db

abbrev reversed : StatsDb
reversed = apply_match_stats swiss three_one_zero win revoke false won_by_seven granted

apply_match_stats_reversal_example :
    (reversed.stats 8 ≡ some stats_row)
    × (reversed.global_stats 8 ≡ some lifetime_row)
    × (reversed.game_stats 8 ≡ some lifetime_row)
unfolding rate_of
apply_match_stats_reversal_example =
    apply_match_stats_reversal swiss three_one_zero win false won_by_seven stats_db 8 stats_row
      lifetime_row lifetime_row (ground arith) refl refl refl refl refl refl

abbrev fresh_db : StatsDb
fresh_db = record stats_db { stats = λ j. none }

abbrev phase_rules : ℕ → PhaseConfig
phase_rules phase = record { points = three_one_zero; bye_result = win }

credit_matches-compute_tournament_records_example :
    tally_of_row ((credit_matches swiss phase_rules (won_by_seven ∷ []) fresh_db).stats 7)
    ≡ or_else
        (lookup 7 (compute_tournament_records swiss phase_rules (won_by_seven ∷ [])))
        zero_tally
credit_matches-compute_tournament_records_example =
    credit_matches-compute_tournament_records swiss phase_rules (won_by_seven ∷ []) 7 false fresh_db
      (ground arith) (ground arith, tt) refl refl

abbrev pub best_of_three : MatchConfig
best_of_three = record {
  best_of = pos 3;
  points_threshold = pos 0;
  allow_draw = false;
  score_rule = ScoreRule.self_report_allowed;
  start_rule = StartRule.staff_and_participants;
  points = three_one_zero;
  bye_result = win;
}

abbrev pub tournament : Tournament
tournament = record {
  system = swiss;
  config_of = λ phase. best_of_three;
  created_by_id = some 9;
  organizers = λ u. none;
  is_forfeited = λ u. false;
}

-- One game to nil.
abbrev pub one_nil : MatchRow
one_nil = record {
  round_number = 1;
  phase = 1;
  match_index = 0;
  player1_id = some 7;
  player2_id = some 8;
  winner_id = none;
  reported_winner_id = none;
  player1_score = 1;
  player2_score = 0;
  status = MatchStatus.ongoing;
  is_bye = false;
  started_at = some 100;
  completed_at = none;
  next_match_id = none;
  loser_next_match_id = none;
}

abbrev pub world : World
world = record {
  matches = (1, one_nil) ∷ [];
  game_logs = λ j. [];
  round_numbers = 1 ∷ [];
  stats = stats_db;
  status = TournamentStatus.ongoing;
  completed_at = none;
  winner_id = none;
}

-- A bracket in which nothing follows.
abbrev nothing_follows : Handler
nothing_follows id w = ok w

abbrev seven : Option User
seven = some (record { user_id = 7; is_admin = false })

abbrev pub nine : Option User
nine = some (record { user_id = 9; is_admin = false })

verify_result-report_game_result_example :
    then_do
      (report_game_result nothing_follows tournament 200 1 7 seven world)
      (verify_result nothing_follows tournament 300 1)
    ≡ report_game_result nothing_follows tournament 300 1 7 nine world
unfolding lookup first_refusal report_guards resolve_score_actor is_participant_of_match
    check_tournament_access wins_needed is_decided game_won
verify_result-report_game_result_example =
    verify_result-report_game_result nothing_follows tournament 200 300 1 7 seven nine one_nil world
      refl refl refl refl refl (ground arith, omega arith, omega arith) refl

reject_reported_result-report_game_result_example :
    then_do
      (report_game_result nothing_follows tournament 200 1 7 seven world)
      (reject_reported_result 1)
    ≡ ok (record (put_match 1 one_nil world) {
      game_logs = λ j. if j == 1 then reopen_deciding 7 (world.game_logs j) else world.game_logs j;
    })
unfolding lookup first_refusal report_guards resolve_score_actor is_participant_of_match wins_needed
    is_decided game_won
reject_reported_result-report_game_result_example =
    reject_reported_result-report_game_result nothing_follows tournament 200 1 7 seven one_nil world
      refl refl refl refl (ground arith, omega arith, omega arith) refl

-- Player 8 leaves in a single elimination, and the organizer resets the match.
abbrev knockout : Tournament
knockout = record tournament { system = single_elimination }

abbrev walked_over : World
walked_over = record (put_match 1 (completed_match_data 500 (some 7) one_nil) world) {
  stats = credit_walkover_win 7 world.stats;
}

abbrev played_again : World
played_again = taken_back knockout 1 (completed_match_data 500 (some 7) one_nil) walked_over

-- Player 7 wins the second game, the organizer rejects it, player 8 wins it instead.
abbrev pub requests : List Request
requests = report_game 200 1 7 seven ∷ reject 1 ∷ report_game 300 1 8 nine ∷ []

report_game_result-Undecided_example :
    Returns (Undecided world) (report_game_result nothing_follows tournament 200 1 7 seven world)
unfolding lookup is_participant_of_match
report_game_result-Undecided_example =
    report_game_result-Undecided nothing_follows tournament 200 1 7 seven one_nil world refl refl
