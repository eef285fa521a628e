-- ===== src/Tests/Brackets.antt =====
-- Runs of the bracket code, the placings and the awards.
use joust_backend.Prelude.{
  ℕ, suc, ◌≡◌, ◌≤◌, refl, none, some, List, [], ◌∷◌, true, false, All, arith,
}
use joust_backend.Prelude.Dict.{lookup, contains, add, insert}
use joust_backend.Prelude.Int.{pos}
use joust_backend.Formats.{double_elimination, hybrid}
use joust_backend.Prelude.Dict.{lookup, insert}
use joust_backend.Leaderboard.Opponents.{
  Tiebreaks, compute_opponent_tiebreakers, graph_of, opponents_of, add_matches, add_byes,
  add_seated, add_pair, add_opponent,
}
use joust_backend.Leaderboard.Opponents.Bounds.{IsBetween, compute_opponent_tiebreakers-IsBetween}
use joust_backend.Match.{MatchStatus, TournamentStatus, MatchRow, World, Tournament}
use joust_backend.Match.Soundness.{is_sound_row, Returns, Sound}
use joust_backend.Match.Requests.{serve}
use joust_backend.Completion.{Setting}
use joust_backend.Completion.Step.{handle_match_completion}
use joust_backend.Completion.Handler.{serve-handle_match_completion}
use joust_backend.Completion.Fuel.{running, budget, Yields}
use joust_backend.Completion.Fuel.Enough.{handle_match_completion_terminates}
use joust_backend.Placement.{
  compute_structural_placements, Placed, counts, note_player, place_field, number_ranks, sort_by,
  place, same_run, beyond, run_of, last_loss_round, loser_of, everyone_in, champion_of, decider,
  resolve_final_placements,
}
use joust_backend.Placement.Ranking.{further}
use joust_backend.Placement.Structural.{bracket_of, progress, compute_structural_placements-further}
use joust_backend.Placement.Cut.{IsParted, resolve_final_placements-IsParted}
use joust_backend.Closing.{new_career, Closing, Hall, registered, final_winner, complete}
use joust_backend.Closing.Careers.{career}
use joust_backend.Closing.Awards.{rewarded, complete-rewarded}
use joust_backend.Tests.Results.{tournament, world, one_nil, requests}

abbrev pub bracket : Tournament
bracket = record tournament { system = double_elimination }

abbrev pub setting : Setting
setting = record {
  tournament = bracket;
  swiss_rounds = none;
  phase2_cut_size = none;
  root_cut_size = none;
  grand_final_reset = true;
  participants = 4;
  leaderboard = λ w. [];
  best_placed = λ w. none;
  now = 400;
}

serve-handle_match_completion_example :
    Returns (Sound bracket) (serve (handle_match_completion 5 setting) bracket requests world)
unfolding lookup is_sound_row
serve-handle_match_completion_example =
    serve-handle_match_completion setting 5 requests world (λ id m e. ground arith)

-- A semifinal that player 7 won, the other one, and the final.
abbrev semifinal : ℕ → ℕ → ℕ → MatchRow
semifinal p1 p2 winner = record one_nil {
  phase = 2;
  player1_id = some p1;
  player2_id = some p2;
  winner_id = some winner;
  status = MatchStatus.completed;
  completed_at = some 300;
  next_match_id = some 3;
}

abbrev final : MatchRow
final = record one_nil {
  round_number = 2;
  phase = 2;
  player1_id = none;
  player2_id = none;
  status = MatchStatus.pending;
}

abbrev pub half_played : World
half_played = record world {
  matches = (1, semifinal 7 8 7) ∷ (2, semifinal 5 6 5) ∷ (3, final) ∷ [];
}

handle_match_completion_terminates_example :
    Yields (λ v. budget v ≤ budget half_played) (handle_match_completion 3 setting 1 half_played)
unfolding budget running
handle_match_completion_terminates_example =
    handle_match_completion_terminates setting 3 1 half_played refl (omega arith)

abbrev played : List MatchRow
played =
    semifinal 7 8 7
    ∷ semifinal 5 6 5
    ∷ record (semifinal 7 5 5) { round_number = 2; next_match_id = none }
    ∷ []

compute_structural_placements-further_example :
    lookup 8 (compute_structural_placements none played)
    ≡ some (
        suc (
          further
            (progress (bracket_of none played))
            (progress (bracket_of none played) 8)
            (everyone_in (bracket_of none played))))
unfolding counts
compute_structural_placements-further_example =
    compute_structural_placements-further none played 8 refl

abbrev points_order : List Placed
points_order =
    record { user_id = 9; rank = 1 }
    ∷ record { user_id = 7; rank = 2 }
    ∷ record { user_id = 5; rank = 3 }
    ∷ []

resolve_final_placements-IsParted_example :
    All
      (IsParted (compute_structural_placements (some 2) played))
      (resolve_final_placements hybrid played points_order)
unfolding compute_structural_placements counts everyone_in note_player place_field number_ranks
    sort_by place add contains same_run beyond run_of champion_of decider lookup last_loss_round
    loser_of insert
resolve_final_placements-IsParted_example =
    resolve_final_placements-IsParted played points_order refl

abbrev pub closing : Closing
closing = record {
  entrants =
      record { user_id = 7; is_guest = false } ∷ record { user_id = 8; is_guest = true } ∷ [];
  has_game = true;
  is_hybrid = false;
  points = record {
    champion = pos 10;
    second = pos 6;
    third = pos 4;
    top_cut = pos 2;
    participation = pos 1;
  };
  placings = record { user_id = 7; rank = 1 } ∷ record { user_id = 8; rank = 2 } ∷ [];
  now = 500;
}

abbrev pub hall : Hall
hall = record {
  status = TournamentStatus.ongoing;
  completed_at = none;
  winner_id = none;
  global = (7, new_career 3 1 (pos 12)) ∷ [];
  by_game = [];
  placement = (7, none) ∷ (8, none) ∷ [];
}

complete-rewarded_example :
    (career (complete closing hall).global 7 ≡ rewarded closing (some 7) 7 (career hall.global 7))
    × ((career (complete closing hall).by_game 7
          ≡ rewarded closing (some 7) 7 (career hall.by_game 7))
        × (complete closing (complete closing hall) ≡ complete closing hall))
unfolding registered final_winner contains
complete-rewarded_example = complete-rewarded closing closing hall 7 (refl, tt) refl

compute_opponent_tiebreakers-IsBetween_example :
    (t : Tiebreaks) × ((compute_opponent_tiebreakers played 7 ≡ some t)
      × (IsBetween t.omw × (IsBetween t.oomw × IsBetween t.ogw)))
unfolding graph_of opponents_of lookup insert add_matches add_byes add_seated add_pair add_opponent
compute_opponent_tiebreakers-IsBetween_example =
    compute_opponent_tiebreakers-IsBetween played 7
      ((λ c e. ground arith), ((λ c e. ground arith), ((λ c e. ground arith), tt))) (omega arith)
