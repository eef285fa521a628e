-- ===== src/Tests/Ranks.antt =====
-- The theorems of the standings with whole numbers for the entries' numbers.
use joust_backend.Prelude.{
  ℕ, ◌+◌, ◌*◌, ◌/◌, ◌<◌, refl, some, [], ◌∷◌, not, false, ltb, ◌==◌, map, Perm, arith,
}
use joust_backend.Prelude.Dict.{lookup, insert}
use joust_backend.Prelude.Int.{ℤ, pos, pos_part, neg_part, ◌-ℤ◌, ◌+ℤ◌, abs_diff}
use joust_backend.Formats.{System, ByeResult, points_apply}
use joust_backend.Stats.{MatchResult}
use joust_backend.Placement.{place, sort_by}
use joust_backend.Leaderboard.Records.{
  PhaseConfig, add_partial, credit, record_bye, record_played, record_match, record_matches,
  compute_tournament_records,
}
use joust_backend.Leaderboard.Opponents.{
  compute_opponent_tiebreakers, graph_of, add_matches, add_byes,
}
use joust_backend.Leaderboard.Standings.{
  Numbers, tiebreak_getter, lower_is_better, tiebreak_order, sort_diff, compare_tiebreaks,
  compare_entries, tiebreak_changed, rank_changed, ranks_after, dense_ranks,
}
use joust_backend.Leaderboard.Board.{
  Scale, BoardRow, is_before, goes_first, sort_entries, is_next_rank, with_ranks, board_of,
  recorded_tally, percentage, match_rate, entry_for, get_leaderboard,
}
use joust_backend.Leaderboard.Board.Sorting.{IsOrdered}
use joust_backend.Leaderboard.Board.Tournament.{get_leaderboard-perm, get_leaderboard-BetterRank}

abbrev integers : Numbers
integers = record {
  Number = ℤ;
  nought = pos 0;
  is_same = λ a b. abs_diff a b == 0;
  minus = λ a b. a -ℤ b;
  opposite = λ a. pos 0 -ℤ a;
  is_far = λ a. not (pos_part a + neg_part a == 0);
}

abbrev whole : Scale integers
whole = record {
  is_negative = λ a. ltb 0 (neg_part a);
  of_points = λ a. a;
  of_fraction = λ f. pos (f.numerator * 100 / f.denominator);
}

whole_ordered : IsOrdered integers whole
unfolding ◌-ℤ◌ abs_diff
whole_ordered = record {
  same_symmetric = λ a b. ground arith;
  same_transitive = λ a b c h k. ground arith;
  same_level = λ a b h. ground arith;
  less_asymmetric = λ a b h. ground arith;
  level_transitive = λ a b c h k. ground arith;
}

-- Player 7 beats player 8.
abbrev result : MatchResult
result = record {
  phase = 1;
  is_bye = false;
  player1_id = some 7;
  player2_id = some 8;
  winner_id = some 7;
}

abbrev league : ℕ → PhaseConfig
league phase = record {
  points = record { for_win = pos 3; for_draw = pos 1; for_loss = pos 0 };
  bye_result = ByeResult.win;
}

abbrev second : BoardRow integers
second = record {
  rank = 2;
  standing = record {
    user_id = 8;
    numbers = record {
      points = pos 0;
      omw = some (pos 0);
      oomw = some (pos 0);
      gw = some (pos 0);
      ogw = some (pos 0);
      match_win_pct = pos 0;
      wins = pos 0;
      losses = pos 1;
    };
  };
}

abbrev first : BoardRow integers
first = record {
  rank = 1;
  standing = record {
    user_id = 7;
    numbers = record {
      points = pos 3;
      omw = some (pos 0);
      oomw = some (pos 0);
      gw = some (pos 0);
      ogw = some (pos 0);
      match_win_pct = pos 100;
      wins = pos 1;
      losses = pos 0;
    };
  };
}

get_leaderboard-BetterRank_example : 1 < 2
unfolding get_leaderboard board_of sort_entries sort_by place goes_first is_before compare_entries
    compare_tiebreaks tiebreak_getter tiebreak_order lower_is_better sort_diff rank_changed
    tiebreak_changed is_next_rank with_ranks dense_ranks ranks_after entry_for recorded_tally
    percentage match_rate compute_tournament_records record_matches record_match record_played
    record_bye credit add_partial lookup insert compute_opponent_tiebreakers graph_of add_matches
    add_byes points_apply ◌-ℤ◌ ◌+ℤ◌ abs_diff
get_leaderboard-BetterRank_example =
    get_leaderboard-BetterRank integers whole [] whole_ordered (λ a b. ground arith) System.swiss
      league (8 ∷ 7 ∷ []) [] (result ∷ []) 0 1 first second refl refl refl

-- All three are tied.
get_leaderboard-perm_example :
    Perm
      (map
        (λ (r : BoardRow integers). r.standing.user_id)
        (get_leaderboard integers whole [] System.single_elimination league (8 ∷ 7 ∷ 9 ∷ []) [] []))
      (8 ∷ 7 ∷ 9 ∷ [])
get_leaderboard-perm_example =
    get_leaderboard-perm integers whole [] System.single_elimination league (8 ∷ 7 ∷ 9 ∷ []) [] []
