-- ===== src/Leaderboard/Records.antt =====
-- `computeTournamentRecords` of src/leaderboard/leaderboard.service.ts: the match record of every
-- player, derived from the completed matches.
pub mod Agreement
use joust_backend.Prelude.{
  ℕ, suc, ◌+◌, Option, none, some, or_else, List, [], ◌∷◌, Bool, true, false, ◌==◌, if◌then◌else◌,
}
use joust_backend.Prelude.Dict.{Dict, lookup, insert}
use joust_backend.Prelude.Int.{ℤ, pos, ◌+ℤ◌}
use joust_backend.Formats.{System, ByeResult, win, draw, uncounted, points_apply}
use joust_backend.Stats.{PointsConfig, MatchResult}

pub record Tally : Type 0 where
  pub games_played : ℕ
  pub wins : ℕ
  pub losses : ℕ
  pub draws : ℕ
  pub points : ℤ

abbrev pub zero_tally : Tally
zero_tally = record { games_played = 0; wins = 0; losses = 0; draws = 0; points = pos 0 }

-- What `resolveConfig(rawConfig, phase)` gives to the records.
pub record PhaseConfig : Type 0 where
  pub points : PointsConfig
  pub bye_result : ByeResult

-- The closure `add`.
unfoldable pub add_partial : ℕ → Tally → Dict Tally → Dict Tally
add_partial user p records =
    let cur = or_else (lookup user records) zero_tally in
    insert user
      (record {
        games_played = cur.games_played + p.games_played;
        wins = cur.wins + p.wins;
        losses = cur.losses + p.losses;
        draws = cur.draws + p.draws;
        points = cur.points +ℤ p.points;
      })
      records

pub data Outcome : Type 0 where
  won lost drawn : Outcome

-- The closure `credit`.
unfoldable pub credit : ℕ → Outcome → ℤ → Dict Tally → Dict Tally
unfolding add_partial
credit user won p =
    add_partial user (record { games_played = 1; wins = 1; losses = 0; draws = 0; points = p })
credit user lost p =
    add_partial user (record { games_played = 1; wins = 0; losses = 1; draws = 0; points = p })
credit user drawn p =
    add_partial user (record { games_played = 1; wins = 0; losses = 0; draws = 1; points = p })

-- `m.player1Id ?? ''`: the number 0 stands for the empty string, which is no player's id.
abbrev pub empty_id : ℕ
empty_id = 0

abbrev pub no_points : PointsConfig
no_points = record { for_win = pos 0; for_draw = pos 0; for_loss = pos 0 }

unfoldable pub record_bye : ByeResult → PointsConfig → Option ℕ → Dict Tally → Dict Tally
unfolding credit
record_bye uncounted p player1 records = records
record_bye draw p player1 records = credit (or_else player1 empty_id) drawn p.for_draw records
record_bye win p player1 records = credit (or_else player1 empty_id) won p.for_win records

unfoldable pub record_played :
    PointsConfig → Option ℕ → Option ℕ → Option ℕ → Dict Tally → Dict Tally
unfolding credit
record_played p none player2 winner records = records
record_played p (some p1) none winner records = records
record_played p (some p1) (some p2) none records =
    credit p2 drawn p.for_draw (credit p1 drawn p.for_draw records)
record_played p (some p1) (some p2) (some w) records =
    if w == p1
    then credit p2 lost p.for_loss (credit p1 won p.for_win records)
    else credit p2 won p.for_win (credit p1 lost p.for_loss records)

-- The body of the loop over the matches.
unfoldable pub record_match : System → PhaseConfig → MatchResult → Dict Tally → Dict Tally
unfolding record_bye record_played
record_match system config m records =
    let p = (if points_apply system m.phase then config.points else no_points) in
    if m.is_bye
    then record_bye config.bye_result p m.player1_id records
    else record_played p m.player1_id m.player2_id m.winner_id records

unfoldable pub record_matches :
    System → (ℕ → PhaseConfig) → List MatchResult → Dict Tally → Dict Tally
unfolding record_match
record_matches system config_of [] records = records
record_matches system config_of (m ∷ ms) records =
    record_matches system config_of ms (record_match system (config_of m.phase) m records)

unfoldable pub compute_tournament_records :
    System → (ℕ → PhaseConfig) → List MatchResult → Dict Tally
unfolding record_matches
compute_tournament_records system config_of ms = record_matches system config_of ms []
