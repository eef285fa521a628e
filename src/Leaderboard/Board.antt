-- ===== src/Leaderboard/Board.antt =====
-- `sortEntries`, `getLeaderboard`, `getGlobalLeaderboard` and `getUserStats` of
-- src/leaderboard/leaderboard.service.ts. The names and pictures of the users are left out.
pub mod Sorting
pub mod Ranks
pub mod Tournament
use joust_backend.Prelude.{
  ℕ, Option, none, some, or_else, List, [], ◌∷◌, Bool, true, false, not, map, select, find, ◌==◌,
  ltb, if◌then◌else◌,
}
use joust_backend.Prelude.Dict.{Dict, lookup}
use joust_backend.Prelude.Int.{ℤ, pos}
use joust_backend.Formats.{System}
use joust_backend.Stats.{MatchResult}
use joust_backend.Placement.{sort_by}
use joust_backend.Match.{MatchRow}
use joust_backend.Leaderboard.Records.{Tally, zero_tally, PhaseConfig, compute_tournament_records}
use joust_backend.Leaderboard.Opponents.{Fraction, Tiebreaks, compute_opponent_tiebreakers}
use joust_backend.Leaderboard.Standings.{
  Numbers, SortableEntry, Tiebreaker, compare_entries, rank_changed, dense_ranks,
}

-- What the boards use of the floating-point numbers beside the standings: the sign of a comparison,
-- and the numbers of a whole number and of a fraction.
pub record Scale (n : Numbers) : Type 0 where
  pub is_negative : n.Number → Bool
  pub of_points : ℤ → n.Number
  pub of_fraction : Fraction → n.Number

-- A user with the numbers of their entry.
pub record Standing (n : Numbers) : Type 0 where
  pub user_id : ℕ
  pub numbers : SortableEntry n

pub record BoardRow (n : Numbers) : Type 0 where
  pub rank : ℕ
  pub standing : Standing n

module _ (n : Numbers) (scale : Scale n) where
  -- The comparison is negative; 0 is not.
  unfoldable pub is_before : Option n.Number → Bool
  is_before none = false
  is_before (some d) = scale.is_negative d

  unfoldable pub goes_first : List Tiebreaker → Standing n → Standing n → Bool
  goes_first order a b = is_before (compare_entries n order a.numbers b.numbers)

  -- `sortEntries`
  unfoldable pub sort_entries : List Tiebreaker → List (Standing n) → List (Standing n)
  sort_entries order entries = sort_by (goes_first order) entries

  unfoldable pub is_next_rank : List Tiebreaker → Standing n → Standing n → Bool
  is_next_rank order prev curr = rank_changed n order prev.numbers curr.numbers

  -- `{ rank: currentRank, ...sorted[i] }`
  unfoldable pub with_ranks : List ℕ → List (Standing n) → List (BoardRow n)
  with_ranks [] entries = []
  with_ranks (rank ∷ ranks) [] = []
  with_ranks (rank ∷ ranks) (e ∷ entries) =
      record { rank = rank; standing = e } ∷ with_ranks ranks entries

  -- The sorted entries with their ranks, as both boards make them.
  unfoldable pub board_of : List Tiebreaker → List (Standing n) → List (BoardRow n)
  board_of order entries =
      let sorted = sort_entries order entries in
      with_ranks (dense_ranks (is_next_rank order) sorted) sorted

  -- `rec?.wins ?? 0` and the like
  unfoldable pub recorded_tally : Dict Tally → ℕ → Tally
  recorded_tally records user = or_else (lookup user records) zero_tally

  -- `opponentStats.get(p.userId)?.omw ?? 0` and the like
  unfoldable pub percentage : (Tiebreaks → Fraction) → Option Tiebreaks → n.Number
  percentage column none = n.nought
  percentage column (some t) = scale.of_fraction (column t)

  -- `gamesPlayed > 0 ? wins / gamesPlayed : 0`
  unfoldable pub match_rate : Tally → n.Number
  match_rate t =
      if ltb 0 t.games_played
      then scale.of_fraction (record { numerator = t.wins; denominator = t.games_played })
      else n.nought

  -- An entry of the board of a tournament.
  unfoldable pub entry_for : Dict Tally → (ℕ → Option Tiebreaks) → ℕ → Standing n
  entry_for records opponent_stats user =
      let t = recorded_tally records user in
      let o = opponent_stats user in
      record {
        user_id = user;
        numbers = record {
          points = scale.of_points t.points;
          omw = some (percentage (λ (x : Tiebreaks). x.omw) o);
          oomw = some (percentage (λ (x : Tiebreaks). x.oomw) o);
          gw = some (percentage (λ (x : Tiebreaks). x.gw) o);
          ogw = some (percentage (λ (x : Tiebreaks). x.ogw) o);
          match_win_pct = match_rate t;
          wins = scale.of_points (pos t.wins);
          losses = scale.of_points (pos t.losses);
        };
      }

  -- `getLeaderboard`: the participants, the matches for the opponents and the completed ones for the
  -- records.
  unfoldable pub get_leaderboard :
      List Tiebreaker
      → System
      → (ℕ → PhaseConfig)
      → List ℕ
      → List MatchRow
      → List MatchResult
      → List (BoardRow n)
  get_leaderboard order system config_of participants rows results =
      let records = compute_tournament_records system config_of results in
      board_of order (map (entry_for records (compute_opponent_tiebreakers rows)) participants)

  -- A row of `UserGlobalStats` or `UserGameStats`, with the rate that is stored.
  pub record StoredStats : Type 0 where
    pub user_id : ℕ
    pub is_guest : Bool
    pub global_points : ℤ
    pub wins : ℕ
    pub losses : ℕ
    pub win_rate : n.Number

  unfoldable pub stored_entry : StoredStats → Standing n
  stored_entry s = record {
    user_id = s.user_id;
    numbers = record {
      points = scale.of_points s.global_points;
      omw = none;
      oomw = none;
      gw = none;
      ogw = none;
      match_win_pct = s.win_rate;
      wins = scale.of_points (pos s.wins);
      losses = scale.of_points (pos s.losses);
    };
  }

  -- `getGlobalLeaderboard`, of one of the two tables.
  unfoldable pub get_global_leaderboard : List StoredStats → List (BoardRow n)
  get_global_leaderboard stats =
      board_of (Tiebreaker.match_win_pct ∷ [])
        (map stored_entry (select (λ (s : StoredStats). not s.is_guest) stats))

  -- `getUserStats`
  unfoldable pub get_user_stats : ℕ → List StoredStats → Option (BoardRow n)
  get_user_stats user stats =
      find (λ (r : BoardRow n). r.standing.user_id == user) (get_global_leaderboard stats)
