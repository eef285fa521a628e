-- ===== src/Stats.antt =====
-- Crediting and reversing a completed match: `applyMatchStats` in
-- src/tournament/match/match-stats.helper.ts and `creditWalkoverWin` in
-- src/tournament/match/match.service.ts.
pub mod Cells
pub mod Reversal
pub mod Uncredited
use joust_backend.Prelude.{
  ℕ, zero, suc, ◌+◌, Option, none, some, or_else, is_some, List, [], ◌∷◌, Bool, true, false, not,
  ◌&&◌, ltb, ◌==◌, if◌then◌else◌,
}
use joust_backend.Prelude.Int.{ℤ, pos, negsuc, ◌+ℤ◌, floor_zero}
use joust_backend.Formats.{System, ByeResult, win, draw, uncounted, points_apply}

-- `wins / gamesPlayed`, left as a quotient.
pub data Rate : Type 0 where
  no_games : Rate
  ratio : ℕ → ℕ → Rate

-- `gamesPlayed > 0 ? wins / gamesPlayed : 0`
unfoldable pub rate_of : ℕ → ℕ → Rate
rate_of wins games = if ltb 0 games then ratio wins games else no_games

-- A row of TournamentParticipantStats. Point values are whole numbers here.
pub record StatsRow : Type 0 where
  pub games_played : ℕ
  pub wins : ℕ
  pub losses : ℕ
  pub draws : ℕ
  pub points : ℤ
  pub win_rate : Rate

-- A row of UserGlobalStats or of UserGameStats.
pub record LifetimeRow : Type 0 where
  pub games_played : ℕ
  pub wins : ℕ
  pub losses : ℕ
  pub draws : ℕ
  pub win_rate : Rate

-- A table by key, and `upsert`.
abbrev pub Table : Type 0 → Type 0
Table A = ℕ → Option A

abbrev pub put : {A : Type 0} → ℕ → A → Table A → Table A
put k v t = λ j. if k == j then some v else t j

-- The tables that crediting reads and writes, for one tournament: `participant` gives the entrants
-- with their `isGuest`, `has_game` says whether the tournament has a game name, and `game_stats`
-- has the per-game rows of that game.
pub record StatsDb : Type 0 where
  pub has_game : Bool
  pub participant : Table Bool
  pub stats : Table StatsRow
  pub global_stats : Table LifetimeRow
  pub game_stats : Table LifetimeRow

pub data Direction : Type 0 where
  grant revoke : Direction

-- `direction < 0`
pub is_revoke : Direction → Bool
is_revoke grant = false
is_revoke revoke = true

-- `d * n` for a count of the match.
abbrev pub signed : Direction → ℕ → ℤ
signed grant n = pos n
signed revoke zero = pos 0
signed revoke (suc n) = negsuc n

-- `points * d`
pub negate : ℤ → ℤ
negate (pos zero) = pos 0
negate (pos (suc n)) = negsuc n
negate (negsuc n) = pos (suc n)

abbrev pub signed_points : Direction → ℤ → ℤ
signed_points grant p = p
signed_points revoke p = negate p

-- What a match is worth to one player, before the direction is applied: the constants that
-- multiply `d` in a call of `updateParticipant`.
pub record Credit : Type 0 where
  pub games : ℕ
  pub wins : ℕ
  pub losses : ℕ
  pub draws : ℕ
  pub points : ℤ

-- The arguments of one call of `updateParticipant`.
pub record Delta : Type 0 where
  pub games : ℤ
  pub wins : ℤ
  pub losses : ℤ
  pub draws : ℤ
  pub points : ℤ

unfoldable pub scaled : Direction → Credit → Delta
scaled dir c = record {
  games = signed dir c.games;
  wins = signed dir c.wins;
  losses = signed dir c.losses;
  draws = signed dir c.draws;
  points = signed_points dir c.points;
}

-- `floor(current + delta)`
abbrev pub bump : ℕ → ℤ → ℕ
bump n d = floor_zero (pos n +ℤ d)

abbrev pub blank_lifetime : LifetimeRow
blank_lifetime = record { games_played = 0; wins = 0; losses = 0; draws = 0; win_rate = no_games }

pub lifetime_after : Delta → LifetimeRow → LifetimeRow
lifetime_after d row =
    let games = bump row.games_played d.games in
    let won = bump row.wins d.wins in
    record {
      games_played = games;
      wins = won;
      losses = bump row.losses d.losses;
      draws = bump row.draws d.draws;
      win_rate = rate_of won games;
    }

-- A reversal makes no row where there is none.
pub lifetime_table : Direction → ℕ → Delta → Table LifetimeRow → Table LifetimeRow
unfolding is_revoke lifetime_after
lifetime_table dir user d t = elim (t user) [
  | none ↦ if is_revoke dir then t else put user (lifetime_after d blank_lifetime) t
  | some row ↦ put user (lifetime_after d row) t
]

-- `maybeUpdateGlobalStats`
pub update_global : Direction → ℕ → Bool → Delta → StatsDb → StatsDb
unfolding lifetime_table is_revoke
update_global dir user true d db = db
update_global dir user false d db =
    if is_revoke dir && not (is_some (db.global_stats user)) then db else record db {
      global_stats = lifetime_table dir user d db.global_stats;
      game_stats = (if db.has_game then lifetime_table dir user d db.game_stats else db.game_stats);
    }

abbrev pub blank_stats : StatsRow
blank_stats = record {
  games_played = 0;
  wins = 0;
  losses = 0;
  draws = 0;
  points = pos 0;
  win_rate = no_games;
}

-- The counters come from the row as it was read when the transaction began, and `points` is
-- incremented in place.
unfoldable pub stats_after : Delta → StatsRow → StatsRow → StatsRow
stats_after d read current =
    let games = bump read.games_played d.games in
    let won = bump read.wins d.wins in
    record {
      games_played = games;
      wins = won;
      losses = bump read.losses d.losses;
      draws = bump read.draws d.draws;
      points = current.points +ℤ d.points;
      win_rate = rate_of won games;
    }

-- `updateParticipant`; `read` is the stats table as the participants were loaded.
pub update_participant : Direction → Table StatsRow → ℕ → Delta → StatsDb → StatsDb
unfolding is_revoke stats_after update_global
update_participant dir read user d db = elim (db.participant user) [
  | none ↦ db
  | some is_guest ↦ elim (read user) [
    | none ↦
        if is_revoke dir
        then db
        else update_global dir user is_guest d
            (record db { stats = put user (stats_after d blank_stats blank_stats) db.stats })
    | some row ↦
        update_global dir user is_guest d (record db {
          stats = put user (stats_after d row (or_else (db.stats user) row)) db.stats;
        })
  ]
]

pub record PointsConfig : Type 0 where
  pub for_win : ℤ
  pub for_draw : ℤ
  pub for_loss : ℤ

-- The columns of a completed match that crediting reads.
pub record MatchResult : Type 0 where
  pub player1_id : Option ℕ
  pub player2_id : Option ℕ
  pub winner_id : Option ℕ
  pub is_bye : Bool
  pub phase : ℕ

-- `!winnerOnly && pointsApply ? pointsConfig : { 0, 0, 0 }`
unfoldable pub points_of : System → ℕ → Bool → PointsConfig → PointsConfig
points_of system phase winner_only config =
    if not winner_only && points_apply system phase
    then config
    else record { for_win = pos 0; for_draw = pos 0; for_loss = pos 0 }

abbrev pub won : ℤ → Credit
won p = record { games = 1; wins = 1; losses = 0; draws = 0; points = p }

abbrev pub lost : ℤ → Credit
lost p = record { games = 1; wins = 0; losses = 1; draws = 0; points = p }

abbrev pub drawn : ℤ → Credit
drawn p = record { games = 1; wins = 0; losses = 0; draws = 1; points = p }

-- The calls for a bye: only the player given the seat.
unfoldable pub bye_calls : PointsConfig → ByeResult → ℕ → List (ℕ × Credit)
bye_calls points uncounted p1 = []
bye_calls points draw p1 = (p1, drawn points.for_draw) ∷ []
bye_calls points win p1 = (p1, won points.for_win) ∷ []

-- The calls for a match of two players.
unfoldable pub played_calls : PointsConfig → Bool → ℕ → ℕ → Option ℕ → List (ℕ × Credit)
played_calls points true p1 p2 none = []
played_calls points true p1 p2 (some w) = ((if w == p1 then p1 else p2), won (pos 0)) ∷ []
played_calls points false p1 p2 none =
    (p1, drawn points.for_draw) ∷ (p2, drawn points.for_draw) ∷ []
played_calls points false p1 p2 (some w) =
    if w == p1
    then (p1, won points.for_win) ∷ (p2, lost points.for_loss) ∷ []
    else (p1, lost points.for_loss) ∷ (p2, won points.for_win) ∷ []

unfoldable pub seated_calls :
    PointsConfig → ByeResult → Bool → ℕ → Option ℕ → Option ℕ → Bool → List (ℕ × Credit)
unfolding bye_calls played_calls
seated_calls points bye_result winner_only p1 p2 winner true = bye_calls points bye_result p1
seated_calls points bye_result winner_only p1 none winner false = []
seated_calls points bye_result winner_only p1 (some p2) winner false =
    played_calls points winner_only p1 p2 winner

unfoldable pub match_calls :
    System → PointsConfig → ByeResult → Bool → MatchResult → List (ℕ × Credit)
unfolding seated_calls points_of
match_calls system config bye_result winner_only m = elim m.player1_id [
  | none ↦ []
  | some p1 ↦
      seated_calls (points_of system m.phase winner_only config) bye_result winner_only p1
        m.player2_id m.winner_id m.is_bye
]

-- The calls, one after the other.
pub run_calls : Direction → Table StatsRow → List (ℕ × Credit) → StatsDb → StatsDb
unfolding update_participant scaled
run_calls dir read [] db = db
run_calls dir read ((user, c) ∷ calls) db =
    run_calls dir read calls (update_participant dir read user (scaled dir c) db)

unfoldable pub apply_match_stats :
    System → PointsConfig → ByeResult → Direction → Bool → MatchResult → StatsDb → StatsDb
unfolding match_calls run_calls
apply_match_stats system config bye_result dir winner_only m db =
    run_calls dir db.stats (match_calls system config bye_result winner_only m) db

abbrev plus_win : LifetimeRow → LifetimeRow
plus_win row = record row {
  games_played = suc row.games_played;
  wins = suc row.wins;
  win_rate = rate_of (suc row.wins) (suc row.games_played);
}

-- `creditWalkoverWin`: a win for the winner alone, and no points.
pub credit_walkover_win : ℕ → StatsDb → StatsDb
unfolding rate_of
credit_walkover_win winner db = elim (db.participant winner) [
  | none ↦ db
  | some is_guest ↦
      let row = or_else (db.stats winner) blank_stats in
      let credited = record db {
        stats =
            put winner
              (record row {
                games_played = suc row.games_played;
                wins = suc row.wins;
                win_rate = rate_of (suc row.wins) (suc row.games_played);
              })
              db.stats;
      } in
      if is_guest then credited else record credited {
        global_stats =
            put winner (plus_win (or_else (db.global_stats winner) blank_lifetime)) db.global_stats;
        game_stats =
            (if db.has_game
              then put winner (plus_win (or_else (db.game_stats winner) blank_lifetime))
                  db.game_stats
              else db.game_stats);
      }
]
