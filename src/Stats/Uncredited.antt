-- ===== src/Stats/Uncredited.antt =====
-- Reversals of matches that `applyMatchStats` never credited: a walkover, which `creditWalkoverWin`
-- credits, and an elimination bye, which nothing credits (`creditBye` returns early outside
-- Swiss and round robin). `resetMatch` and `deleteTournament` reverse both with `applyMatchStats`.
use joust_backend.Prelude.{
  ℕ, ◌-◌, ◌≡◌, ◌≢◌, refl, none, some, List, [], ◌∷◌, Bool, true, false, arith,
}
use joust_backend.Prelude.Int.{ℤ, ◌+ℤ◌}
use joust_backend.Prelude.Dict.{lookup, contains}
use joust_backend.Formats.{System, ByeResult, win}
use joust_backend.Stats.{
  rate_of, StatsRow, LifetimeRow, StatsDb, revoke, negate, Credit, scaled, lifetime_after,
  stats_after, PointsConfig, MatchResult, points_of, match_calls, seated_calls, bye_calls,
  played_calls, apply_match_stats, credit_walkover_win, lost, won,
}
use joust_backend.Stats.Cells.{
  stats_cell, lifetime_cell, reaches, global_cell, run_calls-stats, run_calls-global,
}

-- A tournament row with one game and one loss fewer.
abbrev pub less_a_loss : ℤ → StatsRow → StatsRow
less_a_loss p row = record {
  games_played = row.games_played - 1;
  wins = row.wins;
  losses = row.losses - 1;
  draws = row.draws;
  points = row.points +ℤ negate p;
  win_rate = rate_of row.wins (row.games_played - 1);
}

stats_after-lost :
    (p : ℤ) (row : StatsRow) → stats_after (scaled revoke (lost p)) row row ≡ less_a_loss p row
unfolding stats_after scaled ◌+ℤ◌
stats_after-lost p row = ground arith

pub credit_walkover_win-others :
    (w u : ℕ) (db : StatsDb)
    → w ≢ u
    → ((credit_walkover_win w db).stats u ≡ db.stats u)
      × ((credit_walkover_win w db).participant u ≡ db.participant u)
unfolding credit_walkover_win
credit_walkover_win-others w u db ne = (ground arith, ground arith)

-- The match that `completeAsWalkover` writes.
abbrev pub walkover : ℕ → ℕ → ℕ → MatchResult
walkover phase w l = record {
  player1_id = some w;
  player2_id = some l;
  winner_id = some w;
  is_bye = false;
  phase = phase;
}

walkover_calls :
    (system : System) (config : PointsConfig) (bye : ByeResult) (phase w l : ℕ)
    → match_calls system config bye false (walkover phase w l)
      ≡ (w, won (points_of system phase false config).for_win)
        ∷ (l, lost (points_of system phase false config).for_loss)
        ∷ []
unfolding match_calls seated_calls played_calls
walkover_calls system config bye phase w l = ground arith

-- The reversal of such a match, without `winnerOnly`, on the tournament row of the player who lost.
pub walkover_reversal-loser :
    (system : System) (config : PointsConfig) (bye : ByeResult) (phase w l : ℕ) (g : Bool)
    (row : StatsRow) (db : StatsDb)
    → w ≢ l
    → db.participant l ≡ some g
    → db.stats l ≡ some row
    → (apply_match_stats system config bye revoke false (walkover phase w l) db).stats l
      ≡ some (less_a_loss (points_of system phase false config).for_loss row)
unfolding apply_match_stats stats_cell lookup contains
walkover_reversal-loser system config bye phase w l g row db ne registered here =
    let points = points_of system phase false config in
    let calls : List (ℕ × Credit) = (w, won points.for_win) ∷ (l, lost points.for_loss) ∷ [] in
    rw (walkover_calls system config bye phase w l) (
      ground (
        arith,
        run_calls-stats revoke db.stats calls db l (ground arith, (refl, tt)),
        stats_after-lost points.for_loss row,
      ))

abbrev pub less_a_win : LifetimeRow → LifetimeRow
less_a_win row = record {
  games_played = row.games_played - 1;
  wins = row.wins - 1;
  losses = row.losses;
  draws = row.draws;
  win_rate = rate_of (row.wins - 1) (row.games_played - 1);
}

lifetime_after-won :
    (p : ℤ) (row : LifetimeRow) → lifetime_after (scaled revoke (won p)) row ≡ less_a_win row
unfolding lifetime_after scaled ◌+ℤ◌
lifetime_after-won p row = ground arith

-- Reversing a bye with the bye rule WIN takes a game and a win (where there are any) from the
-- lifetime row of a registered entrant, whether or not the bye was ever credited.
bye_reversal-global :
    (system : System) (config : PointsConfig) (phase p : ℕ) (s : StatsRow) (row : LifetimeRow)
    (db : StatsDb)
    → db.participant p ≡ some false
    → db.stats p ≡ some s
    → db.global_stats p ≡ some row
    → (apply_match_stats system config win revoke false
          (record {
            player1_id = some p;
            player2_id = none;
            winner_id = some p;
            is_bye = true;
            phase = phase;
          })
          db).global_stats
        p
      ≡ some (less_a_win row)
unfolding apply_match_stats match_calls seated_calls bye_calls global_cell reaches lifetime_cell
    lookup contains
bye_reversal-global system config phase p s row db registered here there =
    let points = (points_of system phase false config).for_win in
    ground (
      arith,
      run_calls-global revoke db.stats ((p, won points) ∷ []) db p (refl, tt),
      lifetime_after-won points row,
    )
