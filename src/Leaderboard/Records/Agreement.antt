-- ===== src/Leaderboard/Records/Agreement.antt =====
-- The records derived from the matches and the rows that `applyMatchStats` keeps are the same.
use joust_backend.Prelude.{
  ℕ, ◌+◌, ◌≡◌, ◌≢◌, refl, ap, ◌∙◌, sym, Option, none, some, or_else, List, [], ◌∷◌, Bool, true,
  false, ◌==◌, All, if◌then◌else◌, arith,
}
use joust_backend.Prelude.Dict.{Dict, lookup, lookup-insert}
use joust_backend.Prelude.Int.{◌+ℤ◌}
use joust_backend.Formats.{System, ByeResult, win, draw, uncounted}
use joust_backend.Stats.{
  StatsRow, StatsDb, grant, Credit, scaled, stats_after, PointsConfig, MatchResult, points_of,
  bye_calls, played_calls, seated_calls, match_calls, apply_match_stats, won, lost, drawn,
}
use joust_backend.Stats.Cells.{stats_cell, called, run_calls-stats, run_calls-participant}
use joust_backend.Stats.Reversal.{match_calls-Distinct}
use joust_backend.Leaderboard.Records.{
  Tally, zero_tally, PhaseConfig, add_partial, credit, empty_id, record_bye, record_played,
  record_match, record_matches, compute_tournament_records,
}

-- The record after one call of `updateParticipant`'s kind.
abbrev add_credit : Credit → Tally → Tally
add_credit c t = record {
  games_played = t.games_played + c.games;
  wins = t.wins + c.wins;
  losses = t.losses + c.losses;
  draws = t.draws + c.draws;
  points = t.points +ℤ c.points;
}

tally_at : ℕ → Dict Tally → Tally
tally_at u records = or_else (lookup u records) zero_tally

sum : Tally → Tally → Tally
sum t c = record {
  games_played = t.games_played + c.games_played;
  wins = t.wins + c.wins;
  losses = t.losses + c.losses;
  draws = t.draws + c.draws;
  points = t.points +ℤ c.points;
}

add_partial-tally_at :
    (user u : ℕ) (c : Tally) (records : Dict Tally)
    → tally_at u (add_partial user c records)
      ≡ (if user == u then sum (tally_at user records) c else tally_at u records)
unfolding add_partial tally_at sum
add_partial-tally_at user u c records =
    ground (arith, lookup-insert user u (sum (tally_at user records) c) records)

tally_of : Credit → Tally
tally_of c = record {
  games_played = c.games;
  wins = c.wins;
  losses = c.losses;
  draws = c.draws;
  points = c.points;
}

record_bye-tally_at :
    (p : PointsConfig) (bye : ByeResult) (p1 u : ℕ) (records : Dict Tally)
    → tally_at u (record_bye bye p (some p1) records)
      ≡ called
          (lookup u (bye_calls p bye p1))
          (λ c. sum (tally_at u records) (tally_of c))
          (tally_at u records)
unfolding record_bye credit bye_calls tally_of lookup
record_bye-tally_at p uncounted p1 u records = refl
record_bye-tally_at p draw p1 u records =
    ground (arith, add_partial-tally_at p1 u (tally_of (drawn p.for_draw)) records)
record_bye-tally_at p win p1 u records =
    ground (arith, add_partial-tally_at p1 u (tally_of (won p.for_win)) records)

-- Two additions for different players.
two_partials-tally_at :
    (p1 p2 u : ℕ) (c d : Tally) (records : Dict Tally)
    → p1 ≢ p2
    → tally_at u (add_partial p2 d (add_partial p1 c records)) ≡ (
        if p1 == u
        then sum (tally_at u records) c
        else if p2 == u
        then sum (tally_at u records) d
        else tally_at u records)
two_partials-tally_at p1 p2 u c d records ne = ground (
  arith,
  add_partial-tally_at p2 u d (add_partial p1 c records),
  add_partial-tally_at p1 u c records,
  add_partial-tally_at p1 p2 c records,
)

record_played-tally_at :
    (p : PointsConfig) (p1 p2 u : ℕ) (w : Option ℕ) (records : Dict Tally)
    → p1 ≢ p2
    → tally_at u (record_played p (some p1) (some p2) w records)
      ≡ called
          (lookup u (played_calls p false p1 p2 w))
          (λ c. sum (tally_at u records) (tally_of c))
          (tally_at u records)
unfolding record_played credit played_calls tally_of lookup
record_played-tally_at p p1 p2 u none records ne =
    let d = tally_of (drawn p.for_draw) in
    ground (arith, two_partials-tally_at p1 p2 u d d records ne)
record_played-tally_at p p1 p2 u (some w) records ne = ground (
  arith,
  two_partials-tally_at p1 p2 u (tally_of (won p.for_win)) (tally_of (lost p.for_loss)) records ne,
  two_partials-tally_at p1 p2 u (tally_of (lost p.for_loss)) (tally_of (won p.for_win)) records ne,
)

-- The calls for a match by its seats.
abbrev calls_of :
    PointsConfig → ByeResult → Option ℕ → Option ℕ → Option ℕ → Bool → List (ℕ × Credit)
calls_of p bye none p2 w is_bye = []
calls_of p bye (some p1) p2 w is_bye = seated_calls p bye false p1 p2 w is_bye

seats-tally_at :
    (p : PointsConfig) (bye : ByeResult) (p1 p2 w : Option ℕ) (is_bye : Bool) (u : ℕ)
    (records : Dict Tally)
    → u ≢ empty_id
    → p1 ≢ p2
    → tally_at u (if is_bye then record_bye bye p p1 records else record_played p p1 p2 w records)
      ≡ called
          (lookup u (calls_of p bye p1 p2 w is_bye))
          (λ c. sum (tally_at u records) (tally_of c))
          (tally_at u records)
unfolding record_bye record_played credit seated_calls lookup tally_of
seats-tally_at p bye none p2 w false u records real ne = refl
seats-tally_at p uncounted none p2 w true u records real ne = refl
seats-tally_at p draw none p2 w true u records real ne =
    ground (arith, add_partial-tally_at empty_id u (tally_of (drawn p.for_draw)) records)
seats-tally_at p win none p2 w true u records real ne =
    ground (arith, add_partial-tally_at empty_id u (tally_of (won p.for_win)) records)
seats-tally_at p bye (some p1) none w false u records real ne = refl
seats-tally_at p bye (some p1) p2 w true u records real ne = record_bye-tally_at p bye p1 u records
seats-tally_at p bye (some p1) (some p2) w false u records real ne =
    record_played-tally_at p p1 p2 u w records (λ e. ne (ap some e))

match_calls-calls_of :
    (system : System) (config : PointsConfig) (bye : ByeResult) (m : MatchResult)
    → match_calls system config bye false m
      ≡ calls_of
          (points_of system m.phase false config)
          bye
          m.player1_id
          m.player2_id
          m.winner_id
          m.is_bye
unfolding match_calls
match_calls-calls_of system config bye m = ground arith

record_match-tally_at :
    (system : System) (config : PhaseConfig) (m : MatchResult) (u : ℕ) (records : Dict Tally)
    → u ≢ empty_id
    → m.player1_id ≢ m.player2_id
    → tally_at u (record_match system config m records)
      ≡ called
          (lookup u (match_calls system config.points config.bye_result false m))
          (λ c. sum (tally_at u records) (tally_of c))
          (tally_at u records)
unfolding record_match points_of
record_match-tally_at system config m u records real ne =
    rw (match_calls-calls_of system config.points config.bye_result m) (
      seats-tally_at (points_of system m.phase false config.points) config.bye_result m.player1_id
        m.player2_id m.winner_id m.is_bye u records real ne)

-- The record that a player's row of the stored statistics stands for.
pub tally_of_row : Option StatsRow → Tally
tally_of_row none = zero_tally
tally_of_row (some row) = record {
  games_played = row.games_played;
  wins = row.wins;
  losses = row.losses;
  draws = row.draws;
  points = row.points;
}

stats_cell-tally_of_row :
    (g : Bool) (row : Option StatsRow) (c : Credit)
    → tally_of_row (stats_cell grant (some g) row row (scaled grant c))
      ≡ sum (tally_of_row row) (tally_of c)
unfolding tally_of_row stats_cell stats_after scaled sum tally_of ◌+ℤ◌
stats_cell-tally_of_row g none c = ground arith
stats_cell-tally_of_row g (some row) c = ground arith

-- The matches completed one after the other, each credited as it completes.
pub credit_matches : System → (ℕ → PhaseConfig) → List MatchResult → StatsDb → StatsDb
credit_matches system config_of [] db = db
credit_matches system config_of (m ∷ ms) db = credit_matches system config_of ms (
    apply_match_stats system (config_of m.phase).points (config_of m.phase).bye_result grant false m
      db)

cell_agrees :
    (call : Option Credit) (p : Option Bool) (g : Bool) (row : Option StatsRow) (t : Tally)
    → p ≡ some g
    → tally_of_row row ≡ t
    → tally_of_row (called call (λ c. stats_cell grant p row row (scaled grant c)) row)
      ≡ called call (λ c. sum t (tally_of c)) t
cell_agrees none p g row t registered agrees = agrees
cell_agrees (some c) p g row t registered agrees =
    rw (registered, stats_cell-tally_of_row g row c, agrees) refl

step_agrees :
    (system : System) (config : PhaseConfig) (m : MatchResult) (u : ℕ) (g : Bool)
    (records : Dict Tally) (db : StatsDb)
    → u ≢ empty_id
    → m.player1_id ≢ m.player2_id
    → db.participant u ≡ some g
    → tally_of_row (db.stats u) ≡ tally_at u records
    → tally_of_row
        ((apply_match_stats system config.points config.bye_result grant false m db).stats u)
      ≡ tally_at u (record_match system config m records)
unfolding apply_match_stats
step_agrees system config m u g records db real ne registered agrees =
    let calls = match_calls system config.points config.bye_result false m in
    ap tally_of_row (
      run_calls-stats grant db.stats calls db u
        (match_calls-Distinct system config.points config.bye_result false m ne))
    ∙ cell_agrees (lookup u calls) (db.participant u) g (db.stats u) (tally_at u records) registered
        agrees
    ∙ sym (record_match-tally_at system config m u records real ne)

-- Both seats of every match are taken by different players.
abbrev pub HaveTwoSeats : List MatchResult → Type 0
HaveTwoSeats = All (λ (m : MatchResult). m.player1_id ≢ m.player2_id)

matches_agree :
    (system : System) (config_of : ℕ → PhaseConfig) (ms : List MatchResult) (u : ℕ) (g : Bool)
    (records : Dict Tally) (db : StatsDb)
    → u ≢ empty_id
    → HaveTwoSeats ms
    → db.participant u ≡ some g
    → tally_of_row (db.stats u) ≡ tally_at u records
    → tally_of_row ((credit_matches system config_of ms db).stats u)
      ≡ tally_at u (record_matches system config_of ms records)
unfolding credit_matches record_matches apply_match_stats
matches_agree system config_of [] u g records db real seats registered agrees = agrees
matches_agree system config_of (m ∷ ms) u g records db real (ne, seats) registered agrees =
    let config = config_of m.phase in
    let calls = match_calls system config.points config.bye_result false m in
    matches_agree system config_of ms u g (record_match system config m records)
      (apply_match_stats system config.points config.bye_result grant false m db) real seats
      (run_calls-participant grant db.stats calls db u ∙ registered)
      (step_agrees system config m u g records db real ne registered agrees)

-- Crediting the completed matches of a tournament one after the other leaves an entrant who started
-- without a row exactly the games, wins, losses, draws and points that `computeTournamentRecords`
-- derives from the same matches, when the two seats of each match differ.
pub credit_matches-compute_tournament_records :
    (system : System) (config_of : ℕ → PhaseConfig) (ms : List MatchResult) (u : ℕ) (g : Bool)
    (db : StatsDb)
    → u ≢ empty_id
    → HaveTwoSeats ms
    → db.participant u ≡ some g
    → db.stats u ≡ none
    → tally_of_row ((credit_matches system config_of ms db).stats u)
      ≡ or_else (lookup u (compute_tournament_records system config_of ms)) zero_tally
unfolding compute_tournament_records tally_at tally_of_row lookup
credit_matches-compute_tournament_records system config_of ms u g db real seats registered fresh =
    matches_agree system config_of ms u g [] db real seats registered (ap tally_of_row fresh)
