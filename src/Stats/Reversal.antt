-- ===== src/Stats/Reversal.antt =====
-- `applyMatchStats` with direction -1 takes back exactly what direction 1 gave.
use joust_backend.Prelude.{
  ℕ, zero, suc, ◌≡◌, ◌≢◌, refl, ap, ◌∙◌, Option, none, some, List, Bool, true, false, ◌==◌,
  Bool-cases, Option-cases, inl, inr, arith,
}
use joust_backend.Prelude.Int.{ℤ, pos, negsuc, ◌+ℤ◌}
use joust_backend.Prelude.Dict.{lookup, contains, Distinct}
use joust_backend.Formats.{System, ByeResult, win, draw, uncounted}
use joust_backend.Stats.{
  rate_of, StatsRow, LifetimeRow, StatsDb, grant, revoke, is_revoke, signed, negate, Credit, scaled,
  bump, lifetime_after, stats_after, PointsConfig, MatchResult, match_calls, seated_calls,
  bye_calls, played_calls, run_calls, apply_match_stats,
}
use joust_backend.Stats.Cells.{
  stats_cell, lifetime_cell, reaches, global_cell, game_cell, users_of, run_calls-stats,
  run_calls-global, run_calls-game, run_calls-participant, run_calls-has_game,
}

bump_back : (n k : ℕ) → bump (bump n (signed grant k)) (signed revoke k) ≡ n
unfolding ◌+ℤ◌
bump_back n zero = ground arith
bump_back n (suc k) = ground arith

points_back : (a p : ℤ) → a +ℤ p +ℤ negate p ≡ a
unfolding ◌+ℤ◌ negate
points_back a (pos zero) = ground arith
points_back a (pos (suc n)) = ground arith
points_back a (negsuc n) = ground arith

-- The stored rate is the rate of the stored counters.
abbrev pub IsSettledRow : StatsRow → Type 0
IsSettledRow r = r.win_rate ≡ rate_of r.wins r.games_played

abbrev pub IsSettledLifetime : LifetimeRow → Type 0
IsSettledLifetime r = r.win_rate ≡ rate_of r.wins r.games_played

stats_after_back :
    (c : Credit) (r : StatsRow)
    → IsSettledRow r
    → let s = stats_after (scaled grant c) r r in stats_after (scaled revoke c) s s ≡ r
unfolding stats_after scaled
stats_after_back c r h = ground (
  arith,
  bump_back r.games_played c.games,
  bump_back r.wins c.wins,
  bump_back r.losses c.losses,
  bump_back r.draws c.draws,
  points_back r.points c.points,
)

lifetime_after_back :
    (c : Credit) (r : LifetimeRow)
    → IsSettledLifetime r
    → lifetime_after (scaled revoke c) (lifetime_after (scaled grant c) r) ≡ r
unfolding lifetime_after scaled
lifetime_after_back c r h = ground (
  arith,
  bump_back r.games_played c.games,
  bump_back r.wins c.wins,
  bump_back r.losses c.losses,
  bump_back r.draws c.draws,
)

played_calls-Distinct :
    (points : PointsConfig) (winner_only : Bool) (p1 p2 : ℕ) (winner : Option ℕ)
    → p1 ≢ p2
    → Distinct (users_of (played_calls points winner_only p1 p2 winner))
unfolding played_calls contains
played_calls-Distinct points true p1 p2 none ne = tt
played_calls-Distinct points true p1 p2 (some w) ne = (refl, tt)
played_calls-Distinct points false p1 p2 none ne = (ground arith, (refl, tt))
played_calls-Distinct points false p1 p2 (some w) ne = elim (Bool-cases (w == p1)) [
  | inl first ↦ rw first (ground arith, (refl, tt))
  | inr second ↦ rw second (ground arith, (refl, tt))
]

seated_calls-Distinct :
    (points : PointsConfig) (bye : ByeResult) (winner_only : Bool) (p1 : ℕ) (p2 w : Option ℕ)
    (is_bye : Bool)
    → some p1 ≢ p2
    → Distinct (users_of (seated_calls points bye winner_only p1 p2 w is_bye))
unfolding seated_calls bye_calls contains
seated_calls-Distinct points win winner_only p1 p2 w true ne = (refl, tt)
seated_calls-Distinct points draw winner_only p1 p2 w true ne = (refl, tt)
seated_calls-Distinct points uncounted winner_only p1 p2 w true ne = tt
seated_calls-Distinct points bye winner_only p1 none w false ne = tt
seated_calls-Distinct points bye winner_only p1 (some p2) w false ne =
    played_calls-Distinct points winner_only p1 p2 w (λ e. ne (ap some e))

pub match_calls-Distinct :
    (system : System) (config : PointsConfig) (bye : ByeResult) (winner_only : Bool)
    (m : MatchResult)
    → m.player1_id ≢ m.player2_id
    → Distinct (users_of (match_calls system config bye winner_only m))
unfolding match_calls
match_calls-Distinct system config bye winner_only m ne = elim (Option-cases m.player1_id) [
  | inl empty ↦ rw (empty, match_calls) tt
  | inr (p1, e) ↦
      rw (e, match_calls)
        (seated_calls-Distinct _ bye winner_only p1 m.player2_id m.winner_id m.is_bye
          (λ same. ne (e ∙ same)))
]

stats_cell_back :
    (p : Option Bool) (c : Credit) (r : StatsRow)
    → IsSettledRow r
    → let x = stats_cell grant p (some r) (some r) (scaled grant c) in
      stats_cell revoke p x x (scaled revoke c) ≡ some r
unfolding stats_cell
stats_cell_back none c r h = refl
stats_cell_back (some g) c r h = ap some (stats_after_back c r h)

global_cell_back :
    (p : Option Bool) (c : Credit) (s : StatsRow) (r : LifetimeRow)
    → IsSettledLifetime r
    → let x = global_cell grant p (some s) (some r) (scaled grant c) in
      let read = stats_cell grant p (some s) (some s) (scaled grant c) in
      global_cell revoke p read x (scaled revoke c) ≡ some r
unfolding global_cell reaches lifetime_cell stats_cell
global_cell_back none c s r h = refl
global_cell_back (some true) c s r h = refl
global_cell_back (some false) c s r h = ap some (lifetime_after_back c r h)

game_cell_back :
    (has_game : Bool) (p : Option Bool) (c : Credit) (s : StatsRow) (r t : LifetimeRow)
    → IsSettledLifetime t
    → let x = game_cell grant has_game p (some s) (some r) (some t) (scaled grant c) in
      let read = stats_cell grant p (some s) (some s) (scaled grant c) in
      let global = global_cell grant p (some s) (some r) (scaled grant c) in
      game_cell revoke has_game p read global x (scaled revoke c) ≡ some t
unfolding game_cell global_cell reaches lifetime_cell stats_cell is_revoke
game_cell_back has_game none c s r t h = refl
game_cell_back has_game (some true) c s r t h = refl
game_cell_back true (some false) c s r t h = ap some (lifetime_after_back c t h)
game_cell_back false (some false) c s r t h = refl

module _ (calls : List (ℕ × Credit)) (db : StatsDb) (u : ℕ) (d : Distinct (users_of calls)) where
  -- The tables after the grant, and after the reversal of it.
  abbrev granted : StatsDb
  granted = run_calls grant db.stats calls db

  abbrev reversed : StatsDb
  reversed = run_calls revoke granted.stats calls granted

  -- What the three tables hold for the user after both, when all rows were there.
  abbrev Restores : StatsRow → LifetimeRow → LifetimeRow → Type 0
  Restores s g t =
      (reversed.stats u ≡ some s)
      × (reversed.global_stats u ≡ some g)
      × (reversed.game_stats u ≡ some t)

  calls_back :
      (s : StatsRow) (g t : LifetimeRow)
      → db.stats u ≡ some s
      → db.global_stats u ≡ some g
      → db.game_stats u ≡ some t
      → IsSettledRow s
      → IsSettledLifetime g
      → IsSettledLifetime t
      → Restores s g t
  calls_back s g t es eg et hs hg ht = elim (Option-cases (lookup u calls)) [
    | inl uncalled ↦ ground (
      arith,
      run_calls-stats grant db.stats calls db u d,
      run_calls-stats revoke granted.stats calls granted u d,
      run_calls-global grant db.stats calls db u d,
      run_calls-global revoke granted.stats calls granted u d,
      run_calls-game grant db.stats calls db u d,
      run_calls-game revoke granted.stats calls granted u d,
    )
    | inr (c, e) ↦ ground (
      arith,
      run_calls-stats grant db.stats calls db u d,
      run_calls-stats revoke granted.stats calls granted u d,
      run_calls-global grant db.stats calls db u d,
      run_calls-global revoke granted.stats calls granted u d,
      run_calls-game grant db.stats calls db u d,
      run_calls-game revoke granted.stats calls granted u d,
      run_calls-participant grant db.stats calls db u,
      run_calls-has_game grant db.stats calls db,
      stats_cell_back (db.participant u) c s hs,
      global_cell_back (db.participant u) c s g hg,
      game_cell_back db.has_game (db.participant u) c s g t ht,
    )
  ]

-- Reversing a match right after it was credited gives every user whose three rows existed, with their
-- stored rates in step with their counters, all three rows back, whatever the kind of match, the bye
-- rule and the mode, when the two seats differ.
pub apply_match_stats_reversal :
    (system : System) (config : PointsConfig) (bye : ByeResult) (winner_only : Bool)
    (m : MatchResult) (db : StatsDb) (u : ℕ) (s : StatsRow) (g t : LifetimeRow)
    → m.player1_id ≢ m.player2_id
    → db.stats u ≡ some s
    → db.global_stats u ≡ some g
    → db.game_stats u ≡ some t
    → IsSettledRow s
    → IsSettledLifetime g
    → IsSettledLifetime t
    → let credited = apply_match_stats system config bye grant winner_only m db in
      let after = apply_match_stats system config bye revoke winner_only m credited in
      (after.stats u ≡ some s) × (after.global_stats u ≡ some g) × (after.game_stats u ≡ some t)
unfolding apply_match_stats
apply_match_stats_reversal system config bye winner_only m db u s g t ne =
    calls_back (match_calls system config bye winner_only m) db u
      (match_calls-Distinct system config bye winner_only m ne) s g t
