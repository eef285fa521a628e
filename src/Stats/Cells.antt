-- ===== src/Stats/Cells.antt =====
-- What `applyMatchStats` does to the rows of one user: the three tables, cell by cell.
use joust_backend.Prelude.{
  ℕ, ◌≡◌, refl, ◌∙◌, Option, none, some, or_else, is_some, List, [], ◌∷◌, map, Bool, true, false,
  not, ◌&&◌, ◌==◌, if◌then◌else◌, arith,
}
use joust_backend.Prelude.Dict.{lookup, contains, Distinct}
use joust_backend.Stats.{
  StatsRow, LifetimeRow, Table, StatsDb, Direction, grant, revoke, is_revoke, Credit, Delta, scaled,
  blank_lifetime, lifetime_after, lifetime_table, update_global, blank_stats, stats_after,
  update_participant, run_calls,
}

-- The row of the tournament's statistics after one call.
unfoldable pub stats_cell :
    Direction → Option Bool → Option StatsRow → Option StatsRow → Delta → Option StatsRow
stats_cell dir none read current d = current
stats_cell grant (some g) none current d = some (stats_after d blank_stats blank_stats)
stats_cell revoke (some g) none current d = current
stats_cell dir (some g) (some row) current d = some (stats_after d row (or_else current row))

-- A lifetime row after one call that reaches it.
unfoldable pub lifetime_cell : Direction → Option LifetimeRow → Delta → Option LifetimeRow
lifetime_cell grant none d = some (lifetime_after d blank_lifetime)
lifetime_cell revoke none d = none
lifetime_cell dir (some row) d = some (lifetime_after d row)

-- The call reaches the lifetime rows of a registered entrant with a row to work on.
unfoldable pub reaches : Direction → Option Bool → Option StatsRow → Bool
reaches dir none read = false
reaches dir (some true) read = false
reaches dir (some false) none = not (is_revoke dir)
reaches dir (some false) (some row) = true

unfoldable pub global_cell :
    Direction → Option Bool → Option StatsRow → Option LifetimeRow → Delta → Option LifetimeRow
global_cell dir p read current d =
    if reaches dir p read then lifetime_cell dir current d else current

-- A per-game row is reached with the lifetime row, and not when that row was missing.
unfoldable pub game_cell :
    Direction
    → Bool
    → Option Bool
    → Option StatsRow
    → Option LifetimeRow
    → Option LifetimeRow
    → Delta
    → Option LifetimeRow
game_cell dir has_game p read global current d =
    if reaches dir p read && (has_game && not (is_revoke dir && not (is_some global)))
    then lifetime_cell dir current d
    else current

lifetime_table_lem :
    (dir : Direction) (user : ℕ) (d : Delta) (t : Table LifetimeRow) (j : ℕ)
    → lifetime_table dir user d t j ≡ (if user == j then lifetime_cell dir (t user) d else t j)
unfolding lifetime_table lifetime_cell is_revoke
lifetime_table_lem grant user d t j = ground arith
lifetime_table_lem revoke user d t j = ground arith

module _ (dir : Direction) (read : Table StatsRow) (user : ℕ) (d : Delta) (db : StatsDb) where
  abbrev after : StatsDb
  after = update_participant dir read user d db

  update_participant-participant : (j : ℕ) → after.participant j ≡ db.participant j
  unfolding update_participant update_global
  update_participant-participant j = ground arith

  update_participant-has_game : after.has_game ≡ db.has_game
  unfolding update_participant update_global
  update_participant-has_game = ground arith

  update_participant-stats :
      (j : ℕ)
      → after.stats j ≡ (
          if user == j
          then stats_cell dir (db.participant user) (read user) (db.stats user) d
          else db.stats j)
  unfolding update_participant update_global stats_cell is_revoke
  update_participant-stats j = ground arith

  update_participant-global :
      (j : ℕ)
      → after.global_stats j ≡ (
          if user == j
          then global_cell dir (db.participant user) (read user) (db.global_stats user) d
          else db.global_stats j)
  unfolding update_participant update_global global_cell reaches is_revoke
  update_participant-global j = ground (arith, lifetime_table_lem dir user d db.global_stats j)

  update_participant-game :
      (j : ℕ)
      → after.game_stats j ≡ (
          if user == j
          then game_cell dir db.has_game
              (db.participant user)
              (read user)
              (db.global_stats user)
              (db.game_stats user)
              d
          else db.game_stats j)
  unfolding update_participant update_global game_cell reaches is_revoke
  update_participant-game j = ground (arith, lifetime_table_lem dir user d db.game_stats j)

-- What the calls for one match leave of a cell: the call for that user, if there is one.
abbrev pub called : {A : Type 0} → Option Credit → (Credit → A) → A → A
called none f a = a
called (some c) f a = f c

abbrev pub users_of : List (ℕ × Credit) → List ℕ
users_of calls = map (λ (call : ℕ × Credit). call.0) calls

lookup_absent :
    (u : ℕ) (calls : List (ℕ × Credit))
    → contains u (users_of calls) ≡ false
    → lookup u calls ≡ none
unfolding lookup contains
lookup_absent u [] h = refl
lookup_absent u ((v, c) ∷ calls) h = ground (arith, lookup_absent u calls)

module _ (dir : Direction) (read : Table StatsRow) where
  pub run_calls-stats :
      (calls : List (ℕ × Credit)) (db : StatsDb) (u : ℕ)
      → Distinct (users_of calls)
      → (run_calls dir read calls db).stats u
        ≡ called
            (lookup u calls)
            (λ c. stats_cell dir (db.participant u) (read u) (db.stats u) (scaled dir c))
            (db.stats u)
  unfolding run_calls lookup
  run_calls-stats [] db u d = refl
  run_calls-stats ((v, c) ∷ calls) db u (fresh, d) = ground (
    arith,
    run_calls-stats calls (update_participant dir read v (scaled dir c) db) u d,
    update_participant-stats dir read v (scaled dir c) db u,
    update_participant-participant dir read v (scaled dir c) db u,
    lookup_absent v calls fresh,
  )

  pub run_calls-global :
      (calls : List (ℕ × Credit)) (db : StatsDb) (u : ℕ)
      → Distinct (users_of calls)
      → (run_calls dir read calls db).global_stats u
        ≡ called
            (lookup u calls)
            (λ c. global_cell dir (db.participant u) (read u) (db.global_stats u) (scaled dir c))
            (db.global_stats u)
  unfolding run_calls lookup
  run_calls-global [] db u d = refl
  run_calls-global ((v, c) ∷ calls) db u (fresh, d) = ground (
    arith,
    run_calls-global calls (update_participant dir read v (scaled dir c) db) u d,
    update_participant-global dir read v (scaled dir c) db u,
    update_participant-participant dir read v (scaled dir c) db u,
    lookup_absent v calls fresh,
  )

  pub run_calls-game :
      (calls : List (ℕ × Credit)) (db : StatsDb) (u : ℕ)
      → Distinct (users_of calls)
      → (run_calls dir read calls db).game_stats u
        ≡ called
            (lookup u calls)
            (λ c.
              game_cell dir db.has_game
                (db.participant u)
                (read u)
                (db.global_stats u)
                (db.game_stats u)
                (scaled dir c))
            (db.game_stats u)
  unfolding run_calls lookup
  run_calls-game [] db u d = refl
  run_calls-game ((v, c) ∷ calls) db u (fresh, d) = ground (
    arith,
    run_calls-game calls (update_participant dir read v (scaled dir c) db) u d,
    update_participant-game dir read v (scaled dir c) db u,
    update_participant-global dir read v (scaled dir c) db u,
    update_participant-participant dir read v (scaled dir c) db u,
    update_participant-has_game dir read v (scaled dir c) db,
    lookup_absent v calls fresh,
  )

  pub run_calls-participant :
      (calls : List (ℕ × Credit)) (db : StatsDb) (u : ℕ)
      → (run_calls dir read calls db).participant u ≡ db.participant u
  unfolding run_calls
  run_calls-participant [] db u = refl
  run_calls-participant ((v, c) ∷ calls) db u =
      run_calls-participant calls (update_participant dir read v (scaled dir c) db) u
      ∙ update_participant-participant dir read v (scaled dir c) db u

  pub run_calls-has_game :
      (calls : List (ℕ × Credit)) (db : StatsDb)
      → (run_calls dir read calls db).has_game ≡ db.has_game
  unfolding run_calls
  run_calls-has_game [] db = refl
  run_calls-has_game ((v, c) ∷ calls) db =
      run_calls-has_game calls (update_participant dir read v (scaled dir c) db)
      ∙ update_participant-has_game dir read v (scaled dir c) db
