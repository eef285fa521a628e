-- ===== src/Closing.antt =====
-- The end of a tournament: the awards of `completeTournament` in
-- src/tournament/tournament.service.ts.
pub mod Careers
pub mod Awards
use joust_backend.Prelude.{
  ℕ, zero, suc, ◌+◌, Option, none, some, List, [], ◌∷◌, map, Bool, true, false, not, select, find,
  ◌&&◌, ◌||◌, ◌==◌, ◌==?◌, if◌then◌else◌,
}
use joust_backend.Prelude.Dict.{Dict, lookup, insert, contains}
use joust_backend.Prelude.Int.{ℤ, pos, ◌+ℤ◌}
use joust_backend.Match.{TournamentStatus}
use joust_backend.Placement.{Placed}

-- A row of `UserGlobalStats` or `UserGameStats`, as far as the end of a tournament changes it.
pub record Career : Type 0 where
  pub tournaments_played : ℕ
  pub tournaments_won : ℕ
  pub global_points : ℤ

-- A row that `upsert` creates.
abbrev pub new_career : ℕ → ℕ → ℤ → Career
new_career played won pts = record {
  tournaments_played = played;
  tournaments_won = won;
  global_points = pts;
}

-- A participant and the account's guest flag.
pub record Entrant : Type 0 where
  pub user_id : ℕ
  pub is_guest : Bool

-- The points of the resolved configuration.
pub record PlacementPoints : Type 0 where
  pub champion : ℤ
  pub second : ℤ
  pub third : ℤ
  pub top_cut : ℤ
  pub participation : ℤ

-- What the awards read: `placings` is the list of `resolveFinalPlacements`.
pub record Closing : Type 0 where
  pub entrants : List Entrant
  pub has_game : Bool
  pub is_hybrid : Bool
  pub points : PlacementPoints
  pub placings : List Placed
  pub now : ℕ

-- What they write: the tournament, the two tables, the second by its row of the tournament's game,
-- and the placement of each participant.
pub record Hall : Type 0 where
  pub status : TournamentStatus
  pub completed_at : Option ℕ
  pub winner_id : Option ℕ
  pub global : Dict Career
  pub by_game : Dict Career
  pub placement : Dict (Option ℕ)

-- `upsert`
unfoldable pub upsert : ℕ → Career → (Career → Career) → Dict Career → Dict Career
upsert id create update d = elim (lookup id d) [
  | none ↦ insert id create d
  | some c ↦ insert id (update c) d
]

-- `registeredParticipants`, by their ids.
unfoldable pub registered : List Entrant → List ℕ
registered [] = []
registered (e ∷ es) = let rest = registered es in if e.is_guest then rest else e.user_id ∷ rest

abbrev pub played_one : Career → Career
played_one c = record c { tournaments_played = suc c.tournaments_played }

abbrev pub won_one : Career → Career
won_one c = record c { tournaments_won = suc c.tournaments_won }

abbrev pub paid : ℤ → Career → Career
paid pts c = record c { global_points = c.global_points +ℤ pts }

-- The loop over the registered participants.
unfoldable pub credit_played : List ℕ → Dict Career → Dict Career
credit_played [] d = d
credit_played (id ∷ ids) d = credit_played ids (upsert id (new_career 1 0 (pos 0)) played_one d)

-- The winner, who may be nobody, a guest or no participant.
unfoldable pub credit_winner : List ℕ → Option ℕ → Dict Career → Dict Career
credit_winner ids none d = d
credit_winner ids (some winner) d =
    if contains winner ids then upsert winner (new_career 1 1 (pos 0)) won_one d else d

-- The points of a rank.
unfoldable pub points_for : PlacementPoints → Bool → ℕ → ℤ
points_for p is_hybrid rank =
    if rank == 1
    then p.champion
    else if rank == 2
    then p.second
    else if rank == 3
    then p.third
    else if is_hybrid
    then p.top_cut
    else p.participation

-- The loop over the final placings, for one table.
unfoldable pub credit_placings : Closing → List ℕ → List Placed → Dict Career → Dict Career
credit_placings c ids [] d = d
credit_placings c ids (e ∷ es) d =
    let pts = points_for c.points c.is_hybrid e.rank in
    credit_placings c ids es
      (if contains e.user_id ids then upsert e.user_id (new_career 0 0 pts) (paid pts) d else d)

-- All that one of the two tables gets.
unfoldable pub credit_table : Closing → Option ℕ → Dict Career → Dict Career
credit_table c winner d =
    let ids = registered c.entrants in
    credit_placings c ids c.placings (credit_winner ids winner (credit_played ids d))

-- `updateMany` on the participant's row.
unfoldable pub put_placement : Placed → Dict (Option ℕ) → Dict (Option ℕ)
put_placement e d = elim (lookup e.user_id d) [
  | none ↦ d
  | some before ↦ insert e.user_id (some e.rank) d
]

unfoldable pub put_placements : List Placed → Dict (Option ℕ) → Dict (Option ℕ)
put_placements [] d = d
put_placements (e ∷ es) d = put_placements es (put_placement e d)

abbrev first_placed : List Placed → Option ℕ
first_placed [] = none
first_placed (e ∷ es) = some e.user_id

-- `if (!winnerId) winnerId = leaderboard[0]?.userId ?? null`
unfoldable pub final_winner : Option ℕ → List Placed → Option ℕ
final_winner none placings = first_placed placings
final_winner (some winner) placings = some winner

abbrev pub is_closed : TournamentStatus → Bool
is_closed TournamentStatus.completed = true
is_closed TournamentStatus.upcoming = false
is_closed TournamentStatus.pending = false
is_closed TournamentStatus.opened = false
is_closed TournamentStatus.ongoing = false

-- The transaction of `completeTournament`.
unfoldable pub close : Closing → Hall → Hall
close c h =
    let winner = final_winner h.winner_id c.placings in
    record {
      status = TournamentStatus.completed;
      completed_at = some c.now;
      winner_id = winner;
      global = credit_table c winner h.global;
      by_game = (if c.has_game then credit_table c winner h.by_game else h.by_game);
      placement = put_placements c.placings h.placement;
    }

-- `completeTournament`
unfoldable pub complete : Closing → Hall → Hall
complete c h = if is_closed h.status then h else close c h
