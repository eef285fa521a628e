-- ===== src/Completion.antt =====
-- What follows the completion of a match: `handleMatchCompletion` of src/Formats/formats.service.ts
-- and the checks it calls, on the world of the match service.
pub mod Build
pub mod Checks
pub mod Step
pub mod Sound
pub mod Checked
pub mod Handler
pub mod Fuel
pub mod Double
pub mod Start
pub mod Drawn
pub mod Whole
pub mod Table
use joust_backend.Prelude.{
  ℕ, zero, suc, ◌+◌, ◌*◌, Option, none, some, or_else, is_some, List, [], ◌∷◌, map, Bool, true,
  false, not, ltb, leb, ◌&&◌, ◌==◌, max, any, if◌then◌else◌,
}
use joust_backend.Prelude.Dict.{Dict, lookup, insert}
use joust_backend.Prelude.Int.{ℤ, pos, ltb_ℤ, abs_diff}
use joust_backend.Match.{
  MatchStatus, is_completed, MatchRow, World, put_match, Tournament, TournamentStatus, Reply, ok,
  refused, round_exists,
}

-- A tournament with what the bracket code reads of it: `swiss_rounds` and `grand_final_reset` of the
-- resolved configuration, the sizes of the top cut as they are configured in phase 2 and at the
-- root, the number of participants, and the time. `leaderboard` is `getLeaderboard`, by the points
-- and in its order, and `best_placed` the first of `resolveFinalPlacements`.
pub record Setting : Type 0 where
  pub tournament : Tournament
  pub swiss_rounds : Option ℕ
  pub phase2_cut_size : Option ℕ
  pub root_cut_size : Option ℕ
  pub grand_final_reset : Bool
  pub participants : ℕ
  pub leaderboard : World → List (ℕ × ℤ)
  pub best_placed : World → Option ℕ
  pub now : ℕ

-- The matches of the round with this number, which is unique in a tournament, with their ids.
unfoldable pub matches_of_round : ℕ → Dict MatchRow → Dict MatchRow
matches_of_round number [] = []
matches_of_round number ((id, m) ∷ rest) =
    let others = matches_of_round number rest in
    if m.round_number == number then (id, m) ∷ others else others

-- An id that no match has.
unfoldable pub fresh_id : Dict MatchRow → ℕ
fresh_id [] = 0
fresh_id ((id, m) ∷ rest) = max (suc id) (fresh_id rest)

-- `prisma.round.create`
unfoldable pub create_round : ℕ → World → Reply World
create_round number w =
    if any (λ n. n == number) w.round_numbers
    then refused round_exists
    else ok (record w { round_numbers = number ∷ w.round_numbers })

-- The row that `createMatch` writes.
unfoldable pub new_match : ℕ → ℕ → ℕ → Option ℕ → Option ℕ → Bool → MatchRow
new_match number phase index p1 p2 is_bye = record {
  round_number = number;
  phase = phase;
  match_index = index;
  player1_id = p1;
  player2_id = p2;
  winner_id = none;
  reported_winner_id = none;
  player1_score = 0;
  player2_score = 0;
  status = MatchStatus.pending;
  is_bye = is_bye;
  started_at = none;
  completed_at = none;
  next_match_id = none;
  loser_next_match_id = none;
}

-- `createMatch`
unfoldable pub create_match : MatchRow → World → ℕ × World
create_match m w = let id = fresh_id w.matches in (id, put_match id m w)

abbrev pub is_over : TournamentStatus → Bool
is_over TournamentStatus.completed = true
is_over TournamentStatus.upcoming = false
is_over TournamentStatus.pending = false
is_over TournamentStatus.opened = false
is_over TournamentStatus.ongoing = false

abbrev first_of : Option ℕ → Option ℕ → Option ℕ
first_of none other = other
first_of (some p) other = some p

-- `completeTournament`, as far as the tournament itself goes: a second completion changes nothing,
-- and a winner that was not set is taken from the final placements.
unfoldable pub complete_tournament : Setting → World → World
complete_tournament s w = if is_over w.status then w else record w {
  status = TournamentStatus.completed;
  completed_at = some s.now;
  winner_id = first_of w.winner_id (s.best_placed w);
}

-- The winner is written first, and then the tournament is completed.
unfoldable pub complete_with : Setting → Option ℕ → World → World
complete_with s winner w = complete_tournament s (record w { winner_id = winner })

-- The test for a tie in points at the top, which stops the automatic completion.
unfoldable pub top_is_tied : List (ℕ × ℤ) → Bool
top_is_tied [] = false
top_is_tied (a ∷ []) = false
top_is_tied (a ∷ b ∷ rest) = ltb_ℤ (pos 0) a.1 && (abs_diff a.1 b.1 == 0)

abbrev pub head_id : List (ℕ × ℤ) → Option ℕ
head_id [] = none
head_id (a ∷ rest) = some a.0

abbrev pub ceil_log_loop : ℕ → ℕ → ℕ → ℕ
ceil_log_loop zero n power = 0
ceil_log_loop (suc fuel) n power =
    let rest = ceil_log_loop fuel n (power * 2) in if ltb power n then suc rest else 0

-- `Math.max(1, Math.ceil(Math.log2(n)))`: the number of doublings from 1 to at least n.
unfoldable pub default_rounds : ℕ → ℕ
default_rounds n = max 1 (ceil_log_loop n n 1)
