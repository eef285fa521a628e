-- ===== src/Match.antt =====
-- Matches and who may score them: the row of `Match` in prisma/schema.prisma,
-- src/tournament/match/match-completion.helper.ts, src/tournament/match/scoring-permission.helper.ts
-- and src/guards/tournament-access.util.ts.
pub mod Service
pub mod Lifecycle
pub mod Reset
pub mod Deferral
pub mod Soundness
pub mod Preservation
pub mod Advancement
pub mod Requests
pub mod Walkover
pub mod Authority
pub mod Seating
use joust_backend.Prelude.{
  ℕ, zero, suc, ◌+◌, ◌/◌, Option, none, some, is_some, List, [], ◌∷◌, Bool, true, false, not, ◌&&◌,
  ◌||◌, ◌==◌, ◌==?◌, if◌then◌else◌,
}
use joust_backend.Prelude.Dict.{Dict, insert}
use joust_backend.Prelude.Int.{ℤ, pos, negsuc}
use joust_backend.Formats.{System, ByeResult}
use joust_backend.Stats.{PointsConfig, MatchResult, StatsDb}

-- `MatchStatus`.
pub data MatchStatus : Type 0 where
  pending ongoing completed : MatchStatus

abbrev pub is_completed : MatchStatus → Bool
is_completed completed = true
is_completed ongoing = false
is_completed pending = false

abbrev pub is_pending : MatchStatus → Bool
is_pending pending = true
is_pending ongoing = false
is_pending completed = false

-- A row of `Match`, with the number of its round. Times are numbers.
pub record MatchRow : Type 0 where
  pub round_number : ℕ
  pub phase : ℕ
  pub match_index : ℕ
  pub player1_id : Option ℕ
  pub player2_id : Option ℕ
  pub winner_id : Option ℕ
  pub reported_winner_id : Option ℕ
  pub player1_score : ℕ
  pub player2_score : ℕ
  pub status : MatchStatus
  pub is_bye : Bool
  pub started_at : Option ℕ
  pub completed_at : Option ℕ
  pub next_match_id : Option ℕ
  pub loser_next_match_id : Option ℕ

-- `completedMatchData({ winnerId })`, applied to the row.
unfoldable pub completed_match_data : ℕ → Option ℕ → MatchRow → MatchRow
completed_match_data now winner m = record m {
  winner_id = winner;
  status = completed;
  completed_at = some now;
  reported_winner_id = none;
}

-- What crediting reads of the row.
unfoldable pub result_of : MatchRow → MatchResult
result_of m = record {
  player1_id = m.player1_id;
  player2_id = m.player2_id;
  winner_id = m.winner_id;
  is_bye = m.is_bye;
  phase = m.phase;
}

-- A row of `MatchGameLog`.
pub record GameLog : Type 0 where
  pub log_id : ℕ
  pub game_number : ℕ
  pub tracker_active : Bool
  pub winner_id : Option ℕ
  pub completed_at : Option ℕ

-- `TournamentStatus`; `opened` is OPEN.
pub data TournamentStatus : Type 0 where
  upcoming pending opened ongoing completed : TournamentStatus

-- What the match service reads and writes of one tournament: its matches by id, in the order of
-- their ids, with their game logs, the numbers of its rounds, and the statistics.
pub record World : Type 0 where
  pub matches : Dict MatchRow
  pub game_logs : ℕ → List GameLog
  pub round_numbers : List ℕ
  pub stats : StatsDb
  pub status : TournamentStatus
  pub completed_at : Option ℕ
  pub winner_id : Option ℕ

abbrev pub put_match : ℕ → MatchRow → World → World
put_match id m w = record w { matches = insert id m w.matches }

-- `ScoreSubmissionRule` and `MatchStartWho`.
pub data ScoreRule : Type 0 where
  staff_only self_report_allowed : ScoreRule

pub data StartRule : Type 0 where
  staff_only staff_and_participants : StartRule

-- What the match service uses of a resolved configuration.
pub record MatchConfig : Type 0 where
  pub best_of : ℤ
  pub points_threshold : ℤ
  pub allow_draw : Bool
  pub score_rule : ScoreRule
  pub start_rule : StartRule
  pub points : PointsConfig
  pub bye_result : ByeResult

-- `winsNeeded`: half of the games, rounded up. A series without games needs no win; the quotient
-- of a negative one is not positive either, and it is only compared with scores.
unfoldable pub wins_needed : ℤ → ℕ
wins_needed (pos n) = (n + 1) / 2
wins_needed (negsuc n) = 0

-- `OrganizerInviteStatus`.
pub data InviteStatus : Type 0 where
  pending accepted declined : InviteStatus

-- A signed-in user: the identifier, and whether the roles contain ADMIN.
pub record User : Type 0 where
  pub user_id : ℕ
  pub is_admin : Bool

-- A tournament as its rows were read: `config_of` is `resolveConfig` at a phase.
pub record Tournament : Type 0 where
  pub system : System
  pub config_of : ℕ → MatchConfig
  pub created_by_id : Option ℕ
  pub organizers : ℕ → Option InviteStatus
  pub is_forfeited : ℕ → Bool

pub data Access : Type 0 where
  allowed denied not_found : Access

abbrev pub is_allowed : Access → Bool
is_allowed allowed = true
is_allowed denied = false
is_allowed not_found = false

abbrev has_accepted : Option InviteStatus → Bool
has_accepted (some accepted) = true
has_accepted (some pending) = false
has_accepted (some declined) = false
has_accepted none = false

-- `checkTournamentAccess`
unfoldable pub check_tournament_access : Option Tournament → Option User → Access
check_tournament_access none user = not_found
check_tournament_access (some t) none = denied
check_tournament_access (some t) (some user) =
    if user.is_admin
    then allowed
    else if t.created_by_id ==? some user.user_id
    then allowed
    else if has_accepted (t.organizers user.user_id)
    then allowed
    else denied

-- `isParticipantOfMatch`
unfoldable pub is_participant_of_match : Option User → MatchRow → Bool
is_participant_of_match none m = false
is_participant_of_match (some user) m =
    some user.user_id ==? m.player1_id || some user.user_id ==? m.player2_id

-- The exceptions that the services throw. `round_exists` is the unique key on a round's number,
-- `type_error` the exception of the language for a missing array, and `out_of_fuel` is the model's own: the recursion of the bracket code has used up its fuel.
pub data Refusal : Type 0 where
  match_not_found already_completed bye_match awaiting_verification draws_not_allowed
        system_needs_winner series_needs_winner threshold_needs_winner bad_best_of not_a_player
        organizer_must_submit not_a_scorer draw_needs_organizer no_reported_score only_completed
        dependent_started dependent_round conflicting_participants started_or_full players_missing
        may_not_start round_exists no_tie tiebreakers_identical type_error not_organizer
        invalid_transition not_open_yet already_finished already_started too_few_players no_format
        builds_missing generation_failed out_of_fuel :
      Refusal

-- What an operation returns or throws.
pub data Reply {ℓ} (A : Type ℓ) : Type ℓ where
  ok : A → Reply A
  refused : Refusal → Reply A

-- One operation after another.
abbrev pub and_then : {A B : Type 0} → Reply A → (A → Reply B) → Reply B
and_then (ok a) f = f a
and_then (refused why) f = refused why

pub data ScoreActor : Type 0 where
  staff participant : ScoreActor

-- `resolveScoreActor`
unfoldable pub resolve_score_actor :
    Tournament → MatchRow → Option User → ScoreRule → Reply ScoreActor
resolve_score_actor t m user staff_only =
    if is_participant_of_match user m
    then refused organizer_must_submit
    else if is_allowed (check_tournament_access (some t) user)
    then ok staff
    else refused not_a_scorer
resolve_score_actor t m user self_report_allowed =
    if is_participant_of_match user m
    then ok participant
    else if is_allowed (check_tournament_access (some t) user)
    then ok staff
    else refused not_a_scorer

-- Guards in the order of the source: the first that holds is the exception.
unfoldable pub first_refusal : List (Bool × Refusal) → Option Refusal
first_refusal [] = none
first_refusal ((fails, why) ∷ guards) = if fails then some why else first_refusal guards
