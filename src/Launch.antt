-- ===== src/Launch.antt =====
-- The status of a tournament and its start: `updateStatus`, `startTournament` and
-- `isFirstRoundComplete` of src/tournament/tournament.service.ts.
pub mod FirstRound
pub mod Status
pub mod Preview
pub mod Drawn
use joust_backend.Prelude.{
  ℕ, zero, suc, ◌≡◌, Option, none, some, is_some, List, [], ◌∷◌, Bool, true, false, not, ltb, every,
  length, ◌&&◌, ◌||◌, ◌==◌, ◌==?◌, if◌then◌else◌,
}
use joust_backend.Prelude.Dict.{Dict, lookup, contains, add}
use joust_backend.Formats.{System}
use joust_backend.Seeding.{shuffled}
use joust_backend.Stats.{StatsRow, StatsDb, blank_stats}
use joust_backend.Match.{
  TournamentStatus, MatchRow, is_completed, completed_match_data, World, put_match, User,
  Tournament, Refusal, Reply, ok, refused, and_then, not_organizer, invalid_transition,
  not_open_yet, already_finished, already_started, too_few_players, no_format, builds_missing,
  generation_failed,
}
use joust_backend.Match.Service.{Handler, guarded}
use joust_backend.Completion.{Setting, matches_of_round}
use joust_backend.Completion.Checks.{has_round}
use joust_backend.Completion.Start.{initialize_tournament_format}

-- `ALLOWED_TRANSITIONS`: from the first status to the second.
unfoldable pub is_allowed_transition : TournamentStatus → TournamentStatus → Bool
is_allowed_transition TournamentStatus.upcoming TournamentStatus.opened = true
is_allowed_transition TournamentStatus.pending TournamentStatus.opened = true
is_allowed_transition TournamentStatus.opened TournamentStatus.ongoing = true
is_allowed_transition TournamentStatus.ongoing TournamentStatus.completed = true
is_allowed_transition from to = false

-- The guard of `updateStatus`: the tournament is another organizer's, and the user is no admin.
unfoldable pub is_stranger : Tournament → User → Bool
is_stranger t user = not (t.created_by_id ==? some user.user_id) && not user.is_admin

-- `updateStatus`, but for the copy of the format's rules onto a tournament that becomes ongoing.
unfoldable pub update_status : Tournament → User → TournamentStatus → World → Reply World
update_status t user target w =
    guarded
      ((is_stranger t user, not_organizer)
        ∷ (not (is_allowed_transition w.status target), invalid_transition)
        ∷ [])
      (ok (record w { status = target }))

-- `startRefusal`
unfoldable pub start_refusal : TournamentStatus → Refusal
start_refusal TournamentStatus.upcoming = not_open_yet
start_refusal TournamentStatus.pending = not_open_yet
start_refusal TournamentStatus.completed = already_finished
start_refusal TournamentStatus.opened = already_started
start_refusal TournamentStatus.ongoing = already_started

abbrev pub is_opened : TournamentStatus → Bool
is_opened TournamentStatus.opened = true
is_opened TournamentStatus.upcoming = false
is_opened TournamentStatus.pending = false
is_opened TournamentStatus.ongoing = false
is_opened TournamentStatus.completed = false

-- What a start reads beside the setting: the participants by their seeds, and the random draws of
-- the field and of a first Swiss round. `builds_ready` is the outcome of `assertBuildsReady`, and
-- `preset_system` is `tournament.format.system`, which the bracket is drawn by: it is the preset's, and
-- can differ from the tournament's own after a failed start.
pub record Field : Type 0 where
  pub player_ids : List ℕ
  pub has_format : Bool
  pub preset_system : System
  pub builds_ready : Bool
  pub is_manual : Bool
  pub draw_field : ℕ → ℕ
  pub draw_round : ℕ → ℕ

-- The seats of these matches, in the order in which `isFirstRoundComplete` goes through them.
unfoldable pub seats_of : Dict MatchRow → List (Option ℕ)
seats_of [] = []
seats_of ((id, m) ∷ rest) = m.player1_id ∷ m.player2_id ∷ seats_of rest

-- The loop: nothing when a player is placed twice, and otherwise the set of those placed.
unfoldable pub place_seats : List (Option ℕ) → List ℕ → Option (List ℕ)
place_seats [] seen = some seen
place_seats (none ∷ os) seen = place_seats os seen
place_seats (some id ∷ os) seen =
    let rest = place_seats os (add id seen) in if contains id seen then none else rest

-- `isFirstRoundComplete`
unfoldable pub is_first_round_complete : Dict MatchRow → List ℕ → Bool
is_first_round_complete rows player_ids =
    ltb 0 (length rows) && (elim (place_seats (seats_of rows) []) [
      | none ↦ false
      | some seen ↦ every (λ id. contains id seen) player_ids
    ])

-- `discardGeneratedBracket`
unfoldable pub discard_generated_bracket : World → World
discard_generated_bracket w = record w { matches = []; round_numbers = [] }

-- The statistics that a participant does not have yet.
unfoldable pub create_stats : List ℕ → World → World
create_stats player_ids w = record w {
  stats = record w.stats {
    stats = λ j.
        if contains j player_ids && not (is_some (w.stats.stats j))
        then some blank_stats
        else w.stats.stats j;
  };
}

-- The new bracket, with the first round verified.
unfoldable pub generate : Handler → Setting → Field → List ℕ → World → Reply World
generate handle s field player_ids w =
    and_then
      (initialize_tournament_format handle s field.draw_round field.preset_system player_ids false
        w)
      (λ (built : World).
        if has_round 1 built
          && is_first_round_complete (matches_of_round 1 built.matches) player_ids
        then ok built
        else refused generation_failed)

-- A first round that a previous attempt completed is kept, any other one is built anew.
unfoldable pub prepare : Handler → Setting → Field → List ℕ → World → Reply World
prepare handle s field player_ids w =
    if has_round 1 w
    then (if is_first_round_complete (matches_of_round 1 w.matches) player_ids
        then ok w
        else generate handle s field player_ids (discard_generated_bracket w))
    else generate handle s field player_ids w

abbrev either_seat : MatchRow → Option ℕ
either_seat m = elim m.player1_id [ none ↦ m.player2_id | some p ↦ some p ]

-- A bye of the first round as it was read: completed unless it was already.
unfoldable pub complete_bye : ℕ → ℕ → MatchRow → World → World
complete_bye now id m w = elim (lookup id w.matches) [
  | none ↦ w
  | some row ↦
      if is_completed m.status
      then w
      else put_match id (completed_match_data now (either_seat m) row) w
]

-- The byes of the first round, in turn, each handed to the bracket code.
unfoldable pub settle_byes : Handler → ℕ → Dict MatchRow → World → Reply World
settle_byes handle now [] w = ok w
settle_byes handle now ((id, m) ∷ rows) w =
    and_then
      (if m.is_bye && is_some (either_seat m) then handle id (complete_bye now id m w) else ok w)
      (settle_byes handle now rows)

-- The start after its claim.
unfoldable pub launch : Handler → Setting → Field → World → Reply World
launch handle s field w =
    let player_ids =
      if field.is_manual then field.player_ids else shuffled field.draw_field field.player_ids in
    and_then (prepare handle s field player_ids (create_stats field.player_ids w))
      (λ (ready : World).
        and_then (settle_byes handle s.now (matches_of_round 1 ready.matches) ready)
          (λ (settled : World). ok (record settled { status = TournamentStatus.ongoing })))

-- `startTournament`, but for the copy of the format's rules. When the start fails after the claim the
-- code takes the bracket back and opens the tournament again; here it is the exception alone.
unfoldable pub start_tournament : Handler → Setting → Field → World → Reply World
start_tournament handle s field w =
    guarded
      ((not (is_opened w.status), start_refusal w.status)
        ∷ (ltb (length field.player_ids) 2, too_few_players)
        ∷ (not field.has_format, no_format)
        ∷ (not field.builds_ready, builds_missing)
        ∷ [])
      (launch handle s field (record w { status = TournamentStatus.ongoing }))
