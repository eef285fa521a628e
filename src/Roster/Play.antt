-- ===== src/Roster/Play.antt =====
-- Forfeits and substitutions of src/tournament/participant/participant.service.ts. The bracket code
-- is an argument: `handle_for` is `handleMatchCompletion` for the players that have forfeited.
pub mod Awards
pub mod Seats
use joust_backend.Prelude.{
  ℕ, Option, none, some, is_some, List, [], ◌∷◌, Bool, true, false, not, ◌&&◌, ◌||◌, ◌==◌, ◌==?◌,
  any, if◌then◌else◌,
}
use joust_backend.Prelude.Dict.{Dict, lookup}
use joust_backend.Match.{
  TournamentStatus, MatchRow, is_completed, World, Reply, ok, refused, and_then,
}
use joust_backend.Match.Service.{Handler, in_match}
use joust_backend.Match.Lifecycle.{complete_as_walkover}
use joust_backend.Guests.{Name, Account, has_name}
use joust_backend.Roster.{
  ParticipantStatus, Participant, Club, Venue, Problem, RosterReply, accepted, rejected, checked,
  takes_part, is_guest_account, trim, find_user, take_name, not_participating, not_manageable,
  already_played, already_participating, user_not_found, guest_needs_staff, registered_name,
  name_in_use, substitute_missing, bracket_failed,
}
use joust_backend.Roster.Registration.{update_rows}

-- The tournament is open or ongoing.
unfoldable pub is_live : TournamentStatus → Bool
is_live TournamentStatus.opened = true
is_live TournamentStatus.ongoing = true
is_live TournamentStatus.upcoming = false
is_live TournamentStatus.pending = false
is_live TournamentStatus.completed = false

abbrev pub has_given_up : ParticipantStatus → Bool
has_given_up ParticipantStatus.active = false
has_given_up ParticipantStatus.forfeited = true

-- The player's row says FORFEITED.
unfoldable pub is_forfeited_in : List Participant → ℕ → Bool
is_forfeited_in [] user = false
is_forfeited_in (p ∷ ps) user =
    (p.user_id == user && has_given_up p.status) || is_forfeited_in ps user

unfoldable pub mark_forfeited : ℕ → Club → Club
mark_forfeited user c = record c {
  participants =
      update_rows user (λ (p : Participant). record p { status = ParticipantStatus.forfeited })
        c.participants;
}

-- The matches that are not completed and have the player in a seat.
unfoldable pub unplayed_of : ℕ → Dict MatchRow → Dict MatchRow
unplayed_of user [] = []
unplayed_of user ((id, m) ∷ rest) =
    let others = unplayed_of user rest in
    if not (is_completed m.status) && in_match m user then (id, m) ∷ others else others

unfoldable pub opponent_of : ℕ → MatchRow → Option ℕ
opponent_of user m = if m.player1_id ==? some user then m.player2_id else m.player1_id

-- The loop over the matches as they were read: each goes to the opponent who is known.
unfoldable pub award_all : Handler → ℕ → ℕ → Dict MatchRow → World → Reply World
award_all handle now user [] w = ok w
award_all handle now user ((id, m) ∷ rows) w =
    and_then
      (elim (opponent_of user m) [
        | none ↦ ok w
        | some opponent ↦ complete_as_walkover handle now id opponent w
      ])
      (award_all handle now user rows)

unfoldable pub with_world : Club → Reply World → RosterReply
with_world c (ok w) = accepted (record c { world = w })
with_world c (refused why) = rejected bracket_failed

-- `forfeitParticipant`. When the bracket code throws, the mark and the walkovers before stay; here
-- it is the exception alone.
unfoldable pub forfeit_participant : ((ℕ → Bool) → Handler) → ℕ → ℕ → Club → RosterReply
forfeit_participant handle_for now user c =
    checked
      ((not (is_live c.world.status), not_manageable)
        ∷ (not (takes_part user c), not_participating)
        ∷ [])
      (if is_forfeited_in c.participants user
        then accepted c
        else (let marked = mark_forfeited user c in
            with_world marked (
              award_all (handle_for (is_forfeited_in marked.participants)) now user
                (unplayed_of user marked.world.matches) marked.world)))

-- The player has a completed match.
unfoldable pub has_played : ℕ → Dict MatchRow → Bool
has_played user [] = false
has_played user ((id, m) ∷ rest) =
    (is_completed m.status && in_match m user) || has_played user rest

-- The two updates of the matches that are not completed: the player's seats go to the substitute.
unfoldable pub reseated : ℕ → ℕ → MatchRow → MatchRow
reseated user other m = if is_completed m.status then m else record m {
  player1_id = (if m.player1_id ==? some user then some other else m.player1_id);
  player2_id = (if m.player2_id ==? some user then some other else m.player2_id);
}

unfoldable pub reseat_all : ℕ → ℕ → Dict MatchRow → Dict MatchRow
reseat_all user other [] = []
reseat_all user other ((id, m) ∷ rest) = (id, reseated user other m) ∷ reseat_all user other rest

-- The statistics hang on the participant's row, and go with it to the substitute.
unfoldable pub hand_over : ℕ → ℕ → Bool → World → World
hand_over user other is_guest w = record w {
  matches = reseat_all user other w.matches;
  stats = record w.stats {
    participant = λ j.
        if other == j then some is_guest else if user == j then none else w.stats.participant j;
    stats =
        λ j. if other == j then w.stats.stats user else if user == j then none else w.stats.stats j;
  };
}

-- The writes of the transaction.
unfoldable pub substituted : ℕ → ℕ → Bool → Club → Club
substituted user other is_guest c = record c {
  participants =
      update_rows user (λ (p : Participant). record p { user_id = other }) c.participants;
  world = hand_over user other is_guest c.world;
}

unfoldable pub substitute_new_guest : ℕ → Option (ℕ × Club) → RosterReply
substitute_new_guest user none = rejected name_in_use
substitute_new_guest user (some made) = accepted (substituted user made.0 true made.1)

-- The branch of `replaceParticipant` that makes a guest.
unfoldable pub replace_by_guest : Venue → ℕ → ℕ → Name → Club → RosterReply
replace_by_guest v now user name c = elim (find_user v.same_name (trim name) c.accounts) [
  | none ↦ substitute_new_guest user (take_name v.same_name now (trim name) c)
  | some found ↦
      if not found.1.is_guest
      then rejected registered_name
      else substitute_new_guest user (take_name v.same_name now (trim name) c)
]

-- The branch for a registered substitute.
unfoldable pub replace_by_user : ℕ → ℕ → Club → RosterReply
replace_by_user user other c =
    checked
      ((takes_part other c, already_participating)
        ∷ (not (is_some (lookup other c.accounts)), user_not_found)
        ∷ (is_guest_account (lookup other c.accounts), guest_needs_staff)
        ∷ [])
      (accepted (substituted user other false c))

-- The choice of `replaceParticipant` between the two fields of its request.
unfoldable pub replace_by : Venue → ℕ → ℕ → Option ℕ → Option Name → Club → RosterReply
replace_by v now user (some other) name c = replace_by_user user other c
replace_by v now user none none c = rejected substitute_missing
replace_by v now user none (some name) c =
    if has_name (some name) then replace_by_guest v now user name c else rejected substitute_missing

-- `replaceParticipant`, but for the names on the matches.
unfoldable pub replace_participant : Venue → ℕ → ℕ → Option ℕ → Option Name → Club → RosterReply
replace_participant v now user other name c =
    checked
      ((not (is_live c.world.status), not_manageable)
        ∷ (not (takes_part user c), not_participating)
        ∷ (has_played user c.world.matches, already_played)
        ∷ [])
      (replace_by v now user other name c)
