-- ===== src/Tests/Rosters.antt =====
-- A roster with two of three seats taken, and its match.
use joust_backend.Prelude.{ℕ, ◌≡◌, ◌≤◌, ◌==◌, refl, none, some, [], ◌∷◌, Bool, true, false, arith}
use joust_backend.Prelude.Dict.{lookup, contains}
use joust_backend.Match.{TournamentStatus, World, Refusal, refused, check_tournament_access}
use joust_backend.Match.Service.{Handler, verify_result}
use joust_backend.Completion.Step.{handle_match_completion}
use joust_backend.Completion.Fuel.{budget, running, Yields}
use joust_backend.Guests.{Account, Name}
use joust_backend.Roster.{
  ParticipantStatus, Participant, Club, Venue, user_ids, takes_part, is_open, is_full_club,
  is_guest_account, first_problem, checked, seat_user, join_transaction,
}
use joust_backend.Roster.Registration.{
  invite_tournament_participant, leave_tournament, without, strike,
}
use joust_backend.Roster.Play.{
  award_all, unplayed_of, mark_forfeited, is_forfeited_in, substituted, replace_participant,
}
use joust_backend.Roster.Play.Awards.{forfeiting, award_all_terminates}
use joust_backend.Roster.Play.Seats.{IsGone, replace_participant-IsGone, verify_result-substituted}
use joust_backend.Roster.Members.{Accepts}
use joust_backend.Roster.Valid.{IsValid}
use joust_backend.Roster.Valid.Steps.{Steps, start, further, left_it, joined, Steps-IsValid}
use joust_backend.Roster.Valid.Crowd.{Moves, crowd_of, Steps-Moves}
use joust_backend.Roster.Admission.{CanAccept, invite-respond}
use joust_backend.Tests.Results.{tournament, world, one_nil, nine}
use joust_backend.Tests.Brackets.{setting, half_played}

abbrev player_account : ℕ → Account
player_account name = record {
  is_guest = false;
  username = some (name ∷ []);
  display_name = none;
  slug = none;
  has_credentials = true;
  is_expired = false;
  created_at = 1;
  expires_at = none;
  entries = [];
}

abbrev same_letter : Name → Name → Bool
same_letter [] name = false
same_letter (c ∷ cs) [] = false
same_letter (c ∷ cs) (d ∷ ds) = c == d

abbrev venue : Venue
venue = record {
  max_players = 3;
  is_private = false;
  tournament = tournament;
  same_name = same_letter;
}

abbrev playing : ℕ → Participant
playing user = record { user_id = user; seed = none; status = ParticipantStatus.active }

abbrev lobby : World
lobby = record world { status = TournamentStatus.opened }

abbrev club : Club
club = record {
  participants = playing 7 ∷ playing 8 ∷ [];
  invitations = [];
  accounts = (7, player_account 97) ∷ (8, player_account 98) ∷ (6, player_account 99) ∷ [];
  world = lobby;
}

club-IsValid : IsValid venue club
unfolding user_ids contains lookup
club-IsValid = ((refl, (refl, tt)), (omega arith, ((λ u h. ground arith), λ id i h. ground arith)))

-- The organizer removes player 8, and player 6 joins.
abbrev smaller : Club
smaller = record club { participants = without 8 club.participants; world = strike 8 lobby }

abbrev exchanged : Club
exchanged = seat_user 6 false smaller

steps : (handle_for : (ℕ → Bool) → Handler) → Steps venue handle_for club exchanged
unfolding leave_tournament without checked first_problem is_open takes_part user_ids contains
    check_tournament_access join_transaction is_full_club is_guest_account lookup
steps handle_for =
    further club smaller exchanged (left_it 8 nine refl)
      (further smaller exchanged exchanged (joined 6 refl) (start exchanged))

abbrev bracket_for : (ℕ → Bool) → Handler
bracket_for gone = handle_match_completion 3 (forfeiting setting gone)

Steps-IsValid_example : IsValid venue exchanged
Steps-IsValid_example = Steps-IsValid venue bracket_for club-IsValid (steps bracket_for)

Steps-Moves_example : Moves 3 (crowd_of club) (crowd_of exchanged)
Steps-Moves_example = Steps-Moves venue bracket_for club-IsValid (steps bracket_for)

invite-respond_example :
    Accepts (λ d. (n : ℕ) × CanAccept venue 6 n d) (invite_tournament_participant venue 1 6 9 club)
invite-respond_example = invite-respond venue 6 9 club 1

abbrev bracket_club : Club
bracket_club = record club { world = half_played }

award_all_terminates_example :
    Yields
      (λ w. budget w ≤ budget half_played)
      (award_all
        (bracket_for (is_forfeited_in (mark_forfeited 7 bracket_club).participants))
        400
        7
        (unplayed_of 7 (mark_forfeited 7 bracket_club).world.matches)
        (mark_forfeited 7 bracket_club).world)
unfolding budget running
award_all_terminates_example = award_all_terminates setting 3 7 bracket_club refl (omega arith)

replace_participant-IsGone_example :
    Accepts (IsGone 7) (replace_participant venue 500 7 (some 6) none club)
replace_participant-IsGone_example =
    replace_participant-IsGone venue 500 7 club club-IsValid (some 6) none

-- Player 7 has reported a win.
abbrev reported_club : Club
reported_club = record club {
  world = record lobby { matches = (1, record one_nil { reported_winner_id = some 7 }) ∷ [] };
}

verify_result-substituted_example :
    verify_result
      (bracket_for (λ u. false))
      tournament
      500
      1
      (substituted 7 6 false reported_club).world
    ≡ refused Refusal.not_a_player
unfolding lookup
verify_result-substituted_example =
    verify_result-substituted (bracket_for (λ u. false)) tournament 500 1 7 6 false reported_club
      (record one_nil { reported_winner_id = some 7 }) refl refl refl refl
