-- ===== src/Roster/Registration.antt =====
-- The other operations of src/tournament/participant/participant.service.ts on a tournament that is
-- open: guests, invitations, leaving and seeding.
use joust_backend.Prelude.{
  ℕ, Option, none, some, is_some, List, [], ◌∷◌, Bool, true, false, not, ◌&&◌, ◌||◌, ◌==◌,
  if◌then◌else◌,
}
use joust_backend.Prelude.Dict.{Dict, lookup, insert}
use joust_backend.Prelude.Int.{ℤ}
use joust_backend.Match.{World, User, InviteStatus, check_tournament_access, is_allowed}
use joust_backend.Guests.{Name}
use joust_backend.Roster.{
  Participant, Invitation, Club, Venue, RosterReply, accepted, rejected, checked, takes_part,
  is_open, is_full_club, is_guest_account, seat_user, trim, find_user, take_name, already_started,
  full, private_tournament, blank_name, registered_name, name_in_use, already_invited,
  already_accepted, invitation_not_found, already_answered, not_participating, no_permission,
  user_not_found, already_joined,
}

abbrev is_blank : Name → Bool
is_blank [] = true
is_blank (c ∷ cs) = false

-- The new guest in the roster.
unfoldable pub seat_new_guest : Option (ℕ × Club) → RosterReply
seat_new_guest none = rejected name_in_use
seat_new_guest (some made) = accepted (seat_user made.0 true made.1)

-- The transaction of `joinTournamentAsGuest`: a guest of that name who takes part already is
-- returned as it is.
unfoldable pub guest_transaction : Venue → ℕ → Name → Club → RosterReply
guest_transaction v now name c =
    checked ((is_full_club v c, full) ∷ []) (elim (find_user v.same_name name c.accounts) [
      | none ↦ seat_new_guest (take_name v.same_name now name c)
      | some found ↦
          if not found.1.is_guest
          then rejected registered_name
          else if takes_part found.0 c
          then accepted c
          else seat_new_guest (take_name v.same_name now name c)
    ])

-- `joinTournamentAsGuest`
unfoldable pub join_tournament_as_guest : Venue → ℕ → Name → Club → RosterReply
join_tournament_as_guest v now username c =
    checked
      ((not (is_open c), already_started)
        ∷ (is_full_club v c, full)
        ∷ (v.is_private, private_tournament)
        ∷ (is_blank (trim username), blank_name)
        ∷ [])
      (guest_transaction v now (trim username) c)

-- The invitation of a user, whose row is unique, with its id.
unfoldable pub invitation_of : ℕ → Dict Invitation → Option (ℕ × Invitation)
invitation_of user [] = none
invitation_of user ((id, i) ∷ rest) =
    let others = invitation_of user rest in if i.user_id == user then some (id, i) else others

abbrev pub has_status : InviteStatus → InviteStatus → Bool
has_status InviteStatus.pending InviteStatus.pending = true
has_status InviteStatus.accepted InviteStatus.accepted = true
has_status InviteStatus.declined InviteStatus.declined = true
has_status expected actual = false

unfoldable pub invited_with : InviteStatus → Option (ℕ × Invitation) → Bool
invited_with status none = false
invited_with status (some found) = has_status status found.1.status

-- `upsert`: `id` is the id of a new row.
unfoldable pub put_invitation : ℕ → ℕ → ℕ → Club → Club
put_invitation id user invited_by c =
    let row : Invitation = record {
      user_id = user;
      invited_by = invited_by;
      status = InviteStatus.pending;
    } in
    elim (invitation_of user c.invitations) [
      | none ↦ record c { invitations = insert id row c.invitations }
      | some found ↦ record c { invitations = insert found.0 row c.invitations }
    ]

-- `inviteTournamentParticipant`
unfoldable pub invite_tournament_participant : Venue → ℕ → ℕ → ℕ → Club → RosterReply
invite_tournament_participant v id user invited_by c =
    let existing = invitation_of user c.invitations in
    checked
      ((not (is_open c), already_started)
        ∷ (is_full_club v c, full)
        ∷ (
          not (is_some (lookup user c.accounts)) || is_guest_account (lookup user c.accounts),
          user_not_found,
        )
        ∷ (takes_part user c, already_joined)
        ∷ (invited_with InviteStatus.pending existing, already_invited)
        ∷ (invited_with InviteStatus.accepted existing, already_accepted)
        ∷ [])
      (accepted (put_invitation id user invited_by c))

abbrev pub answer : InviteStatus → ℕ → Invitation → Club → Club
answer status id i c = record c {
  invitations = insert id (record i { status = status }) c.invitations;
}

-- The transaction of an invitation that is accepted.
unfoldable pub accept_transaction : Venue → ℕ → ℕ → Invitation → Club → RosterReply
accept_transaction v id user i c =
    checked ((is_full_club v c, full) ∷ (takes_part user c, already_joined) ∷ []) (
      accepted (
        answer InviteStatus.accepted id i
          (seat_user user (is_guest_account (lookup user c.accounts)) c)))

-- `respondToParticipantInvitation`
unfoldable pub respond_to_participant_invitation : Venue → ℕ → ℕ → Bool → Club → RosterReply
respond_to_participant_invitation v id user accept c = elim (lookup id c.invitations) [
  | none ↦ rejected invitation_not_found
  | some i ↦
      checked
        ((not (i.user_id == user), invitation_not_found)
          ∷ (not (has_status InviteStatus.pending i.status), already_answered)
          ∷ [])
        (if accept
          then checked ((not (is_open c), already_started) ∷ []) (accept_transaction v id user i c)
          else accepted (answer InviteStatus.declined id i c))
]

-- `delete` of the participant, with the statistics that hang on the row.
unfoldable pub without : ℕ → List Participant → List Participant
without user [] = []
without user (p ∷ ps) = let rest = without user ps in if p.user_id == user then rest else p ∷ rest

unfoldable pub strike : ℕ → World → World
strike user w = record w {
  stats = record w.stats {
    participant = λ j. if user == j then none else w.stats.participant j;
    stats = λ j. if user == j then none else w.stats.stats j;
  };
}

abbrev is_self : Option User → ℕ → Bool
is_self none user = false
is_self (some requester) user = requester.user_id == user

-- `leaveTournament`
unfoldable pub leave_tournament : Venue → ℕ → Option User → Club → RosterReply
leave_tournament v user requester c =
    checked
      ((not (is_open c), already_started)
        ∷ (not (takes_part user c), not_participating)
        ∷ (
          not (is_self requester user)
              && not (is_allowed (check_tournament_access (some v.tournament) requester)),
          no_permission,
        )
        ∷ [])
      (accepted
        (record c { participants = without user c.participants; world = strike user c.world }))

-- The rows of a user, changed.
unfoldable pub update_rows : ℕ → (Participant → Participant) → List Participant → List Participant
update_rows user f [] = []
update_rows user f (p ∷ ps) = (if p.user_id == user then f p else p) ∷ update_rows user f ps

-- `updateSeed`
unfoldable pub update_seed : ℕ → ℤ → Club → RosterReply
update_seed user seed c =
    checked ((not (is_open c), already_started) ∷ (not (takes_part user c), not_participating) ∷ [])
      (accepted (record c {
        participants =
            update_rows user (λ (p : Participant). record p { seed = some seed }) c.participants;
      }))
