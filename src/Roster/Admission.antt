-- ===== src/Roster/Admission.antt =====
-- Who gets a seat: joining and answering an invitation, in
-- src/tournament/participant/participant.service.ts.
use joust_backend.Prelude.{ℕ, ◌≡◌, refl, Option, none, some, List, Bool, true, false, arith}
use joust_backend.Prelude.Dict.{lookup, insert, lookup-insert, contains}
use joust_backend.Match.{InviteStatus}
use joust_backend.Roster.{
  Invitation, Club, Venue, RosterReply, accepted, rejected, Problem, first_problem, checked,
  user_ids, takes_part, is_open, is_full_club, is_guest_account, seat_user, already_answered,
}
use joust_backend.Roster.Registration.{
  invitation_of, put_invitation, invite_tournament_participant, answer, accept_transaction,
  respond_to_participant_invitation,
}
use joust_backend.Roster.Members.{Accepts, checked-Accepts}

checked_pass :
    (guards : List (Bool × Problem)) (rest : RosterReply)
    → first_problem guards ≡ none
    → checked guards rest ≡ rest
unfolding checked
checked_pass guards rest h = rw (h, checked) refl

-- The user can answer the invitation once: accepting it gives a seat, and any later answer to it is
-- refused.
abbrev pub CanAccept : Venue → ℕ → ℕ → Club → Type 0
CanAccept v user n d =
    (e : Club) × ((respond_to_participant_invitation v n user true d ≡ accepted e)
      × ((takes_part user e ≡ true)
          × ((again : Bool)
              → respond_to_participant_invitation v n user again e ≡ rejected already_answered)))

module _ (v : Venue) (user invited_by : ℕ) (c : Club) where
  abbrev row : Invitation
  row = record { user_id = user; invited_by = invited_by; status = InviteStatus.pending }

  -- The rows after the acceptance.
  abbrev admitted : ℕ → Club
  admitted n = answer InviteStatus.accepted n row (
      seat_user user (is_guest_account (lookup user c.accounts))
        (record c { invitations = insert n row c.invitations }))

  written_CanAccept :
      (n : ℕ)
      → is_open c ≡ true
      → is_full_club v c ≡ false
      → takes_part user c ≡ false
      → CanAccept v user n (record c { invitations = insert n row c.invitations })
  unfolding respond_to_participant_invitation accept_transaction checked first_problem is_open
      is_full_club takes_part user_ids contains seat_user
  written_CanAccept n opened room new = (
    admitted n,
    (
      ground (arith, lookup-insert n n row c.invitations),
      (
        ground arith,
        λ again. ground (
          arith,
          lookup-insert n n (record row { status = InviteStatus.accepted })
              (insert n row c.invitations),
        ),
      ),
    ),
  )

  -- An invitation that is sent can be accepted as long as nothing else happens: the user gets a seat,
  -- and no later answer to it is accepted.
  pub invite-respond :
      (id : ℕ)
      → Accepts
          (λ d. (n : ℕ) × CanAccept v user n d)
          (invite_tournament_participant v id user invited_by c)
  unfolding invite_tournament_participant first_problem put_invitation
  invite-respond id =
      checked-Accepts (λ d. (n : ℕ) × CanAccept v user n d) _ _
        (λ passed.
          go (ground arith) (ground arith) (ground arith) (invitation_of user c.invitations))
    where
      go :
          is_open c ≡ true
          → is_full_club v c ≡ false
          → takes_part user c ≡ false
          → (r : Option (ℕ × Invitation))
          → (n : ℕ) × CanAccept v user n (elim r [
            | none ↦ record c { invitations = insert id row c.invitations }
            | some found ↦ record c { invitations = insert found.0 row c.invitations }
          ])
      go opened room new none = (id, written_CanAccept id opened room new)
      go opened room new (some found) = (found.0, written_CanAccept found.0 opened room new)
