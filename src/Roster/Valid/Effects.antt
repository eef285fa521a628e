-- ===== src/Roster/Valid/Effects.antt =====
-- Each operation of src/tournament/participant/participant.service.ts shifts the roster once.
use joust_backend.Prelude.{
  ℕ, ◌≡◌, refl, sym, subst, leb, Option, none, some, List, [], ◌∷◌, Bool, true, false, not, ◌==◌,
  length, arith,
}
use joust_backend.Prelude.Dict.{lookup, insert, lookup-insert, contains}
use joust_backend.Prelude.Int.{ℤ}
use joust_backend.Match.{InviteStatus, User}
use joust_backend.Guests.{Name}
use joust_backend.Roster.{
  Participant, Invitation, Club, Venue, first_problem, user_ids, takes_part, is_full_club,
  is_guest_account, trim, seat_user, join_transaction, join_tournament, find_user, take_name,
  invitation_not_found, already_answered,
}
use joust_backend.Roster.Registration.{
  seat_new_guest, guest_transaction, join_tournament_as_guest, invitation_of, put_invitation,
  invite_tournament_participant, answer, accept_transaction, respond_to_participant_invitation,
  leave_tournament, update_seed, has_status, update_rows,
}
use joust_backend.Roster.Members.{
  Accepts, checked-Accepts, Bool-Accepts, Option-Accepts, length-user_ids, user_ids-without,
  user_ids-kept, contains-remove,
}
use joust_backend.Roster.Valid.{
  kept, entered, departed, IsKnown, IsValid, Made, take_name-Made, Effect, Made-IsValid,
  made_outside, Made-Effect,
}

module _ (v : Venue) where
  -- A user with an account takes a free seat.
  pub seat_user-Effect :
      (user : ℕ) (is_guest : Bool) (c : Club)
      → IsValid v c
      → IsKnown c.accounts user
      → is_full_club v c ≡ false
      → takes_part user c ≡ false
      → Effect v c (seat_user user is_guest c)
  unfolding seat_user is_full_club takes_part user_ids contains
  seat_user-Effect user is_guest c (distinct, (fits, (known, invited))) there room new = (
    entered user new (ground (arith, length-user_ids c.participants)) refl,
    (λ u h. ground (arith, known u), invited),
  )

  pub join_transaction-Effect :
      (user : ℕ) (c : Club) → IsValid v c → Accepts (Effect v c) (join_transaction v user c)
  unfolding join_transaction first_problem
  join_transaction-Effect user c valid =
      checked-Accepts (Effect v c) _ _
        (λ passed. seat_user-Effect user _ c valid (ground arith) (ground arith) (ground arith))

  pub join_tournament-Effect :
      (user : ℕ) (c : Club) → IsValid v c → Accepts (Effect v c) (join_tournament v user c)
  unfolding join_tournament
  join_tournament-Effect user c valid =
      checked-Accepts (Effect v c) _ _ (λ passed. join_transaction-Effect user c valid)

  seat_new_guest-Effect :
      (now : ℕ) (name : Name) (c : Club)
      → IsValid v c
      → is_full_club v c ≡ false
      → Accepts (Effect v c) (seat_new_guest (take_name v.same_name now name c))
  unfolding seat_new_guest is_full_club takes_part
  seat_new_guest-Effect now name c valid room = go (take_name v.same_name now name c) refl
    where
      seated : (made : ℕ × Club) → Made c made.0 made.1 → Effect v c (seat_user made.0 true made.1)
      seated (id, d) made = Made-Effect v c id d made valid (seat_user id true d) (
          seat_user-Effect id true d (Made-IsValid v c id d made valid) made.1.1.1.1.0
            (subst (λ (ps : List Participant). leb v.max_players (length ps) ≡ false) (sym made.1.0)
              room)
            (made_outside v c id d made valid))

      go :
          (r : Option (ℕ × Club))
          → take_name v.same_name now name c ≡ r
          → Accepts (Effect v c) (seat_new_guest r)
      go none e = tt
      go (some made) e = seated made (take_name-Made v.same_name now name c made e)

  pub guest_transaction-Effect :
      (now : ℕ) (name : Name) (c : Club)
      → IsValid v c
      → Accepts (Effect v c) (guest_transaction v now name c)
  unfolding guest_transaction first_problem
  guest_transaction-Effect now name c (distinct, (fits, (known, invited))) =
      checked-Accepts (Effect v c) _ _ (λ passed.
        Option-Accepts (Effect v c) (find_user v.same_name name c.accounts) _ _
          (λ missing. seat_new_guest-Effect now name c valid (ground arith))
          (λ found h.
            Bool-Accepts (Effect v c) (not found.1.is_guest) _ _ (λ registered. tt)
              (λ guest.
                Bool-Accepts (Effect v c) (takes_part found.0 c) _ _
                  (λ there. (kept refl, (known, invited)))
                  (λ new. seat_new_guest-Effect now name c valid (ground arith)))))
    where
      valid : IsValid v c
      valid = (distinct, (fits, (known, invited)))

  pub join_tournament_as_guest-Effect :
      (now : ℕ) (name : Name) (c : Club)
      → IsValid v c
      → Accepts (Effect v c) (join_tournament_as_guest v now name c)
  unfolding join_tournament_as_guest
  join_tournament_as_guest-Effect now name c valid =
      checked-Accepts (Effect v c) _ _ (λ passed. guest_transaction-Effect now (trim name) c valid)

  pub invite_tournament_participant-Effect :
      (id user invited_by : ℕ) (c : Club)
      → IsValid v c
      → Accepts (Effect v c) (invite_tournament_participant v id user invited_by c)
  unfolding invite_tournament_participant first_problem put_invitation
  invite_tournament_participant-Effect id user invited_by c (distinct, (fits, (known, invited))) =
      checked-Accepts (Effect v c) _ _
        (λ passed. go (ground arith) (invitation_of user c.invitations))
    where
      row : Invitation
      row = record { user_id = user; invited_by = invited_by; status = InviteStatus.pending }

      written :
          (n : ℕ)
          → IsKnown c.accounts user
          → Effect v c (record c { invitations = insert n row c.invitations })
      written n there = (
        kept refl,
        (known, λ k i h. ground (arith, lookup-insert n k row c.invitations, invited k i)),
      )

      go :
          IsKnown c.accounts user
          → (r : Option (ℕ × Invitation))
          → Effect v c (elim r [
            | none ↦ record c { invitations = insert id row c.invitations }
            | some found ↦ record c { invitations = insert found.0 row c.invitations }
          ])
      go there none = written id there
      go there (some found) = written found.0 there

  answer-Effect :
      (status : InviteStatus) (id : ℕ) (i : Invitation) (c d : Club)
      → IsKnown d.accounts i.user_id
      → Effect v c d
      → Effect v c (answer status id i d)
  answer-Effect status id i c d there (shift, (known, invited)) = (
    shift,
    (
      known,
      λ k j h.
          ground
            (arith, lookup-insert id k (record i { status = status }) d.invitations, invited k j),
    ),
  )

  accept_transaction-Effect :
      (id user : ℕ) (i : Invitation) (c : Club)
      → IsValid v c
      → IsKnown c.accounts i.user_id
      → (i.user_id == user) ≡ true
      → Accepts (Effect v c) (accept_transaction v id user i c)
  unfolding accept_transaction first_problem seat_user
  accept_transaction-Effect id user i c valid there same =
      checked-Accepts (Effect v c) _ _ (λ passed.
        let is_guest = is_guest_account (lookup user c.accounts) in
        answer-Effect InviteStatus.accepted id i c (seat_user user is_guest c) there (
          seat_user-Effect user is_guest c valid (subst (IsKnown c.accounts) (ground arith) there)
            (ground arith) (ground arith)))

  pub respond_to_participant_invitation-Effect :
      (id user : ℕ) (accept : Bool) (c : Club)
      → IsValid v c
      → Accepts (Effect v c) (respond_to_participant_invitation v id user accept c)
  unfolding respond_to_participant_invitation first_problem
  respond_to_participant_invitation-Effect id user accept c valid =
      Option-Accepts (Effect v c) (lookup id c.invitations) _ _ (λ missing. tt)
        (λ i found.
          checked-Accepts (Effect v c)
            ((not (i.user_id == user), invitation_not_found)
              ∷ (not (has_status InviteStatus.pending i.status), already_answered)
              ∷ [])
            _
            (λ asked.
              Bool-Accepts (Effect v c) accept _ _
                (λ yes. checked-Accepts (Effect v c) _ _ (λ opened.
                  accept_transaction-Effect id user i c valid (valid.1.1.1 id i found)
                    (ground arith)))
                (λ no.
                  answer-Effect InviteStatus.declined id i c c (valid.1.1.1 id i found)
                    (kept refl, valid.1.1))))

  -- A change of rows that keeps their users.
  pub kept_rows-Effect :
      (user : ℕ) (f : Participant → Participant) (c : Club)
      → ((p : Participant) → (f p).user_id ≡ p.user_id)
      → IsValid v c
      → Effect v c (record c { participants = update_rows user f c.participants })
  kept_rows-Effect user f c same valid = (
    kept (user_ids-kept user f c.participants same),
    (
      λ u h. valid.1.1.0 u (
          subst (λ (ids : List ℕ). contains u ids ≡ true) (user_ids-kept user f c.participants same)
            h),
      valid.1.1.1,
    ),
  )

  pub leave_tournament-Effect :
      (user : ℕ) (requester : Option User) (c : Club)
      → IsValid v c
      → Accepts (Effect v c) (leave_tournament v user requester c)
  unfolding leave_tournament first_problem takes_part
  leave_tournament-Effect user requester c (distinct, (fits, (known, invited))) =
      checked-Accepts (Effect v c) _ _ (λ passed. (
        departed user (ground arith) (user_ids-without user c.participants),
        (
          λ u h. known u (
              ground (
                arith,
                contains-remove user u (user_ids c.participants),
                user_ids-without user c.participants,
              )),
          invited,
        ),
      ))

  pub update_seed-Effect :
      (user : ℕ) (seed : ℤ) (c : Club)
      → IsValid v c
      → Accepts (Effect v c) (update_seed user seed c)
  unfolding update_seed
  update_seed-Effect user seed c valid =
      checked-Accepts (Effect v c) _ _ (λ passed. kept_rows-Effect user _ c (λ p. refl) valid)
