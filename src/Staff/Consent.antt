-- ===== src/Staff/Consent.antt =====
-- Nobody manages a tournament without having been invited and having accepted, in
-- src/organizer/organizer.service.ts.
use joust_backend.Prelude.{
  ℕ, ◌≡◌, refl, Option, none, some, List, [], ◌∷◌, Bool, true, false, not, any, ◌&&◌, ◌||◌, ◌==◌,
  if◌then◌else◌, arith,
}
use joust_backend.Prelude.Dict.{Dict, lookup}
use joust_backend.Match.{User, InviteStatus}
use joust_backend.Staff.{
  StaffRow, StaffReply, now_staff, denied, first_denial, allowed_to, is_outsider, row_of, standing,
  is_accepted, is_waiting, put_pending, invite, set_status, answer_of, respond, remove_row,
  revoke_staff, invitation_not_found, already_answered,
}

-- A call of the service, with the user that makes it.
pub data Call : Type 0 where
  invites : (id target : ℕ) (actor : User) → Call
  responds : (id user : ℕ) (accept : Bool) → Call
  revokes : (target : ℕ) (actor : User) → Call

module _ (created_by : Option ℕ) (may_organize : ℕ → Option Bool) where
  unfoldable pub reply_to : Call → Dict StaffRow → StaffReply
  reply_to (invites id target actor) rows = invite created_by may_organize id target actor rows
  reply_to (responds id user accept) rows = respond id user accept rows
  reply_to (revokes target actor) rows = revoke_staff created_by target actor rows

  -- A call that is refused changes nothing.
  unfoldable pub after : Call → Dict StaffRow → Dict StaffRow
  after call rows = elim (reply_to call rows) [ now_staff new ↦ new | denied why ↦ rows ]

  unfoldable pub after_all : List Call → Dict StaffRow → Dict StaffRow
  after_all [] rows = rows
  after_all (call ∷ calls) rows = after_all calls (after call rows)

-- What a call can have to do with the standing of a user.
unfoldable pub is_invitation : Option ℕ → ℕ → Call → Bool
is_invitation created_by user (invites id target actor) =
    target == user && not (is_outsider created_by actor)
is_invitation created_by user (responds id other accept) = false
is_invitation created_by user (revokes target actor) = false

unfoldable pub is_consent : ℕ → Call → Bool
is_consent user (invites id target actor) = false
is_consent user (responds id other accept) = other == user && accept
is_consent user (revokes target actor) = false

standing-put_pending :
    (id target actor user : ℕ) (rows : Dict StaffRow)
    → standing user (put_pending id target actor rows)
      ≡ (if target == user then some InviteStatus.pending else standing user rows)
unfolding standing row_of put_pending
standing-put_pending id target actor user [] = ground arith
standing-put_pending id target actor user ((k, r) ∷ rest) =
    ground (arith, standing-put_pending id target actor user rest)

-- An answer makes somebody staff who was waiting, and makes nobody wait.
set_status_accepted :
    (id user : ℕ) (accept : Bool) (rows : Dict StaffRow) (r : StaffRow)
    → lookup id rows ≡ some r
    → is_waiting (some r.status) ≡ true
    → is_accepted (standing user (set_status id (answer_of accept) rows)) ≡ true
    → (is_accepted (standing user rows)
        || (is_waiting (standing user rows) && (r.user_id == user && accept)))
      ≡ true
unfolding standing row_of set_status lookup
set_status_accepted id user accept [] r here waits done = ground arith
set_status_accepted id user accept ((k, x) ∷ rest) r here waits done =
    ground (arith, set_status_accepted id user accept rest r)

set_status_waiting :
    (id user : ℕ) (accept : Bool) (rows : Dict StaffRow)
    → is_waiting (standing user (set_status id (answer_of accept) rows)) ≡ true
    → is_waiting (standing user rows) ≡ true
unfolding standing row_of set_status
set_status_waiting id user accept [] h = h
set_status_waiting id user accept ((k, x) ∷ rest) h =
    ground (arith, set_status_waiting id user accept rest)

standing-remove_row :
    (target user : ℕ) (rows : Dict StaffRow)
    → standing user (remove_row target rows) ≡ (if target == user then none else standing user rows)
unfolding standing row_of remove_row
standing-remove_row target user [] = ground arith
standing-remove_row target user ((k, r) ∷ rest) =
    ground (arith, standing-remove_row target user rest)

module _ (created_by : Option ℕ) (may_organize : ℕ → Option Bool) (user : ℕ) where
  abbrev next : Call → Dict StaffRow → Option InviteStatus
  next call rows = standing user (after created_by may_organize call rows)

  -- What one call can do.
  one_call :
      (call : Call) (rows : Dict StaffRow)
      → ((is_accepted (next call rows) ≡ true
            → (is_accepted (standing user rows)
                || (is_waiting (standing user rows) && is_consent user call))
              ≡ true)
          × (is_waiting (next call rows) ≡ true
              → (is_waiting (standing user rows) || is_invitation created_by user call) ≡ true))
  unfolding after reply_to invite respond revoke_staff allowed_to first_denial is_consent
      is_invitation
  one_call (invites id target actor) rows = (
    λ h. ground (arith, standing-put_pending id target actor.user_id user rows),
    λ h. ground (arith, standing-put_pending id target actor.user_id user rows),
  )
  one_call (responds id other accept) rows = go (lookup id rows) refl
    where
      reply : Option StaffRow → StaffReply
      reply found = elim found [
        | none ↦ denied invitation_not_found
        | some r ↦
            allowed_to
              ((not (r.user_id == other), invitation_not_found)
                ∷ (not (is_waiting (some r.status)), already_answered)
                ∷ [])
              (set_status id (answer_of accept) rows)
      ]

      left : Option StaffRow → Option InviteStatus
      left found = standing user (elim (reply found) [ now_staff new ↦ new | denied why ↦ rows ])

      go :
          (found : Option StaffRow)
          → lookup id rows ≡ found
          → ((is_accepted (left found) ≡ true
                → (is_accepted (standing user rows)
                    || (is_waiting (standing user rows) && (other == user && accept)))
                  ≡ true)
              × (is_waiting (left found) ≡ true
                  → (is_waiting (standing user rows) || false) ≡ true))
      go none e = (λ h. ground arith, λ h. ground arith)
      go (some r) e = (
        λ h. ground (arith, set_status_accepted id user accept rows r e),
        λ h. ground (arith, set_status_waiting id user accept rows),
      )
  one_call (revokes target actor) rows = (
    λ h. ground (arith, standing-remove_row target user rows),
    λ h. ground (arith, standing-remove_row target user rows),
  )

  -- An invitation, and later the user's consent.
  unfoldable pub is_recruited : List Call → Bool
  is_recruited [] = false
  is_recruited (call ∷ calls) =
      (is_invitation created_by user call && any (is_consent user) calls) || is_recruited calls

  recruited_from :
      (calls : List Call) (rows : Dict StaffRow)
      → is_accepted (standing user (after_all created_by may_organize calls rows)) ≡ true
      → (is_accepted (standing user rows)
          || ((is_waiting (standing user rows) && any (is_consent user) calls)
              || is_recruited calls))
        ≡ true
  unfolding after_all is_recruited
  recruited_from [] rows h = ground arith
  recruited_from (call ∷ calls) rows h =
      ground (
        arith,
        one_call call rows,
        recruited_from calls (after created_by may_organize call rows) h,
      )

-- Whatever calls are made from an empty staff, a user who ends up managing the tournament has been
-- invited by its creator or an admin, and has accepted afterwards.
pub after_all-is_recruited :
    (created_by : Option ℕ) (may_organize : ℕ → Option Bool) (user : ℕ) (calls : List Call)
    → is_accepted (standing user (after_all created_by may_organize calls [])) ≡ true
    → is_recruited created_by may_organize user calls ≡ true
unfolding standing row_of
after_all-is_recruited created_by may_organize user calls h =
    ground (arith, recruited_from created_by may_organize user calls [] h)
