-- ===== src/Staff.antt =====
-- The staff of a tournament: src/organizer/organizer.service.ts, for one tournament that exists.
-- Notifications and socket messages are left out.
pub mod Consent
use joust_backend.Prelude.{
  ℕ, Option, none, some, is_some, List, [], ◌∷◌, Bool, true, false, not, ◌&&◌, ◌||◌, ◌==◌, ◌==?◌,
  if◌then◌else◌,
}
use joust_backend.Prelude.Dict.{Dict, lookup, insert}
use joust_backend.Match.{User, InviteStatus}

-- A row of `TournamentOrganizer`.
pub record StaffRow : Type 0 where
  pub user_id : ℕ
  pub invited_by : ℕ
  pub status : InviteStatus

pub data StaffProblem : Type 0 where
  not_creator creator_manages user_not_found not_an_organizer already_manages already_pending
        invitation_not_found already_answered not_staff :
      StaffProblem

pub data StaffReply : Type 0 where
  now_staff : Dict StaffRow → StaffReply
  denied : StaffProblem → StaffReply

unfoldable pub first_denial : List (Bool × StaffProblem) → Option StaffProblem
first_denial [] = none
first_denial ((fails, why) ∷ guards) = if fails then some why else first_denial guards

unfoldable pub allowed_to : List (Bool × StaffProblem) → Dict StaffRow → StaffReply
unfolding first_denial
allowed_to guards rows = elim (first_denial guards) [
  | some why ↦ denied why
  | none ↦ now_staff rows
]

-- The guard of `assertCreatorOrAdmin`.
unfoldable pub is_outsider : Option ℕ → User → Bool
is_outsider created_by actor = not (created_by ==? some actor.user_id) && not actor.is_admin

-- The row of a user, which is unique, with its id.
unfoldable pub row_of : ℕ → Dict StaffRow → Option (ℕ × StaffRow)
row_of user [] = none
row_of user ((id, r) ∷ rest) =
    let others = row_of user rest in if r.user_id == user then some (id, r) else others

-- The status of a user among the staff.
unfoldable pub standing : ℕ → Dict StaffRow → Option InviteStatus
standing user rows = elim (row_of user rows) [ none ↦ none | some found ↦ some found.1.status ]

abbrev pub is_accepted : Option InviteStatus → Bool
is_accepted (some InviteStatus.accepted) = true
is_accepted (some InviteStatus.pending) = false
is_accepted (some InviteStatus.declined) = false
is_accepted none = false

abbrev pub is_waiting : Option InviteStatus → Bool
is_waiting (some InviteStatus.pending) = true
is_waiting (some InviteStatus.accepted) = false
is_waiting (some InviteStatus.declined) = false
is_waiting none = false

-- `upsert`: `id` is the id of a new row.
unfoldable pub put_pending : ℕ → ℕ → ℕ → Dict StaffRow → Dict StaffRow
put_pending id target actor [] =
    (id, record { user_id = target; invited_by = actor; status = InviteStatus.pending }) ∷ []
put_pending id target actor ((k, r) ∷ rest) =
    let others = put_pending id target actor rest in
    if r.user_id == target
    then (k, record r { invited_by = actor; status = InviteStatus.pending }) ∷ rest
    else (k, r) ∷ others

-- `invite`: `may_organize` says whether a user has the role of an organizer or of an admin, for the
-- users that exist.
unfoldable pub invite : Option ℕ → (ℕ → Option Bool) → ℕ → ℕ → User → Dict StaffRow → StaffReply
invite created_by may_organize id target actor rows =
    allowed_to
      ((is_outsider created_by actor, not_creator)
        ∷ (created_by ==? some target, creator_manages)
        ∷ (not (is_some (may_organize target)), user_not_found)
        ∷ (
          elim (may_organize target) [ none ↦ true | some has_role ↦ not has_role ],
          not_an_organizer,
        )
        ∷ (is_accepted (standing target rows), already_manages)
        ∷ (is_waiting (standing target rows), already_pending)
        ∷ [])
      (put_pending id target actor.user_id rows)

-- The row with this id, changed.
unfoldable pub set_status : ℕ → InviteStatus → Dict StaffRow → Dict StaffRow
set_status id status [] = []
set_status id status ((k, r) ∷ rest) =
    let others = set_status id status rest in
    if k == id then (k, record r { status = status }) ∷ rest else (k, r) ∷ others

abbrev pub answer_of : Bool → InviteStatus
answer_of true = InviteStatus.accepted
answer_of false = InviteStatus.declined

-- `respond`
unfoldable pub respond : ℕ → ℕ → Bool → Dict StaffRow → StaffReply
respond id user accept rows = elim (lookup id rows) [
  | none ↦ denied invitation_not_found
  | some r ↦
      allowed_to
        ((not (r.user_id == user), invitation_not_found)
          ∷ (not (is_waiting (some r.status)), already_answered)
          ∷ [])
        (set_status id (answer_of accept) rows)
]

-- `delete` of the row of a user, which is the only one.
unfoldable pub remove_row : ℕ → Dict StaffRow → Dict StaffRow
remove_row target [] = []
remove_row target ((k, r) ∷ rest) =
    let others = remove_row target rest in if r.user_id == target then others else (k, r) ∷ others

-- `revoke`
unfoldable pub revoke_staff : Option ℕ → ℕ → User → Dict StaffRow → StaffReply
revoke_staff created_by target actor rows =
    allowed_to
      ((is_outsider created_by actor, not_creator)
        ∷ (not (is_some (row_of target rows)), not_staff)
        ∷ [])
      (remove_row target rows)
