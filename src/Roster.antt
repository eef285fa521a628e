-- ===== src/Roster.antt =====
-- The participants of a tournament: the registration of
-- src/tournament/participant/participant.service.ts. An operation reads and writes one tournament
-- that exists. Notifications and socket messages are left out.
pub mod Registration
pub mod Play
pub mod Members
pub mod Valid
pub mod Admission
use joust_backend.Prelude.{
  ℕ, suc, ◌+◌, Option, none, some, is_some, List, [], ◌∷◌, map, Bool, true, false, not, ltb, leb,
  ◌&&◌, ◌||◌, ◌==◌, any, max, length, if◌then◌else◌,
}
use joust_backend.Prelude.Dict.{Dict, lookup, insert, contains}
use joust_backend.Prelude.Int.{ℤ}
use joust_backend.Stats.{StatsDb, StatsRow, blank_stats, Table, put}
use joust_backend.Match.{
  TournamentStatus, World, Tournament, User, InviteStatus, check_tournament_access, is_allowed,
}
use joust_backend.Launch.{is_opened}
use joust_backend.Guests.{Account, GuestEntry, Name, has_name, retire_guest}

-- A row of `TournamentParticipant`; `ParticipantStatus` is ACTIVE or FORFEITED.
pub data ParticipantStatus : Type 0 where
  active forfeited : ParticipantStatus

pub record Participant : Type 0 where
  pub user_id : ℕ
  pub seed : Option ℤ
  pub status : ParticipantStatus

-- A row of `TournamentParticipantInvite`. Its status has the values of an organizer's invitation.
pub record Invitation : Type 0 where
  pub user_id : ℕ
  pub invited_by : ℕ
  pub status : InviteStatus

-- The rows that the service works on. `accounts` holds the users by their ids, each with the other
-- tournaments it takes part in.
pub record Club : Type 0 where
  pub participants : List Participant
  pub invitations : Dict Invitation
  pub accounts : Dict Account
  pub world : World

-- What does not change: `maxPlayers`, `isPrivate`, the staff, and the comparison of the database
-- that ignores the case of letters.
pub record Venue : Type 0 where
  pub max_players : ℕ
  pub is_private : Bool
  pub tournament : Tournament
  pub same_name : Name → Name → Bool

-- The exceptions. `unique_key_taken` is the database's, for two rows with one user.
pub data Problem : Type 0 where
  already_started full user_not_found guest_needs_staff already_joined unique_key_taken
        private_tournament blank_name registered_name name_in_use already_invited already_accepted
        invitation_not_found already_answered not_participating no_permission not_manageable
        already_played already_participating substitute_missing bracket_failed :
      Problem

pub data RosterReply : Type 0 where
  accepted : Club → RosterReply
  rejected : Problem → RosterReply

unfoldable pub first_problem : List (Bool × Problem) → Option Problem
first_problem [] = none
first_problem ((fails, why) ∷ guards) = if fails then some why else first_problem guards

-- Guards in the order of the source, and what follows when none of them throws.
unfoldable pub checked : List (Bool × Problem) → RosterReply → RosterReply
unfolding first_problem
checked guards rest = elim (first_problem guards) [ some why ↦ rejected why | none ↦ rest ]

unfoldable pub user_ids : List Participant → List ℕ
user_ids [] = []
user_ids (p ∷ ps) = p.user_id ∷ user_ids ps

unfoldable pub takes_part : ℕ → Club → Bool
takes_part user c = contains user (user_ids c.participants)

unfoldable pub is_open : Club → Bool
is_open c = is_opened c.world.status

unfoldable pub is_full_club : Venue → Club → Bool
is_full_club v c = leb v.max_players (length c.participants)

unfoldable pub is_guest_account : Option Account → Bool
is_guest_account none = false
is_guest_account (some a) = a.is_guest

-- The rows that come with a participant: the statistics, and the entry in the table of entrants.
unfoldable pub enrol : ℕ → Bool → World → World
enrol user is_guest w = record w {
  stats = record w.stats {
    participant = put user is_guest w.stats.participant;
    stats = put user blank_stats w.stats.stats;
  };
}

-- `tournamentParticipant.create` and `tournamentParticipantStats.create`.
unfoldable pub seat_user : ℕ → Bool → Club → Club
seat_user user is_guest c = record c {
  participants = record { user_id = user; seed = none; status = active } ∷ c.participants;
  world = enrol user is_guest c.world;
}

-- The checks of `joinTournament` before its transaction.
unfoldable pub join_guards : Venue → ℕ → Club → List (Bool × Problem)
join_guards v user c =
    (not (is_open c), already_started)
    ∷ (is_full_club v c, full)
    ∷ (not (is_some (lookup user c.accounts)), user_not_found)
    ∷ (is_guest_account (lookup user c.accounts), guest_needs_staff)
    ∷ (takes_part user c, already_joined)
    ∷ []

-- The transaction of `joinTournament`, which may find another roster than the checks did. The two
-- keys of a row are the database's: the user exists, and has no row yet.
unfoldable pub join_transaction : Venue → ℕ → Club → RosterReply
join_transaction v user c =
    checked
      ((is_full_club v c, full)
        ∷ (not (is_some (lookup user c.accounts)), user_not_found)
        ∷ (takes_part user c, unique_key_taken)
        ∷ [])
      (accepted (seat_user user (is_guest_account (lookup user c.accounts)) c))

-- `joinTournament`
unfoldable pub join_tournament : Venue → ℕ → Club → RosterReply
join_tournament v user c = checked (join_guards v user c) (join_transaction v user c)

-- White space, as `trim` takes it.
unfoldable pub is_space : ℕ → Bool
is_space c =
    (leb 9 c && leb c 13)
    || ((leb 8192 c && leb c 8202)
        || contains c (32 ∷ 160 ∷ 5760 ∷ 8232 ∷ 8233 ∷ 8239 ∷ 8287 ∷ 12288 ∷ 65279 ∷ []))

unfoldable pub trim_start : Name → Name
trim_start [] = []
trim_start (c ∷ cs) = let rest = trim_start cs in if is_space c then rest else c ∷ cs

unfoldable pub trim_end : Name → Name
trim_end [] = []
trim_end (c ∷ cs) = elim (trim_end cs) [
  | [] ↦ if is_space c then [] else c ∷ []
  | d ∷ ds ↦ c ∷ d ∷ ds
]

-- `name.trim()`
unfoldable pub trim : Name → Name
trim name = trim_end (trim_start name)

-- `findFirst` by a name.
unfoldable pub find_user : (Name → Name → Bool) → Name → Dict Account → Option (ℕ × Account)
find_user same_name name [] = none
find_user same_name name ((id, a) ∷ rest) =
    let others = find_user same_name name rest in
    elim a.username [
      | none ↦ others
      | some other ↦ if same_name other name then some (id, a) else others
    ]

-- An id that no account has.
unfoldable pub fresh_account_id : Dict Account → ℕ
fresh_account_id [] = 0
fresh_account_id ((id, a) ∷ rest) = max (suc id) (fresh_account_id rest)

-- The row of a new guest.
unfoldable pub new_guest : ℕ → Name → Account
new_guest now name = record {
  is_guest = true;
  username = some name;
  display_name = none;
  slug = none;
  has_credentials = false;
  is_expired = false;
  created_at = now;
  expires_at = none;
  entries = [];
}

-- A user's tournaments as `guestHistoryInclude` reads them, with this one when the user is in it.
-- `guestCleanupAt` of this tournament is not read before it is completed.
unfoldable pub with_history : ℕ → Club → Account → Account
with_history user c a =
    if takes_part user c
    then record a {
      entries =
          record {
            status = c.world.status;
            completed_at = c.world.completed_at;
            guest_cleanup_at = none;
          }
          ∷ a.entries;
    }
    else a

-- The guest whose name is taken over. A guest whose name is empty is not retired, so that the name of
-- the new account is not unique, which the database refuses.
unfoldable pub released : ℕ → ℕ → Club → Account → Option Account
released now id c a = if has_name a.username then retire_guest now (with_history id c a) else none

-- A new account, and the old one of the same name retired. Nothing is the exception.
unfoldable pub take_name : (Name → Name → Bool) → ℕ → Name → Club → Option (ℕ × Club)
take_name same_name now name c =
    let made = fresh_account_id c.accounts in
    elim (find_user same_name name c.accounts) [
      | none ↦ some (made, record c { accounts = insert made (new_guest now name) c.accounts })
      | some found ↦ elim (released now found.0 c found.1) [
        | none ↦ none
        | some a ↦ some (
          made,
          record c {
            accounts =
                insert made (new_guest now name)
                  (insert found.0 (record a { entries = found.1.entries }) c.accounts);
          },
        )
      ]
    ]
