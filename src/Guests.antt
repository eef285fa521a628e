-- ===== src/Guests.antt =====
-- The lifecycle of a guest: src/user/guest-lifecycle.ts, and `purgeExpiredGuests` of
-- src/auth/auth.service.ts. Times are milliseconds.
pub mod Retention
pub mod Conversion
pub mod Lifetime
use joust_backend.Prelude.{
  ℕ, ◌+◌, Option, none, some, or_else, is_some, List, [], ◌∷◌, map, Bool, true, false, not, any,
  leb, ltb, ◌&&◌, ◌||◌, min, if◌then◌else◌,
}
use joust_backend.Prelude.Dict.{Dict}
use joust_backend.Match.{TournamentStatus}
use joust_backend.Completion.{is_over}

-- A name by its characters.
abbrev pub Name : Type 0
Name = List ℕ

-- `retentionMs`: thirty days.
abbrev pub retention_ms : ℕ
retention_ms = 2592000000

-- What `guestHistoryInclude` reads of one tournament of the guest.
pub record GuestEntry : Type 0 where
  pub status : TournamentStatus
  pub completed_at : Option ℕ
  pub guest_cleanup_at : Option ℕ

-- A row of `User`, as far as guests need it, with the tournaments it has taken part in.
pub record Account : Type 0 where
  pub is_guest : Bool
  pub username : Option Name
  pub display_name : Option Name
  pub slug : Option Name
  pub has_credentials : Bool
  pub is_expired : Bool
  pub created_at : ℕ
  pub expires_at : Option ℕ
  pub entries : List GuestEntry

-- The truthiness of a name that may be null: the empty name counts as none.
abbrev pub has_name : Option Name → Bool
has_name none = false
has_name (some []) = false
has_name (some (c ∷ cs)) = true

unfoldable pub is_unfinished : GuestEntry → Bool
is_unfinished e = not (is_over e.status)

-- The end of the window that one tournament leaves.
unfoldable pub entry_deadline : Account → GuestEntry → ℕ
entry_deadline a e = elim e.completed_at [
  | some time ↦ time + retention_ms
  | none ↦
      or_else (elim e.guest_cleanup_at [ some time ↦ some time | none ↦ a.expires_at ])
        (a.created_at + retention_ms)
]

-- `Math.min` of one number and the others.
unfoldable pub earliest : ℕ → List ℕ → ℕ
earliest first [] = first
earliest first (time ∷ times) = min first (earliest time times)

unfoldable pub deadline_of : Account → List ℕ → ℕ
deadline_of a [] = or_else a.expires_at (a.created_at + retention_ms)
deadline_of a (time ∷ times) = earliest time times

-- `guestDeadline`
unfoldable pub guest_deadline : Account → Option ℕ
guest_deadline a =
    if any is_unfinished a.entries
    then none
    else some (deadline_of a (map (entry_deadline a) a.entries))

pub data ClaimProblem : Type 0 where
  has_account name_reassigned window_expired : ClaimProblem

-- `deadline && deadline <= now`
unfoldable pub is_past : ℕ → Option ℕ → Bool
is_past now none = false
is_past now (some deadline) = leb deadline now

-- `guestClaimProblem`
unfoldable pub guest_claim_problem : ℕ → Account → Option ClaimProblem
guest_claim_problem now a =
    if not a.is_guest
    then some has_account
    else if not (has_name a.username)
    then some name_reassigned
    else if is_past now (guest_deadline a)
    then some window_expired
    else none

-- `displayName || username`
abbrev shown_name : Option Name → Option Name → Option Name
shown_name display username = if has_name display then display else username

-- The update of `retireGuest`. Roles, mail address and profile are those of nobody afterwards.
unfoldable pub retired : ℕ → Account → Account
retired now a = record a {
  username = none;
  slug = none;
  display_name = shown_name a.display_name a.username;
  is_expired = true;
  expires_at = some now;
  has_credentials = false;
}

-- `retireGuest`: nothing is the exception for a guest in an unfinished tournament.
unfoldable pub retire_guest : ℕ → Account → Option Account
retire_guest now a =
    if not a.is_guest || not (has_name a.username)
    then some a
    else if any is_unfinished a.entries
    then none
    else some (retired now a)

-- One guest of `purgeExpiredGuests`, whose exception is logged and passed over.
unfoldable pub purge_guest : ℕ → Account → Account
purge_guest now a =
    if a.is_guest && is_some a.username && is_past now (guest_deadline a)
    then (if has_name a.username then or_else (retire_guest now a) a else a)
    else a

-- `purgeExpiredGuests`, with the rows read again as they were.
unfoldable pub purge_expired_guests : ℕ → Dict Account → Dict Account
purge_expired_guests now [] = []
purge_expired_guests now ((id, a) ∷ rest) = (id, purge_guest now a) ∷ purge_expired_guests now rest
