-- ===== src/Guests/Retention.antt =====
-- Who keeps a name, after `purgeExpiredGuests` of src/auth/auth.service.ts.
use joust_backend.Prelude.{
  ℕ, ◌≡◌, ap, ◌∙◌, Option, none, some, [], ◌∷◌, Bool, true, false, any, if◌then◌else◌, arith,
}
use joust_backend.Prelude.Dict.{Dict, lookup}
use joust_backend.Guests.{
  Account, is_unfinished, guest_deadline, is_past, guest_claim_problem, ClaimProblem, has_account,
  name_reassigned, window_expired, retired, retire_guest, purge_guest, purge_expired_guests,
}

-- The window is over, and that is why the guest cannot be claimed.
unfoldable pub is_out_of_time : Option ClaimProblem → Bool
is_out_of_time none = false
is_out_of_time (some has_account) = false
is_out_of_time (some name_reassigned) = false
is_out_of_time (some window_expired) = true

-- A deadline that has passed is one of a guest without unfinished tournaments.
past_finished :
    (now : ℕ) (a : Account)
    → is_past now (guest_deadline a) ≡ true
    → any is_unfinished a.entries ≡ false
unfolding guest_deadline is_past
past_finished now a h = ground arith

purge_guest_lem :
    (now : ℕ) (a : Account)
    → purge_guest now a ≡ (if is_out_of_time (guest_claim_problem now a) then retired now a else a)
unfolding purge_guest retire_guest guest_claim_problem is_out_of_time
purge_guest_lem now a = ground (arith, past_finished now a)

lookup-purge :
    (now id : ℕ) (d : Dict Account) (a : Account)
    → lookup id d ≡ some a
    → lookup id (purge_expired_guests now d) ≡ some (purge_guest now a)
unfolding lookup purge_expired_guests
lookup-purge now id [] a e = ground arith
lookup-purge now id ((k, x) ∷ d) a e = ground (arith, lookup-purge now id d a)

-- The purge retires exactly the guests whose registration would be refused because the window is
-- over, and leaves every other account as it is. A retired guest can never be registered later.
pub purge_expired_guests-guest_claim_problem :
    (now later id : ℕ) (d : Dict Account) (a : Account)
    → lookup id d ≡ some a
    → (lookup id (purge_expired_guests now d)
        ≡ some (if is_out_of_time (guest_claim_problem now a) then retired now a else a))
      × (guest_claim_problem later (retired now a)
          ≡ some (if a.is_guest then name_reassigned else has_account))
unfolding guest_claim_problem retired
purge_expired_guests-guest_claim_problem now later id d a e =
    (lookup-purge now id d a e ∙ ap (λ b. some b) (purge_guest_lem now a), ground arith)
