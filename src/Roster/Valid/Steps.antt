-- ===== src/Roster/Valid/Steps.antt =====
-- The roster under any sequence of the operations of
-- src/tournament/participant/participant.service.ts, and its view as a set of users.
use joust_backend.Prelude.{ℕ, ◌≡◌, refl, sym, subst, Option, Bool}
use joust_backend.Prelude.Int.{ℤ}
use joust_backend.Match.{World, User}
use joust_backend.Match.Service.{Handler}
use joust_backend.Guests.{Name}
use joust_backend.Roster.{Club, Venue, accepted, join_transaction}
use joust_backend.Roster.Registration.{
  guest_transaction, invite_tournament_participant, respond_to_participant_invitation,
  leave_tournament, update_seed,
}
use joust_backend.Roster.Play.{mark_forfeited, forfeit_participant, replace_participant}
use joust_backend.Roster.Members.{accepted_at}
use joust_backend.Roster.Valid.{kept, IsValid, Effect, Effect-IsValid}
use joust_backend.Roster.Valid.Effects.{
  join_transaction-Effect, guest_transaction-Effect, invite_tournament_participant-Effect,
  respond_to_participant_invitation-Effect, leave_tournament-Effect, update_seed-Effect,
}
use joust_backend.Roster.Valid.Substitutes.{
  mark_forfeited-Effect, forfeit_participant-Effect, replace_participant-Effect,
}

-- One operation that is accepted. The transactions of a join and of a guest are steps of their own,
-- since their checks may have read an earlier roster. `interrupted` is a forfeit whose walkovers
-- throw, and `played` anything else that changes matches, statistics or the status.
pub data Step (v : Venue) (handle_for : (ℕ → Bool) → Handler) (c d : Club) : Type 0 where
  joined : (u : ℕ) → join_transaction v u c ≡ accepted d → Step v handle_for c d
  guest_joined :
      (now : ℕ) (name : Name) → guest_transaction v now name c ≡ accepted d → Step v handle_for c d
  invited :
      (id u by : ℕ) → invite_tournament_participant v id u by c ≡ accepted d → Step v handle_for c d
  responded :
      (id u : ℕ) (accept : Bool)
      → respond_to_participant_invitation v id u accept c ≡ accepted d
      → Step v handle_for c d
  left_it :
      (u : ℕ) (requester : Option User)
      → leave_tournament v u requester c ≡ accepted d
      → Step v handle_for c d
  seeded : (u : ℕ) (seed : ℤ) → update_seed u seed c ≡ accepted d → Step v handle_for c d
  gave_up :
      (now u : ℕ) → forfeit_participant handle_for now u c ≡ accepted d → Step v handle_for c d
  interrupted : (u : ℕ) → d ≡ mark_forfeited u c → Step v handle_for c d
  replaced :
      (now u : ℕ) (other : Option ℕ) (name : Option Name)
      → replace_participant v now u other name c ≡ accepted d
      → Step v handle_for c d
  played : (w : World) → d ≡ record c { world = w } → Step v handle_for c d

pub data Steps (v : Venue) (handle_for : (ℕ → Bool) → Handler) : Club → Club → Type 0 where
  start : (c : Club) → Steps v handle_for c c
  further : (c d e : Club) → Step v handle_for c d → Steps v handle_for d e → Steps v handle_for c e

module _ (v : Venue) (handle_for : (ℕ → Bool) → Handler) where
  pub Step-Effect : (c d : Club) → IsValid v c → Step v handle_for c d → Effect v c d
  Step-Effect c d valid (joined u e) =
      accepted_at (Effect v c) _ d (join_transaction-Effect v u c valid) e
  Step-Effect c d valid (guest_joined now name e) =
      accepted_at (Effect v c) _ d (guest_transaction-Effect v now name c valid) e
  Step-Effect c d valid (invited id u by e) =
      accepted_at (Effect v c) _ d (invite_tournament_participant-Effect v id u by c valid) e
  Step-Effect c d valid (responded id u accept e) =
      accepted_at (Effect v c) _ d (respond_to_participant_invitation-Effect v id u accept c valid)
        e
  Step-Effect c d valid (left_it u requester e) =
      accepted_at (Effect v c) _ d (leave_tournament-Effect v u requester c valid) e
  Step-Effect c d valid (seeded u seed e) =
      accepted_at (Effect v c) _ d (update_seed-Effect v u seed c valid) e
  Step-Effect c d valid (gave_up now u e) =
      accepted_at (Effect v c) _ d (forfeit_participant-Effect v handle_for now u c valid) e
  Step-Effect c d valid (interrupted u e) =
      subst (Effect v c) (sym e) (mark_forfeited-Effect v u c valid)
  Step-Effect c d valid (replaced now u other name e) =
      accepted_at (Effect v c) _ d (replace_participant-Effect v now u other name c valid) e
  Step-Effect c d valid (played w e) = subst (Effect v c) (sym e) (kept refl, valid.1.1)

  -- Whatever sequence of operations is accepted, no user has two rows, there are never more rows than
  -- seats, and the users of all rows and invitations exist.
  pub Steps-IsValid : {c d : Club} → IsValid v c → Steps v handle_for c d → IsValid v d
  Steps-IsValid valid (start c) = valid
  Steps-IsValid valid (further c d e step rest) =
      Steps-IsValid (Effect-IsValid v c d valid (Step-Effect c d valid step)) rest
