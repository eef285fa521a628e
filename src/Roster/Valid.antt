-- ===== src/Roster/Valid.antt =====
-- What every operation of src/tournament/participant/participant.service.ts does to the roster.
pub mod Effects
pub mod Substitutes
pub mod Steps
pub mod Crowd
use joust_backend.Prelude.{
  ℕ, suc, ◌≤◌, ◌<◌, ◌≡◌, refl, ap, sym, ◌∙◌, subst, Option, none, some, is_some, List, [], ◌∷◌,
  Bool, true, false, not, ◌&&◌, ◌||◌, ◌==◌, length, if◌then◌else◌, arith,
}
use joust_backend.Prelude.Dict.{Dict, lookup, insert, lookup-insert, contains, Distinct}
use joust_backend.Guests.{Account, Name}
use joust_backend.Roster.{
  Participant, Invitation, Club, Venue, user_ids, fresh_account_id, find_user, released, new_guest,
  take_name,
}
use joust_backend.Roster.Members.{
  remove, rename, length-user_ids, contains-remove, length-remove, remove-Distinct, length-rename,
  contains-rename, rename-Distinct, lookup-fresh,
}

-- What one operation may do to the users of a roster with so many seats: nothing, one who was not in
-- it gets a free seat, one leaves, or one takes the place of another.
pub data Shift (seats : ℕ) (before after : List ℕ) : Type 0 where
  kept : after ≡ before → Shift seats before after
  entered :
      (u : ℕ)
      → contains u before ≡ false
      → length before < seats
      → after ≡ u ∷ before
      → Shift seats before after
  departed : (u : ℕ) → contains u before ≡ true → after ≡ remove u before → Shift seats before after
  swapped :
      (u other : ℕ)
      → contains u before ≡ true
      → contains other before ≡ false
      → after ≡ rename u other before
      → Shift seats before after

-- The account exists.
abbrev pub IsKnown : Dict Account → ℕ → Type 0
IsKnown accounts u = is_some (lookup u accounts) ≡ true

-- No user has two rows, the rows fit into the tournament, and the users of the rows and of the
-- invitations exist.
abbrev pub IsValid : Venue → Club → Type 0
IsValid v c =
    Distinct (user_ids c.participants)
    × ((length c.participants ≤ v.max_players)
        × (((u : ℕ) → contains u (user_ids c.participants) ≡ true → IsKnown c.accounts u)
            × ((id : ℕ) (i : Invitation)
                → lookup id c.invitations ≡ some i
                → IsKnown c.accounts i.user_id)))

-- No account is deleted.
abbrev pub Grows : Dict Account → Dict Account → Type 0
Grows before after = (u : ℕ) → IsKnown before u → IsKnown after u

pub insert-Grows : (id : ℕ) (a : Account) (d : Dict Account) → Grows d (insert id a d)
insert-Grows id a d u h = ground (arith, lookup-insert id u a d)

pub insert-IsKnown : (id : ℕ) (a : Account) (d : Dict Account) → IsKnown (insert id a d) id
insert-IsKnown id a d = ground (arith, lookup-insert id id a d)

-- What making a guest leaves: the same roster, and a user who is not in it.
abbrev pub Made : Club → ℕ → Club → Type 0
Made c id d =
    (lookup id c.accounts ≡ none)
    × ((d.participants ≡ c.participants)
        × ((d.invitations ≡ c.invitations)
            × (Grows c.accounts d.accounts × (IsKnown d.accounts id × (d.world ≡ c.world)))))

abbrev MakesName : Club → Option (ℕ × Club) → Type 0
MakesName c none = Unit
MakesName c (some made) = Made c made.0 made.1

pub take_name-Made :
    (same_name : Name → Name → Bool) (now : ℕ) (name : Name) (c : Club) (made : ℕ × Club)
    → take_name same_name now name c ≡ some made
    → Made c made.0 made.1
unfolding take_name
take_name-Made same_name now name c made h =
    subst (MakesName c) h (go (find_user same_name name c.accounts))
  where
    id : ℕ
    id = fresh_account_id c.accounts

    made_in :
        (accounts : Dict Account)
        → Grows c.accounts accounts
        → Made c id (record c { accounts = insert id (new_guest now name) accounts })
    made_in accounts grows = (
      lookup-fresh c.accounts,
      (
        refl,
        (
          refl,
          (
            λ u known. insert-Grows id _ accounts u (grows u known),
            (insert-IsKnown id _ accounts, refl),
          ),
        ),
      ),
    )

    again :
        (found : ℕ × Account) (r : Option Account)
        → MakesName c (elim r [
          | none ↦ none
          | some a ↦ some (
            id,
            record c {
              accounts =
                  insert id
                    (new_guest now name)
                    (insert found.0 (record a { entries = found.1.entries }) c.accounts);
            },
          )
        ])
    again found none = tt
    again found (some a) = made_in _ (insert-Grows found.0 _ c.accounts)

    go :
        (r : Option (ℕ × Account))
        → MakesName c (elim r [
          | none ↦ some (id, record c { accounts = insert id (new_guest now name) c.accounts })
          | some found ↦ elim (released now found.0 c found.1) [
            | none ↦ none
            | some a ↦ some (
              id,
              record c {
                accounts =
                    insert id
                      (new_guest now name)
                      (insert found.0 (record a { entries = found.1.entries }) c.accounts);
              },
            )
          ]
        ])
    go none = made_in c.accounts (λ u known. known)
    go (some found) = again found (released now found.0 c found.1)

-- A shift of a valid roster.
abbrev pub Effect : Venue → Club → Club → Type 0
Effect v c d =
    Shift v.max_players (user_ids c.participants) (user_ids d.participants)
    × (((u : ℕ) → contains u (user_ids d.participants) ≡ true → IsKnown d.accounts u)
        × ((id : ℕ) (i : Invitation)
            → lookup id d.invitations ≡ some i
            → IsKnown d.accounts i.user_id))

Shift-Distinct :
    (seats : ℕ) (before after : List ℕ)
    → Shift seats before after
    → Distinct before
    → Distinct after
Shift-Distinct seats before after (kept same) h = rw same h
Shift-Distinct seats before after (entered u new room same) h = rw same (new, h)
Shift-Distinct seats before after (departed u old same) h = rw same (remove-Distinct u before h)
Shift-Distinct seats before after (swapped u other old new same) h =
    rw same (rename-Distinct u other before new h)

Shift-length :
    (seats : ℕ) (before after : List ℕ)
    → Shift seats before after
    → length before ≤ seats
    → length after ≤ seats
Shift-length seats before after (kept same) h = rw same h
Shift-length seats before after (entered u new room same) h = rw same room
Shift-length seats before after (departed u old same) h =
    rw same (ground (arith, length-remove u before))
Shift-length seats before after (swapped u other old new same) h =
    rw same (ground (arith, length-rename u other before))

pub Effect-IsValid : (v : Venue) (c d : Club) → IsValid v c → Effect v c d → IsValid v d
Effect-IsValid v c d (distinct, (fits, known)) (shift, still_known) = (
  Shift-Distinct v.max_players _ _ shift distinct,
  (
    ground (
      arith,
      length-user_ids c.participants,
      length-user_ids d.participants,
      Shift-length v.max_players _ _ shift,
    ),
    still_known,
  ),
)

-- The club with the new account is as valid as before, the new user is not in the roster, and what is
-- a shift of the one is a shift of the other.
module _ (v : Venue) (c : Club) (id : ℕ) (d : Club) (made : Made c id d) (valid : IsValid v c) where
  same_rows : c.participants ≡ d.participants
  same_rows = sym made.1.0

  same_letters : c.invitations ≡ d.invitations
  same_letters = sym made.1.1.0

  outside : contains id (user_ids c.participants) ≡ false
  outside = ground (arith, made.0, valid.1.1.0 id)

  pub Made-IsValid : IsValid v d
  Made-IsValid = (
    subst (λ ps. Distinct (user_ids ps)) same_rows valid.0,
    (
      subst (λ (ps : List Participant). length ps ≤ v.max_players) same_rows valid.1.0,
      (
        λ u h.
            made.1.1.1.0 u
              (valid.1.1.0 u (subst (λ ps. contains u (user_ids ps) ≡ true) (sym same_rows) h)),
        λ n i h. made.1.1.1.0 i.user_id (
            valid.1.1.1 n i
              (subst (λ (is : Dict Invitation). lookup n is ≡ some i) (sym same_letters) h)),
      ),
    ),
  )

  pub made_outside : contains id (user_ids d.participants) ≡ false
  made_outside = subst (λ ps. contains id (user_ids ps) ≡ false) same_rows outside

  pub Made-Effect : (e : Club) → Effect v d e → Effect v c e
  Made-Effect e (shift, known) = (
    subst (λ ps. Shift v.max_players (user_ids ps) (user_ids e.participants)) (sym same_rows) shift,
    known,
  )
