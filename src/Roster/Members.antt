-- ===== src/Roster/Members.antt =====
-- The users behind the rows of participants, as the operations of
-- src/tournament/participant/participant.service.ts change them.
use joust_backend.Prelude.{
  ℕ, suc, ◌≤◌, ◌≡◌, refl, ap, subst, Option, none, some, List, [], ◌∷◌, Bool, true, false, not,
  ◌&&◌, ◌||◌, ◌==◌, length, if◌then◌else◌, arith,
}
use joust_backend.Prelude.Dict.{Dict, lookup, contains, same-contains, Distinct}
use joust_backend.Roster.{
  Participant, Club, RosterReply, accepted, rejected, Problem, first_problem, checked, user_ids,
  fresh_account_id,
}
use joust_backend.Roster.Registration.{without, update_rows}
use joust_backend.Guests.{Account}

-- The users that stay when one leaves, and when one takes the place of another.
unfoldable pub remove : ℕ → List ℕ → List ℕ
remove user [] = []
remove user (id ∷ ids) = let rest = remove user ids in if id == user then rest else id ∷ rest

unfoldable pub rename : ℕ → ℕ → List ℕ → List ℕ
rename user other [] = []
rename user other (id ∷ ids) = (if id == user then other else id) ∷ rename user other ids

pub user_ids-without :
    (user : ℕ) (ps : List Participant) → user_ids (without user ps) ≡ remove user (user_ids ps)
unfolding user_ids without remove
user_ids-without user [] = refl
user_ids-without user (p ∷ ps) = ground (arith, user_ids-without user ps)

pub user_ids-kept :
    (user : ℕ) (f : Participant → Participant) (ps : List Participant)
    → ((p : Participant) → (f p).user_id ≡ p.user_id)
    → user_ids (update_rows user f ps) ≡ user_ids ps
unfolding user_ids update_rows
user_ids-kept user f [] same = refl
user_ids-kept user f (p ∷ ps) same = ground (arith, same p, user_ids-kept user f ps same)

pub user_ids-renamed :
    (user other : ℕ) (ps : List Participant)
    → user_ids (update_rows user (λ (p : Participant). record p { user_id = other }) ps)
      ≡ rename user other (user_ids ps)
unfolding user_ids update_rows rename
user_ids-renamed user other [] = refl
user_ids-renamed user other (p ∷ ps) = ground (arith, user_ids-renamed user other ps)

pub length-user_ids : (ps : List Participant) → length (user_ids ps) ≡ length ps
unfolding user_ids
length-user_ids [] = refl
length-user_ids (p ∷ ps) = ap suc (length-user_ids ps)

pub contains-remove :
    (user j : ℕ) (ids : List ℕ) → contains j (remove user ids) ≡ (contains j ids && not (user == j))
unfolding contains remove
contains-remove user j [] = refl
contains-remove user j (id ∷ ids) = ground (arith, contains-remove user j ids)

pub length-remove : (user : ℕ) (ids : List ℕ) → length (remove user ids) ≤ length ids
unfolding remove
length-remove user [] = ground arith
length-remove user (id ∷ ids) = ground (arith, length-remove user ids)

pub remove-Distinct : (user : ℕ) (ids : List ℕ) → Distinct ids → Distinct (remove user ids)
unfolding remove
remove-Distinct user [] d = tt
remove-Distinct user (id ∷ ids) (new, rest) =
    go (id == user) (ground (arith, contains-remove user id ids)) (remove-Distinct user ids rest)
  where
    go :
        (b : Bool)
        → contains id (remove user ids) ≡ false
        → Distinct (remove user ids)
        → Distinct (if b then remove user ids else id ∷ remove user ids)
    go true fresh kept = kept
    go false fresh kept = (fresh, kept)

remove_absent : (user : ℕ) (ids : List ℕ) → contains user ids ≡ false → remove user ids ≡ ids
unfolding contains remove
remove_absent user [] h = refl
remove_absent user (id ∷ ids) h = ground (arith, remove_absent user ids)

-- In a list without repetition, one removed is one less.
pub length-remove_one :
    (user : ℕ) (ids : List ℕ)
    → Distinct ids
    → contains user ids ≡ true
    → suc (length (remove user ids)) ≡ length ids
unfolding contains remove
length-remove_one user [] d h = ground arith
length-remove_one user (id ∷ ids) (new, rest) h =
    ground
      (arith, length-remove_one user ids rest, remove_absent user ids, same-contains id user ids)

pub length-rename : (user other : ℕ) (ids : List ℕ) → length (rename user other ids) ≡ length ids
unfolding rename
length-rename user other [] = refl
length-rename user other (id ∷ ids) = ap suc (length-rename user other ids)

pub contains-rename :
    (user other j : ℕ) (ids : List ℕ)
    → contains j (rename user other ids)
      ≡ ((contains j ids && not (user == j)) || (contains user ids && (other == j)))
unfolding contains rename
contains-rename user other j [] = refl
contains-rename user other j (id ∷ ids) = ground (arith, contains-rename user other j ids)

pub rename-Distinct :
    (user other : ℕ) (ids : List ℕ)
    → contains other ids ≡ false
    → Distinct ids
    → Distinct (rename user other ids)
unfolding contains rename
rename-Distinct user other [] h d = tt
rename-Distinct user other (id ∷ ids) h (new, rest) = (
  ground (
    arith,
    contains-rename user other id ids,
    contains-rename user other other ids,
    same-contains id user ids,
  ),
  rename-Distinct user other ids (ground arith) rest,
)

-- What holds of the rows that an operation leaves, if it does not throw.
abbrev pub Accepts : (Club → Type 0) → RosterReply → Type 0
Accepts P (accepted d) = P d
Accepts P (rejected why) = Unit

pub accepted_at :
    (P : Club → Type 0) (r : RosterReply) (d : Club) → Accepts P r → r ≡ accepted d → P d
accepted_at P r d h e = subst (Accepts P) e h

pub checked-Accepts :
    (P : Club → Type 0) (guards : List (Bool × Problem)) (rest : RosterReply)
    → (first_problem guards ≡ none → Accepts P rest)
    → Accepts P (checked guards rest)
unfolding checked
checked-Accepts P guards rest h = go (first_problem guards) refl
  where
    go :
        (r : Option Problem)
        → first_problem guards ≡ r
        → Accepts P (elim r [ some why ↦ rejected why | none ↦ rest ])
    go none e = h e
    go (some why) e = tt

pub Bool-Accepts :
    (P : Club → Type 0) (b : Bool) (x y : RosterReply)
    → (b ≡ true → Accepts P x)
    → (b ≡ false → Accepts P y)
    → Accepts P (if b then x else y)
Bool-Accepts P true x y h k = h refl
Bool-Accepts P false x y h k = k refl

pub Option-Accepts :
    {A : Type 0} (P : Club → Type 0) (r : Option A) (x : RosterReply) (f : A → RosterReply)
    → (r ≡ none → Accepts P x)
    → ((a : A) → r ≡ some a → Accepts P (f a))
    → Accepts P (elim r [ none ↦ x | some a ↦ f a ])
Option-Accepts P none x f h k = h refl
Option-Accepts P (some a) x f h k = k a refl

lookup-above : (id : ℕ) (d : Dict Account) → fresh_account_id d ≤ id → lookup id d ≡ none
unfolding lookup fresh_account_id
lookup-above id [] h = refl
lookup-above id ((k, a) ∷ d) h = ground (arith, lookup-above id d)

-- A new account has an id of its own.
pub lookup-fresh : (d : Dict Account) → lookup (fresh_account_id d) d ≡ none
lookup-fresh d = lookup-above (fresh_account_id d) d (ground arith)
