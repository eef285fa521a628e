-- ===== src/Roster/Valid/Crowd.antt =====
-- The roster of src/tournament/participant/participant.service.ts as a set of users with a size, and
-- its operations as moves of that set.
use joust_backend.Prelude.{
  ℕ, suc, ◌<◌, ◌≡◌, ap, ◌∙◌, Bool, true, false, not, ◌&&◌, ◌||◌, ◌==◌, length, arith,
}
use joust_backend.Prelude.Dict.{contains, Distinct}
use joust_backend.Match.Service.{Handler}
use joust_backend.Roster.{Club, Venue, user_ids, takes_part}
use joust_backend.Roster.Members.{
  length-user_ids, contains-remove, contains-rename, length-remove_one, length-rename,
}
use joust_backend.Roster.Valid.{Shift, kept, entered, departed, swapped, IsValid, Effect-IsValid}
use joust_backend.Roster.Valid.Steps.{Steps, start, further, Step-Effect}

-- A roster as a set of users with its size.
pub record Crowd : Type 0 where
  pub has : ℕ → Bool
  pub size : ℕ

unfoldable pub crowd_of : Club → Crowd
crowd_of c = record { has = λ u. takes_part u c; size = length c.participants }

-- What may happen to a set of users with a number of seats.
pub data Move (seats : ℕ) (a b : Crowd) : Type 0 where
  stays : ((j : ℕ) → b.has j ≡ a.has j) → b.size ≡ a.size → Move seats a b
  enters :
      (u : ℕ)
      → a.has u ≡ false
      → a.size < seats
      → ((j : ℕ) → b.has j ≡ ((u == j) || a.has j))
      → b.size ≡ suc a.size
      → Move seats a b
  leaves :
      (u : ℕ)
      → a.has u ≡ true
      → ((j : ℕ) → b.has j ≡ (a.has j && not (u == j)))
      → suc b.size ≡ a.size
      → Move seats a b
  swaps :
      (u other : ℕ)
      → a.has u ≡ true
      → a.has other ≡ false
      → ((j : ℕ) → b.has j ≡ ((a.has j && not (u == j)) || (other == j)))
      → b.size ≡ a.size
      → Move seats a b

pub data Moves (seats : ℕ) : Crowd → Crowd → Type 0 where
  none_yet : (a : Crowd) → Moves seats a a
  and_moves : (a b d : Crowd) → Move seats a b → Moves seats b d → Moves seats a d

module _ (v : Venue) where
  Shift-Move :
      (c d : Club)
      → Distinct (user_ids c.participants)
      → Shift v.max_players (user_ids c.participants) (user_ids d.participants)
      → Move v.max_players (crowd_of c) (crowd_of d)
  unfolding crowd_of takes_part contains
  Shift-Move c d distinct (kept same) =
      stays (λ j. ap (contains j) same)
        (ground
          (arith, ap length same, length-user_ids c.participants, length-user_ids d.participants))
  Shift-Move c d distinct (entered u new room same) =
      enters u new (ground (arith, length-user_ids c.participants)) (λ j. ap (contains j) same)
        (ground
          (arith, ap length same, length-user_ids c.participants, length-user_ids d.participants))
  Shift-Move c d distinct (departed u old same) =
      leaves u old (λ j. ap (contains j) same ∙ contains-remove u j (user_ids c.participants))
        (ground (
          arith,
          ap length same,
          length-user_ids c.participants,
          length-user_ids d.participants,
          length-remove_one u (user_ids c.participants) distinct old,
        ))
  Shift-Move c d distinct (swapped u other old new same) =
      swaps u other old new
        (λ j.
          ap (contains j) same
          ∙ (contains-rename u other j (user_ids c.participants) ∙ ground (arith, old)))
        (ground (
          arith,
          ap length same,
          length-user_ids c.participants,
          length-user_ids d.participants,
          length-rename u other (user_ids c.participants),
        ))

  -- The roster refines a set of users with seats: whatever sequence of operations is accepted, the set
  -- only changes by a user outside it who takes a free seat, a user in it who leaves, or a user
  -- outside it who takes the place of one in it, and the size is counted along.
  pub Steps-Moves :
      (handle_for : (ℕ → Bool) → Handler) {c d : Club}
      → IsValid v c
      → Steps v handle_for c d
      → Moves v.max_players (crowd_of c) (crowd_of d)
  Steps-Moves handle_for valid (start c) = none_yet (crowd_of c)
  Steps-Moves handle_for valid (further c d e step rest) =
      let effect = Step-Effect v handle_for c d valid step in
      and_moves (crowd_of c) (crowd_of d) (crowd_of e) (Shift-Move c d valid.0 effect.0)
        (Steps-Moves handle_for (Effect-IsValid v c d valid effect) rest)
