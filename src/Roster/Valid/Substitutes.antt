-- ===== src/Roster/Valid/Substitutes.antt =====
-- Forfeits and substitutions of src/tournament/participant/participant.service.ts shift the roster
-- once.
use joust_backend.Prelude.{
  ℕ, ◌≡◌, refl, sym, subst, Option, none, some, Bool, true, false, not, arith,
}
use joust_backend.Prelude.Dict.{contains}
use joust_backend.Match.{World, Reply, ok, refused}
use joust_backend.Match.Service.{Handler}
use joust_backend.Guests.{Name, has_name}
use joust_backend.Roster.{
  Club, Venue, first_problem, user_ids, takes_part, trim, find_user, take_name,
}
use joust_backend.Roster.Play.{
  is_forfeited_in, mark_forfeited, with_world, forfeit_participant, substituted,
  substitute_new_guest, replace_by_guest, replace_by_user, replace_by, replace_participant,
}
use joust_backend.Roster.Members.{
  Accepts, checked-Accepts, Bool-Accepts, Option-Accepts, user_ids-renamed, contains-rename,
}
use joust_backend.Roster.Valid.{
  kept, swapped, IsKnown, IsValid, Made, take_name-Made, Effect, Made-IsValid, made_outside,
  Made-Effect,
}
use joust_backend.Roster.Valid.Effects.{kept_rows-Effect}

module _ (v : Venue) where
  with_world-Effect :
      (c d : Club) (r : Reply World) → Effect v c d → Accepts (Effect v c) (with_world d r)
  unfolding with_world
  with_world-Effect c d (ok w) h = h
  with_world-Effect c d (refused why) h = tt

  pub mark_forfeited-Effect :
      (user : ℕ) (c : Club) → IsValid v c → Effect v c (mark_forfeited user c)
  unfolding mark_forfeited
  mark_forfeited-Effect user c valid = kept_rows-Effect v user _ c (λ p. refl) valid

  pub forfeit_participant-Effect :
      (handle_for : (ℕ → Bool) → Handler) (now user : ℕ) (c : Club)
      → IsValid v c
      → Accepts (Effect v c) (forfeit_participant handle_for now user c)
  unfolding forfeit_participant
  forfeit_participant-Effect handle_for now user c valid =
      checked-Accepts (Effect v c) _ _ (λ passed.
        Bool-Accepts (Effect v c) (is_forfeited_in c.participants user) _ _
          (λ already. (kept refl, valid.1.1))
          (λ playing.
            with_world-Effect c (mark_forfeited user c) _ (mark_forfeited-Effect user c valid)))

  substituted-Effect :
      (user other : ℕ) (is_guest : Bool) (c : Club)
      → IsValid v c
      → IsKnown c.accounts other
      → takes_part user c ≡ true
      → takes_part other c ≡ false
      → Effect v c (substituted user other is_guest c)
  unfolding substituted takes_part contains
  substituted-Effect user other is_guest c valid there seated new = (
    swapped user other seated new (user_ids-renamed user other c.participants),
    (
      λ u h. ground (
        arith,
        valid.1.1.0 u,
        contains-rename user other u (user_ids c.participants),
        user_ids-renamed user other c.participants,
      ),
      valid.1.1.1,
    ),
  )

  substitute_new_guest-Effect :
      (now user : ℕ) (name : Name) (c : Club)
      → IsValid v c
      → takes_part user c ≡ true
      → Accepts (Effect v c) (substitute_new_guest user (take_name v.same_name now name c))
  unfolding substitute_new_guest takes_part
  substitute_new_guest-Effect now user name c valid seated =
      go (take_name v.same_name now name c) refl
    where
      placed :
          (made : ℕ × Club)
          → Made c made.0 made.1
          → Effect v c (substituted user made.0 true made.1)
      placed (id, d) made = Made-Effect v c id d made valid (substituted user id true d) (
          substituted-Effect user id true d (Made-IsValid v c id d made valid) made.1.1.1.1.0
            (subst (λ ps. contains user (user_ids ps) ≡ true) (sym made.1.0) seated)
            (made_outside v c id d made valid))

      go :
          (r : Option (ℕ × Club))
          → take_name v.same_name now name c ≡ r
          → Accepts (Effect v c) (substitute_new_guest user r)
      go none e = tt
      go (some made) e = placed made (take_name-Made v.same_name now name c made e)

  replace_by-Effect :
      (now user : ℕ) (other : Option ℕ) (name : Option Name) (c : Club)
      → IsValid v c
      → takes_part user c ≡ true
      → Accepts (Effect v c) (replace_by v now user other name c)
  unfolding replace_by replace_by_user replace_by_guest first_problem
  replace_by-Effect now user (some other) name c valid seated =
      checked-Accepts (Effect v c) _ _
        (λ passed. substituted-Effect user other false c valid (ground arith) seated (ground arith))
  replace_by-Effect now user none none c valid seated = tt
  replace_by-Effect now user none (some name) c valid seated =
      Bool-Accepts (Effect v c) (has_name (some name)) _ _
        (λ named.
          Option-Accepts (Effect v c) (find_user v.same_name (trim name) c.accounts) _ _
            (λ missing. substitute_new_guest-Effect now user (trim name) c valid seated)
            (λ found h.
              Bool-Accepts (Effect v c) (not found.1.is_guest) _ _ (λ registered. tt)
                (λ guest. substitute_new_guest-Effect now user (trim name) c valid seated)))
        (λ unnamed. tt)

  pub replace_participant-Effect :
      (now user : ℕ) (other : Option ℕ) (name : Option Name) (c : Club)
      → IsValid v c
      → Accepts (Effect v c) (replace_participant v now user other name c)
  unfolding replace_participant first_problem
  replace_participant-Effect now user other name c valid =
      checked-Accepts (Effect v c) _ _
        (λ passed. replace_by-Effect now user other name c valid (ground arith))
