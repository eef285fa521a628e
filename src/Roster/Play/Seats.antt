-- ===== src/Roster/Play/Seats.antt =====
-- The matches after `replaceParticipant` of src/tournament/participant/participant.service.ts.
use joust_backend.Prelude.{
  ℕ, ◌≡◌, refl, sym, subst, Option, none, some, [], ◌∷◌, Bool, true, false, not, ◌&&◌, ◌==◌, arith,
}
use joust_backend.Prelude.Dict.{Dict, lookup, same-contains}
use joust_backend.Match.{
  MatchRow, is_completed, World, Tournament, refused, not_a_player, first_refusal,
}
use joust_backend.Match.Service.{
  Handler, guarded, in_match, submit_guards, submit_result, verify_result, with_match,
}
use joust_backend.Guests.{Name, has_name}
use joust_backend.Roster.{
  Club, Venue, first_problem, user_ids, takes_part, trim, find_user, take_name,
}
use joust_backend.Roster.Play.{
  has_played, reseated, reseat_all, hand_over, substituted, substitute_new_guest, replace_by_guest,
  replace_by_user, replace_by, replace_participant,
}
use joust_backend.Roster.Members.{Accepts, checked-Accepts, Bool-Accepts, Option-Accepts}
use joust_backend.Roster.Valid.{IsValid, Made, take_name-Made}

lookup-reseat_all :
    (user other id : ℕ) (d : Dict MatchRow) (m : MatchRow)
    → lookup id d ≡ some m
    → lookup id (reseat_all user other d) ≡ some (reseated user other m)
unfolding lookup reseat_all
lookup-reseat_all user other id [] m e = ground arith
lookup-reseat_all user other id ((k, n) ∷ d) m e =
    ground (arith, lookup-reseat_all user other id d m)

-- The seats of one match.
reseated-in_match :
    (user other : ℕ) (m : MatchRow)
    → (user == other) ≡ false
    → (is_completed m.status && in_match m user) ≡ false
    → in_match (reseated user other m) user ≡ false
unfolding reseated
reseated-in_match user other m differ unplayed = ground arith

-- No match has the player in a seat.
abbrev pub IsGone : ℕ → Club → Type 0
IsGone user d =
    (id : ℕ) (n : MatchRow) → lookup id d.world.matches ≡ some n → in_match n user ≡ false

reseat_all-gone :
    (user other id : ℕ) (d : Dict MatchRow) (n : MatchRow)
    → (user == other) ≡ false
    → has_played user d ≡ false
    → lookup id (reseat_all user other d) ≡ some n
    → in_match n user ≡ false
unfolding lookup reseat_all has_played
reseat_all-gone user other id [] n differ unplayed e = ground arith
reseat_all-gone user other id ((k, m) ∷ d) n differ unplayed e =
    ground (arith, reseat_all-gone user other id d n, reseated-in_match user other m)

substituted-IsGone :
    (user other : ℕ) (is_guest : Bool) (c : Club)
    → (user == other) ≡ false
    → has_played user c.world.matches ≡ false
    → IsGone user (substituted user other is_guest c)
unfolding substituted hand_over
substituted-IsGone user other is_guest c differ unplayed id n e =
    reseat_all-gone user other id c.world.matches n differ unplayed e

module _ (v : Venue) (now user : ℕ) (c : Club) (valid : IsValid v c) where
  guest-IsGone :
      (name : Name)
      → takes_part user c ≡ true
      → has_played user c.world.matches ≡ false
      → Accepts (IsGone user) (substitute_new_guest user (take_name v.same_name now name c))
  unfolding substitute_new_guest takes_part
  guest-IsGone name seated unplayed = go (take_name v.same_name now name c) refl
    where
      fresh : (id : ℕ) → lookup id c.accounts ≡ none → (user == id) ≡ false
      fresh id new = ground (arith, valid.1.1.0 user)

      placed :
          (made : ℕ × Club)
          → Made c made.0 made.1
          → IsGone user (substituted user made.0 true made.1)
      placed (id, d) made =
          substituted-IsGone user id true d (fresh id made.0)
            (subst (λ (w : World). has_played user w.matches ≡ false) (sym made.1.1.1.1.1) unplayed)

      go :
          (r : Option (ℕ × Club))
          → take_name v.same_name now name c ≡ r
          → Accepts (IsGone user) (substitute_new_guest user r)
      go none e = tt
      go (some made) e = placed made (take_name-Made v.same_name now name c made e)

  replace_by-IsGone :
      (other : Option ℕ) (name : Option Name)
      → takes_part user c ≡ true
      → has_played user c.world.matches ≡ false
      → Accepts (IsGone user) (replace_by v now user other name c)
  unfolding replace_by replace_by_user replace_by_guest first_problem takes_part
  replace_by-IsGone (some other) name seated unplayed = checked-Accepts (IsGone user) _ _ (λ passed.
      substituted-IsGone user other false c
        (ground (arith, same-contains user other (user_ids c.participants))) unplayed)
  replace_by-IsGone none none seated unplayed = tt
  replace_by-IsGone none (some name) seated unplayed =
      Bool-Accepts (IsGone user) (has_name (some name)) _ _
        (λ named.
          Option-Accepts (IsGone user) (find_user v.same_name (trim name) c.accounts) _ _
            (λ missing. guest-IsGone (trim name) seated unplayed)
            (λ found h.
              Bool-Accepts (IsGone user) (not found.1.is_guest) _ _ (λ registered. tt)
                (λ guest. guest-IsGone (trim name) seated unplayed)))
        (λ unnamed. tt)

  -- A replacement that is accepted, in a valid roster, takes the player out of every match, whether
  -- the substitute is a registered user or a new guest.
  pub replace_participant-IsGone :
      (other : Option ℕ) (name : Option Name)
      → Accepts (IsGone user) (replace_participant v now user other name c)
  unfolding replace_participant first_problem
  replace_participant-IsGone other name =
      checked-Accepts (IsGone user) _ _
        (λ passed. replace_by-IsGone other name (ground arith) (ground arith))

-- The result that the player had reported stays on a match that is not completed. Confirming it
-- after the replacement is refused, since the player is not in the match any more.
pub verify_result-substituted :
    (handle : Handler) (t : Tournament) (now id user other : ℕ) (is_guest : Bool) (c : Club)
    (m : MatchRow)
    → lookup id c.world.matches ≡ some m
    → is_completed m.status ≡ false
    → m.reported_winner_id ≡ some user
    → (user == other) ≡ false
    → verify_result handle t now id (substituted user other is_guest c).world ≡ refused not_a_player
unfolding verify_result with_match substituted hand_over reseated submit_result guarded
    submit_guards first_refusal
verify_result-substituted handle t now id user other is_guest c m here open_row reported differ =
    ground (arith, lookup-reseat_all user other id c.world.matches m)
