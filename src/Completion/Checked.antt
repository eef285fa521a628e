-- ===== src/Completion/Checked.antt =====
-- The checks of src/Formats/formats.service.ts that complete a round or a tournament write no match,
-- or a new one that is not completed.
use joust_backend.Prelude.{ℕ, ◌≡◌, refl, Option, find, ◌&&◌, arith}
use joust_backend.Match.{MatchRow, World, Tournament, ok}
use joust_backend.Match.Soundness.{Returns, Sound, Option-Returns, Bool-Returns}
use joust_backend.Completion.{
  Setting, matches_of_round, new_match, complete_tournament, complete_with,
}
use joust_backend.Completion.Checks.{
  is_won, has_round, check_single_elimination_complete, winners_finalist_id,
  create_grand_final_reset, check_double_elimination_complete, check_tournament_complete, first_id,
  upset,
}
use joust_backend.Completion.Sound.{
  and_then-Returns, same_matches-Sound, create_round-Sound, create_match-Sound,
}

pub complete_tournament_matches :
    (s : Setting) (w : World) → (complete_tournament s w).matches ≡ w.matches
unfolding complete_tournament
complete_tournament_matches s w = ground arith

pub complete_tournament-Sound :
    (s : Setting) (t : Tournament) (w : World) → Sound t w → Sound t (complete_tournament s w)
complete_tournament-Sound s t w =
    same_matches-Sound t (complete_tournament s w) w (complete_tournament_matches s w)

pub complete_with-Sound :
    (s : Setting) (t : Tournament) (winner : Option ℕ) (w : World)
    → Sound t w
    → Sound t (complete_with s winner w)
unfolding complete_with
complete_with-Sound s t winner w sound = complete_tournament-Sound s t _ sound

pub check_single_elimination_complete_matches :
    (s : Setting) (number : ℕ) (w : World)
    → (check_single_elimination_complete s number w).matches ≡ w.matches
unfolding check_single_elimination_complete complete_with complete_tournament
check_single_elimination_complete_matches s number w = ground arith

pub check_tournament_complete_matches :
    (s : Setting) (w : World) → (check_tournament_complete s w).matches ≡ w.matches
unfolding check_tournament_complete complete_with complete_tournament
check_tournament_complete_matches s w = ground arith

pub create_grand_final_reset-Sound :
    (t : Tournament) (final : MatchRow) (w : World)
    → Sound t w
    → Returns (Sound t) (create_grand_final_reset final w)
unfolding create_grand_final_reset new_match
create_grand_final_reset-Sound t final w sound =
    and_then-Returns (Sound t) (Sound t) _ _ (create_round-Sound t 201 w sound)
      (λ v opened. create_match-Sound t _ v refl opened)

pub check_double_elimination_complete-Sound :
    (s : Setting) (t : Tournament) (w : World)
    → Sound t w
    → Returns (Sound t) (check_double_elimination_complete s w)
unfolding check_double_elimination_complete
check_double_elimination_complete-Sound s t w sound =
    Option-Returns (Sound t) (find is_won (matches_of_round 200 w.matches)) _ _ (λ missing. sound)
      (λ gf won.
        Bool-Returns (Sound t) (has_round 201 w) _ _
          (λ exists.
            Option-Returns (Sound t) (find is_won (matches_of_round 201 w.matches)) _ _
              (λ missing. sound) (λ rm decided. complete_with-Sound s t _ w sound))
          (λ free.
            Bool-Returns (Sound t)
              (s.grand_final_reset
                && upset (winners_finalist_id w.matches (first_id (matches_of_round 200 w.matches)))
                    gf.1.winner_id)
              (create_grand_final_reset gf.1 w) (ok (complete_with s gf.1.winner_id w))
              (λ reset. create_grand_final_reset-Sound t gf.1 w sound)
              (λ over. complete_with-Sound s t gf.1.winner_id w sound)))
