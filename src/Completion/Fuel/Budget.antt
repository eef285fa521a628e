-- ===== src/Completion/Fuel/Budget.antt =====
-- What is left to complete after the checks of src/Formats/formats.service.ts.
use joust_backend.Prelude.{ℕ, ◌≡◌, Option, none, some, false, find, ◌&&◌, arith}
use joust_backend.Match.{MatchRow, World, Reply, ok, refused, and_then}
use joust_backend.Match.Soundness.{Option-Holds, Bool-Holds}
use joust_backend.Completion.{
  Setting, matches_of_round, fresh_id, create_round, new_match, create_match, complete_tournament,
  complete_with,
}
use joust_backend.Completion.Checks.{
  is_won, has_round, first_id, upset, winners_finalist_id, check_single_elimination_complete,
  create_grand_final_reset, check_double_elimination_complete, check_tournament_complete,
}
use joust_backend.Completion.Step.{along}
use joust_backend.Completion.Fuel.{budget, Within, Yields, running-insert_more}

pub and_then-Yields :
    (P Q : World → Type 0) (r : Reply World) (f : World → Reply World)
    → Yields P r
    → ((w : World) → P w → Yields Q (f w))
    → Yields Q (and_then r f)
and_then-Yields P Q (ok w) f h k = k w h
and_then-Yields P Q (refused why) f h k = h

pub along-Yields :
    (P : World → Type 0) (step : Option ℕ) (f : ℕ → World → Reply World) (w : World)
    → P w
    → ((id : ℕ) → Yields P (f id w))
    → Yields P (along step f w)
along-Yields P none f w h k = h
along-Yields P (some id) f w h k = k id

pub budget-complete_with :
    (s : Setting) (winner : Option ℕ) (w : World) → budget (complete_with s winner w) ≡ budget w
unfolding complete_with complete_tournament budget
budget-complete_with s winner w = ground arith

pub budget-check_single_elimination_complete :
    (s : Setting) (number : ℕ) (w : World)
    → budget (check_single_elimination_complete s number w) ≡ budget w
unfolding check_single_elimination_complete complete_with complete_tournament budget
budget-check_single_elimination_complete s number w = ground arith

pub budget-check_tournament_complete :
    (s : Setting) (w : World) → budget (check_tournament_complete s w) ≡ budget w
unfolding check_tournament_complete complete_with complete_tournament budget
budget-check_tournament_complete s w = ground arith

-- The reset of a grand final takes the place that was kept for it.
pub create_grand_final_reset-Within :
    (b : ℕ) (final : MatchRow) (w : World)
    → has_round 201 w ≡ false
    → Within b w
    → Yields (Within b) (create_grand_final_reset final w)
unfolding create_grand_final_reset create_round create_match budget
create_grand_final_reset-Within b final w free h =
    let row = new_match 201 1 0 final.player1_id final.player2_id false in
    ground (arith, running-insert_more (fresh_id w.matches) row w.matches)

pub check_double_elimination_complete-Within :
    (b : ℕ) (s : Setting) (w : World)
    → Within b w
    → Yields (Within b) (check_double_elimination_complete s w)
unfolding check_double_elimination_complete
check_double_elimination_complete-Within b s w h =
    Option-Holds (Yields (Within b)) (find is_won (matches_of_round 200 w.matches)) _ _
      (λ missing. h)
      (λ gf won.
        Bool-Holds (Yields (Within b)) (has_round 201 w) _ _
          (λ exists.
            Option-Holds (Yields (Within b)) (find is_won (matches_of_round 201 w.matches)) _ _
              (λ missing. h) (λ rm decided. finished rm.1.winner_id))
          (λ free.
            Bool-Holds (Yields (Within b))
              (s.grand_final_reset
                && upset (winners_finalist_id w.matches (first_id (matches_of_round 200 w.matches)))
                    gf.1.winner_id)
              _ _ (λ reset. create_grand_final_reset-Within b gf.1 w free h)
              (λ over. finished gf.1.winner_id)))
  where
    finished : (winner : Option ℕ) → Within b (complete_with s winner w)
    finished winner = ground (arith, budget-complete_with s winner w)
