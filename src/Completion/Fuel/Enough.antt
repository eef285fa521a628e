-- ===== src/Completion/Fuel/Enough.antt =====
-- Enough fuel for `handleMatchCompletion` of src/Formats/formats.service.ts: one more than the
-- matches that can still be completed.
use joust_backend.Prelude.{
  ℕ, zero, suc, ◌-◌, ◌≤◌, ◌<◌, ◌≡◌, refl, Option, none, some, Bool, true, false, not, ◌&&◌, ◌==?◌,
  if◌then◌else◌, arith,
}
use joust_backend.Prelude.Dict.{lookup}
use joust_backend.Formats.{
  System, single_elimination, double_elimination, swiss, round_robin, hybrid,
}
use joust_backend.Match.{is_completed, MatchRow, completed_match_data, World, put_match, Reply}
use joust_backend.Match.Service.{Handler}
use joust_backend.Match.Soundness.{Option-Holds, Bool-Holds}
use joust_backend.Completion.{Setting}
use joust_backend.Completion.Step.{
  along, is_fed, walked_over, dead, settle_seats, settle_losers_starvation, advance_winner,
  advance_loser, step_single, step_double, step_by_system, handle_match_completion,
}
use joust_backend.Completion.Fuel.{budget, Within, Yields, Fits, done-Within}
use joust_backend.Completion.Fuel.Moves.{Yields-weaker, completed_fits, advance-Fits}
use joust_backend.Completion.Fuel.Budget.{
  and_then-Yields, along-Yields, budget-check_single_elimination_complete,
  budget-check_tournament_complete, check_double_elimination_complete-Within,
}

-- The systems whose matches are all drawn up at the start.
abbrev pub creates_no_rounds : System → Bool
creates_no_rounds single_elimination = true
creates_no_rounds double_elimination = true
creates_no_rounds round_robin = true
creates_no_rounds swiss = false
creates_no_rounds hybrid = false

-- Fuel k is enough for the walk down the losers side.
abbrev Settles : ℕ → ℕ → (ℕ → World → Reply World) → Type 0
Settles n k go =
    (id b : ℕ) (v : World) → Within b v → b < k → b < suc n → Yields (Within b) (go id v)

module _ (s : Setting) (n : ℕ) (handle : Handler) (fits : Fits n handle) where
  settle_seats-Fits :
      (k b id : ℕ) (go : ℕ → World → Reply World) (m : MatchRow) (p1 p2 : Option ℕ) (w : World)
      → lookup id w.matches ≡ some m
      → is_completed m.status ≡ false
      → Settles n k go
      → Within b w
      → b < suc k
      → b < suc n
      → Yields (Within b) (settle_seats go handle s id m p1 p2 w)
  unfolding settle_seats walked_over dead completed_match_data
  settle_seats-Fits k b id go m (some p1) (some p2) w here open_row settles h deep room = h
  settle_seats-Fits k b id go m (some p1) none w here open_row settles h deep room =
      completed_fits n handle fits b id m (walked_over s.now (some p1) m) w _ here open_row refl
        refl refl h room
  settle_seats-Fits k b id go m none (some p2) w here open_row settles h deep room =
      completed_fits n handle fits b id m (walked_over s.now (some p2) m) w _ here open_row refl
        refl refl h room
  settle_seats-Fits k b id go m none none w here open_row settles h deep room =
      Yields-weaker (b - 1) b _ (ground arith) (
        and_then-Yields (Within (b - 1)) (Within (b - 1)) _ _
          (along-Yields (Within (b - 1)) m.next_match_id go _ killed.1 (λ next.
            settles next (b - 1) _ killed.1 (ground (arith, killed.0)) (ground (arith, killed.0))))
          (λ v settled. along-Yields (Within (b - 1)) m.loser_next_match_id go v settled (λ next.
            settles next (b - 1) v settled (ground (arith, killed.0)) (ground (arith, killed.0)))))
    where
      killed :
          (budget (put_match id (dead s.now m) w) < b)
          × Within (b - 1) (put_match id (dead s.now m) w)
      killed = done-Within b id m (dead s.now m) w _ here open_row refl refl refl h

  settle_losers_starvation-Fits : (k : ℕ) → Settles n k (settle_losers_starvation k handle s)
  unfolding settle_losers_starvation
  settle_losers_starvation-Fits zero id b w h deep room = ground arith
  settle_losers_starvation-Fits (suc k) id b w h deep room =
      Option-Holds (Yields (Within b)) (lookup id w.matches) _ _ (λ missing. h)
        (λ m here.
          Bool-Holds (Yields (Within b)) (not (is_completed m.status) && is_fed id w.matches) _ _
            (λ starved.
              settle_seats-Fits k b id _ m m.player1_id m.player2_id w here (ground arith)
                (settle_losers_starvation-Fits k) h deep room)
            (λ waiting. h))

  advance_winner-Fits :
      (b : ℕ) (m : MatchRow) (w : World)
      → Within b w
      → b < suc n
      → Yields (Within b) (advance_winner handle s m w)
  unfolding advance_winner
  advance_winner-Fits b m w h room = along-Yields (Within b) m.next_match_id _ w h (λ next.
      along-Yields (Within b) m.winner_id _ w h
        (λ winner. advance-Fits n handle fits s.tournament s.now b winner next w h room))

  advance_loser-Fits :
      (b : ℕ) (m : MatchRow) (w : World)
      → Within b w
      → b < suc n
      → Yields (Within b) (advance_loser handle s m w)
  unfolding advance_loser
  advance_loser-Fits b m w h room = along-Yields (Within b) m.loser_next_match_id _ w h (λ next.
      along-Yields (Within b) (if m.player1_id ==? m.winner_id then m.player2_id else m.player1_id)
        _ w h (λ loser. advance-Fits n handle fits s.tournament s.now b loser next w h room))

  step_single-Fits :
      (b : ℕ) (m : MatchRow) (w : World)
      → Within b w
      → b < suc n
      → Yields (Within b) (step_single handle s m w)
  unfolding step_single
  step_single-Fits b m w h room =
      and_then-Yields (Within b) (Within b) _ _ (advance_winner-Fits b m w h room)
        (λ v kept. ground (arith, budget-check_single_elimination_complete s m.round_number v))

  step_double-Fits :
      (b : ℕ) (m : MatchRow) (w : World)
      → Within b w
      → b < suc n
      → Yields (Within b) (step_double (suc n) handle s m w)
  unfolding step_double
  step_double-Fits b m w h room =
      and_then-Yields (Within b) (Within b) _ _ (advance_winner-Fits b m w h room) (λ v1 h1.
        and_then-Yields (Within b) (Within b) _ _ (advance_loser-Fits b m v1 h1 room) (λ v2 h2.
          and_then-Yields (Within b) (Within b) _ _ (settled m.next_match_id v2 h2) (λ v3 h3.
            and_then-Yields (Within b) (Within b) _ _ (settled m.loser_next_match_id v3 h3)
              (λ v4 h4. check_double_elimination_complete-Within b s v4 h4))))
    where
      settled :
          (next : Option ℕ) (v : World)
          → Within b v
          → Yields (Within b) (along next (settle_losers_starvation (suc n) handle s) v)
      settled next v within =
          along-Yields (Within b) next _ v within
            (λ id. settle_losers_starvation-Fits (suc n) id b v within room room)

  step_by_system-Fits :
      (system : System) (b : ℕ) (m : MatchRow) (w : World)
      → creates_no_rounds system ≡ true
      → Within b w
      → b < suc n
      → Yields (Within b) (step_by_system (suc n) handle s system m w)
  unfolding step_by_system
  step_by_system-Fits single_elimination b m w bracket h room = step_single-Fits b m w h room
  step_by_system-Fits double_elimination b m w bracket h room = step_double-Fits b m w h room
  step_by_system-Fits round_robin b m w bracket h room =
      ground (arith, budget-check_tournament_complete s w)
  step_by_system-Fits swiss b m w bracket h room = ground arith
  step_by_system-Fits hybrid b m w bracket h room = ground arith

pub handle_match_completion-Fits :
    (s : Setting)
    → creates_no_rounds s.tournament.system ≡ true
    → (n : ℕ) → Fits n (handle_match_completion n s)
unfolding handle_match_completion
handle_match_completion-Fits s bracket zero id w b h room = ground arith
handle_match_completion-Fits s bracket (suc n) id w b h room =
    Option-Holds (Yields (Within b)) (lookup id w.matches) _ _ (λ missing. h)
      (λ m here.
        step_by_system-Fits s n _ (handle_match_completion-Fits s bracket n) s.tournament.system b m
          w bracket h room)

-- In a single or double elimination and in a round robin, what follows the completion of a match
-- ends: with more fuel than matches that are not completed, and one more while no grand final reset
-- exists, the completion never runs out of fuel, and that number does not grow.
pub handle_match_completion_terminates :
    (s : Setting) (fuel id : ℕ) (w : World)
    → creates_no_rounds s.tournament.system ≡ true
    → budget w < fuel
    → Yields (λ v. budget v ≤ budget w) (handle_match_completion fuel s id w)
handle_match_completion_terminates s fuel id w bracket enough =
    handle_match_completion-Fits s bracket fuel id w (budget w) (ground arith) enough
