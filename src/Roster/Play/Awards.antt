-- ===== src/Roster/Play/Awards.antt =====
-- The walkovers of `forfeitParticipant` in src/tournament/participant/participant.service.ts end.
use joust_backend.Prelude.{ℕ, suc, ◌≤◌, ◌<◌, ◌≡◌, Option, none, some, [], ◌∷◌, Bool, true, arith}
use joust_backend.Prelude.Dict.{Dict}
use joust_backend.Match.{MatchRow, World, ok}
use joust_backend.Match.Service.{Handler}
use joust_backend.Match.Lifecycle.{complete_as_walkover}
use joust_backend.Completion.{Setting}
use joust_backend.Completion.Step.{handle_match_completion}
use joust_backend.Completion.Fuel.{budget, Within, Yields, Fits}
use joust_backend.Completion.Fuel.Moves.{complete_as_walkover-Fits}
use joust_backend.Completion.Fuel.Budget.{and_then-Yields}
use joust_backend.Completion.Fuel.Enough.{creates_no_rounds, handle_match_completion-Fits}
use joust_backend.Roster.{Club}
use joust_backend.Roster.Play.{opponent_of, award_all, is_forfeited_in, unplayed_of, mark_forfeited}

award_all-Fits :
    (n : ℕ) (handle : Handler) (now user : ℕ) (rows : Dict MatchRow) (b : ℕ) (w : World)
    → Fits n handle
    → Within b w
    → b < suc n
    → Yields (Within b) (award_all handle now user rows w)
unfolding award_all
award_all-Fits n handle now user [] b w fits h room = h
award_all-Fits n handle now user ((id, m) ∷ rows) b w fits h room =
    and_then-Yields (Within b) (Within b) _ _ (go (opponent_of user m))
      (λ v kept. award_all-Fits n handle now user rows b v fits kept room)
  where
    go :
        (r : Option ℕ)
        → Yields
            (Within b)
            (elim r [ none ↦ ok w | some opponent ↦ complete_as_walkover handle now id opponent w ])
    go none = h
    go (some opponent) = complete_as_walkover-Fits n handle fits now b id opponent w h room

-- The setting of the bracket code once these players have forfeited.
unfoldable pub forfeiting : Setting → (ℕ → Bool) → Setting
forfeiting s gone = record s { tournament = record s.tournament { is_forfeited = gone } }

-- In a single or double elimination and in a round robin, the walkovers of a forfeit end: with no
-- less fuel than matches that are not completed, and one more while no grand final reset exists, they
-- never run out of fuel, and that number does not grow.
pub award_all_terminates :
    (s : Setting) (fuel user : ℕ) (c : Club)
    → creates_no_rounds s.tournament.system ≡ true
    → budget c.world ≤ fuel
    → (let marked = mark_forfeited user c in
        let handle =
          handle_match_completion fuel (forfeiting s (is_forfeited_in marked.participants)) in
        Yields
          (λ w. budget w ≤ budget c.world)
          (award_all handle s.now user (unplayed_of user marked.world.matches) marked.world))
unfolding mark_forfeited forfeiting
award_all_terminates s fuel user c bracket enough =
    award_all-Fits fuel _ s.now user _ (budget c.world) c.world
      (handle_match_completion-Fits
        (forfeiting s (is_forfeited_in (mark_forfeited user c).participants)) bracket fuel)
      (ground arith) (ground arith)
