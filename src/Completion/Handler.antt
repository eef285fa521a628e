-- ===== src/Completion/Handler.antt =====
-- The whole `handleMatchCompletion` of src/Formats/formats.service.ts keeps the completed matches
-- sound.
use joust_backend.Prelude.{
  ℕ, zero, suc, ◌≡◌, refl, Option, none, some, or_else, List, true, false, not, ltb, leb, length,
  every, ◌&&◌, ◌==◌, ◌==?◌, if◌then◌else◌, arith,
}
use joust_backend.Prelude.Dict.{lookup}
use joust_backend.Formats.{
  System, single_elimination, double_elimination, swiss, round_robin, hybrid,
}
use joust_backend.Match.{
  is_completed, MatchRow, completed_match_data, World, put_match, Tournament, Reply,
}
use joust_backend.Match.Service.{Handler}
use joust_backend.Match.Lifecycle.{is_full}
use joust_backend.Match.Soundness.{
  is_sound_row, Returns, Sound, KeepsSound, Option-Returns, Bool-Returns, insert-AreSound,
}
use joust_backend.Match.Advancement.{advance-Sound}
use joust_backend.Match.Requests.{Request, serve, serve-Sound}
use joust_backend.Completion.{Setting, matches_of_round, top_is_tied, default_rounds}
use joust_backend.Completion.Checks.{
  is_done, check_single_elimination_complete, check_tournament_complete, check_swiss_round_complete,
  top_cut_size, check_hybrid_phase1_complete, take_ids,
}
use joust_backend.Completion.Step.{
  along, is_fed, walked_over, dead, settle_seats, settle_losers_starvation, advance_winner,
  advance_loser, step_single, step_double, step_by_system, handle_match_completion,
}
use joust_backend.Completion.Sound.{
  and_then-Returns, same_matches-Sound, init_single_elimination-Sound,
  generate_next_swiss_round-Sound,
}
use joust_backend.Completion.Checked.{
  complete_tournament-Sound, complete_with-Sound, check_single_elimination_complete_matches,
  check_tournament_complete_matches, check_double_elimination_complete-Sound,
}

along-Returns :
    (P : World → Type 0) (step : Option ℕ) (f : ℕ → World → Reply World) (w : World)
    → P w
    → ((id : ℕ) → Returns P (f id w))
    → Returns P (along step f w)
along-Returns P none f w h k = h
along-Returns P (some id) f w h k = k id

walked_over_sound :
    (t : Tournament) (now : ℕ) (winner : Option ℕ) (m : MatchRow)
    → is_full m ≡ false
    → is_sound_row t (walked_over now winner m) ≡ true
unfolding is_sound_row walked_over completed_match_data
walked_over_sound t now winner m vacant = ground arith

dead_sound :
    (t : Tournament) (now : ℕ) (m : MatchRow)
    → is_full m ≡ false
    → is_sound_row t (dead now m) ≡ true
unfolding is_sound_row dead completed_match_data
dead_sound t now m vacant = ground arith

module _ (s : Setting) (handle : Handler) (safe : KeepsSound s.tournament handle) where
  abbrev t : Tournament
  t = s.tournament

  settle_seats-Sound :
      (go : ℕ → World → Reply World) (id : ℕ) (m : MatchRow) (p1 p2 : Option ℕ) (w : World)
      → m.player1_id ≡ p1
      → m.player2_id ≡ p2
      → KeepsSound t go
      → Sound t w
      → Returns (Sound t) (settle_seats go handle s id m p1 p2 w)
  unfolding settle_seats
  settle_seats-Sound go id m (some p1) (some p2) w e1 e2 settles sound = sound
  settle_seats-Sound go id m (some p1) none w e1 e2 settles sound = safe id _ (
      insert-AreSound t id _ w.matches (walked_over_sound t s.now (some p1) m (ground arith)) sound)
  settle_seats-Sound go id m none (some p2) w e1 e2 settles sound = safe id _ (
      insert-AreSound t id _ w.matches (walked_over_sound t s.now (some p2) m (ground arith)) sound)
  settle_seats-Sound go id m none none w e1 e2 settles sound =
      let kept : Sound t (put_match id (dead s.now m) w) =
        insert-AreSound t id (dead s.now m) w.matches (dead_sound t s.now m (ground arith)) sound in
      and_then-Returns (Sound t) (Sound t) _ _
        (along-Returns (Sound t) m.next_match_id go _ kept (λ next. settles next _ kept))
        (λ v settled.
          along-Returns (Sound t) m.loser_next_match_id go v settled
            (λ next. settles next v settled))

  settle_losers_starvation-Sound :
      (fuel : ℕ) → KeepsSound t (settle_losers_starvation fuel handle s)
  unfolding settle_losers_starvation
  settle_losers_starvation-Sound zero id w sound = tt
  settle_losers_starvation-Sound (suc fuel) id w sound =
      Option-Returns (Sound t) (lookup id w.matches) _ _ (λ missing. sound)
        (λ m here.
          Bool-Returns (Sound t) (not (is_completed m.status) && is_fed id w.matches) _ _
            (λ starved.
              settle_seats-Sound _ id m m.player1_id m.player2_id w refl refl
                (settle_losers_starvation-Sound fuel) sound)
            (λ waiting. sound))

  advance_winner-Sound :
      (m : MatchRow) (w : World) → Sound t w → Returns (Sound t) (advance_winner handle s m w)
  unfolding advance_winner
  advance_winner-Sound m w sound = along-Returns (Sound t) m.next_match_id _ w sound (λ next.
      along-Returns (Sound t) m.winner_id _ w sound
        (λ winner. advance-Sound t handle safe s.now winner next w sound))

  advance_loser-Sound :
      (m : MatchRow) (w : World) → Sound t w → Returns (Sound t) (advance_loser handle s m w)
  unfolding advance_loser
  advance_loser-Sound m w sound = along-Returns (Sound t) m.loser_next_match_id _ w sound (λ next.
      along-Returns (Sound t) (if m.player1_id ==? m.winner_id then m.player2_id else m.player1_id)
        _ w sound (λ loser. advance-Sound t handle safe s.now loser next w sound))

  step_single-Sound :
      (m : MatchRow) (w : World) → Sound t w → Returns (Sound t) (step_single handle s m w)
  unfolding step_single
  step_single-Sound m w sound =
      and_then-Returns (Sound t) (Sound t) _ _ (advance_winner-Sound m w sound) (λ v kept.
        same_matches-Sound t (check_single_elimination_complete s m.round_number v) v
          (check_single_elimination_complete_matches s m.round_number v) kept)

  step_double-Sound :
      (fuel : ℕ) (m : MatchRow) (w : World)
      → Sound t w
      → Returns (Sound t) (step_double fuel handle s m w)
  unfolding step_double
  step_double-Sound fuel m w sound =
      and_then-Returns (Sound t) (Sound t) _ _ (advance_winner-Sound m w sound) (λ v1 h1.
        and_then-Returns (Sound t) (Sound t) _ _ (advance_loser-Sound m v1 h1) (λ v2 h2.
          and_then-Returns (Sound t) (Sound t) _ _ (settled m.next_match_id v2 h2) (λ v3 h3.
            and_then-Returns (Sound t) (Sound t) _ _ (settled m.loser_next_match_id v3 h3)
              (λ v4 h4. check_double_elimination_complete-Sound s t v4 h4))))
    where
      settled :
          (next : Option ℕ) (v : World)
          → Sound t v
          → Returns (Sound t) (along next (settle_losers_starvation fuel handle s) v)
      settled next v h =
          along-Returns (Sound t) next _ v h (λ id. settle_losers_starvation-Sound fuel id v h)

  check_swiss_round_complete-Sound :
      (number : ℕ) (w : World)
      → Sound t w
      → Returns (Sound t) (check_swiss_round_complete handle s number w)
  unfolding check_swiss_round_complete
  check_swiss_round_complete-Sound number w sound =
      Bool-Returns (Sound t) (every is_done (matches_of_round number w.matches)) _ _
        (λ done.
          Bool-Returns (Sound t)
            (leb (or_else s.swiss_rounds (default_rounds s.participants)) number) _ _
            (λ last.
              Bool-Returns (Sound t) (top_is_tied (s.leaderboard w)) _ _ (λ tied. sound)
                (λ decided. complete_with-Sound s t _ w sound))
            (λ more. generate_next_swiss_round-Sound s handle safe (suc number) 1 w sound))
        (λ playing. sound)

  check_hybrid_phase1_complete-Sound :
      (number : ℕ) (w : World)
      → Sound t w
      → Returns (Sound t) (check_hybrid_phase1_complete handle s number w)
  unfolding check_hybrid_phase1_complete
  check_hybrid_phase1_complete-Sound number w sound =
      Bool-Returns (Sound t) (every is_done (matches_of_round number w.matches)) _ _
        (λ done.
          Bool-Returns (Sound t)
            (ltb number (or_else s.swiss_rounds (default_rounds s.participants))) _ _
            (λ more. generate_next_swiss_round-Sound s handle safe (suc number) 1 w sound)
            (λ last.
              Bool-Returns (Sound t) (ltb (length (take_ids (top_cut_size s) (s.leaderboard w))) 2)
                _ _ (λ few. complete_tournament-Sound s t w sound)
                (λ cut. init_single_elimination-Sound s handle safe _ true _ 2 w sound)))
        (λ playing. sound)

  step_by_system-Sound :
      (fuel : ℕ) (system : System) (m : MatchRow) (w : World)
      → Sound t w
      → Returns (Sound t) (step_by_system fuel handle s system m w)
  unfolding step_by_system
  step_by_system-Sound fuel single_elimination m w sound = step_single-Sound m w sound
  step_by_system-Sound fuel double_elimination m w sound = step_double-Sound fuel m w sound
  step_by_system-Sound fuel swiss m w sound =
      check_swiss_round_complete-Sound m.round_number w sound
  step_by_system-Sound fuel round_robin m w sound =
      same_matches-Sound t (check_tournament_complete s w) w (check_tournament_complete_matches s w)
        sound
  step_by_system-Sound fuel hybrid m w sound =
      Bool-Returns (Sound t) (m.phase == 1) _ _
        (λ one. check_hybrid_phase1_complete-Sound m.round_number w sound)
        (λ two. step_single-Sound m w sound)

pub handle_match_completion-KeepsSound :
    (fuel : ℕ) (s : Setting) → KeepsSound s.tournament (handle_match_completion fuel s)
unfolding handle_match_completion
handle_match_completion-KeepsSound zero s id w sound = tt
handle_match_completion-KeepsSound (suc fuel) s id w sound =
    Option-Returns (Sound s.tournament) (lookup id w.matches) _ _ (λ missing. sound)
      (λ m here.
        step_by_system-Sound s _ (handle_match_completion-KeepsSound fuel s) (suc fuel)
          s.tournament.system m w sound)

-- Whatever requests the match service carries out with the bracket code behind it, and however much
-- fuel that code has, every completed match of the tournament, those of newly created rounds
-- included, that has both seats taken has one of the two for its winner, or no winner where it was a
-- bye or the system allows draws: if this holds at first.
pub serve-handle_match_completion :
    (s : Setting) (fuel : ℕ) (rs : List Request) (w : World)
    → Sound s.tournament w
    → Returns (Sound s.tournament) (serve (handle_match_completion fuel s) s.tournament rs w)
serve-handle_match_completion s fuel rs w =
    serve-Sound s.tournament (handle_match_completion fuel s) rs w
      (handle_match_completion-KeepsSound fuel s)
