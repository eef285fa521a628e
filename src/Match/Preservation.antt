-- ===== src/Match/Preservation.antt =====
-- Every request that the match service of src/tournament/match/match.service.ts takes keeps the
-- completed matches sound.
use joust_backend.Prelude.{ℕ, ◌≡◌, Option, none, some, Bool, true, false, if◌then◌else◌}
use joust_backend.Formats.{win}
use joust_backend.Match.{
  is_completed, MatchRow, completed_match_data, World, put_match, wins_needed, User, Tournament,
  Reply, ok, refused, ScoreActor, staff, participant, resolve_score_actor, Refusal,
}
use joust_backend.Match.Service.{
  Handler, update_match_stats, finalize, submit_result, report_draw, verify_result, series_winner,
  game_won, is_decided, settle_series, report_game_result,
}
use joust_backend.Match.Soundness.{
  is_sound_row, Returns, Sound, KeepsSound, guarded-Returns, with_match-Returns, running_sound,
  insert-AreSound, submitted_sound, drawn_sound, series_sound, reported-running,
}

module _ (t : Tournament) (handle : Handler) (safe : KeepsSound t handle) where
  finalize-Sound :
      (now id : ℕ) (winner : Option ℕ) (m : MatchRow) (w : World)
      → is_sound_row t (completed_match_data now winner m) ≡ true
      → Sound t w
      → Returns (Sound t) (finalize handle t now id winner m w)
  unfolding finalize update_match_stats
  finalize-Sound now id winner m w row sound =
      let done = completed_match_data now winner m in
      safe id (update_match_stats t win done (put_match id done w))
        (insert-AreSound t id done w.matches row sound)

  pub submit_result-Sound :
      (now id : ℕ) (winner : Option ℕ) (w : World)
      → Sound t w
      → Returns (Sound t) (submit_result handle t now id winner w)
  unfolding submit_result
  submit_result-Sound now id winner w sound = with_match-Returns (Sound t) id w _ (λ m here.
      guarded-Returns (Sound t) _ _ (λ accepted.
        finalize-Sound now id winner m w (submitted_sound t now m winner accepted) sound))

  pub report_draw-Sound :
      (now id : ℕ) (user : Option User) (w : World)
      → Sound t w
      → Returns (Sound t) (report_draw handle t now id user w)
  unfolding report_draw
  report_draw-Sound now id user w sound = with_match-Returns (Sound t) id w _ (λ m here.
      guarded-Returns (Sound t) _ _ (λ accepted.
        by_actor (resolve_score_actor t m user (t.config_of m.phase).score_rule) now id m w
          (drawn_sound t now m accepted) sound))
    where
      by_actor :
          (r : Reply ScoreActor) (now id : ℕ) (m : MatchRow) (w : World)
          → is_sound_row t (completed_match_data now none m) ≡ true
          → Sound t w
          → Returns (Sound t) (elim r [
            | refused why ↦ refused why
            | ok participant ↦ refused Refusal.draw_needs_organizer
            | ok staff ↦ finalize handle t now id none m w
          ])
      by_actor (refused why) now id m w row sound = tt
      by_actor (ok participant) now id m w row sound = tt
      by_actor (ok staff) now id m w row sound = finalize-Sound now id none m w row sound

  settle_series-Sound :
      (now id : ℕ) (actor : ScoreActor) (m : MatchRow) (w : World)
      → is_completed m.status ≡ false
      → Sound t w
      → Returns (Sound t) (settle_series handle t now id actor m w)
  unfolding settle_series
  settle_series-Sound now id actor m w running sound =
      go actor (is_decided (wins_needed (t.config_of m.phase).best_of) m)
    where
      go :
          (actor : ScoreActor) (decided : Bool)
          → Returns (Sound t) (
              if decided
              then (elim actor [
                | participant ↦ ok (
                    put_match id
                      (record m {
                        reported_winner_id =
                            series_winner (wins_needed (t.config_of m.phase).best_of) m;
                      })
                      w)
                | staff ↦
                    finalize handle t now id
                      (series_winner (wins_needed (t.config_of m.phase).best_of) m)
                      m
                      w
              ])
              else ok w)
      go actor false = sound
      go participant true = insert-AreSound t id _ w.matches (running_sound t _ running) sound
      go staff true =
          finalize-Sound now id _ m w
            (series_sound t now (wins_needed (t.config_of m.phase).best_of) m) sound

  pub report_game_result-Sound :
      (now id g : ℕ) (user : Option User) (w : World)
      → Sound t w
      → Returns (Sound t) (report_game_result handle t now id g user w)
  unfolding report_game_result
  report_game_result-Sound now id g user w sound = with_match-Returns (Sound t) id w _ (λ m here.
      guarded-Returns (Sound t) _ _ (λ accepted.
        by_actor (resolve_score_actor t m user (t.config_of m.phase).score_rule) m
          (reported-running t m g accepted)))
    where
      by_actor :
          (r : Reply ScoreActor) (m : MatchRow)
          → is_completed (game_won g m).status ≡ false
          → Returns (Sound t) (elim r [
            | refused why ↦ refused why
            | ok actor ↦
                settle_series handle t now id actor (game_won g m) (put_match id (game_won g m) w)
          ])
      by_actor (refused why) m running = tt
      by_actor (ok actor) m running =
          settle_series-Sound now id actor (game_won g m) (put_match id (game_won g m) w) running (
            insert-AreSound t id (game_won g m) w.matches (running_sound t (game_won g m) running)
              sound)

  pub verify_result-Sound :
      (now id : ℕ) (w : World) → Sound t w → Returns (Sound t) (verify_result handle t now id w)
  unfolding verify_result
  verify_result-Sound now id w sound =
      with_match-Returns (Sound t) id w _ (λ m here. go m.reported_winner_id)
    where
      go :
          (r : Option ℕ)
          → Returns (Sound t) (elim r [
            | none ↦ refused Refusal.no_reported_score
            | some winner ↦ submit_result handle t now id (some winner) w
          ])
      go none = tt
      go (some winner) = submit_result-Sound now id (some winner) w sound
