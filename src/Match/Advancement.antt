-- ===== src/Match/Advancement.antt =====
-- Reports, byes, starts, walkovers and advancement of src/tournament/match/match.service.ts keep the
-- completed matches sound.
use joust_backend.Prelude.{
  ℕ, ◌≡◌, refl, Option, none, some, [], ◌∷◌, Bool, true, false, not, ◌&&◌, ◌||◌, ◌==?◌, Bool-cases,
  inl, inr, if◌then◌else◌, arith,
}
use joust_backend.Prelude.Dict.{lookup, insert}
use joust_backend.Formats.{ByeResult, win, draw, uncounted}
use joust_backend.Match.{
  is_completed, is_pending, MatchRow, completed_match_data, World, put_match, User, Tournament, ok,
  first_refusal, Refusal,
}
use joust_backend.Match.Service.{Handler, in_match, update_match_stats, self_report_result}
use joust_backend.Match.Lifecycle.{
  game_taken_back, reject_reported_result, complete_as_walkover, resolve_pair,
  resolve_forfeited_pairing, is_full, seat_winner, advance, credit_seat, credit_bye, started,
  start_match,
}
use joust_backend.Match.Soundness.{
  is_sound_row, AreSound, Returns, Sound, KeepsSound, guarded-Returns, with_match-Returns,
  Option-Returns, Bool-Returns, running_sound, insert-AreSound,
}
use joust_backend.Match.Preservation.{submit_result-Sound}

-- A row that is not completed goes in anywhere.
pub running_in :
    (t : Tournament) (id : ℕ) (m : MatchRow) (w : World)
    → is_completed m.status ≡ false
    → Sound t w
    → AreSound t (insert id m w.matches)
running_in t id m w running sound =
    insert-AreSound t id m w.matches (running_sound t m running) sound

pub self_report_result-Sound :
    (t : Tournament) (id : ℕ) (winner : Option ℕ) (user : User) (w : World)
    → Sound t w
    → Returns (Sound t) (self_report_result t id winner user w)
unfolding self_report_result first_refusal
self_report_result-Sound t id winner user w sound =
    with_match-Returns (Sound t) id w _ (λ m here.
      guarded-Returns (Sound t) _ _ (λ accepted. running_in t id _ w (ground arith) sound))

pub reject_reported_result-Sound :
    (t : Tournament) (id : ℕ) (w : World)
    → Sound t w
    → Returns (Sound t) (reject_reported_result id w)
unfolding reject_reported_result game_taken_back first_refusal
reject_reported_result-Sound t id w sound = with_match-Returns (Sound t) id w _ (λ m here.
    Option-Returns (Sound t) m.reported_winner_id _ _ (λ nothing. tt)
      (λ winner reported.
        guarded-Returns (Sound t) _ _ (λ accepted. running_in t id _ w (ground arith) sound)))

started-running : (now : ℕ) (m : MatchRow) → is_completed (started now m).status ≡ false
unfolding started
started-running now m = refl

pub start_match-Sound :
    (t : Tournament) (now id : ℕ) (user : Option User) (w : World)
    → Sound t w
    → Returns (Sound t) (start_match t now id user w)
unfolding start_match
start_match-Sound t now id user w sound = with_match-Returns (Sound t) id w _ (λ m here.
    guarded-Returns (Sound t) _ _ (λ accepted. elim (Bool-cases (is_pending m.status)) [
      | inl waiting ↦ rw waiting (running_in t id (started now m) w (started-running now m) sound)
      | inr playing ↦ rw playing sound
    ]))

credit_seat-Sound :
    (bye : ByeResult) (t : Tournament) (id : ℕ) (m : MatchRow) (w : World)
    → m.is_bye ≡ true
    → Sound t w
    → Sound t (credit_seat bye t id m w)
unfolding credit_seat update_match_stats is_sound_row
credit_seat-Sound win t id m w bye sound = sound
credit_seat-Sound draw t id m w bye sound = insert-AreSound t id _ w.matches (ground arith) sound
credit_seat-Sound uncounted t id m w bye sound =
    insert-AreSound t id _ w.matches (ground arith) sound

pub credit_bye-Sound :
    (t : Tournament) (id : ℕ) (w : World) → Sound t w → Returns (Sound t) (ok (credit_bye t id w))
unfolding credit_bye
credit_bye-Sound t id w sound = go (lookup id w.matches)
  where
    seat :
        (m : MatchRow) (b : Bool)
        → (b ≡ true → m.is_bye ≡ true)
        → Sound t (if b then credit_seat (t.config_of m.phase).bye_result t id m w else w)
    seat m true h = credit_seat-Sound (t.config_of m.phase).bye_result t id m w (h refl) sound
    seat m false h = sound

    go :
        (r : Option MatchRow)
        → Sound t (elim r [
          | none ↦ w
          | some m ↦
              if m.is_bye && is_completed m.status
              then credit_seat (t.config_of m.phase).bye_result t id m w
              else w
        ])
    go none = sound
    go (some m) = seat m (m.is_bye && is_completed m.status) (λ h. ground arith)

module _ (t : Tournament) (handle : Handler) (safe : KeepsSound t handle) where
  walked_over_sound :
      (now winner : ℕ) (m : MatchRow)
      → in_match m winner ≡ true
      → is_sound_row t (completed_match_data now (some winner) m) ≡ true
  unfolding is_sound_row completed_match_data
  walked_over_sound now winner m plays = ground arith

  complete_as_walkover-Sound :
      (now id winner : ℕ) (w : World)
      → ((m : MatchRow) → lookup id w.matches ≡ some m → in_match m winner ≡ true)
      → Sound t w
      → Returns (Sound t) (complete_as_walkover handle now id winner w)
  unfolding complete_as_walkover
  complete_as_walkover-Sound now id winner w plays sound =
      Option-Returns (Sound t) (lookup id w.matches) _ _ (λ missing. sound)
        (λ m here.
          Bool-Returns (Sound t) (is_completed m.status) _ _ (λ over. sound)
            (λ running. safe id _ (
              insert-AreSound t id _ w.matches (walked_over_sound now winner m (plays m here))
                sound)))

  resolve_pair-Sound :
      (now id : ℕ) (m : MatchRow) (p1 p2 : Option ℕ) (w : World)
      → lookup id w.matches ≡ some m
      → m.player1_id ≡ p1
      → m.player2_id ≡ p2
      → Sound t w
      → Returns (Sound t) (resolve_pair handle t now id p1 p2 w)
  unfolding resolve_pair
  resolve_pair-Sound now id m none p2 w here e f sound = sound
  resolve_pair-Sound now id m (some p1) none w here e f sound = sound
  resolve_pair-Sound now id m (some p1) (some p2) w here e f sound =
      Bool-Returns (Sound t) (t.is_forfeited p1) _ _
        (λ out.
          Bool-Returns (Sound t) (t.is_forfeited p2) _ _ (λ both. sound)
            (λ other. complete_as_walkover-Sound now id p2 w (λ n there. ground arith) sound))
        (λ kept.
          Bool-Returns (Sound t) (t.is_forfeited p2) _ _
            (λ other. complete_as_walkover-Sound now id p1 w (λ n there. ground arith) sound)
            (λ both. sound))

  pub resolve_forfeited_pairing-Sound :
      (now id : ℕ) (w : World)
      → Sound t w
      → Returns (Sound t) (resolve_forfeited_pairing handle t now id w)
  unfolding resolve_forfeited_pairing
  resolve_forfeited_pairing-Sound now id w sound =
      Option-Returns (Sound t) (lookup id w.matches) _ _ (λ missing. sound)
        (λ m here.
          Bool-Returns (Sound t) (is_completed m.status) _ _ (λ over. sound)
            (λ running.
              resolve_pair-Sound now id m m.player1_id m.player2_id w here refl refl sound))

  seat_winner-running :
      (player : ℕ) (m : MatchRow)
      → first_refusal ((not (is_pending m.status) || is_full m, Refusal.started_or_full) ∷ [])
        ≡ none
      → is_completed (seat_winner player m).status ≡ false
  unfolding seat_winner first_refusal
  seat_winner-running player m h = ground arith

  pub advance-Sound :
      (now player next : ℕ) (w : World)
      → Sound t w
      → Returns (Sound t) (advance handle t now player next w)
  unfolding advance
  advance-Sound now player next w sound =
      Option-Returns (Sound t) (lookup next w.matches) _ _ (λ missing. sound)
        (λ m here.
          Bool-Returns (Sound t) ((m.player1_id ==? some player) || (m.player2_id ==? some player))
            _ _ (λ already. sound)
            (λ new. guarded-Returns (Sound t) _ _ (λ free.
              let written = put_match next (seat_winner player m) w in
              let kept : Sound t written =
                running_in t next (seat_winner player m) w (seat_winner-running player m free)
                  sound in
              Bool-Returns (Sound t) (is_full (seat_winner player m)) _ _
                (λ filled. resolve_forfeited_pairing-Sound now next written kept)
                (λ waiting.
                  Bool-Returns (Sound t) (seat_winner player m).is_bye _ _
                    (λ bye. submit_result-Sound t handle safe now next (some player) written kept)
                    (λ normal. kept)))))
