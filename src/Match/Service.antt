-- ===== src/Match/Service.antt =====
-- The operations of src/tournament/match/match.service.ts on scores and results. Each takes
-- `FormatsService.handleMatchCompletion` as its first argument.
use joust_backend.Prelude.{
  ℕ, ◌≡◌, refl, suc, Option, none, some, is_some, List, [], ◌∷◌, Bool, true, false, not, ltb, leb,
  ◌&&◌, ◌||◌, ◌==?◌, if◌then◌else◌,
}
use joust_backend.Prelude.Dict.{lookup}
use joust_backend.Prelude.Int.{ℤ, pos, negsuc}
use joust_backend.Formats.{ByeResult, win, system_allows_draw}
use joust_backend.Stats.{grant, apply_match_stats}
use joust_backend.Match.{
  is_completed, MatchRow, completed_match_data, result_of, World, put_match, ScoreRule, wins_needed,
  User, Tournament, Refusal, Reply, ok, refused, ScoreActor, staff, participant,
  resolve_score_actor, first_refusal, match_not_found, already_completed, bye_match,
  awaiting_verification, draws_not_allowed, system_needs_winner, series_needs_winner,
  threshold_needs_winner, bad_best_of, not_a_player, organizer_must_submit, draw_needs_organizer,
  no_reported_score,
}

-- `FormatsService.handleMatchCompletion(matchId)`.
abbrev pub Handler : Type 0
Handler = ℕ → World → Reply World

-- Guards, and what follows when none of them throws.
unfoldable pub guarded : {A : Type 0} → List (Bool × Refusal) → Reply A → Reply A
unfolding first_refusal
guarded guards rest = elim (first_refusal guards) [ some why ↦ refused why | none ↦ rest ]

-- `prisma.match.findUnique` and the exception for a missing row.
unfoldable pub with_match : {A : Type 0} → ℕ → World → (MatchRow → Reply A) → Reply A
with_match id w f = elim (lookup id w.matches) [ none ↦ refused match_not_found | some m ↦ f m ]

pub guarded_pass :
    {A : Type 0} (guards : List (Bool × Refusal)) (rest : Reply A)
    → first_refusal guards ≡ none
    → guarded guards rest ≡ rest
unfolding guarded
guarded_pass guards rest h = rw (h, guarded) refl

pub with_match_found :
    {A : Type 0} (id : ℕ) (w : World) (f : MatchRow → Reply A) (m : MatchRow)
    → lookup id w.matches ≡ some m
    → with_match id w f ≡ f m
unfolding with_match
with_match_found id w f m h = rw (h, with_match) refl

-- `updateMatchStats(matchId, points, byeResult, 1)` on the row as it is stored.
unfoldable pub update_match_stats : Tournament → ByeResult → MatchRow → World → World
update_match_stats t bye_result m w = record w {
  stats =
      apply_match_stats t.system (t.config_of m.phase).points bye_result grant false (result_of m)
        w.stats;
}

-- The end of every accepted result: the write, the statistics, the bracket.
unfoldable pub finalize : Handler → Tournament → ℕ → ℕ → Option ℕ → MatchRow → World → Reply World
finalize handle t now id winner m w =
    let done = completed_match_data now winner m in
    handle id (update_match_stats t win done (put_match id done w))

-- `>` on configured numbers, against 0 and 1.
abbrev pub above : ℕ → ℤ → Bool
above n (pos k) = ltb n k
above n (negsuc k) = false

abbrev pub in_match : MatchRow → ℕ → Bool
in_match m player = some player ==? m.player1_id || some player ==? m.player2_id

abbrev pub bad_winner : MatchRow → Option ℕ → Bool
bad_winner m none = false
bad_winner m (some winner) = not (in_match m winner)

unfoldable pub submit_guards : Tournament → MatchRow → Option ℕ → List (Bool × Refusal)
submit_guards t m winner =
    let config = t.config_of m.phase in
    let without_winner = not (is_some winner) in
    (is_completed m.status, already_completed)
    ∷ (bad_winner m winner, not_a_player)
    ∷ (not (above 0 config.best_of), bad_best_of)
    ∷ (without_winner && not config.allow_draw, draws_not_allowed)
    ∷ (without_winner && not (system_allows_draw t.system m.phase), system_needs_winner)
    ∷ (above 0 config.points_threshold && without_winner, threshold_needs_winner)
    ∷ (above 1 config.best_of && without_winner, series_needs_winner)
    ∷ []

-- `submitResult`
unfoldable pub submit_result : Handler → Tournament → ℕ → ℕ → Option ℕ → World → Reply World
submit_result handle t now id winner w =
    with_match id w
      (λ (m : MatchRow). guarded (submit_guards t m winner) (finalize handle t now id winner m w))

abbrev pub is_awaiting : MatchRow → Bool
is_awaiting m = is_some m.reported_winner_id && not (is_some m.winner_id)

unfoldable pub draw_guards : Tournament → MatchRow → List (Bool × Refusal)
draw_guards t m =
    let config = t.config_of m.phase in
    (is_completed m.status, already_completed)
    ∷ (m.is_bye, bye_match)
    ∷ (is_awaiting m, awaiting_verification)
    ∷ (not config.allow_draw, draws_not_allowed)
    ∷ (not (system_allows_draw t.system m.phase), system_needs_winner)
    ∷ (above 1 config.best_of, series_needs_winner)
    ∷ (above 0 config.points_threshold, threshold_needs_winner)
    ∷ []

-- `reportDraw`
unfoldable pub report_draw : Handler → Tournament → ℕ → ℕ → Option User → World → Reply World
report_draw handle t now id user w = with_match id w (λ (m : MatchRow).
    guarded (draw_guards t m)
      (elim (resolve_score_actor t m user (t.config_of m.phase).score_rule) [
        | refused why ↦ refused why
        | ok participant ↦ refused draw_needs_organizer
        | ok staff ↦ finalize handle t now id none m w
      ]))

abbrev forbids_players : ScoreRule → Bool
forbids_players ScoreRule.staff_only = true
forbids_players ScoreRule.self_report_allowed = false

-- `selfReportResult`
unfoldable pub self_report_result : Tournament → ℕ → Option ℕ → User → World → Reply World
self_report_result t id winner user w = with_match id w (λ (m : MatchRow).
    guarded
      ((is_completed m.status, already_completed)
        ∷ (not (in_match m user.user_id), not_a_player)
        ∷ (bad_winner m winner, not_a_player)
        ∷ (forbids_players (t.config_of m.phase).score_rule, organizer_must_submit)
        ∷ [])
      (ok (put_match id (record m { reported_winner_id = winner }) w)))

-- `verifyResult`
unfoldable pub verify_result : Handler → Tournament → ℕ → ℕ → World → Reply World
verify_result handle t now id w = with_match id w (λ (m : MatchRow). elim m.reported_winner_id [
  | none ↦ refused no_reported_score
  | some winner ↦ submit_result handle t now id (some winner) w
])

-- `matchWinnerId` of `reportGameResult`.
abbrev pub series_winner : ℕ → MatchRow → Option ℕ
series_winner wins_req m = if leb wins_req m.player1_score then m.player1_id else m.player2_id

unfoldable pub report_guards : MatchRow → ℕ → List (Bool × Refusal)
report_guards m game_winner =
    (is_completed m.status, already_completed)
    ∷ (m.is_bye, bye_match)
    ∷ (is_awaiting m, awaiting_verification)
    ∷ (not (in_match m game_winner), not_a_player)
    ∷ []

-- The increment of the scores.
unfoldable pub game_won : ℕ → MatchRow → MatchRow
game_won game_winner m = record m {
  player1_score =
      (if some game_winner ==? m.player1_id then suc m.player1_score else m.player1_score);
  player2_score =
      (if some game_winner ==? m.player2_id then suc m.player2_score else m.player2_score);
}

unfoldable pub is_decided : ℕ → MatchRow → Bool
is_decided wins_req m = leb wins_req m.player1_score || leb wins_req m.player2_score

-- The series after the game: play on, wait for an organizer, or complete.
unfoldable pub settle_series :
    Handler → Tournament → ℕ → ℕ → ScoreActor → MatchRow → World → Reply World
settle_series handle t now id actor m w =
    let wins_req = wins_needed (t.config_of m.phase).best_of in
    if is_decided wins_req m
    then (elim actor [
      | participant ↦
          ok (put_match id (record m { reported_winner_id = series_winner wins_req m }) w)
      | staff ↦ finalize handle t now id (series_winner wins_req m) m w
    ])
    else ok w

-- `reportGameResult`
unfoldable pub report_game_result :
    Handler → Tournament → ℕ → ℕ → ℕ → Option User → World → Reply World
report_game_result handle t now id game_winner user w = with_match id w (λ (m : MatchRow).
    guarded (report_guards m game_winner)
      (elim (resolve_score_actor t m user (t.config_of m.phase).score_rule) [
        | refused why ↦ refused why
        | ok actor ↦
            let updated = game_won game_winner m in
            settle_series handle t now id actor updated (put_match id updated w)
      ]))
