-- ===== src/Match/Lifecycle.antt =====
-- The operations of src/tournament/match/match.service.ts around a result: taking back a report,
-- resetting, walkovers, byes, advancing into the next match, starting and linking.
use joust_backend.Prelude.{
  ℕ, ◌-◌, Option, none, some, or_else, is_some, List, [], ◌∷◌, map, Bool, true, false, not, leb,
  ◌&&◌, ◌||◌, ◌==◌, ◌==?◌, if◌then◌else◌,
}
use joust_backend.Prelude.Dict.{lookup}
use joust_backend.Formats.{ByeResult, win, draw, uncounted}
use joust_backend.Stats.{credit_walkover_win}
use joust_backend.Match.{
  MatchStatus, is_completed, is_pending, MatchRow, completed_match_data, GameLog, World, put_match,
  StartRule, User, Tournament, is_allowed, check_tournament_access, is_participant_of_match, Reply,
  ok, refused, already_completed, bye_match, no_reported_score, started_or_full, players_missing,
  may_not_start,
}
use joust_backend.Match.Service.{Handler, guarded, with_match, update_match_stats, submit_result}

-- The filter of `undoDecidingResult`.
abbrev decides : ℕ → GameLog → Bool
decides winner l = not l.tracker_active && (l.winner_id ==? some winner) && is_some l.completed_at

abbrev later : GameLog → Option GameLog → GameLog
later l none = l
later l (some r) = if leb r.game_number l.game_number then l else r

-- The first log of the filtered list in descending order of game number.
unfoldable pub deciding_log : ℕ → List GameLog → Option GameLog
deciding_log winner [] = none
deciding_log winner (l ∷ ls) =
    let rest = deciding_log winner ls in if decides winner l then some (later l rest) else rest

abbrev reopen_log : ℕ → GameLog → GameLog
reopen_log id l =
    if l.log_id == id
    then record l { tracker_active = true; winner_id = none; completed_at = none }
    else l

unfoldable pub reopen_deciding : ℕ → List GameLog → List GameLog
reopen_deciding winner logs = elim (deciding_log winner logs) [
  | none ↦ logs
  | some l ↦ map (reopen_log l.log_id) logs
]

-- `Math.max(0, score - 1)` for the side that won.
unfoldable pub game_taken_back : ℕ → MatchRow → MatchRow
game_taken_back winner m = record m {
  player1_score = (if some winner ==? m.player1_id then m.player1_score - 1 else m.player1_score);
  player2_score = (if some winner ==? m.player2_id then m.player2_score - 1 else m.player2_score);
}

-- `rejectReportedResult`
unfoldable pub reject_reported_result : ℕ → World → Reply World
reject_reported_result id w = with_match id w (λ (m : MatchRow). elim m.reported_winner_id [
  | none ↦ refused no_reported_score
  | some winner ↦ guarded ((is_completed m.status, already_completed) ∷ []) (
      ok
        (record (put_match id (record (game_taken_back winner m) { reported_winner_id = none }) w) {
          game_logs =
              λ j. if j == id then reopen_deciding winner (w.game_logs j) else w.game_logs j;
        }))
])

-- `completeAsWalkover`
unfoldable pub complete_as_walkover : Handler → ℕ → ℕ → ℕ → World → Reply World
complete_as_walkover handle now id winner w = elim (lookup id w.matches) [
  | none ↦ ok w
  | some m ↦
      if is_completed m.status
      then ok w
      else (let written = put_match id (completed_match_data now (some winner) m) w in
          handle id (record written { stats = credit_walkover_win winner written.stats }))
]

-- `resolveForfeitedPairing` for the two players of the match.
unfoldable pub resolve_pair :
    Handler → Tournament → ℕ → ℕ → Option ℕ → Option ℕ → World → Reply World
resolve_pair handle t now id none p2 w = ok w
resolve_pair handle t now id (some p1) none w = ok w
resolve_pair handle t now id (some p1) (some p2) w =
    if t.is_forfeited p1
    then (if t.is_forfeited p2 then ok w else complete_as_walkover handle now id p2 w)
    else (if t.is_forfeited p2 then complete_as_walkover handle now id p1 w else ok w)

-- `resolveForfeitedPairing`
unfoldable pub resolve_forfeited_pairing : Handler → Tournament → ℕ → ℕ → World → Reply World
resolve_forfeited_pairing handle t now id w = elim (lookup id w.matches) [
  | none ↦ ok w
  | some m ↦
      if is_completed m.status
      then ok w
      else resolve_pair handle t now id m.player1_id m.player2_id w
]

abbrev pub is_full : MatchRow → Bool
is_full m = is_some m.player1_id && is_some m.player2_id

-- The player takes the first free slot.
unfoldable pub seat_winner : ℕ → MatchRow → MatchRow
seat_winner player m = elim m.player1_id [
  | none ↦ record m { player1_id = some player }
  | some p ↦ record m { player2_id = some player }
]

-- `advanceWinner` and `advanceLoser`, whose bodies are the same.
unfoldable pub advance : Handler → Tournament → ℕ → ℕ → ℕ → World → Reply World
advance handle t now player next w = elim (lookup next w.matches) [
  | none ↦ ok w
  | some m ↦
      if (m.player1_id ==? some player) || (m.player2_id ==? some player)
      then ok w
      else guarded ((not (is_pending m.status) || is_full m, started_or_full) ∷ []) (
          let updated = seat_winner player m in
          let written = put_match next updated w in
          if is_full updated
          then resolve_forfeited_pairing handle t now next written
          else if updated.is_bye
          then submit_result handle t now next (some player) written
          else ok written)
]

-- A completed bye by the bye rule: a draw or an uncounted bye has no winner.
unfoldable pub credit_seat : ByeResult → Tournament → ℕ → MatchRow → World → World
credit_seat win t id m w = update_match_stats t win m w
credit_seat draw t id m w =
    let winnerless = record m { winner_id = none } in
    update_match_stats t draw winnerless (put_match id winnerless w)
credit_seat uncounted t id m w = put_match id (record m { winner_id = none }) w

-- `creditBye`
unfoldable pub credit_bye : Tournament → ℕ → World → World
credit_bye t id w = elim (lookup id w.matches) [
  | none ↦ w
  | some m ↦
      if m.is_bye && is_completed m.status
      then credit_seat (t.config_of m.phase).bye_result t id m w
      else w
]

abbrev lets_players_start : StartRule → Bool
lets_players_start StartRule.staff_only = false
lets_players_start StartRule.staff_and_participants = true

abbrev pub may_start : Tournament → Option User → MatchRow → Bool
may_start t user m =
    is_allowed (check_tournament_access (some t) user)
    || (lets_players_start (t.config_of m.phase).start_rule && is_participant_of_match user m)

-- `status: ONGOING`, with the first start kept.
unfoldable pub started : ℕ → MatchRow → MatchRow
started now m = record m {
  status = MatchStatus.ongoing;
  started_at = some (or_else m.started_at now);
}

-- `startMatch`
unfoldable pub start_match : Tournament → ℕ → ℕ → Option User → World → Reply World
start_match t now id user w = with_match id w (λ (m : MatchRow).
    guarded
      ((is_completed m.status, already_completed)
        ∷ (m.is_bye, bye_match)
        ∷ (not (is_full m), players_missing)
        ∷ (not (may_start t user m), may_not_start)
        ∷ [])
      (if is_pending m.status then ok (put_match id (started now m) w) else ok w))

-- `activateMatch`, on a match that exists.
unfoldable pub activate_match : ℕ → ℕ → World → Reply World
activate_match now id w = with_match id w (λ (m : MatchRow). ok (put_match id (started now m) w))
