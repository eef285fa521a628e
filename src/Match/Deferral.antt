-- ===== src/Match/Deferral.antt =====
-- A player's deciding game, which waits for an organizer: verifying it and rejecting it.
use joust_backend.Prelude.{
  ℕ, ◌<◌, ◌≡◌, ◌≢◌, refl, ap, ◌∙◌, sym, Option, none, some, [], ◌∷◌, true, false, ◌==◌,
  if◌then◌else◌, arith,
}
use joust_backend.Prelude.Dict.{Dict, lookup, insert, lookup-insert}
use joust_backend.Formats.{win}
use joust_backend.Stats.{apply_match_stats}
use joust_backend.Match.{
  is_completed, MatchRow, completed_match_data, World, put_match, wins_needed, User, Tournament,
  Reply, ok, refused, ScoreActor, staff, participant, resolve_score_actor, first_refusal,
}
use joust_backend.Match.Service.{
  Handler, guarded_pass, with_match_found, finalize, above, in_match, submit_guards, submit_result,
  verify_result, series_winner, report_guards, game_won, is_decided, settle_series,
  report_game_result, is_awaiting, update_match_stats,
}
use joust_backend.Match.Lifecycle.{game_taken_back, reject_reported_result, reopen_deciding}

-- One operation after another.
abbrev pub then_do : {A B : Type 0} → Reply A → (A → Reply B) → Reply B
then_do (ok a) f = f a
then_do (refused why) f = refused why

insert_twice :
    (k : ℕ) (a b : MatchRow) (d : Dict MatchRow) → insert k b (insert k a d) ≡ insert k b d
unfolding insert
insert_twice k a b [] = ground arith
insert_twice k a b ((j, c) ∷ d) = ground (arith, insert_twice k a b d)

-- A series that is not decided yet, between two different players.
abbrev pub IsOpen : ℕ → MatchRow → Type 0
IsOpen wins_req m =
    (m.player1_id ≢ m.player2_id) × (m.player1_score < wins_req) × (m.player2_score < wins_req)

-- When a game decides a series that was open before it, between two different players, the winner of
-- the match is the winner of the game.
pub series_winner-game_won :
    (wins_req game_winner : ℕ) (m : MatchRow)
    → IsOpen wins_req m
    → in_match m game_winner ≡ true
    → is_decided wins_req (game_won game_winner m) ≡ true
    → series_winner wins_req (game_won game_winner m) ≡ some game_winner
unfolding game_won is_decided
series_winner-game_won wins_req g m (ne, low1, low2) seat decided = ground arith

-- The guards of a report, read back.
report_guards_lem :
    (m : MatchRow) (g : ℕ)
    → first_refusal (report_guards m g) ≡ none
    → (is_completed m.status ≡ false) × (is_awaiting m ≡ false) × (in_match m g ≡ true)
unfolding report_guards first_refusal
report_guards_lem m g h = ground arith

-- With a winner in the match, verifying meets no guard.
submit_guards_lem :
    (t : Tournament) (m : MatchRow) (g : ℕ)
    → is_completed m.status ≡ false
    → in_match m g ≡ true
    → above 0 (t.config_of m.phase).best_of ≡ true
    → first_refusal (submit_guards t m (some g)) ≡ none
unfolding submit_guards first_refusal
submit_guards_lem t m g h k l = ground arith

pub put_twice :
    (id : ℕ) (a b : MatchRow) (w : World) → put_match id b (put_match id a w) ≡ put_match id b w
put_twice id a b w =
    ap (λ (d : Dict MatchRow). record w { matches = d }) (insert_twice id a b w.matches)

pub lookup_put : (k : ℕ) (a : MatchRow) (d : Dict MatchRow) → lookup k (insert k a d) ≡ some a
lookup_put k a d = ground (arith, lookup-insert k k a d)

-- An accepted report goes on to settle the series.
report_accepted :
    (handle : Handler) (t : Tournament) (now id g : ℕ) (user : Option User) (actor : ScoreActor)
    (m : MatchRow) (w : World)
    → lookup id w.matches ≡ some m
    → first_refusal (report_guards m g) ≡ none
    → resolve_score_actor t m user (t.config_of m.phase).score_rule ≡ ok actor
    → report_game_result handle t now id g user w
      ≡ settle_series handle t now id actor (game_won g m) (put_match id (game_won g m) w)
unfolding report_game_result
report_accepted handle t now id g user actor m w here accepted who =
    with_match_found id w _ m here ∙ guarded_pass _ _ accepted ∙ (rw who refl)

-- The world after a player's deciding game.
abbrev waiting : ℕ → ℕ → MatchRow → World → World
waiting id g m w =
    put_match id (record (game_won g m) { reported_winner_id = some g })
      (put_match id (game_won g m) w)

settle_participant :
    (handle : Handler) (t : Tournament) (now id g : ℕ) (m : MatchRow) (w : World)
    → let wins_req = wins_needed (t.config_of m.phase).best_of in
      is_decided wins_req (game_won g m) ≡ true
      → series_winner wins_req (game_won g m) ≡ some g
      → settle_series handle t now id participant (game_won g m) (put_match id (game_won g m) w)
        ≡ ok (waiting id g m w)
unfolding settle_series is_decided insert wins_needed game_won
settle_participant handle t now id g m w decided winner = rw (decided, winner, settle_series) refl

settle_staff :
    (handle : Handler) (t : Tournament) (now id g : ℕ) (m : MatchRow) (w : World)
    → let wins_req = wins_needed (t.config_of m.phase).best_of in
      is_decided wins_req (game_won g m) ≡ true
      → series_winner wins_req (game_won g m) ≡ some g
      → settle_series handle t now id staff (game_won g m) (put_match id (game_won g m) w)
        ≡ finalize handle t now id (some g) (game_won g m) (put_match id (game_won g m) w)
unfolding settle_series is_decided finalize wins_needed update_match_stats game_won insert
    apply_match_stats
settle_staff handle t now id g m w decided winner = rw (decided, winner, settle_series) refl

verify_waiting :
    (handle : Handler) (t : Tournament) (now id g : ℕ) (m : MatchRow) (w : World)
    → is_completed m.status ≡ false
    → in_match m g ≡ true
    → above 0 (t.config_of m.phase).best_of ≡ true
    → verify_result handle t now id (waiting id g m w)
      ≡ finalize handle t now id (some g) (game_won g m) (put_match id (game_won g m) w)
unfolding verify_result submit_result finalize completed_match_data game_won
verify_waiting handle t now id g m w running seat positive =
    let row : MatchRow = record (game_won g m) { reported_winner_id = some g } in
    let before = put_match id (game_won g m) w in
    let done = completed_match_data now (some g) (game_won g m) in
    let there : lookup id (waiting id g m w).matches ≡ some row =
      lookup_put id row before.matches in
    with_match_found id (waiting id g m w) _ row there
    ∙ with_match_found id (waiting id g m w) _ row there
    ∙ guarded_pass _ _ (submit_guards_lem t row g running seat positive)
    ∙ ap (λ (v : World). handle id (update_match_stats t win done v)) (put_twice id row done before)

-- When a player of the match reports the game that decides an open series and an organizer then
-- verifies it, the outcome (match, statistics and bracket) is the one that the organizer's own
-- report of that game at the later time gives. The report must meet no guard, the players must
-- differ, and the configured series must have at least one game.
pub verify_result-report_game_result :
    (handle : Handler) (t : Tournament) (now later id g : ℕ) (player judge : Option User)
    (m : MatchRow) (w : World)
    → lookup id w.matches ≡ some m
    → first_refusal (report_guards m g) ≡ none
    → resolve_score_actor t m player (t.config_of m.phase).score_rule ≡ ok participant
    → resolve_score_actor t m judge (t.config_of m.phase).score_rule ≡ ok staff
    → above 0 (t.config_of m.phase).best_of ≡ true
    → IsOpen (wins_needed (t.config_of m.phase).best_of) m
    → is_decided (wins_needed (t.config_of m.phase).best_of) (game_won g m) ≡ true
    → then_do (report_game_result handle t now id g player w) (verify_result handle t later id)
      ≡ report_game_result handle t later id g judge w
verify_result-report_game_result handle t now later id g player judge m w here accepted by_player
      by_judge positive playing decided =
    let (running, awaiting, seat) = report_guards_lem m g accepted in
    let winner = series_winner-game_won _ g m playing seat decided in
    ap (λ (r : Reply World). then_do r (verify_result handle t later id))
      (report_accepted handle t now id g player participant m w here accepted by_player
        ∙ settle_participant handle t now id g m w decided winner)
    ∙ verify_waiting handle t later id g m w running seat positive
    ∙ sym (
        report_accepted handle t later id g judge staff m w here accepted by_judge
        ∙ settle_staff handle t later id g m w decided winner)

taken_back-game_won :
    (m : MatchRow) (g : ℕ)
    → m.reported_winner_id ≡ none
    → record (game_taken_back g (record (game_won g m) { reported_winner_id = some g })) {
      reported_winner_id = none;
    }
      ≡ m
unfolding game_taken_back game_won
taken_back-game_won m g h = ground arith

not_awaiting :
    (m : MatchRow) → is_awaiting m ≡ false → m.winner_id ≡ none → m.reported_winner_id ≡ none
not_awaiting m h k = ground arith

-- When a player of the match reports the game that decides an open series without a winner and the
-- organizer rejects it, the match is the row it was before the report and the deciding game's log is
-- reopened. The report must meet no guard and the players must differ.
pub reject_reported_result-report_game_result :
    (handle : Handler) (t : Tournament) (now id g : ℕ) (player : Option User) (m : MatchRow)
    (w : World)
    → lookup id w.matches ≡ some m
    → first_refusal (report_guards m g) ≡ none
    → resolve_score_actor t m player (t.config_of m.phase).score_rule ≡ ok participant
    → m.winner_id ≡ none
    → IsOpen (wins_needed (t.config_of m.phase).best_of) m
    → is_decided (wins_needed (t.config_of m.phase).best_of) (game_won g m) ≡ true
    → then_do (report_game_result handle t now id g player w) (reject_reported_result id)
      ≡ ok (record (put_match id m w) {
        game_logs = λ j. if j == id then reopen_deciding g (w.game_logs j) else w.game_logs j;
      })
unfolding reject_reported_result game_won game_taken_back first_refusal
reject_reported_result-report_game_result handle t now id g player m w here accepted by_player unwon
      playing decided =
    let (running, awaiting, seat) = report_guards_lem m g accepted in
    let winner = series_winner-game_won _ g m playing seat decided in
    let row : MatchRow = record (game_won g m) { reported_winner_id = some g } in
    let there : lookup id (waiting id g m w).matches ≡ some row =
      lookup_put id row (put_match id (game_won g m) w).matches in
    let back : MatchRow = record (game_taken_back g row) { reported_winner_id = none } in
    let unreported : m.reported_winner_id ≡ none = not_awaiting m awaiting unwon in
    ap (λ (r : Reply World). then_do r (reject_reported_result id))
      (report_accepted handle t now id g player participant m w here accepted by_player
        ∙ settle_participant handle t now id g m w decided winner)
    ∙ with_match_found id (waiting id g m w) _ row there
    ∙ guarded_pass _ _ (rw (running, first_refusal) refl)
    ∙ ap
        (λ (d : Dict MatchRow). ok (record w {
          matches = d;
          game_logs = λ j. if j == id then reopen_deciding g (w.game_logs j) else w.game_logs j;
        }))
        (insert_twice id row back (put_match id (game_won g m) w).matches
          ∙ insert_twice id (game_won g m) back w.matches
          ∙ ap (λ (r : MatchRow). insert id r w.matches) (taken_back-game_won m g unreported))
