-- ===== src/Match/Authority.antt =====
-- What a player of a match can do by reporting its games.
use joust_backend.Prelude.{ℕ, ◌≡◌, ◌≢◌, refl, sym, Option, none, some, true, arith}
use joust_backend.Prelude.Dict.{lookup, lookup-insert}
use mathlib.Core.Path.{subst}
use joust_backend.Match.{
  MatchStatus, MatchRow, World, put_match, ScoreRule, wins_needed, User, Tournament,
  is_participant_of_match, Reply, ok, refused, ScoreActor, staff, participant, resolve_score_actor,
}
use joust_backend.Match.Service.{
  Handler, with_match_found, game_won, is_decided, settle_series, report_game_result,
}
use joust_backend.Match.Soundness.{Returns, guarded-Returns, Bool-Returns}

-- The state and the winner of a match.
abbrev pub verdict_of : Option MatchRow → Option (MatchStatus × Option ℕ)
verdict_of none = none
verdict_of (some m) = some (m.status, m.winner_id)

-- No match has been completed or decided, and nothing has been credited.
abbrev pub Undecided : World → World → Type 0
Undecided w v =
    (v.stats ≡ w.stats)
    × ((j : ℕ) → verdict_of (lookup j v.matches) ≡ verdict_of (lookup j w.matches))

put_match-Undecided :
    (w v : World) (id : ℕ) (m n : MatchRow)
    → lookup id v.matches ≡ some m
    → n.status ≡ m.status
    → n.winner_id ≡ m.winner_id
    → Undecided w v
    → Undecided w (put_match id n v)
put_match-Undecided w v id m n here same_status same_winner (credited, verdicts) =
    (credited, (λ j. ground (arith, lookup-insert id j n v.matches, verdicts j)))

never_staff :
    (t : Tournament) (m : MatchRow) (user : Option User) (rule : ScoreRule)
    → is_participant_of_match user m ≡ true
    → resolve_score_actor t m user rule ≢ ok staff
unfolding resolve_score_actor
never_staff t m user ScoreRule.staff_only plays = ground arith
never_staff t m user ScoreRule.self_report_allowed plays = ground arith

settle_series-Undecided :
    (handle : Handler) (t : Tournament) (now id : ℕ) (m : MatchRow) (w v : World)
    → lookup id v.matches ≡ some m
    → Undecided w v
    → Returns (Undecided w) (settle_series handle t now id participant m v)
unfolding settle_series
settle_series-Undecided handle t now id m w v here same =
    Bool-Returns (Undecided w) (is_decided (wins_needed (t.config_of m.phase).best_of) m) _ _
      (λ decided. put_match-Undecided w v id m _ here refl refl same) (λ playing. same)

won_status : (g : ℕ) (m : MatchRow) → (game_won g m).status ≡ m.status
unfolding game_won
won_status g m = refl

won_winner : (g : ℕ) (m : MatchRow) → (game_won g m).winner_id ≡ m.winner_id
unfolding game_won
won_winner g m = refl

-- Whatever game a player of the match reports, whoever else the player is, no match is completed,
-- no winner is set and nothing is credited.
pub report_game_result-Undecided :
    (handle : Handler) (t : Tournament) (now id g : ℕ) (user : Option User) (m : MatchRow)
    (w : World)
    → lookup id w.matches ≡ some m
    → is_participant_of_match user m ≡ true
    → Returns (Undecided w) (report_game_result handle t now id g user w)
unfolding report_game_result
report_game_result-Undecided handle t now id g user m w here plays =
    subst (Returns (Undecided w)) (sym (with_match_found id w _ m here)) (
      guarded-Returns (Undecided w) _ _ (λ accepted.
        go (resolve_score_actor t m user (t.config_of m.phase).score_rule)
          (never_staff t m user (t.config_of m.phase).score_rule plays)))
  where
    reported : Undecided w (put_match id (game_won g m) w)
    reported =
        put_match-Undecided w w id m (game_won g m) here (won_status g m) (won_winner g m)
          (refl, (λ j. refl))

    found : (n : MatchRow) → lookup id (put_match id n w).matches ≡ some n
    found n = ground (arith, lookup-insert id id n w.matches)

    go :
        (r : Reply ScoreActor)
        → r ≢ ok staff
        → Returns (Undecided w) (elim r [
          | refused why ↦ refused why
          | ok actor ↦
              settle_series handle t now id actor (game_won g m) (put_match id (game_won g m) w)
        ])
    go (refused why) other = tt
    go (ok staff) other = absurd (other refl)
    go (ok participant) other =
        settle_series-Undecided handle t now id (game_won g m) w (put_match id (game_won g m) w)
          (found (game_won g m)) reported
