-- ===== src/Completion/Fuel.antt =====
-- How much fuel the recursion between src/Formats/formats.service.ts and
-- src/tournament/match/match.service.ts needs: every call back into `handleMatchCompletion` follows
-- a match that was completed.
pub mod Moves
pub mod Budget
pub mod Enough
use joust_backend.Prelude.{
  ℕ, zero, suc, ◌+◌, ◌-◌, ◌≤◌, ◌<◌, ◌≡◌, refl, Option, none, some, is_some, List, [], ◌∷◌, Bool,
  true, false, not, any, All, ◌&&◌, ◌||◌, ◌==◌, ◌==?◌, if◌then◌else◌, arith,
}
use joust_backend.Prelude.Dict.{Dict, lookup, insert}
use joust_backend.Formats.{win}
use joust_backend.Match.{
  is_completed, is_pending, MatchRow, completed_match_data, World, put_match, Tournament, Refusal,
  Reply, ok, refused, and_then, first_refusal, round_exists, out_of_fuel,
}
use joust_backend.Match.Service.{
  Handler, guarded, with_match, update_match_stats, submit_guards, finalize, submit_result,
}
use joust_backend.Match.Lifecycle.{
  is_full, seat_winner, advance, complete_as_walkover, resolve_pair, resolve_forfeited_pairing,
}
use joust_backend.Match.Soundness.{Option-Holds, Bool-Holds}
use joust_backend.Completion.Checks.{has_round}

-- The matches that are not completed.
unfoldable pub running : Dict MatchRow → ℕ
running [] = 0
running ((id, m) ∷ rest) =
    let others = running rest in if is_completed m.status then others else suc others

-- The matches that can still be completed: a grand final reset may be created, once.
unfoldable pub budget : World → ℕ
budget w = running w.matches + (if has_round 201 w then 0 else 1)

abbrev pub Within : ℕ → World → Type 0
Within b w = budget w ≤ b

abbrev pub is_out_of_fuel : Refusal → Bool
is_out_of_fuel out_of_fuel = true
is_out_of_fuel Refusal.match_not_found = false
is_out_of_fuel Refusal.already_completed = false
is_out_of_fuel Refusal.bye_match = false
is_out_of_fuel Refusal.awaiting_verification = false
is_out_of_fuel Refusal.draws_not_allowed = false
is_out_of_fuel Refusal.system_needs_winner = false
is_out_of_fuel Refusal.series_needs_winner = false
is_out_of_fuel Refusal.threshold_needs_winner = false
is_out_of_fuel Refusal.bad_best_of = false
is_out_of_fuel Refusal.not_a_player = false
is_out_of_fuel Refusal.organizer_must_submit = false
is_out_of_fuel Refusal.not_a_scorer = false
is_out_of_fuel Refusal.draw_needs_organizer = false
is_out_of_fuel Refusal.no_reported_score = false
is_out_of_fuel Refusal.only_completed = false
is_out_of_fuel Refusal.dependent_started = false
is_out_of_fuel Refusal.dependent_round = false
is_out_of_fuel Refusal.conflicting_participants = false
is_out_of_fuel Refusal.started_or_full = false
is_out_of_fuel Refusal.players_missing = false
is_out_of_fuel Refusal.may_not_start = false
is_out_of_fuel round_exists = false
is_out_of_fuel Refusal.no_tie = false
is_out_of_fuel Refusal.tiebreakers_identical = false
is_out_of_fuel Refusal.type_error = false
is_out_of_fuel Refusal.not_organizer = false
is_out_of_fuel Refusal.invalid_transition = false
is_out_of_fuel Refusal.not_open_yet = false
is_out_of_fuel Refusal.already_finished = false
is_out_of_fuel Refusal.already_started = false
is_out_of_fuel Refusal.too_few_players = false
is_out_of_fuel Refusal.no_format = false
is_out_of_fuel Refusal.builds_missing = false
is_out_of_fuel Refusal.generation_failed = false

-- The operation returns or throws, and what it returns has the property.
abbrev pub Yields : (World → Type 0) → Reply World → Type 0
Yields P (ok w) = P w
Yields P (refused why) = is_out_of_fuel why ≡ false

-- Fuel n is enough for every world with a budget below n.
abbrev pub Fits : ℕ → Handler → Type 0
Fits n handle = (id : ℕ) (v : World) (b : ℕ) → Within b v → b < n → Yields (Within b) (handle id v)

pub running-insert_same :
    (id : ℕ) (m n : MatchRow) (d : Dict MatchRow)
    → lookup id d ≡ some m
    → is_completed n.status ≡ is_completed m.status
    → running (insert id n d) ≡ running d
unfolding running lookup insert
running-insert_same id m n [] e same = ground arith
running-insert_same id m n ((k, o) ∷ d) e same = ground (arith, running-insert_same id m n d)

running-insert_done :
    (id : ℕ) (m n : MatchRow) (d : Dict MatchRow)
    → lookup id d ≡ some m
    → is_completed m.status ≡ false
    → is_completed n.status ≡ true
    → suc (running (insert id n d)) ≡ running d
unfolding running lookup insert
running-insert_done id m n [] e open_row done = ground arith
running-insert_done id m n ((k, o) ∷ d) e open_row done =
    ground (arith, running-insert_done id m n d)

pub running-insert_more :
    (id : ℕ) (n : MatchRow) (d : Dict MatchRow) → running (insert id n d) ≤ suc (running d)
unfolding running insert
running-insert_more id n [] = ground arith
running-insert_more id n ((k, o) ∷ d) = ground (arith, running-insert_more id n d)

-- A row written over one with the same status.
pub same-Within :
    (b id : ℕ) (m n : MatchRow) (w : World)
    → lookup id w.matches ≡ some m
    → is_completed n.status ≡ is_completed m.status
    → Within b w
    → Within b (put_match id n w)
unfolding budget
same-Within b id m n w e same h = ground (arith, running-insert_same id m n w.matches)

-- A match completed: the rest fits in one less, whatever else was written.
pub done-Within :
    (b id : ℕ) (m n : MatchRow) (v w : World)
    → lookup id v.matches ≡ some m
    → is_completed m.status ≡ false
    → is_completed n.status ≡ true
    → w.matches ≡ insert id n v.matches
    → w.round_numbers ≡ v.round_numbers
    → Within b v
    → (budget w < b) × Within (b - 1) w
unfolding budget
done-Within b id m n v w e open_row done same rounds h =
    ground (arith, running-insert_done id m n v.matches)
