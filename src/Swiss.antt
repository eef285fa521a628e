-- ===== src/Swiss.antt =====
-- Swiss pairing: `buildSwissMatchHistory`, `buildSwissPairings` and the bye of
-- `generateNextSwissRound` in src/Formats/formats.service.ts.
pub mod Scan
pub mod Matching
pub mod Round
pub mod Opponents
use joust_backend.Prelude.{
  ℕ, zero, suc, ◌+◌, ◌%◌, Option, none, some, or_else, List, [], ◌∷◌, map, Bool, true, false, not,
  ltb, ◌==◌, length, select, if◌then◌else◌,
}
use joust_backend.Prelude.Dict.{Dict, lookup, insert, contains, add}
use joust_backend.Prelude.Int.{ℤ, pos, abs_diff}

-- The columns of `match` that the history reads.
pub record HistoryRow : Type 0 where
  pub player1_id : Option ℕ
  pub player2_id : Option ℕ
  pub is_bye : Bool

pub record History : Type 0 where
  pub opponent_history : Dict (List ℕ)
  pub bye_count : Dict ℕ

-- `if (!opponentHistory.has(p)) opponentHistory.set(p, new Set())`
ensure : ℕ → Dict (List ℕ) → Dict (List ℕ)
ensure p h = elim (lookup p h) [ none ↦ insert p [] h | some met ↦ h ]

-- `opponentHistory.get(p)?.add(q)`
meet : ℕ → ℕ → Dict (List ℕ) → Dict (List ℕ)
meet p q h = elim (lookup p h) [ none ↦ h | some met ↦ insert p (add q met) h ]

count_bye : ℕ → Bool → Dict ℕ → Dict ℕ
count_bye p is_bye c = insert p (or_else (lookup p c) 0 + (if is_bye then 1 else 0)) c

record_opponents : ℕ → ℕ → Dict (List ℕ) → Dict (List ℕ)
unfolding ensure meet
record_opponents p1 p2 h = meet p2 p1 (meet p1 p2 (ensure p2 (ensure p1 h)))

-- The round of the loop for a match whose first seat is taken.
history_seated : ℕ → Option ℕ → Bool → History → History
unfolding ensure count_bye record_opponents
history_seated p1 p2 true h = record {
  opponent_history = ensure p1 h.opponent_history;
  bye_count = count_bye p1 true h.bye_count;
}
history_seated p1 none false h = record {
  opponent_history = ensure p1 h.opponent_history;
  bye_count = count_bye p1 false h.bye_count;
}
history_seated p1 (some p2) false h = record {
  opponent_history = record_opponents p1 p2 h.opponent_history;
  bye_count = count_bye p1 false h.bye_count;
}

history_step : Option ℕ → HistoryRow → History → History
unfolding history_seated
history_step none row h = h
history_step (some p1) row h = history_seated p1 row.player2_id row.is_bye h

history_loop : List HistoryRow → History → History
unfolding history_step
history_loop [] h = h
history_loop (row ∷ rows) h = history_loop rows (history_step row.player1_id row h)

pub build_swiss_match_history : List HistoryRow → History
unfolding history_loop
build_swiss_match_history rows =
    history_loop rows (record { opponent_history = []; bye_count = [] })

-- `opponentHistory.get(p1)?.has(candidate) ?? false`
pub has_met : History → ℕ → ℕ → Bool
has_met h p1 candidate = contains candidate (or_else (lookup p1 h.opponent_history) [])

-- `new Map(leaderboard.map((e) => [e.userId, e.points]))`: a later entry replaces an earlier one.
score_map : List (ℕ × ℤ) → Dict ℤ → Dict ℤ
score_map [] m = m
score_map ((id, points) ∷ leaderboard) m = score_map leaderboard (insert id points m)

score_of : Dict ℤ → ℕ → ℤ
score_of m id = or_else (lookup id m) (pos 0)

-- The variables of the inner loop; a difference that is still `Infinity` is `none`.
pub record Best : Type 0 where
  pub best_p2 : Option ℕ
  pub best_score_diff : Option ℕ
  pub fallback_p2 : Option ℕ
  pub fallback_score_diff : Option ℕ

-- `diff < bound`
abbrev pub below : ℕ → Option ℕ → Bool
below diff none = true
below diff (some bound) = ltb diff bound

-- One candidate that is still free.
unfoldable pub consider : ℕ → Bool → ℕ → Best → Best
consider candidate false diff b =
    if below diff b.best_score_diff
    then record b { best_p2 = some candidate; best_score_diff = some diff }
    else b
consider candidate true diff b =
    if below diff b.fallback_score_diff
    then record b { fallback_p2 = some candidate; fallback_score_diff = some diff }
    else b

-- The inner loop, over the players below `p1`.
pub scan : (ℕ → ℕ) → (ℕ → Bool) → List ℕ → List ℕ → Best → Best
scan diff repeat used [] b = b
scan diff repeat used (c ∷ cs) b =
    scan diff repeat used cs (if contains c used then b else consider c (repeat c) (diff c) b)

abbrev pub nobody : Best
nobody = record {
  best_p2 = none;
  best_score_diff = none;
  fallback_p2 = none;
  fallback_score_diff = none;
}

-- `bestP2 ?? fallbackP2`
pub chosen : Best → Option ℕ
chosen b = elim b.best_p2 [ none ↦ b.fallback_p2 | some p2 ↦ some p2 ]

-- The opponent found for `p1` among the players below it.
unfoldable pub choose : (ℕ → ℕ) → (ℕ → Bool) → List ℕ → List ℕ → Option ℕ
unfolding scan chosen
choose diff repeat used candidates = chosen (scan diff repeat used candidates nobody)

-- The outer loop, over the players from index `i` on.
pub pair_loop : (ℕ → ℕ → ℕ) → (ℕ → ℕ → Bool) → List ℕ → List ℕ → List (ℕ × ℕ)
unfolding choose
pair_loop diff repeat [] used = []
pair_loop diff repeat (p1 ∷ rest) used = elim (contains p1 used) [
  | true ↦ pair_loop diff repeat rest used
  | false ↦ elim (choose (diff p1) (repeat p1) used rest) [
    | none ↦ pair_loop diff repeat rest used
    | some p2 ↦ (p1, p2) ∷ pair_loop diff repeat rest (p2 ∷ p1 ∷ used)
  ]
]

pub build_swiss_pairings : List ℕ → List (ℕ × ℤ) → History → List (ℕ × ℕ)
unfolding pair_loop score_map score_of
build_swiss_pairings player_ids leaderboard history =
    let scores = score_map leaderboard [] in
    pair_loop (λ p1 c. abs_diff (score_of scores c) (score_of scores p1)) (has_met history)
      player_ids []

-- `list[list.length - 1]`
pub last : List ℕ → Option ℕ
last [] = none
last (x ∷ []) = some x
last (x ∷ y ∷ xs) = last (y ∷ xs)

-- `splice(indexOf(id), 1)`
pub remove_first : ℕ → List ℕ → List ℕ
remove_first k [] = []
remove_first k (x ∷ xs) = if x == k then xs else x ∷ remove_first k xs

pub had_no_bye : Dict ℕ → ℕ → Bool
had_no_bye byes id = or_else (lookup id byes) 0 == 0

-- The player who sits out an odd round: the last without a bye so far, or else the last.
pub sit_out : Dict ℕ → List ℕ → Option ℕ
unfolding last had_no_bye
sit_out byes active = elim (last (select (had_no_bye byes) active)) [
  | none ↦ last active
  | some p ↦ some p
]

pub bye_player : Dict ℕ → List ℕ → Option ℕ
unfolding sit_out
bye_player byes active = if length active % 2 == 0 then none else sit_out byes active

pub pairable_ids : Option ℕ → List ℕ → List ℕ
unfolding remove_first
pairable_ids none active = active
pairable_ids (some bye) active = remove_first bye active

-- The pairings of `generateNextSwissRound` and its bye, from the leaderboard in its order, the
-- players who forfeited and the history.
pub record RoundPlan : Type 0 where
  pub pairings : List (ℕ × ℕ)
  pub bye : Option ℕ

pub next_swiss_round : List (ℕ × ℤ) → List ℕ → History → RoundPlan
unfolding bye_player pairable_ids build_swiss_pairings
next_swiss_round leaderboard forfeited history =
    let sorted_ids = map (λ (e : ℕ × ℤ). e.0) leaderboard in
    let active = select (λ id. not (contains id forfeited)) sorted_ids in
    let bye = bye_player history.bye_count active in
    record {
      pairings = build_swiss_pairings (pairable_ids bye active) leaderboard history;
      bye = bye;
    }
