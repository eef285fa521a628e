-- ===== src/Placement.antt =====
-- Final placings: `computeStructuralPlacements` of src/leaderboard/leaderboard.service.ts and
-- `resolveFinalPlacements` of src/tournament/tournament.service.ts.
pub mod Runs
pub mod Ranking
pub mod Structural
pub mod Cut
use joust_backend.Prelude.{
  ℕ, zero, suc, ◌+◌, Option, none, some, or_else, is_some, List, [], ◌∷◌, map, Bool, true, false,
  not, ltb, leb, max, length, select, ◌&&◌, ◌||◌, ◌==◌, ◌==?◌, if◌then◌else◌,
}
use joust_backend.Prelude.Dict.{Dict, lookup, insert, add}
use joust_backend.Formats.{
  System, single_elimination, double_elimination, swiss, round_robin, hybrid,
}
use joust_backend.Match.{is_completed, MatchRow}

-- How far a player got: `-Infinity` without a loss, the round of the last loss, and `Infinity` for
-- the champion.
pub data Run : Type 0 where
  unbeaten : Run
  lost_in : ℕ → Run
  crowned : Run

-- `>` on these numbers.
unfoldable pub beyond : Run → Run → Bool
beyond unbeaten b = false
beyond (lost_in r) unbeaten = true
beyond (lost_in r) (lost_in q) = ltb q r
beyond (lost_in r) crowned = false
beyond crowned unbeaten = true
beyond crowned (lost_in q) = true
beyond crowned crowned = false

-- `===` on these numbers.
unfoldable pub same_run : Run → Run → Bool
same_run unbeaten unbeaten = true
same_run unbeaten (lost_in q) = false
same_run unbeaten crowned = false
same_run (lost_in r) unbeaten = false
same_run (lost_in r) (lost_in q) = r == q
same_run (lost_in r) crowned = false
same_run crowned unbeaten = false
same_run crowned (lost_in q) = false
same_run crowned crowned = true

-- The matches that count: completed, played, and of the phase, if one is asked for.
unfoldable pub counts : Option ℕ → MatchRow → Bool
counts none m = is_completed m.status && not m.is_bye
counts (some phase) m = (is_completed m.status && not m.is_bye) && m.phase == phase

unfoldable pub note_player : Option ℕ → List ℕ → List ℕ
note_player none everyone = everyone
note_player (some p) everyone = add p everyone

-- `everyone`; the order of the set is of no consequence for the placings.
unfoldable pub everyone_in : List MatchRow → List ℕ
everyone_in [] = []
everyone_in (m ∷ ms) = note_player m.player1_id (note_player m.player2_id (everyone_in ms))

-- The loser of a match that has a winner.
unfoldable pub loser_of : MatchRow → Option ℕ
loser_of m = elim m.winner_id [
  | none ↦ none
  | some winner ↦ if m.player1_id ==? some winner then m.player2_id else m.player1_id
]

abbrev note_loss : Option ℕ → ℕ → Dict ℕ → Dict ℕ
note_loss none round_number losses = losses
note_loss (some loser) round_number losses =
    insert loser (elim (lookup loser losses) [ none ↦ round_number | some r ↦ max r round_number ])
      losses

-- `lastLossRound`
unfoldable pub last_loss_round : List MatchRow → Dict ℕ → Dict ℕ
last_loss_round [] losses = losses
last_loss_round (m ∷ ms) losses = last_loss_round ms (note_loss (loser_of m) m.round_number losses)

-- The match that nothing advances out of, in the highest round, the first of these.
unfoldable pub decider : List MatchRow → Option MatchRow
decider [] = none
decider (m ∷ ms) =
    let rest = decider ms in
    if not (is_some m.next_match_id) && is_some m.winner_id
    then (elim rest [
      | none ↦ some m
      | some later ↦ if ltb m.round_number later.round_number then some later else some m
    ])
    else rest

unfoldable pub champion_of : List MatchRow → Option ℕ
champion_of ms = elim (decider ms) [ none ↦ none | some m ↦ m.winner_id ]

-- `aOut`
unfoldable pub run_of : Option ℕ → Dict ℕ → ℕ → Run
run_of champion losses id =
    if some id ==? champion
    then crowned
    else (elim (lookup id losses) [ none ↦ unbeaten | some r ↦ lost_in r ])

-- `Array.sort`, which keeps the order of equal items, by the comparison `before`.
unfoldable pub place {ℓ} : {A : Type ℓ} → (A → A → Bool) → A → List A → List A
place before x [] = x ∷ []
place before x (y ∷ ys) =
    let rest = place before x ys in if before y x then y ∷ rest else x ∷ y ∷ ys

unfoldable pub sort_by {ℓ} : {A : Type ℓ} → (A → A → Bool) → List A → List A
sort_by before [] = []
sort_by before (x ∷ xs) = place before x (sort_by before xs)

abbrev pub runs_on : Option Run → Run → Bool
runs_on none out = false
runs_on (some previous) out = same_run out previous

-- The loop over the ranked players: `rank` is theirs while they went out with the one before.
unfoldable pub number_ranks : (ℕ → Run) → ℕ → ℕ → Option Run → List ℕ → Dict ℕ
number_ranks out rank seen previous [] = []
number_ranks out rank seen previous (id ∷ ids) =
    if runs_on previous (out id)
    then (id, rank) ∷ number_ranks out rank (suc seen) previous ids
    else (id, suc seen) ∷ number_ranks out (suc seen) (suc seen) (some (out id)) ids

-- The placings of a field by how far each player got.
unfoldable pub place_field : (ℕ → Run) → List ℕ → Dict ℕ
place_field out everyone =
    number_ranks out 0 0 none (sort_by (λ a b. beyond (out a) (out b)) everyone)

-- `computeStructuralPlacements`, on the rows of the tournament's matches.
unfoldable pub compute_structural_placements : Option ℕ → List MatchRow → Dict ℕ
compute_structural_placements phase rows =
    let ms = select (counts phase) rows in
    place_field (run_of (champion_of ms) (last_loss_round ms [])) (everyone_in ms)

-- An entry of the points leaderboard: the user and the rank.
pub record Placed : Type 0 where
  pub user_id : ℕ
  pub rank : ℕ

abbrev pub is_empty_map : Dict ℕ → Bool
is_empty_map [] = true
is_empty_map (e ∷ rest) = false

-- An elimination bracket: those it does not place keep the rank they had on points.
unfoldable pub by_bracket : Dict ℕ → List Placed → List Placed
by_bracket structural [] = []
by_bracket structural (e ∷ es) =
    record e { rank = or_else (lookup e.user_id structural) e.rank } ∷ by_bracket structural es

-- A hybrid: those outside of the cut follow in the order of the first phase.
unfoldable pub below_cut : Dict ℕ → ℕ → List Placed → List Placed
below_cut structural next_rank [] = []
below_cut structural next_rank (e ∷ es) = elim (lookup e.user_id structural) [
  | some placed ↦ record e { rank = placed } ∷ below_cut structural next_rank es
  | none ↦ record e { rank = suc next_rank } ∷ below_cut structural (suc next_rank) es
]

abbrev pub by_rank : List Placed → List Placed
by_rank = sort_by (λ (a b : Placed). ltb a.rank b.rank)

unfoldable pub or_points : List Placed → Dict ℕ → List Placed → List Placed
or_points points structural placed = if is_empty_map structural then points else by_rank placed

-- `resolveFinalPlacements`
unfoldable pub resolve_final_placements : System → List MatchRow → List Placed → List Placed
resolve_final_placements single_elimination rows points =
    let structural = compute_structural_placements none rows in
    or_points points structural (by_bracket structural points)
resolve_final_placements double_elimination rows points =
    let structural = compute_structural_placements none rows in
    or_points points structural (by_bracket structural points)
resolve_final_placements hybrid rows points =
    let structural = compute_structural_placements (some 2) rows in
    or_points points structural (below_cut structural (length structural) points)
resolve_final_placements swiss rows points = points
resolve_final_placements round_robin rows points = points
