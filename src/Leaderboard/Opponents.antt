-- ===== src/Leaderboard/Opponents.antt =====
-- The strength of a player's opponents: `computeOpponentTiebreakers` of
-- src/leaderboard/leaderboard.service.ts, with fractions in the place of floating-point numbers.
pub mod Maps
pub mod Bounds
use joust_backend.Prelude.{
  ℕ, zero, suc, ◌+◌, ◌*◌, Option, none, some, or_else, is_some, List, [], ◌∷◌, ◌++◌, map, Bool,
  true, false, ltb, ◌||◌, ◌&&◌, not, select, ◌==◌, max, length, if◌then◌else◌,
}
use joust_backend.Prelude.Dict.{Dict, lookup, insert}
use joust_backend.Match.{MatchRow, is_completed}

pub record Fraction : Type 0 where
  pub numerator : ℕ
  pub denominator : ℕ

abbrev pub none_of : Fraction
none_of = record { numerator = 0; denominator = 1 }

-- `a + b`
unfoldable pub plus : Fraction → Fraction → Fraction
plus a b = record {
  numerator = a.numerator * b.denominator + b.numerator * a.denominator;
  denominator = a.denominator * b.denominator;
}

-- `map.get(key) ?? 0`
unfoldable pub count_in : ℕ → Dict ℕ → ℕ
count_in key counts = or_else (lookup key counts) 0

-- `add`; `bump` adds one.
unfoldable pub add_count : ℕ → ℕ → Dict ℕ → Dict ℕ
add_count key n counts = insert key (count_in key counts + n) counts

-- The maps that the loops over the matches fill.
pub record Graph : Type 0 where
  pub opponents : Dict (List ℕ)
  pub played : Dict ℕ
  pub won : Dict ℕ
  pub games_won : Dict ℕ
  pub games_played : Dict ℕ

-- One more opponent of a player.
unfoldable pub add_opponent : ℕ → ℕ → Dict (List ℕ) → Dict (List ℕ)
add_opponent player other opponents =
    insert player (or_else (lookup player opponents) [] ++ (other ∷ [])) opponents

unfoldable pub add_win : Option ℕ → Dict ℕ → Dict ℕ
add_win none won = won
add_win (some winner) won = add_count winner 1 won

-- A match of these two players.
unfoldable pub add_pair : ℕ → ℕ → MatchRow → Graph → Graph
add_pair p1 p2 m g =
    let total = m.player1_score + m.player2_score in
    record {
      opponents = add_opponent p2 p1 (add_opponent p1 p2 g.opponents);
      played = add_count p2 1 (add_count p1 1 g.played);
      won = add_win m.winner_id g.won;
      games_won = add_count p2 m.player2_score (add_count p1 m.player1_score g.games_won);
      games_played = add_count p2 total (add_count p1 total g.games_played);
    }

-- `if (!m.player1Id || !m.player2Id) continue`
unfoldable pub add_seated : Option ℕ → Option ℕ → MatchRow → Graph → Graph
add_seated none p2 m g = g
add_seated (some p1) none m g = g
add_seated (some p1) (some p2) m g = add_pair p1 p2 m g

-- The loop over the completed matches that are no byes.
unfoldable pub add_matches : List MatchRow → Graph → Graph
add_matches [] g = g
add_matches (m ∷ ms) g = add_matches ms (add_seated m.player1_id m.player2_id m g)

-- A bye credits the player with its recorded score.
unfoldable pub add_bye : Option ℕ → MatchRow → Graph → Graph
add_bye none b g = g
add_bye (some winner) b g =
    let won = max (max b.player1_score b.player2_score) 1 in
    record g {
      games_won = add_count winner won g.games_won;
      games_played = add_count winner won g.games_played;
    }

-- The loop over the completed byes.
unfoldable pub add_byes : List MatchRow → Graph → Graph
add_byes [] g = g
add_byes (b ∷ bs) g = add_byes bs (add_bye b.winner_id b g)

-- `status: COMPLETED, isBye: false`
abbrev pub is_contest : MatchRow → Bool
is_contest m = is_completed m.status && not m.is_bye

-- `status: COMPLETED, isBye: true`
abbrev pub is_free_win : MatchRow → Bool
is_free_win m = is_completed m.status && m.is_bye

-- Both loops, over the matches of the tournament.
unfoldable pub graph_of : List MatchRow → Graph
graph_of rows = add_byes (select is_free_win rows) (
    add_matches (select is_contest rows)
      (record { opponents = []; played = []; won = []; games_won = []; games_played = [] }))

-- `count > 0 ? won / count : 0`, but at least a third.
unfoldable pub floored : ℕ → ℕ → Fraction
floored won count =
    if count == 0 || ltb (won * 3) count
    then record { numerator = 1; denominator = 3 }
    else record { numerator = won; denominator = count }

-- `winPct.get(id) ?? 0`
unfoldable pub win_pct : Graph → ℕ → Fraction
win_pct g player = elim (lookup player g.played) [
  | none ↦ none_of
  | some count ↦ floored (count_in player g.won) count
]

-- `gwPct.get(id) ?? 0`
unfoldable pub game_win_pct : Graph → ℕ → Fraction
game_win_pct g player = elim (lookup player g.games_played) [
  | none ↦ none_of
  | some total ↦ floored (count_in player g.games_won) total
]

unfoldable pub sum_of : (ℕ → Fraction) → List ℕ → Fraction
sum_of f [] = none_of
sum_of f (player ∷ players) = plus (f player) (sum_of f players)

-- `list.length > 0 ? total / list.length : 0`
unfoldable pub mean_of : (ℕ → Fraction) → List ℕ → Fraction
mean_of f [] = none_of
mean_of f (player ∷ players) =
    let total = sum_of f (player ∷ players) in
    record { numerator = total.numerator; denominator = total.denominator * suc (length players) }

-- `opponents.get(userId) ?? []`
unfoldable pub opponents_of : Graph → ℕ → List ℕ
opponents_of g player = or_else (lookup player g.opponents) []

-- `omw.get(userId) ?? 0`
unfoldable pub omw_of : Graph → ℕ → Fraction
omw_of g player = mean_of (win_pct g) (opponents_of g player)

pub record Tiebreaks : Type 0 where
  pub omw : Fraction
  pub oomw : Fraction
  pub gw : Fraction
  pub ogw : Fraction

-- The player's own rate, with no floor.
unfoldable pub own_rate : ℕ → ℕ → Fraction
own_rate won total = if total == 0 then none_of else record { numerator = won; denominator = total }

-- An entry of `result`.
unfoldable pub tiebreaks_of : Graph → ℕ → Tiebreaks
tiebreaks_of g player = record {
  omw = omw_of g player;
  oomw = mean_of (omw_of g) (opponents_of g player);
  gw = own_rate (count_in player g.games_won) (count_in player g.games_played);
  ogw = mean_of (game_win_pct g) (opponents_of g player);
}

-- `computeOpponentTiebreakers`: the entry of a player who appears anywhere.
unfoldable pub compute_opponent_tiebreakers : List MatchRow → ℕ → Option Tiebreaks
compute_opponent_tiebreakers rows player =
    let g = graph_of rows in
    if is_some (lookup player g.opponents) || is_some (lookup player g.games_played)
    then some (tiebreaks_of g player)
    else none
