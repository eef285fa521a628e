-- ===== src/Leaderboard/Opponents/Bounds.antt =====
-- The bounds of the percentages that src/leaderboard/leaderboard.service.ts works out.
use joust_backend.Prelude.{
  ℕ, suc, ◌*◌, ◌≤◌, ◌<◌, ◌≡◌, refl, some, List, [], ◌∷◌, All, subst, All-map, length, select, arith,
}
use native.Mathlib.Nat.{mul-le-mul_left}
use joust_backend.Prelude.Dict.{Dict, lookup}
use joust_backend.Match.{MatchRow}
use joust_backend.Leaderboard.Opponents.{
  Fraction, Graph, is_contest, count_in, plus, sum_of, mean_of, floored, win_pct, game_win_pct,
  graph_of, omw_of, opponents_of, Tiebreaks, tiebreaks_of, compute_opponent_tiebreakers,
}
use joust_backend.Leaderboard.Opponents.Maps.{IsMet, IsCounted, Decided, graph_of-IsCounted}

-- The sum of n fractions between a third and one.
abbrev IsSum : ℕ → Fraction → Type 0
IsSum n f =
    (n * f.denominator ≤ 3 * f.numerator)
    × ((f.numerator ≤ n * f.denominator) × (0 < f.denominator))

-- A fraction from a third to one.
abbrev pub IsBetween : Fraction → Type 0
IsBetween f =
    (f.denominator ≤ 3 * f.numerator) × ((f.numerator ≤ f.denominator) × (0 < f.denominator))

IsSum-IsBetween : (f : Fraction) → IsSum 1 f → IsBetween f
IsSum-IsBetween f (low, (high, some_parts)) =
    (omega (arith, low), (omega (arith, high), some_parts))

count_of :
    (player : ℕ) (counts : Dict ℕ) (n : ℕ)
    → lookup player counts ≡ some n
    → count_in player counts ≡ n
unfolding count_in
count_of player counts n e = rw e refl

plus-IsSum : (n : ℕ) (a b : Fraction) → IsSum 1 a → IsSum n b → IsSum (suc n) (plus a b)
unfolding plus
plus-IsSum n a b (low, (high, some_a)) (low_b, (high_b, some_b)) = (
  omega (arith, mul-le-mul_left b.denominator low, mul-le-mul_left a.denominator low_b),
  (
    omega (arith, mul-le-mul_left b.denominator high, mul-le-mul_left a.denominator high_b),
    omega (arith, mul-le-mul_left b.denominator some_a, some_b),
  ),
)

floored-IsSum : (won count : ℕ) → won ≤ count → IsSum 1 (floored won count)
unfolding floored
floored-IsSum won count h = (ground arith, (ground arith, ground arith))

sum_of-IsSum :
    (f : ℕ → Fraction) (ids : List ℕ)
    → All (λ id. IsSum 1 (f id)) ids
    → IsSum (length ids) (sum_of f ids)
unfolding sum_of
sum_of-IsSum f [] h = (omega arith, (omega arith, omega arith))
sum_of-IsSum f (x ∷ ids) (here, rest) =
    plus-IsSum (length ids) (f x) (sum_of f ids) here (sum_of-IsSum f ids rest)

-- A mean is within the bounds of what it is the mean of.
mean_of-IsSum :
    (f : ℕ → Fraction) (ids : List ℕ)
    → 0 < length ids
    → All (λ id. IsSum 1 (f id)) ids
    → IsSum 1 (mean_of f ids)
unfolding mean_of
mean_of-IsSum f [] some_ids h = elim some_ids [ ]
mean_of-IsSum f (x ∷ ids) some_ids h =
    let (low, (high, some_sum)) = sum_of-IsSum f (x ∷ ids) h in
    (
      omega (arith, low),
      (omega (arith, high), omega (arith, mul-le-mul_left (suc (length ids)) some_sum)),
    )

module _ (g : Graph) (counted : IsCounted g) where
  win_pct-IsSum : (player : ℕ) → IsMet g player → IsSum 1 (win_pct g player)
  unfolding win_pct
  win_pct-IsSum player ((n, e), rest) =
      rw (e, win_pct)
        (floored-IsSum (count_in player g.won) n (
          subst (λ k. count_in player g.won ≤ k) (count_of player g.played n e)
            (counted.1 player).0))

  game_win_pct-IsSum : (player : ℕ) → IsMet g player → IsSum 1 (game_win_pct g player)
  unfolding game_win_pct
  game_win_pct-IsSum player (played, ((n, e), rest)) =
      rw (e, game_win_pct)
        (floored-IsSum (count_in player g.games_won) n (
          subst (λ k. count_in player g.games_won ≤ k) (count_of player g.games_played n e)
            (counted.1 player).1))

  omw_of-IsSum : (player : ℕ) → 0 < length (opponents_of g player) → IsSum 1 (omw_of g player)
  unfolding omw_of opponents_of
  omw_of-IsSum player some_met =
      mean_of-IsSum (win_pct g) _ some_met (All-map win_pct-IsSum _ (counted.0 player))

  tiebreaks_of-IsBetween :
      (player : ℕ)
      → 0 < length (opponents_of g player)
      → IsBetween (tiebreaks_of g player).omw
        × (IsBetween (tiebreaks_of g player).oomw × IsBetween (tiebreaks_of g player).ogw)
  unfolding tiebreaks_of opponents_of
  tiebreaks_of-IsBetween player some_met = (
    IsSum-IsBetween _ (omw_of-IsSum player some_met),
    (
      IsSum-IsBetween _ (
          mean_of-IsSum (omw_of g) _ some_met
            (All-map (λ o met. omw_of-IsSum o met.1.1) _ (counted.0 player))),
      IsSum-IsBetween _ (
          mean_of-IsSum (game_win_pct g) _ some_met
            (All-map game_win_pct-IsSum _ (counted.0 player))),
    ),
  )

entry_of_met :
    (rows : List MatchRow) (player : ℕ)
    → 0 < length (opponents_of (graph_of rows) player)
    → compute_opponent_tiebreakers rows player ≡ some (tiebreaks_of (graph_of rows) player)
unfolding compute_opponent_tiebreakers opponents_of
entry_of_met rows player h = ground arith

-- When every completed match that is no bye was won by one of its two players or by nobody, a player who has met
-- somebody in one of them has an entry, in which the mean of the opponents' match wins, the mean of
-- that mean over the opponents, and the mean of the opponents' game wins go from a third to one.
pub compute_opponent_tiebreakers-IsBetween :
    (rows : List MatchRow) (player : ℕ)
    → All Decided (select is_contest rows)
    → 0 < length (opponents_of (graph_of rows) player)
    → (t : Tiebreaks) × ((compute_opponent_tiebreakers rows player ≡ some t)
        × (IsBetween t.omw × (IsBetween t.oomw × IsBetween t.ogw)))
compute_opponent_tiebreakers-IsBetween rows player h some_met =
    let g = graph_of rows in
    (
      tiebreaks_of g player,
      (
        entry_of_met rows player some_met,
        tiebreaks_of-IsBetween g (graph_of-IsCounted rows h) player some_met,
      ),
    )
