-- ===== src/Leaderboard/Standings.antt =====
-- The order of the standings: `sortEntries`, `rankChanged`, `tiebreakCriterion` and the dense ranks of
-- `getLeaderboard` and `getGlobalLeaderboard` in src/leaderboard/leaderboard.service.ts.
pub mod Tiers
use joust_backend.Prelude.{
  ℕ, suc, ◌+◌, Option, none, some, or_else, List, [], ◌∷◌, Bool, true, false, if◌then◌else◌,
}

-- The floating-point numbers of the entries, with what the standings use of them: `===`, the
-- difference, the sign change, and whether `Math.abs(x) > 0.0001`.
pub record Numbers : Type 1 where
  pub Number : Type 0
  pub nought : Number
  pub is_same : Number → Number → Bool
  pub minus : Number → Number → Number
  pub opposite : Number → Number
  pub is_far : Number → Bool

-- `SortableEntry`; the percentages that may be missing are optional.
pub record SortableEntry (n : Numbers) : Type 0 where
  pub points : n.Number
  pub omw : Option n.Number
  pub oomw : Option n.Number
  pub gw : Option n.Number
  pub ogw : Option n.Number
  pub match_win_pct : n.Number
  pub wins : n.Number
  pub losses : n.Number

-- The name of a tiebreaker; `unknown` stands for any other configured text.
pub data Tiebreaker : Type 0 where
  omw oomw gw ogw match_win_pct wins losses : Tiebreaker
  unknown : ℕ → Tiebreaker

-- `tiebreakGetters`
unfoldable pub tiebreak_getter : (n : Numbers) → Tiebreaker → Option (SortableEntry n → n.Number)
tiebreak_getter n omw = some (λ e. or_else e.omw n.nought)
tiebreak_getter n oomw = some (λ e. or_else e.oomw n.nought)
tiebreak_getter n gw = some (λ e. or_else e.gw n.nought)
tiebreak_getter n ogw = some (λ e. or_else e.ogw n.nought)
tiebreak_getter n match_win_pct = some (λ e. e.match_win_pct)
tiebreak_getter n wins = some (λ e. e.wins)
tiebreak_getter n losses = some (λ e. e.losses)
tiebreak_getter n (unknown text) = none

-- `LOWER_IS_BETTER.has(key)`
unfoldable pub lower_is_better : Tiebreaker → Bool
lower_is_better losses = true
lower_is_better omw = false
lower_is_better oomw = false
lower_is_better gw = false
lower_is_better ogw = false
lower_is_better match_win_pct = false
lower_is_better wins = false
lower_is_better (unknown text) = false

-- `tiebreakOrder`, with `DEFAULT_TIEBREAK_ORDER`.
unfoldable pub tiebreak_order : List Tiebreaker → List Tiebreaker
tiebreak_order [] = omw ∷ gw ∷ oomw ∷ []
tiebreak_order (t ∷ ts) = t ∷ ts

module _ (n : Numbers) where
  -- The difference of the sorter's getters, which are negated where lower is better.
  unfoldable pub sort_diff :
      Tiebreaker → (SortableEntry n → n.Number) → SortableEntry n → SortableEntry n → n.Number
  unfolding lower_is_better
  sort_diff t get a b =
      if lower_is_better t
      then n.minus (n.opposite (get b)) (n.opposite (get a))
      else n.minus (get b) (get a)

  -- The loop of the comparison; no number is the final `return 0`.
  unfoldable pub compare_tiebreaks :
      List Tiebreaker → SortableEntry n → SortableEntry n → Option n.Number
  unfolding tiebreak_getter sort_diff
  compare_tiebreaks [] a b = none
  compare_tiebreaks (t ∷ ts) a b =
      let rest = compare_tiebreaks ts a b in
      elim (tiebreak_getter n t) [
        | none ↦ rest
        | some get ↦ if n.is_far (sort_diff t get a b) then some (sort_diff t get a b) else rest
      ]

  -- The comparison of `sortEntries`.
  unfoldable pub compare_entries :
      List Tiebreaker → SortableEntry n → SortableEntry n → Option n.Number
  unfolding compare_tiebreaks tiebreak_order
  compare_entries configured a b =
      if n.is_same b.points a.points
      then compare_tiebreaks (tiebreak_order configured) a b
      else some (n.minus b.points a.points)

  unfoldable pub tiebreak_changed : List Tiebreaker → SortableEntry n → SortableEntry n → Bool
  unfolding tiebreak_getter
  tiebreak_changed [] prev curr = false
  tiebreak_changed (t ∷ ts) prev curr =
      let rest = tiebreak_changed ts prev curr in
      elim (tiebreak_getter n t) [
        | none ↦ rest
        | some get ↦ if n.is_far (n.minus (get prev) (get curr)) then true else rest
      ]

  -- `rankChanged`
  unfoldable pub rank_changed : List Tiebreaker → SortableEntry n → SortableEntry n → Bool
  unfolding tiebreak_changed tiebreak_order
  rank_changed configured prev curr =
      if n.is_same prev.points curr.points
      then tiebreak_changed (tiebreak_order configured) prev curr
      else true

-- What separated two entries: `points`, or a tiebreaker.
pub data Criterion : Type 0 where
  by_points : Criterion
  by_tiebreak : Tiebreaker → Criterion

module _ (n : Numbers) where
  pub first_criterion : List Tiebreaker → SortableEntry n → SortableEntry n → Option Criterion
  unfolding tiebreak_getter
  first_criterion [] a b = none
  first_criterion (t ∷ ts) a b =
      let rest = first_criterion ts a b in
      elim (tiebreak_getter n t) [
        | none ↦ rest
        | some get ↦ if n.is_far (n.minus (get a) (get b)) then some (by_tiebreak t) else rest
      ]

  -- `tiebreakCriterion`
  pub tiebreak_criterion : List Tiebreaker → SortableEntry n → SortableEntry n → Option Criterion
  unfolding first_criterion tiebreak_order
  tiebreak_criterion configured a b =
      if n.is_same a.points b.points
      then first_criterion (tiebreak_order configured) a b
      else some by_points

-- The loop of the dense ranks from the second entry on, after `prev` took the rank `current`.
unfoldable pub ranks_after {ℓ} : {A : Type ℓ} → (A → A → Bool) → A → ℕ → List A → List ℕ
ranks_after changed prev current [] = []
ranks_after changed prev current (e ∷ es) =
    let rank = (if changed prev e then suc current else current) in
    rank ∷ ranks_after changed e rank es

-- The ranks of the sorted entries; the first has rank 1.
unfoldable pub dense_ranks {ℓ} : {A : Type ℓ} → (A → A → Bool) → List A → List ℕ
unfolding ranks_after
dense_ranks changed [] = []
dense_ranks changed (e ∷ es) = 1 ∷ ranks_after changed e 1 es
