-- ===== src/Leaderboard/Standings/Tiers.antt =====
-- The sorter, the ranks and the named criterion of the standings agree, and no rank is skipped.
use joust_backend.Prelude.{
  ℕ, suc, ◌≤◌, ◌<◌, ◌≡◌, inl, inr, refl, ◌∙◌, Option, none, some, is_some, List, [], ◌∷◌, Bool,
  true, false, ◌==◌, Bool-cases, if◌then◌else◌, arith,
}
use joust_backend.Prelude.Dict.{contains}
use joust_backend.Leaderboard.Standings.{
  Numbers, SortableEntry, Tiebreaker, tiebreak_getter, lower_is_better, tiebreak_order, sort_diff,
  compare_tiebreaks, compare_entries, tiebreak_changed, rank_changed, first_criterion,
  tiebreak_criterion, by_tiebreak, ranks_after, dense_ranks,
}

some_if :
    {A : Type 0} (b c r : Bool) (v : A) (x : Option A)
    → b ≡ c
    → is_some x ≡ r
    → is_some (if b then some v else x) ≡ (if c then true else r)
some_if b true r v x h k = rw h refl
some_if b false r v x h k = rw h k

module _ (n : Numbers)
    (far_opposite : (a b : n.Number)
      → n.is_far (n.minus (n.opposite a) (n.opposite b)) ≡ n.is_far (n.minus a b))
    (far_swap : (a b : n.Number) → n.is_far (n.minus a b) ≡ n.is_far (n.minus b a))
    (same_swap : (a b : n.Number) → n.is_same a b ≡ n.is_same b a) where
  sort_diff-far :
      (t : Tiebreaker) (get : SortableEntry n → n.Number) (a b : SortableEntry n)
      → n.is_far (sort_diff n t get a b) ≡ n.is_far (n.minus (get a) (get b))
  unfolding sort_diff
  sort_diff-far t get a b = elim (Bool-cases (lower_is_better t)) [
    | inl lower ↦ rw lower (far_opposite (get b) (get a) ∙ far_swap (get b) (get a))
    | inr higher ↦ rw higher (far_swap (get b) (get a))
  ]

  tiebreaks_agree :
      (ts : List Tiebreaker) (a b : SortableEntry n)
      → (is_some (compare_tiebreaks n ts a b) ≡ tiebreak_changed n ts a b)
        × (is_some (first_criterion n ts a b) ≡ tiebreak_changed n ts a b)
  unfolding compare_tiebreaks tiebreak_changed first_criterion
  tiebreaks_agree [] a b = (refl, refl)
  tiebreaks_agree (t ∷ ts) a b = go (tiebreak_getter n t) (tiebreaks_agree ts a b)
    where
      go :
          (r : Option (SortableEntry n → n.Number))
          → (is_some (compare_tiebreaks n ts a b) ≡ tiebreak_changed n ts a b)
            × (is_some (first_criterion n ts a b) ≡ tiebreak_changed n ts a b)
          → (is_some (elim r [
            | none ↦ compare_tiebreaks n ts a b
            | some get ↦
                if n.is_far (sort_diff n t get a b)
                then some (sort_diff n t get a b)
                else compare_tiebreaks n ts a b
          ])
              ≡ (elim r [
                | none ↦ tiebreak_changed n ts a b
                | some get ↦
                    if n.is_far (n.minus (get a) (get b)) then true else tiebreak_changed n ts a b
              ]))
            × (is_some (elim r [
              | none ↦ first_criterion n ts a b
              | some get ↦
                  if n.is_far (n.minus (get a) (get b))
                  then some (by_tiebreak t)
                  else first_criterion n ts a b
            ])
                ≡ (elim r [
                  | none ↦ tiebreak_changed n ts a b
                  | some get ↦
                      if n.is_far (n.minus (get a) (get b)) then true else tiebreak_changed n ts a b
                ]))
      go none ih = ih
      go (some get) (ih, jh) =
          (some_if _ _ _ _ _ (sort_diff-far t get a b) ih, some_if _ _ _ _ _ refl jh)

  -- The sorter, the ranks and the criterion reported to the organizer agree on which entries are
  -- tied: the comparison is 0, the rank does not change, and no criterion is named, all at once.
  -- This rests on three laws of the numbers: a difference is as far from 0 in either order and with
  -- both signs changed, and `===` is symmetric.
  standings_agree :
      (configured : List Tiebreaker) (a b : SortableEntry n)
      → (is_some (compare_entries n configured a b) ≡ rank_changed n configured a b)
        × (is_some (tiebreak_criterion n configured a b) ≡ rank_changed n configured a b)
  unfolding compare_entries rank_changed tiebreak_criterion
  standings_agree configured a b =
      let (sorter, named) = tiebreaks_agree (tiebreak_order configured) a b in
      elim (Bool-cases (n.is_same a.points b.points)) [
        | inl level ↦ rw (same_swap b.points a.points, level) (sorter, named)
        | inr apart ↦ rw (same_swap b.points a.points, apart) (refl, refl)
      ]

-- The last rank awarded, and every rank from `lo` to it is awarded.
unfoldable pub last_rank : ℕ → List ℕ → ℕ
last_rank r [] = r
last_rank r (s ∷ ranks) = last_rank s ranks

ranks_after_complete :
    {A : Type 0} (changed : A → A → Bool) (prev : A) (current : ℕ) (es : List A) (r : ℕ)
    → current < r
    → r ≤ last_rank current (ranks_after changed prev current es)
    → contains r (ranks_after changed prev current es) ≡ true
unfolding ranks_after last_rank contains
ranks_after_complete changed prev current [] r lo hi = absurd (omega arith)
ranks_after_complete changed prev current (e ∷ es) r lo hi =
    let rank = (if changed prev e then suc current else current) in
    elim (Bool-cases (rank == r)) [
      | inl here ↦ ground arith
      | inr later ↦ ground (arith, ranks_after_complete changed e rank es r)
    ]

-- The ranks are dense: for any number of sorted entries, whichever of them are tied, every rank from
-- 1 to the last one is awarded, so a tie never leaves a gap.
dense_ranks_complete :
    {A : Type 0} (changed : A → A → Bool) (entries : List A) (r : ℕ)
    → 1 ≤ r
    → r ≤ last_rank 0 (dense_ranks changed entries)
    → contains r (dense_ranks changed entries) ≡ true
unfolding dense_ranks last_rank contains
dense_ranks_complete changed [] r lo hi = absurd (omega arith)
dense_ranks_complete changed (e ∷ es) r lo hi = elim (Bool-cases (1 == r)) [
  | inl first ↦ ground arith
  | inr later ↦ ground (arith, ranks_after_complete changed e 1 es r)
]
