-- ===== src/Leaderboard/Board/Sorting.antt =====
-- The order in which src/leaderboard/leaderboard.service.ts lists the entries of a board.
use joust_backend.Prelude.{
  ◌≡◌, ◌∙◌, inl, inr, List, [], ◌∷◌, Bool, true, false, All, All-map, Perm, Bool-cases,
}
use mathlib.Core.List.Perm
use joust_backend.Placement.{place, sort_by}
use joust_backend.Leaderboard.Standings.{Numbers, Tiebreaker, compare_entries}
use joust_backend.Leaderboard.Board.{Scale, Standing, is_before, goes_first, sort_entries}

place-perm :
    {A : Type 0} (before : A → A → Bool) (x : A) (xs : List A) → Perm (place before x xs) (x ∷ xs)
unfolding place
place-perm before x [] = Perm.rfl
place-perm before x (y ∷ ys) = elim (Bool-cases (before y x)) [
  | inl first ↦ rw first (Perm.trans (Perm.cons y (place-perm before x ys)) (Perm.swap x y ys))
  | inr later ↦ rw later Perm.rfl
]

pub sort_by-perm : {A : Type 0} (before : A → A → Bool) (xs : List A) → Perm (sort_by before xs) xs
unfolding sort_by
sort_by-perm before [] = Perm.rfl
sort_by-perm before (x ∷ xs) =
    Perm.trans (place-perm before x (sort_by before xs)) (Perm.cons x (sort_by-perm before xs))

pub All-place :
    {A : Type 0} (P : A → Type 0) (before : A → A → Bool) (x : A) (xs : List A)
    → P x
    → All P xs
    → All P (place before x xs)
unfolding place
All-place P before x [] here rest = (here, tt)
All-place P before x (y ∷ ys) here (next, rest) = elim (Bool-cases (before y x)) [
  | inl first ↦ rw first (next, All-place P before x ys here rest)
  | inr later ↦ rw later (here, (next, rest))
]

-- The numbers of the boards: `<` on what a whole number becomes, by the sign of the difference.
module _ (n : Numbers) (scale : Scale n) where
  abbrev pub is_less : n.Number → n.Number → Bool
  is_less a b = scale.is_negative (n.minus a b)

  -- Numbers that are the same are not less, the order is strict, and it is total: not being less is
  -- transitive; `===` is symmetric and transitive.
  pub record IsOrdered : Type 0 where
    pub same_symmetric : (a b : n.Number) → n.is_same a b ≡ n.is_same b a
    pub same_transitive :
        (a b c : n.Number) → n.is_same a b ≡ true → n.is_same b c ≡ true → n.is_same a c ≡ true
    pub same_level : (a b : n.Number) → n.is_same a b ≡ true → is_less a b ≡ false
    pub less_asymmetric : (a b : n.Number) → is_less a b ≡ true → is_less b a ≡ false
    pub level_transitive :
        (a b c : n.Number) → is_less a b ≡ false → is_less b c ≡ false → is_less a c ≡ false

  module _ (laws : IsOrdered) (order : List Tiebreaker) where
    -- The points of the second are not more.
    abbrev pub NotLess : Standing n → Standing n → Type 0
    NotLess a b = is_less a.numbers.points b.numbers.points ≡ false

    -- Whoever goes first has not fewer points, and whoever does not has not more.
    goes_first-NotLess : (a b : Standing n) → goes_first n scale order a b ≡ true → NotLess a b
    unfolding goes_first is_before compare_entries
    goes_first-NotLess a b h = elim (Bool-cases (n.is_same b.numbers.points a.numbers.points)) [
      | inl same ↦ laws.same_level _ _ (laws.same_symmetric _ _ ∙ same)
      | inr apart ↦ laws.less_asymmetric _ _ (rw apart at h)
    ]

    goes_first_not-NotLess : (a b : Standing n) → goes_first n scale order a b ≡ false → NotLess b a
    unfolding goes_first is_before compare_entries
    goes_first_not-NotLess a b h = elim (Bool-cases (n.is_same b.numbers.points a.numbers.points)) [
      | inl same ↦ laws.same_level _ _ same
      | inr apart ↦ rw apart at h
    ]

    -- Everybody has not fewer points than everybody after.
    abbrev pub Falls : List (Standing n) → Type 0
    Falls [] = Unit
    Falls (e ∷ es) = All (NotLess e) es × Falls es

    place-Falls :
        (x : Standing n) (xs : List (Standing n))
        → Falls xs
        → Falls (place (goes_first n scale order) x xs)
    unfolding place
    place-Falls x [] h = (tt, tt)
    place-Falls x (y ∷ ys) (here, rest) = elim (Bool-cases (goes_first n scale order y x)) [
      | inl first ↦ rw first (
        All-place (NotLess y) (goes_first n scale order) x ys (goes_first-NotLess y x first) here,
        place-Falls x ys rest,
      )
      | inr later ↦
          let above = goes_first_not-NotLess y x later in
          rw later (
            (above, All-map (λ z level. laws.level_transitive _ _ _ above level) ys here),
            (here, rest),
          )
    ]

    pub sort_entries-Falls : (es : List (Standing n)) → Falls (sort_entries n scale order es)
    unfolding sort_entries sort_by
    sort_entries-Falls [] = tt
    sort_entries-Falls (e ∷ es) = place-Falls e _ (sort_entries-Falls es)
