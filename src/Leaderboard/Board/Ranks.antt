-- ===== src/Leaderboard/Board/Ranks.antt =====
-- The ranks that src/leaderboard/leaderboard.service.ts gives to the players of a board.
use joust_backend.Prelude.{
  ℕ, suc, ◌≤◌, ◌<◌, ◌≡◌, ◌∙◌, inl, inr, List, [], ◌∷◌, true, false, All, All-map, Bool-cases,
  if◌then◌else◌, arith,
}
use joust_backend.Leaderboard.Standings.{
  Numbers, Tiebreaker, rank_changed, ranks_after, dense_ranks,
}
use joust_backend.Leaderboard.Board.{
  Scale, Standing, BoardRow, sort_entries, is_next_rank, with_ranks, board_of,
}
use joust_backend.Leaderboard.Board.Sorting.{is_less, IsOrdered, NotLess, Falls, sort_entries-Falls}

-- Every item is related to every later one.
abbrev Falling : {A : Type 0} → (A → A → Type 0) → List A → Type 0
Falling Q [] = Unit
Falling Q (x ∷ xs) = All (Q x) xs × Falling Q xs

pub All-both :
    {A : Type 0} (S T : A → Type 0) (xs : List A) → All S xs → All T xs → All (λ x. S x × T x) xs
All-both S T [] h k = tt
All-both S T (x ∷ xs) (here, rest) (also, others) = ((here, also), All-both S T xs rest others)

-- A relation that follows both ways from the one in which the list falls holds of any two items.
Falling-All :
    {A : Type 0} (P Q : A → A → Type 0) (forth : (a b : A) → Q a b → P a b)
    (back : (a b : A) → Q a b → P b a) (self : (a : A) → P a a) (xs : List A)
    → Falling Q xs
    → All (λ x. All (P x) xs) xs
Falling-All P Q forth back self [] h = tt
Falling-All P Q forth back self (x ∷ xs) (here, rest) = (
  (self x, All-map (forth x) xs here),
  All-both _ _ xs (All-map (back x) xs here) (Falling-All P Q forth back self xs rest),
)

module _ (n : Numbers) (scale : Scale n) where
  pub All-with_ranks :
      (P : Standing n → Type 0) (ranks : List ℕ) (es : List (Standing n))
      → All P es
      → All (λ (r : BoardRow n). P r.standing) (with_ranks n scale ranks es)
  unfolding with_ranks
  All-with_ranks P [] es h = tt
  All-with_ranks P (rank ∷ ranks) [] h = tt
  All-with_ranks P (rank ∷ ranks) (e ∷ es) (here, rest) = (here, All-with_ranks P ranks es rest)

module _ (n : Numbers) (scale : Scale n) (laws : IsOrdered n scale) (order : List Tiebreaker) where
  -- As far as a rank, and past it with other points.
  abbrev Beyond : Standing n → ℕ → BoardRow n → Type 0
  Beyond e rank r =
      (rank ≤ r.rank)
      × (n.is_same e.numbers.points r.standing.numbers.points ≡ false → rank < r.rank)

  next_rank-Beyond :
      (prev e : Standing n) (current : ℕ)
      → Beyond prev current (record {
        rank = (if is_next_rank n scale order prev e then suc current else current);
        standing = e;
      })
  unfolding is_next_rank rank_changed
  next_rank-Beyond prev e current = (ground arith, λ apart. rw apart (omega arith))

  Beyond-trans :
      (prev e : Standing n) (current : ℕ) (rank : ℕ) (r : BoardRow n)
      → Beyond prev current (record { rank = rank; standing = e })
      → Beyond e rank r
      → Beyond prev current r
  Beyond-trans prev e current rank r (low, past) (low_r, past_r) = (
    omega (arith, low, low_r),
    λ apart. elim (Bool-cases (n.is_same e.numbers.points r.standing.numbers.points)) [
      | inl same ↦ elim (Bool-cases (n.is_same prev.numbers.points e.numbers.points)) [
        | inl level ↦
            let both = laws.same_transitive _ _ _ level same in absurd (ground (arith, both, apart))
        | inr away ↦ omega (arith, past away, low_r)
      ]
      | inr other ↦ omega (arith, low, past_r other)
    ],
  )

  ranks_after-Beyond :
      (prev : Standing n) (current : ℕ) (es : List (Standing n))
      → All
          (Beyond prev current)
          (with_ranks n scale (ranks_after (is_next_rank n scale order) prev current es) es)
  unfolding ranks_after with_ranks
  ranks_after-Beyond prev current [] = tt
  ranks_after-Beyond prev current (e ∷ es) = (
    next_rank-Beyond prev e current,
    All-map (λ r h. Beyond-trans prev e current _ r (next_rank-Beyond prev e current) h) _
        (ranks_after-Beyond e _ es),
  )

  -- An earlier row and a later one.
  abbrev Above : BoardRow n → BoardRow n → Type 0
  Above r s = NotLess n scale laws order r.standing s.standing × Beyond r.standing r.rank s

  ranked-Falling :
      (e : Standing n) (current : ℕ) (es : List (Standing n))
      → Falls n scale laws order (e ∷ es)
      → Falling Above (
          record { rank = current; standing = e }
          ∷ with_ranks n scale (ranks_after (is_next_rank n scale order) e current es) es)
  unfolding ranks_after with_ranks
  ranked-Falling e current [] h = (tt, tt)
  ranked-Falling e current (f ∷ es) (here, rest) = (
    All-both {A = BoardRow n} (λ r. NotLess n scale laws order e r.standing) (Beyond e current)
        (with_ranks n scale (ranks_after (is_next_rank n scale order) e current (f ∷ es)) (f ∷ es))
        (All-with_ranks n scale (NotLess n scale laws order e)
          (ranks_after (is_next_rank n scale order) e current (f ∷ es)) (f ∷ es) here)
        (ranks_after-Beyond e current (f ∷ es)),
    ranked-Falling f _ es rest,
  )

  -- The first of two rows has the better rank when it has more points.
  abbrev pub BetterRank : BoardRow n → BoardRow n → Type 0
  BetterRank r s =
      is_less n scale s.standing.numbers.points r.standing.numbers.points ≡ true → r.rank < s.rank

  less-apart : (a b : n.Number) → is_less n scale b a ≡ true → n.is_same a b ≡ false
  less-apart a b less = elim (Bool-cases (n.is_same a b)) [
    | inl same ↦
        let level = laws.same_level b a (laws.same_symmetric b a ∙ same) in
        absurd (ground (arith, level, less))
    | inr apart ↦ apart
  ]

  Above-apart : (r s : BoardRow n) → Above r s → BetterRank r s
  Above-apart r s (level, (low, past)) less = past (less-apart _ _ less)

  Above-not_less : (r s : BoardRow n) → Above r s → BetterRank s r
  Above-not_less r s (level, rest) less = absurd (ground (arith, level, less))

  self_not_less : (r : BoardRow n) → BetterRank r r
  self_not_less r less =
      let never = laws.less_asymmetric _ _ less in absurd (ground (arith, never, less))

  pub board_of-BetterRank :
      (es : List (Standing n))
      → All (λ r. All (BetterRank r) (board_of n scale order es)) (board_of n scale order es)
  unfolding board_of dense_ranks with_ranks
  board_of-BetterRank es =
      go (sort_entries n scale order es) (sort_entries-Falls n scale laws order es)
    where
      go :
          (sorted : List (Standing n))
          → Falls n scale laws order sorted
          → All
              (λ r.
                All
                  (BetterRank r)
                  (with_ranks n scale (dense_ranks (is_next_rank n scale order) sorted) sorted))
              (with_ranks n scale (dense_ranks (is_next_rank n scale order) sorted) sorted)
      go [] h = tt
      go (e ∷ es) h =
          Falling-All BetterRank Above Above-apart Above-not_less self_not_less
            (record { rank = 1; standing = e }
              ∷ with_ranks n scale (ranks_after (is_next_rank n scale order) e 1 es) es)
            (ranked-Falling e 1 es h)
