-- ===== src/Leaderboard/Board/Tournament.antt =====
-- `getLeaderboard` of src/leaderboard/leaderboard.service.ts: who is on the board, and how high.
use joust_backend.Prelude.{
  ℕ, ◌<◌, ◌≡◌, refl, ap, sym, ◌∙◌, subst, Option, some, zero, suc, get_elem?, arith, List, [], ◌∷◌,
  Bool, true, All, map, Perm,
}
use mathlib.Core.List.Perm
use joust_backend.Prelude.Dict.{Dict}
use joust_backend.Prelude.Int.{ℤ, ltb_ℤ}
use joust_backend.Formats.{System}
use joust_backend.Stats.{MatchResult}
use joust_backend.Match.{MatchRow}
use joust_backend.Placement.{sort_by}
use joust_backend.Leaderboard.Records.{Tally, PhaseConfig, compute_tournament_records}
use joust_backend.Leaderboard.Opponents.{Tiebreaks, compute_opponent_tiebreakers}
use joust_backend.Leaderboard.Standings.{Numbers, Tiebreaker, ranks_after, dense_ranks}
use joust_backend.Leaderboard.Board.{
  Scale, Standing, BoardRow, goes_first, sort_entries, is_next_rank, with_ranks, board_of,
  recorded_tally, entry_for, get_leaderboard,
}
use joust_backend.Leaderboard.Board.Sorting.{is_less, IsOrdered, sort_by-perm, All-place}
use joust_backend.Leaderboard.Board.Ranks.{All-with_ranks, BetterRank, board_of-BetterRank}

All-sort_by :
    {A : Type 0} (P : A → Type 0) (before : A → A → Bool) (xs : List A)
    → All P xs
    → All P (sort_by before xs)
unfolding sort_by
All-sort_by P before [] h = tt
All-sort_by P before (x ∷ xs) (here, rest) =
    All-place P before x (sort_by before xs) here (All-sort_by P before xs rest)

All-get_elem? :
    {A : Type 0} (P : A → Type 0) (xs : List A) (i : ℕ) (x : A)
    → All P xs
    → get_elem? xs i ≡ some x
    → P x
All-get_elem? P [] i x h e = absurd (ground (arith, e))
All-get_elem? P (y ∷ ys) zero x (here, rest) e = subst P (ground (arith, e)) here
All-get_elem? P (y ∷ ys) (suc i) x (here, rest) e = All-get_elem? P ys i x rest e

module _ (n : Numbers) (scale : Scale n) (order : List Tiebreaker) where
  abbrev user_of : BoardRow n → ℕ
  user_of r = r.standing.user_id

  -- Every entry gets a rank.
  ranked_users :
      (changed : Standing n → Standing n → Bool) (prev : Standing n) (current : ℕ)
      (es : List (Standing n))
      → map user_of (with_ranks n scale (ranks_after changed prev current es) es)
        ≡ map (λ (e : Standing n). e.user_id) es
  unfolding with_ranks ranks_after
  ranked_users changed prev current [] = refl
  ranked_users changed prev current (e ∷ es) = ap (◌∷◌ e.user_id) (ranked_users changed e _ es)

  board_of-users :
      (es : List (Standing n))
      → Perm (map user_of (board_of n scale order es)) (map (λ (e : Standing n). e.user_id) es)
  unfolding board_of sort_entries dense_ranks with_ranks
  board_of-users es =
      subst (λ users. Perm users (map (λ (e : Standing n). e.user_id) es))
        (sym (go (sort_by (goes_first n scale order) es)))
        (Perm.map (λ (e : Standing n). e.user_id) (sort_by-perm (goes_first n scale order) es))
    where
      go :
          (sorted : List (Standing n))
          → map user_of
              (with_ranks n scale (dense_ranks (is_next_rank n scale order) sorted) sorted)
            ≡ map (λ (e : Standing n). e.user_id) sorted
      go [] = refl
      go (e ∷ es) = ap (◌∷◌ e.user_id) (ranked_users (is_next_rank n scale order) e 1 es)

  -- The points of an entry are those of the records.
  abbrev IsRecorded : Dict Tally → Standing n → Type 0
  IsRecorded records e =
      e.numbers.points ≡ scale.of_points (recorded_tally n scale records e.user_id).points

  entries-IsRecorded :
      (records : Dict Tally) (opponent_stats : ℕ → Option Tiebreaks) (participants : List ℕ)
      → All (IsRecorded records) (map (entry_for n scale records opponent_stats) participants)
  unfolding entry_for
  entries-IsRecorded records opponent_stats [] = tt
  entries-IsRecorded records opponent_stats (p ∷ ps) =
      (refl, entries-IsRecorded records opponent_stats ps)

  users-entry_for :
      (records : Dict Tally) (opponent_stats : ℕ → Option Tiebreaks) (participants : List ℕ)
      → map
          (λ (e : Standing n). e.user_id)
          (map (entry_for n scale records opponent_stats) participants)
        ≡ participants
  unfolding entry_for
  users-entry_for records opponent_stats [] = refl
  users-entry_for records opponent_stats (p ∷ ps) =
      ap (◌∷◌ p) (users-entry_for records opponent_stats ps)

  board_of-IsRecorded :
      (records : Dict Tally) (es : List (Standing n))
      → All (IsRecorded records) es
      → All (λ (r : BoardRow n). IsRecorded records r.standing) (board_of n scale order es)
  unfolding board_of sort_entries
  board_of-IsRecorded records es h =
      All-with_ranks n scale (IsRecorded records) _ _
        (All-sort_by (IsRecorded records) (goes_first n scale order) es h)

  board_ranks :
      (laws : IsOrdered n scale)
      → ((a b : ℤ) → ltb_ℤ a b ≡ is_less n scale (scale.of_points a) (scale.of_points b))
      → (records : Dict Tally) (board : List (BoardRow n))
      → All (λ (r : BoardRow n). IsRecorded records r.standing) board
      → All (λ r. All (BetterRank n scale laws order r) board) board
      → (i j : ℕ) (r s : BoardRow n) → get_elem? board i ≡ some r
      → get_elem? board j ≡ some s
      → ltb_ℤ
          (recorded_tally n scale records (user_of s)).points
          (recorded_tally n scale records (user_of r)).points
        ≡ true
      → r.rank < s.rank
  board_ranks laws agree records board recorded better i j r s at_i at_j more =
      let exact = All-get_elem? _ board i r recorded at_i in
      let exact_s = All-get_elem? _ board j s recorded at_j in
      All-get_elem? _ board j s (All-get_elem? _ board i r better at_i) at_j
        (rw (exact_s, exact) (sym (agree _ _) ∙ more))

  -- Every participant is on the board of a tournament once and nobody else is, whatever the matches:
  -- the users of the rows, in the order of the board, are the participants in some order.
  pub get_leaderboard-perm :
      (system : System) (config_of : ℕ → PhaseConfig) (participants : List ℕ) (rows : List MatchRow)
      (results : List MatchResult)
      → Perm
          (map user_of (get_leaderboard n scale order system config_of participants rows results))
          participants
  unfolding get_leaderboard
  get_leaderboard-perm system config_of participants rows results =
      let records = compute_tournament_records system config_of results in
      let opponent_stats = compute_opponent_tiebreakers rows in
      subst
        (Perm (
          map user_of
            (board_of n scale order (map (entry_for n scale records opponent_stats) participants))))
        (users-entry_for records opponent_stats participants) (board_of-users _)

  -- Of any two rows of the board of a tournament, the one of the player with more points in the
  -- records of the completed matches has the better rank, whatever the tiebreakers. The comparison of
  -- the numbers that the points become has to be an order, and to agree with the order of the points.
  pub get_leaderboard-BetterRank :
      (laws : IsOrdered n scale)
      → ((a b : ℤ) → ltb_ℤ a b ≡ is_less n scale (scale.of_points a) (scale.of_points b))
      → (system : System) (config_of : ℕ → PhaseConfig) (participants : List ℕ)
        (rows : List MatchRow) (results : List MatchResult) (i j : ℕ) (r s : BoardRow n)
      → get_elem? (get_leaderboard n scale order system config_of participants rows results) i
        ≡ some r
      → get_elem? (get_leaderboard n scale order system config_of participants rows results) j
        ≡ some s
      → ltb_ℤ
          (recorded_tally n scale
            (compute_tournament_records system config_of results)
            (user_of s)).points
          (recorded_tally n scale
            (compute_tournament_records system config_of results)
            (user_of r)).points
        ≡ true
      → r.rank < s.rank
  unfolding get_leaderboard
  get_leaderboard-BetterRank laws agree system config_of participants rows results i j r s at_i at_j
        more =
      let records = compute_tournament_records system config_of results in
      let opponent_stats = compute_opponent_tiebreakers rows in
      let es = map (entry_for n scale records opponent_stats) participants in
      let recorded =
        board_of-IsRecorded records es (entries-IsRecorded records opponent_stats participants) in
      board_ranks laws agree records (board_of n scale order es) recorded
        (board_of-BetterRank n scale laws order es) i j r s at_i at_j more
