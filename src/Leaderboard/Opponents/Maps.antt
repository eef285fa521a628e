-- ===== src/Leaderboard/Opponents/Maps.antt =====
-- The maps that computeOpponentTiebreakers of src/leaderboard/leaderboard.service.ts fills.
use joust_backend.Prelude.{
  ℕ, ◌+◌, ◌≤◌, ◌<◌, ◌≡◌, refl, Option, none, some, or_else, List, [], ◌∷◌, ◌++◌, Bool, true, false,
  ◌==◌, All, All-map, ◌⊎◌, inl, inr, length, select, max, if◌then◌else◌, arith,
}
use joust_backend.Prelude.Dict.{Dict, lookup, lookup-insert}
use joust_backend.Match.{MatchRow}
use joust_backend.Leaderboard.Opponents.{
  Graph, count_in, add_count, add_opponent, add_win, add_pair, add_seated, add_matches, add_bye,
  add_byes, is_contest, graph_of,
}

count_in-add_count :
    (key n other : ℕ) (counts : Dict ℕ)
    → count_in other (add_count key n counts)
      ≡ (if key == other then count_in other counts + n else count_in other counts)
unfolding count_in add_count
count_in-add_count key n other counts =
    ground (arith, lookup-insert key other (or_else (lookup key counts) 0 + n) counts)

-- The key has an entry.
abbrev Has : ℕ → Dict ℕ → Type 0
Has key counts = (n : ℕ) × (lookup key counts ≡ some n)

add_count_adds : (key n : ℕ) (counts : Dict ℕ) → Has key (add_count key n counts)
unfolding count_in add_count
add_count_adds key n counts =
    let next = or_else (lookup key counts) 0 + n in
    (next, ground (arith, lookup-insert key key next counts))

add_count_keeps :
    (key n other : ℕ) (counts : Dict ℕ) → Has other counts → Has other (add_count key n counts)
unfolding count_in add_count
add_count_keeps key n other counts (old, h) =
    let next = or_else (lookup key counts) 0 + n in
    ((if key == other then next else old), ground (arith, lookup-insert key other next counts))

abbrev listed : ℕ → Dict (List ℕ) → List ℕ
listed player opponents = or_else (lookup player opponents) []

listed-add_opponent :
    (player other x : ℕ) (opponents : Dict (List ℕ))
    → listed x (add_opponent player other opponents)
      ≡ (if player == x then listed x opponents ++ (other ∷ []) else listed x opponents)
unfolding add_opponent
listed-add_opponent player other x opponents =
    ground (
      arith,
      lookup-insert player x (or_else (lookup player opponents) [] ++ (other ∷ [])) opponents,
    )

-- The state of the maps that the percentages rely on: everybody met has a match and an opponent of their own,
-- and nobody has won more matches or games than they have played.
abbrev pub IsMet : Graph → ℕ → Type 0
IsMet g player =
    Has player g.played × (Has player g.games_played × (0 < length (listed player g.opponents)))

abbrev IsFair : Graph → Type 0
IsFair g =
    (player : ℕ)
    → (count_in player g.won ≤ count_in player g.played)
      × (count_in player g.games_won ≤ count_in player g.games_played)

abbrev pub IsCounted : Graph → Type 0
IsCounted g = ((player : ℕ) → All (IsMet g) (listed player g.opponents)) × IsFair g

-- The winner is one of the two players, or nobody.
abbrev pub Decided : MatchRow → Type 0
Decided m = (c : ℕ) → m.winner_id ≡ some c → (m.player1_id ≡ some c) ⊎ (m.player2_id ≡ some c)

length-snoc : (xs : List ℕ) (x : ℕ) → length xs < length (xs ++ (x ∷ []))
length-snoc [] x = omega arith
length-snoc (y ∷ xs) x = omega (arith, length-snoc xs x)

All-snoc :
    (P : ℕ → Type 0) (b : Bool) (xs : List ℕ) (x : ℕ)
    → All P xs
    → P x
    → All P (if b then xs ++ (x ∷ []) else xs)
All-snoc P false xs x h new = h
All-snoc P true [] x h new = (new, tt)
All-snoc P true (y ∷ xs) x (here, rest) new = (here, All-snoc P true xs x rest new)

add_win_fair :
    (winner : Option ℕ) (won : Dict ℕ) (p1 p2 x : ℕ)
    → ((c : ℕ) → winner ≡ some c → (some p1 ≡ some c) ⊎ (some p2 ≡ some c))
    → count_in x (add_win winner won)
      ≤ count_in x won + ((if p1 == x then 1 else 0) + (if p2 == x then 1 else 0))
unfolding add_win
add_win_fair none won p1 p2 x h = omega arith
add_win_fair (some w) won p1 p2 x h = elim (h w refl) [
  | inl e ↦ ground (arith, count_in-add_count w 1 x won)
  | inr e ↦ ground (arith, count_in-add_count w 1 x won)
]

-- A match of two players.
module _ (p1 p2 : ℕ) (m : MatchRow) (g : Graph) where
  met_first : 0 < length (listed p1 (add_pair p1 p2 m g).opponents)
  unfolding add_pair
  met_first = ground (
    arith,
    listed-add_opponent p2 p1 p1 (add_opponent p1 p2 g.opponents),
    listed-add_opponent p1 p2 p1 g.opponents,
    length-snoc (listed p1 g.opponents) p2,
    length-snoc (listed p1 (add_opponent p1 p2 g.opponents)) p1,
  )

  grown : (x : ℕ) → length (listed x g.opponents) ≤ length (listed x (add_pair p1 p2 m g).opponents)
  unfolding add_pair
  grown x = ground (
    arith,
    listed-add_opponent p2 p1 x (add_opponent p1 p2 g.opponents),
    listed-add_opponent p1 p2 x g.opponents,
    length-snoc (listed x g.opponents) p2,
    length-snoc (listed x (add_opponent p1 p2 g.opponents)) p1,
  )

  met_second : 0 < length (listed p2 (add_pair p1 p2 m g).opponents)
  unfolding add_pair
  met_second = ground (
    arith,
    listed-add_opponent p2 p1 p2 (add_opponent p1 p2 g.opponents),
    length-snoc (listed p2 (add_opponent p1 p2 g.opponents)) p1,
  )

  add_pair-IsMet : (x : ℕ) → IsMet g x → IsMet (add_pair p1 p2 m g) x
  unfolding add_pair
  add_pair-IsMet x (played, (games, some_list)) = (
    add_count_keeps p2 1 x _ (add_count_keeps p1 1 x _ played),
    (add_count_keeps p2 _ x _ (add_count_keeps p1 _ x _ games), omega (arith, grown x)),
  )

  first-IsMet : IsMet (add_pair p1 p2 m g) p1
  unfolding add_pair
  first-IsMet = (
    add_count_keeps p2 1 p1 _ (add_count_adds p1 1 _),
    (add_count_keeps p2 _ p1 _ (add_count_adds p1 _ _), met_first),
  )

  second-IsMet : IsMet (add_pair p1 p2 m g) p2
  unfolding add_pair
  second-IsMet = (add_count_adds p2 1 _, (add_count_adds p2 _ _, met_second))

  add_pair-All :
      ((x : ℕ) → All (IsMet g) (listed x g.opponents))
      → (x : ℕ) → All (IsMet (add_pair p1 p2 m g)) (listed x (add_pair p1 p2 m g).opponents)
  unfolding add_pair
  add_pair-All h x = rw (listed-add_opponent p2 p1 x (add_opponent p1 p2 g.opponents)) (
      rw (listed-add_opponent p1 p2 x g.opponents) (
        All-snoc _ (p2 == x) _ p1
          (All-snoc _ (p1 == x) _ p2 (All-map add_pair-IsMet _ (h x)) second-IsMet) first-IsMet))

  add_pair-IsFair :
      ((c : ℕ) → m.winner_id ≡ some c → (some p1 ≡ some c) ⊎ (some p2 ≡ some c))
      → IsFair g
      → IsFair (add_pair p1 p2 m g)
  unfolding add_pair
  add_pair-IsFair h fair x =
      let total = m.player1_score + m.player2_score in
      (
        ground (
          arith,
          (fair x).0,
          add_win_fair m.winner_id g.won p1 p2 x h,
          count_in-add_count p2 1 x (add_count p1 1 g.played),
          count_in-add_count p1 1 x g.played,
        ),
        ground (
          arith,
          (fair x).1,
          count_in-add_count p2 m.player2_score x (add_count p1 m.player1_score g.games_won),
          count_in-add_count p1 m.player1_score x g.games_won,
          count_in-add_count p2 total x (add_count p1 total g.games_played),
          count_in-add_count p1 total x g.games_played,
        ),
      )

  add_pair-IsCounted :
      ((c : ℕ) → m.winner_id ≡ some c → (some p1 ≡ some c) ⊎ (some p2 ≡ some c))
      → IsCounted g
      → IsCounted (add_pair p1 p2 m g)
  add_pair-IsCounted h (met, fair) = (add_pair-All met, add_pair-IsFair h fair)

add_seated-IsCounted :
    (p1 p2 : Option ℕ) (m : MatchRow) (g : Graph)
    → ((c : ℕ) → m.winner_id ≡ some c → (p1 ≡ some c) ⊎ (p2 ≡ some c))
    → IsCounted g
    → IsCounted (add_seated p1 p2 m g)
unfolding add_seated
add_seated-IsCounted none p2 m g h counted = counted
add_seated-IsCounted (some p1) none m g h counted = counted
add_seated-IsCounted (some p1) (some p2) m g h counted = add_pair-IsCounted p1 p2 m g h counted

add_matches-IsCounted :
    (ms : List MatchRow) (g : Graph) → All Decided ms → IsCounted g → IsCounted (add_matches ms g)
unfolding add_matches
add_matches-IsCounted [] g h counted = counted
add_matches-IsCounted (m ∷ ms) g (here, rest) counted =
    add_matches-IsCounted ms _ rest
      (add_seated-IsCounted m.player1_id m.player2_id m g here counted)

-- A bye adds as many games won as games played, and no opponent.
add_bye-IsCounted :
    (winner : Option ℕ) (b : MatchRow) (g : Graph) → IsCounted g → IsCounted (add_bye winner b g)
unfolding add_bye
add_bye-IsCounted none b g counted = counted
add_bye-IsCounted (some w) b g (met, fair) =
    let n = max (max b.player1_score b.player2_score) 1 in
    (
      λ x.
          All-map
            (λ o (played, (games, some_list)). (played, (add_count_keeps w n o _ games, some_list)))
            _ (met x),
      λ x. (
        (fair x).0,
        ground (
          arith,
          (fair x).1,
          count_in-add_count w n x g.games_won,
          count_in-add_count w n x g.games_played,
        ),
      ),
    )

add_byes-IsCounted : (bs : List MatchRow) (g : Graph) → IsCounted g → IsCounted (add_byes bs g)
unfolding add_byes
add_byes-IsCounted [] g counted = counted
add_byes-IsCounted (b ∷ bs) g counted =
    add_byes-IsCounted bs _ (add_bye-IsCounted b.winner_id b g counted)

pub graph_of-IsCounted :
    (rows : List MatchRow) → All Decided (select is_contest rows) → IsCounted (graph_of rows)
unfolding graph_of count_in lookup
graph_of-IsCounted rows h =
    add_byes-IsCounted _ _ (add_matches-IsCounted _ _ h (λ x. tt, λ x. (omega arith, omega arith)))
