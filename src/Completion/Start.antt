-- ===== src/Completion/Start.antt =====
-- The first rounds that src/Formats/formats.service.ts draws up: `initSwiss`, `initRoundRobin`,
-- `initializeTournamentFormat`, and `resolveTie`.
use joust_backend.Prelude.{
  ℕ, zero, suc, ◌+◌, ◌-◌, ◌/◌, ◌%◌, Option, none, some, List, [], ◌∷◌, ◌++◌, map, Bool, true, false,
  length, get_elem?, ◌==◌, if◌then◌else◌,
}
use joust_backend.Formats.{
  System, single_elimination, double_elimination, swiss, round_robin, hybrid,
}
use joust_backend.Seeding.{shuffled}
use joust_backend.Match.{
  completed_match_data, World, put_match, Reply, ok, refused, and_then, no_tie,
  tiebreakers_identical,
}
use joust_backend.Match.Service.{Handler}
use joust_backend.Match.Lifecycle.{started, credit_bye}
use joust_backend.Completion.{
  Setting, create_round, new_match, create_match, complete_with, top_is_tied, head_id,
}
use joust_backend.Completion.Build.{
  handle_completed, init_single_elimination, create_bye, generate_next_swiss_round,
}
use joust_backend.Completion.Checks.{highest}
use joust_backend.Completion.Double.{init_double_elimination}

-- The matches of the first Swiss round, from index `i` on, and their ids. The last of an odd number
-- of players has a bye, which is completed and credited.
unfoldable pub create_swiss_pairs : Setting → Bool → ℕ → ℕ → List ℕ → World → World × List ℕ
create_swiss_pairs s activate phase i [] w = (w, [])
create_swiss_pairs s activate phase i (p1 ∷ []) w = create_bye s 1 phase i (some p1) w
create_swiss_pairs s activate phase i (p1 ∷ p2 ∷ players) w =
    let row = new_match 1 phase i (some p1) (some p2) false in
    let made = create_match row w in
    let written = (if activate then put_match made.0 (started s.now row) made.1 else made.1) in
    let rest = create_swiss_pairs s activate phase (suc i) players written in
    (rest.0, made.0 ∷ rest.1)

-- `initSwiss`; `draw` is the random draw of the shuffle.
unfoldable pub init_swiss : Handler → Setting → (ℕ → ℕ) → List ℕ → Bool → ℕ → World → Reply World
init_swiss handle s draw player_ids activate phase w =
    and_then (create_round 1 w) (λ (opened : World).
      let made = create_swiss_pairs s activate phase 0 (shuffled draw player_ids) opened in
      if activate then handle_completed handle made.1 made.0 else ok made.0)

-- The players of a round robin, with nobody in the last place of an odd field.
unfoldable pub full_table : List ℕ → List (Option ℕ)
full_table player_ids =
    let players = map (λ (id : ℕ). some id) player_ids in
    if length player_ids % 2 == 0 then players else players ++ (none ∷ [])

-- `players[i]`, where nobody sits out of range.
unfoldable pub seat : List (Option ℕ) → ℕ → Option ℕ
seat players i = elim (get_elem? players i) [ none ↦ none | some p ↦ p ]

-- `players.pop()`: the list without its last item, and the last item.
unfoldable pub without_last : {A : Type 0} → A → List A → List A
without_last x [] = []
without_last x (y ∷ ys) = x ∷ without_last y ys

unfoldable pub last_of : {A : Type 0} → A → List A → A
last_of x [] = x
last_of x (y ∷ ys) = last_of y ys

-- `players.splice(1, 0, players.pop())`; the only player of a list of one is put back.
unfoldable pub rotate : {A : Type 0} → List A → List A
rotate [] = []
rotate (x ∷ []) = x ∷ []
rotate (x ∷ y ∷ ys) = x ∷ last_of y ys ∷ without_last y ys

-- The bye of a round robin.
unfoldable pub round_robin_bye : Handler → Setting → Bool → ℕ → ℕ → ℕ → World → Reply World
round_robin_bye handle s activate number i p w =
    let row = new_match number 1 i (some p) none true in
    let made = create_match row w in
    let credited =
      credit_bye s.tournament made.0
        (put_match made.0 (completed_match_data s.now (some p) row) made.1) in
    if activate then handle made.0 credited else ok credited

-- A pairing of a round: a match, a bye that is completed and credited, or nothing.
unfoldable pub round_robin_match :
    Handler → Setting → Bool → ℕ → ℕ → Option ℕ → Option ℕ → World → Reply World
round_robin_match handle s activate number i none none w = ok w
round_robin_match handle s activate number i (some p1) (some p2) w =
    let row = new_match number 1 i (some p1) (some p2) false in
    let made = create_match row w in
    ok (if activate then put_match made.0 (started s.now row) made.1 else made.1)
round_robin_match handle s activate number i (some p1) none w =
    round_robin_bye handle s activate number i p1 w
round_robin_match handle s activate number i none (some p2) w =
    round_robin_bye handle s activate number i p2 w

-- The pairings of a round from index `i` on, as many as are left: each player with the one who is
-- as far from the end.
unfoldable pub table_pairs : List (Option ℕ) → ℕ → ℕ → List (Option ℕ × Option ℕ)
table_pairs players zero i = []
table_pairs players (suc left) i =
    (seat players i, seat players (length players - 1 - i)) ∷ table_pairs players left (suc i)

-- The matches of these pairings, from index `i` on.
unfoldable pub round_robin_pairs :
    Handler → Setting → Bool → ℕ → ℕ → List (Option ℕ × Option ℕ) → World → Reply World
round_robin_pairs handle s activate number i [] w = ok w
round_robin_pairs handle s activate number i (pair ∷ pairs) w =
    and_then (round_robin_match handle s activate number i pair.0 pair.1 w)
      (round_robin_pairs handle s activate number (suc i) pairs)

-- The rounds that are left, with the field turned on after each.
unfoldable pub round_robin_rounds :
    Handler → Setting → Bool → ℕ → ℕ → List (Option ℕ) → World → Reply World
round_robin_rounds handle s activate zero number players w = ok w
round_robin_rounds handle s activate (suc left) number players w =
    and_then (create_round number w) (λ (opened : World).
      and_then
        (round_robin_pairs handle s activate number 0 (table_pairs players (length players / 2) 0)
          opened)
        (round_robin_rounds handle s activate left (suc number) (rotate players)))

-- `initRoundRobin`
unfoldable pub init_round_robin : Handler → Setting → List ℕ → Bool → ℕ → World → Reply World
init_round_robin handle s player_ids activate round_offset w =
    let players = full_table player_ids in
    round_robin_rounds handle s activate (length players - 1) round_offset players w

-- `initializeTournamentFormat`
unfoldable pub initialize_tournament_format :
    Handler → Setting → (ℕ → ℕ) → System → List ℕ → Bool → World → Reply World
initialize_tournament_format handle s draw single_elimination player_ids activate w =
    init_single_elimination handle s player_ids activate 1 1 w
initialize_tournament_format handle s draw double_elimination player_ids activate w =
    init_double_elimination handle s player_ids activate w
initialize_tournament_format handle s draw swiss player_ids activate w =
    init_swiss handle s draw player_ids activate 1 w
initialize_tournament_format handle s draw round_robin player_ids activate w =
    init_round_robin handle s player_ids activate 1 w
initialize_tournament_format handle s draw hybrid player_ids activate w =
    init_swiss handle s draw player_ids activate 1 w

-- What an organizer does about a tie in points at the top.
pub data TieAction : Type 0 where
  extend_round apply_tiebreakers : TieAction

-- `resolveTie`; `is_separated` tells whether `tiebreakCriterion` names a criterion for the top two.
unfoldable pub resolve_tie : Handler → Setting → (World → Bool) → TieAction → World → Reply World
resolve_tie handle s is_separated apply_tiebreakers w =
    if top_is_tied (s.leaderboard w)
    then (if is_separated w
        then ok (complete_with s (head_id (s.leaderboard w)) w)
        else refused tiebreakers_identical)
    else refused no_tie
resolve_tie handle s is_separated extend_round w =
    if top_is_tied (s.leaderboard w)
    then generate_next_swiss_round handle s (highest w.round_numbers + 1) 1 w
    else refused no_tie
