-- ===== src/Completion/Build.antt =====
-- The rounds that src/Formats/formats.service.ts creates: `initSingleElimination`,
-- `generateNextSwissRound` and `linkMatches` of src/tournament/match/match.service.ts.
use joust_backend.Prelude.{
  ℕ, suc, ◌/◌, Option, none, some, is_some, List, [], ◌∷◌, map, Bool, true, false, not, length,
  get_elem?, select, ◌&&◌, ◌||◌, if◌then◌else◌,
}
use joust_backend.Prelude.Dict.{Dict, lookup}
use joust_backend.Prelude.Int.{ℤ}
use joust_backend.Seeding.{
  Entry, empty, alive, player, Pairing, is_empty, entry_of, next_power_of_two, seed_bracket_slots,
  generate_bracket,
}
use joust_backend.Swiss.{HistoryRow, build_swiss_match_history, RoundPlan, next_swiss_round}
use joust_backend.Match.{
  is_completed, MatchRow, completed_match_data, World, put_match, Reply, ok, and_then,
}
use joust_backend.Match.Service.{Handler}
use joust_backend.Match.Lifecycle.{started, is_full, credit_bye}
use joust_backend.Completion.{Setting, matches_of_round, create_round, new_match, create_match}

-- One step of `linkMatches`; a next id that is missing is `undefined`, which writes nothing.
unfoldable pub link_one : ℕ → Option ℕ → World → World
link_one id none w = w
link_one id (some next) w = elim (lookup id w.matches) [
  | none ↦ w
  | some m ↦ put_match id (record m { next_match_id = some next }) w
]

-- `linkMatches`, from index `i` on.
unfoldable pub link_matches : Bool → List ℕ → ℕ → List ℕ → World → World
link_matches is_one_to_one next_ids i [] w = w
link_matches is_one_to_one next_ids i (id ∷ ids) w =
    link_matches is_one_to_one next_ids (suc i) ids
      (link_one id (get_elem? next_ids (if is_one_to_one then i else i / 2)) w)

-- Every match of the list that is completed by now is handed to the bracket code.
unfoldable pub handle_completed : Handler → List ℕ → World → Reply World
handle_completed handle [] w = ok w
handle_completed handle (id ∷ ids) w =
    and_then
      (elim (lookup id w.matches) [
        | none ↦ ok w
        | some m ↦ if is_completed m.status then handle id w else ok w
      ])
      (handle_completed handle ids)

-- The completed byes among the rows of a round as they were read.
unfoldable pub handle_byes : Handler → Dict MatchRow → World → Reply World
handle_byes handle [] w = ok w
handle_byes handle ((id, m) ∷ rows) w =
    and_then (if m.is_bye && is_completed m.status then handle id w else ok w)
      (handle_byes handle rows)

-- `m.p1 && m.p1 !== 'ALIVE' ? m.p1 : undefined`
unfoldable pub seat_of : Entry → Option ℕ
seat_of empty = none
seat_of alive = none
seat_of (player p) = some p

-- One side of the pairing is empty and the other is not.
unfoldable pub is_bye_pairing : Pairing → Bool
is_bye_pairing m = (is_empty m.p1 && not (is_empty m.p2)) || (not (is_empty m.p1) && is_empty m.p2)

abbrev either : Option ℕ → Option ℕ → Option ℕ
either none b = b
either (some a) b = some a

-- A match of an activated first round: played, or a bye that is completed at once.
unfoldable pub activated : ℕ → MatchRow → MatchRow
activated now m =
    if is_full m
    then started now m
    else if m.is_bye && is_some (either m.player1_id m.player2_id)
    then completed_match_data now (either m.player1_id m.player2_id) m
    else m

-- The matches of one round of a bracket, from index `j` on, and their ids.
unfoldable pub create_bracket_round :
    Setting → Bool → ℕ → ℕ → ℕ → List Pairing → World → World × List ℕ
create_bracket_round s activate number phase j [] w = (w, [])
create_bracket_round s activate number phase j (m ∷ ms) w =
    let row = new_match number phase j (seat_of m.p1) (seat_of m.p2) (is_bye_pairing m) in
    let made = create_match row w in
    let written = (if activate then put_match made.0 (activated s.now row) made.1 else made.1) in
    let rest = create_bracket_round s activate number phase (suc j) ms written in
    (rest.0, made.0 ∷ rest.1)

-- The rounds of a bracket: the round, its matches, the links from the round before, and for the
-- first round of an activated bracket its completed byes.
unfoldable pub build_rounds :
    Handler → Setting → Bool → ℕ → ℕ → List ℕ → List (List Pairing) → World → Reply World
build_rounds handle s first phase number previous [] w = ok w
build_rounds handle s first phase number previous (ms ∷ rounds) w =
    and_then (create_round number w) (λ (opened : World).
      let made = create_bracket_round s first number phase 0 ms opened in
      let linked = link_matches false made.1 0 previous made.0 in
      and_then
        (if first
          then handle_byes handle (matches_of_round number linked.matches) linked
          else ok linked)
        (build_rounds handle s false phase (suc number) made.1 rounds))

-- `initSingleElimination`
unfoldable pub init_single_elimination :
    Handler → Setting → List ℕ → Bool → ℕ → ℕ → World → Reply World
init_single_elimination handle s player_ids activate round_offset phase w =
    build_rounds handle s activate phase round_offset []
      (generate_bracket
        (map entry_of (seed_bracket_slots player_ids (next_power_of_two (length player_ids)))))
      w

abbrev history_rows : Dict MatchRow → List HistoryRow
history_rows = map (λ (entry : ℕ × MatchRow). record {
  player1_id = entry.1.player1_id;
  player2_id = entry.1.player2_id;
  is_bye = entry.1.is_bye;
})

-- The pairings of a Swiss round, from index `i` on, and the ids of their matches.
unfoldable pub create_pairings : ℕ → ℕ → ℕ → List (ℕ × ℕ) → World → World × List ℕ
create_pairings number phase i [] w = (w, [])
create_pairings number phase i (pair ∷ pairs) w =
    let made = create_match (new_match number phase i (some pair.0) (some pair.1) false) w in
    let rest = create_pairings number phase (suc i) pairs made.1 in (rest.0, made.0 ∷ rest.1)

-- The bye of a Swiss round: created, completed and credited.
unfoldable pub create_bye : Setting → ℕ → ℕ → ℕ → Option ℕ → World → World × List ℕ
create_bye s number phase index none w = (w, [])
create_bye s number phase index (some p) w =
    let row = new_match number phase index (some p) none true in
    let made = create_match row w in
    (
      credit_bye s.tournament made.0
          (put_match made.0 (completed_match_data s.now (some p) row) made.1),
      made.0 ∷ [],
    )

abbrev pub append_ids : List ℕ → List ℕ → List ℕ
append_ids [] ys = ys
append_ids (x ∷ xs) ys = x ∷ append_ids xs ys

-- `generateNextSwissRound`
unfoldable pub generate_next_swiss_round : Handler → Setting → ℕ → ℕ → World → Reply World
generate_next_swiss_round handle s number phase w =
    let leaderboard = s.leaderboard w in
    let out = select s.tournament.is_forfeited (map (λ (e : ℕ × ℤ). e.0) leaderboard) in
    let plan : RoundPlan =
      next_swiss_round leaderboard out (build_swiss_match_history (history_rows w.matches)) in
    and_then (create_round number w) (λ (opened : World).
      let paired = create_pairings number phase 0 plan.pairings opened in
      let benched = create_bye s number phase (length plan.pairings) plan.bye paired.0 in
      handle_completed handle (append_ids paired.1 benched.1) benched.0)
