-- ===== src/Completion/Double.antt =====
-- `initDoubleElimination` of src/Formats/formats.service.ts: the winners bracket, the losers bracket
-- and the grand final, with their links.
use joust_backend.Prelude.{
  ℕ, zero, suc, ◌+◌, ◌-◌, ◌*◌, ◌/◌, ◌^◌, Option, none, some, is_some, List, [], ◌∷◌, map, Bool,
  true, false, length, get_elem?, ◌&&◌, ◌==◌, if◌then◌else◌,
}
use joust_backend.Prelude.Dict.{lookup}
use joust_backend.Seeding.{
  Pairing, entry_of, next_power_of_two, seed_bracket_slots, generate_bracket,
}
use joust_backend.Match.{
  MatchRow, completed_match_data, World, put_match, Reply, ok, refused, and_then, type_error,
}
use joust_backend.Match.Service.{Handler}
use joust_backend.Match.Lifecycle.{started, is_full}
use joust_backend.Completion.{
  Setting, matches_of_round, create_round, new_match, create_match, ceil_log_loop,
}
use joust_backend.Completion.Build.{link_one, link_matches, handle_byes, seat_of, is_bye_pairing}

-- A match of an activated first round; a bye is only completed here for a player in the first seat.
unfoldable pub activated_double : ℕ → MatchRow → MatchRow
activated_double now m =
    if is_full m
    then started now m
    else if m.is_bye && is_some m.player1_id
    then completed_match_data now m.player1_id m
    else m

-- The matches of one winners round, from index `j` on, and their ids. Only the first has byes.
unfoldable pub create_winners_round :
    Setting → Bool → Bool → ℕ → ℕ → List Pairing → World → World × List ℕ
create_winners_round s first activate number j [] w = (w, [])
create_winners_round s first activate number j (m ∷ ms) w =
    let row = new_match number 1 j (seat_of m.p1) (seat_of m.p2) (first && is_bye_pairing m) in
    let made = create_match row w in
    let written =
      (if first && activate
        then put_match made.0 (activated_double s.now row) made.1
        else made.1) in
    let rest = create_winners_round s first activate number (suc j) ms written in
    (rest.0, made.0 ∷ rest.1)

-- The winners rounds from this number on, and the ids of their matches.
unfoldable pub create_winners :
    Setting → Bool → Bool → ℕ → List (List Pairing) → World → Reply (World × List (List ℕ))
create_winners s first activate number [] w = ok (w, [])
create_winners s first activate number (ms ∷ rounds) w =
    and_then (create_round number w) (λ (opened : World).
      let made = create_winners_round s first activate number 0 ms opened in
      and_then (create_winners s false activate (suc number) rounds made.0)
        (λ (rest : World × List (List ℕ)). ok (rest.0, made.1 ∷ rest.1)))

-- Each round linked to the next; the losers rounds of one size one to one.
unfoldable pub link_rounds : Bool → List (List ℕ) → World → World
link_rounds losers [] w = w
link_rounds losers (ids ∷ []) w = w
link_rounds losers (ids ∷ next ∷ rounds) w =
    link_rounds losers (next ∷ rounds)
      (link_matches (losers && length ids == length next) next 0 ids w)

-- So many matches that wait for both players, from index `j` on.
unfoldable pub create_waiting : ℕ → ℕ → ℕ → World → World × List ℕ
create_waiting number zero j w = (w, [])
create_waiting number (suc left) j w =
    let made = create_match (new_match number 1 j none none false) w in
    let rest = create_waiting number left (suc j) made.1 in (rest.0, made.0 ∷ rest.1)

-- The losers rounds that are left, from round `r` on, of a bracket with `k` winners rounds.
unfoldable pub create_losers : ℕ → ℕ → ℕ → World → Reply (World × List (List ℕ))
create_losers k zero r w = ok (w, [])
create_losers k (suc left) r w = and_then (create_round (100 + r) w) (λ (opened : World).
    let made = create_waiting (100 + r) (2 ^ (k - 1 - (r + 1) / 2)) 0 opened in
    and_then (create_losers k left (suc r) made.0)
      (λ (rest : World × List (List ℕ)). ok (rest.0, made.1 ∷ rest.1)))

-- `loserNextMatchId`; an id that is missing writes nothing.
unfoldable pub loser_link : ℕ → Option ℕ → World → World
loser_link id none w = w
loser_link id (some next) w = elim (lookup id w.matches) [
  | none ↦ w
  | some m ↦ put_match id (record m { loser_next_match_id = some next }) w
]

-- The losers of a winners round, from index `i` on, into a losers round: two to a match, or one.
unfoldable pub loser_links : Bool → List ℕ → ℕ → List ℕ → World → World
loser_links is_one_to_one next i [] w = w
loser_links is_one_to_one next i (id ∷ ids) w =
    loser_links is_one_to_one next (suc i) ids
      (loser_link id (get_elem? next (if is_one_to_one then i else i / 2)) w)

abbrev round_at : List (List ℕ) → ℕ → List ℕ
round_at rounds i = elim (get_elem? rounds i) [ none ↦ [] | some ids ↦ ids ]

-- The winners rounds from index `i` on, but for the last one, into every second losers round.
unfoldable pub drop_losers : List (List ℕ) → ℕ → List (List ℕ) → World → World
drop_losers losers i [] w = w
drop_losers losers i (ids ∷ []) w = w
drop_losers losers i (ids ∷ next ∷ rounds) w =
    drop_losers losers (suc i) (next ∷ rounds)
      (loser_links true (round_at losers (2 * i - 1)) 0 ids w)

unfoldable pub drop_all : List (List ℕ) → List (List ℕ) → World → World
drop_all losers [] w = w
drop_all [] (ids ∷ rounds) w = w
drop_all (first ∷ losers) (ids ∷ rounds) w =
    drop_losers (first ∷ losers) 1 rounds (loser_links false first 0 ids w)

-- The first match of the last round.
unfoldable pub final_of : List (List ℕ) → Option ℕ
final_of [] = none
final_of (ids ∷ []) = get_elem? ids 0
final_of (ids ∷ next ∷ rounds) = final_of (next ∷ rounds)

-- The links into the grand final, and of the loser of the winners final: into the losers final, or
-- where there is no losers bracket into the grand final.
unfoldable pub link_finals : ℕ → ℕ → Option ℕ → World → World
link_finals grand winners_final none w =
    loser_link winners_final (some grand) (link_one winners_final (some grand) w)
link_finals grand winners_final (some losers_final) w =
    loser_link winners_final (some losers_final)
      (link_one losers_final (some grand) (link_one winners_final (some grand) w))

-- The grand final. Without a winners final the code reads an array that is missing.
unfoldable pub create_grand_final : Option ℕ → Option ℕ → World → Reply World
create_grand_final none losers_final w = refused type_error
create_grand_final (some winners_final) losers_final w =
    and_then (create_round 200 w) (λ (opened : World).
      let made = create_match (new_match 200 1 0 none none false) opened in
      ok (link_finals made.0 winners_final losers_final made.1))

-- `Math.log2` of a power of two.
unfoldable pub log2 : ℕ → ℕ
log2 n = ceil_log_loop n n 1

-- The two brackets with their links, before the grand final.
unfoldable pub link_brackets : List (List ℕ) → List (List ℕ) → World → World
link_brackets winners losers w = drop_all losers winners (link_rounds true losers w)

-- `initDoubleElimination`
unfoldable pub init_double_elimination : Handler → Setting → List ℕ → Bool → World → Reply World
init_double_elimination handle s player_ids activate w =
    let size = next_power_of_two (length player_ids) in
    let k = log2 size in
    and_then
      (create_winners s true activate 1
        (generate_bracket (map entry_of (seed_bracket_slots player_ids size))) w)
      (λ (winners : World × List (List ℕ)).
        and_then (create_losers k (2 * k - 2) 1 (link_rounds false winners.1 winners.0))
          (λ (losers : World × List (List ℕ)).
            and_then
              (create_grand_final (final_of winners.1) (final_of losers.1)
                (link_brackets winners.1 losers.1 losers.0))
              (λ (built : World).
                if activate
                then handle_byes handle (matches_of_round 1 built.matches) built
                else ok built)))
