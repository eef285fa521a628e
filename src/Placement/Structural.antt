-- ===== src/Placement/Structural.antt =====
-- What `computeStructuralPlacements` of src/leaderboard/leaderboard.service.ts and
-- `resolveFinalPlacements` of src/tournament/tournament.service.ts make of a bracket.
use joust_backend.Prelude.{
  ℕ, suc, ◌≤◌, ◌<◌, ◌≡◌, refl, ap, ◌∙◌, Option, none, some, is_some, List, [], ◌∷◌, Bool, true,
  false, not, ltb, select, All, Bool-cases, inl, inr, ◌&&◌, ◌||◌, ◌==◌, ◌==?◌, if◌then◌else◌, arith,
}
use joust_backend.Prelude.Dict.{Dict, lookup, contains, contains-add}
use joust_backend.Match.{MatchRow}
use joust_backend.Match.Service.{bad_winner}
use joust_backend.Placement.{
  Run, crowned, beyond, counts, note_player, everyone_in, last_loss_round, decider, champion_of,
  run_of, compute_structural_placements,
}
use joust_backend.Placement.Ranking.{further, place_field-further}

-- The player sits in one of the matches.
abbrev pub plays_in : ℕ → List MatchRow → Bool
plays_in j [] = false
plays_in j (m ∷ ms) = ((m.player1_id ==? some j) || (m.player2_id ==? some j)) || plays_in j ms

abbrev pub bracket_of : Option ℕ → List MatchRow → List MatchRow
bracket_of phase rows = select (counts phase) rows

-- How far a player of the bracket got.
abbrev pub progress : List MatchRow → ℕ → Run
progress ms = run_of (champion_of ms) (last_loss_round ms [])

contains-note_player :
    (j : ℕ) (p : Option ℕ) (ids : List ℕ)
    → contains j (note_player p ids) ≡ ((p ==? some j) || contains j ids)
unfolding note_player
contains-note_player j none ids = refl
contains-note_player j (some p) ids = contains-add p j ids

contains-everyone_in : (j : ℕ) (ms : List MatchRow) → contains j (everyone_in ms) ≡ plays_in j ms
unfolding contains everyone_in
contains-everyone_in j [] = refl
contains-everyone_in j (m ∷ ms) = ground (
  arith,
  contains-note_player j m.player1_id (note_player m.player2_id (everyone_in ms)),
  contains-note_player j m.player2_id (everyone_in ms),
  contains-everyone_in j ms,
)

-- Every player of a completed, played match of the bracket is placed, in one more than the number
-- of the players who got further: beyond the round of the player's last loss, or to the title.
pub compute_structural_placements-further :
    (phase : Option ℕ) (rows : List MatchRow) (j : ℕ)
    → plays_in j (bracket_of phase rows) ≡ true
    → (let ms = bracket_of phase rows in
        lookup j (compute_structural_placements phase rows)
        ≡ some (suc (further (progress ms) (progress ms j) (everyone_in ms))))
unfolding compute_structural_placements
compute_structural_placements-further phase rows j plays =
    let ms = bracket_of phase rows in
    place_field-further (progress ms) (everyone_in ms) j (contains-everyone_in j ms ∙ plays)

-- The champion of an optional decider sits in one of the matches.
abbrev IsSeated : List MatchRow → Option MatchRow → Type 0
IsSeated ms none = Unit
IsSeated ms (some m) = (c : ℕ) → m.winner_id ≡ some c → plays_in c ms ≡ true

IsSeated-more :
    (m : MatchRow) (ms : List MatchRow) (o : Option MatchRow) → IsSeated ms o → IsSeated (m ∷ ms) o
IsSeated-more m ms none h = tt
IsSeated-more m ms (some n) h = λ c won. ground (arith, h c won)

decider-IsSeated :
    (ms : List MatchRow)
    → All (λ (n : MatchRow). bad_winner n n.winner_id ≡ false) ms
    → IsSeated ms (decider ms)
unfolding decider
decider-IsSeated [] fair = tt
decider-IsSeated (m ∷ ms) (here, fair) =
    pick (not (is_some m.next_match_id) && is_some m.winner_id) (decider ms)
      (IsSeated-more m ms (decider ms) (decider-IsSeated ms fair))
  where
    own : IsSeated (m ∷ ms) (some m)
    own c won = ground arith

    later_or :
        (b : Bool) (later : MatchRow)
        → IsSeated (m ∷ ms) (some later)
        → IsSeated (m ∷ ms) (if b then some later else some m)
    later_or true later h = h
    later_or false later h = own

    pick :
        (b : Bool) (rest : Option MatchRow)
        → IsSeated (m ∷ ms) rest
        → IsSeated (m ∷ ms) (
            if b
            then (elim rest [
              | none ↦ some m
              | some later ↦ if ltb m.round_number later.round_number then some later else some m
            ])
            else rest)
    pick false rest h = h
    pick true none h = own
    pick true (some later) h = later_or (ltb m.round_number later.round_number) later h

champion_of-plays_in :
    (ms : List MatchRow) (c : ℕ)
    → All (λ (n : MatchRow). bad_winner n n.winner_id ≡ false) ms
    → champion_of ms ≡ some c
    → plays_in c ms ≡ true
unfolding champion_of
champion_of-plays_in ms c fair e = go (decider ms) (decider-IsSeated ms fair) e
  where
    go :
        (o : Option MatchRow)
        → IsSeated ms o
        → elim o [ none ↦ none | some m ↦ m.winner_id ] ≡ some c
        → plays_in c ms ≡ true
    go none h e' = ground arith
    go (some m) h e' = h c e'

-- Nobody gets further than the champion.
further_crowned : (out : ℕ → Run) (ids : List ℕ) → further out crowned ids ≡ 0
unfolding further beyond
further_crowned out [] = refl
further_crowned out (id ∷ ids) = ground (arith, further_crowned out ids)

further_behind :
    (out : ℕ → Run) (c : ℕ) (r : Run) (ids : List ℕ)
    → beyond (out c) r ≡ true
    → contains c ids ≡ true
    → 1 ≤ further out r ids
unfolding further contains
further_behind out c r [] ahead h = ground arith
further_behind out c r (id ∷ ids) ahead h = elim (Bool-cases (id == c)) [
  | inl hit ↦ let same : id ≡ c = ground arith in ground (arith, ap (λ n. beyond (out n) r) same)
  | inr miss ↦ ground (arith, further_behind out c r ids ahead (ground arith))
]

run_of_champion :
    (champion : Option ℕ) (losses : Dict ℕ) (c : ℕ)
    → champion ≡ some c
    → run_of champion losses c ≡ crowned
unfolding run_of
run_of_champion champion losses c e = ground arith

run_of_other :
    (champion : Option ℕ) (losses : Dict ℕ) (c j : ℕ)
    → champion ≡ some c
    → (j == c) ≡ false
    → beyond crowned (run_of champion losses j) ≡ true
unfolding run_of beyond
run_of_other champion losses c j e other = ground arith

-- A bracket whose decider has a winner puts that player first, and everybody else behind, when the
-- winner of every completed match is one of its players.
pub compute_structural_placements_champion :
    (phase : Option ℕ) (rows : List MatchRow) (c j : ℕ)
    → All (λ (m : MatchRow). bad_winner m m.winner_id ≡ false) (bracket_of phase rows)
    → champion_of (bracket_of phase rows) ≡ some c
    → plays_in j (bracket_of phase rows) ≡ true
    → (j == c) ≡ false
    → (lookup c (compute_structural_placements phase rows) ≡ some 1)
      × ((rank : ℕ) × ((lookup j (compute_structural_placements phase rows) ≡ some rank)
            × (1 < rank)))
compute_structural_placements_champion phase rows c j fair e plays other =
    let ms = bracket_of phase rows in
    let there : plays_in c ms ≡ true = champion_of-plays_in ms c fair e in
    let top : progress ms c ≡ crowned =
      run_of_champion (champion_of ms) (last_loss_round ms []) c e in
    let lower : beyond crowned (progress ms j) ≡ true =
      run_of_other (champion_of ms) (last_loss_round ms []) c j e other in
    (
      compute_structural_placements-further phase rows c there
          ∙ ap (λ n. some (suc n))
              (ap (λ r. further (progress ms) r (everyone_in ms)) top
                ∙ further_crowned (progress ms) (everyone_in ms)),
      (
        suc (further (progress ms) (progress ms j) (everyone_in ms)),
        (
          compute_structural_placements-further phase rows j plays,
          ground (
            arith,
            further_behind (progress ms) c (progress ms j) (everyone_in ms)
                (ap (λ r. beyond r (progress ms j)) top ∙ lower)
                (contains-everyone_in c ms ∙ there),
          ),
        ),
      ),
    )
