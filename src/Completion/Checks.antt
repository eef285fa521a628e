-- ===== src/Completion/Checks.antt =====
-- The checks that complete a round or a tournament in src/Formats/formats.service.ts.
use joust_backend.Prelude.{
  ℕ, zero, suc, ◌+◌, Option, none, some, or_else, is_some, List, [], ◌∷◌, Bool, true, false, not,
  ltb, leb, max, length, every, any, find, ◌&&◌, ◌==◌, ◌==?◌, if◌then◌else◌,
}
use joust_backend.Prelude.Dict.{Dict}
use joust_backend.Prelude.Int.{ℤ}
use joust_backend.Match.{is_completed, MatchRow, World, Reply, ok, and_then}
use joust_backend.Match.Service.{Handler}
use joust_backend.Completion.{
  Setting, matches_of_round, create_round, new_match, create_match, is_over, complete_tournament,
  complete_with, top_is_tied, head_id, default_rounds,
}
use joust_backend.Completion.Build.{init_single_elimination, generate_next_swiss_round}

abbrev pub is_done : ℕ × MatchRow → Bool
is_done entry = is_completed entry.1.status

-- `m.status === COMPLETED && m.winnerId`
abbrev pub is_won : ℕ × MatchRow → Bool
is_won entry = is_completed entry.1.status && is_some entry.1.winner_id

abbrev pub has_round : ℕ → World → Bool
has_round number w = any (λ n. n == number) w.round_numbers

-- `checkSingleEliminationComplete`
unfoldable pub check_single_elimination_complete : Setting → ℕ → World → World
check_single_elimination_complete s number w =
    let ms = matches_of_round number w.matches in
    if every is_done ms && not (any (λ (e : ℕ × MatchRow). is_some e.1.next_match_id) ms)
    then (elim (find is_won ms) [ none ↦ w | some final ↦ complete_with s final.1.winner_id w ])
    else w

-- `winnersFinalistId`: among the matches whose winners the grand final takes, one of a winners round.
unfoldable pub winners_finalist_id : Dict MatchRow → Option ℕ → Option ℕ
winners_finalist_id matches none = none
winners_finalist_id matches (some final) =
    elim (find
      (λ (e : ℕ × MatchRow). (e.1.next_match_id ==? some final) && ltb e.1.round_number 100)
      matches) [ none ↦ none | some feeder ↦ feeder.1.winner_id ]

-- `createGrandFinalReset`
unfoldable pub create_grand_final_reset : MatchRow → World → Reply World
create_grand_final_reset final w = and_then (create_round 201 w) (λ (opened : World).
    ok (create_match (new_match 201 1 0 final.player1_id final.player2_id false) opened).1)

unfoldable pub first_id : Dict MatchRow → Option ℕ
first_id [] = none
first_id (e ∷ rest) = some e.0

-- The winners' finalist is known, and did not win the grand final.
unfoldable pub upset : Option ℕ → Option ℕ → Bool
upset none winner = false
upset (some finalist) winner = not (winner ==? some finalist)

-- `checkDoubleEliminationComplete`
unfoldable pub check_double_elimination_complete : Setting → World → Reply World
check_double_elimination_complete s w =
    let finals = matches_of_round 200 w.matches in
    elim (find is_won finals) [
      | none ↦ ok w
      | some gf ↦
          if has_round 201 w
          then (elim (find is_won (matches_of_round 201 w.matches)) [
            | none ↦ ok w
            | some rm ↦ ok (complete_with s rm.1.winner_id w)
          ])
          else if s.grand_final_reset
              && upset (winners_finalist_id w.matches (first_id finals)) gf.1.winner_id
          then create_grand_final_reset gf.1 w
          else ok (complete_with s gf.1.winner_id w)
    ]

-- `checkTournamentComplete`, the check of the round robin.
unfoldable pub check_tournament_complete : Setting → World → World
check_tournament_complete s w =
    if not (is_over w.status)
      && (ltb 0 (length w.matches) && every is_done w.matches)
      && not (top_is_tied (s.leaderboard w))
    then complete_with s (head_id (s.leaderboard w)) w
    else w

-- `checkSwissRoundComplete`
unfoldable pub check_swiss_round_complete : Handler → Setting → ℕ → World → Reply World
check_swiss_round_complete handle s number w =
    if every is_done (matches_of_round number w.matches)
    then (if leb (or_else s.swiss_rounds (default_rounds s.participants)) number
        then (if top_is_tied (s.leaderboard w)
            then ok w
            else ok (complete_with s (head_id (s.leaderboard w)) w))
        else generate_next_swiss_round handle s (suc number) 1 w)
    else ok w

unfoldable pub highest : List ℕ → ℕ
highest [] = 0
highest (n ∷ ns) = max n (highest ns)

unfoldable pub take_ids : ℕ → List (ℕ × ℤ) → List ℕ
take_ids zero es = []
take_ids (suc n) [] = []
take_ids (suc n) (e ∷ es) = e.0 ∷ take_ids n es

-- `config.phase2?.topCutSize ?? config.topCutSize ?? 8`
unfoldable pub top_cut_size : Setting → ℕ
top_cut_size s = or_else s.phase2_cut_size (or_else s.root_cut_size 8)

-- `checkHybridPhase1Complete`
unfoldable pub check_hybrid_phase1_complete : Handler → Setting → ℕ → World → Reply World
check_hybrid_phase1_complete handle s number w =
    if every is_done (matches_of_round number w.matches)
    then (if ltb number (or_else s.swiss_rounds (default_rounds s.participants))
        then generate_next_swiss_round handle s (suc number) 1 w
        else (let top = take_ids (top_cut_size s) (s.leaderboard w) in
            if ltb (length top) 2
            then ok (complete_tournament s w)
            else init_single_elimination handle s top true (highest w.round_numbers + 1) 2 w))
    else ok w
