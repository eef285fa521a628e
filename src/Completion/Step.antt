-- ===== src/Completion/Step.antt =====
-- `handleMatchCompletion` and `settleLosersStarvation` of src/Formats/formats.service.ts, with the
-- operations of the match service that call back into them.
use joust_backend.Prelude.{
  ℕ, zero, suc, Option, none, some, [], ◌∷◌, Bool, true, not, every, any, ◌&&◌, ◌==◌, ◌==?◌,
  if◌then◌else◌,
}
use joust_backend.Prelude.Dict.{Dict, lookup}
use joust_backend.Formats.{
  System, single_elimination, double_elimination, swiss, round_robin, hybrid,
}
use joust_backend.Match.{
  is_completed, MatchRow, completed_match_data, World, put_match, Reply, ok, refused, and_then,
  out_of_fuel,
}
use joust_backend.Match.Service.{Handler}
use joust_backend.Match.Lifecycle.{advance}
use joust_backend.Match.Reset.{feeds}
use joust_backend.Completion.{Setting}
use joust_backend.Completion.Checks.{
  is_done, check_single_elimination_complete, check_double_elimination_complete,
  check_tournament_complete, check_swiss_round_complete, check_hybrid_phase1_complete,
}

-- The matches whose winner or loser goes to this one.
unfoldable pub feeders_of : ℕ → Dict MatchRow → Dict MatchRow
feeders_of id [] = []
feeders_of id ((k, m) ∷ rest) =
    let others = feeders_of id rest in if feeds id m then (k, m) ∷ others else others

-- A step to a match that may not be linked.
abbrev pub along : Option ℕ → (ℕ → World → Reply World) → World → Reply World
along none f w = ok w
along (some id) f w = f id w

-- There are feeders, and all of them are completed.
unfoldable pub is_fed : ℕ → Dict MatchRow → Bool
is_fed id matches =
    let feeders = feeders_of id matches in
    any (λ (e : ℕ × MatchRow). true) feeders && every is_done feeders

-- `completedMatchData({ winnerId, isBye: true })`
unfoldable pub walked_over : ℕ → Option ℕ → MatchRow → MatchRow
walked_over now winner m = record (completed_match_data now winner m) { is_bye = true }

-- `completedMatchData({ isBye: true })`, which leaves the winner as it is.
unfoldable pub dead : ℕ → MatchRow → MatchRow
dead now m = record (completed_match_data now m.winner_id m) { is_bye = true }

-- The end of `settleLosersStarvation` by the two seats; `go` is its own recursion.
unfoldable pub settle_seats :
    (ℕ → World → Reply World)
    → Handler
    → Setting
    → ℕ
    → MatchRow
    → Option ℕ
    → Option ℕ
    → World
    → Reply World
settle_seats go handle s id m (some p1) (some p2) w = ok w
settle_seats go handle s id m (some p1) none w =
    handle id (put_match id (walked_over s.now (some p1) m) w)
settle_seats go handle s id m none (some p2) w =
    handle id (put_match id (walked_over s.now (some p2) m) w)
settle_seats go handle s id m none none w =
    and_then (along m.next_match_id go (put_match id (dead s.now m) w))
      (along m.loser_next_match_id go)

-- `settleLosersStarvation`, on fuel.
unfoldable pub settle_losers_starvation : ℕ → Handler → Setting → ℕ → World → Reply World
settle_losers_starvation zero handle s id w = refused out_of_fuel
settle_losers_starvation (suc fuel) handle s id w = elim (lookup id w.matches) [
  | none ↦ ok w
  | some m ↦
      if not (is_completed m.status) && is_fed id w.matches
      then settle_seats (settle_losers_starvation fuel handle s) handle s id m m.player1_id
          m.player2_id w
      else ok w
]

-- The winner goes to the next match, where there are both.
unfoldable pub advance_winner : Handler → Setting → MatchRow → World → Reply World
advance_winner handle s m =
    along m.next_match_id
      (λ next. along m.winner_id (λ winner. advance handle s.tournament s.now winner next))

-- The loser drops to the losers bracket.
unfoldable pub advance_loser : Handler → Setting → MatchRow → World → Reply World
advance_loser handle s m = along m.loser_next_match_id (λ next.
    along (if m.player1_id ==? m.winner_id then m.player2_id else m.player1_id)
      (λ loser. advance handle s.tournament s.now loser next))

-- The branch of a single elimination and of the top cut.
unfoldable pub step_single : Handler → Setting → MatchRow → World → Reply World
step_single handle s m w =
    and_then (advance_winner handle s m w)
      (λ (v : World). ok (check_single_elimination_complete s m.round_number v))

-- The branch of a double elimination.
unfoldable pub step_double : ℕ → Handler → Setting → MatchRow → World → Reply World
step_double fuel handle s m w = and_then (advance_winner handle s m w) (λ (v1 : World).
    and_then (advance_loser handle s m v1) (λ (v2 : World).
      and_then (along m.next_match_id (settle_losers_starvation fuel handle s) v2) (λ (v3 : World).
        and_then (along m.loser_next_match_id (settle_losers_starvation fuel handle s) v3)
          (check_double_elimination_complete s))))

unfoldable pub step_by_system : ℕ → Handler → Setting → System → MatchRow → World → Reply World
step_by_system fuel handle s single_elimination m w = step_single handle s m w
step_by_system fuel handle s double_elimination m w = step_double fuel handle s m w
step_by_system fuel handle s swiss m w = check_swiss_round_complete handle s m.round_number w
step_by_system fuel handle s round_robin m w = ok (check_tournament_complete s w)
step_by_system fuel handle s hybrid m w =
    if m.phase == 1
    then check_hybrid_phase1_complete handle s m.round_number w
    else step_single handle s m w

-- `handleMatchCompletion`, on fuel. The calls back into it have one unit less.
unfoldable pub handle_match_completion : ℕ → Setting → Handler
handle_match_completion zero s id w = refused out_of_fuel
handle_match_completion (suc fuel) s id w = elim (lookup id w.matches) [
  | none ↦ ok w
  | some m ↦ step_by_system (suc fuel) (handle_match_completion fuel s) s s.tournament.system m w
]
