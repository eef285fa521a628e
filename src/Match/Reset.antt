-- ===== src/Match/Reset.antt =====
-- `resetMatch` of src/tournament/match/match.service.ts.
use joust_backend.Prelude.{
  ℕ, Option, none, some, is_some, List, [], ◌∷◌, Bool, true, false, not, ltb, any, length,
  get_elem?, ◌&&◌, ◌||◌, ◌==◌, ◌==?◌, if◌then◌else◌,
}
use joust_backend.Prelude.Dict.{Dict, lookup, contains}
use joust_backend.Formats.{
  System, single_elimination, double_elimination, swiss, round_robin, hybrid,
}
use joust_backend.Stats.{revoke, apply_match_stats}
use joust_backend.Match.{
  MatchStatus, is_completed, is_pending, MatchRow, result_of, TournamentStatus, World, put_match,
  Tournament, Reply, ok, refused, only_completed, dependent_started, dependent_round,
  conflicting_participants,
}
use joust_backend.Match.Service.{guarded, with_match}

-- `destinationIds`: a missing link is left out.
unfoldable pub destination_ids : Option ℕ → Option ℕ → List ℕ
destination_ids none none = []
destination_ids none (some l) = l ∷ []
destination_ids (some n) none = n ∷ []
destination_ids (some n) (some l) = if n == l then n ∷ [] else n ∷ l ∷ []

-- A destination that has been started, or is no longer pending.
abbrev pub is_blocked : MatchRow → Bool
is_blocked m = not (is_pending m.status) || is_some m.started_at

unfoldable pub any_blocked : Dict MatchRow → List ℕ → Bool
any_blocked matches [] = false
any_blocked matches (id ∷ ids) =
    (elim (lookup id matches) [ none ↦ false | some m ↦ is_blocked m ]) || any_blocked matches ids

-- The systems whose later rounds depend on the whole round and not on links.
unfoldable pub depends_on_round : System → MatchRow → Bool
depends_on_round swiss m = true
depends_on_round hybrid m = m.phase == 1
depends_on_round double_elimination m = m.round_number == 200
depends_on_round single_elimination m = false
depends_on_round round_robin m = false

-- The player whom a completed match with a winner delivers to one it feeds.
unfoldable pub delivered : ℕ → MatchRow → Option ℕ
delivered next m = elim m.winner_id [
  | none ↦ none
  | some winner ↦
      if not (is_completed m.status)
      then none
      else if m.next_match_id ==? some next
      then some winner
      else if m.player1_id ==? some winner
      then m.player2_id
      else m.player1_id
]

abbrev pub feeds : ℕ → MatchRow → Bool
feeds next m = (m.next_match_id ==? some next) || (m.loser_next_match_id ==? some next)

abbrev cons_some : Option ℕ → List ℕ → List ℕ
cons_some none xs = xs
cons_some (some x) xs = x ∷ xs

-- `players` of the feeders, in the order of their ids.
unfoldable pub delivered_players : ℕ → Dict MatchRow → List ℕ
delivered_players next [] = []
delivered_players next ((id, m) ∷ rest) =
    let players = delivered_players next rest in
    if feeds next m then cons_some (delivered next m) players else players

-- `new Set(players).size !== players.length`
unfoldable pub has_duplicates : List ℕ → Bool
has_duplicates [] = false
has_duplicates (x ∷ xs) = contains x xs || has_duplicates xs

-- The destinations, one after the other, from the matches as they are stored by then.
unfoldable pub rebuild : List ℕ → World → Reply World
rebuild [] w = ok w
rebuild (id ∷ ids) w = elim (lookup id w.matches) [
  | none ↦ rebuild ids w
  | some next ↦
      let players = delivered_players id w.matches in
      guarded ((ltb 2 (length players) || has_duplicates players, conflicting_participants) ∷ []) (
        rebuild ids (
          put_match id
            (record next { player1_id = get_elem? players 0; player2_id = get_elem? players 1 }) w))
]

-- The row of the reset match.
unfoldable pub replayed : MatchRow → MatchRow
replayed m = record m {
  status = MatchStatus.ongoing;
  winner_id = none;
  completed_at = none;
  reported_winner_id = none;
  player1_score = 0;
  player2_score = 0;
}

-- The reversal of the statistics, the write of the match, and its logs discarded.
unfoldable pub taken_back : Tournament → ℕ → MatchRow → World → World
taken_back t id m w =
    let config = t.config_of m.phase in
    record (put_match id (replayed m) w) {
      stats =
          apply_match_stats t.system config.points config.bye_result revoke false (result_of m)
            w.stats;
      game_logs = λ j. if j == id then [] else w.game_logs j;
    }

-- A completed tournament is ongoing again.
unfoldable pub reopened : World → World
reopened w = elim w.status [
  | TournamentStatus.completed ↦ record w {
    status = TournamentStatus.ongoing;
    completed_at = none;
    winner_id = none;
  }
  | _ ↦ w
]

unfoldable pub reset_match : Tournament → ℕ → World → Reply World
reset_match t id w = with_match id w (λ (m : MatchRow).
    let ids = destination_ids m.next_match_id m.loser_next_match_id in
    guarded
      ((not (is_completed m.status), only_completed)
        ∷ (any_blocked w.matches ids, dependent_started)
        ∷ (
          depends_on_round t.system m && any (λ n. ltb m.round_number n) w.round_numbers,
          dependent_round,
        )
        ∷ [])
      (elim (rebuild ids (taken_back t id m w)) [
        | refused why ↦ refused why
        | ok rebuilt ↦ ok (reopened rebuilt)
      ]))
