-- ===== src/Match/Walkover.antt =====
-- A walkover that is reset: `completeAsWalkover` and `resetMatch` of
-- src/tournament/match/match.service.ts. The first credits the winner alone, and the second reverses
-- both players.
use joust_backend.Prelude.{ℕ, ◌≡◌, some}
use joust_backend.Prelude.Dict.{lookup}
use joust_backend.Stats.{StatsDb}
use joust_backend.Match.{MatchRow, World, Tournament}
use joust_backend.Match.Service.{Handler}

module _ (t : Tournament) (handle : Handler) (id winner loser : ℕ) where
  -- The row of the match, and the loser's statistics.
  abbrev Left : MatchRow → StatsDb → World → Type 0
  Left m db v =
      (lookup id v.matches ≡ some m)
      × ((v.stats.stats loser ≡ db.stats loser)
          × (v.stats.participant loser ≡ db.participant loser))
