-- ===== src/Guests/Conversion.antt =====
-- `convertGuest` of src/auth/auth.service.ts: a guest becomes a registered account, and the lifetime
-- statistics are rebuilt from the tournaments.
use joust_backend.Prelude.{
  ℕ, ◌+◌, Option, none, some, or_else, List, [], ◌∷◌, Bool, true, false, not, ◌||◌, ◌==◌, ◌==?◌,
  if◌then◌else◌,
}
use joust_backend.Prelude.Dict.{Dict, lookup, insert}
use joust_backend.Prelude.Int.{pos}
use joust_backend.Stats.{StatsRow}
use joust_backend.Match.{TournamentStatus}
use joust_backend.Closing.{
  Career, new_career, PlacementPoints, played_one, won_one, paid, points_for, is_closed,
}
use joust_backend.Guests.{Name, Account, ClaimProblem, guest_claim_problem}

-- One tournament of the guest as the loop reads it: whether the request leaves it out, whether an
-- exclusion is recorded, and the guest's row with its statistics and placement. `game` is the key of
-- `game?.name ?? format?.gameName`.
pub record Event : Type 0 where
  pub is_left_out : Bool
  pub is_excluded : Bool
  pub stats : Option StatsRow
  pub game : Option ℕ
  pub status : TournamentStatus
  pub winner_id : Option ℕ
  pub placement : Option ℕ
  pub is_hybrid : Bool
  pub points : PlacementPoints

-- `Aggregate`: the counts of games, and what the ends of tournaments add.
pub record Aggregate : Type 0 where
  pub games_played : ℕ
  pub wins : ℕ
  pub losses : ℕ
  pub draws : ℕ
  pub career : Career

-- `emptyAggregate()`
abbrev pub empty_aggregate : Aggregate
empty_aggregate = record {
  games_played = 0;
  wins = 0;
  losses = 0;
  draws = 0;
  career = new_career 0 0 (pos 0);
}

unfoldable pub add_games : Option StatsRow → Aggregate → Aggregate
add_games none a = a
add_games (some row) a = record a {
  games_played = a.games_played + row.games_played;
  wins = a.wins + row.wins;
  losses = a.losses + row.losses;
  draws = a.draws + row.draws;
}

-- `if (!placement) continue`: a rank of 0 counts as none.
unfoldable pub pay_placement : Event → Option ℕ → Career → Career
pay_placement e none c = c
pay_placement e (some rank) c =
    if rank == 0 then c else paid (points_for e.points e.is_hybrid rank) c

abbrev pub is_title : ℕ → Event → Bool
is_title guest e = (e.winner_id ==? some guest) || (e.placement ==? some 1)

-- The end of a completed tournament.
unfoldable pub add_end : ℕ → Event → Career → Career
add_end guest e c =
    let played = played_one c in
    pay_placement e e.placement (if is_title guest e then won_one played else played)

-- What one tournament adds to an aggregate.
unfoldable pub add_event : ℕ → Event → Aggregate → Aggregate
add_event guest e a =
    if e.is_left_out || e.is_excluded
    then a
    else (let counted = add_games e.stats a in
        if is_closed e.status
        then record counted { career = add_end guest e counted.career }
        else counted)

-- `global`, over the tournaments in turn.
unfoldable pub add_events : ℕ → List Event → Aggregate → Aggregate
add_events guest [] a = a
add_events guest (e ∷ es) a = add_events guest es (add_event guest e a)

-- The aggregate of the event's game, which the first event of a game makes.
unfoldable pub add_to_game : ℕ → Event → Option ℕ → Dict Aggregate → Dict Aggregate
add_to_game guest e none by_game = by_game
add_to_game guest e (some game) by_game =
    if e.is_left_out || e.is_excluded
    then by_game
    else insert game (add_event guest e (or_else (lookup game by_game) empty_aggregate)) by_game

-- `byGame`
unfoldable pub add_to_games : ℕ → List Event → Dict Aggregate → Dict Aggregate
add_to_games guest [] by_game = by_game
add_to_games guest (e ∷ es) by_game = add_to_games guest es (add_to_game guest e e.game by_game)

-- The request, with what is looked up for it: whether another account has the name or the mail
-- address, and the slug that is generated.
pub record ConvertRequest : Type 0 where
  pub verified_ownership : Bool
  pub username : Name
  pub is_taken : Bool
  pub slug : Name

pub data ConversionProblem : Type 0 where
  not_verified guest_not_found already_registered taken : ConversionProblem
  cannot_claim : ClaimProblem → ConversionProblem

pub data Conversion : Type 0 where
  converted : Account → Aggregate → Dict Aggregate → Conversion
  unconverted : ConversionProblem → Conversion

-- The update of the guest's row.
unfoldable pub registered_account : ConvertRequest → Account → Account
registered_account r a = record a {
  username = some r.username;
  is_guest = false;
  slug = some r.slug;
  has_credentials = true;
  expires_at = none;
  is_expired = false;
}

unfoldable pub convert_account : ℕ → ConvertRequest → ℕ → List Event → Account → Conversion
convert_account now r guest events a =
    if not a.is_guest then unconverted already_registered else (elim (guest_claim_problem now a) [
      | some problem ↦ unconverted (cannot_claim problem)
      | none ↦
          if r.is_taken
          then unconverted taken
          else converted (registered_account r a) (add_events guest events empty_aggregate)
              (add_to_games guest events [])
    ])

-- `convertGuest`, with the guest's row read again as it was.
unfoldable pub convert_guest : ℕ → ConvertRequest → ℕ → List Event → Dict Account → Conversion
convert_guest now r guest events accounts =
    if not r.verified_ownership then unconverted not_verified else (elim (lookup guest accounts) [
      | none ↦ unconverted guest_not_found
      | some a ↦ convert_account now r guest events a
    ])
