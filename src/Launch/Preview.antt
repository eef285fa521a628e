-- ===== src/Launch/Preview.antt =====
-- The preview of a bracket and the deletion of a tournament: `generateBracket` and
-- `deleteTournament` of src/tournament/tournament.service.ts.
use joust_backend.Prelude.{
  ℕ, suc, ◌≤◌, ◌<◌, ◌≡◌, refl, ap, sym, subst, ◌∙◌, ◌*◌, ◌^◌, length-map, Option, none, some, List,
  [], ◌∷◌, map, Bool, true, false, not, ltb, length, if◌then◌else◌, arith,
}
use joust_backend.Prelude.Dict.{Dict}
use joust_backend.Stats.{StatsDb, revoke, apply_match_stats}
use joust_backend.Seeding.{
  Pairing, entry_of, pair_up, seed_bracket_slots, next_power_of_two, generate_bracket,
}
use joust_backend.Seeding.Bracket.{
  size-le-seed_bracket_slots, first_round, generate_bracket-first_round,
}
use joust_backend.Seeding.Slots.{next_power_of_two_lem}
use joust_backend.Match.{
  TournamentStatus, MatchRow, is_completed, result_of, World, User, Tournament, Refusal, Reply, ok,
  refused, already_started, already_finished, too_few_players, not_organizer, first_refusal,
}
use joust_backend.Match.Service.{guarded}
use joust_backend.Completion.{is_over}
use joust_backend.Completion.Build.{seat_of}
use joust_backend.Launch.{is_stranger}

-- One of the `matchups`.
pub record Matchup : Type 0 where
  pub match_index : ℕ
  pub player1 : Option ℕ
  pub player2 : Option ℕ

-- The loop over the slots in twos, from this index.
unfoldable pub matchups : ℕ → List (Option ℕ) → List Matchup
matchups i [] = []
matchups i (a ∷ []) = record { match_index = i; player1 = a; player2 = none } ∷ []
matchups i (a ∷ b ∷ slots) =
    record { match_index = i; player1 = a; player2 = b } ∷ matchups (suc i) slots

-- The statuses in which there is a preview.
unfoldable pub is_before_start : TournamentStatus → Bool
is_before_start TournamentStatus.upcoming = true
is_before_start TournamentStatus.pending = true
is_before_start TournamentStatus.opened = true
is_before_start TournamentStatus.ongoing = false
is_before_start TournamentStatus.completed = false

-- `generateBracket`, of the participants by their seeds.
unfoldable pub preview_bracket :
    Tournament → User → TournamentStatus → List ℕ → Reply (List Matchup)
preview_bracket t user status player_ids =
    guarded
      ((not (is_before_start status), already_started)
        ∷ (ltb (length player_ids) 2, too_few_players)
        ∷ (is_stranger t user, not_organizer)
        ∷ [])
      (ok (matchups 1 (seed_bracket_slots player_ids (next_power_of_two (length player_ids)))))

-- The reversals of `deleteTournament`, in the order of the matches.
unfoldable pub revoke_all : Tournament → Dict MatchRow → StatsDb → StatsDb
revoke_all t [] db = db
revoke_all t ((id, m) ∷ rows) db =
    let config = t.config_of m.phase in
    revoke_all t rows (
      if is_completed m.status
      then apply_match_stats t.system config.points config.bye_result revoke false (result_of m) db
      else db)

-- `deleteTournament`: the statistics that are left, the tournament being gone.
unfoldable pub delete_tournament : Tournament → World → Reply StatsDb
delete_tournament t w =
    guarded ((is_over w.status, already_finished) ∷ []) (ok (revoke_all t w.matches w.stats))

-- The seats of a preview and of the pairings of a round.
unfoldable pub seats_shown : List Matchup → List (Option ℕ × Option ℕ)
seats_shown [] = []
seats_shown (m ∷ ms) = (m.player1, m.player2) ∷ seats_shown ms

unfoldable pub seats_paired : List Pairing → List (Option ℕ × Option ℕ)
seats_paired [] = []
seats_paired (m ∷ ms) = (seat_of m.p1, seat_of m.p2) ∷ seats_paired ms

seat_of-entry_of : (slot : Option ℕ) → seat_of (entry_of slot) ≡ slot
unfolding seat_of entry_of
seat_of-entry_of none = refl
seat_of-entry_of (some p) = refl

seats_agree :
    (i : ℕ) (slots : List (Option ℕ))
    → seats_shown (matchups i slots) ≡ seats_paired (pair_up (map entry_of slots))
unfolding matchups seats_shown seats_paired pair_up seat_of entry_of
seats_agree i [] = refl
seats_agree i (none ∷ []) = refl
seats_agree i (some p ∷ []) = refl
seats_agree i (a ∷ b ∷ slots) =
    ground (arith, seat_of-entry_of a, seat_of-entry_of b, seats_agree (suc i) slots)

slots_seated :
    (player_ids : List ℕ)
    → 2 ≤ length player_ids
    → 2
      ≤ length
          (map entry_of (seed_bracket_slots player_ids (next_power_of_two (length player_ids))))
slots_seated player_ids h = go (next_power_of_two_lem (length player_ids) (omega arith))
  where
    size : ℕ
    size = next_power_of_two (length player_ids)

    go :
        ((k : ℕ) × (size ≡ 2 ^ k) × (length player_ids ≤ 2 ^ k) × (2 ^ k < length player_ids * 2))
        → 2 ≤ length (map entry_of (seed_bracket_slots player_ids size))
    go (k, same, fits, tight) = omega (
      arith,
      same,
      fits,
      h,
      length-map entry_of (seed_bracket_slots player_ids size),
      size-le-seed_bracket_slots player_ids size,
    )

-- The preview shows the first round of `generate_bracket` over the same order of the players, which the
-- elimination systems draw by; the other systems draw their first round in another way.
pub preview_bracket-generate_bracket :
    (t : Tournament) (user : User) (status : TournamentStatus) (player_ids : List ℕ)
    (shown : List Matchup)
    → preview_bracket t user status player_ids ≡ ok shown
    → (let slots = seed_bracket_slots player_ids (next_power_of_two (length player_ids)) in
        seats_shown shown ≡ seats_paired (first_round (generate_bracket (map entry_of slots))))
unfolding preview_bracket guarded first_refusal
preview_bracket-generate_bracket t user status player_ids shown h =
    subst Shows h (go (first_refusal guards) refl)
  where
    slots : List (Option ℕ)
    slots = seed_bracket_slots player_ids (next_power_of_two (length player_ids))

    guards : List (Bool × Refusal)
    guards =
        (not (is_before_start status), already_started)
        ∷ (ltb (length player_ids) 2, too_few_players)
        ∷ (is_stranger t user, not_organizer)
        ∷ []

    Shows : Reply (List Matchup) → Type 0
    Shows (ok ms) =
        seats_shown ms ≡ seats_paired (first_round (generate_bracket (map entry_of slots)))
    Shows (refused why) = Unit

    shows : 2 ≤ length player_ids → Shows (ok (matchups 1 slots))
    shows two =
        seats_agree 1 slots
        ∙ ap seats_paired
            (sym (generate_bracket-first_round (map entry_of slots) (slots_seated player_ids two)))

    go :
        (r : Option Refusal)
        → first_refusal guards ≡ r
        → Shows (elim r [ some why ↦ refused why | none ↦ ok (matchups 1 slots) ])
    go none e = shows (ground arith)
    go (some why) e = tt
