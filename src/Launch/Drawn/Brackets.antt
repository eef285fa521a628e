-- ===== src/Launch/Drawn/Brackets.antt =====
-- What `generateBracket` of src/tournament/tournament.service.ts shows and what the elimination systems
-- of src/Formats/formats.service.ts write.
use joust_backend.Prelude.{
  ℕ, ◌≡◌, ap, sym, ◌∙◌, subst, List, [], map, Bool, true, false, length, arith,
}
use joust_backend.Formats.{
  System, single_elimination, double_elimination, swiss, round_robin, hybrid,
}
use joust_backend.Seeding.{entry_of, seed_bracket_slots, next_power_of_two, generate_bracket}
use joust_backend.Seeding.Bracket.{first_round}
use joust_backend.Match.{World, User, Tournament, TournamentStatus, ok}
use joust_backend.Match.Service.{Handler}
use joust_backend.Match.Soundness.{Returns}
use joust_backend.Completion.{Setting, matches_of_round}
use joust_backend.Completion.Build.{init_single_elimination}
use joust_backend.Completion.Start.{initialize_tournament_format}
use joust_backend.Launch.{seats_of}
use joust_backend.Launch.Preview.{
  Matchup, preview_bracket, seats_shown, preview_bracket-generate_bracket,
}
use joust_backend.Launch.Drawn.{
  pairing_seats, FirstSeats, build_rounds-first, both_seats, both_seats-seats_paired,
}
use joust_backend.Launch.Drawn.Double.{init_double_elimination-first}

abbrev pub is_elimination : System → Bool
is_elimination single_elimination = true
is_elimination double_elimination = true
is_elimination swiss = false
is_elimination round_robin = false
is_elimination hybrid = false

elimination-first :
    (handle : Handler) (s : Setting) (draw : ℕ → ℕ) (system : System) (player_ids : List ℕ)
    (w : World)
    → is_elimination system ≡ true
    → w.matches ≡ []
    → (let slots = seed_bracket_slots player_ids (next_power_of_two (length player_ids)) in
        Returns
          (FirstSeats (pairing_seats (first_round (generate_bracket (map entry_of slots)))))
          (initialize_tournament_format handle s draw system player_ids false w))
unfolding initialize_tournament_format init_single_elimination
elimination-first handle s draw single_elimination player_ids w knockout vacant =
    build_rounds-first handle s 1 _ w vacant
elimination-first handle s draw double_elimination player_ids w knockout vacant =
    init_double_elimination-first handle s player_ids w vacant
elimination-first handle s draw swiss player_ids w knockout vacant =
    absurd (ground (arith, knockout))
elimination-first handle s draw round_robin player_ids w knockout vacant =
    absurd (ground (arith, knockout))
elimination-first handle s draw hybrid player_ids w knockout vacant =
    absurd (ground (arith, knockout))

-- In the elimination systems the preview of a tournament before its start shows the first round that
-- the tournament is then given: when the preview is shown for some order of the players, and
-- `initializeTournamentFormat` draws up a single or double elimination of the same order in a
-- tournament without matches, not activated, as `startTournament` does, the seats of the stored matches
-- of round 1, in the order of their creation, are the seats of the preview, empty ones included. With
-- random seeding the start draws another order than the preview, and the other systems another round.
pub preview_bracket-initialize_tournament_format :
    (t : Tournament) (user : User) (status : TournamentStatus) (player_ids : List ℕ)
    (shown : List Matchup) (handle : Handler) (s : Setting) (draw : ℕ → ℕ) (system : System)
    (w drawn : World)
    → preview_bracket t user status player_ids ≡ ok shown
    → is_elimination system ≡ true
    → w.matches ≡ []
    → initialize_tournament_format handle s draw system player_ids false w ≡ ok drawn
    → seats_of (matches_of_round 1 drawn.matches) ≡ both_seats (seats_shown shown)
preview_bracket-initialize_tournament_format t user status player_ids shown handle s draw system w
      drawn previewed knockout vacant made =
    subst (Returns (FirstSeats _)) made
      (elimination-first handle s draw system player_ids w knockout vacant)
    ∙ (sym (both_seats-seats_paired _)
        ∙ ap both_seats
            (sym (preview_bracket-generate_bracket t user status player_ids shown previewed)))
