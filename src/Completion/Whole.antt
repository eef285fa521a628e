-- ===== src/Completion/Whole.antt =====
-- A whole tournament, from its first round on, keeps the completed matches sound: the starts of
-- src/Formats/formats.service.ts.
use joust_backend.Prelude.{
  ℕ, zero, suc, ◌+◌, ◌-◌, ◌*◌, ◌/◌, refl, Option, none, some, List, [], ◌∷◌, map, Bool, true, false,
  length, if◌then◌else◌,
}
use joust_backend.Formats.{
  System, single_elimination, double_elimination, swiss, round_robin, hybrid,
}
use joust_backend.Seeding.{entry_of, next_power_of_two, seed_bracket_slots, generate_bracket}
use joust_backend.Match.{MatchRow, World, put_match, Tournament}
use joust_backend.Match.Service.{Handler}
use joust_backend.Match.Lifecycle.{started}
use joust_backend.Match.Soundness.{Returns, Sound, KeepsSound, Bool-Returns, insert-AreSound}
use joust_backend.Completion.{Setting, new_match, create_match}
use joust_backend.Completion.Build.{create_bye}
use joust_backend.Completion.Double.{init_double_elimination}
use joust_backend.Completion.Double.{log2}
use joust_backend.Seeding.{shuffled}
use joust_backend.Completion.{top_is_tied, head_id}
use joust_backend.Completion.Checks.{highest}
use joust_backend.Completion.Start.{
  rotate, table_pairs, full_table, TieAction, apply_tiebreakers, extend_round, resolve_tie,
  create_swiss_pairs, init_swiss, round_robin_bye, round_robin_match, round_robin_pairs,
  round_robin_rounds, init_round_robin, initialize_tournament_format,
}
use joust_backend.Completion.Drawn.{
  started_sound, first-Returns, create_winners-Sound, create_losers-Sound, link_rounds-Sound,
  link_brackets-Sound, create_grand_final-Sound,
}
use joust_backend.Completion.Checked.{complete_with-Sound}
use joust_backend.Completion.Sound.{
  and_then-Returns, create_round-Sound, create_match-Sound, handle_completed-Sound,
  handle_byes-Sound, create_bye-Sound, init_single_elimination-Sound,
  generate_next_swiss_round-Sound,
}

module _ (s : Setting) (handle : Handler) (safe : KeepsSound s.tournament handle) where
  abbrev t : Tournament
  t = s.tournament

  init_double_elimination-Sound :
      (player_ids : List ℕ) (activate : Bool) (w : World)
      → Sound t w
      → Returns (Sound t) (init_double_elimination handle s player_ids activate w)
  unfolding init_double_elimination
  init_double_elimination-Sound player_ids activate w sound =
      let size = next_power_of_two (length player_ids) in
      let k = log2 size in
      first-Returns (Sound t) (Sound t) _ _
        (create_winners-Sound s t true activate 1
          (generate_bracket (map entry_of (seed_bracket_slots player_ids size))) w sound)
        (λ winners h1.
          first-Returns (Sound t) (Sound t) _ _
            (create_losers-Sound s t k (2 * k - 2) 1 _
              (link_rounds-Sound s t false winners.1 winners.0 h1))
            (λ losers h2.
              and_then-Returns (Sound t) (Sound t) _ _
                (create_grand_final-Sound s t _ _ _
                  (link_brackets-Sound s t winners.1 losers.1 losers.0 h2))
                (λ built h3.
                  Bool-Returns (Sound t) activate _ _
                    (λ yes. handle_byes-Sound s handle safe _ built h3) (λ no. h3))))

  create_swiss_pairs-Sound :
      (activate : Bool) (phase i : ℕ) (players : List ℕ) (w : World)
      → Sound t w
      → Sound t (create_swiss_pairs s activate phase i players w).0
  unfolding create_swiss_pairs new_match
  create_swiss_pairs-Sound activate phase i [] w sound = sound
  create_swiss_pairs-Sound activate phase i (p1 ∷ []) w sound =
      create_bye-Sound s handle safe 1 phase i (some p1) w sound
  create_swiss_pairs-Sound activate phase i (p1 ∷ p2 ∷ players) w sound =
      create_swiss_pairs-Sound activate phase (suc i) players _ (written activate)
    where
      row : MatchRow
      row = new_match 1 phase i (some p1) (some p2) false

      made : ℕ × World
      made = create_match row w

      kept : Sound t made.1
      kept = create_match-Sound t row w refl sound

      written :
          (b : Bool) → Sound t (if b then put_match made.0 (started s.now row) made.1 else made.1)
      written true = insert-AreSound t made.0 _ made.1.matches (started_sound t s.now row) kept
      written false = kept

  init_swiss-Sound :
      (draw : ℕ → ℕ) (player_ids : List ℕ) (activate : Bool) (phase : ℕ) (w : World)
      → Sound t w
      → Returns (Sound t) (init_swiss handle s draw player_ids activate phase w)
  unfolding init_swiss
  init_swiss-Sound draw player_ids activate phase w sound =
      and_then-Returns (Sound t) (Sound t) _ _ (create_round-Sound t 1 w sound) (λ v opened.
        let kept = create_swiss_pairs-Sound activate phase 0 (shuffled draw player_ids) v opened in
        Bool-Returns (Sound t) activate _ _ (λ yes. handle_completed-Sound s handle safe _ _ kept)
          (λ no. kept))

  round_robin_bye-Sound :
      (activate : Bool) (number i p : ℕ) (w : World)
      → Sound t w
      → Returns (Sound t) (round_robin_bye handle s activate number i p w)
  unfolding round_robin_bye create_bye
  round_robin_bye-Sound activate number i p w sound =
      let kept = create_bye-Sound s handle safe number 1 i (some p) w sound in
      Bool-Returns (Sound t) activate _ _ (λ yes. safe _ _ kept) (λ no. kept)

  round_robin_match-Sound :
      (activate : Bool) (number i : ℕ) (p1 p2 : Option ℕ) (w : World)
      → Sound t w
      → Returns (Sound t) (round_robin_match handle s activate number i p1 p2 w)
  unfolding round_robin_match new_match
  round_robin_match-Sound activate number i none none w sound = sound
  round_robin_match-Sound activate number i (some p1) none w sound =
      round_robin_bye-Sound activate number i p1 w sound
  round_robin_match-Sound activate number i none (some p2) w sound =
      round_robin_bye-Sound activate number i p2 w sound
  round_robin_match-Sound activate number i (some p1) (some p2) w sound = written activate
    where
      row : MatchRow
      row = new_match number 1 i (some p1) (some p2) false

      made : ℕ × World
      made = create_match row w

      kept : Sound t made.1
      kept = create_match-Sound t row w refl sound

      written :
          (b : Bool) → Sound t (if b then put_match made.0 (started s.now row) made.1 else made.1)
      written true = insert-AreSound t made.0 _ made.1.matches (started_sound t s.now row) kept
      written false = kept

  round_robin_pairs-Sound :
      (activate : Bool) (number i : ℕ) (pairs : List (Option ℕ × Option ℕ)) (w : World)
      → Sound t w
      → Returns (Sound t) (round_robin_pairs handle s activate number i pairs w)
  unfolding round_robin_pairs
  round_robin_pairs-Sound activate number i [] w sound = sound
  round_robin_pairs-Sound activate number i (pair ∷ pairs) w sound =
      and_then-Returns (Sound t) (Sound t) _ _
        (round_robin_match-Sound activate number i pair.0 pair.1 w sound)
        (λ v kept. round_robin_pairs-Sound activate number (suc i) pairs v kept)

  round_robin_rounds-Sound :
      (activate : Bool) (left number : ℕ) (players : List (Option ℕ)) (w : World)
      → Sound t w
      → Returns (Sound t) (round_robin_rounds handle s activate left number players w)
  unfolding round_robin_rounds
  round_robin_rounds-Sound activate zero number players w sound = sound
  round_robin_rounds-Sound activate (suc left) number players w sound =
      and_then-Returns (Sound t) (Sound t) _ _ (create_round-Sound t number w sound) (λ v opened.
        and_then-Returns (Sound t) (Sound t) _ _
          (round_robin_pairs-Sound activate number 0 (table_pairs players (length players / 2) 0) v
            opened)
          (λ u kept. round_robin_rounds-Sound activate left (suc number) (rotate players) u kept))

  pub initialize_tournament_format-Sound :
      (draw : ℕ → ℕ) (system : System) (player_ids : List ℕ) (activate : Bool) (w : World)
      → Sound t w
      → Returns (Sound t) (initialize_tournament_format handle s draw system player_ids activate w)
  unfolding initialize_tournament_format init_round_robin
  initialize_tournament_format-Sound draw single_elimination player_ids activate w sound =
      init_single_elimination-Sound s handle safe player_ids activate 1 1 w sound
  initialize_tournament_format-Sound draw double_elimination player_ids activate w sound =
      init_double_elimination-Sound player_ids activate w sound
  initialize_tournament_format-Sound draw swiss player_ids activate w sound =
      init_swiss-Sound draw player_ids activate 1 w sound
  initialize_tournament_format-Sound draw round_robin player_ids activate w sound =
      round_robin_rounds-Sound activate _ 1 (full_table player_ids) w sound
  initialize_tournament_format-Sound draw hybrid player_ids activate w sound =
      init_swiss-Sound draw player_ids activate 1 w sound

  pub resolve_tie-Sound :
      (is_separated : World → Bool) (action : TieAction) (w : World)
      → Sound t w
      → Returns (Sound t) (resolve_tie handle s is_separated action w)
  unfolding resolve_tie
  resolve_tie-Sound is_separated apply_tiebreakers w sound =
      Bool-Returns (Sound t) (top_is_tied (s.leaderboard w)) _ _
        (λ tied.
          Bool-Returns (Sound t) (is_separated w) _ _
            (λ decided. complete_with-Sound s t (head_id (s.leaderboard w)) w sound)
            (λ identical. tt))
        (λ decided. tt)
  resolve_tie-Sound is_separated extend_round w sound =
      Bool-Returns (Sound t) (top_is_tied (s.leaderboard w)) _ _
        (λ tied.
          generate_next_swiss_round-Sound s handle safe (highest w.round_numbers + 1) 1 w sound)
        (λ decided. tt)
