-- ===== src/Completion/Sound.antt =====
-- The bracket code of src/Formats/formats.service.ts keeps the completed matches sound.
use joust_backend.Prelude.{
  ℕ, suc, ◌≡◌, refl, ap, ◌∙◌, sym, Option, none, some, List, [], ◌∷◌, Bool, true, false, ◌&&◌, ◌==◌,
  any, if◌then◌else◌, arith,
}
use joust_backend.Prelude.Dict.{Dict, lookup}
use joust_backend.Seeding.{Pairing}
use joust_backend.Match.{
  is_completed, MatchRow, completed_match_data, World, put_match, Tournament, Reply, ok, refused,
  and_then, round_exists,
}
use joust_backend.Match.Service.{Handler}
use joust_backend.Match.Lifecycle.{started}
use joust_backend.Match.Soundness.{
  is_sound_row, Returns, Sound, KeepsSound, Option-Returns, Bool-Returns, insert-AreSound,
}
use joust_backend.Match.Advancement.{running_in, credit_bye-Sound}
use joust_backend.Completion.{Setting, create_round, new_match, create_match}
use joust_backend.Completion.Build.{
  link_one, link_matches, handle_completed, handle_byes, seat_of, is_bye_pairing, activated,
  create_bracket_round, build_rounds, init_single_elimination, create_pairings, create_bye,
  generate_next_swiss_round,
}

pub and_then-Returns :
    (P Q : World → Type 0) (r : Reply World) (f : World → Reply World)
    → Returns P r
    → ((w : World) → P w → Returns Q (f w))
    → Returns Q (and_then r f)
and_then-Returns P Q (ok w) f h k = k w h
and_then-Returns P Q (refused why) f h k = tt

-- A world with the same matches.
pub same_matches-Sound :
    (t : Tournament) (v w : World) → v.matches ≡ w.matches → Sound t w → Sound t v
same_matches-Sound t v w same sound id m e =
    sound id m (ap (λ (d : Dict MatchRow). lookup id d) (sym same) ∙ e)

pub create_round-Sound :
    (t : Tournament) (number : ℕ) (w : World)
    → Sound t w
    → Returns (Sound t) (create_round number w)
unfolding create_round
create_round-Sound t number w sound =
    Bool-Returns (Sound t) (any (λ n. n == number) w.round_numbers) (refused round_exists)
      (ok (record w { round_numbers = number ∷ w.round_numbers })) (λ taken. tt) (λ free. sound)

pub create_match-Sound :
    (t : Tournament) (m : MatchRow) (w : World)
    → is_completed m.status ≡ false
    → Sound t w
    → Sound t (create_match m w).1
unfolding create_match
create_match-Sound t m w running sound = running_in t _ m w running sound

pub link_one-Sound :
    (t : Tournament) (id : ℕ) (next : Option ℕ) (w : World)
    → Sound t w
    → Sound t (link_one id next w)
unfolding link_one is_sound_row
link_one-Sound t id none w sound = sound
link_one-Sound t id (some next) w sound = go (lookup id w.matches) refl
  where
    go :
        (r : Option MatchRow)
        → lookup id w.matches ≡ r
        → Sound t
            (elim r [ none ↦ w | some m ↦ put_match id (record m { next_match_id = some next }) w ])
    go none e = sound
    go (some m) e = insert-AreSound t id _ w.matches (sound id m e) sound

pub link_matches-Sound :
    (t : Tournament) (one : Bool) (next_ids : List ℕ) (i : ℕ) (ids : List ℕ) (w : World)
    → Sound t w
    → Sound t (link_matches one next_ids i ids w)
unfolding link_matches
link_matches-Sound t one next_ids i [] w sound = sound
link_matches-Sound t one next_ids i (id ∷ ids) w sound =
    link_matches-Sound t one next_ids (suc i) ids _ (link_one-Sound t id _ w sound)

activated_sound :
    (t : Tournament) (now : ℕ) (m : MatchRow)
    → is_completed m.status ≡ false
    → is_sound_row t (activated now m) ≡ true
unfolding is_sound_row activated started completed_match_data
activated_sound t now m running = ground arith

pub new_match_pending :
    (number phase j : ℕ) (p1 p2 : Option ℕ) (bye : Bool)
    → is_completed (new_match number phase j p1 p2 bye).status ≡ false
unfolding new_match
new_match_pending number phase j p1 p2 bye = refl

create_bracket_round-Sound :
    (s : Setting) (t : Tournament) (activate : Bool) (number phase j : ℕ) (ms : List Pairing)
    (w : World)
    → Sound t w
    → Sound t (create_bracket_round s activate number phase j ms w).0
unfolding create_bracket_round
create_bracket_round-Sound s t activate number phase j [] w sound = sound
create_bracket_round-Sound s t activate number phase j (m ∷ ms) w sound =
    create_bracket_round-Sound s t activate number phase (suc j) ms _ (written activate)
  where
    row : MatchRow
    row = new_match number phase j (seat_of m.p1) (seat_of m.p2) (is_bye_pairing m)

    pending_row : is_completed row.status ≡ false
    pending_row = new_match_pending number phase j (seat_of m.p1) (seat_of m.p2) (is_bye_pairing m)

    made : ℕ × World
    made = create_match row w

    kept : Sound t made.1
    kept = create_match-Sound t row w pending_row sound

    written :
        (b : Bool) → Sound t (if b then put_match made.0 (activated s.now row) made.1 else made.1)
    written true =
        insert-AreSound t made.0 _ made.1.matches (activated_sound t s.now row pending_row) kept
    written false = kept

module _ (s : Setting) (handle : Handler) (safe : KeepsSound s.tournament handle) where
  abbrev t : Tournament
  t = s.tournament

  pub handle_completed-Sound :
      (ids : List ℕ) (w : World) → Sound t w → Returns (Sound t) (handle_completed handle ids w)
  unfolding handle_completed
  handle_completed-Sound [] w sound = sound
  handle_completed-Sound (id ∷ ids) w sound =
      and_then-Returns (Sound t) (Sound t) _ _
        (Option-Returns (Sound t) (lookup id w.matches) _ _ (λ missing. sound)
          (λ m here.
            Bool-Returns (Sound t) (is_completed m.status) _ _ (λ over. safe id w sound)
              (λ running. sound)))
        (λ v kept. handle_completed-Sound ids v kept)

  pub handle_byes-Sound :
      (rows : Dict MatchRow) (w : World) → Sound t w → Returns (Sound t) (handle_byes handle rows w)
  unfolding handle_byes
  handle_byes-Sound [] w sound = sound
  handle_byes-Sound ((id, m) ∷ rows) w sound =
      and_then-Returns (Sound t) (Sound t) _ _
        (Bool-Returns (Sound t) (m.is_bye && is_completed m.status) _ _ (λ bye. safe id w sound)
          (λ played. sound))
        (λ v kept. handle_byes-Sound rows v kept)

  build_rounds-Sound :
      (first : Bool) (phase number : ℕ) (previous : List ℕ) (rounds : List (List Pairing))
      (w : World)
      → Sound t w
      → Returns (Sound t) (build_rounds handle s first phase number previous rounds w)
  unfolding build_rounds
  build_rounds-Sound first phase number previous [] w sound = sound
  build_rounds-Sound first phase number previous (ms ∷ rounds) w sound =
      and_then-Returns (Sound t) (Sound t) _ _ (create_round-Sound t number w sound) (λ v opened.
        let made = create_bracket_round s first number phase 0 ms v in
        let linked = link_matches false made.1 0 previous made.0 in
        let kept : Sound t linked =
          link_matches-Sound t false made.1 0 previous made.0
            (create_bracket_round-Sound s t first number phase 0 ms v opened) in
        and_then-Returns (Sound t) (Sound t) _ _
          (Bool-Returns (Sound t) first _ _ (λ yes. handle_byes-Sound _ linked kept) (λ no. kept))
          (λ u built. build_rounds-Sound false phase (suc number) made.1 rounds u built))

  pub init_single_elimination-Sound :
      (player_ids : List ℕ) (activate : Bool) (round_offset phase : ℕ) (w : World)
      → Sound t w
      → Returns
          (Sound t)
          (init_single_elimination handle s player_ids activate round_offset phase w)
  unfolding init_single_elimination
  init_single_elimination-Sound player_ids activate round_offset phase w sound =
      build_rounds-Sound activate phase round_offset [] _ w sound

  create_pairings-Sound :
      (number phase i : ℕ) (pairs : List (ℕ × ℕ)) (w : World)
      → Sound t w
      → Sound t (create_pairings number phase i pairs w).0
  unfolding create_pairings new_match
  create_pairings-Sound number phase i [] w sound = sound
  create_pairings-Sound number phase i (pair ∷ pairs) w sound =
      create_pairings-Sound number phase (suc i) pairs _ (create_match-Sound t _ w refl sound)

  pub create_bye-Sound :
      (number phase index : ℕ) (bye : Option ℕ) (w : World)
      → Sound t w
      → Sound t (create_bye s number phase index bye w).0
  unfolding create_bye new_match completed_match_data is_sound_row
  create_bye-Sound number phase index none w sound = sound
  create_bye-Sound number phase index (some p) w sound =
      let row = new_match number phase index (some p) none true in
      let made = create_match row w in
      credit_bye-Sound t made.0 _ (
        insert-AreSound t made.0 (completed_match_data s.now (some p) row) made.1.matches
          (ground arith) (create_match-Sound t row w refl sound))

  pub generate_next_swiss_round-Sound :
      (number phase : ℕ) (w : World)
      → Sound t w
      → Returns (Sound t) (generate_next_swiss_round handle s number phase w)
  unfolding generate_next_swiss_round
  generate_next_swiss_round-Sound number phase w sound =
      and_then-Returns (Sound t) (Sound t) _ _ (create_round-Sound t number w sound) (λ v opened.
        handle_completed-Sound _ _
          (create_bye-Sound number phase _ _ _ (create_pairings-Sound number phase 0 _ v opened)))
