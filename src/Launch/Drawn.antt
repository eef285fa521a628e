-- ===== src/Launch/Drawn.antt =====
-- What `generateBracket` of src/tournament/tournament.service.ts shows and what
-- `initSingleElimination` of src/Formats/formats.service.ts writes.
pub mod Double
pub mod Brackets
use joust_backend.Prelude.{
  ℕ, suc, ◌+◌, ◌≤◌, ◌<◌, ◌/◌, ◌≡◌, refl, ap, sym, ◌∙◌, subst, max, Option, none, some, List, [],
  ◌∷◌, ◌++◌, map, Bool, true, false, ◌==◌, any, get_elem?, length, if◌then◌else◌, arith,
}
use joust_backend.Prelude.Dict.{Dict, lookup, insert}
use joust_backend.Formats.{single_elimination}
use joust_backend.Seeding.{
  Pairing, pair_up, entry_of, seed_bracket_slots, next_power_of_two, generate_bracket,
}
use joust_backend.Seeding.Bracket.{first_round}
use joust_backend.Match.{
  MatchRow, World, User, put_match, Tournament, TournamentStatus, Reply, ok, refused,
}
use joust_backend.Match.Service.{Handler}
use joust_backend.Match.Soundness.{Returns, Bool-Returns}
use joust_backend.Completion.{
  Setting, matches_of_round, fresh_id, create_round, new_match, create_match,
}
use joust_backend.Completion.Build.{
  seat_of, link_one, link_matches, is_bye_pairing, create_bracket_round, build_rounds,
  init_single_elimination,
}
use joust_backend.Completion.Start.{initialize_tournament_format}
use joust_backend.Completion.Sound.{and_then-Returns}
use joust_backend.Launch.{seats_of}
use joust_backend.Launch.Preview.{
  Matchup, preview_bracket, seats_shown, seats_paired, preview_bracket-generate_bracket,
}

-- The seats of the first round as it is stored.
abbrev pub first_seats : Dict MatchRow → List (Option ℕ)
first_seats d = seats_of (matches_of_round 1 d)

-- What a new row adds to them.
abbrev pub row_seats : MatchRow → List (Option ℕ)
row_seats m = if m.round_number == 1 then m.player1_id ∷ m.player2_id ∷ [] else []

pub insert-fresh :
    (k : ℕ) (m : MatchRow) (d : Dict MatchRow)
    → fresh_id d ≤ k
    → first_seats (insert k m d) ≡ first_seats d ++ row_seats m
unfolding insert matches_of_round seats_of fresh_id
insert-fresh k m [] h = ground arith
insert-fresh k m ((id, n) ∷ rest) h = ground (arith, insert-fresh k m rest (ground arith))

pub insert-reseated :
    (k : ℕ) (m n : MatchRow) (d : Dict MatchRow)
    → lookup k d ≡ some m
    → n.round_number ≡ m.round_number
    → n.player1_id ≡ m.player1_id
    → n.player2_id ≡ m.player2_id
    → first_seats (insert k n d) ≡ first_seats d
unfolding insert lookup matches_of_round seats_of
insert-reseated k m n [] here number one two = absurd (ground (arith, here))
insert-reseated k m n ((id, r) ∷ rest) here number one two =
    ground (arith, insert-reseated k m n rest)

pub link_one-first_seats :
    (id : ℕ) (next : Option ℕ) (w : World)
    → first_seats (link_one id next w).matches ≡ first_seats w.matches
unfolding link_one
link_one-first_seats id none w = refl
link_one-first_seats id (some next) w = go (lookup id w.matches) refl
  where
    Keeps : World → Type 0
    Keeps v = first_seats v.matches ≡ first_seats w.matches

    go :
        (r : Option MatchRow)
        → lookup id w.matches ≡ r
        → Keeps
            (elim r [ none ↦ w | some m ↦ put_match id (record m { next_match_id = some next }) w ])
    go none e = refl
    go (some m) e = insert-reseated id m _ w.matches e refl refl refl

pub link_matches-first_seats :
    (is_one_to_one : Bool) (next_ids : List ℕ) (i : ℕ) (ids : List ℕ) (w : World)
    → first_seats (link_matches is_one_to_one next_ids i ids w).matches ≡ first_seats w.matches
unfolding link_matches
link_matches-first_seats is_one_to_one next_ids i [] w = refl
link_matches-first_seats is_one_to_one next_ids i (id ∷ ids) w =
    link_matches-first_seats is_one_to_one next_ids (suc i) ids _ ∙ link_one-first_seats id _ w

-- The seats of pairings, one after the other.
abbrev pub pairing_seats : List Pairing → List (Option ℕ)
pairing_seats [] = []
pairing_seats (m ∷ ms) = seat_of m.p1 ∷ seat_of m.p2 ∷ pairing_seats ms

pub append_nil : {A : Type 0} (xs : List A) → xs ++ [] ≡ xs
append_nil [] = refl
append_nil (x ∷ xs) = ap (◌∷◌ x) (append_nil xs)

pub append_assoc : {A : Type 0} (xs ys zs : List A) → (xs ++ ys) ++ zs ≡ xs ++ (ys ++ zs)
append_assoc [] ys zs = refl
append_assoc (x ∷ xs) ys zs = ap (◌∷◌ x) (append_assoc xs ys zs)

-- A round that is not activated adds its pairings when it is the first one, and nothing otherwise.
create_bracket_round-first_seats :
    (s : Setting) (number phase j : ℕ) (ms : List Pairing) (w : World)
    → first_seats (create_bracket_round s false number phase j ms w).0.matches
      ≡ first_seats w.matches ++ (if number == 1 then pairing_seats ms else [])
unfolding create_bracket_round create_match new_match
create_bracket_round-first_seats s number phase j [] w =
    sym (ground (arith, append_nil (first_seats w.matches)))
create_bracket_round-first_seats s number phase j (m ∷ ms) w =
    create_bracket_round-first_seats s number phase (suc j) ms _
    ∙ (ap (λ xs. xs ++ (if number == 1 then pairing_seats ms else []))
          (insert-fresh (fresh_id w.matches)
            (new_match number phase j (seat_of m.p1) (seat_of m.p2) (is_bye_pairing m)) w.matches
            (omega arith))
        ∙ (append_assoc (first_seats w.matches) _ _ ∙ ground arith))

-- The first round has these seats.
abbrev pub FirstSeats : List (Option ℕ) → World → Type 0
FirstSeats seats v = first_seats v.matches ≡ seats

pub create_round-FirstSeats :
    (number : ℕ) (seats : List (Option ℕ)) (w : World)
    → FirstSeats seats w
    → Returns (FirstSeats seats) (create_round number w)
unfolding create_round
create_round-FirstSeats number seats w h =
    Bool-Returns (FirstSeats seats) (any (λ n. n == number) w.round_numbers) _ _ (λ taken. tt)
      (λ free. h)

module _ (handle : Handler) (s : Setting) where
  build_rounds-later :
      (phase number : ℕ) (previous : List ℕ) (rounds : List (List Pairing))
      (seats : List (Option ℕ)) (w : World)
      → 2 ≤ number
      → FirstSeats seats w
      → Returns (FirstSeats seats) (build_rounds handle s false phase number previous rounds w)
  unfolding build_rounds
  build_rounds-later phase number previous [] seats w late h = h
  build_rounds-later phase number previous (ms ∷ rounds) seats w late h =
      and_then-Returns (FirstSeats seats) (FirstSeats seats) _ _
        (create_round-FirstSeats number seats w h)
        (λ opened same. build_rounds-later phase (suc number) _ rounds seats _ (omega arith) (
          link_matches-first_seats false _ 0 previous _
          ∙ (create_bracket_round-first_seats s number phase 0 ms opened
              ∙ ground (arith, append_nil (first_seats opened.matches)))))

  pub build_rounds-first :
      (phase : ℕ) (rounds : List (List Pairing)) (w : World)
      → w.matches ≡ []
      → Returns
          (FirstSeats (pairing_seats (first_round rounds)))
          (build_rounds handle s false phase 1 [] rounds w)
  unfolding build_rounds first_round link_matches seats_of matches_of_round
  build_rounds-first phase [] w vacant = rw vacant refl
  build_rounds-first phase (ms ∷ rounds) w vacant =
      and_then-Returns (FirstSeats []) (FirstSeats (pairing_seats ms)) _ _
        (create_round-FirstSeats 1 [] w (rw vacant refl))
        (λ opened none_yet. build_rounds-later phase 2 _ rounds (pairing_seats ms) _ (omega arith) (
          create_bracket_round-first_seats s 1 phase 0 ms opened
          ∙ ap (λ xs. xs ++ pairing_seats ms) none_yet))

-- The two seats of each pair, one after the other.
unfoldable pub both_seats : List (Option ℕ × Option ℕ) → List (Option ℕ)
both_seats [] = []
both_seats (pair ∷ pairs) = pair.0 ∷ pair.1 ∷ both_seats pairs

pub both_seats-seats_paired : (ms : List Pairing) → both_seats (seats_paired ms) ≡ pairing_seats ms
unfolding both_seats seats_paired
both_seats-seats_paired [] = refl
both_seats-seats_paired (m ∷ ms) =
    ap (λ seats. seat_of m.p1 ∷ seat_of m.p2 ∷ seats) (both_seats-seats_paired ms)
