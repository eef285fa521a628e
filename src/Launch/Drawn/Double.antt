-- ===== src/Launch/Drawn/Double.antt =====
-- The first round that `initDoubleElimination` of src/Formats/formats.service.ts leaves.
use joust_backend.Prelude.{
  ℕ, zero, suc, ◌+◌, ◌-◌, ◌≤◌, ◌/◌, ◌*◌, ◌^◌, ◌≡◌, refl, ap, sym, ◌∙◌, Option, none, some, List, [],
  ◌∷◌, ◌++◌, map, Bool, true, false, ◌==◌, length, if◌then◌else◌, arith,
}
use joust_backend.Prelude.Dict.{lookup}
use joust_backend.Seeding.{
  Pairing, entry_of, seed_bracket_slots, next_power_of_two, generate_bracket,
}
use joust_backend.Seeding.Bracket.{first_round}
use joust_backend.Match.{MatchRow, World, put_match, Reply, ok, refused, and_then}
use joust_backend.Match.Service.{Handler}
use joust_backend.Match.Soundness.{Returns}
use joust_backend.Completion.{
  Setting, matches_of_round, fresh_id, create_round, new_match, create_match,
}
use joust_backend.Completion.Build.{seat_of, is_bye_pairing}
use joust_backend.Completion.Double.{
  create_winners_round, create_winners, link_rounds, create_waiting, create_losers, loser_link,
  loser_links, drop_losers, drop_all, link_finals, create_grand_final, link_brackets, log2,
  init_double_elimination,
}
use joust_backend.Completion.Drawn.{
  ReturnsFirst, first-Returns, round-ReturnsFirst, paired-ReturnsFirst,
}
use joust_backend.Completion.Sound.{and_then-Returns}
use joust_backend.Launch.{seats_of}
use joust_backend.Launch.Drawn.{
  first_seats, insert-fresh, insert-reseated, link_one-first_seats, link_matches-first_seats,
  pairing_seats, append_nil, append_assoc, FirstSeats, create_round-FirstSeats,
}

create_winners_round-first_seats :
    (s : Setting) (first : Bool) (number j : ℕ) (ms : List Pairing) (w : World)
    → first_seats (create_winners_round s first false number j ms w).0.matches
      ≡ first_seats w.matches ++ (if number == 1 then pairing_seats ms else [])
unfolding create_winners_round create_match new_match
create_winners_round-first_seats s first number j [] w =
    sym (ground (arith, append_nil (first_seats w.matches)))
create_winners_round-first_seats s true number j (m ∷ ms) w =
    create_winners_round-first_seats s true number (suc j) ms _
    ∙ (ap (λ xs. xs ++ (if number == 1 then pairing_seats ms else []))
          (insert-fresh (fresh_id w.matches)
            (new_match number 1 j (seat_of m.p1) (seat_of m.p2) (is_bye_pairing m)) w.matches
            (omega arith))
        ∙ (append_assoc (first_seats w.matches) _ _ ∙ ground arith))
create_winners_round-first_seats s false number j (m ∷ ms) w =
    create_winners_round-first_seats s false number (suc j) ms _
    ∙ (ap (λ xs. xs ++ (if number == 1 then pairing_seats ms else []))
          (insert-fresh (fresh_id w.matches)
            (new_match number 1 j (seat_of m.p1) (seat_of m.p2) false) w.matches (omega arith))
        ∙ (append_assoc (first_seats w.matches) _ _ ∙ ground arith))

module _ (seats : List (Option ℕ)) where
  abbrev Kept : World → Type 0
  Kept = FirstSeats seats

  create_winners-later :
      (s : Setting) (number : ℕ) (rounds : List (List Pairing)) (w : World)
      → 2 ≤ number
      → Kept w
      → ReturnsFirst Kept (create_winners s false false number rounds w)
  unfolding create_winners
  create_winners-later s number [] w late h = h
  create_winners-later s number (ms ∷ rounds) w late h =
      round-ReturnsFirst Kept (create_round number w) _ (create_round-FirstSeats number seats w h)
        (λ opened same.
          let made = create_winners_round s false false number 0 ms opened in
          paired-ReturnsFirst Kept (create_winners s false false (suc number) rounds made.0)
            (λ p. made.1 ∷ p.1)
            (create_winners-later s (suc number) rounds made.0 (omega arith) (
              create_winners_round-first_seats s false number 0 ms opened
              ∙ ground (arith, append_nil (first_seats opened.matches)))))

  link_rounds-Kept :
      (losers : Bool) (rounds : List (List ℕ)) (w : World)
      → Kept w
      → Kept (link_rounds losers rounds w)
  unfolding link_rounds
  link_rounds-Kept losers [] w h = h
  link_rounds-Kept losers (ids ∷ []) w h = h
  link_rounds-Kept losers (ids ∷ next ∷ rounds) w h =
      link_rounds-Kept losers (next ∷ rounds) _ (link_matches-first_seats _ next 0 ids w ∙ h)

  create_waiting-Kept :
      (number left j : ℕ) (w : World)
      → 2 ≤ number
      → Kept w
      → Kept (create_waiting number left j w).0
  unfolding create_waiting create_match new_match
  create_waiting-Kept number zero j w late h = h
  create_waiting-Kept number (suc left) j w late h =
      create_waiting-Kept number left (suc j) _ late (
        insert-fresh (fresh_id w.matches) (new_match number 1 j none none false) w.matches
          (omega arith)
        ∙ ground (arith, append_nil (first_seats w.matches)))

  create_losers-Kept :
      (k left r : ℕ) (w : World) → Kept w → ReturnsFirst Kept (create_losers k left r w)
  unfolding create_losers
  create_losers-Kept k zero r w h = h
  create_losers-Kept k (suc left) r w h =
      round-ReturnsFirst Kept (create_round (100 + r) w) _
        (create_round-FirstSeats (100 + r) seats w h)
        (λ opened same.
          let made = create_waiting (100 + r) (2 ^ (k - 1 - (r + 1) / 2)) 0 opened in
          paired-ReturnsFirst Kept (create_losers k left (suc r) made.0) (λ p. made.1 ∷ p.1)
            (create_losers-Kept k left (suc r) made.0
              (create_waiting-Kept (100 + r) _ 0 opened (omega arith) same)))

  loser_link-Kept : (id : ℕ) (next : Option ℕ) (w : World) → Kept w → Kept (loser_link id next w)
  unfolding loser_link
  loser_link-Kept id none w h = h
  loser_link-Kept id (some next) w h = go (lookup id w.matches) refl
    where
      go :
          (r : Option MatchRow)
          → lookup id w.matches ≡ r
          → Kept (elim r [
            | none ↦ w
            | some m ↦ put_match id (record m { loser_next_match_id = some next }) w
          ])
      go none e = h
      go (some m) e = insert-reseated id m _ w.matches e refl refl refl ∙ h

  loser_links-Kept :
      (one : Bool) (next : List ℕ) (i : ℕ) (ids : List ℕ) (w : World)
      → Kept w
      → Kept (loser_links one next i ids w)
  unfolding loser_links
  loser_links-Kept one next i [] w h = h
  loser_links-Kept one next i (id ∷ ids) w h =
      loser_links-Kept one next (suc i) ids _ (loser_link-Kept id _ w h)

  drop_losers-Kept :
      (losers : List (List ℕ)) (i : ℕ) (rounds : List (List ℕ)) (w : World)
      → Kept w
      → Kept (drop_losers losers i rounds w)
  unfolding drop_losers
  drop_losers-Kept losers i [] w h = h
  drop_losers-Kept losers i (ids ∷ []) w h = h
  drop_losers-Kept losers i (ids ∷ next ∷ rounds) w h =
      drop_losers-Kept losers (suc i) (next ∷ rounds) _ (loser_links-Kept true _ 0 ids w h)

  link_brackets-Kept :
      (winners losers : List (List ℕ)) (w : World) → Kept w → Kept (link_brackets winners losers w)
  unfolding link_brackets drop_all
  link_brackets-Kept [] losers w h = link_rounds-Kept true losers w h
  link_brackets-Kept (ids ∷ winners) [] w h = link_rounds-Kept true [] w h
  link_brackets-Kept (ids ∷ winners) (first ∷ losers) w h =
      drop_losers-Kept (first ∷ losers) 1 winners _
        (loser_links-Kept false first 0 ids _ (link_rounds-Kept true (first ∷ losers) w h))

  link_finals-Kept :
      (grand winners_final : ℕ) (losers_final : Option ℕ) (w : World)
      → Kept w
      → Kept (link_finals grand winners_final losers_final w)
  unfolding link_finals
  link_finals-Kept grand winners_final none w h =
      loser_link-Kept winners_final (some grand) _
        (link_one-first_seats winners_final (some grand) w ∙ h)
  link_finals-Kept grand winners_final (some losers_final) w h =
      loser_link-Kept winners_final (some losers_final) _ (
        link_one-first_seats losers_final (some grand) _
        ∙ (link_one-first_seats winners_final (some grand) w ∙ h))

  create_grand_final-Kept :
      (winners_final losers_final : Option ℕ) (w : World)
      → Kept w
      → Returns Kept (create_grand_final winners_final losers_final w)
  unfolding create_grand_final create_match new_match
  create_grand_final-Kept none losers_final w h = tt
  create_grand_final-Kept (some winners_final) losers_final w h =
      and_then-Returns Kept Kept _ _ (create_round-FirstSeats 200 seats w h) (λ opened same.
        link_finals-Kept (fresh_id opened.matches) winners_final losers_final _ (
          insert-fresh (fresh_id opened.matches) (new_match 200 1 0 none none false) opened.matches
            (omega arith)
          ∙ (append_nil (first_seats opened.matches) ∙ same)))

create_winners-first :
    (s : Setting) (rounds : List (List Pairing)) (w : World)
    → w.matches ≡ []
    → ReturnsFirst
        (FirstSeats (pairing_seats (first_round rounds)))
        (create_winners s true false 1 rounds w)
unfolding create_winners first_round seats_of matches_of_round
create_winners-first s [] w vacant = rw vacant refl
create_winners-first s (ms ∷ rounds) w vacant =
    round-ReturnsFirst-from [] (pairing_seats ms) (create_round 1 w) _
      (create_round-FirstSeats 1 [] w (rw vacant refl))
      (λ opened none_yet.
        let made = create_winners_round s true false 1 0 ms opened in
        paired-ReturnsFirst (FirstSeats (pairing_seats ms))
          (create_winners s false false 2 rounds made.0) (λ p. made.1 ∷ p.1)
          (create_winners-later (pairing_seats ms) s 2 rounds made.0 (omega arith) (
            create_winners_round-first_seats s true 1 0 ms opened
            ∙ ap (λ xs. xs ++ pairing_seats ms) none_yet)))
  where
    round-ReturnsFirst-from :
        {A : Type 0} (old new : List (Option ℕ)) (r : Reply World) (f : World → Reply (World × A))
        → Returns (FirstSeats old) r
        → ((v : World) → FirstSeats old v → ReturnsFirst (FirstSeats new) (f v))
        → ReturnsFirst (FirstSeats new) (and_then r f)
    round-ReturnsFirst-from old new (ok v) f h k = k v h
    round-ReturnsFirst-from old new (refused why) f h k = tt

pub init_double_elimination-first :
    (handle : Handler) (s : Setting) (player_ids : List ℕ) (w : World)
    → w.matches ≡ []
    → (let slots = seed_bracket_slots player_ids (next_power_of_two (length player_ids)) in
        Returns
          (FirstSeats (pairing_seats (first_round (generate_bracket (map entry_of slots)))))
          (init_double_elimination handle s player_ids false w))
unfolding init_double_elimination
init_double_elimination-first handle s player_ids w vacant =
    let size = next_power_of_two (length player_ids) in
    let k = log2 size in
    let rounds = generate_bracket (map entry_of (seed_bracket_slots player_ids size)) in
    let seats = pairing_seats (first_round rounds) in
    let kept = FirstSeats seats in
    first-Returns kept kept _ _ (create_winners-first s rounds w vacant) (λ winners h.
      first-Returns kept kept _ _
        (create_losers-Kept seats k (2 * k - 2) 1 _ (link_rounds-Kept seats false winners.1 _ h))
        (λ losers g.
          and_then-Returns kept kept _ _
            (create_grand_final-Kept seats _ _ _ (link_brackets-Kept seats winners.1 losers.1 _ g))
            (λ built same. same)))
