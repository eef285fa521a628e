-- ===== src/Completion/Drawn.antt =====
-- The brackets and rounds that src/Formats/formats.service.ts draws up keep the completed matches
-- sound.
use joust_backend.Prelude.{
  ℕ, zero, suc, ◌+◌, ◌-◌, ◌/◌, ◌^◌, ◌≡◌, refl, Option, none, some, List, [], ◌∷◌, Bool, true, false,
  ◌&&◌, if◌then◌else◌, arith,
}
use joust_backend.Prelude.Dict.{lookup}
use joust_backend.Seeding.{Pairing}
use joust_backend.Match.{
  is_completed, MatchRow, completed_match_data, World, put_match, Tournament, Reply, ok, refused,
  and_then,
}
use joust_backend.Match.Lifecycle.{started}
use joust_backend.Match.Soundness.{is_sound_row, Returns, Sound, insert-AreSound}
use joust_backend.Completion.{Setting, create_round, new_match, create_match}
use joust_backend.Completion.Build.{seat_of, is_bye_pairing}
use joust_backend.Completion.Double.{
  activated_double, create_winners_round, create_winners, link_rounds, create_waiting,
  create_losers, loser_link, loser_links, drop_losers, drop_all, link_finals, create_grand_final,
  link_brackets,
}
use joust_backend.Completion.Sound.{
  and_then-Returns, create_round-Sound, create_match-Sound, link_one-Sound, link_matches-Sound,
  new_match_pending,
}

pub started_sound :
    (t : Tournament) (now : ℕ) (m : MatchRow) → is_sound_row t (started now m) ≡ true
unfolding is_sound_row started
started_sound t now m = refl

activated_double_sound :
    (t : Tournament) (now : ℕ) (m : MatchRow)
    → is_completed m.status ≡ false
    → is_sound_row t (activated_double now m) ≡ true
unfolding is_sound_row activated_double started completed_match_data
activated_double_sound t now m running = ground arith

-- What is returned beside the world does not matter.
abbrev pub ReturnsFirst : {A : Type 0} → (World → Type 0) → Reply (World × A) → Type 0
ReturnsFirst P (ok r) = P r.0
ReturnsFirst P (refused why) = Unit

pub first-Returns :
    {A : Type 0} (P Q : World → Type 0) (r : Reply (World × A)) (f : World × A → Reply World)
    → ReturnsFirst P r
    → ((p : World × A) → P p.0 → Returns Q (f p))
    → Returns Q (and_then r f)
first-Returns P Q (ok p) f h k = k p h
first-Returns P Q (refused why) f h k = tt

-- A round is created, then the rest of them.
pub round-ReturnsFirst :
    {A : Type 0} (P : World → Type 0) (r : Reply World) (f : World → Reply (World × A))
    → Returns P r
    → ((w : World) → P w → ReturnsFirst P (f w))
    → ReturnsFirst P (and_then r f)
round-ReturnsFirst P (ok w) f h k = k w h
round-ReturnsFirst P (refused why) f h k = tt

pub paired-ReturnsFirst :
    {A B : Type 0} (P : World → Type 0) (r : Reply (World × A)) (g : World × A → B)
    → ReturnsFirst P r
    → ReturnsFirst P (and_then r (λ (p : World × A). ok (p.0, g p)))
paired-ReturnsFirst P (ok p) g h = h
paired-ReturnsFirst P (refused why) g h = tt

module _ (s : Setting) (t : Tournament) where
  create_winners_round-Sound :
      (first activate : Bool) (number j : ℕ) (ms : List Pairing) (w : World)
      → Sound t w
      → Sound t (create_winners_round s first activate number j ms w).0
  unfolding create_winners_round
  create_winners_round-Sound first activate number j [] w sound = sound
  create_winners_round-Sound first activate number j (m ∷ ms) w sound =
      create_winners_round-Sound first activate number (suc j) ms _ (written (first && activate))
    where
      row : MatchRow
      row = new_match number 1 j (seat_of m.p1) (seat_of m.p2) (first && is_bye_pairing m)

      pending_row : is_completed row.status ≡ false
      pending_row =
          new_match_pending number 1 j (seat_of m.p1) (seat_of m.p2) (first && is_bye_pairing m)

      made : ℕ × World
      made = create_match row w

      kept : Sound t made.1
      kept = create_match-Sound t row w pending_row sound

      written :
          (b : Bool)
          → Sound t (if b then put_match made.0 (activated_double s.now row) made.1 else made.1)
      written true =
          insert-AreSound t made.0 _ made.1.matches (activated_double_sound t s.now row pending_row)
            kept
      written false = kept

  pub create_winners-Sound :
      (first activate : Bool) (number : ℕ) (rounds : List (List Pairing)) (w : World)
      → Sound t w
      → ReturnsFirst (Sound t) (create_winners s first activate number rounds w)
  unfolding create_winners
  create_winners-Sound first activate number [] w sound = sound
  create_winners-Sound first activate number (ms ∷ rounds) w sound =
      round-ReturnsFirst (Sound t) (create_round number w) _ (create_round-Sound t number w sound)
        (λ v opened.
          let made = create_winners_round s first activate number 0 ms v in
          paired-ReturnsFirst (Sound t) (create_winners s false activate (suc number) rounds made.0)
            (λ p. made.1 ∷ p.1)
            (create_winners-Sound false activate (suc number) rounds made.0
              (create_winners_round-Sound first activate number 0 ms v opened)))

  pub link_rounds-Sound :
      (losers : Bool) (rounds : List (List ℕ)) (w : World)
      → Sound t w
      → Sound t (link_rounds losers rounds w)
  unfolding link_rounds
  link_rounds-Sound losers [] w sound = sound
  link_rounds-Sound losers (ids ∷ []) w sound = sound
  link_rounds-Sound losers (ids ∷ next ∷ rounds) w sound =
      link_rounds-Sound losers (next ∷ rounds) _ (link_matches-Sound t _ next 0 ids w sound)

  create_waiting-Sound :
      (number left j : ℕ) (w : World) → Sound t w → Sound t (create_waiting number left j w).0
  unfolding create_waiting new_match
  create_waiting-Sound number zero j w sound = sound
  create_waiting-Sound number (suc left) j w sound =
      create_waiting-Sound number left (suc j) _ (create_match-Sound t _ w refl sound)

  pub create_losers-Sound :
      (k left r : ℕ) (w : World) → Sound t w → ReturnsFirst (Sound t) (create_losers k left r w)
  unfolding create_losers
  create_losers-Sound k zero r w sound = sound
  create_losers-Sound k (suc left) r w sound =
      round-ReturnsFirst (Sound t) (create_round (100 + r) w) _
        (create_round-Sound t (100 + r) w sound)
        (λ v opened.
          let made = create_waiting (100 + r) (2 ^ (k - 1 - (r + 1) / 2)) 0 v in
          paired-ReturnsFirst (Sound t) (create_losers k left (suc r) made.0) (λ p. made.1 ∷ p.1)
            (create_losers-Sound k left (suc r) made.0
              (create_waiting-Sound (100 + r) _ 0 v opened)))

  loser_link-Sound :
      (id : ℕ) (next : Option ℕ) (w : World) → Sound t w → Sound t (loser_link id next w)
  unfolding loser_link is_sound_row
  loser_link-Sound id none w sound = sound
  loser_link-Sound id (some next) w sound = go (lookup id w.matches) refl
    where
      go :
          (r : Option MatchRow)
          → lookup id w.matches ≡ r
          → Sound t (elim r [
            | none ↦ w
            | some m ↦ put_match id (record m { loser_next_match_id = some next }) w
          ])
      go none e = sound
      go (some m) e = insert-AreSound t id _ w.matches (sound id m e) sound

  loser_links-Sound :
      (one : Bool) (next : List ℕ) (i : ℕ) (ids : List ℕ) (w : World)
      → Sound t w
      → Sound t (loser_links one next i ids w)
  unfolding loser_links
  loser_links-Sound one next i [] w sound = sound
  loser_links-Sound one next i (id ∷ ids) w sound =
      loser_links-Sound one next (suc i) ids _ (loser_link-Sound id _ w sound)

  drop_losers-Sound :
      (losers : List (List ℕ)) (i : ℕ) (rounds : List (List ℕ)) (w : World)
      → Sound t w
      → Sound t (drop_losers losers i rounds w)
  unfolding drop_losers
  drop_losers-Sound losers i [] w sound = sound
  drop_losers-Sound losers i (ids ∷ []) w sound = sound
  drop_losers-Sound losers i (ids ∷ next ∷ rounds) w sound =
      drop_losers-Sound losers (suc i) (next ∷ rounds) _ (loser_links-Sound true _ 0 ids w sound)

  pub link_brackets-Sound :
      (winners losers : List (List ℕ)) (w : World)
      → Sound t w
      → Sound t (link_brackets winners losers w)
  unfolding link_brackets drop_all
  link_brackets-Sound [] losers w sound = link_rounds-Sound true losers w sound
  link_brackets-Sound (ids ∷ winners) [] w sound = link_rounds-Sound true [] w sound
  link_brackets-Sound (ids ∷ winners) (first ∷ losers) w sound =
      drop_losers-Sound (first ∷ losers) 1 winners _
        (loser_links-Sound false first 0 ids _ (link_rounds-Sound true (first ∷ losers) w sound))

  link_finals-Sound :
      (grand winners_final : ℕ) (losers_final : Option ℕ) (w : World)
      → Sound t w
      → Sound t (link_finals grand winners_final losers_final w)
  unfolding link_finals
  link_finals-Sound grand winners_final none w sound =
      loser_link-Sound winners_final (some grand) _
        (link_one-Sound t winners_final (some grand) w sound)
  link_finals-Sound grand winners_final (some losers_final) w sound =
      loser_link-Sound winners_final (some losers_final) _ (
        link_one-Sound t losers_final (some grand) _
          (link_one-Sound t winners_final (some grand) w sound))

  pub create_grand_final-Sound :
      (winners_final losers_final : Option ℕ) (w : World)
      → Sound t w
      → Returns (Sound t) (create_grand_final winners_final losers_final w)
  unfolding create_grand_final new_match
  create_grand_final-Sound none losers_final w sound = tt
  create_grand_final-Sound (some winners_final) losers_final w sound =
      and_then-Returns (Sound t) (Sound t) _ _ (create_round-Sound t 200 w sound) (λ v opened.
        link_finals-Sound _ winners_final losers_final _ (create_match-Sound t _ v refl opened))
