-- ===== src/Completion/Fuel/Moves.antt =====
-- The operations of src/tournament/match/match.service.ts that the bracket code calls complete a
-- match before they call it back, so they need less fuel than the matches that are open.
use joust_backend.Prelude.{
  ℕ, suc, ◌-◌, ◌≤◌, ◌<◌, ◌≡◌, refl, Option, none, some, List, [], ◌∷◌, Bool, true, false, All, ◌||◌,
  ◌==?◌, arith,
}
use joust_backend.Prelude.Dict.{lookup, insert}
use joust_backend.Match.{
  is_completed, MatchRow, completed_match_data, World, put_match, Tournament, Refusal, Reply, ok,
  refused, first_refusal,
}
use joust_backend.Match.Service.{
  Handler, guarded, with_match, update_match_stats, submit_guards, finalize, submit_result,
}
use joust_backend.Match.Lifecycle.{
  is_full, seat_winner, advance, complete_as_walkover, resolve_pair, resolve_forfeited_pairing,
}
use joust_backend.Match.Soundness.{Option-Holds, Bool-Holds}
use joust_backend.Completion.Fuel.{Within, is_out_of_fuel, Yields, Fits, same-Within, done-Within}

pub Yields-weaker : (b c : ℕ) (r : Reply World) → b ≤ c → Yields (Within b) r → Yields (Within c) r
Yields-weaker b c (ok w) le h = ground arith
Yields-weaker b c (refused why) le h = h

guarded-Yields :
    (P : World → Type 0) (guards : List (Bool × Refusal)) (rest : Reply World)
    → All (λ (g : Bool × Refusal). is_out_of_fuel g.1 ≡ false) guards
    → (first_refusal guards ≡ none → Yields P rest)
    → Yields P (guarded guards rest)
unfolding guarded first_refusal
guarded-Yields P [] rest known h = h refl
guarded-Yields P ((true, why) ∷ guards) rest (here, known) h = here
guarded-Yields P ((false, why) ∷ guards) rest (here, known) h = guarded-Yields P guards rest known h

module _ (n : ℕ) (handle : Handler) (fits : Fits n handle) where
  -- A match is completed and handed to the bracket code.
  pub completed_fits :
      (b id : ℕ) (m row : MatchRow) (v w : World)
      → lookup id v.matches ≡ some m
      → is_completed m.status ≡ false
      → is_completed row.status ≡ true
      → w.matches ≡ insert id row v.matches
      → w.round_numbers ≡ v.round_numbers
      → Within b v
      → b < suc n
      → Yields (Within b) (handle id w)
  completed_fits b id m row v w here open_row done same rounds h room =
      let less = done-Within b id m row v w here open_row done same rounds h in
      Yields-weaker (b - 1) b (handle id w) (ground arith) (fits id w (b - 1) less.1 (ground arith))

  finalize-Fits :
      (t : Tournament) (now b id : ℕ) (winner : Option ℕ) (m : MatchRow) (w : World)
      → lookup id w.matches ≡ some m
      → is_completed m.status ≡ false
      → Within b w
      → b < suc n
      → Yields (Within b) (finalize handle t now id winner m w)
  unfolding finalize update_match_stats completed_match_data
  finalize-Fits t now b id winner m w here open_row h room =
      completed_fits b id m (completed_match_data now winner m) w _ here open_row refl refl refl h
        room

  submit_result-Fits :
      (t : Tournament) (now b id : ℕ) (winner : Option ℕ) (w : World)
      → Within b w
      → b < suc n
      → Yields (Within b) (submit_result handle t now id winner w)
  unfolding submit_result with_match submit_guards first_refusal
  submit_result-Fits t now b id winner w h room =
      Option-Holds (Yields (Within b)) (lookup id w.matches) _ _ (λ missing. refl)
        (λ m here.
          guarded-Yields (Within b) (submit_guards t m winner) _
            (refl, (refl, (refl, (refl, (refl, (refl, (refl, tt)))))))
            (λ accepted. finalize-Fits t now b id winner m w here (ground arith) h room))

  pub complete_as_walkover-Fits :
      (now b id winner : ℕ) (w : World)
      → Within b w
      → b < suc n
      → Yields (Within b) (complete_as_walkover handle now id winner w)
  unfolding complete_as_walkover completed_match_data
  complete_as_walkover-Fits now b id winner w h room =
      Option-Holds (Yields (Within b)) (lookup id w.matches) _ _ (λ missing. h)
        (λ m here.
          Bool-Holds (Yields (Within b)) (is_completed m.status) _ _ (λ over. h)
            (λ open_row.
              completed_fits b id m (completed_match_data now (some winner) m) w _ here open_row
                refl refl refl h room))

  resolve_pair-Fits :
      (t : Tournament) (now b id : ℕ) (p1 p2 : Option ℕ) (w : World)
      → Within b w
      → b < suc n
      → Yields (Within b) (resolve_pair handle t now id p1 p2 w)
  unfolding resolve_pair
  resolve_pair-Fits t now b id none p2 w h room = h
  resolve_pair-Fits t now b id (some p1) none w h room = h
  resolve_pair-Fits t now b id (some p1) (some p2) w h room =
      Bool-Holds (Yields (Within b)) (t.is_forfeited p1) _ _
        (λ out.
          Bool-Holds (Yields (Within b)) (t.is_forfeited p2) _ _ (λ both. h)
            (λ one. complete_as_walkover-Fits now b id p2 w h room))
        (λ kept.
          Bool-Holds (Yields (Within b)) (t.is_forfeited p2) _ _
            (λ one. complete_as_walkover-Fits now b id p1 w h room) (λ neither. h))

  resolve_forfeited_pairing-Fits :
      (t : Tournament) (now b id : ℕ) (w : World)
      → Within b w
      → b < suc n
      → Yields (Within b) (resolve_forfeited_pairing handle t now id w)
  unfolding resolve_forfeited_pairing
  resolve_forfeited_pairing-Fits t now b id w h room =
      Option-Holds (Yields (Within b)) (lookup id w.matches) _ _ (λ missing. h)
        (λ m here.
          Bool-Holds (Yields (Within b)) (is_completed m.status) _ _ (λ over. h)
            (λ open_row. resolve_pair-Fits t now b id m.player1_id m.player2_id w h room))

  seated_status : (player : ℕ) (m : MatchRow) → (seat_winner player m).status ≡ m.status
  unfolding seat_winner
  seated_status player m = ground arith

  pub advance-Fits :
      (t : Tournament) (now b player next : ℕ) (w : World)
      → Within b w
      → b < suc n
      → Yields (Within b) (advance handle t now player next w)
  unfolding advance
  advance-Fits t now b player next w h room =
      Option-Holds (Yields (Within b)) (lookup next w.matches) _ _ (λ missing. h)
        (λ m here.
          Bool-Holds (Yields (Within b))
            ((m.player1_id ==? some player) || (m.player2_id ==? some player)) _ _ (λ already. h)
            (λ new.
              guarded-Yields (Within b) _ _ (refl, tt)
                (λ free.
                  let kept : Within b (put_match next (seat_winner player m) w) =
                    same-Within b next m (seat_winner player m) w here
                      (ground (arith, seated_status player m)) h in
                  Bool-Holds (Yields (Within b)) (is_full (seat_winner player m)) _ _
                    (λ filled. resolve_forfeited_pairing-Fits t now b next _ kept room)
                    (λ waiting.
                      Bool-Holds (Yields (Within b)) (seat_winner player m).is_bye _ _
                        (λ bye. submit_result-Fits t now b next (some player) _ kept room)
                        (λ normal. kept)))))
