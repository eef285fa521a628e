-- ===== src/Match/Requests.antt =====
-- The requests that the match service of src/tournament/match/match.service.ts takes, in any order,
-- and that the completed matches stay sound under all of them.
use joust_backend.Prelude.{
  ℕ, get_elem?, ◌≡◌, ap, sym, ◌∙◌, refl, Option, some, List, [], ◌∷◌, false, ◌==◌, Bool-cases, inl,
  inr, All, arith,
}
use joust_backend.Prelude.Dict.{lookup, insert, lookup-insert, Dict}
use joust_backend.Match.{
  is_completed, MatchRow, World, put_match, User, Tournament, Reply, ok, refused, first_refusal,
}
use joust_backend.Match.Service.{
  Handler, submit_result, report_draw, self_report_result, verify_result, report_game_result,
}
use joust_backend.Match.Lifecycle.{
  reject_reported_result, resolve_forfeited_pairing, advance, credit_bye, start_match,
}
use joust_backend.Match.Reset.{
  destination_ids, any_blocked, delivered_players, rebuild, replayed, taken_back, reopened,
  reset_match,
}
use joust_backend.Match.Soundness.{
  Returns, Sound, KeepsSound, guarded-Returns, with_match-Returns, Option-Returns,
}
use joust_backend.Match.Advancement.{
  running_in, self_report_result-Sound, reject_reported_result-Sound, start_match-Sound,
  credit_bye-Sound, advance-Sound, resolve_forfeited_pairing-Sound,
}
use joust_backend.Match.Preservation.{
  submit_result-Sound, report_draw-Sound, report_game_result-Sound, verify_result-Sound,
}

-- The destinations of a reset that are not completed.
AreRunning : List ℕ → Dict MatchRow → Type 0
AreRunning ids d =
    All (λ id. (m : MatchRow) → lookup id d ≡ some m → is_completed m.status ≡ false) ids

insert-AreRunning :
    (ids : List ℕ) (k : ℕ) (n : MatchRow) (d : Dict MatchRow)
    → is_completed n.status ≡ false
    → AreRunning ids d
    → AreRunning ids (insert k n d)
unfolding AreRunning
insert-AreRunning [] k n d running h = tt
insert-AreRunning (id ∷ ids) k n d running (here, rest) = (
  (λ m e. elim (Bool-cases (k == id)) [
    | inl same ↦ ground (arith, lookup-insert k id n d)
    | inr other ↦ here m (ground (arith, lookup-insert k id n d))
  ]),
  insert-AreRunning ids k n d running rest,
)

unblocked-AreRunning :
    (ids : List ℕ) (d : Dict MatchRow) → any_blocked d ids ≡ false → AreRunning ids d
unfolding AreRunning any_blocked
unblocked-AreRunning [] d h = tt
unblocked-AreRunning (id ∷ ids) d h =
    ((λ m e. ground arith), unblocked-AreRunning ids d (ground arith))

rebuild-Sound :
    (t : Tournament) (ids : List ℕ) (w : World)
    → AreRunning ids w.matches
    → Sound t w
    → Returns (Sound t) (rebuild ids w)
unfolding rebuild AreRunning
rebuild-Sound t [] w running sound = sound
rebuild-Sound t (id ∷ ids) w (here, running) sound =
    Option-Returns (Sound t) (lookup id w.matches) _ _
      (λ missing. rebuild-Sound t ids w running sound)
      (λ next e.
        let seats = delivered_players id w.matches in
        let row : MatchRow = record next {
          player1_id = get_elem? seats 0;
          player2_id = get_elem? seats 1;
        } in
        guarded-Returns (Sound t) _ _ (λ accepted.
          rebuild-Sound t ids (put_match id row w)
            (insert-AreRunning ids id row w.matches (here next e) running)
            (running_in t id row w (here next e) sound)))

reopened-matches : (w : World) → (reopened w).matches ≡ w.matches
unfolding reopened
reopened-matches w = ground arith

-- An operation that goes on with the world another one returned.
pub then-Returns :
    (P : World → Type 0) (r : Reply World) (f : World → Reply World)
    → Returns P r
    → ((w : World) → P w → Returns P (f w))
    → Returns P (elim r [ refused why ↦ refused why | ok w ↦ f w ])
then-Returns P (refused why) f h k = tt
then-Returns P (ok w) f h k = k w h

reset_match-Sound :
    (t : Tournament) (id : ℕ) (w : World) → Sound t w → Returns (Sound t) (reset_match t id w)
unfolding reset_match taken_back replayed first_refusal
reset_match-Sound t id w sound = with_match-Returns (Sound t) id w _ (λ m here.
    guarded-Returns (Sound t) _ _ (λ accepted.
      let ids = destination_ids m.next_match_id m.loser_next_match_id in
      then-Returns (Sound t) (rebuild ids (taken_back t id m w)) _
        (rebuild-Sound t ids (taken_back t id m w)
          (insert-AreRunning ids id (replayed m) w.matches refl
            (unblocked-AreRunning ids w.matches (ground arith)))
          (running_in t id (replayed m) w refl sound))
        (λ v kept j n e.
          kept j n (ap (λ (d : Dict MatchRow). lookup j d) (sym (reopened-matches v)) ∙ e))))

-- The requests, with the time at which they come where the service stores it.
pub data Request : Type 0 where
  submit : ℕ → ℕ → Option ℕ → Request
  report_tie : ℕ → ℕ → Option User → Request
  self_report : ℕ → Option ℕ → User → Request
  verify : ℕ → ℕ → Request
  reject : ℕ → Request
  report_game : ℕ → ℕ → ℕ → Option User → Request
  reset : ℕ → Request
  start : ℕ → ℕ → Option User → Request
  advance_player : ℕ → ℕ → ℕ → Request
  settle_bye : ℕ → Request
  settle_forfeit : ℕ → ℕ → Request

pub perform : Handler → Tournament → Request → World → Reply World
perform handle t (submit now id winner) w = submit_result handle t now id winner w
perform handle t (report_tie now id user) w = report_draw handle t now id user w
perform handle t (self_report id winner user) w = self_report_result t id winner user w
perform handle t (verify now id) w = verify_result handle t now id w
perform handle t (reject id) w = reject_reported_result id w
perform handle t (report_game now id g user) w = report_game_result handle t now id g user w
perform handle t (reset id) w = reset_match t id w
perform handle t (start now id user) w = start_match t now id user w
perform handle t (advance_player now player next) w = advance handle t now player next w
perform handle t (settle_bye id) w = ok (credit_bye t id w)
perform handle t (settle_forfeit now id) w = resolve_forfeited_pairing handle t now id w

perform-Sound :
    (t : Tournament) (handle : Handler) (r : Request) (w : World)
    → KeepsSound t handle
    → Sound t w
    → Returns (Sound t) (perform handle t r w)
unfolding perform
perform-Sound t handle (submit now id winner) w safe =
    submit_result-Sound t handle safe now id winner w
perform-Sound t handle (report_tie now id user) w safe =
    report_draw-Sound t handle safe now id user w
perform-Sound t handle (self_report id winner user) w safe =
    self_report_result-Sound t id winner user w
perform-Sound t handle (verify now id) w safe = verify_result-Sound t handle safe now id w
perform-Sound t handle (reject id) w safe = reject_reported_result-Sound t id w
perform-Sound t handle (report_game now id g user) w safe =
    report_game_result-Sound t handle safe now id g user w
perform-Sound t handle (reset id) w safe = reset_match-Sound t id w
perform-Sound t handle (start now id user) w safe = start_match-Sound t now id user w
perform-Sound t handle (advance_player now player next) w safe =
    advance-Sound t handle safe now player next w
perform-Sound t handle (settle_bye id) w safe = credit_bye-Sound t id w
perform-Sound t handle (settle_forfeit now id) w safe =
    resolve_forfeited_pairing-Sound t handle safe now id w

-- Requests one after the other, up to the first that throws.
pub serve : Handler → Tournament → List Request → World → Reply World
unfolding perform
serve handle t [] w = ok w
serve handle t (r ∷ rs) w = elim (perform handle t r w) [
  | refused why ↦ refused why
  | ok after ↦ serve handle t rs after
]

-- After any requests that the match service carries out, in any order, every completed match of two
-- players has one of the two for its winner, or no winner where it was a bye or the system allows
-- draws: if this holds at first, and the bracket code that the service calls back keeps it.
-- Requests that each come after the one before was answered. One that is refused leaves everything as it
-- was.
pub serve_all : Handler → Tournament → List Request → World → World
unfolding perform
serve_all handle t [] w = w
serve_all handle t (r ∷ rs) w = elim (perform handle t r w) [
  | refused why ↦ serve_all handle t rs w
  | ok after ↦ serve_all handle t rs after
]

-- What goes on soundly from every sound world does so from the one that a reply leaves.
answered-Sound :
    (t : Tournament) (reply : Reply World) (w : World) (f : World → World)
    → ((v : World) → Sound t v → Sound t (f v))
    → Sound t w
    → Returns (Sound t) reply
    → Sound t (elim reply [ refused why ↦ f w | ok after ↦ f after ])
answered-Sound t (refused why) w f safe sound kept = safe w sound
answered-Sound t (ok after) w f safe sound kept = safe after kept

pub serve_all-Sound :
    (t : Tournament) (handle : Handler) (rs : List Request) (w : World)
    → KeepsSound t handle
    → Sound t w
    → Sound t (serve_all handle t rs w)
unfolding serve_all
serve_all-Sound t handle [] w safe sound = sound
serve_all-Sound t handle (r ∷ rs) w safe sound =
    answered-Sound t (perform handle t r w) w (serve_all handle t rs)
      (λ v kept. serve_all-Sound t handle rs v safe kept) sound
      (perform-Sound t handle r w safe sound)

pub serve-Sound :
    (t : Tournament) (handle : Handler) (rs : List Request) (w : World)
    → KeepsSound t handle
    → Sound t w
    → Returns (Sound t) (serve handle t rs w)
unfolding serve
serve-Sound t handle [] w safe sound = sound
serve-Sound t handle (r ∷ rs) w safe sound =
    then-Returns (Sound t) (perform handle t r w) _ (perform-Sound t handle r w safe sound)
      (λ after kept. serve-Sound t handle rs after safe kept)
