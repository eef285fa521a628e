-- ===== src/Launch/Status.antt =====
-- A tournament only moves forward through its status, in src/tournament/tournament.service.ts.
use joust_backend.Prelude.{ℕ, ◌≤◌, ◌<◌, ◌≡◌, refl, List, true, false, length, arith}
use joust_backend.Match.{
  TournamentStatus, World, User, Tournament, Reply, ok, refused, first_refusal,
}
use joust_backend.Match.Service.{Handler}
use joust_backend.Match.Soundness.{Returns, guarded-Returns, Bool-Returns}
use joust_backend.Seeding.{shuffled}
use joust_backend.Prelude.{if◌then◌else◌, ◌&&◌}
use joust_backend.Prelude.Dict.{contains}
use joust_backend.Completion.{Setting, matches_of_round}
use joust_backend.Completion.Checks.{has_round}
use joust_backend.Completion.Table.{times}
use joust_backend.Launch.FirstRound.{is_first_round_complete_once}
use joust_backend.Completion.Start.{initialize_tournament_format}
use joust_backend.Completion.Sound.{and_then-Returns}
use joust_backend.Launch.{
  is_allowed_transition, is_stranger, update_status, is_opened, Field, prepare, settle_byes, launch,
  is_first_round_complete, discard_generated_bracket, generate, seats_of, start_tournament,
}

-- How far a tournament has come.
abbrev pub stage : TournamentStatus → ℕ
stage TournamentStatus.upcoming = 0
stage TournamentStatus.pending = 0
stage TournamentStatus.opened = 1
stage TournamentStatus.ongoing = 2
stage TournamentStatus.completed = 3

allowed_stage :
    (from to : TournamentStatus) → is_allowed_transition from to ≡ true → stage from < stage to
unfolding is_allowed_transition
allowed_stage from to h = ground arith

-- A change of status that is carried out is made by the organizer or by an admin, and moves the
-- tournament forward.
pub update_status_forward :
    (t : Tournament) (user : User) (target : TournamentStatus) (w : World)
    → Returns
        (λ v. (is_stranger t user ≡ false) × (stage w.status < stage v.status))
        (update_status t user target w)
unfolding update_status first_refusal
update_status_forward t user target w =
    guarded-Returns (λ v. (is_stranger t user ≡ false) × (stage w.status < stage v.status)) _ _
      (λ accepted. (ground arith, allowed_stage w.status target (ground arith)))

anything : (r : Reply World) → Returns (λ v. Unit) r
anything (ok v) = tt
anything (refused why) = tt

opened_status :
    (status : TournamentStatus) → is_opened status ≡ true → status ≡ TournamentStatus.opened
opened_status status h = ground arith

-- A start that succeeds is one of an open tournament with two players or more, and leaves it ongoing.
pub start_tournament_opened :
    (handle : Handler) (s : Setting) (field : Field) (w : World)
    → Returns
        (λ v.
          (w.status ≡ TournamentStatus.opened)
          × ((2 ≤ length field.player_ids) × (v.status ≡ TournamentStatus.ongoing)))
        (start_tournament handle s field w)
unfolding start_tournament launch first_refusal
start_tournament_opened handle s field w = guarded-Returns Opened _ _ (λ accepted.
    and_then-Returns (λ v. Unit) Opened (prepare handle s field ids _) _
      (anything (prepare handle s field ids _))
      (λ ready made.
        and_then-Returns (λ v. Unit) Opened
          (settle_byes handle s.now (matches_of_round 1 ready.matches) ready) _
          (anything (settle_byes handle s.now (matches_of_round 1 ready.matches) ready))
          (λ settled done. (opened_status w.status (ground arith), (ground arith, refl)))))
  where
    ids : List ℕ
    ids = if field.is_manual then field.player_ids else shuffled field.draw_field field.player_ids

    Opened : World → Type 0
    Opened v =
        (w.status ≡ TournamentStatus.opened)
        × ((2 ≤ length field.player_ids) × (v.status ≡ TournamentStatus.ongoing))

-- The bracket that a start goes on with has a first round in which every participant has exactly one
-- seat, whether it was kept or built anew.
pub prepare_once :
    (handle : Handler) (s : Setting) (field : Field) (player_ids : List ℕ) (w : World) (p : ℕ)
    → contains p player_ids ≡ true
    → Returns
        (λ v. times p (seats_of (matches_of_round 1 v.matches)) ≡ 1)
        (prepare handle s field player_ids w)
unfolding prepare generate
prepare_once handle s field player_ids w p there =
    Bool-Returns Once (has_round 1 w) _ _
      (λ left_over.
        Bool-Returns Once (is_first_round_complete (matches_of_round 1 w.matches) player_ids) _ _
          (λ whole.
            (is_first_round_complete_once (matches_of_round 1 w.matches) player_ids p whole).1
              there)
          (λ partial. generate_once (discard_generated_bracket w)))
      (λ new. generate_once w)
  where
    Once : World → Type 0
    Once v = times p (seats_of (matches_of_round 1 v.matches)) ≡ 1

    generate_once : (v : World) → Returns Once (generate handle s field player_ids v)
    generate_once v =
        and_then-Returns (λ u. Unit) Once
          (initialize_tournament_format handle s field.draw_round field.preset_system player_ids
            false v)
          _
          (anything (
            initialize_tournament_format handle s field.draw_round field.preset_system player_ids
              false v))
          (λ built made.
            Bool-Returns Once
              (has_round 1 built
                && is_first_round_complete (matches_of_round 1 built.matches) player_ids)
              _ _
              (λ passed.
                (is_first_round_complete_once (matches_of_round 1 built.matches) player_ids p
                    (ground arith)).1
                  there)
              (λ failed. tt))
