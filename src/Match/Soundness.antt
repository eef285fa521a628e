-- ===== src/Match/Soundness.antt =====
-- Completed matches stay sound under the operations of src/tournament/match/match.service.ts.
use joust_backend.Prelude.{
  ℕ, ◌≡◌, refl, Option, none, some, List, Bool, true, false, not, ◌||◌, ◌&&◌, ◌==◌, Bool-cases, inl,
  inr, if◌then◌else◌, arith,
}
use joust_backend.Prelude.Dict.{Dict, lookup, insert, lookup-insert}
use joust_backend.Formats.{system_allows_draw}
use joust_backend.Match.{
  is_completed, MatchRow, completed_match_data, World, Tournament, Refusal, Reply, ok, refused,
  first_refusal,
}
use joust_backend.Match.Service.{
  Handler, guarded, with_match, in_match, submit_guards, draw_guards, series_winner, report_guards,
  game_won,
}
use joust_backend.Match.Lifecycle.{is_full}

-- A completed match of two players has one of them for its winner, or no winner where it was a bye
-- or the system allows draws. Only a bye can have a winner who is not seated, when a seat is empty.
unfoldable pub is_sound_row : Tournament → MatchRow → Bool
is_sound_row t m = not (is_completed m.status) || (elim m.winner_id [
  | none ↦ m.is_bye || system_allows_draw t.system m.phase || not (is_full m)
  | some winner ↦ in_match m winner || (m.is_bye && not (is_full m))
])

abbrev pub AreSound : Tournament → Dict MatchRow → Type 0
AreSound t matches = (id : ℕ) (m : MatchRow) → lookup id matches ≡ some m → is_sound_row t m ≡ true

-- What holds of the world that an operation returns, if it does not throw.
abbrev pub Returns : (World → Type 0) → Reply World → Type 0
Returns P (ok w) = P w
Returns P (refused why) = Unit

abbrev pub Sound : Tournament → World → Type 0
Sound t w = AreSound t w.matches

-- The law of the bracket code that the match service calls back.
abbrev pub KeepsSound : Tournament → Handler → Type 0
KeepsSound t handle = (id : ℕ) (w : World) → Sound t w → Returns (Sound t) (handle id w)

pub guarded-Returns :
    (P : World → Type 0) (guards : List (Bool × Refusal)) (rest : Reply World)
    → (first_refusal guards ≡ none → Returns P rest)
    → Returns P (guarded guards rest)
unfolding guarded
guarded-Returns P guards rest h = go (first_refusal guards) refl
  where
    go :
        (r : Option Refusal)
        → first_refusal guards ≡ r
        → Returns P (elim r [ some why ↦ refused why | none ↦ rest ])
    go none e = h e
    go (some why) e = tt

pub with_match-Returns :
    (P : World → Type 0) (id : ℕ) (w : World) (f : MatchRow → Reply World)
    → ((m : MatchRow) → lookup id w.matches ≡ some m → Returns P (f m))
    → Returns P (with_match id w f)
unfolding with_match
with_match-Returns P id w f h = go (lookup id w.matches) refl
  where
    go :
        (r : Option MatchRow)
        → lookup id w.matches ≡ r
        → Returns P (elim r [ none ↦ refused Refusal.match_not_found | some m ↦ f m ])
    go none e = tt
    go (some m) e = h m e

-- The branches of an operation, with what each of them knows.
pub Option-Holds :
    {A : Type 0} (Q : Reply World → Type 0) (r : Option A) (x : Reply World) (f : A → Reply World)
    → (r ≡ none → Q x)
    → ((a : A) → r ≡ some a → Q (f a))
    → Q (elim r [ none ↦ x | some a ↦ f a ])
Option-Holds Q none x f h k = h refl
Option-Holds Q (some a) x f h k = k a refl

pub Bool-Holds :
    (Q : Reply World → Type 0) (b : Bool) (x y : Reply World)
    → (b ≡ true → Q x)
    → (b ≡ false → Q y)
    → Q (if b then x else y)
Bool-Holds Q true x y h k = h refl
Bool-Holds Q false x y h k = k refl

pub Option-Returns :
    {A : Type 0} (P : World → Type 0) (r : Option A) (x : Reply World) (f : A → Reply World)
    → (r ≡ none → Returns P x)
    → ((a : A) → r ≡ some a → Returns P (f a))
    → Returns P (elim r [ none ↦ x | some a ↦ f a ])
Option-Returns P = Option-Holds (Returns P)

pub Bool-Returns :
    (P : World → Type 0) (b : Bool) (x y : Reply World)
    → (b ≡ true → Returns P x)
    → (b ≡ false → Returns P y)
    → Returns P (if b then x else y)
Bool-Returns P = Bool-Holds (Returns P)

pub running_sound :
    (t : Tournament) (m : MatchRow) → is_completed m.status ≡ false → is_sound_row t m ≡ true
unfolding is_sound_row
running_sound t m h = ground arith

module _ (t : Tournament) where
  pub insert-AreSound :
      (id : ℕ) (m : MatchRow) (d : Dict MatchRow)
      → is_sound_row t m ≡ true
      → AreSound t d
      → AreSound t (insert id m d)
  insert-AreSound id m d h sound j n e = elim (Bool-cases (id == j)) [
    | inl same ↦ ground (arith, lookup-insert id j m d)
    | inr other ↦ sound j n (ground (arith, lookup-insert id j m d))
  ]

  pub submitted_sound :
      (now : ℕ) (m : MatchRow) (winner : Option ℕ)
      → first_refusal (submit_guards t m winner) ≡ none
      → is_sound_row t (completed_match_data now winner m) ≡ true
  unfolding is_sound_row completed_match_data submit_guards first_refusal
  submitted_sound now m winner h = ground arith

  pub drawn_sound :
      (now : ℕ) (m : MatchRow)
      → first_refusal (draw_guards t m) ≡ none
      → is_sound_row t (completed_match_data now none m) ≡ true
  unfolding is_sound_row completed_match_data draw_guards first_refusal
  drawn_sound now m h = ground arith

  pub series_sound :
      (now wins_req : ℕ) (m : MatchRow)
      → is_sound_row t (completed_match_data now (series_winner wins_req m) m) ≡ true
  unfolding is_sound_row completed_match_data
  series_sound now wins_req m = ground arith

  pub reported-running :
      (m : MatchRow) (g : ℕ)
      → first_refusal (report_guards m g) ≡ none
      → is_completed (game_won g m).status ≡ false
  unfolding report_guards first_refusal game_won
  reported-running m g h = ground arith
