-- ===== src/Presets/Guards.antt =====
-- What an accepted call of src/tournament-format/tournament-format.service.ts or
-- src/tournament/tournament.service.ts leaves of a tournament's row.
use joust_backend.Prelude.{
  ℕ, ◌≡◌, refl, ap, inl, inr, Option, none, some, List, [], ◌∷◌, Bool, true, false, ◌==◌,
  Bool-cases, arith,
}
use joust_backend.Prelude.Dict.{Dict, lookup, insert, lookup-insert}
use joust_backend.Presets.{
  TournamentRow, Office, OfficeProblem, OfficeReply, filed, turned_down, first_objection,
  unless_objected, without_format, forget_format,
}
use joust_backend.Presets.Service.{office_after_reply}

-- What holds before the call, and after it when no guard fails, holds after it.
pub unless_objected_lem :
    (P : Office → Type 0) (guards : List (Bool × OfficeProblem)) (o new : Office)
    → P o
    → (first_objection guards ≡ none → P new)
    → P (office_after_reply o (unless_objected guards new))
unfolding unless_objected first_objection office_after_reply
unless_objected_lem P [] o new old fresh = fresh refl
unless_objected_lem P ((true, why) ∷ guards) o new old fresh = old
unless_objected_lem P ((false, why) ∷ guards) o new old fresh =
    unless_objected_lem P guards o new old fresh

-- What an accepted call leaves.
abbrev pub Files : (Office → Type 0) → OfficeReply → Type 0
Files P (filed new) = P new
Files P (turned_down why) = Unit

pub unless_objected-Files :
    (P : Office → Type 0) (guards : List (Bool × OfficeProblem)) (new : Office)
    → (first_objection guards ≡ none → P new)
    → Files P (unless_objected guards new)
unfolding unless_objected first_objection
unless_objected-Files P [] new h = h refl
unless_objected-Files P ((true, why) ∷ guards) new h = tt
unless_objected-Files P ((false, why) ∷ guards) new h = unless_objected-Files P guards new h

-- A property of the row of a tournament, which may be missing.
abbrev pub At : (Option TournamentRow → Type 0) → ℕ → Office → Type 0
At Q id o = Q (lookup id o.events)

pub insert-At :
    (Q : Option TournamentRow → Type 0) (id key : ℕ) (e : TournamentRow)
    (events : Dict TournamentRow)
    → ((key == id) ≡ true → Q (some e))
    → Q (lookup id events)
    → Q (lookup id (insert key e events))
insert-At Q id key e events new old = elim (Bool-cases (key == id)) [
  | inl same ↦ rw (lookup-insert key id e events, same) (new same)
  | inr other ↦ rw (lookup-insert key id e events, other) old
]

pub lookup-forget_format :
    (format id : ℕ) (events : Dict TournamentRow)
    → lookup id (forget_format format events)
      ≡ (elim (lookup id events) [ none ↦ none | some e ↦ some (without_format format e) ])
unfolding lookup forget_format
lookup-forget_format format id [] = refl
lookup-forget_format format id (entry ∷ rest) = elim (Bool-cases (entry.0 == id)) [
  | inl same ↦ rw same refl
  | inr other ↦ rw other (lookup-forget_format format id rest)
]

pub same-lookup :
    {V : Type 0} (a b : ℕ) (table : Dict V) → (a == b) ≡ true → lookup a table ≡ lookup b table
same-lookup a b table h = ap (λ k. lookup k table) (ground arith)
