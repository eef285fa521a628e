-- ===== src/Presets.antt =====
-- The presets of the formats and what the tournaments keep of them:
-- src/tournament-format/tournament-format.service.ts, and of src/tournament/tournament.service.ts the
-- creation and the editing of a tournament, its manual status and the claim of its start. A name is a
-- number; what these calls read of other tables is an argument.
pub mod Service
pub mod Guards
pub mod Frozen
pub mod Systems
use joust_backend.Prelude.{
  ℕ, Option, none, some, is_some, List, [], ◌∷◌, Bool, true, false, not, ◌&&◌, ◌||◌, ◌==◌, ◌==?◌,
  any, if◌then◌else◌,
}
use joust_backend.Prelude.Dict.{Dict, lookup, insert}
use joust_backend.Formats.{System}
use joust_backend.Match.{TournamentStatus}
use joust_backend.Config.Raw.{Json, absent, null, given, Config}
use joust_backend.Config.{own_or_preset}
use joust_backend.Launch.{is_allowed_transition, is_opened}

-- A row of `TournamentFormat`.
pub record Preset : Type 0 where
  pub name : ℕ
  pub system : System
  pub config : Config
  pub is_builtin : Bool

-- A row of `Tournament`.
pub record TournamentRow : Type 0 where
  pub status : TournamentStatus
  pub format_id : Option ℕ
  pub config : Option Config
  pub system : Option System
  pub format_name : Option ℕ

pub record Office : Type 0 where
  pub presets : Dict Preset
  pub events : Dict TournamentRow

pub data OfficeProblem : Type 0 where
  key_taken preset_name_taken preset_not_found builtin_preset preset_in_use event_name_taken
        invalid_format game_refused slug_taken event_not_found not_editable bad_transition
        start_refused no_format_assigned :
      OfficeProblem

pub data OfficeReply : Type 0 where
  filed : Office → OfficeReply
  turned_down : OfficeProblem → OfficeReply

unfoldable pub first_objection : List (Bool × OfficeProblem) → Option OfficeProblem
first_objection [] = none
first_objection ((fails, why) ∷ guards) = if fails then some why else first_objection guards

unfoldable pub unless_objected : List (Bool × OfficeProblem) → Office → OfficeReply
unfolding first_objection
unless_objected guards o = elim (first_objection guards) [
  | some why ↦ turned_down why
  | none ↦ filed o
]

-- `findUnique({ where: { name } })`
unfoldable pub is_preset_name : ℕ → Dict Preset → Bool
is_preset_name name presets = any (λ (entry : ℕ × Preset). entry.1.name == name) presets

-- `TournamentFormatService.create`, with the id of the new row, which is a key of its table.
unfoldable pub create_preset : ℕ → ℕ → System → Config → Office → OfficeReply
create_preset id name system config o =
    unless_objected
      ((is_preset_name name o.presets, preset_name_taken)
        ∷ (is_some (lookup id o.presets), key_taken)
        ∷ [])
      (record o {
        presets =
            insert id (record { name = name; system = system; config = config; is_builtin = false })
              o.presets;
      })

unfoldable pub changed_to {ℓ} : {A : Type ℓ} → A → Option A → A
changed_to old none = old
changed_to old (some new) = new

-- `dto.name && dto.name !== fmt.name`, and another preset has that name.
unfoldable pub is_renaming_taken : Option ℕ → Preset → Dict Preset → Bool
is_renaming_taken none p presets = false
is_renaming_taken (some name) p presets = not (name == p.name) && is_preset_name name presets

-- `TournamentFormatService.update`, of the preset that was found.
unfoldable pub update_found :
    Option Preset → ℕ → Option ℕ → Option System → Option Config → Office → OfficeReply
update_found none id name system config o = turned_down preset_not_found
update_found (some p) id name system config o =
    unless_objected
      ((p.is_builtin, builtin_preset)
        ∷ (is_renaming_taken name p o.presets, preset_name_taken)
        ∷ [])
      (record o {
        presets =
            insert id
              (record p {
                name = changed_to p.name name;
                system = changed_to p.system system;
                config = changed_to p.config config;
              })
              o.presets;
      })

unfoldable pub update_preset : ℕ → Option ℕ → Option System → Option Config → Office → OfficeReply
update_preset id name system config o = update_found (lookup id o.presets) id name system config o

-- `status: { in: [UPCOMING, OPEN] }`
unfoldable pub is_not_started : TournamentStatus → Bool
is_not_started TournamentStatus.upcoming = true
is_not_started TournamentStatus.opened = true
is_not_started TournamentStatus.pending = false
is_not_started TournamentStatus.ongoing = false
is_not_started TournamentStatus.completed = false

unfoldable pub is_in_use : ℕ → Dict TournamentRow → Bool
is_in_use id [] = false
is_in_use id (entry ∷ rest) =
    (is_not_started entry.1.status && entry.1.format_id ==? some id) || is_in_use id rest

-- `onDelete: SetNull`
unfoldable pub without_format : ℕ → TournamentRow → TournamentRow
without_format id e = record e {
  format_id = (if e.format_id ==? some id then none else e.format_id);
}

unfoldable pub forget_format : ℕ → Dict TournamentRow → Dict TournamentRow
forget_format id [] = []
forget_format id (entry ∷ rest) = (entry.0, without_format id entry.1) ∷ forget_format id rest

unfoldable pub drop_preset : ℕ → Dict Preset → Dict Preset
drop_preset id [] = []
drop_preset id (entry ∷ rest) =
    let others = drop_preset id rest in if entry.0 == id then others else entry ∷ others

-- `TournamentFormatService.delete`
unfoldable pub delete_preset : ℕ → Office → OfficeReply
delete_preset id o =
    unless_objected
      ((not (is_some (lookup id o.presets)), preset_not_found)
        ∷ (is_in_use id o.events, preset_in_use)
        ∷ [])
      (record { presets = drop_preset id o.presets; events = forget_format id o.events })

-- What `createTournament` finds in other tables.
pub record EventFindings : Type 0 where
  pub name_exists : Bool
  pub game_assignable : Bool
  pub slug_exists : Bool

-- `createTournament`
unfoldable pub create_event : ℕ → ℕ → Option Config → Bool → EventFindings → Office → OfficeReply
create_event id format config start_now f o =
    unless_objected
      ((f.name_exists, event_name_taken)
        ∷ (not (is_some (lookup format o.presets)), invalid_format)
        ∷ (not f.game_assignable, game_refused)
        ∷ (f.slug_exists, slug_taken)
        ∷ (is_some (lookup id o.events), key_taken)
        ∷ [])
      (record o {
        events =
            insert id
              (record {
                status = (if start_now then TournamentStatus.opened else TournamentStatus.upcoming);
                format_id = some format;
                config = config;
                system = none;
                format_name = none;
              })
              o.events;
      })
