-- ===== src/Presets/Service.antt =====
-- Editing, moving and starting a tournament, and the rules that it runs on:
-- src/tournament/tournament.service.ts.
use joust_backend.Prelude.{
  ℕ, Option, none, some, is_some, List, [], ◌∷◌, Bool, true, false, not, if◌then◌else◌,
}
use joust_backend.Prelude.Dict.{Dict, lookup, insert}
use joust_backend.Formats.{System}
use joust_backend.Match.{TournamentStatus}
use joust_backend.Config.Raw.{Json, absent, null, given, Config}
use joust_backend.Config.{own_or_preset, effective_raw_config, system_of}
use joust_backend.Launch.{is_allowed_transition, is_opened}
use joust_backend.Presets.{
  Preset, TournamentRow, Office, OfficeReply, filed, turned_down, unless_objected, create_preset,
  update_preset, delete_preset, create_event, EventFindings, event_not_found, not_editable,
  invalid_format, game_refused, slug_taken, bad_transition, start_refused, no_format_assigned,
}

-- `include: { format: true }`
unfoldable pub preset_of : Dict Preset → Option ℕ → Option Preset
preset_of presets none = none
preset_of presets (some format) = lookup format presets

-- The guard on the status in `updateTournament`.
unfoldable pub is_editable : TournamentStatus → Bool
is_editable TournamentStatus.upcoming = true
is_editable TournamentStatus.opened = true
is_editable TournamentStatus.ongoing = true
is_editable TournamentStatus.pending = false
is_editable TournamentStatus.completed = false

-- `if (dto.formatId)`, and no preset has that id.
unfoldable pub is_missing_format : Json ℕ → Dict Preset → Bool
is_missing_format absent presets = false
is_missing_format null presets = false
is_missing_format (given format) presets = not (is_some (lookup format presets))

-- A key of the update: one that is absent leaves the column, and `null` empties it.
unfoldable pub column_after {ℓ} : {A : Type ℓ} → Json A → Option A → Option A
column_after absent old = old
column_after null old = none
column_after (given new) old = some new

-- `updateTournament`, of the tournament that was found.
unfoldable pub edit_found :
    Option TournamentRow → ℕ → Json ℕ → Json Config → EventFindings → Office → OfficeReply
edit_found none id format config f o = turned_down event_not_found
edit_found (some e) id format config f o =
    unless_objected
      ((not (is_editable e.status), not_editable)
        ∷ (is_missing_format format o.presets, invalid_format)
        ∷ (not f.game_assignable, game_refused)
        ∷ (f.slug_exists, slug_taken)
        ∷ [])
      (record o {
        events =
            insert id
              (record e {
                format_id = column_after format e.format_id;
                config = column_after config e.config;
              })
              o.events;
      })

unfoldable pub edit_event : ℕ → Json ℕ → Json Config → EventFindings → Office → OfficeReply
edit_event id format config f o = edit_found (lookup id o.events) id format config f o

-- The columns that `snapshotFormatIfMissing` and the claim of `startTournament` fill.
unfoldable pub snapshot : Option Preset → TournamentRow → TournamentRow
snapshot none e = e
snapshot (some p) e = record e {
  config = own_or_preset e.config (some p.config);
  system = own_or_preset e.system (some p.system);
  format_name = own_or_preset e.format_name (some p.name);
}

abbrev pub is_ongoing : TournamentStatus → Bool
is_ongoing TournamentStatus.ongoing = true
is_ongoing TournamentStatus.upcoming = false
is_ongoing TournamentStatus.pending = false
is_ongoing TournamentStatus.opened = false
is_ongoing TournamentStatus.completed = false

-- `updateStatus` for a user who may, of the tournament that was found.
unfoldable pub move_found : Option TournamentRow → ℕ → TournamentStatus → Office → OfficeReply
move_found none id target o = turned_down event_not_found
move_found (some e) id target o =
    let kept = (if is_ongoing target then snapshot (preset_of o.presets e.format_id) e else e) in
    unless_objected ((not (is_allowed_transition e.status target), bad_transition) ∷ [])
      (record o { events = insert id (record kept { status = target }) o.events })

unfoldable pub move_event : ℕ → TournamentStatus → Office → OfficeReply
move_event id target o = move_found (lookup id o.events) id target o

-- The claim of `startTournament`: `ready` says that there are two players and that the builds are
-- approved.
unfoldable pub claim_found : Option TournamentRow → ℕ → Bool → Office → OfficeReply
claim_found none id ready o = turned_down event_not_found
claim_found (some e) id ready o =
    let p = preset_of o.presets e.format_id in
    unless_objected
      ((not (is_opened e.status), start_refused)
        ∷ (not ready, start_refused)
        ∷ (not (is_some p), no_format_assigned)
        ∷ [])
      (record o {
        events = insert id (record (snapshot p e) { status = TournamentStatus.ongoing }) o.events;
      })

unfoldable pub claim_start : ℕ → Bool → Office → OfficeReply
claim_start id ready o = claim_found (lookup id o.events) id ready o

-- What a start that fails after its claim does to the row.
unfoldable pub reopen_found : Option TournamentRow → ℕ → Office → OfficeReply
reopen_found none id o = filed o
reopen_found (some e) id o =
    filed (record o { events = insert id (record e { status = TournamentStatus.opened }) o.events })

unfoldable pub reopen_event : ℕ → Office → OfficeReply
reopen_event id o = reopen_found (lookup id o.events) id o

-- What the three readers of a tournament's rules give. The start alone does not go by them when it
-- draws the bracket (`drawn_system`).
pub record Rules : Type 0 where
  pub raw_config : Config
  pub system : Option System
  pub format_name : Option ℕ

unfoldable pub config_column : Option Preset → Option Config
config_column none = none
config_column (some p) = some p.config

unfoldable pub system_column : Option Preset → Option System
system_column none = none
system_column (some p) = some p.system

unfoldable pub name_column : Option Preset → Option ℕ
name_column none = none
name_column (some p) = some p.name

-- `effectiveRawConfig`, `systemOf` and `formatNameOf`.
unfoldable pub rules_with : Option Preset → TournamentRow → Rules
rules_with p e = record {
  raw_config = effective_raw_config e.config (config_column p);
  system = system_of e.system (system_column p);
  format_name = own_or_preset e.format_name (name_column p);
}

unfoldable pub rules_of : Office → TournamentRow → Rules
rules_of o e = rules_with (preset_of o.presets e.format_id) e

-- `format.system` of `initializeTournamentFormat`, which `startTournament` calls with the preset as it
-- was read before the claim: the bracket type that a start draws the bracket by.
unfoldable pub drawn_system : Office → TournamentRow → Option System
drawn_system o e = system_column (preset_of o.presets e.format_id)

-- `withFormatSnapshot`: the bracket type and the name that a response shows for the format.
unfoldable pub shown_format : Office → TournamentRow → Option System × Option ℕ
shown_format o e = ((rules_of o e).system, (rules_of o e).format_name)

-- A call of either service; `reopens` comes from a start that failed.
pub data OfficeCall : Type 0 where
  makes_preset : (id name : ℕ) (system : System) (config : Config) → OfficeCall
  changes_preset :
      (id : ℕ) (name : Option ℕ) (system : Option System) (config : Option Config) → OfficeCall
  deletes_preset : (id : ℕ) → OfficeCall
  makes_event :
      (id format : ℕ) (config : Option Config) (start_now : Bool) (f : EventFindings) → OfficeCall
  edits_event : (id : ℕ) (format : Json ℕ) (config : Json Config) (f : EventFindings) → OfficeCall
  moves_event : (id : ℕ) (target : TournamentStatus) → OfficeCall
  claims_start : (id : ℕ) (ready : Bool) → OfficeCall
  reopens_event : (id : ℕ) → OfficeCall

unfoldable pub office_reply : OfficeCall → Office → OfficeReply
office_reply (makes_preset id name system config) o = create_preset id name system config o
office_reply (changes_preset id name system config) o = update_preset id name system config o
office_reply (deletes_preset id) o = delete_preset id o
office_reply (makes_event id format config start_now f) o =
    create_event id format config start_now f o
office_reply (edits_event id format config f) o = edit_event id format config f o
office_reply (moves_event id target) o = move_event id target o
office_reply (claims_start id ready) o = claim_start id ready o
office_reply (reopens_event id) o = reopen_event id o

-- A call that is refused changes nothing.
unfoldable pub office_after_reply : Office → OfficeReply → Office
office_after_reply o (filed new) = new
office_after_reply o (turned_down why) = o

unfoldable pub office_after : List OfficeCall → Office → Office
office_after [] o = o
office_after (call ∷ calls) o = office_after calls (office_after_reply o (office_reply call o))
