-- ===== src/Presets/Systems.antt =====
-- The bracket type of every tournament, in src/tournament/tournament.service.ts and
-- src/tournament-format/tournament-format.service.ts.
pub mod Calls
use joust_backend.Prelude.{
  ℕ, ◌≡◌, refl, ap, sym, ◌∙◌, subst, ◌⊎◌, inl, inr, Option, none, some, is_some, List, [], ◌∷◌,
  Bool, true, false, not, ◌&&◌, ◌||◌, ◌==◌, ◌==?◌, All, Bool-cases, if◌then◌else◌, arith,
}
use joust_backend.Prelude.Dict.{Dict, lookup, insert, lookup-insert}
use joust_backend.Formats.{System}
use joust_backend.Match.{TournamentStatus}
use joust_backend.Config.Raw.{Json, absent, null, given, Config}
use joust_backend.Config.{own_or_preset, system_of}
use joust_backend.Launch.{is_allowed_transition, is_opened}
use joust_backend.Presets.{
  Preset, TournamentRow, Office, OfficeReply, filed, turned_down, first_objection, unless_objected,
  create_preset, update_found, update_preset, delete_preset, create_event, EventFindings,
  without_format, forget_format, drop_preset, is_in_use, is_not_started,
}
use joust_backend.Presets.Service.{
  preset_of, column_after, edit_found, edit_event, snapshot, is_ongoing, move_found, move_event,
  claim_found, claim_start, reopen_found, reopen_event, Rules, rules_with, system_column,
  is_missing_format, rules_of, OfficeCall, makes_preset, changes_preset, deletes_preset,
  makes_event, edits_event, moves_event, claims_start, reopens_event, office_reply,
  office_after_reply, office_after,
}
use joust_backend.Presets.Guards.{unless_objected_lem, insert-At, lookup-forget_format}

-- The preset exists.
abbrev HasPreset : Dict Preset → Option ℕ → Type 0
HasPreset presets format = is_some (preset_of presets format) ≡ true

-- The tournament has not started and has a preset, or it has a bracket type of its own.
abbrev pub Supported : Dict Preset → Option TournamentRow → Type 0
Supported presets none = Unit
Supported presets (some e) =
    ((is_not_started e.status ≡ true) × HasPreset presets e.format_id) ⊎ (is_some e.system ≡ true)

abbrev pub AllSupported : Office → Type 0
AllSupported o = (id : ℕ) → Supported o.presets (lookup id o.events)

-- The key of the preset is absent, or an id.
abbrev pub IsKept : Json ℕ → Type 0
IsKept absent = Unit
IsKept null = true ≡ false
IsKept (given format) = Unit

-- The calls other than an edit that empties the column of the preset.
abbrev pub KeepsFormat : OfficeCall → Type 0
KeepsFormat (makes_preset id name system config) = Unit
KeepsFormat (changes_preset id name system config) = Unit
KeepsFormat (deletes_preset id) = Unit
KeepsFormat (makes_event id format config start_now f) = Unit
KeepsFormat (edits_event id format config f) = IsKept format
KeepsFormat (moves_event id target) = Unit
KeepsFormat (claims_start id ready) = Unit
KeepsFormat (reopens_event id) = Unit

-- A preset more, or one that is changed.
pub insert_preset-Supported :
    (key : ℕ) (p : Preset) (presets : Dict Preset) (r : Option TournamentRow)
    → Supported presets r
    → Supported (insert key p presets) r
unfolding preset_of
insert_preset-Supported key p presets none h = tt
insert_preset-Supported key p presets (some e) (inr own) = inr own
insert_preset-Supported key p presets (some e) (inl (early, has)) = inl (early, go e.format_id has)
  where
    go : (format : Option ℕ) → HasPreset presets format → HasPreset (insert key p presets) format
    go none k = k
    go (some format) k = ground (arith, lookup-insert key format p presets)

lookup-drop_preset :
    (key format : ℕ) (presets : Dict Preset)
    → (format == key) ≡ false
    → lookup format (drop_preset key presets) ≡ lookup format presets
unfolding lookup drop_preset
lookup-drop_preset key format [] h = refl
lookup-drop_preset key format (entry ∷ rest) h =
    ground (arith, lookup-drop_preset key format rest h)

-- A tournament that has not started keeps its preset from being deleted.
is_in_use-lookup :
    (key id : ℕ) (events : Dict TournamentRow) (e : TournamentRow)
    → is_in_use key events ≡ false
    → lookup id events ≡ some e
    → is_not_started e.status ≡ true
    → (e.format_id ==? some key) ≡ false
unfolding lookup is_in_use
is_in_use-lookup key id [] e unused found early = ground arith
is_in_use-lookup key id (entry ∷ rest) e unused found early =
    ground (arith, is_in_use-lookup key id rest e)

pub drop_preset-Supported :
    (key : ℕ) (presets : Dict Preset) (events : Dict TournamentRow) (id : ℕ)
    (r : Option TournamentRow)
    → is_in_use key events ≡ false
    → lookup id events ≡ r
    → Supported presets r
    → Supported
        (drop_preset key presets)
        (elim r [ none ↦ none | some e ↦ some (without_format key e) ])
unfolding without_format preset_of
drop_preset-Supported key presets events id none unused found h = tt
drop_preset-Supported key presets events id (some e) unused found (inr own) = inr own
drop_preset-Supported key presets events id (some e) unused found (inl (early, has)) =
    inl (early, go e.format_id has (is_in_use-lookup key id events e unused found early))
  where
    go :
        (format : Option ℕ)
        → HasPreset presets format
        → (format ==? some key) ≡ false
        → HasPreset (drop_preset key presets) (if format ==? some key then none else format)
    go none k other = k
    go (some f) k other = rw other (rw (lookup-drop_preset key f presets other) k)

-- The row that was found under a key.
pub found_Supported :
    (key : ℕ) (o : Office) (e : TournamentRow)
    → lookup key o.events ≡ some e
    → AllSupported o
    → Supported o.presets (some e)
found_Supported key o e found h = subst (Supported o.presets) found (h key)

pub snapshot-system :
    (p : Option Preset) (e : TournamentRow)
    → (is_some p ≡ true) ⊎ (is_some e.system ≡ true)
    → is_some (snapshot p e).system ≡ true
unfolding snapshot own_or_preset
snapshot-system none e h = ground arith
snapshot-system (some p) e h = go e.system
  where
    go : (own : Option System) → is_some (own_or_preset own (some p.system)) ≡ true
    go none = refl
    go (some own) = refl

pub column_after-Supported :
    (format : Json ℕ) (row : TournamentRow) (rules : Option Config) (presets : Dict Preset)
    → IsKept format
    → is_missing_format format presets ≡ false
    → Supported presets (some row)
    → Supported presets
        (some (record row { format_id = column_after format row.format_id; config = rules }))
unfolding column_after is_missing_format preset_of
column_after-Supported absent row rules presets keeps known h = h
column_after-Supported null row rules presets keeps known h = absurd (ground arith)
column_after-Supported (given format) row rules presets keeps known (inr own) = inr own
column_after-Supported (given format) row rules presets keeps known (inl (early, has)) =
    inl (early, ground arith)

pub target-Supported :
    (target : TournamentStatus) (row : TournamentRow) (presets : Dict Preset)
    → is_allowed_transition row.status target ≡ true
    → Supported presets (some row)
    → Supported presets (
        some
          (record (if is_ongoing target
            then snapshot (preset_of presets row.format_id) row
            else row) { status = target }))
unfolding is_allowed_transition is_not_started
target-Supported TournamentStatus.opened row presets allowed (inl (early, has)) = inl (refl, has)
target-Supported TournamentStatus.opened row presets allowed (inr own) = inr own
target-Supported TournamentStatus.ongoing row presets allowed (inl (early, has)) =
    inr (snapshot-system _ row (inl has))
target-Supported TournamentStatus.ongoing row presets allowed (inr own) =
    inr (snapshot-system _ row (inr own))
target-Supported TournamentStatus.completed row presets allowed (inl (early, has)) =
    absurd (ground arith)
target-Supported TournamentStatus.completed row presets allowed (inr own) = inr own
target-Supported TournamentStatus.upcoming row presets allowed h = absurd (ground arith)
target-Supported TournamentStatus.pending row presets allowed h = absurd (ground arith)
