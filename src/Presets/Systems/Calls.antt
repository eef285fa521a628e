-- ===== src/Presets/Systems/Calls.antt =====
-- The calls that keep a bracket type for every tournament, in src/tournament/tournament.service.ts
-- and src/tournament-format/tournament-format.service.ts.
use joust_backend.Prelude.{
  ℕ, ◌≡◌, refl, subst, inl, inr, Option, none, some, is_some, List, [], ◌∷◌, Bool, true, false, All,
  if◌then◌else◌, arith,
}
use joust_backend.Prelude.Dict.{lookup}
use joust_backend.Formats.{System}
use joust_backend.Match.{TournamentStatus}
use joust_backend.Config.Raw.{Json, Config}
use joust_backend.Config.{own_or_preset, system_of}
use joust_backend.Presets.{
  Preset, TournamentRow, Office, first_objection, create_preset, update_found, update_preset,
  delete_preset, create_event, EventFindings, is_not_started,
}
use joust_backend.Presets.Service.{
  preset_of, column_after, edit_found, edit_event, move_found, move_event, claim_found, claim_start,
  reopen_found, reopen_event, rules_with, system_column, rules_of, OfficeCall, makes_preset,
  changes_preset, deletes_preset, makes_event, edits_event, moves_event, claims_start,
  reopens_event, office_reply, office_after_reply, office_after,
}
use joust_backend.Presets.Guards.{unless_objected_lem, insert-At, lookup-forget_format}
use joust_backend.Presets.Systems.{
  Supported, AllSupported, IsKept, KeepsFormat, insert_preset-Supported, drop_preset-Supported,
  found_Supported, snapshot-system, column_after-Supported, target-Supported,
}

created-Supported :
    (key format : ℕ) (rules : Option Config) (start_now : Bool) (f : EventFindings) (o : Office)
    → AllSupported o
    → AllSupported (office_after_reply o (create_event key format rules start_now f o))
unfolding create_event first_objection preset_of is_not_started
created-Supported key format rules start_now f o h =
    unless_objected_lem AllSupported _ o _ h (λ free id.
      insert-At (Supported o.presets) id key _ o.events
        (λ same. inl (go start_now, ground (arith, free))) (h id))
  where
    go :
        (b : Bool)
        → is_not_started (if b then TournamentStatus.opened else TournamentStatus.upcoming) ≡ true
    go true = refl
    go false = refl

edited-Supported :
    (found : Option TournamentRow) (key : ℕ) (format : Json ℕ) (rules : Json Config)
    (f : EventFindings) (o : Office)
    → lookup key o.events ≡ found
    → IsKept format
    → AllSupported o
    → AllSupported (office_after_reply o (edit_found found key format rules f o))
unfolding edit_found office_after_reply first_objection
edited-Supported none key format rules f o e keeps h = h
edited-Supported (some row) key format rules f o e keeps h =
    unless_objected_lem AllSupported _ o _ h (λ free id.
      insert-At (Supported o.presets) id key _ o.events
        (λ same.
          column_after-Supported format row (column_after rules row.config) o.presets keeps
            (ground (arith, free)) (found_Supported key o row e h))
        (h id))

moved-Supported :
    (found : Option TournamentRow) (key : ℕ) (target : TournamentStatus) (o : Office)
    → lookup key o.events ≡ found
    → AllSupported o
    → AllSupported (office_after_reply o (move_found found key target o))
unfolding move_found office_after_reply first_objection
moved-Supported none key target o e h = h
moved-Supported (some row) key target o e h = unless_objected_lem AllSupported _ o _ h (λ free id.
    insert-At (Supported o.presets) id key _ o.events
      (λ same.
        target-Supported target row o.presets (ground (arith, free))
          (found_Supported key o row e h))
      (h id))

claimed-Supported :
    (found : Option TournamentRow) (key : ℕ) (ready : Bool) (o : Office)
    → lookup key o.events ≡ found
    → AllSupported o
    → AllSupported (office_after_reply o (claim_found found key ready o))
unfolding claim_found office_after_reply first_objection
claimed-Supported none key ready o e h = h
claimed-Supported (some row) key ready o e h = unless_objected_lem AllSupported _ o _ h (λ free id.
    insert-At (Supported o.presets) id key _ o.events
      (λ same. inr (snapshot-system _ row (inl (ground (arith, free))))) (h id))

reopened-Supported :
    (found : Option TournamentRow) (key : ℕ) (o : Office)
    → lookup key o.events ≡ found
    → AllSupported o
    → AllSupported (office_after_reply o (reopen_found found key o))
unfolding reopen_found office_after_reply is_not_started
reopened-Supported none key o e h = h
reopened-Supported (some row) key o e h = λ id.
    insert-At (Supported o.presets) id key _ o.events (λ same. go (found_Supported key o row e h))
      (h id)
  where
    go :
        Supported o.presets (some row)
        → Supported o.presets (some (record row { status = TournamentStatus.opened }))
    go (inl (early, has)) = inl (refl, has)
    go (inr own) = inr own

updated-Supported :
    (found : Option Preset) (key : ℕ) (name : Option ℕ) (system : Option System)
    (rules : Option Config) (o : Office)
    → AllSupported o
    → AllSupported (office_after_reply o (update_found found key name system rules o))
unfolding update_found office_after_reply
updated-Supported none key name system rules o h = h
updated-Supported (some p) key name system rules o h =
    unless_objected_lem AllSupported _ o _ h
      (λ free id. insert_preset-Supported key _ o.presets _ (h id))

deleted-Supported :
    (key : ℕ) (o : Office)
    → AllSupported o
    → AllSupported (office_after_reply o (delete_preset key o))
unfolding delete_preset first_objection
deleted-Supported key o h = unless_objected_lem AllSupported _ o _ h (λ free id.
    rw (lookup-forget_format key id o.events)
      (drop_preset-Supported key o.presets o.events id _ (ground (arith, free)) refl (h id)))

Supported-after :
    (call : OfficeCall) (o : Office)
    → KeepsFormat call
    → AllSupported o
    → AllSupported (office_after_reply o (office_reply call o))
unfolding office_reply create_preset update_preset edit_event move_event claim_start reopen_event
Supported-after (makes_preset key name system rules) o keeps h =
    unless_objected_lem AllSupported _ o _ h
      (λ free id. insert_preset-Supported key _ o.presets _ (h id))
Supported-after (changes_preset key name system rules) o keeps h =
    updated-Supported (lookup key o.presets) key name system rules o h
Supported-after (deletes_preset key) o keeps h = deleted-Supported key o h
Supported-after (makes_event key format rules start_now f) o keeps h =
    created-Supported key format rules start_now f o h
Supported-after (edits_event key format rules f) o keeps h =
    edited-Supported (lookup key o.events) key format rules f o refl keeps h
Supported-after (moves_event key target) o keeps h =
    moved-Supported (lookup key o.events) key target o refl h
Supported-after (claims_start key ready) o keeps h =
    claimed-Supported (lookup key o.events) key ready o refl h
Supported-after (reopens_event key) o keeps h =
    reopened-Supported (lookup key o.events) key o refl h

Supported-office_after :
    (calls : List OfficeCall) (o : Office)
    → All KeepsFormat calls
    → AllSupported o
    → AllSupported (office_after calls o)
unfolding office_after
Supported-office_after [] o keeps h = h
Supported-office_after (call ∷ calls) o (here, rest) h =
    Supported-office_after calls _ rest (Supported-after call o here h)

own_system :
    (own : Option System) (p : Option Preset)
    → is_some own ≡ true
    → is_some (system_of own (system_column p)) ≡ true
unfolding system_of own_or_preset
own_system none p h = absurd (ground arith)
own_system (some own) p h = refl

Supported-rules_of :
    (o : Office) (e : TournamentRow)
    → Supported o.presets (some e)
    → is_some (rules_of o e).system ≡ true
unfolding rules_of rules_with system_of own_or_preset system_column
Supported-rules_of o e (inl (early, has)) = own_or (preset_of o.presets e.format_id) e.system has
  where
    own_or :
        (p : Option Preset) (own : Option System)
        → is_some p ≡ true
        → is_some (own_or_preset own (system_column p)) ≡ true
    own_or none own k = absurd (ground arith)
    own_or (some p) none k = refl
    own_or (some p) (some own) k = refl
Supported-rules_of o e (inr own) = own_system e.system (preset_of o.presets e.format_id) own

-- No presets and no tournaments.
abbrev pub empty_office : Office
empty_office = record { presets = []; events = [] }

-- Whatever calls are made from the start, in which presets are created, changed and deleted and
-- tournaments are created, edited, moved, started and reopened, every tournament has a bracket type:
-- of its own, or of a preset that is still there. No call may empty the column of the preset.
pub office_after-system :
    (calls : List OfficeCall) (id : ℕ) (e : TournamentRow)
    → All KeepsFormat calls
    → lookup id (office_after calls empty_office).events ≡ some e
    → is_some (rules_of (office_after calls empty_office) e).system ≡ true
unfolding lookup
office_after-system calls id e keeps found =
    let o = office_after calls empty_office in
    Supported-rules_of o e (
      subst (Supported o.presets) found
        (Supported-office_after calls empty_office keeps (λ id. tt) id))
