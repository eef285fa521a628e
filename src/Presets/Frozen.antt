-- ===== src/Presets/Frozen.antt =====
-- The rules of a tournament that has started, in src/tournament/tournament.service.ts.
pub mod Claim
use joust_backend.Prelude.{
  ℕ, ◌≡◌, refl, sym, ◌∙◌, subst, Option, none, some, or_else, is_some, List, [], ◌∷◌, Bool, true,
  false, ◌==◌, All, if◌then◌else◌, arith,
}
use joust_backend.Prelude.Dict.{lookup, lookup-insert}
use joust_backend.Formats.{System}
use joust_backend.Match.{TournamentStatus}
use joust_backend.Config.Raw.{Json, absent, Config}
use joust_backend.Config.{own_or_preset, effective_raw_config, system_of}
use joust_backend.Presets.{
  Preset, TournamentRow, Office, filed, first_objection, create_preset, update_found, update_preset,
  delete_preset, create_event, EventFindings, without_format,
}
use joust_backend.Presets.Service.{
  preset_of, column_after, edit_found, edit_event, snapshot, move_found, move_event, claim_found,
  claim_start, reopen_found, reopen_event, Rules, config_column, system_column, name_column,
  rules_with, rules_of, OfficeCall, makes_preset, changes_preset, deletes_preset, makes_event,
  edits_event, moves_event, claims_start, reopens_event, office_reply, office_after_reply,
  office_after,
}
use joust_backend.Presets.Guards.{
  unless_objected_lem, Files, unless_objected-Files, At, insert-At, lookup-forget_format,
  same-lookup,
}

-- The calls that do not write the rules of this tournament.
abbrev pub Leaves : ℕ → OfficeCall → Type 0
Leaves event (makes_preset id name system config) = Unit
Leaves event (changes_preset id name system config) = Unit
Leaves event (deletes_preset id) = Unit
Leaves event (makes_event id format config start_now f) = Unit
Leaves event (edits_event id format config f) = (id == event) ≡ true → config ≡ absent
Leaves event (moves_event id target) = Unit
Leaves event (claims_start id ready) = Unit
Leaves event (reopens_event id) = Unit

module _ (id : ℕ) (config : Config) (system : System) (name : ℕ) where
  -- The row exists and has these rules of its own.
  abbrev pub Owns : Option TournamentRow → Type 0
  Owns none = true ≡ false
  Owns (some e) =
      (e.config ≡ some config) × ((e.system ≡ some system) × (e.format_name ≡ some name))

  snapshot-Owns :
      (p : Option Preset) (e : TournamentRow) → Owns (some e) → Owns (some (snapshot p e))
  unfolding snapshot own_or_preset
  snapshot-Owns none e h = h
  snapshot-Owns (some p) e (c, (s, n)) = (rw c refl, (rw s refl, rw n refl))

  Owns-some : (r : Option TournamentRow) → Owns r → is_some r ≡ true
  Owns-some none h = ground arith
  Owns-some (some e) h = refl

  if_ongoing-Owns :
      (b : Bool) (p : Option Preset) (e : TournamentRow)
      → Owns (some e)
      → Owns (some (if b then snapshot p e else e))
  if_ongoing-Owns true p e h = snapshot-Owns p e h
  if_ongoing-Owns false p e h = h

  without_format-Owns :
      (format : ℕ) (r : Option TournamentRow)
      → Owns r
      → Owns (elim r [ none ↦ none | some e ↦ some (without_format format e) ])
  unfolding without_format
  without_format-Owns format none h = h
  without_format-Owns format (some e) h = h

  -- The row that was found under a key is the row of the tournament.
  found_Owns :
      (key : ℕ) (o : Office) (e : TournamentRow)
      → lookup key o.events ≡ some e
      → At Owns id o
      → (key == id) ≡ true
      → Owns (some e)
  found_Owns key o e found h same = subst Owns (sym (same-lookup key id o.events same) ∙ found) h

  created-Owns :
      (key format : ℕ) (rules : Option Config) (start_now : Bool) (f : EventFindings) (o : Office)
      → At Owns id o
      → At Owns id (office_after_reply o (create_event key format rules start_now f o))
  unfolding create_event first_objection
  created-Owns key format rules start_now f o h = unless_objected_lem (At Owns id) _ o _ h (λ free.
      insert-At Owns id key _ o.events
        (λ same. absurd (
          ground (arith, free, same-lookup key id o.events same, Owns-some (lookup id o.events) h)))
        h)

  edited-Owns :
      (found : Option TournamentRow) (key : ℕ) (format : Json ℕ) (rules : Json Config)
      (f : EventFindings) (o : Office)
      → lookup key o.events ≡ found
      → ((key == id) ≡ true → rules ≡ absent)
      → At Owns id o
      → At Owns id (office_after_reply o (edit_found found key format rules f o))
  unfolding edit_found office_after_reply column_after
  edited-Owns none key format rules f o e leaves h = h
  edited-Owns (some row) key format rules f o e leaves h =
      unless_objected_lem (At Owns id) _ o _ h (λ free.
        insert-At Owns id key _ o.events
          (λ same.
            let (c, rest) = found_Owns key o row e h same in
            (rw (leaves same, column_after) c, rest))
          h)

  moved-Owns :
      (found : Option TournamentRow) (key : ℕ) (target : TournamentStatus) (o : Office)
      → lookup key o.events ≡ found
      → At Owns id o
      → At Owns id (office_after_reply o (move_found found key target o))
  unfolding move_found office_after_reply
  moved-Owns none key target o e h = h
  moved-Owns (some row) key target o e h = unless_objected_lem (At Owns id) _ o _ h (λ free.
      insert-At Owns id key _ o.events
        (λ same. if_ongoing-Owns _ _ row (found_Owns key o row e h same)) h)

  claimed-Owns :
      (found : Option TournamentRow) (key : ℕ) (ready : Bool) (o : Office)
      → lookup key o.events ≡ found
      → At Owns id o
      → At Owns id (office_after_reply o (claim_found found key ready o))
  unfolding claim_found office_after_reply
  claimed-Owns none key ready o e h = h
  claimed-Owns (some row) key ready o e h = unless_objected_lem (At Owns id) _ o _ h (λ free.
      insert-At Owns id key _ o.events (λ same. snapshot-Owns _ row (found_Owns key o row e h same))
        h)

  reopened-Owns :
      (found : Option TournamentRow) (key : ℕ) (o : Office)
      → lookup key o.events ≡ found
      → At Owns id o
      → At Owns id (office_after_reply o (reopen_found found key o))
  unfolding reopen_found office_after_reply
  reopened-Owns none key o e h = h
  reopened-Owns (some row) key o e h = insert-At Owns id key _ o.events (found_Owns key o row e h) h

  updated-Owns :
      (found : Option Preset) (key : ℕ) (new_name : Option ℕ) (new_system : Option System)
      (rules : Option Config) (o : Office)
      → At Owns id o
      → At Owns id (office_after_reply o (update_found found key new_name new_system rules o))
  unfolding update_found office_after_reply
  updated-Owns none key new_name new_system rules o h = h
  updated-Owns (some p) key new_name new_system rules o h =
      unless_objected_lem (At Owns id) _ o _ h (λ free. h)

  deleted-Owns :
      (format : ℕ) (o : Office)
      → At Owns id o
      → At Owns id (office_after_reply o (delete_preset format o))
  unfolding delete_preset without_format
  deleted-Owns format o h =
      unless_objected_lem (At Owns id) _ o _ h
        (λ free. rw (lookup-forget_format format id o.events) (without_format-Owns format _ h))

  Owns-after :
      (call : OfficeCall) (o : Office)
      → Leaves id call
      → At Owns id o
      → At Owns id (office_after_reply o (office_reply call o))
  unfolding office_reply create_preset update_preset edit_event move_event claim_start reopen_event
  Owns-after (makes_preset key new_name new_system rules) o leaves h =
      unless_objected_lem (At Owns id) _ o _ h (λ free. h)
  Owns-after (changes_preset key new_name new_system rules) o leaves h =
      updated-Owns (lookup key o.presets) key new_name new_system rules o h
  Owns-after (deletes_preset key) o leaves h = deleted-Owns key o h
  Owns-after (makes_event key format rules start_now f) o leaves h =
      created-Owns key format rules start_now f o h
  Owns-after (edits_event key format rules f) o leaves h =
      edited-Owns (lookup key o.events) key format rules f o refl leaves h
  Owns-after (moves_event key target) o leaves h =
      moved-Owns (lookup key o.events) key target o refl h
  Owns-after (claims_start key ready) o leaves h =
      claimed-Owns (lookup key o.events) key ready o refl h
  Owns-after (reopens_event key) o leaves h = reopened-Owns (lookup key o.events) key o refl h

  pub Owns-office_after :
      (calls : List OfficeCall) (o : Office)
      → All (Leaves id) calls
      → At Owns id o
      → At Owns id (office_after calls o)
  unfolding office_after
  Owns-office_after [] o leaves h = h
  Owns-office_after (call ∷ calls) o (here, rest) h =
      Owns-office_after calls _ rest (Owns-after call o here h)

  -- The three readers give a row's own rules, whatever the preset is.
  pub Owns-rules_of :
      (o : Office) (r : Option TournamentRow)
      → Owns r
      → (e : TournamentRow) × ((r ≡ some e)
          × (rules_of o e
              ≡ record { raw_config = config; system = some system; format_name = some name }))
  unfolding rules_of rules_with effective_raw_config system_of own_or_preset
  Owns-rules_of o none h = absurd (ground arith)
  Owns-rules_of o (some e) (c, (s, n)) = (e, (refl, rw (c, s, n) refl))
