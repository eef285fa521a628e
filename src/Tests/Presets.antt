-- ===== src/Tests/Presets.antt =====
-- A preset that is changed and deleted under a tournament that has started.
use joust_backend.Prelude.{◌≡◌, refl, none, some, is_some, [], ◌∷◌, true, false, List}
use joust_backend.Prelude.Dict.{lookup, insert}
use joust_backend.Prelude.Int.{pos}
use joust_backend.Formats.{System}
use joust_backend.Match.{TournamentStatus}
use joust_backend.Config.Raw.{absent, given, no_keys, Config}
use joust_backend.Config.{no_config, own_or_preset}
use joust_backend.Presets.{
  Preset, TournamentRow, Office, EventFindings, first_objection, unless_objected, is_preset_name,
  create_preset, is_not_started, is_in_use, without_format, forget_format, drop_preset,
  delete_preset, create_event,
}
use joust_backend.Presets.Service.{
  preset_of, snapshot, claim_found, claim_start, rules_of, drawn_system, OfficeCall, makes_preset,
  changes_preset, deletes_preset, makes_event, edits_event, moves_event, claims_start, office_reply,
  office_after_reply, office_after,
}
use joust_backend.Presets.Frozen.Claim.{rules_of-claim_start}
use joust_backend.Presets.Systems.Calls.{empty_office, office_after-system}

-- First to two wins, by the old key.
abbrev longer : Config
longer = record no_config { root = record no_keys { wins_to_advance = given (pos 2) } }

abbrev nothing_wrong : EventFindings
nothing_wrong = record { name_exists = false; game_assignable = true; slug_exists = false }

abbrev swiss_night : Preset
swiss_night = record { name = 5; system = System.swiss; config = longer; is_builtin = false }

abbrev friday : TournamentRow
friday = record {
  status = TournamentStatus.opened;
  format_id = some 1;
  config = none;
  system = none;
  format_name = none;
}

abbrev before_start : Office
before_start = record { presets = (1, swiss_night) ∷ []; events = (9, friday) ∷ [] }

abbrev after_start : Office
after_start = record {
  presets = (1, swiss_night) ∷ [];
  events =
      (
        9,
        record {
          status = TournamentStatus.ongoing;
          format_id = some 1;
          config = some longer;
          system = some System.swiss;
          format_name = some 5;
        },
      )
      ∷ [];
}

-- The preset becomes another one, the tournament ends, and the preset goes.
abbrev upheaval : List OfficeCall
upheaval =
    changes_preset 1 (some 6) (some System.hybrid) (some no_config)
    ∷ edits_event 9 absent absent nothing_wrong
    ∷ moves_event 9 TournamentStatus.completed
    ∷ deletes_preset 1
    ∷ []

rules_of-claim_start_example :
    (later : TournamentRow) × ((lookup 9 (office_after upheaval after_start).events ≡ some later)
      × ((rules_of (office_after upheaval after_start) later ≡ rules_of before_start friday)
          × ((rules_of (office_after upheaval after_start) later).system
              ≡ drawn_system before_start friday)))
unfolding claim_start claim_found unless_objected first_objection preset_of snapshot own_or_preset
    lookup insert
rules_of-claim_start_example =
    rules_of-claim_start upheaval 9 true before_start after_start friday refl refl refl
      (tt, ((λ same. refl), (tt, (tt, tt))))

abbrev evening : List OfficeCall
evening =
    makes_preset 1 5 System.swiss longer
    ∷ makes_event 9 1 none true nothing_wrong
    ∷ claims_start 9 true
    ∷ deletes_preset 1
    ∷ []

office_after-system_example :
    is_some
      (rules_of (office_after evening empty_office) (record {
        status = TournamentStatus.ongoing;
        format_id = none;
        config = some longer;
        system = some System.swiss;
        format_name = some 5;
      })).system
    ≡ true
unfolding office_after office_after_reply office_reply create_preset is_preset_name create_event
    claim_start claim_found delete_preset is_in_use is_not_started drop_preset forget_format
    without_format unless_objected first_objection preset_of snapshot own_or_preset lookup insert
office_after-system_example = office_after-system evening 9 _ (tt, (tt, (tt, (tt, tt)))) refl
