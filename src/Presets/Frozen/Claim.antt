-- ===== src/Presets/Frozen/Claim.antt =====
-- The claim of a start, which gives a tournament rules of its own, in
-- src/tournament/tournament.service.ts.
use joust_backend.Prelude.{
  ℕ, ◌≡◌, refl, ap, sym, ◌∙◌, subst, Option, none, some, or_else, List, Bool, true, ◌==◌, All,
  arith,
}
use joust_backend.Prelude.Dict.{lookup, lookup-insert}
use joust_backend.Formats.{System}
use joust_backend.Match.{TournamentStatus}
use joust_backend.Config.Raw.{Config}
use joust_backend.Config.{own_or_preset, effective_raw_config, system_of}
use joust_backend.Presets.{Preset, TournamentRow, Office, filed, first_objection}
use joust_backend.Presets.Service.{
  preset_of, snapshot, claim_found, claim_start, Rules, config_column, system_column, name_column,
  rules_with, rules_of, drawn_system, OfficeCall, office_after,
}
use joust_backend.Presets.Guards.{Files, unless_objected-Files}
use joust_backend.Presets.Frozen.{Leaves, Owns, Owns-office_after, Owns-rules_of}

own_or_preset-or_else :
    {A : Type 0} (own : Option A) (preset : A)
    → own_or_preset own (some preset) ≡ some (or_else own preset)
unfolding own_or_preset
own_or_preset-or_else none preset = refl
own_or_preset-or_else (some own) preset = refl

-- Rules that a row owns, and that a tournament was read with before.
abbrev KeepsRules : ℕ → Rules → Office → Type 0
KeepsRules id rules o =
    (config : Config) × ((system : System) × ((name : ℕ) × (Owns id config system name
            (lookup id o.events)
          × (rules
              ≡ record { raw_config = config; system = some system; format_name = some name }))))

effective_raw_config-or_else :
    (own : Option Config) (preset : Config)
    → effective_raw_config own (some preset) ≡ or_else own preset
unfolding effective_raw_config own_or_preset
effective_raw_config-or_else none preset = refl
effective_raw_config-or_else (some own) preset = refl

system_of-or_else :
    (own : Option System) (preset : System)
    → system_of own (some preset) ≡ some (or_else own preset)
unfolding system_of
system_of-or_else own preset = own_or_preset-or_else own preset

same_key : (id : ℕ) → (id == id) ≡ true
same_key id = ground arith

Owns-snapshot :
    (q : Preset) (e : TournamentRow)
    → Owns 0
        (or_else e.config q.config)
        (or_else e.system q.system)
        (or_else e.format_name q.name)
        (some (snapshot (some q) e))
unfolding snapshot
Owns-snapshot q e = (
  own_or_preset-or_else e.config q.config,
  (own_or_preset-or_else e.system q.system, own_or_preset-or_else e.format_name q.name),
)

rules_with-snapshot :
    (q : Preset) (e : TournamentRow)
    → rules_with (some q) e ≡ record {
      raw_config = or_else e.config q.config;
      system = some (or_else e.system q.system);
      format_name = some (or_else e.format_name q.name);
    }
unfolding rules_with config_column system_column name_column
rules_with-snapshot q e =
    rw
      (
        effective_raw_config-or_else e.config q.config,
        system_of-or_else e.system q.system,
        own_or_preset-or_else e.format_name q.name,
      )
      refl

-- The claim makes the rules that the preset gave the tournament its own.
claimed_rules :
    (id : ℕ) (ready : Bool) (o : Office) (e : TournamentRow) (p : Option Preset)
    → preset_of o.presets e.format_id ≡ p
    → Files (KeepsRules id (rules_of o e)) (claim_found (some e) id ready o)
unfolding claim_found rules_of first_objection
claimed_rules id ready o e none h = rw h (
    unless_objected-Files (KeepsRules id (rules_with none e)) _ _
      (λ free. absurd (ground (arith, free))))
claimed_rules id ready o e (some q) h = rw h (
    unless_objected-Files (KeepsRules id (rules_with (some q) e)) _ _ (λ free. (
      or_else e.config q.config,
      (
        or_else e.system q.system,
        (
          or_else e.format_name q.name,
          (
            rw
                (
                  lookup-insert id id
                      (record (snapshot (some q) e) { status = TournamentStatus.ongoing }) o.events,
                  same_key id,
                )
                (Owns-snapshot q e),
            rules_with-snapshot q e,
          ),
        ),
      ),
    )))

-- Whatever the row was, its rules are read after the claim as they were read before it.
claimed_rules_kept :
    (calls : List OfficeCall) (id : ℕ) (ready : Bool) (o started : Office) (e : TournamentRow)
    → lookup id o.events ≡ some e
    → claim_start id ready o ≡ filed started
    → All (Leaves id) calls
    → (later : TournamentRow) × ((lookup id (office_after calls started).events ≡ some later)
        × (rules_of (office_after calls started) later ≡ rules_of o e))
unfolding claim_start
claimed_rules_kept calls id ready o started e found claimed leaves =
    let kept =
      subst (Files (KeepsRules id (rules_of o e))) (rw found at claimed)
        (claimed_rules id ready o e (preset_of o.presets e.format_id) refl) in
    let (config, (system, (name, (owned, same)))) = kept in
    let (later, (there, rules)) =
      Owns-rules_of id config system name (office_after calls started) _
        (Owns-office_after id config system name calls started leaves owned) in
    (later, (there, rules ∙ sym same))

-- A tournament without a bracket type of its own is read with that of its preset.
rules_of-drawn_system :
    (o : Office) (e : TournamentRow) → e.system ≡ none → (rules_of o e).system ≡ drawn_system o e
unfolding rules_of rules_with drawn_system system_of own_or_preset
rules_of-drawn_system o e fresh = rw fresh refl

-- A tournament that has no bracket type of its own yet, as before its first start, and is claimed for
-- its start: whatever calls follow on it, on other tournaments and on the presets, even when its preset
-- is changed or deleted and when the start fails and the tournament is opened or claimed again, the row
-- is there, `effectiveRawConfig`, `systemOf` and `formatNameOf` read the same configuration, bracket
-- type and name as right before the claim, unless one of the calls edits the configuration of this row,
-- and that bracket type is the one that this start draws the bracket by. Nothing is said of the bracket
-- type that a later start, after one that failed, draws by.
pub rules_of-claim_start :
    (calls : List OfficeCall) (id : ℕ) (ready : Bool) (o started : Office) (e : TournamentRow)
    → lookup id o.events ≡ some e
    → e.system ≡ none
    → claim_start id ready o ≡ filed started
    → All (Leaves id) calls
    → (later : TournamentRow) × ((lookup id (office_after calls started).events ≡ some later)
        × ((rules_of (office_after calls started) later ≡ rules_of o e)
            × ((rules_of (office_after calls started) later).system ≡ drawn_system o e)))
rules_of-claim_start calls id ready o started e found fresh claimed leaves =
    let (later, (there, same)) =
      claimed_rules_kept calls id ready o started e found claimed leaves in
    (later, (there, (same, ap (λ r. r.system) same ∙ rules_of-drawn_system o e fresh)))
