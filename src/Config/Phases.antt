-- ===== src/Config/Phases.antt =====
-- How the phases of src/Formats/format-config.helper.ts inherit their rules.
use joust_backend.Prelude.{ℕ, ◌≡◌, refl, ap, sym, ◌∙◌, Option, Bool, true, false, if◌then◌else◌}
use joust_backend.Config.Raw.{
  RawConfig, spread_key, spread, no_keys, Config, phase_config, is_second,
}
use joust_backend.Config.{resolve_config, resolve_keys}

spread-no_keys : (base : RawConfig) → spread base no_keys ≡ base
unfolding spread spread_key
spread-no_keys base = refl

-- A configuration without rules for phase 2 resolves alike for every phase, and also without one.
resolve_config-phases :
    (config : Config) (phase other : Option ℕ)
    → config.phase2 ≡ no_keys
    → resolve_config config phase ≡ resolve_config config other
unfolding resolve_config phase_config
resolve_config-phases config phase other flat =
    ap (resolve_keys config.root) (one_phase (is_second phase) ∙ sym (one_phase (is_second other)))
  where
    one_phase :
        (b : Bool)
        → spread config.root (if b then spread config.phase1 config.phase2 else config.phase1)
          ≡ spread config.root config.phase1
    one_phase true =
        ap (spread config.root) (ap (spread config.phase1) flat ∙ spread-no_keys config.phase1)
    one_phase false = refl
