-- ===== src/Config/Series.antt =====
-- The length of a series in src/Formats/format-config.helper.ts.
use joust_backend.Prelude.{ℕ, suc, ◌+◌, ◌/◌, ◌≡◌, refl, ap, ◌∙◌, Option, Bool, true, false, arith}
use joust_backend.Prelude.Int.{ℤ, pos, ◌-ℤ◌, ◌*ℤ◌}
use joust_backend.Match.{wins_needed}
use joust_backend.Config.Raw.{Json, absent, null, given, Config, phase_config}
use joust_backend.Config.{series_length, legacy_length, resolve_config, resolve_keys}

-- The key is there with a value.
abbrev pub is_given {ℓ} : {A : Type ℓ} → Json A → Bool
is_given (given a) = true
is_given null = false
is_given absent = false

first_to : (wins : ℕ) → legacy_length (given (pos (suc wins))) ≡ pos (suc (wins + wins))
unfolding legacy_length ◌*ℤ◌ ◌-ℤ◌
first_to wins = ground arith

half_of : (wins : ℕ) → (suc (wins + wins) + 1) / 2 ≡ suc wins
half_of wins = ground arith

legacy_wins : (wins : ℕ) → wins_needed (legacy_length (given (pos (suc wins)))) ≡ suc wins
unfolding wins_needed
legacy_wins wins = ap wins_needed (first_to wins) ∙ half_of wins

-- A configuration of the old form, which gives the wins to take a series and not its games, asks for
-- as many wins as it says, in any phase and whatever its root and its phases say otherwise.
wins_needed-resolve_config :
    (config : Config) (phase : Option ℕ) (wins : ℕ)
    → is_given (phase_config config phase).best_of ≡ false
    → (phase_config config phase).wins_to_advance ≡ given (pos (suc wins))
    → wins_needed (resolve_config config phase).best_of ≡ suc wins
unfolding resolve_config resolve_keys series_length
wins_needed-resolve_config config phase wins vacant old =
    go (phase_config config phase).best_of vacant
    ∙ ap (λ key. wins_needed (legacy_length key)) old
    ∙ legacy_wins wins
  where
    go :
        (key : Json ℤ)
        → is_given key ≡ false
        → wins_needed (series_length key (phase_config config phase).wins_to_advance)
          ≡ wins_needed (legacy_length (phase_config config phase).wins_to_advance)
    go (given n) h = ground arith
    go null h = refl
    go absent h = refl
