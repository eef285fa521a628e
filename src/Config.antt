-- ===== src/Config.antt =====
-- The configuration of a tournament: src/Formats/format-config.helper.ts.
pub mod Raw
pub mod Phases
pub mod Series
use joust_backend.Prelude.{
  ℕ, zero, suc, ◌≡◌, refl, Option, none, some, List, [], ◌∷◌, Bool, true, false, not, ltb, ◌&&◌,
  ◌||◌, ◌==◌, if◌then◌else◌,
}
use joust_backend.Prelude.Int.{ℤ, pos, negsuc, ◌-ℤ◌, ◌*ℤ◌, ltb_ℤ}
use joust_backend.Formats.{System, ByeResult, win, draw, uncounted}
use joust_backend.Match.{ScoreRule, StartRule}
use joust_backend.Config.Raw.{
  Json, absent, null, given, SeedingWord, ByeWord, drawn, uncredited, PermWord, RuleWord, StartWord,
  RawConfig, coalesce, or_default, or_null, no_keys, Config, phase_config,
}

-- `UtilityPerm`
pub data UtilityPerm : Type 0 where
  nobody staff participants both : UtilityPerm

pub record UtilitiesConfig : Type 0 where
  pub enabled : Bool
  pub coin_who : UtilityPerm
  pub dice_who : UtilityPerm
  pub timer_who : UtilityPerm

pub record ResolvedConfig : Type 0 where
  pub best_of : ℤ
  pub wins_to_advance : ℤ
  pub allow_draw : Bool
  pub is_manual : Bool
  pub swiss_rounds : Option ℤ
  pub points_for_win : ℤ
  pub points_for_draw : ℤ
  pub points_for_loss : ℤ
  pub tie_breaker_order : List ℕ
  pub bye_result : ByeResult
  pub grand_final_reset : Bool
  pub points_threshold : ℤ
  pub starting_hp : ℤ
  pub progression_type : Option ℕ
  pub use_tracker : Bool
  pub tracks_hp : Bool
  pub default_starting_value : Option ℤ
  pub points_champion : ℤ
  pub points_2nd : ℤ
  pub points_3rd : ℤ
  pub points_top_cut : ℤ
  pub points_participation : ℤ
  pub utilities : UtilitiesConfig
  pub score_rule : ScoreRule
  pub start_rule : StartRule

-- `resolvePerm`
unfoldable pub resolve_perm : UtilityPerm → Json PermWord → UtilityPerm
resolve_perm fallback (given PermWord.nobody) = UtilityPerm.nobody
resolve_perm fallback (given PermWord.staff) = UtilityPerm.staff
resolve_perm fallback (given PermWord.participants) = UtilityPerm.participants
resolve_perm fallback (given PermWord.both) = UtilityPerm.both
resolve_perm fallback (given PermWord.other) = fallback
resolve_perm fallback null = fallback
resolve_perm fallback absent = fallback

-- `resolveScoreSubmissionRule`
unfoldable pub resolve_score_submission_rule : Json RuleWord → ScoreRule
resolve_score_submission_rule (given RuleWord.staff_only) = ScoreRule.staff_only
resolve_score_submission_rule (given RuleWord.self_report_allowed) = ScoreRule.self_report_allowed
resolve_score_submission_rule (given RuleWord.other) = ScoreRule.self_report_allowed
resolve_score_submission_rule null = ScoreRule.self_report_allowed
resolve_score_submission_rule absent = ScoreRule.self_report_allowed

unfoldable pub resolve_start : Json StartWord → StartRule
resolve_start (given StartWord.staff) = StartRule.staff_only
resolve_start (given StartWord.other) = StartRule.staff_and_participants
resolve_start null = StartRule.staff_and_participants
resolve_start absent = StartRule.staff_and_participants

unfoldable pub resolve_seeding : Json SeedingWord → Bool
resolve_seeding (given SeedingWord.manual) = true
resolve_seeding (given SeedingWord.other) = false
resolve_seeding null = false
resolve_seeding absent = false

unfoldable pub resolve_bye : Json ByeWord → ByeResult
resolve_bye (given ByeWord.drawn) = draw
resolve_bye (given ByeWord.uncredited) = uncounted
resolve_bye (given ByeWord.other) = win
resolve_bye null = win
resolve_bye absent = win

-- `key === false ? false : true`
unfoldable pub unless_false : Json Bool → Bool
unless_false (given b) = b
unless_false null = true
unless_false absent = true

unfoldable pub legacy_length : Json ℤ → ℤ
legacy_length (given n) = if ltb_ℤ (pos 0) n then n *ℤ pos 2 -ℤ pos 1 else pos 1
legacy_length null = pos 1
legacy_length absent = pos 1

-- `wins`: the games of a series, which the old key gave as the wins to take it.
unfoldable pub series_length : Json ℤ → Json ℤ → ℤ
series_length (given n) wins = n
series_length null wins = legacy_length wins
series_length absent wins = legacy_length wins

-- The body of `resolveConfig`: by the root and by `c`.
unfoldable pub resolve_keys : RawConfig → RawConfig → ResolvedConfig
resolve_keys root c =
    let length = series_length c.best_of c.wins_to_advance in
    let threshold = or_default (pos 0) c.points_threshold in
    let hp = or_default (pos 0) c.starting_hp in
    let has_hp = ltb_ℤ (pos 0) hp in
    let has_points = ltb_ℤ (pos 0) threshold in
    record {
      best_of = length;
      wins_to_advance = length;
      allow_draw = or_default false c.allow_draw;
      is_manual = resolve_seeding (coalesce root.seeding_mode c.seeding_mode);
      swiss_rounds = or_null c.swiss_rounds;
      points_for_win = or_default (pos 3) c.points_for_win;
      points_for_draw = or_default (pos 1) c.points_for_draw;
      points_for_loss = or_default (pos 0) c.points_for_loss;
      tie_breaker_order = or_default [] c.tie_breaker_order;
      bye_result = resolve_bye c.bye_result;
      grand_final_reset = unless_false c.grand_final_reset;
      points_threshold = threshold;
      starting_hp = hp;
      progression_type = or_null c.progression_type;
      use_tracker = has_hp || has_points;
      tracks_hp = has_hp;
      default_starting_value =
          (if has_hp then some hp else if has_points then some threshold else none);
      points_champion = or_default (pos 10) c.points_champion;
      points_2nd = or_default (pos 7) c.points_2nd;
      points_3rd = or_default (pos 5) c.points_3rd;
      points_top_cut = or_default (pos 3) c.points_top_cut;
      points_participation = or_default (pos 1) c.points_participation;
      utilities = record {
        enabled = unless_false (coalesce root.utilities_enabled c.utilities_enabled);
        coin_who = resolve_perm UtilityPerm.both (coalesce root.coin_who c.coin_who);
        dice_who = resolve_perm UtilityPerm.both (coalesce root.dice_who c.dice_who);
        timer_who = resolve_perm UtilityPerm.staff (coalesce root.timer_who c.timer_who);
      };
      score_rule =
          resolve_score_submission_rule
            (coalesce root.score_submission_rule c.score_submission_rule);
      start_rule = resolve_start (coalesce root.match_start_who c.match_start_who);
    }

-- `resolveConfig`
unfoldable pub resolve_config : Config → Option ℕ → ResolvedConfig
resolve_config config phase = resolve_keys config.root (phase_config config phase)

-- A tournament's own value, or else its format's, or else none: `effectiveRawConfig`, `systemOf` and
-- `formatNameOf`.
unfoldable pub own_or_preset {ℓ} : {A : Type ℓ} → Option A → Option A → Option A
own_or_preset (some own) preset = some own
own_or_preset none preset = preset

abbrev pub no_config : Config
no_config = record { root = no_keys; phase1 = no_keys; phase2 = no_keys }

unfoldable pub effective_raw_config : Option Config → Option Config → Config
effective_raw_config own preset = elim (own_or_preset own preset) [ none ↦ no_config | some c ↦ c ]

unfoldable pub system_of : Option System → Option System → Option System
system_of own preset = own_or_preset own preset
