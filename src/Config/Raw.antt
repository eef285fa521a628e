-- ===== src/Config/Raw.antt =====
-- The stored form of a configuration, which src/Formats/format-config.helper.ts reads.
use joust_backend.Prelude.{ℕ, Option, none, some, List, Bool, false, ◌==◌, if◌then◌else◌}
use joust_backend.Prelude.Int.{ℤ}

-- A key of a JSON object: not there, `null`, or a value.
pub data Json {ℓ} (A : Type ℓ) : Type ℓ where
  absent null : Json A
  given : A → Json A

-- The strings that the code compares with; `other` is any string that it does not know.
pub data SeedingWord : Type 0 where
  manual other : SeedingWord

pub data ByeWord : Type 0 where
  drawn uncredited other : ByeWord

pub data PermWord : Type 0 where
  nobody staff participants both other : PermWord

pub data RuleWord : Type 0 where
  staff_only self_report_allowed other : RuleWord

pub data StartWord : Type 0 where
  staff other : StartWord

-- A configuration object, or the part of it for a phase: the keys that `resolveConfig` reads. Values
-- have the type that the editors of a format write; tiebreakers and progressions are numbers.
pub record RawConfig : Type 0 where
  pub best_of : Json ℤ
  pub wins_to_advance : Json ℤ
  pub allow_draw : Json Bool
  pub seeding_mode : Json SeedingWord
  pub swiss_rounds : Json ℤ
  pub points_for_win : Json ℤ
  pub points_for_draw : Json ℤ
  pub points_for_loss : Json ℤ
  pub tie_breaker_order : Json (List ℕ)
  pub bye_result : Json ByeWord
  pub grand_final_reset : Json Bool
  pub points_threshold : Json ℤ
  pub starting_hp : Json ℤ
  pub progression_type : Json ℕ
  pub points_champion : Json ℤ
  pub points_2nd : Json ℤ
  pub points_3rd : Json ℤ
  pub points_top_cut : Json ℤ
  pub points_participation : Json ℤ
  pub utilities_enabled : Json Bool
  pub coin_who : Json PermWord
  pub dice_who : Json PermWord
  pub timer_who : Json PermWord
  pub score_submission_rule : Json RuleWord
  pub match_start_who : Json StartWord

-- `a ?? b` of two keys.
unfoldable pub coalesce {ℓ} : {A : Type ℓ} → Json A → Json A → Json A
coalesce (given a) second = given a
coalesce null second = second
coalesce absent second = second

-- `key ?? fallback`
unfoldable pub or_default {ℓ} : {A : Type ℓ} → A → Json A → A
or_default fallback (given a) = a
or_default fallback null = fallback
or_default fallback absent = fallback

-- `key ?? null`
unfoldable pub or_null {ℓ} : {A : Type ℓ} → Json A → Option A
or_null (given a) = some a
or_null null = none
or_null absent = none

-- One key of `{ ...base, ...over }`: a key that is there wins, also when it is `null`.
unfoldable pub spread_key {ℓ} : {A : Type ℓ} → Json A → Json A → Json A
spread_key base absent = base
spread_key base null = null
spread_key base (given a) = given a

-- `{ ...base, ...over }`
unfoldable pub spread : RawConfig → RawConfig → RawConfig
spread base over = record {
  best_of = spread_key base.best_of over.best_of;
  wins_to_advance = spread_key base.wins_to_advance over.wins_to_advance;
  allow_draw = spread_key base.allow_draw over.allow_draw;
  seeding_mode = spread_key base.seeding_mode over.seeding_mode;
  swiss_rounds = spread_key base.swiss_rounds over.swiss_rounds;
  points_for_win = spread_key base.points_for_win over.points_for_win;
  points_for_draw = spread_key base.points_for_draw over.points_for_draw;
  points_for_loss = spread_key base.points_for_loss over.points_for_loss;
  tie_breaker_order = spread_key base.tie_breaker_order over.tie_breaker_order;
  bye_result = spread_key base.bye_result over.bye_result;
  grand_final_reset = spread_key base.grand_final_reset over.grand_final_reset;
  points_threshold = spread_key base.points_threshold over.points_threshold;
  starting_hp = spread_key base.starting_hp over.starting_hp;
  progression_type = spread_key base.progression_type over.progression_type;
  points_champion = spread_key base.points_champion over.points_champion;
  points_2nd = spread_key base.points_2nd over.points_2nd;
  points_3rd = spread_key base.points_3rd over.points_3rd;
  points_top_cut = spread_key base.points_top_cut over.points_top_cut;
  points_participation = spread_key base.points_participation over.points_participation;
  utilities_enabled = spread_key base.utilities_enabled over.utilities_enabled;
  coin_who = spread_key base.coin_who over.coin_who;
  dice_who = spread_key base.dice_who over.dice_who;
  timer_who = spread_key base.timer_who over.timer_who;
  score_submission_rule = spread_key base.score_submission_rule over.score_submission_rule;
  match_start_who = spread_key base.match_start_who over.match_start_who;
}

-- `{}`
abbrev pub no_keys : RawConfig
no_keys = record {
  best_of = absent;
  wins_to_advance = absent;
  allow_draw = absent;
  seeding_mode = absent;
  swiss_rounds = absent;
  points_for_win = absent;
  points_for_draw = absent;
  points_for_loss = absent;
  tie_breaker_order = absent;
  bye_result = absent;
  grand_final_reset = absent;
  points_threshold = absent;
  starting_hp = absent;
  progression_type = absent;
  points_champion = absent;
  points_2nd = absent;
  points_3rd = absent;
  points_top_cut = absent;
  points_participation = absent;
  utilities_enabled = absent;
  coin_who = absent;
  dice_who = absent;
  timer_who = absent;
  score_submission_rule = absent;
  match_start_who = absent;
}

-- A configuration with its phases; a phase that is no object is the object without keys.
pub record Config : Type 0 where
  pub root : RawConfig
  pub phase1 : RawConfig
  pub phase2 : RawConfig

abbrev pub is_second : Option ℕ → Bool
is_second none = false
is_second (some phase) = phase == 2

-- `c`: the phase over the root. Phase 2 inherits from phase 1.
unfoldable pub phase_config : Config → Option ℕ → RawConfig
phase_config config phase =
    spread config.root
      (if is_second phase then spread config.phase1 config.phase2 else config.phase1)
