-- ===== src/Formats.antt =====
-- The enumerations of prisma/schema.prisma and src/Formats/format-config.helper.ts that the match
-- and standings code branches on.
use joust_backend.Prelude.{ℕ, Bool, true, false, not, ◌==◌}

-- `TournamentSystem`.
pub data System : Type 0 where
  single_elimination double_elimination swiss round_robin hybrid : System

-- `ByeResult`; `uncounted` is 'NONE'.
pub data ByeResult : Type 0 where
  win draw uncounted : ByeResult

-- `systemAllowsDraw`, on a system that is known.
unfoldable pub system_allows_draw : System → ℕ → Bool
system_allows_draw swiss phase = true
system_allows_draw round_robin phase = true
system_allows_draw hybrid phase = phase == 1
system_allows_draw single_elimination phase = false
system_allows_draw double_elimination phase = false

-- `pointsApply` of `applyMatchStats` and `computeTournamentRecords`.
unfoldable pub points_apply : System → ℕ → Bool
points_apply single_elimination phase = false
points_apply double_elimination phase = false
points_apply swiss phase = true
points_apply round_robin phase = true
points_apply hybrid phase = not (phase == 2)
