-- ===== src/Types.antt =====
-- ui/desktop/src/renderer/types: the unions that the utilities branch on.
use mathlib.Core.Bool.{Bool, true, false}

-- `TorrentStatus["state"]`
pub data State : Type 0 where
  stopped downloading seeding checking error : State

abbrev pub is_error : State → Bool
is_error error = true
is_error _ = false

-- `state === "downloading" || state === "seeding"`
abbrev pub is_active : State → Bool
is_active downloading = true
is_active seeding = true
is_active _ = false

-- `===` on states
abbrev pub same_state : State → State → Bool
same_state stopped stopped = true
same_state downloading downloading = true
same_state seeding seeding = true
same_state checking checking = true
same_state error error = true
same_state _ _ = false
