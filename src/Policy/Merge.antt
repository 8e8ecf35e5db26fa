-- ===== src/Policy/Merge.antt =====
-- A change of one setting leaves the others (utils/usePolicy.ts of ui/desktop/src/renderer).
use orc_torrent.Prelude.{◌≡◌, arith, Bool, if◌then◌else◌}
use orc_torrent.Policy.{DesiredPolicy, Flag, same_flag, get_flag, set_flag}

pub get_flag-set_flag :
    (j k : Flag) (b : Bool) (d : DesiredPolicy)
    → get_flag j (set_flag k b d) ≡ (if same_flag k j then b else get_flag j d)
get_flag-set_flag j k b d = ground arith
