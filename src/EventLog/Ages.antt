-- ===== src/EventLog/Ages.antt =====
-- The relative times of the history of events (utils/eventService.ts of ui/desktop/src/renderer).
use orc_torrent.Prelude.{ℕ, ◌+◌, ◌-◌, ◌*◌, ◌≤◌, ◌<◌, arith}
use orc_torrent.EventLog.{RelativeTime, just_now, seconds, minutes, hours, days, get_relative_time}

-- the milliseconds that a relative time stands for, and up to how many more it may stand for
abbrev pub age : RelativeTime → ℕ
age just_now = 0
age (seconds n) = 1000 * n
age (minutes n) = 60000 * n
age (hours n) = 3600000 * n
age (days n) = 86400000 * n

abbrev pub grain : RelativeTime → ℕ
grain just_now = 1000
grain (seconds n) = 1000
grain (minutes n) = 60000
grain (hours n) = 3600000
grain (days n) = 86400000

-- The number is at least one, and the next unit would not do.
abbrev pub Reads : RelativeTime → Type 0
Reads just_now = Unit
Reads (seconds n) = (1 ≤ n) × (n < 60)
Reads (minutes n) = (1 ≤ n) × (n < 60)
Reads (hours n) = (1 ≤ n) × (n < 24)
Reads (days n) = 1 ≤ n

-- A relative time is the time that passed, rounded down to the largest unit that fits; a time that is still
-- to come is as good as none.
pub get_relative_time-bounds :
    (now timestamp : ℕ)
    → (let r = get_relative_time now timestamp in
        (age r ≤ now - timestamp) × (now - timestamp < age r + grain r) × Reads r)
unfolding get_relative_time
get_relative_time-bounds now timestamp = ground arith
