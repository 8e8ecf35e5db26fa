-- ===== src/Trackers/Times.antt =====
-- The times that the trackers' rows show (ui/desktop/src/renderer/components/inspector/TrackersTab.tsx).
use orc_torrent.Prelude.{ℕ, ◌+◌, ◌-◌, ◌*◌, ◌≤◌, ◌<◌}
use orc_torrent.Trackers.{
  Shown, dash, just_now, in_seconds, in_minutes, in_hours, minutes_ago, hours_ago, days_ago,
}

-- rounded up, below the next larger unit or at it
abbrev pub Up : ℕ → ℕ → ℕ → ℕ → Type 0
Up unit most n d = (d ≤ unit * n) × (unit * n < d + unit) × (n ≤ most)

-- rounded down
abbrev pub Down : ℕ → ℕ → ℕ → Type 0
Down unit n d = (unit * n ≤ d) × (d < unit * n + unit) × (1 ≤ n)

-- What a text says of the time of day and another time.
abbrev pub Tells : Shown → ℕ → ℕ → Type 0
Tells dash now ms = ⊥
Tells just_now now ms = (ms ≤ now) × (now < ms + 60000)
Tells (in_seconds n) now ms = (now < ms) × (ms - now < 60000) × Up 1000 60 n (ms - now)
Tells (in_minutes n) now ms =
    (now < ms) × (60000 ≤ ms - now) × (ms - now < 3600000) × Up 60000 60 n (ms - now)
Tells (in_hours n) now ms = (now < ms) × Down 3600000 n (ms - now)
Tells (minutes_ago n) now ms = (ms ≤ now) × Down 60000 n (now - ms) × (n < 60)
Tells (hours_ago n) now ms = (ms ≤ now) × Down 3600000 n (now - ms) × (n < 24)
Tells (days_ago n) now ms = (ms ≤ now) × Down 86400000 n (now - ms)
