-- ===== src/Format/Eta.antt =====
-- The remaining time that is shown (ui/desktop/src/renderer/utils/format.ts).
use orc_torrent.Prelude.{ℕ, ◌+◌, ◌*◌, ◌≤◌, ◌<◌, ◌≡◌}
use orc_torrent.Format.{Shown, just_started, days_hours, hours_minutes, minutes_seconds, seconds}

-- The parts of a time, and how far it is from what they say.
abbrev pub Says : Shown → ℕ → Type 0
Says (days_hours d h) s =
    (d * 86400 + h * 3600 ≤ s) × (s < d * 86400 + h * 3600 + 3600) × (h < 24) × (1 ≤ d)
Says (hours_minutes h m) s =
    (h * 3600 + m * 60 ≤ s) × (s < h * 3600 + m * 60 + 60) × (m < 60) × (1 ≤ h)
Says (minutes_seconds m s') s = (s ≡ m * 60 + s') × (s' < 60) × (m < 60) × (1 ≤ m)
Says (seconds s') s = (s ≡ s') × (s' < 60)
Says just_started s = s < 60
Says _ s = ⊥

-- What is left of a download takes `t` seconds, rounded up.
abbrev pub Lasts : ℕ → ℕ → ℕ → Type 0
Lasts t left rate = (left ≤ rate * t) × (rate * t < left + rate)
