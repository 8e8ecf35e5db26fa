-- ===== src/Format.antt =====
-- The times and sizes that the client shows (ui/desktop/src/renderer/utils/format.ts). Numbers are natural numbers; of
-- a size the unit is kept that it is shown in.
pub mod Eta
pub mod Elapsed
pub mod Units
mod Tests
use orc_torrent.Prelude.{
  ℕ, zero, suc, ◌+◌, ◌-◌, ◌*◌, ◌/◌, ◌%◌, min, Bool, true, false, ◌&&◌, Option, none, some, ltb, leb,
  if◌then◌else◌,
}

-- `status.state`, or none
pub data EtaState : Type 0 where
  checking seeding complete stopped paused error downloading other : EtaState

abbrev pub is_downloading : EtaState → Bool
is_downloading downloading = true
is_downloading _ = false

-- `Math.ceil(a / b)`
abbrev pub ceil_div : ℕ → ℕ → ℕ
ceil_div a b = (a + (b - 1)) / b

-- what the daemon says, where it says something
abbrev pub daemon_eta : Option ℕ → Option ℕ
daemon_eta none = none
daemon_eta (some n) = if ltb 0 n then some n else none

unfoldable pub get_effective_eta : Option ℕ → EtaState → ℕ → ℕ → ℕ → Option ℕ
get_effective_eta eta_sec state total_bytes downloaded_bytes down_rate_bps =
    let sec = ceil_div (total_bytes - downloaded_bytes) down_rate_bps in
    if is_downloading state
      && ltb 0 total_bytes
      && ltb downloaded_bytes total_bytes
      && ltb 0 down_rate_bps
      && ltb 0 sec
    then some sec
    else daemon_eta eta_sec

-- what is shown of a time
pub data Shown : Type 0 where
  checking_text seeding_text dash infinite just_started : Shown
  days_hours hours_minutes minutes_seconds : ℕ → ℕ → Shown
  seconds : ℕ → Shown

abbrev pub max_eta : ℕ
max_eta = 3596400

unfoldable pub split_time : ℕ → Shown
split_time s =
    if ltb 0 (s / 3600)
    then hours_minutes (s / 3600) (s % 3600 / 60)
    else if ltb 0 (s % 3600 / 60)
    then minutes_seconds (s % 3600 / 60) (s % 60)
    else seconds (s % 60)

abbrev pub shown_eta : Option ℕ → Shown
unfolding split_time
shown_eta none = infinite
shown_eta (some n) = if ltb 0 n then split_time (min n max_eta) else infinite

unfoldable pub fmt_eta : Option ℕ → EtaState → Shown
unfolding split_time
fmt_eta sec checking = checking_text
fmt_eta sec seeding = seeding_text
fmt_eta sec complete = seeding_text
fmt_eta sec stopped = dash
fmt_eta sec paused = dash
fmt_eta sec error = dash
fmt_eta sec _ = shown_eta sec

-- The last case needs fewer than 60 seconds, which the first takes.
unfoldable pub fmt_seconds_elapsed : ℕ → Shown
fmt_seconds_elapsed s =
    if ltb s 60
    then just_started
    else if ltb 0 (s / 3600 / 24)
    then days_hours (s / 3600 / 24) (s / 3600 % 24)
    else if ltb 0 (s / 3600)
    then hours_minutes (s / 3600) (s % 3600 / 60)
    else if ltb 0 (s % 3600 / 60)
    then minutes_seconds (s % 3600 / 60) (s % 60)
    else seconds (s % 60)

-- The first argument is the time of day; a time ahead of it gives a negative number, below 60.
unfoldable pub fmt_time_elapsed : ℕ → ℕ → Shown
unfolding fmt_seconds_elapsed
fmt_time_elapsed now added_at_ms =
    if leb added_at_ms 0 then dash else fmt_seconds_elapsed ((now - added_at_ms) / 1000)

-- The loop `while (v > 1024 && i < units.length - 1)`, by the units left: `v` is the size over `scale`.
unfoldable pub unit_from : ℕ → ℕ → ℕ → ℕ → ℕ
unit_from zero scale bytes i = i
unit_from (suc left) scale bytes i =
    let rest = unit_from left (1024 * scale) bytes (suc i) in
    if ltb (1024 * scale) bytes then rest else i

-- `fmtBytes` has five units, from B to TB, and `fmtBytesPerSec` four, to GB/s.
unfoldable pub bytes_unit : ℕ → ℕ
unfolding unit_from
bytes_unit bytes = unit_from 4 1 bytes 0

unfoldable pub speed_unit : ℕ → ℕ
unfolding unit_from
speed_unit bps = unit_from 3 1 bps 0
