-- ===== src/Format/Tests.antt =====
-- Runs of the formats, and their theorems at concrete inputs.
use orc_torrent.Prelude.{◌≡◌, refl, some}
use orc_torrent.Format.{
  downloading, stopped, dash, just_started, hours_minutes, fmt_eta, fmt_time_elapsed, bytes_unit,
}

hour : fmt_eta (some 3661) downloading ≡ hours_minutes 1 1
unfolding fmt_eta
hour = refl

paused : fmt_eta (some 3661) stopped ≡ dash
unfolding fmt_eta
paused = refl

-- 1024 bytes are still shown in bytes.
kilobyte : bytes_unit 1024 ≡ 0
unfolding bytes_unit
kilobyte = refl

ahead : fmt_time_elapsed 5 9 ≡ just_started
unfolding fmt_time_elapsed
ahead = refl
