-- ===== src/Format/Elapsed.antt =====
-- The elapsed time that is shown (ui/desktop/src/renderer/utils/format.ts).
use orc_torrent.Prelude.{ℕ, ◌-◌, ◌/◌, ◌<◌, ◌≡◌, arith, leb, false}
use orc_torrent.Format.{fmt_seconds_elapsed, fmt_time_elapsed}
use orc_torrent.Format.Eta.{Says}

lt→leb_false : (n : ℕ) → 0 < n → leb n 0 ≡ false
lt→leb_false n h = ground (arith, h)

seconds_elapsed-Says : (s : ℕ) → Says (fmt_seconds_elapsed s) s
unfolding fmt_seconds_elapsed
seconds_elapsed-Says s = ground arith

-- The time since a torrent was added is shown to the hour from a day on, to the minute from an hour on and to the
-- second from a minute on, rounded down, and as just started below a minute or where it lies ahead.
pub fmt_time_elapsed-Says :
    (now added_at_ms : ℕ)
    → 0 < added_at_ms
    → Says (fmt_time_elapsed now added_at_ms) ((now - added_at_ms) / 1000)
unfolding fmt_time_elapsed
fmt_time_elapsed-Says now added_at_ms h =
    rw (lt→leb_false added_at_ms h) (seconds_elapsed-Says ((now - added_at_ms) / 1000))
