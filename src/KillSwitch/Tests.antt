-- ===== src/KillSwitch/Tests.antt =====
-- The theorems about the kill switch at concrete views.
use orc_torrent.Prelude.{◌≡◌, ◌↔◌, refl, true, false, none, some, [], ◌∷◌}
use orc_torrent.Prelude.Assoc.{string_eq, lookup}
use orc_torrent.Types.{downloading}
use orc_torrent.KillSwitch.{
  connected, VpnStatus, is_connected, vpn_status_best_effort, View, Watch, is_running, watch_vpn,
  watch,
}
use orc_torrent.KillSwitch.Drops.{Has, stopped, watch_vpn-stops}

abbrev tunnel : VpnStatus
tunnel = record { posture = connected; is_vpn = true; detected = false }

abbrev safe : Watch
safe = record { active = false; previous = some tunnel }

abbrev dropped : View
dropped = record {
  enabled = true;
  vpn = some (vpn_status_best_effort none none);
  torrents = "a" ∷ [];
  statuses = ("a", downloading) ∷ [];
}

watch_vpn-stops_example : Has "a" (stopped (watch_vpn dropped safe).1) ↔ (
    (true ≡ true)
    × (is_connected (some tunnel) ≡ true)
    × (is_connected dropped.vpn ≡ false)
    × Has "a" ("a" ∷ [])
    × (is_running (("a", downloading) ∷ []) "a" ≡ true))
watch_vpn-stops_example = watch_vpn-stops dropped safe "a"

is_running-a : is_running dropped.statuses "a" ≡ true
unfolding lookup
is_running-a = refl

active_after : (watch (dropped ∷ []) safe).0.active ≡ true
unfolding watch watch_vpn is_connected vpn_status_best_effort
active_after = refl
