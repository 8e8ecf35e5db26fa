-- ===== src/Vpn/Tests.antt =====
-- Runs of the check for a VPN, and its theorems at concrete inputs.
use orc_torrent.Prelude.{◌≡◌, refl, arith, true, false, none, some, [], ◌∷◌, map}
use orc_torrent.Prelude.Codes.{Text, codes, starts_with, includes, to_lower}
use orc_torrent.Types.{downloading}
use orc_torrent.KillSwitch.{View, Watch, vpn_status_best_effort, watch_vpn}
use orc_torrent.KillSwitch.Drops.{Has, stopped}
use orc_torrent.Vpn.{Interface, detect_vpn, matches_pattern, is_vpn_name}
use orc_torrent.Vpn.Kept.{tun_keeps_going}

abbrev lower : Text → Text
lower s = map to_lower s

private_access : matches_pattern (codes "Private Internet Access") ≡ true
unfolding matches_pattern starts_with includes
private_access = refl

-- `tun` alone wants a digit.
no_digit : matches_pattern (codes "tun") ≡ false
unfolding matches_pattern starts_with includes
no_digit = refl

ethernet : Interface
ethernet = record { name = codes "Ethernet"; addresses = 2 }

abbrev neptune : Interface
neptune = record { name = codes "Neptune LAN"; addresses = 1 }

elsewhere : (detect_vpn false lower (neptune ∷ [])).detected ≡ false
unfolding detect_vpn is_vpn_name matches_pattern starts_with includes
elsewhere = refl

abbrev view : View
view = record {
  enabled = true;
  vpn = some (
      vpn_status_best_effort none
        (some (detect_vpn true lower (ethernet ∷ neptune ∷ [])).detected));
  torrents = "a" ∷ [];
  statuses = ("a", downloading) ∷ [];
}

abbrev watch_state : Watch
watch_state = record { active = false; previous = some (vpn_status_best_effort none (some true)) }

tun_keeps_going_example : ¬ Has "a" (stopped (watch_vpn view watch_state).1)
tun_keeps_going_example =
    tun_keeps_going lower (ethernet ∷ []) neptune [] (codes "nep") (codes "e lan") view watch_state
      "a" (omega arith) refl refl
