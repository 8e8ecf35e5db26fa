-- ===== src/Vpn.antt =====
-- The check of the network interfaces for a VPN (detectVpn of ui/desktop/src/main/main.ts). `os.networkInterfaces`,
-- the platform and `toLowerCase` are arguments; of the addresses of an interface their number is kept. Text is
-- the list of its code units.
pub mod Found
pub mod Kept
mod Tests
use orc_torrent.Prelude.{
  ℕ, Bool, true, false, ◌&&◌, ◌||◌, Option, none, some, List, [], ◌∷◌, map, drop, length, ltb, ◌==◌,
  if◌then◌else◌,
}
use orc_torrent.Prelude.Codes.{Text, codes, starts_with, includes, is_digit, to_lower}

pub record Interface : Type 0 where
  pub name : Text
  pub addresses : ℕ

pub record VpnStatus : Type 0 where
  pub detected : Bool
  pub interface_name : Option Text

-- a text and a digit at the start: `/^tun\d+/i` and its like
abbrev pub first_is_digit : Text → Bool
first_is_digit [] = false
first_is_digit (c ∷ s) = is_digit c

unfoldable pub numbered : Text → Text → Bool
numbered p s = starts_with p s && first_is_digit (drop (length p) s)

-- what `.` passes: all up to a line terminator
unfoldable pub first_line : Text → Text
first_line [] = []
first_line (c ∷ s) =
    let rest = first_line s in
    if c == 10 || c == 13 || c == 0x2028 || c == 0x2029 then [] else c ∷ rest

-- `/private.*internet/i`
unfoldable pub private_internet : Text → Bool
unfolding first_line
private_internet [] = false
private_internet (c ∷ s) =
    let rest = private_internet s in
    starts_with (codes "private") (c ∷ s) && includes (codes "internet") (first_line (drop 6 s))
    || rest

-- does a text hold one of these?
unfoldable pub includes_any : List Text → Text → Bool
includes_any [] s = false
includes_any (q ∷ qs) s = includes q s || includes_any qs s

unfoldable pub numbered_any : List Text → Text → Bool
unfolding numbered
numbered_any [] s = false
numbered_any (p ∷ ps) s = numbered p s || numbered_any ps s

abbrev pub numbered_names : List Text
numbered_names = codes "tun" ∷ codes "tap" ∷ codes "wg" ∷ codes "utun" ∷ codes "ppp" ∷ []

abbrev pub vpn_words : List Text
vpn_words =
    codes "vpn"
    ∷ codes "tunnel"
    ∷ codes "nordlynx"
    ∷ codes "openvpn"
    ∷ codes "wireguard"
    ∷ codes "proton"
    ∷ codes "expressvpn"
    ∷ codes "surfshark"
    ∷ codes "mullvad"
    ∷ codes "nordvpn"
    ∷ codes "cyberghost"
    ∷ codes "pia"
    ∷ codes "tailscale"
    ∷ codes "wintun"
    ∷ []

-- The patterns ignore the case of ASCII letters.
unfoldable pub matches_pattern : Text → Bool
unfolding numbered_any includes_any private_internet
matches_pattern name =
    let s = map to_lower name in
    numbered_any numbered_names s || private_internet s || includes_any vpn_words s

abbrev pub windows_words : List Text
windows_words =
    codes "tap"
    ∷ codes "tun"
    ∷ codes "vpn"
    ∷ codes "tunnel"
    ∷ codes "mullvad"
    ∷ codes "nordvpn"
    ∷ codes "wireguard"
    ∷ codes "openvpn"
    ∷ codes "wintun"
    ∷ []

module _ (is_windows : Bool) (lower : Text → Text) where
  unfoldable pub is_vpn_name : Text → Bool
  is_vpn_name name = matches_pattern name || is_windows && includes_any windows_words (lower name)

  unfoldable pub detect_vpn : List Interface → VpnStatus
  detect_vpn [] = record { detected = false; interface_name = none }
  detect_vpn (i ∷ interfaces) =
      let rest = detect_vpn interfaces in
      if ltb 0 i.addresses && is_vpn_name i.name
      then record { detected = true; interface_name = some i.name }
      else rest
