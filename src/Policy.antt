-- ===== src/Policy.antt =====
-- The policy that the settings edit (ui/desktop/src/renderer: types/policy.ts, utils/usePolicy.ts and the handlers
-- of components/SecuritySettings.tsx). Of a policy state the desired policy is kept.
pub mod Profiles
pub mod Merge
pub mod Hook
pub mod Stale
pub mod Loading
mod Tests
use orc_torrent.Prelude.{ℕ, Bool, true, false, not, Option, none, some, ◌==◌, if◌then◌else◌}

pub data TriState : Type 0 where
  off prefer require : TriState

pub data PaddingLevel : Type 0 where
  no_padding low high : PaddingLevel

pub data PolicyProfile : Type 0 where
  standard hardened anonymous : PolicyProfile

pub record DesiredPolicy : Type 0 where
  pub anonymous_mode : Bool
  pub peer_encryption : TriState
  pub dht_hardening : Bool
  pub enforce_private_torrents : Bool
  pub ip_blocklist : Bool
  pub kill_switch : Bool
  pub bind_interface_only : Bool
  pub overlay_padding : PaddingLevel
  pub sybil_resistance : Bool
  pub relay_pow_required : Bool
  pub relay_subnet_diversity : Bool
  pub relay_reputation_weighting : Bool
  pub ipv6_enabled : Bool
  pub upnp_natpmp_enabled : Bool
  pub circuit_rotation_enabled : Bool
  pub deny_direct_exits : Bool
  pub minimize_fingerprinting : Bool
  pub profile : Option PolicyProfile

abbrev pub is_standard : PolicyProfile → Bool
is_standard standard = true
is_standard _ = false

abbrev pub is_anonymous : PolicyProfile → Bool
is_anonymous anonymous = true
is_anonymous _ = false

abbrev pub padding_of : PolicyProfile → PaddingLevel
padding_of standard = no_padding
padding_of _ = low

-- `profilePolicy`
unfoldable pub profile_policy : PolicyProfile → DesiredPolicy
profile_policy p = record {
  anonymous_mode = is_anonymous p;
  peer_encryption = if is_standard p then prefer else require;
  dht_hardening = not (is_standard p);
  enforce_private_torrents = true;
  ip_blocklist = not (is_standard p);
  kill_switch = not (is_standard p);
  bind_interface_only = not (is_standard p);
  overlay_padding = padding_of p;
  sybil_resistance = not (is_standard p);
  relay_pow_required = not (is_standard p);
  relay_subnet_diversity = not (is_standard p);
  relay_reputation_weighting = not (is_standard p);
  ipv6_enabled = not (is_anonymous p);
  upnp_natpmp_enabled = not (is_anonymous p);
  circuit_rotation_enabled = is_anonymous p;
  deny_direct_exits = is_anonymous p;
  minimize_fingerprinting = is_anonymous p;
  profile = some p;
}

-- the settings that are on or off
pub data Flag : Type 0 where
  f_anonymous_mode f_dht_hardening f_enforce_private_torrents f_ip_blocklist f_kill_switch
        f_bind_interface_only f_sybil_resistance f_relay_pow_required f_relay_subnet_diversity
        f_relay_reputation_weighting f_ipv6_enabled f_upnp_natpmp_enabled f_circuit_rotation_enabled
        f_deny_direct_exits f_minimize_fingerprinting :
      Flag

abbrev pub flag_number : Flag → ℕ
flag_number f_anonymous_mode = 0
flag_number f_dht_hardening = 1
flag_number f_enforce_private_torrents = 2
flag_number f_ip_blocklist = 3
flag_number f_kill_switch = 4
flag_number f_bind_interface_only = 5
flag_number f_sybil_resistance = 6
flag_number f_relay_pow_required = 7
flag_number f_relay_subnet_diversity = 8
flag_number f_relay_reputation_weighting = 9
flag_number f_ipv6_enabled = 10
flag_number f_upnp_natpmp_enabled = 11
flag_number f_circuit_rotation_enabled = 12
flag_number f_deny_direct_exits = 13
flag_number f_minimize_fingerprinting = 14

abbrev pub same_flag : Flag → Flag → Bool
same_flag a b = flag_number a == flag_number b

abbrev pub get_flag : Flag → DesiredPolicy → Bool
get_flag f_anonymous_mode d = d.anonymous_mode
get_flag f_dht_hardening d = d.dht_hardening
get_flag f_enforce_private_torrents d = d.enforce_private_torrents
get_flag f_ip_blocklist d = d.ip_blocklist
get_flag f_kill_switch d = d.kill_switch
get_flag f_bind_interface_only d = d.bind_interface_only
get_flag f_sybil_resistance d = d.sybil_resistance
get_flag f_relay_pow_required d = d.relay_pow_required
get_flag f_relay_subnet_diversity d = d.relay_subnet_diversity
get_flag f_relay_reputation_weighting d = d.relay_reputation_weighting
get_flag f_ipv6_enabled d = d.ipv6_enabled
get_flag f_upnp_natpmp_enabled d = d.upnp_natpmp_enabled
get_flag f_circuit_rotation_enabled d = d.circuit_rotation_enabled
get_flag f_deny_direct_exits d = d.deny_direct_exits
get_flag f_minimize_fingerprinting d = d.minimize_fingerprinting

abbrev pub set_flag : Flag → Bool → DesiredPolicy → DesiredPolicy
set_flag f_anonymous_mode b d = record d { anonymous_mode = b }
set_flag f_dht_hardening b d = record d { dht_hardening = b }
set_flag f_enforce_private_torrents b d = record d { enforce_private_torrents = b }
set_flag f_ip_blocklist b d = record d { ip_blocklist = b }
set_flag f_kill_switch b d = record d { kill_switch = b }
set_flag f_bind_interface_only b d = record d { bind_interface_only = b }
set_flag f_sybil_resistance b d = record d { sybil_resistance = b }
set_flag f_relay_pow_required b d = record d { relay_pow_required = b }
set_flag f_relay_subnet_diversity b d = record d { relay_subnet_diversity = b }
set_flag f_relay_reputation_weighting b d = record d { relay_reputation_weighting = b }
set_flag f_ipv6_enabled b d = record d { ipv6_enabled = b }
set_flag f_upnp_natpmp_enabled b d = record d { upnp_natpmp_enabled = b }
set_flag f_circuit_rotation_enabled b d = record d { circuit_rotation_enabled = b }
set_flag f_deny_direct_exits b d = record d { deny_direct_exits = b }
set_flag f_minimize_fingerprinting b d = record d { minimize_fingerprinting = b }

-- `{ [key]: value }`
pub data Patch : Type 0 where
  flag : Flag → Bool → Patch
  encryption : TriState → Patch
  padding : PaddingLevel → Patch

-- `{ ...state.desired, ...patch }`
unfoldable pub merge : Patch → DesiredPolicy → DesiredPolicy
merge (flag f b) d = set_flag f b d
merge (encryption e) d = record d { peer_encryption = e }
merge (padding l) d = record d { overlay_padding = l }
