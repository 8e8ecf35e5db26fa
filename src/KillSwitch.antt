-- ===== src/KillSwitch.antt =====
-- The effect of utils/useVpnMonitoring.ts (ui/desktop/src/renderer) that watches the VPN for the kill
-- switch, and lib/net/vpn.ts, where the status comes from. Of a status the code reads the posture,
-- whether the connection is a VPN's, and whether `detected` is true.
pub mod Drops
mod Tests
use orc_torrent.Prelude.{
  ℕ, Bool, true, false, not, ◌&&◌, ◌||◌, Option, none, some, List, [], ◌∷◌, length, ltb,
  if◌then◌else◌,
}
use Prim.Native.String.{String}
use orc_torrent.Prelude.Assoc.{string_eq, lookup}
use orc_torrent.Types.{State, is_active}

pub data Posture : Type 0 where
  connected disconnected checking unknown : Posture

pub record VpnStatus : Type 0 where
  pub posture : Posture
  pub is_vpn : Bool
  pub detected : Bool

abbrev pub is_connected_posture : Posture → Bool
is_connected_posture connected = true
is_connected_posture _ = false

-- `wasConnected` and `isConnected`: null is not connected
unfoldable pub is_connected : Option VpnStatus → Bool
is_connected none = false
is_connected (some v) = is_connected_posture v.posture && (v.is_vpn || v.detected)

abbrev is_unknown : Posture → Bool
is_unknown unknown = true
is_unknown _ = false

-- `getVpnStatusBestEffort`: what the daemon answers, what Electron's check answers
unfoldable pub vpn_status_best_effort : Option VpnStatus → Option Bool → VpnStatus
vpn_status_best_effort daemon electron =
    let fallback : VpnStatus = elim electron [
      | none ↦ record { posture = unknown; is_vpn = false; detected = false }
      | some d ↦ record {
        posture = if d then connected else disconnected;
        is_vpn = d;
        detected = d;
      }
    ] in
    elim daemon [ none ↦ fallback | some v ↦ if is_unknown v.posture then fallback else v ]

-- what the effect sees when it runs
pub record View : Type 0 where
  pub enabled : Bool
  pub vpn : Option VpnStatus
  pub torrents : List String
  pub statuses : List (String × State)

-- the two refs
pub record Watch : Type 0 where
  pub active : Bool
  pub previous : Option VpnStatus

-- what it does: `onStopTorrents`, `onError` with the count that its text names, `onInfo`
pub data Action : Type 0 where
  stops : List String → Action
  reports_drop : ℕ → Action
  reports_return : Action

abbrev pub is_running : List (String × State) → String → Bool
is_running statuses id = elim (lookup id statuses) [ none ↦ false | some s ↦ is_active s ]

-- the filter
pub running_ids : List (String × State) → List String → List String
running_ids statuses [] = []
running_ids statuses (id ∷ ids) =
    let rest = running_ids statuses ids in if is_running statuses id then id ∷ rest else rest

drop_actions : List String → List Action
drop_actions [] = reports_drop 0 ∷ []
drop_actions (id ∷ ids) = stops (id ∷ ids) ∷ reports_drop (length (id ∷ ids)) ∷ []

pub watch_vpn : View → Watch → Watch × List Action
unfolding is_connected running_ids drop_actions
watch_vpn v s =
    let was = is_connected s.previous in
    let is = is_connected v.vpn in
    let dropped = was && not is in
    if not v.enabled
    then (record { active = false; previous = v.vpn }, [])
    else if dropped
    then (
      record { active = true; previous = v.vpn },
      drop_actions (running_ids v.statuses v.torrents),
    )
    else if not was && is && s.active
    then (record { active = false; previous = v.vpn }, reports_return ∷ [])
    else (record { active = s.active; previous = v.vpn }, [])

pub initial : Watch
initial = record { active = false; previous = none }

-- the effect runs, one view after the other
pub watch : List View → Watch → Watch × List (List Action)
unfolding watch_vpn
watch [] s = (s, [])
watch (v ∷ vs) s = let (t, now) = watch_vpn v s in let (u, later) = watch vs t in (u, now ∷ later)
