-- ===== src/KillSwitch/Drops.antt =====
-- The kill switch of ui/desktop/src/renderer/utils/useVpnMonitoring.ts: when it stops torrents, and
-- which.
use orc_torrent.Prelude.{◌≡◌, ◌↔◌, ◌⊎◌, refl, arith, true, false, none, some, List, [], ◌∷◌, All}
use Prim.Native.String.{String}
use orc_torrent.Prelude.Assoc.{string_eq}
use orc_torrent.Types.{State}
use mathlib.Core.Path.{subst, sym}
use orc_torrent.KillSwitch.{
  is_connected, View, Watch, Action, stops, is_running, running_ids, drop_actions, watch_vpn, watch,
  vpn_status_best_effort,
}

-- The id stands in the list.
abbrev pub Has : String → List String → Type 0
Has id [] = ⊥
Has id (j ∷ ids) = (j ≡ id) ⊎ Has id ids

running_ids-Has :
    (statuses : List (String × State)) (id : String) (ids : List String)
    → Has id (running_ids statuses ids) ↔ (Has id ids × (is_running statuses id ≡ true))
unfolding running_ids
running_ids-Has statuses id [] = ground arith
running_ids-Has statuses id (j ∷ ids) = ground (arith, running_ids-Has statuses id ids)

-- the torrents that a run of the effect stops
abbrev pub stopped : List Action → List String
stopped (stops ids ∷ rest) = ids
stopped _ = []

drop_actions-stopped : (ids : List String) → stopped (drop_actions ids) ≡ ids
unfolding drop_actions
drop_actions-stopped [] = refl
drop_actions-stopped (id ∷ ids) = refl

-- A run of the effect stops a torrent exactly if the kill switch is on, the VPN was connected at the
-- run before and is not now, and the torrent is listed and downloads or seeds.
pub watch_vpn-stops :
    (v : View) (s : Watch) (id : String)
    → Has id (stopped (watch_vpn v s).1) ↔ (
        (v.enabled ≡ true)
        × (is_connected s.previous ≡ true)
        × (is_connected v.vpn ≡ false)
        × Has id v.torrents
        × (is_running v.statuses id ≡ true))
unfolding watch_vpn
watch_vpn-stops v s id = ground (
  arith,
  drop_actions-stopped (running_ids v.statuses v.torrents),
  running_ids-Has v.statuses id v.torrents,
)

watch_vpn-previous : (v : View) (s : Watch) → (watch_vpn v s).0.previous ≡ v.vpn
unfolding watch_vpn
watch_vpn-previous v s = ground arith

watch_vpn-active :
    (v : View) (s : Watch)
    → (s.active ≡ true → is_connected s.previous ≡ false)
    → (watch_vpn v s).0.active ≡ true
    → is_connected (watch_vpn v s).0.previous ≡ false
unfolding watch_vpn
watch_vpn-active v s h a = ground (arith, h, a)

-- Nothing is stopped while the VPN stays away: where it was not connected at the run before and is not
-- in any of the views that follow, no run stops a torrent, whatever is started in the meantime and
-- whenever the kill switch is turned on.
pub watch-stops_nothing :
    (vs : List View) (s : Watch)
    → is_connected s.previous ≡ false
    → All (λ v. is_connected v.vpn ≡ false) vs
    → All (λ actions. stopped actions ≡ []) (watch vs s).1
unfolding watch watch_vpn
watch-stops_nothing [] s p h = tt
watch-stops_nothing (v ∷ vs) s p h = (
  ground (arith, h.0, p),
  watch-stops_nothing vs (watch_vpn v s).0
      (subst (λ x. is_connected x ≡ false) (sym (watch_vpn-previous v s)) h.0) h.1,
)

-- The switch counts as active only while the VPN is away: over every sequence of runs of the effect, if
-- the flag is set, the status that the last run saw was not connected.
pub watch-active :
    (vs : List View) (s : Watch)
    → (s.active ≡ true → is_connected s.previous ≡ false)
    → (watch vs s).0.active ≡ true
    → is_connected (watch vs s).0.previous ≡ false
unfolding watch
watch-active [] s p = p
watch-active (v ∷ vs) s p = watch-active vs (watch_vpn v s).0 (watch_vpn-active v s p)

-- The kill switch is fail-safe: where the VPN was connected and it is on, and neither the daemon nor
-- Electron's check answers, the effect stops every listed torrent that downloads or seeds.
pub no_answer_stops :
    (v : View) (s : Watch) (id : String)
    → v.enabled ≡ true
    → is_connected s.previous ≡ true
    → v.vpn ≡ some (vpn_status_best_effort none none)
    → Has id v.torrents
    → is_running v.statuses id ≡ true
    → Has id (stopped (watch_vpn v s).1)
unfolding vpn_status_best_effort is_connected
no_answer_stops v s id e p q h r =
    let u : is_connected v.vpn ≡ false = subst (λ x. is_connected x ≡ false) (sym q) refl in
    (watch_vpn-stops v s id).1 (e, p, u, h, r)
