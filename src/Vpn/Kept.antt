-- ===== src/Vpn/Kept.antt =====
-- What detectVpn (ui/desktop/src/main/main.ts) means for the kill switch (ui/desktop/src/renderer:
-- lib/net/vpn.ts and utils/useVpnMonitoring.ts).
use orc_torrent.Prelude.{
  ◌<◌, lt→ltb, ◌≡◌, refl, arith, Bool, true, false, ◌&&◌, ◌||◌, none, some, List, [], ◌∷◌, ◌++◌,
  ltb, if-cases,
}
use Prim.Native.String.{String}
use orc_torrent.Prelude.Codes.{Text, codes, includes}
use orc_torrent.Prelude.Pieces.{includes-middle}
use orc_torrent.Vpn.{
  Interface, VpnStatus, is_vpn_name, detect_vpn, matches_pattern, includes_any, windows_words,
}
use orc_torrent.KillSwitch.{is_connected, vpn_status_best_effort, View, Watch, watch_vpn}
use orc_torrent.KillSwitch.Drops.{Has, stopped, watch_vpn-stops}

or-true : (b : Bool) → (b || true) ≡ true
or-true true = refl
or-true false = refl

tun_word : (s : Text) → includes (codes "tun") s ≡ true → includes_any windows_words s ≡ true
unfolding includes_any
tun_word s h = rw h (or-true (includes (codes "tap") s))

module _ (lower : Text → Text) where
  tunnel_name :
      (name a b : Text) → lower name ≡ a ++ (codes "tun" ++ b) → is_vpn_name true lower name ≡ true
  unfolding is_vpn_name
  tunnel_name name a b h =
      rw (tun_word (lower name) (rw h (includes-middle (codes "tun") a b)))
        (or-true (matches_pattern name))

  detects :
      (before : List Interface) (i : Interface) (after : List Interface)
      → 0 < i.addresses
      → is_vpn_name true lower i.name ≡ true
      → (detect_vpn true lower (before ++ (i ∷ after))).detected ≡ true
  unfolding detect_vpn
  detects [] i after h k = rw (lt→ltb 0 i.addresses h, k) refl
  detects (j ∷ before) i after h k =
      if-cases (λ (v : VpnStatus). v.detected ≡ true)
        (ltb 0 j.addresses && is_vpn_name true lower j.name) _ _ refl (detects before i after h k)

  -- On Windows, where the daemon gives no answer, an interface that has an address and whose name holds "tun" keeps
  -- the kill switch from stopping anything, whatever else the network looks like.
  pub tun_keeps_going :
      (before : List Interface) (i : Interface) (after : List Interface) (a b : Text) (v : View)
      (s : Watch) (id : String)
      → 0 < i.addresses
      → lower i.name ≡ a ++ (codes "tun" ++ b)
      → v.vpn
        ≡ some (
            vpn_status_best_effort none
              (some (detect_vpn true lower (before ++ (i ∷ after))).detected))
      → ¬ Has id (stopped (watch_vpn v s).1)
  unfolding is_connected vpn_status_best_effort
  tun_keeps_going before i after a b v s id h n e has =
      let d = detects before i after h (tunnel_name i.name a b n) in
      let off = (watch_vpn-stops v s id).0 has in
      let on : is_connected v.vpn ≡ true = rw (e, d) refl in ground (arith, off.2, on)
