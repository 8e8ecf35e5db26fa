-- ===== src/Vpn/Found.antt =====
-- What detectVpn finds (ui/desktop/src/main/main.ts).
use orc_torrent.Prelude.{
  ◌≡◌, refl, ap, Bool, true, false, ◌&&◌, none, some, List, [], ◌∷◌, ◌++◌, All, ltb, if◌then◌else◌,
  inl, inr, ◌⊎◌,
}
use orc_torrent.Prelude.Codes.{Text}
use orc_torrent.Vpn.{Interface, VpnStatus, is_vpn_name, detect_vpn}

module _ (is_windows : Bool) (lower : Text → Text) where
  -- An interface that counts as a VPN's: it has an address, and a name of the kind.
  abbrev pub counts : Interface → Bool
  counts i = ltb 0 i.addresses && is_vpn_name is_windows lower i.name

  -- The interface that counts, with none before it that does.
  abbrev pub First : List Interface → Text → Type 0
  First interfaces name =
      (before : List Interface) × (i : Interface) × (after : List Interface) × (interfaces
        ≡ before ++ (i ∷ after))
      × All (λ j. counts j ≡ false) before
      × (counts i ≡ true)
      × (i.name ≡ name)

  abbrev pub Reports : List Interface → VpnStatus → Type 0
  Reports interfaces v =
      ((v.detected ≡ false) × (v.interface_name ≡ none) × All (λ j. counts j ≡ false) interfaces)
      ⊎ ((v.detected ≡ true)
          × ((name : Text) × (v.interface_name ≡ some name) × First interfaces name))

  skip-Reports :
      (i : Interface) (interfaces : List Interface) (v : VpnStatus)
      → counts i ≡ false
      → Reports interfaces v
      → Reports (i ∷ interfaces) v
  skip-Reports i interfaces v h (inl (d, n, a)) = inl (d, n, (h, a))
  skip-Reports i interfaces v h
        (inr (d, (name, n, (before, j, after, split, missed, hit, named)))) =
      inr (d, (name, n, (i ∷ before, j, after, ap (λ l. i ∷ l) split, (h, missed), hit, named)))

  detect_by :
      (i : Interface) (interfaces : List Interface) (v : VpnStatus) (b : Bool)
      → counts i ≡ b
      → Reports interfaces v
      → Reports
          (i ∷ interfaces)
          (if b then record { detected = true; interface_name = some i.name } else v)
  detect_by i interfaces v true h r =
      inr (refl, (i.name, refl, ([], i, interfaces, refl, tt, h, refl)))
  detect_by i interfaces v false h r = skip-Reports i interfaces v h r

  -- The status tells of the first interface that has an address and the name of a VPN's, and of no VPN where there is
  -- none.
  pub detect_vpn-Reports :
      (interfaces : List Interface) → Reports interfaces (detect_vpn is_windows lower interfaces)
  unfolding detect_vpn
  detect_vpn-Reports [] = inl (refl, refl, tt)
  detect_vpn-Reports (i ∷ interfaces) =
      detect_by i interfaces (detect_vpn is_windows lower interfaces) (counts i) refl
        (detect_vpn-Reports interfaces)
