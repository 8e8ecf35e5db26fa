-- ===== src/Trackers/Scheme.antt =====
-- The type that a tracker's row shows (ui/desktop/src/renderer/components/inspector/TrackersTab.tsx).
use orc_torrent.Prelude.{◌≡◌, refl, arith, true, [], ◌∷◌, ◌++◌}
use orc_torrent.Prelude.Assoc.{list_eq, nat_eq, same_list}
use orc_torrent.Prelude.Codes.{Text, codes, starts_with, includes}
use orc_torrent.Trackers.{dht, get_tracker_type}

includes-dht : (a b : Text) → includes (codes "dht") (a ++ (codes "dht" ++ b)) ≡ true
unfolding includes starts_with
includes-dht [] b = refl
includes-dht (c ∷ a) b = ground (arith, includes-dht a b)

-- A tracker that is reached over HTTP or HTTPS is shown as DHT where its address holds "dht".
pub http_shown_as_dht :
    (a b : Text)
    → (get_tracker_type (codes "http://" ++ (a ++ (codes "dht" ++ b))) ≡ dht)
      × (get_tracker_type (codes "https://" ++ (a ++ (codes "dht" ++ b))) ≡ dht)
unfolding get_tracker_type starts_with list_eq same_list
http_shown_as_dht a b = (
  rw (includes-dht (codes "http://" ++ a) b) refl,
  rw (includes-dht (codes "https://" ++ a) b) refl,
)
