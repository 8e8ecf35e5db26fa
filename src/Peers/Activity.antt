-- ===== src/Peers/Activity.antt =====
-- The label of a peer and its place in the order by status
-- (ui/desktop/src/renderer/components/inspector/PeersTab.tsx).
use orc_torrent.Prelude.{◌≡◌, ◌<◌, ◌⊎◌, arith, true, false}
use orc_torrent.Peers.{Peer, is_active, is_downloading, activity_score, get_peer_status}

-- Among peers that answer, one that chokes us and yet transfers is labelled as transferring, but by its score it
-- stands below every peer that does not choke us, also below one labelled idle.
pub choked_transfer_below :
    (p q : Peer)
    → p.snubbed ≡ false
    → p.choked ≡ true
    → 0 < p.down_rate
    → q.snubbed ≡ false
    → q.choked ≡ false
    → ((get_peer_status p ≡ is_active) ⊎ (get_peer_status p ≡ is_downloading))
      × (activity_score p < activity_score q)
unfolding get_peer_status
choked_transfer_below p q h k j i g = (ground (arith, h, k, j), ground (arith, h, k, i, g))
