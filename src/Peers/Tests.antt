-- ===== src/Peers/Tests.antt =====
-- Runs of the inspector's peers, and their theorems at concrete inputs.
use orc_torrent.Prelude.{
  ℕ, ◌≡◌, refl, Bool, true, false, Option, none, some, [], ◌∷◌, List, map, length,
}
use mathlib.Core.List.{Perm, Pairwise}
use orc_torrent.Prelude.Assoc.{nat_eq, list_eq, same_list, lookup}
use orc_torrent.Prelude.Codes.{Text, codes, includes, trim, is_space, to_lower}
use orc_torrent.Prelude.Sorting.{
  Sign, sort_by, compare_numbers, on_key, compare_numbers-IsComparison, on_key-IsComparison,
}
use orc_torrent.Country.{get_peer_country_info}
use orc_torrent.Peers.{
  Peer, down_field, ip_field, asc, desc, filtered_peers, filtered_by, matching_peers, matches,
  compare_peers, handle_sort, peer_stats,
}
use orc_torrent.Peers.Requests.{Tab, selects, ticks, settles, answers, run, step, late_answer_shown}
use orc_torrent.Peers.Rows.{Ordered, picked, tied, filtered_peers-sorted}
use orc_torrent.Peers.Shown.{Left}

abbrev peer : Text → ℕ → Bool → Peer
peer ip down choked = record {
  ip = ip;
  port = 6881;
  client = none;
  down_rate = down;
  up_rate = 0;
  uploaded = none;
  progress = none;
  snubbed = false;
  choked = choked;
  incoming = false;
  encrypted = false;
  country = none;
}

abbrev slow : Peer
slow = peer (codes "10.0.0.1") 5 true

abbrev fast : Peer
fast = peer (codes "9.9.9.9") 900 false

abbrev idle : Peer
idle = peer (codes "10.0.0.2") 0 false

-- texts by their lengths
abbrev by_length : Text → Text → Sign
by_length = on_key length compare_numbers

abbrev lower : Text → Text
lower s = map to_lower s

abbrev no_name : Text → Option Text
no_name s = none

sorts_down :
    filtered_peers lower lower no_name by_length [] down_field desc (slow ∷ fast ∷ idle ∷ [])
    ≡ fast ∷ slow ∷ idle ∷ []
unfolding filtered_peers compare_peers sort_by
sorts_down = refl

filters_address :
    filtered_peers lower lower no_name by_length
      (codes "10.")
      down_field
      asc
      (slow ∷ fast ∷ idle ∷ [])
    ≡ idle ∷ slow ∷ []
unfolding filtered_peers compare_peers sort_by matching_peers includes trim get_peer_country_info
    list_eq same_list is_space
filters_address = refl

filters_local :
    length (filtered_by lower lower no_name (codes "network") (slow ∷ fast ∷ idle ∷ [])) ≡ 2
unfolding matching_peers matches includes trim get_peer_country_info list_eq same_list is_space
filters_local = refl

second_click : handle_sort down_field (handle_sort down_field (ip_field, asc)) ≡ (down_field, asc)
unfolding handle_sort
second_click = refl

own_rates : (peer_stats (some (7, 3)) (idle ∷ [])).display_down ≡ 7
unfolding peer_stats
own_rates = refl

filtered_peers-sorted_example :
    (let rows =
        filtered_peers lower lower no_name by_length
          (codes "10.")
          down_field
          desc
          (slow ∷ fast ∷ idle ∷ []) in
      (left : List Peer) × Left lower lower no_name (codes "10.") (slow ∷ fast ∷ idle ∷ []) left
      × Perm rows left
      × Pairwise (Ordered by_length down_field desc) rows
      × ((z : Peer)
          → picked (tied by_length down_field z) rows ≡ picked (tied by_length down_field z) left))
filtered_peers-sorted_example =
    filtered_peers-sorted lower lower no_name by_length
      (on_key-IsComparison length compare_numbers compare_numbers-IsComparison) (codes "10.")
      down_field desc (slow ∷ fast ∷ idle ∷ [])

abbrev tab : Tab
tab = record {
  torrent = "a";
  online = true;
  peers = [];
  loading = true;
  requests = (1, "a") ∷ [];
  next = 2;
  errors = 0;
}

asked : lookup 1 tab.requests ≡ some "a"
unfolding lookup
asked = refl

late_answer_shown_example :
    (let t = run (ticks ∷ settles 2 (answers (some [])) ∷ []) (step (selects "b") tab) in
      let u = step (settles 1 (answers (some (slow ∷ [])))) t in
      (u.torrent ≡ "b") × (u.peers ≡ slow ∷ []))
late_answer_shown_example =
    late_answer_shown 1 "a" "b" (ticks ∷ settles 2 (answers (some [])) ∷ []) (slow ∷ []) tab asked
      refl
