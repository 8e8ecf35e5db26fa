-- ===== src/Files/Tests.antt =====
-- Runs of the inspector's files, and their theorems at concrete inputs.
use orc_torrent.Prelude.{ℕ, ◌≤◌, ◌≡◌, ◌==◌, refl, true, false, some, [], ◌∷◌, if◌then◌else◌}
use orc_torrent.Prelude.Assoc.{list_eq, nat_eq, same_list}
use orc_torrent.Prelude.Codes.{codes}
use orc_torrent.FileTree.Select.{split_path}
use orc_torrent.Files.{
  normal, high, api_priority, shown_priority, file, dir, Row, no_nodes, node, with_priority,
  find_file_node, Files, handle_priority_change, priority_then, tree, network_error, Loaded, load,
}
use orc_torrent.Files.Priorities.{handle_priority_change-sends}
use orc_torrent.Files.Loads.{Ends, load-Ends}

abbrev folder : Row
folder = record { id = dir (codes "d"); path = codes "d"; size = 0; priority = normal }

abbrev song : Row
song = record { id = file 0; path = codes "d/s"; size = 7; priority = normal }

abbrev files : Files
files = record {
  online = true;
  nodes = node folder (node song no_nodes no_nodes) no_nodes;
  loading = false;
  has_error = false;
  sent = [];
  invalidated = 0;
  updates = 0;
  errors = 0;
}

song_found : find_file_node (file 0) files.nodes ≡ some song
unfolding find_file_node list_eq same_list
song_found = refl

song_path : split_path (codes "d/s") ≡ codes "d" ∷ codes "s" ∷ []
unfolding split_path
song_path = refl

-- A refused change loads the list anew.
refused : (priority_then false files).loading ≡ true
unfolding priority_then
refused = refl

handle_priority_change-sends_example :
    (let t = handle_priority_change (file 0) high files in
      (find_file_node (file 0) t.nodes ≡ some (with_priority high song))
      × (t.sent ≡ (codes "d" ∷ codes "s" ∷ [], api_priority high) ∷ [])
      × (shown_priority (api_priority high) ≡ high))
handle_priority_change-sends_example =
    handle_priority_change-sends (file 0) high song (codes "d") (codes "s" ∷ []) files refl
      song_found song_path

abbrev second_time : ℕ → Loaded
second_time n = if n == 1 then tree no_nodes else network_error

second_fetches : (load second_time files).fetches ≡ 2
unfolding load
second_fetches = refl

load-Ends_example :
    (let r = load second_time files in
      (r.fetches ≤ 4) × (r.waited ≤ 7000) × Ends 3 0 second_time files r)
load-Ends_example = load-Ends second_time files
