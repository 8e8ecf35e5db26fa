-- ===== src/Trackers/Tests.antt =====
-- Runs of the inspector's trackers, and their theorems at concrete inputs.
use orc_torrent.Prelude.{ℕ, ◌≡◌, refl, Option, none, some, List, [], ◌∷◌, length}
use orc_torrent.Prelude.Assoc.{list_eq, nat_eq, same_list}
use orc_torrent.Prelude.Codes.{Text, codes, starts_with, includes}
use orc_torrent.Prelude.Sorting.{Sign, sort_by, compare_numbers, on_key}
use orc_torrent.Peers.{asc}
use orc_torrent.Trackers.{
  Tracker, TrackerStatus, working, disabled, unknown, seeders_field, sorted_trackers, tracker_stats,
  get_tracker_type, http, format_timestamp, in_seconds,
}

abbrev tracker : Text → TrackerStatus → Option ℕ → Tracker
tracker url status seeders = record {
  url = url;
  status = status;
  seeders = seeders;
  leechers = none;
  last_announce_ms = none;
}

abbrev three : List Tracker
three =
    tracker (codes "a") disabled none
    ∷ tracker (codes "b") working (some 0)
    ∷ tracker (codes "c") unknown (some 9)
    ∷ []

abbrev by_length : Text → Text → Sign
by_length = on_key length compare_numbers

-- No count comes before a count of none.
by_seeders : sorted_trackers by_length seeders_field asc three ≡ three
unfolding sorted_trackers sort_by
by_seeders = refl

seeders : (tracker_stats three).total_seeders ≡ 9
unfolding tracker_stats
seeders = refl

plain_http : get_tracker_type (codes "http://a") ≡ http
unfolding get_tracker_type starts_with includes list_eq same_list
plain_http = refl

sixty_seconds : format_timestamp 0 (some 59001) ≡ in_seconds 60
unfolding format_timestamp
sixty_seconds = refl
