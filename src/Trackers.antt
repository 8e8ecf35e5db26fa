-- ===== src/Trackers.antt =====
-- The rows of the inspector's trackers (ui/desktop/src/renderer/components/inspector/TrackersTab.tsx): their order,
-- their types, the sums above them and the times that they show. `localeCompare` is an argument; times are in
-- milliseconds.
pub mod Rows
pub mod Times
pub mod Scheme
mod Tests
use orc_torrent.Prelude.{
  ℕ, suc, ◌+◌, ◌-◌, ◌/◌, Bool, true, false, ◌||◌, Option, none, some, List, [], ◌∷◌, length, ltb,
  ◌==◌, if◌then◌else◌,
}
use orc_torrent.Prelude.Codes.{Text, codes, starts_with, includes}
use orc_torrent.Prelude.Sorting.{Sign, compare_numbers, on_key, flipped, sort_by}
use orc_torrent.Country.{same_text}
use orc_torrent.Peers.{SortDirection, asc, desc, or_zero, opposite, one_if}

pub data TrackerStatus : Type 0 where
  unknown working updating error not_working disabled : TrackerStatus

pub record Tracker : Type 0 where
  pub url : Text
  pub status : TrackerStatus
  pub seeders : Option ℕ
  pub leechers : Option ℕ
  pub last_announce_ms : Option ℕ

pub data SortField : Type 0 where
  url_field status_field seeders_field leechers_field last_announce_field : SortField

abbrev pub status_order : TrackerStatus → ℕ
status_order working = 0
status_order updating = 1
status_order unknown = 2
status_order error = 3
status_order not_working = 3
status_order disabled = 4

-- `?? -1`, one more for each number
abbrev pub or_minus_one : Option ℕ → ℕ
or_minus_one none = 0
or_minus_one (some n) = suc n

unfoldable pub compare_column : (Text → Text → Sign) → SortField → Tracker → Tracker → Sign
compare_column locale url_field = on_key (λ (t : Tracker). t.url) locale
compare_column locale status_field = on_key (λ (t : Tracker). status_order t.status) compare_numbers
compare_column locale seeders_field =
    on_key (λ (t : Tracker). or_minus_one t.seeders) compare_numbers
compare_column locale leechers_field =
    on_key (λ (t : Tracker). or_minus_one t.leechers) compare_numbers
compare_column locale last_announce_field =
    on_key (λ (t : Tracker). or_zero t.last_announce_ms) compare_numbers

unfoldable pub compare_trackers :
    (Text → Text → Sign) → SortField → SortDirection → Tracker → Tracker → Sign
unfolding compare_column
compare_trackers locale field asc = compare_column locale field
compare_trackers locale field desc = flipped (compare_column locale field)

unfoldable pub sorted_trackers :
    (Text → Text → Sign) → SortField → SortDirection → List Tracker → List Tracker
unfolding compare_trackers
sorted_trackers locale field direction trackers =
    sort_by (compare_trackers locale field direction) trackers

abbrev pub column_number : SortField → ℕ
column_number url_field = 0
column_number status_field = 1
column_number seeders_field = 2
column_number leechers_field = 3
column_number last_announce_field = 4

unfoldable pub sort_column : SortField → SortField × SortDirection → SortField × SortDirection
sort_column field (current, direction) =
    if column_number current == column_number field
    then (current, opposite direction)
    else (field, asc)

pub data TrackerType : Type 0 where
  http udp wss dht : TrackerType

unfoldable pub get_tracker_type : Text → TrackerType
get_tracker_type url =
    if starts_with (codes "udp://") url
    then udp
    else if starts_with (codes "wss://") url || starts_with (codes "ws://") url
    then wss
    else if same_text url (codes "** DHT **") || includes (codes "dht") url
    then dht
    else http

abbrev pub is_working : TrackerStatus → Bool
is_working working = true
is_working _ = false

abbrev pub has_failed : TrackerStatus → Bool
has_failed error = true
has_failed not_working = true
has_failed _ = false

pub record Stats : Type 0 where
  pub working : ℕ
  pub error : ℕ
  pub total_seeders : ℕ
  pub total_leechers : ℕ
  pub total : ℕ

unfoldable pub tracker_stats : List Tracker → Stats
tracker_stats [] = record {
  working = 0;
  error = 0;
  total_seeders = 0;
  total_leechers = 0;
  total = 0;
}
tracker_stats (t ∷ trackers) =
    let rest = tracker_stats trackers in
    record {
      working = one_if (is_working t.status) + rest.working;
      error = one_if (has_failed t.status) + rest.error;
      total_seeders = or_zero t.seeders + rest.total_seeders;
      total_leechers = or_zero t.leechers + rest.total_leechers;
      total = suc rest.total;
    }

-- what a row shows of a time
pub data Shown : Type 0 where
  dash just_now : Shown
  in_seconds in_minutes in_hours : ℕ → Shown
  minutes_ago hours_ago days_ago : ℕ → Shown

-- `Math.ceil(a / b)`
abbrev pub ceil_div : ℕ → ℕ → ℕ
ceil_div a b = (a + (b - 1)) / b

unfoldable pub in_time : ℕ → Shown
in_time ahead =
    if ltb ahead 60000
    then in_seconds (ceil_div ahead 1000)
    else if ltb ahead 3600000
    then in_minutes (ceil_div ahead 60000)
    else in_hours (ahead / 3600000)

unfoldable pub ago : ℕ → Shown
ago diff =
    if ltb diff 60000
    then just_now
    else if ltb diff 3600000
    then minutes_ago (diff / 60000)
    else if ltb diff 86400000
    then hours_ago (diff / 3600000)
    else days_ago (diff / 86400000)

-- The first argument is the time of day.
unfoldable pub format_timestamp : ℕ → Option ℕ → Shown
unfolding in_time ago
format_timestamp now none = dash
format_timestamp now (some ms) = if ltb now ms then in_time (ms - now) else ago (now - ms)
