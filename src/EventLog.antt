-- ===== src/EventLog.antt =====
-- The history of events (ui/desktop/src/renderer): utils/eventService.ts, the list that ui/App.tsx keeps
-- with it, and the filters of components/EventsPage.tsx. `toLowerCase` is an argument.
pub mod Newest
pub mod Ids
pub mod Filters
pub mod Ages
mod Tests
use orc_torrent.Prelude.{
  ℕ, suc, ◌-◌, ◌*◌, ◌/◌, Bool, true, false, not, ◌&&◌, ◌||◌, Option, none, some, List, [], ◌∷◌,
  length, take, ltb, ◌==◌, if◌then◌else◌,
}
use orc_torrent.Prelude.Codes.{Text, trim, includes}

pub data EventType : Type 0 where
  disk_io hash_failure tracker_error vpn_kill_switch piece_verified torrent_added torrent_completed
        torrent_error torrent_started torrent_stopped peer_connected peer_disconnected :
      EventType

pub data EventSeverity : Type 0 where
  info warning error success : EventSeverity

-- their places in ALL_EVENT_TYPES and ALL_SEVERITIES
abbrev pub type_place : EventType → ℕ
type_place disk_io = 0
type_place hash_failure = 1
type_place tracker_error = 2
type_place vpn_kill_switch = 3
type_place piece_verified = 4
type_place torrent_added = 5
type_place torrent_completed = 6
type_place torrent_error = 7
type_place torrent_started = 8
type_place torrent_stopped = 9
type_place peer_connected = 10
type_place peer_disconnected = 11

abbrev pub severity_place : EventSeverity → ℕ
severity_place info = 0
severity_place warning = 1
severity_place error = 2
severity_place success = 3

-- without `torrentId` and `details`, which nothing here reads
pub record TorrentEvent : Type 0 where
  -- the two numbers of the id `evt_${Date.now()}_${++eventIdCounter}`
  pub id : ℕ × ℕ
  pub timestamp : ℕ
  pub type : EventType
  pub severity : EventSeverity
  pub message : Text
  pub torrent_name : Option Text

abbrev pub max_events : ℕ
max_events = 1000

unfoldable pub add_event : List TorrentEvent → TorrentEvent → List TorrentEvent
add_event events e =
    if ltb max_events (length (e ∷ events)) then take max_events (e ∷ events) else e ∷ events

-- `eventIdCounter`, and the `events` of the shell
pub record Log : Type 0 where
  pub counter : ℕ
  pub events : List TorrentEvent

pub record Draft : Type 0 where
  pub type : EventType
  pub severity : EventSeverity
  pub message : Text
  pub torrent_name : Option Text

-- `createEvent`, with the times that its two calls of `Date.now` give, and the counter after it
unfoldable pub create_event : ℕ → ℕ → Draft → ℕ → TorrentEvent × ℕ
create_event id_time now d counter = (
  record {
    id = (id_time, suc counter);
    timestamp = now;
    type = d.type;
    severity = d.severity;
    message = d.message;
    torrent_name = d.torrent_name;
  },
  suc counter,
)

pub data Change : Type 0 where
  pushes : (id_time now : ℕ) (draft : Draft) → Change
  clears : Change

-- `pushEvent` on a new event, and `clearEvents`
unfoldable pub step : Change → Log → Log
unfolding create_event add_event
step (pushes id_time now d) s =
    let (e, n) = create_event id_time now d s.counter in
    record { counter = n; events = add_event s.events e }
step clears s = record s { events = [] }

unfoldable pub run : List Change → Log → Log
unfolding step
run [] s = s
run (c ∷ changes) s = run changes (step c s)

abbrev pub is_type_in : ℕ → List EventType → Bool
is_type_in n [] = false
is_type_in n (t ∷ types) = type_place t == n || is_type_in n types

abbrev pub is_severity_in : ℕ → List EventSeverity → Bool
is_severity_in n [] = false
is_severity_in n (t ∷ severities) = severity_place t == n || is_severity_in n severities

unfoldable pub filter : (TorrentEvent → Bool) → List TorrentEvent → List TorrentEvent
filter p [] = []
filter p (e ∷ events) = let rest = filter p events in if p e then e ∷ rest else rest

unfoldable pub filter_events_by_type : List TorrentEvent → List EventType → List TorrentEvent
unfolding filter
filter_events_by_type events [] = events
filter_events_by_type events (t ∷ types) =
    filter (λ e. is_type_in (type_place e.type) (t ∷ types)) events

unfoldable pub filter_events_by_severity :
    List TorrentEvent → List EventSeverity → List TorrentEvent
unfolding filter
filter_events_by_severity events [] = events
filter_events_by_severity events (t ∷ severities) =
    filter (λ e. is_severity_in (severity_place e.severity) (t ∷ severities)) events

-- no name and the empty one are alike
abbrev pub name_includes : (Text → Text) → Text → Option Text → Bool
name_includes lower q none = false
name_includes lower q (some []) = false
name_includes lower q (some (c ∷ name)) = includes q (lower (c ∷ name))

unfoldable pub mentions : (Text → Text) → Text → TorrentEvent → Bool
unfolding includes
mentions lower q e = includes q (lower e.message) || name_includes lower q e.torrent_name

unfoldable pub search_events : (Text → Text) → List TorrentEvent → Text → List TorrentEvent
unfolding mentions filter
search_events lower events query = elim (trim query) [
  | [] ↦ events
  | _ ∷ _ ↦ filter (mentions lower (lower query)) events
]

-- `filteredEvents` of the page
unfoldable pub filtered_events :
    (Text → Text)
    → List EventType
    → List EventSeverity
    → Text
    → List TorrentEvent
    → List TorrentEvent
unfolding filter_events_by_type filter_events_by_severity search_events
filtered_events lower types severities query events =
    let by_type = if ltb 0 (length types) then filter_events_by_type events types else events in
    let by_severity =
      if ltb 0 (length severities) then filter_events_by_severity by_type severities else by_type in
    elim (trim query) [ [] ↦ by_severity | _ ∷ _ ↦ search_events lower by_severity query ]

pub data RelativeTime : Type 0 where
  just_now : RelativeTime
  seconds minutes hours days : ℕ → RelativeTime

unfoldable pub get_relative_time : ℕ → ℕ → RelativeTime
get_relative_time now timestamp =
    let diff = now - timestamp in
    if ltb diff 1000
    then just_now
    else if ltb diff 60000
    then seconds (diff / 1000)
    else if ltb diff 3600000
    then minutes (diff / 60000)
    else if ltb diff 86400000
    then hours (diff / 3600000)
    else days (diff / 86400000)
