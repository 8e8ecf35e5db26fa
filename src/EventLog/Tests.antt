-- ===== src/EventLog/Tests.antt =====
-- Runs of the event history's model, and the theorems about it at concrete inputs.
use orc_torrent.Prelude.{◌≡◌, refl, some, List, [], ◌∷◌, take}
use orc_torrent.Prelude.Codes.{codes, trim, starts_with, is_space}
use orc_torrent.EventLog.{
  torrent_added, torrent_error, info, error, Draft, max_events, Change, pushes, clears,
  TorrentEvent, create_event, run, filtered_events, minutes, get_relative_time,
}
use orc_torrent.EventLog.Newest.{unbounded, run-unbounded}
use orc_torrent.EventLog.Ids.{fresh}

abbrev added : Draft
added = record {
  type = torrent_added;
  severity = info;
  message = codes "Torrent added";
  torrent_name = some (codes "one");
}

abbrev failed : Draft
failed = record added { type = torrent_error; severity = error; message = codes "Failed" }

abbrev changes : List Change
changes = pushes 5 5 added ∷ clears ∷ pushes 7 7 added ∷ pushes 7 8 failed ∷ []

abbrev events : List TorrentEvent
events = (create_event 7 8 failed 2).0 ∷ (create_event 7 7 added 1).0 ∷ []

events_kept : (run changes fresh).events ≡ events
unfolding run
events_kept = refl

run-unbounded_example :
    (run changes (record { counter = 0; events = take max_events [] })).events
    ≡ take max_events (unbounded changes 0 [])
run-unbounded_example = run-unbounded changes 0 []

only_errors : filtered_events (λ s. s) [] (error ∷ []) (codes " one") events ≡ []
unfolding filtered_events trim is_space starts_with create_event
only_errors = refl

two_minutes : get_relative_time 130000 1000 ≡ minutes 2
unfolding get_relative_time
two_minutes = refl
