-- ===== src/App/Tests.antt =====
-- Runs of the application shell's model, and the theorems about it at concrete inputs.
use orc_torrent.Prelude.{◌≤◌, ◌≡◌, ◌≢◌, refl, arith, true, false, none, some, List, [], ◌∷◌}
use Prim.Native.String.{String}
use orc_torrent.Prelude.Assoc.{string_eq, lookup}
use orc_torrent.Types.{State, stopped, downloading, seeding}
use orc_torrent.App.Refresh
use orc_torrent.App.Scheduled.{scheduled_never_loads}
use orc_torrent.App.History.{Seen}
use orc_torrent.App.Completion.{completions, credit, refreshes, completed_once}
use orc_torrent.App.Resume.{KillSwitch, Sight, Session, auto_resume, stopped_ids}

abbrev shell : Refresh.Shell
shell = record {
  online = true;
  is_refreshing = false;
  debounced = none;
  last_refresh = 0;
  tasks = [];
  next = 0;
  loads = 1;
}

-- a tick, its ping, the scheduled refresh with its ping, and once more
abbrev ticking : List Refresh.Event
ticking =
    Refresh.ticks true
    ∷ Refresh.resumes 0 2000 true
    ∷ Refresh.resumes 1 2001 true
    ∷ Refresh.ticks true
    ∷ Refresh.resumes 2 4000 true
    ∷ Refresh.resumes 3 4001 true
    ∷ []

scheduled_never_loads_example : (Refresh.run ticking shell).loads ≡ 1
scheduled_never_loads_example =
    scheduled_never_loads ticking shell refl refl (refl, (tt, (tt, (refl, (tt, (tt, tt))))))

abbrev unseen : Seen
unseen = record { states = []; notified = [] }

-- a torrent that completes, is started again, and completes again
abbrev twice : List (List String × List (String × State))
twice =
    ("a" ∷ [], ("a", downloading) ∷ [])
    ∷ ("a" ∷ [], ("a", seeding) ∷ [])
    ∷ ("a" ∷ [], ("a", downloading) ∷ [])
    ∷ ("a" ∷ [], ("a", seeding) ∷ [])
    ∷ []

completed_once_example : completions "a" (refreshes twice unseen).1 ≤ credit "a" unseen
completed_once_example = completed_once "a" twice unseen (refl, (refl, (refl, (refl, tt))))

abbrev off : KillSwitch
off = record { enabled = false; enforced = false }

abbrev arrives : Sight
arrives = record {
  online = true;
  kill_switch = some off;
  vpn_detected = false;
  torrents = "a" ∷ [];
  statuses = ("a", stopped) ∷ [];
}

abbrev early : Sight
early = record arrives { kill_switch = none }

abbrev session : Session
session = record { was_online = false; has_auto_resumed = false }

something : (auto_resume arrives session).1 ≢ []
unfolding auto_resume stopped_ids lookup
something e = ground (arith, e)
