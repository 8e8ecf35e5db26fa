-- ===== src/Daemon/Tests.antt =====
-- The theorems about the daemon's supervisor at concrete states.
use orc_torrent.Prelude.{◌≡◌, refl, ◌≤◌, arith, true, false, none, some, List, [], ◌∷◌}
use orc_torrent.Daemon.{
  by_app, by_interval, awaiting_health, Daemon, World, no_access, spawns, launch_daemon,
  restart_fires,
}
use orc_torrent.Daemon.Events.{
  Event, app_starts, asks_start, fires, ticks, resumes, exits, run, before_quit,
}
use orc_torrent.Daemon.Wedged.{permission_failure_wedges}
use orc_torrent.Daemon.Restart.{restart_never_spawns, interval_restarts}
use orc_torrent.Daemon.Quit.{quit_stops_starts}

-- the app with its window, before anything else
abbrev fresh : Daemon
fresh = record {
  is_restarting = false;
  is_shutting_down = false;
  spawned_by_app = false;
  window_open = true;
  interval_runs = true;
  proc = none;
  exit_listeners = [];
  restart_attempts = 0;
  last_restart_time = 0;
  health_failures = 0;
  restart_timeout = none;
  timers = [];
  tasks = [];
  next = 0;
  processes = 0;
}

abbrev starting : Daemon
starting = record fresh { is_restarting = true; next = 2 }

abbrev down : World
down = record { healthy = false; cleaned = false; dead = false; launch = spawns; now = 20000 }

abbrev barred : World
barred = record down { launch = no_access }

abbrev crash : List Event
crash = app_starts ∷ resumes 0 down ∷ resumes 1 down ∷ exits 0 1 ∷ fires 3 30000 ∷ []

abbrev later : List Event
later = asks_start ∷ app_starts ∷ resumes 2 down ∷ ticks ∷ []

permission_failure_wedges_example :
    ((run later (launch_daemon barred by_app starting)).processes ≡ 0)
    × ((run later (launch_daemon barred by_app starting)).is_restarting ≡ true)
permission_failure_wedges_example =
    permission_failure_wedges by_app barred starting later refl refl refl refl refl refl
      (tt, (tt, (refl, (tt, tt))))

restart_never_spawns_example :
    run (resumes 0 down ∷ resumes 1 down ∷ []) (restart_fires 20000 fresh) ≡ record fresh {
      spawned_by_app = false;
      last_restart_time = 20000;
      restart_timeout = none;
      next = 2;
    }
restart_never_spawns_example =
    restart_never_spawns 20000 down down fresh refl refl refl (omega arith) refl refl refl

abbrev failing : Daemon
failing = record fresh { health_failures = 2 }

interval_restarts_example :
    run (ticks ∷ resumes 0 down ∷ resumes 1 down ∷ resumes 2 down ∷ resumes 3 down ∷ []) failing
    ≡ record failing {
      is_restarting = true;
      spawned_by_app = true;
      proc = some 0;
      exit_listeners = (0, tt) ∷ [];
      health_failures = 0;
      last_restart_time = 20000;
      tasks = (4, awaiting_health by_interval) ∷ [];
      next = 5;
      processes = 1;
    }
interval_restarts_example =
    interval_restarts down down down down failing refl refl refl refl refl refl refl (omega arith)
      (omega arith) refl refl refl

quit_stops_starts_example : (run crash (before_quit fresh)).processes ≤ 0
quit_stops_starts_example = quit_stops_starts crash fresh
