-- ===== src/Daemon/Restart.antt =====
-- The automatic restart of ui/desktop/src/main/main.ts: from the process's exit to the end of the
-- restart timer's callback.
use orc_torrent.Prelude.{ℕ, suc, ◌-◌, ◌≤◌, ◌≡◌, arith, true, false, some, none, [], ◌∷◌}
use orc_torrent.Prelude.Assoc.{nat_eq, lookup, delete}
use orc_torrent.Daemon.{
  by_interval, awaiting_health, spawns, max_consecutive_failures, launch_daemon,
  clear_restart_timeout, Daemon, World, await_task, return_to, start_guards, start_entry,
  restart_fires, min_restart_cooldown,
}
use orc_torrent.Daemon.Events.{
  ticks, tick, probed, forget_dead, may_restart, resumes, resume, step, run,
}

-- The timer fires while nothing else runs, at a time when its callback calls startDaemonIfNeeded, and
-- both health checks find no daemon. Then nothing is spawned: the callback has set isRestarting, and
-- startDaemonIfNeeded takes this for another restart. What is left is the time of the restart, and the
-- daemon is not the app's any more.
pub restart_never_spawns :
    (now : ℕ) (w v : World) (s : Daemon)
    → s.is_shutting_down ≡ false
    → s.window_open ≡ true
    → s.is_restarting ≡ false
    → min_restart_cooldown ≤ now - s.last_restart_time
    → s.tasks ≡ []
    → w.healthy ≡ false
    → v.healthy ≡ false
    → run (resumes s.next w ∷ resumes (suc s.next) v ∷ []) (restart_fires now s) ≡ record s {
      spawned_by_app = false;
      last_restart_time = now;
      restart_timeout = none;
      next = suc (suc s.next);
    }
unfolding run step resume restart_fires start_entry start_guards return_to await_task lookup delete
restart_never_spawns now w v s d o r c t hw hv = ground arith

-- The health interval does restart the daemon: the app does not own one, no restart runs or is due, the
-- last one is 3 s past, and this is at least the third tick in a row that finds no daemon. Where the launch succeeds, the
-- tick, its cleanup and the start spawn one process, which is the app's.
pub interval_restarts :
    (u v w x : World) (s : Daemon)
    → s.is_shutting_down ≡ false
    → s.window_open ≡ true
    → s.interval_runs ≡ true
    → s.is_restarting ≡ false
    → s.spawned_by_app ≡ false
    → s.restart_timeout ≡ none
    → s.tasks ≡ []
    → max_consecutive_failures ≤ suc s.health_failures
    → min_restart_cooldown ≤ u.now - s.last_restart_time
    → u.healthy ≡ false
    → w.healthy ≡ false
    → x.launch ≡ spawns
    → run
        (ticks
          ∷ resumes s.next u
          ∷ resumes (suc s.next) v
          ∷ resumes (suc (suc s.next)) w
          ∷ resumes (suc (suc (suc s.next))) x
          ∷ [])
        s
      ≡ record s {
        is_restarting = true;
        spawned_by_app = true;
        proc = some s.processes;
        exit_listeners = (s.processes, tt) ∷ s.exit_listeners;
        health_failures = 0;
        last_restart_time = v.now;
        tasks = (suc (suc (suc (suc s.next))), awaiting_health by_interval) ∷ [];
        next = suc (suc (suc (suc (suc s.next))));
        processes = suc s.processes;
      }
unfolding run step tick probed forget_dead may_restart resume start_entry start_guards launch_daemon
    clear_restart_timeout return_to await_task lookup delete
interval_restarts u v w x s d o i r b to t f c uh wh l = ground arith
