-- ===== src/Daemon/Events.antt =====
-- What happens to the daemon's supervisor in ui/desktop/src/main/main.ts: the app and the ipc
-- handlers call, the health interval ticks, timers fire, processes exit, tasks are resumed, the app
-- quits. Any timer may fire and any task may be resumed at any time.
use orc_torrent.Prelude.{
  ℕ, suc, ◌-◌, Bool, true, false, not, ◌&&◌, ◌||◌, Option, none, some, List, [], ◌∷◌, ltb, leb,
  if◌then◌else◌,
}
use orc_torrent.Prelude.Assoc.{nat_eq, lookup, delete}
use orc_torrent.Daemon.{
  min_restart_cooldown, max_consecutive_failures, stability_period, by_app, by_interval, preparing,
  stopping, probing, cleaning, proving, settling, entering, launching, awaiting_health,
  awaiting_ready, Task, restart, cooldown, stability, Timer, Daemon, World, await_task, set_timer,
  clear_restart_timeout, start_entry, launch_daemon, health_awaited, start_succeeds, exit_handler,
  restart_fires, cooldown_fires,
}

abbrev pub is_some : {A : Type 0} → Option A → Bool
is_some none = false
is_some (some a) = true

-- `daemon:start` and `daemon:restart`
unfoldable pub ipc_start : Daemon → Daemon
ipc_start s =
    if s.is_restarting
    then s
    else if is_some s.proc && s.spawned_by_app
    then await_task preparing s
    else await_task (entering by_app) s

unfoldable pub ipc_restart : Daemon → Daemon
ipc_restart s =
    if s.is_restarting
    then s
    else if s.spawned_by_app && is_some s.proc
    then await_task stopping s
    else await_task (entering by_app) s

-- the interval's callback up to its health check
unfoldable pub tick : Daemon → Daemon
tick s =
    if not s.interval_runs
    then s
    else if s.is_shutting_down || not s.window_open
    then record s { interval_runs = false }
    else await_task probing s

-- `processDead`
abbrev pub process_dead : World → Daemon → Bool
process_dead w s = s.spawned_by_app && (if is_some s.proc then w.dead else true)

-- a dead process is forgotten
unfoldable pub forget_dead : World → Daemon → Daemon
forget_dead w s = if process_dead w s then record s { proc = none; spawned_by_app = false } else s

unfoldable pub may_restart : World → Daemon → Daemon
may_restart w s =
    if not s.is_restarting && not (is_some s.restart_timeout) && not s.spawned_by_app
    then (if ltb (w.now - s.last_restart_time) min_restart_cooldown
        then s
        else await_task cleaning s)
    else s

-- the callback from its health check to the cleanup
unfoldable pub probed : World → Daemon → Daemon
unfolding forget_dead may_restart
probed w s =
    let t = record s { health_failures = suc s.health_failures } in
    if w.healthy
    then record s { health_failures = 0 }
    else if process_dead w t || leb max_consecutive_failures t.health_failures
    then may_restart w (forget_dead w t)
    else t

-- a task goes on
unfoldable pub resume : World → Task → Daemon → Daemon
unfolding probed
resume w preparing s = if w.healthy then s else await_task (entering by_app) s
resume w stopping s = await_task (entering by_app) s
resume w probing s = probed w s
resume w cleaning s =
    await_task (entering by_interval) (record s { health_failures = 0; last_restart_time = w.now })
resume w proving s =
    if w.healthy then record s { restart_attempts = 0; last_restart_time = 0 } else s
resume w settling s = record (if w.healthy then set_timer stability stability_period s else s) {
  is_restarting = false;
}
resume w (entering c) s = start_entry w c s
resume w (launching c) s = launch_daemon w c s
resume w (awaiting_health c) s = health_awaited w c s
resume w (awaiting_ready c) s = start_succeeds c s

unfoldable pub fire : ℕ → Timer → Daemon → Daemon
fire now restart s = restart_fires now s
fire now cooldown s = cooldown_fires s
fire now stability s = if s.is_shutting_down then s else await_task proving s

-- `before-quit`, and what it goes on to, at once or after 100 ms
unfoldable pub before_quit : Daemon → Daemon
before_quit s = record s { is_shutting_down = true; is_restarting = false }

unfoldable pub continue_shutdown : Daemon → Daemon
continue_shutdown s = record (clear_restart_timeout s) { interval_runs = false }

pub data Event : Type 0 where
  app_starts app_checks asks_start asks_restart ticks quits goes_down window_closes : Event
  fires : ℕ → ℕ → Event
  exits : ℕ → ℕ → Event
  resumes : ℕ → World → Event

-- A timer fires once, a process exits once, a task is resumed once.
unfoldable pub step : Event → Daemon → Daemon
unfolding ipc_start ipc_restart tick resume fire before_quit continue_shutdown
step app_starts s = await_task (entering by_app) s
step app_checks s = await_task preparing s
step asks_start s = ipc_start s
step asks_restart s = ipc_restart s
step ticks s = tick s
step quits s = before_quit s
step goes_down s = continue_shutdown s
step window_closes s = record s { window_open = false }
step (fires n now) s = elim (lookup n s.timers) [
  | none ↦ s
  | some a ↦ fire now a.timer (record s { timers = delete n s.timers })
]
step (exits p code) s = elim (lookup p s.exit_listeners) [
  | none ↦ s
  | some u ↦ exit_handler code (record s { exit_listeners = delete p s.exit_listeners })
]
step (resumes n w) s = elim (lookup n s.tasks) [
  | none ↦ s
  | some t ↦ resume w t (record s { tasks = delete n s.tasks })
]

unfoldable pub run : List Event → Daemon → Daemon
run [] s = s
run (e ∷ es) s = run es (step e s)
