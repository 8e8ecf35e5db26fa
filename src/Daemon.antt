-- ===== src/Daemon.antt =====
-- The daemon's supervisor in ui/desktop/src/main/main.ts: its global variables and the code that
-- starts, watches and restarts the daemon. An async function is cut at its awaits: what is left of
-- it waits as a task, and any task may be resumed next. Processes, timers and tasks are numbered.
pub mod Events
pub mod Attempts
pub mod Wedged
pub mod Restart
pub mod Quit
mod Tests
use orc_torrent.Prelude.{
  ℕ, suc, ◌+◌, ◌-◌, ◌*◌, ◌^◌, min, Bool, true, false, not, ◌&&◌, ◌||◌, Option, none, some, List, [],
  ◌∷◌, ltb, leb, ◌==◌, if◌then◌else◌,
}
use orc_torrent.Prelude.Assoc.{nat_eq, delete}

abbrev pub max_restart_attempts : ℕ
max_restart_attempts = 10

abbrev pub initial_restart_delay : ℕ
initial_restart_delay = 5000

abbrev pub max_restart_delay : ℕ
max_restart_delay = 30000

abbrev pub stability_period : ℕ
stability_period = 60000

abbrev pub min_restart_cooldown : ℕ
min_restart_cooldown = 3000

abbrev pub max_consecutive_failures : ℕ
max_consecutive_failures = 3

-- who called `startDaemonIfNeeded`: the app's start or an ipc handler, the restart timer, the timer
-- behind its cooldown, the health interval
pub data Caller : Type 0 where
  by_app by_timer by_cooldown by_interval : Caller

-- What a task waits for: before the call, a health check (`preparing`) or a shutdown (`stopping`);
-- in `startDaemonIfNeeded`, the first health check with its cleanup (`entering`), the cleanup and
-- the log directory (`launching`), `waitForHealthy`, `waitForReady`; after it, the restart timer's
-- own `waitForHealthy` (`settling`). The health interval's tick waits for its check (`probing`) and
-- its cleanup (`cleaning`), the stability timer for its check (`proving`).
pub data Task : Type 0 where
  preparing stopping probing cleaning proving settling : Task
  entering launching awaiting_health awaiting_ready : Caller → Task

pub data Timer : Type 0 where
  restart cooldown stability : Timer

pub record Alarm : Type 0 where
  pub timer : Timer
  pub delay : ℕ

pub record Daemon : Type 0 where
  pub is_restarting : Bool
  pub is_shutting_down : Bool
  pub spawned_by_app : Bool
  pub window_open : Bool
  pub interval_runs : Bool
  pub proc : Option ℕ
  pub exit_listeners : List {0} (ℕ × Unit)
  pub restart_attempts : ℕ
  pub last_restart_time : ℕ
  pub health_failures : ℕ
  pub restart_timeout : Option ℕ
  pub timers : List (ℕ × Alarm)
  pub tasks : List (ℕ × Task)
  pub next : ℕ
  -- how many processes were spawned
  pub processes : ℕ

pub data Launch : Type 0 where
  no_access spawn_fails spawns : Launch

-- What a task finds when it is resumed: is the daemon healthy, was a process on its port killed, is
-- the child process gone, how does the launch go, and the time.
pub record World : Type 0 where
  pub healthy : Bool
  pub cleaned : Bool
  pub dead : Bool
  pub launch : Launch
  pub now : ℕ

pub await_task : Task → Daemon → Daemon
await_task t s = record s { tasks = (s.next, t) ∷ s.tasks; next = suc s.next }

pub set_timer : Timer → ℕ → Daemon → Daemon
set_timer t delay s = record s {
  timers = (s.next, record { timer = t; delay = delay }) ∷ s.timers;
  next = suc s.next;
}

-- `daemonRestartTimeout = setTimeout(…)`: the timer before it, if any, runs on
pub set_restart_timeout : Timer → ℕ → Daemon → Daemon
unfolding set_timer
set_restart_timeout t delay s = record (set_timer t delay s) { restart_timeout = some s.next }

-- `clearTimeout(daemonRestartTimeout)`
pub clear_restart_timeout : Daemon → Daemon
clear_restart_timeout s = elim s.restart_timeout [
  | none ↦ s
  | some n ↦ record s { timers = delete n s.timers; restart_timeout = none }
]

-- `startDaemonIfNeeded` returns: the restart timer waits for health, the cooldown's ends
pub return_to : Caller → Daemon → Daemon
unfolding await_task
return_to by_timer s = await_task settling s
return_to by_cooldown s = record s { is_restarting = false }
return_to _ s = s

-- the guards of `startDaemonIfNeeded`, behind its first health check
pub start_guards : Caller → Daemon → Daemon
unfolding return_to clear_restart_timeout await_task
start_guards c s =
    if s.is_shutting_down
    then return_to c (record s { is_restarting = false })
    else if s.is_restarting
    then return_to c s
    else await_task (launching c) (record (clear_restart_timeout s) { is_restarting = true })

-- A healthy daemon whose process was not killed is kept.
pub start_entry : World → Caller → Daemon → Daemon
unfolding start_guards return_to
start_entry w c s =
    if w.healthy && not w.cleaned
    then return_to c (record s { is_restarting = false })
    else start_guards c s

-- the checks of the binary, and `spawn`
pub launch_daemon : World → Caller → Daemon → Daemon
unfolding return_to await_task
launch_daemon w c s = elim w.launch [
  | no_access ↦ return_to c s
  | spawn_fails ↦ return_to c (record s { is_restarting = false })
  | spawns ↦ await_task (awaiting_health c) (record s {
    proc = some s.processes;
    spawned_by_app = true;
    exit_listeners = (s.processes, tt) ∷ s.exit_listeners;
    processes = suc s.processes;
  })
]

pub health_awaited : World → Caller → Daemon → Daemon
unfolding return_to await_task
health_awaited w c s =
    if w.healthy
    then await_task (awaiting_ready c) s
    else return_to c (record s { is_restarting = false })

-- Ready or not, the start has succeeded.
pub start_succeeds : Caller → Daemon → Daemon
unfolding return_to
start_succeeds c s =
    return_to c (record s { restart_attempts = 0; last_restart_time = 0; is_restarting = false })

pub exit_delay : ℕ → ℕ → ℕ
exit_delay code attempts =
    if code == 4
    then min 1000 initial_restart_delay
    else min (initial_restart_delay * 2 ^ attempts) max_restart_delay

-- the handler of the process's `exit`
pub exit_handler : ℕ → Daemon → Daemon
unfolding exit_delay set_restart_timeout
exit_handler code s =
    let t = record s { proc = none } in
    if t.is_shutting_down || not t.spawned_by_app
    then t
    else if leb max_restart_attempts t.restart_attempts
    then t
    else set_restart_timeout restart (exit_delay code t.restart_attempts)
        (record t { restart_attempts = suc t.restart_attempts })

-- the restart timer's callback, up to its first await
pub restart_fires : ℕ → Daemon → Daemon
unfolding set_restart_timeout await_task
restart_fires now s =
    let t = record s { restart_timeout = none } in
    if t.is_shutting_down || not t.window_open
    then record t { is_restarting = false }
    else if t.is_restarting
    then t
    else if ltb (now - t.last_restart_time) min_restart_cooldown
    then set_restart_timeout cooldown (min_restart_cooldown - (now - t.last_restart_time)) t
    else await_task (entering by_timer)
        (record t { last_restart_time = now; is_restarting = true; spawned_by_app = false })

-- `daemonProc?.removeAllListeners("exit")`
pub remove_listener : Daemon → Daemon
remove_listener s = elim s.proc [
  | none ↦ s
  | some p ↦ record s { exit_listeners = delete p s.exit_listeners }
]

-- the callback behind the cooldown
pub cooldown_fires : Daemon → Daemon
unfolding remove_listener await_task
cooldown_fires s =
    let t = record s { restart_timeout = none } in
    if not t.is_shutting_down && t.window_open && not t.is_restarting
    then await_task (entering by_cooldown)
        (record (remove_listener t) { is_restarting = true; proc = none; spawned_by_app = false })
    else t
