-- ===== src/Daemon/Attempts.antt =====
-- The restart counter and the delays of the daemon's supervisor (ui/desktop/src/main/main.ts).
use orc_torrent.Prelude.{
  ℕ, zero, suc, ◌^◌, ◌≤◌, arith, false, List, [], ◌∷◌, inl, inr, Option-cases, ◌≢◌,
}
use orc_torrent.Prelude.Assoc.{nat_eq, lookup, delete}
use orc_torrent.Daemon.{
  by_app, by_timer, by_cooldown, by_interval, Caller, preparing, stopping, probing, cleaning,
  proving, settling, entering, launching, awaiting_health, awaiting_ready, Task, restart, cooldown,
  stability, Timer, Daemon, World, no_access, spawn_fails, spawns, await_task, set_timer,
  clear_restart_timeout, return_to, start_guards, start_entry, launch_daemon, health_awaited,
  start_succeeds, exit_delay, exit_handler, restart_fires, cooldown_fires, remove_listener,
  set_restart_timeout, max_restart_attempts,
}
use orc_torrent.Daemon.Events.{
  Event, app_starts, app_checks, asks_start, asks_restart, ticks, quits, goes_down, window_closes,
  fires, exits, resumes, ipc_start, ipc_restart, tick, probed, forget_dead, may_restart, resume,
  fire, before_quit, continue_shutdown, step, run,
}

power_pos : (n : ℕ) → 1 ≤ 2 ^ n
power_pos zero = omega arith
power_pos (suc n) = omega (arith, power_pos n)

power_mono : (m n : ℕ) → m ≤ n → 2 ^ m ≤ 2 ^ n
power_mono zero n h = power_pos n
power_mono (suc m) zero h = omega arith
power_mono (suc m) (suc n) h = omega (arith, power_mono m n)

-- The delay before a restart is at least 1 s and at most 30 s; a port in use waits 1 s, and any
-- other exit at least 5 s.
pub exit_delay-bounds :
    (code attempts : ℕ)
    → (1000 ≤ exit_delay code attempts)
      × (exit_delay code attempts ≤ 30000)
      × (code ≢ 4 → 5000 ≤ exit_delay code attempts)
unfolding exit_delay
exit_delay-bounds code attempts = ground (arith, power_pos attempts)

-- As the attempts go up, the delay never gets shorter.
pub exit_delay_mono : (code m n : ℕ) → m ≤ n → exit_delay code m ≤ exit_delay code n
unfolding exit_delay
exit_delay_mono code m n h = ground (arith, power_mono m n)

module _ (s : Daemon) (h : s.restart_attempts ≤ max_restart_attempts) where
  clear-attempts : (clear_restart_timeout s).restart_attempts ≤ 10
  unfolding clear_restart_timeout
  clear-attempts = ground arith

  return_to-attempts : (c : Caller) → (return_to c s).restart_attempts ≤ 10
  unfolding return_to await_task
  return_to-attempts by_app = h
  return_to-attempts by_timer = h
  return_to-attempts by_cooldown = h
  return_to-attempts by_interval = h

  exit_handler-attempts : (code : ℕ) → (exit_handler code s).restart_attempts ≤ 10
  unfolding exit_handler set_restart_timeout set_timer
  exit_handler-attempts code = ground arith

  restart_fires-attempts : (now : ℕ) → (restart_fires now s).restart_attempts ≤ 10
  unfolding restart_fires set_restart_timeout set_timer await_task
  restart_fires-attempts now = ground arith

  cooldown_fires-attempts : (cooldown_fires s).restart_attempts ≤ 10
  unfolding cooldown_fires remove_listener await_task
  cooldown_fires-attempts = ground arith

  tick-attempts : (tick s).restart_attempts ≤ 10
  unfolding tick await_task
  tick-attempts = ground arith

  probed-attempts : (w : World) → (probed w s).restart_attempts ≤ 10
  unfolding probed forget_dead may_restart await_task
  probed-attempts w = ground arith

  start_guards-attempts : (c : Caller) → (start_guards c s).restart_attempts ≤ 10
  unfolding start_guards return_to await_task clear_restart_timeout
  start_guards-attempts by_app = ground arith
  start_guards-attempts by_timer = ground arith
  start_guards-attempts by_cooldown = ground arith
  start_guards-attempts by_interval = ground arith

module _ (s : Daemon) (h : s.restart_attempts ≤ max_restart_attempts) where
  start_entry-attempts : (w : World) (c : Caller) → (start_entry w c s).restart_attempts ≤ 10
  unfolding start_entry
  start_entry-attempts w c = ground (
    arith,
    start_guards-attempts s h c,
    return_to-attempts (record s { is_restarting = false }) h c,
  )

  launch_daemon-attempts : (w : World) (c : Caller) → (launch_daemon w c s).restart_attempts ≤ 10
  unfolding launch_daemon await_task
  launch_daemon-attempts w c =
      elim (w.launch)
        as (λ l. (launch_daemon (record w { launch = l }) c s).restart_attempts ≤ 10) [
          | no_access ↦ return_to-attempts s h c
          | spawn_fails ↦ return_to-attempts (record s { is_restarting = false }) h c
          | spawns ↦ h
        ]

  health_awaited-attempts : (w : World) (c : Caller) → (health_awaited w c s).restart_attempts ≤ 10
  unfolding health_awaited await_task
  health_awaited-attempts w c =
      ground (arith, return_to-attempts (record s { is_restarting = false }) h c)

  start_succeeds-attempts : (c : Caller) → (start_succeeds c s).restart_attempts ≤ 10
  unfolding start_succeeds
  start_succeeds-attempts c =
      return_to-attempts
        (record s { restart_attempts = 0; last_restart_time = 0; is_restarting = false })
        (omega arith) c

  resume-attempts : (w : World) (t : Task) → (resume w t s).restart_attempts ≤ 10
  unfolding resume await_task set_timer
  resume-attempts w preparing = ground arith
  resume-attempts w stopping = h
  resume-attempts w probing = probed-attempts s h w
  resume-attempts w cleaning = h
  resume-attempts w proving = ground arith
  resume-attempts w settling = ground arith
  resume-attempts w (entering c) = start_entry-attempts w c
  resume-attempts w (launching c) = launch_daemon-attempts w c
  resume-attempts w (awaiting_health c) = health_awaited-attempts w c
  resume-attempts w (awaiting_ready c) = start_succeeds-attempts c

  fire-attempts : (now : ℕ) (t : Timer) → (fire now t s).restart_attempts ≤ 10
  unfolding fire await_task
  fire-attempts now restart = restart_fires-attempts s h now
  fire-attempts now cooldown = cooldown_fires-attempts s h
  fire-attempts now stability = ground arith

pub step-attempts :
    (e : Event) (s : Daemon)
    → s.restart_attempts ≤ max_restart_attempts
    → (step e s).restart_attempts ≤ max_restart_attempts
unfolding step await_task before_quit continue_shutdown ipc_start ipc_restart
step-attempts app_starts s h = h
step-attempts app_checks s h = h
step-attempts asks_start s h = ground arith
step-attempts asks_restart s h = ground arith
step-attempts ticks s h = tick-attempts s h
step-attempts quits s h = h
step-attempts goes_down s h = clear-attempts s h
step-attempts window_closes s h = h
step-attempts (fires n now) s h = elim (Option-cases (lookup n s.timers)) [
  | inl e ↦ rw (e, step) h
  | inr (a, e) ↦
      rw (e, step) (fire-attempts (record s { timers = delete n s.timers }) h now a.timer)
]
step-attempts (exits p code) s h = elim (Option-cases (lookup p s.exit_listeners)) [
  | inl e ↦ rw (e, step) h
  | inr (a, e) ↦
      rw (e, step)
        (exit_handler-attempts (record s { exit_listeners = delete p s.exit_listeners }) h code)
]
step-attempts (resumes n w) s h = elim (Option-cases (lookup n s.tasks)) [
  | inl e ↦ rw (e, step) h
  | inr (t, e) ↦ rw (e, step) (resume-attempts (record s { tasks = delete n s.tasks }) h w t)
]

-- From a state with at most ten restarts counted, over every sequence of events, at most ten are
-- counted.
pub run-attempts :
    (es : List Event) (s : Daemon)
    → s.restart_attempts ≤ max_restart_attempts
    → (run es s).restart_attempts ≤ max_restart_attempts
unfolding run
run-attempts [] s h = h
run-attempts (e ∷ es) s h = run-attempts es (step e s) (step-attempts e s h)
