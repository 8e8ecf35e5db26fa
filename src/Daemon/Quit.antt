-- ===== src/Daemon/Quit.antt =====
-- The shutdown of ui/desktop/src/main/main.ts and the starts that are still under way.
use orc_torrent.Prelude.{
  ℕ, suc, ◌+◌, ◌≤◌, ◌≡◌, refl, arith, true, false, List, [], ◌∷◌, inl, inr, Option-cases,
}
use orc_torrent.Prelude.Assoc.{nat_eq, lookup, delete, tally, delete-tally, lookup-tally}
use orc_torrent.Daemon.{
  by_app, by_timer, by_cooldown, by_interval, Caller, preparing, stopping, probing, cleaning,
  proving, settling, entering, launching, awaiting_health, awaiting_ready, Task, restart, cooldown,
  stability, Timer, Daemon, World, no_access, spawn_fails, spawns, await_task, set_timer,
  clear_restart_timeout, return_to, start_guards, start_entry, launch_daemon, health_awaited,
  start_succeeds, exit_handler, restart_fires, cooldown_fires,
}
use orc_torrent.Daemon.Events.{
  Event, app_starts, app_checks, asks_start, asks_restart, ticks, quits, goes_down, window_closes,
  fires, exits, resumes, ipc_start, ipc_restart, tick, probed, forget_dead, may_restart, resume,
  fire, before_quit, continue_shutdown, step, run,
}

-- a start that is past its guards
abbrev pub launches : Task → ℕ
launches (launching c) = 1
launches _ = 0

abbrev pub launching_tasks : List (ℕ × Task) → ℕ
launching_tasks m = tally launches m

-- The app quits, and what was spawned and what may yet be come to at most `n`.
pub record IsQuitting (n : ℕ) (s : Daemon) : Type 0 where
  pub down : s.is_shutting_down ≡ true
  pub bound : s.processes + launching_tasks s.tasks ≤ n

module _ {p : ℕ} (s : Daemon) (h : IsQuitting p s) where
  return_to-IsQuitting : (c : Caller) → IsQuitting p (return_to c s)
  unfolding return_to await_task
  return_to-IsQuitting by_app = h
  return_to-IsQuitting by_timer = ground arith
  return_to-IsQuitting by_cooldown = record { down = h.down; bound = h.bound }
  return_to-IsQuitting by_interval = h

  exit_handler-IsQuitting : (code : ℕ) → IsQuitting p (exit_handler code s)
  unfolding exit_handler
  exit_handler-IsQuitting code = ground arith

  clear-IsQuitting : IsQuitting p (clear_restart_timeout s)
  unfolding clear_restart_timeout
  clear-IsQuitting = ground arith

  fire-IsQuitting : (now : ℕ) (t : Timer) → IsQuitting p (fire now t s)
  unfolding fire restart_fires cooldown_fires
  fire-IsQuitting now restart = ground arith
  fire-IsQuitting now cooldown = ground arith
  fire-IsQuitting now stability = ground arith

  probed-IsQuitting : (w : World) → IsQuitting p (probed w s)
  unfolding probed forget_dead may_restart await_task
  probed-IsQuitting w = ground arith

module _ {p : ℕ} (s : Daemon) (h : IsQuitting p s) where
  reset-IsQuitting : (c : Caller) → IsQuitting p (return_to c (record s { is_restarting = false }))
  reset-IsQuitting c =
      return_to-IsQuitting (record s { is_restarting = false })
        (record { down = h.down; bound = h.bound }) c

  start_entry-IsQuitting : (w : World) (c : Caller) → IsQuitting p (start_entry w c s)
  unfolding start_entry start_guards
  start_entry-IsQuitting w c = ground (arith, reset-IsQuitting c)

  health_awaited-IsQuitting : (w : World) (c : Caller) → IsQuitting p (health_awaited w c s)
  unfolding health_awaited await_task
  health_awaited-IsQuitting w c = ground (arith, reset-IsQuitting c)

  start_succeeds-IsQuitting : (c : Caller) → IsQuitting p (start_succeeds c s)
  unfolding start_succeeds
  start_succeeds-IsQuitting c =
      return_to-IsQuitting
        (record s { restart_attempts = 0; last_restart_time = 0; is_restarting = false })
        (record { down = h.down; bound = h.bound }) c

-- The task was counted: a launch may spawn.
launch_daemon-IsQuitting :
    {p : ℕ} (s : Daemon) (w : World) (c : Caller)
    → IsQuitting p s
    → suc (s.processes + launching_tasks s.tasks) ≤ p
    → IsQuitting p (launch_daemon w c s)
unfolding launch_daemon await_task
launch_daemon-IsQuitting {p} s w c h b =
    elim w.launch as (λ l. IsQuitting p (launch_daemon (record w { launch = l }) c s)) [
      | no_access ↦ return_to-IsQuitting s h c
      | spawn_fails ↦ reset-IsQuitting s h c
      | spawns ↦ record { down = h.down; bound = omega arith }
    ]

resume-IsQuitting :
    {p : ℕ} (s : Daemon) (w : World) (t : Task)
    → IsQuitting p s
    → launches t + (s.processes + launching_tasks s.tasks) ≤ p
    → IsQuitting p (resume w t s)
unfolding resume await_task set_timer
resume-IsQuitting s w preparing h b = ground arith
resume-IsQuitting s w stopping h b = ground arith
resume-IsQuitting s w probing h b = probed-IsQuitting s h w
resume-IsQuitting s w cleaning h b = ground arith
resume-IsQuitting s w proving h b = ground arith
resume-IsQuitting s w settling h b = ground arith
resume-IsQuitting s w (entering c) h b = start_entry-IsQuitting s h w c
resume-IsQuitting s w (launching c) h b = launch_daemon-IsQuitting s w c h (omega arith)
resume-IsQuitting s w (awaiting_health c) h b = health_awaited-IsQuitting s h w c
resume-IsQuitting s w (awaiting_ready c) h b = start_succeeds-IsQuitting s h c

module _ {p : ℕ} where
  step-IsQuitting : (e : Event) (s : Daemon) → IsQuitting p s → IsQuitting p (step e s)
  unfolding step ipc_start ipc_restart tick await_task before_quit continue_shutdown
  step-IsQuitting app_starts s h = ground arith
  step-IsQuitting app_checks s h = ground arith
  step-IsQuitting asks_start s h = ground arith
  step-IsQuitting asks_restart s h = ground arith
  step-IsQuitting ticks s h = ground arith
  step-IsQuitting quits s h = record { down = refl; bound = h.bound }
  step-IsQuitting goes_down s h = ground (arith, clear-IsQuitting s h)
  step-IsQuitting window_closes s h = record { down = h.down; bound = h.bound }
  step-IsQuitting (fires n now) s h = elim (Option-cases (lookup n s.timers)) [
    | inl e ↦ rw (e, step) h
    | inr (a, e) ↦
        rw (e, step)
          (fire-IsQuitting (record s { timers = delete n s.timers })
            (record { down = h.down; bound = h.bound }) now a.timer)
  ]
  step-IsQuitting (exits q code) s h = elim (Option-cases (lookup q s.exit_listeners)) [
    | inl e ↦ rw (e, step) h
    | inr (a, e) ↦
        rw (e, step)
          (exit_handler-IsQuitting (record s { exit_listeners = delete q s.exit_listeners })
            (record { down = h.down; bound = h.bound }) code)
  ]
  step-IsQuitting (resumes n w) s h = elim (Option-cases (lookup n s.tasks)) [
    | inl e ↦ rw (e, step) h
    | inr (t, e) ↦
        let b = lookup-tally launches n t s.tasks e in
        rw (e, step)
          (resume-IsQuitting (record s { tasks = delete n s.tasks }) w t
            (record {
              down = h.down;
              bound = omega (arith, h.bound, delete-tally launches n s.tasks);
            })
            (omega (arith, h.bound, b)))
  ]

  run-IsQuitting : (es : List Event) (s : Daemon) → IsQuitting p s → IsQuitting p (run es s)
  unfolding run
  run-IsQuitting [] s h = h
  run-IsQuitting (e ∷ es) s h = run-IsQuitting es (step e s) (step-IsQuitting e s h)

-- After `before-quit` no start gets past its guards: over every sequence of events, at most the starts
-- that were past them when the app began to quit spawn a process.
pub quit_stops_starts :
    (es : List Event) (s : Daemon)
    → (run es (before_quit s)).processes ≤ s.processes + launching_tasks s.tasks
unfolding before_quit
quit_stops_starts es s =
    let h : IsQuitting (s.processes + launching_tasks s.tasks) (before_quit s) = record {
      down = refl;
      bound = omega arith;
    } in
    let r = run-IsQuitting es (before_quit s) h in omega (arith, r.bound)
