-- ===== src/Daemon/Wedged.antt =====
-- The branches of startDaemonIfNeeded (ui/desktop/src/main/main.ts) that show the permission error
-- return without `isRestarting = false`. What this means for every later start.
use orc_torrent.Prelude.{
  ℕ, ◌≡◌, refl, arith, Bool, true, false, List, [], ◌∷◌, All, inl, inr, Option-cases,
}
use mathlib.Core.Path.{subst, sym}
use orc_torrent.Prelude.Assoc.{
  nat_eq, lookup, delete, AllValues, lookup-AllValues, delete-AllValues,
}
use orc_torrent.Daemon.{
  by_app, by_timer, by_cooldown, by_interval, Caller, preparing, stopping, probing, cleaning,
  proving, settling, entering, launching, awaiting_health, awaiting_ready, Task, restart, cooldown,
  stability, Timer, Daemon, World, no_access, await_task, set_timer, set_restart_timeout,
  clear_restart_timeout, return_to, start_guards, start_entry, launch_daemon, exit_handler,
  restart_fires, cooldown_fires,
}
use orc_torrent.Daemon.Events.{
  Event, app_starts, app_checks, asks_start, asks_restart, ticks, quits, goes_down, window_closes,
  fires, exits, resumes, ipc_start, ipc_restart, tick, probed, forget_dead, may_restart, resume,
  fire, continue_shutdown, step, run,
}

-- a task that neither launches nor resets the flag when it ends
abbrev pub harmless : Task → Bool
harmless preparing = true
harmless stopping = true
harmless probing = true
harmless cleaning = true
harmless proving = true
harmless (entering by_app) = true
harmless (entering by_interval) = true
harmless _ = false

pub record IsWedged (n : ℕ) (s : Daemon) : Type 0 where
  pub flag : s.is_restarting ≡ true
  pub up : s.is_shutting_down ≡ false
  pub window : s.window_open ≡ true
  pub tasks : AllValues harmless s.tasks
  pub count : s.processes ≡ n

-- The app goes on running with its window, and no health check finds a daemon.
abbrev pub Calm : Event → Type 0
Calm quits = ⊥
Calm window_closes = ⊥
Calm (resumes n w) = w.healthy ≡ false
Calm _ = Unit

module _ {p : ℕ} where
  await_task-IsWedged :
      (t : Task) (s : Daemon) → harmless t ≡ true → IsWedged p s → IsWedged p (await_task t s)
  unfolding await_task
  await_task-IsWedged t s e h = record {
    flag = h.flag;
    up = h.up;
    window = h.window;
    tasks = (e, h.tasks);
    count = h.count;
  }

  exit_handler-IsWedged : (code : ℕ) (s : Daemon) → IsWedged p s → IsWedged p (exit_handler code s)
  unfolding exit_handler set_restart_timeout set_timer
  exit_handler-IsWedged code s h = ground arith

  clear-IsWedged : (s : Daemon) → IsWedged p s → IsWedged p (clear_restart_timeout s)
  unfolding clear_restart_timeout
  clear-IsWedged s h = ground arith

  fire-IsWedged : (now : ℕ) (t : Timer) (s : Daemon) → IsWedged p s → IsWedged p (fire now t s)
  unfolding fire restart_fires cooldown_fires await_task
  fire-IsWedged now restart s h = ground arith
  fire-IsWedged now cooldown s h = ground arith
  fire-IsWedged now stability s h = ground arith

  probed-IsWedged : (w : World) (s : Daemon) → IsWedged p s → IsWedged p (probed w s)
  unfolding probed forget_dead may_restart await_task
  probed-IsWedged w s h = ground arith

  entered-IsWedged :
      (w : World) (c : Caller) (s : Daemon)
      → w.healthy ≡ false
      → harmless (entering c) ≡ true
      → IsWedged p s
      → IsWedged p (start_entry w c s)
  unfolding start_entry start_guards return_to
  entered-IsWedged w by_app s e u h = ground arith
  entered-IsWedged w by_interval s e u h = ground arith
  entered-IsWedged w by_timer s e u h = cc
  entered-IsWedged w by_cooldown s e u h = cc

  resume-IsWedged :
      (w : World) (t : Task) (s : Daemon)
      → w.healthy ≡ false
      → harmless t ≡ true
      → IsWedged p s
      → IsWedged p (resume w t s)
  unfolding resume
  resume-IsWedged w preparing s e u h =
      rw (e, resume) (await_task-IsWedged (entering by_app) s refl h)
  resume-IsWedged w stopping s e u h = await_task-IsWedged (entering by_app) s refl h
  resume-IsWedged w probing s e u h = probed-IsWedged w s h
  resume-IsWedged w cleaning s e u h =
      await_task-IsWedged (entering by_interval)
        (record s { health_failures = 0; last_restart_time = w.now }) refl
        (record { flag = h.flag; up = h.up; window = h.window; tasks = h.tasks; count = h.count })
  resume-IsWedged w proving s e u h = ground arith
  resume-IsWedged w settling s e u h = cc
  resume-IsWedged w (entering c) s e u h = entered-IsWedged w c s e u h
  resume-IsWedged w (launching c) s e u h = cc
  resume-IsWedged w (awaiting_health c) s e u h = cc
  resume-IsWedged w (awaiting_ready c) s e u h = cc

  step-IsWedged : (e : Event) (s : Daemon) → Calm e → IsWedged p s → IsWedged p (step e s)
  unfolding step ipc_start ipc_restart tick await_task continue_shutdown
  step-IsWedged app_starts s c h = await_task-IsWedged (entering by_app) s refl h
  step-IsWedged app_checks s c h = await_task-IsWedged preparing s refl h
  step-IsWedged asks_start s c h = ground arith
  step-IsWedged asks_restart s c h = ground arith
  step-IsWedged ticks s c h = ground arith
  step-IsWedged goes_down s c h = ground (arith, clear-IsWedged s h)
  step-IsWedged quits s c h = elim c [ ]
  step-IsWedged window_closes s c h = elim c [ ]
  step-IsWedged (fires n now) s c h = elim (Option-cases (lookup n s.timers)) [
    | inl e ↦ rw (e, step) h
    | inr (a, e) ↦
        rw (e, step)
          (fire-IsWedged now a.timer (record s { timers = delete n s.timers })
            (record {
              flag = h.flag;
              up = h.up;
              window = h.window;
              tasks = h.tasks;
              count = h.count;
            }))
  ]
  step-IsWedged (exits q code) s c h = elim (Option-cases (lookup q s.exit_listeners)) [
    | inl e ↦ rw (e, step) h
    | inr (a, e) ↦
        rw (e, step)
          (exit_handler-IsWedged code (record s { exit_listeners = delete q s.exit_listeners })
            (record {
              flag = h.flag;
              up = h.up;
              window = h.window;
              tasks = h.tasks;
              count = h.count;
            }))
  ]
  step-IsWedged (resumes n w) s c h = elim (Option-cases (lookup n s.tasks)) [
    | inl e ↦ rw (e, step) h
    | inr (t, e) ↦
        rw (e, step)
          (resume-IsWedged w t (record s { tasks = delete n s.tasks }) c
            (lookup-AllValues harmless n t s.tasks h.tasks e)
            (record {
              flag = h.flag;
              up = h.up;
              window = h.window;
              tasks = delete-AllValues harmless n s.tasks h.tasks;
              count = h.count;
            }))
  ]

  run-IsWedged : (es : List Event) (s : Daemon) → All Calm es → IsWedged p s → IsWedged p (run es s)
  unfolding run
  run-IsWedged [] s c h = h
  run-IsWedged (e ∷ es) s c h = run-IsWedged es (step e s) c.1 (step-IsWedged e s c.0 h)

refused :
    (c : Caller) (w : World) (s : Daemon)
    → harmless (entering c) ≡ true
    → w.launch ≡ no_access
    → launch_daemon w c s ≡ s
unfolding launch_daemon return_to
refused by_app w s a l = rw (l, launch_daemon) refl
refused by_interval w s a l = rw (l, launch_daemon) refl
refused by_timer w s a l = cc
refused by_cooldown w s a l = cc

-- The app or the health interval starts the daemon while nothing else runs, and the check of the binary's
-- permissions fails, as where it is missing or cannot be read. Then, whatever happens while the app keeps running with its window and no health check
-- finds a daemon, nothing is spawned any more, and the flag of a restart that runs stays set.
pub permission_failure_wedges :
    (c : Caller) (w : World) (s : Daemon) (es : List Event)
    → harmless (entering c) ≡ true
    → w.launch ≡ no_access
    → s.is_restarting ≡ true
    → s.is_shutting_down ≡ false
    → s.window_open ≡ true
    → s.tasks ≡ []
    → All Calm es
    → ((run es (launch_daemon w c s)).processes ≡ s.processes)
      × ((run es (launch_daemon w c s)).is_restarting ≡ true)
permission_failure_wedges c w s es a l f u v t calm =
    let h : IsWedged s.processes s = record {
      flag = f;
      up = u;
      window = v;
      tasks = subst (AllValues harmless) (sym t) tt;
      count = refl;
    } in
    let k = subst (IsWedged s.processes) (sym (refused c w s a l)) h in
    let r = run-IsWedged es (launch_daemon w c s) calm k in (r.count, r.flag)
