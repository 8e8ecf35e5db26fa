-- ===== src/App/Scheduled.antt =====
-- The periodic refreshes of ui/App.tsx (ui/desktop/src/renderer): `scheduleRefresh` sets `isRefreshing`
-- before it calls `refreshAll`, which takes this for another refresh.
use orc_torrent.Prelude.{
  ℕ, suc, ◌+◌, ◌≤◌, ◌≡◌, ◌⊎◌, inl, inr, refl, arith, Bool, true, false, none, List, [], ◌∷◌, All,
  Option-cases,
}
use mathlib.Core.Path.{subst, sym}
use orc_torrent.Prelude.Assoc.{
  nat_eq, lookup, delete, AllValues, lookup-AllValues, delete-AllValues, tally, lookup-tally,
}
use orc_torrent.App.Refresh.{
  scheduled, direct, interval_ping, pinging, loading, Task, Shell, await_task, return_to, pinged,
  begin_scheduled, schedule_refresh, debounce_fires, interval_pinged, resume, Event, ticks, asks,
  runs_effect, fires, resumes, step, run,
}

-- the tasks of the interval, while the app stays online, and of scheduled refreshes
abbrev pub is_periodic : Task → Bool
is_periodic (interval_ping was_online) = was_online
is_periodic (pinging scheduled) = true
is_periodic _ = false

-- a scheduled refresh that waits for its ping
abbrev waits : Task → ℕ
waits (pinging scheduled) = 1
waits _ = 0

-- Only periodic tasks wait. The flag is set exactly while a scheduled refresh waits for its ping; there is
-- one at most, and no timer then.
record IsPeriodic (n : ℕ) (s : Shell) : Type 0 where
  tasks : AllValues is_periodic s.tasks
  flag :
      ((s.is_refreshing ≡ true) × (s.debounced ≡ none) × (tally waits s.tasks ≤ 1))
      ⊎ ((s.is_refreshing ≡ false) × (tally waits s.tasks ≡ 0))
  count : s.loads ≡ n

-- The app stays online, its effect does not run anew, and nothing else asks for a refresh.
abbrev pub Periodic : Event → Type 0
Periodic (ticks was_online) = was_online ≡ true
Periodic asks = ⊥
Periodic (runs_effect now) = ⊥
Periodic _ = Unit

module _ {p : ℕ} (now : ℕ) (s : Shell) (h : IsPeriodic p s) where
  schedule_refresh-IsPeriodic : IsPeriodic p (schedule_refresh now s)
  unfolding schedule_refresh begin_scheduled await_task
  schedule_refresh-IsPeriodic = ground arith

  debounce_fires-IsPeriodic : (n : ℕ) → IsPeriodic p (debounce_fires n now s)
  unfolding debounce_fires begin_scheduled await_task
  debounce_fires-IsPeriodic n = ground arith

-- A periodic task was taken out and goes on.
resume-IsPeriodic :
    {p : ℕ} (now : ℕ) (ok : Bool) (t : Task) (s : Shell)
    → is_periodic t ≡ true
    → AllValues is_periodic s.tasks
    → ((s.is_refreshing ≡ true) × (s.debounced ≡ none) × (waits t + tally waits s.tasks ≤ 1))
      ⊎ ((s.is_refreshing ≡ false) × (waits t + tally waits s.tasks ≡ 0))
    → s.loads ≡ p
    → IsPeriodic p (resume now ok t s)
unfolding resume interval_pinged pinged return_to
resume-IsPeriodic now true (interval_ping true) s e h f l =
    schedule_refresh-IsPeriodic now (record s { online = true })
      (record { tasks = h; flag = ground (arith, f); count = l })
resume-IsPeriodic now false (interval_ping true) s e h f l =
    schedule_refresh-IsPeriodic now (record s { online = false })
      (record { tasks = h; flag = ground (arith, f); count = l })
resume-IsPeriodic now ok (interval_ping false) s e h f l = cc
resume-IsPeriodic now ok (pinging scheduled) s e h f l = ground arith
resume-IsPeriodic now ok (pinging direct) s e h f l = cc
resume-IsPeriodic now ok (loading c) s e h f l = cc

step-IsPeriodic :
    {p : ℕ} (e : Event) (s : Shell) → Periodic e → IsPeriodic p s → IsPeriodic p (step e s)
unfolding step await_task
step-IsPeriodic (ticks was_online) s c h = ground (arith, c)
step-IsPeriodic asks s c h = elim c [ ]
step-IsPeriodic (runs_effect now) s c h = elim c [ ]
step-IsPeriodic (fires n now) s c h = debounce_fires-IsPeriodic now s h n
step-IsPeriodic (resumes n now ok) s c h = elim (Option-cases (lookup n s.tasks)) [
  | inl e ↦ rw (e, step) h
  | inr (t, e) ↦
      rw (e, step)
        (resume-IsPeriodic now ok t (record s { tasks = delete n s.tasks })
          (lookup-AllValues is_periodic n t s.tasks h.tasks e)
          (delete-AllValues is_periodic n s.tasks h.tasks)
          (ground (arith, h.flag, lookup-tally waits n t s.tasks e)) h.count)
]

run-IsPeriodic :
    {p : ℕ} (es : List Event) (s : Shell)
    → All Periodic es
    → IsPeriodic p s
    → IsPeriodic p (run es s)
unfolding run
run-IsPeriodic [] s c h = h
run-IsPeriodic (e ∷ es) s c h = run-IsPeriodic es (step e s) c.1 (step-IsPeriodic e s c.0 h)

-- The periodic refreshes never load anything: from a state with no refresh under way and no task waiting,
-- over every sequence of ticks, timers and pings in which the app stays online, its effect does not run
-- anew and nothing else asks for a refresh, the requests for the data are not begun once.
pub scheduled_never_loads :
    (es : List Event) (s : Shell)
    → s.tasks ≡ []
    → s.is_refreshing ≡ false
    → All Periodic es
    → (run es s).loads ≡ s.loads
scheduled_never_loads es s t f c =
    let h : IsPeriodic s.loads s = record {
      tasks = subst (AllValues is_periodic) (sym t) tt;
      flag = inr (f, subst (λ m. tally waits m ≡ 0) (sym t) refl);
      count = refl;
    } in
    (run-IsPeriodic es s c h).count

-- A refresh that is asked for directly does load, where no other is under way and the daemon answers.
pub direct_loads :
    (n : ℕ) (s : Shell)
    → s.is_refreshing ≡ false
    → (run (asks ∷ resumes s.next n true ∷ []) s).loads ≡ suc s.loads
unfolding run step resume pinged await_task lookup delete
direct_loads n s f = ground arith
