-- ===== src/App/Refresh.antt =====
-- refreshAll, scheduleRefresh and the interval of ui/App.tsx (ui/desktop/src/renderer), cut at their
-- awaits: what is left of a call waits as a task, and any task may be resumed next. Timers and tasks are
-- numbered.
use orc_torrent.Prelude.{
  ℕ, suc, ◌-◌, Bool, true, false, not, ◌&&◌, ◌||◌, Option, none, some, List, [], ◌∷◌, leb, ◌==◌,
  if◌then◌else◌,
}
use orc_torrent.Prelude.Assoc.{nat_eq, lookup, delete}

abbrev pub min_refresh_interval : ℕ
min_refresh_interval = 1000

-- who called `refreshAll`: scheduleRefresh, which resets the flag when the call ends, or another place
pub data Caller : Type 0 where
  scheduled direct : Caller

-- What a task waits for: the interval's ping, with the `online` that its closure has; the ping of
-- `refreshAll`; and the requests behind it.
pub data Task : Type 0 where
  interval_ping : Bool → Task
  pinging loading : Caller → Task

pub record Shell : Type 0 where
  pub online : Bool
  pub is_refreshing : Bool
  -- `debouncedRefreshAll`, a timer's number
  pub debounced : Option ℕ
  pub last_refresh : ℕ
  pub tasks : List (ℕ × Task)
  pub next : ℕ
  -- how often the requests for the data were begun
  pub loads : ℕ

unfoldable pub await_task : Task → Shell → Shell
await_task t s = record s { tasks = (s.next, t) ∷ s.tasks; next = suc s.next }

-- the end of a call of `refreshAll`
unfoldable pub return_to : Caller → Shell → Shell
return_to scheduled s = record s { is_refreshing = false }
return_to direct s = s

-- `refreshAll` behind its ping, whose outcome sets `online`
unfoldable pub pinged : Bool → Caller → Shell → Shell
unfolding await_task return_to
pinged ok c s =
    let t = record s { online = ok } in
    if not ok || t.is_refreshing
    then return_to c t
    else await_task (loading c) (record t { is_refreshing = true; loads = suc t.loads })

-- a call of `refreshAll` with the flag that its caller sets before it
unfoldable pub begin_scheduled : ℕ → Shell → Shell
unfolding await_task
begin_scheduled now s =
    await_task (pinging scheduled) (record s { last_refresh = now; is_refreshing = true })

unfoldable pub schedule_refresh : ℕ → Shell → Shell
unfolding begin_scheduled
schedule_refresh now s =
    if s.is_refreshing
    then s
    else if leb min_refresh_interval (now - s.last_refresh)
    then begin_scheduled now (record s { debounced = none })
    else record s { debounced = some s.next; next = suc s.next }

-- the timer of `debouncedRefreshAll`
unfoldable pub debounce_fires : ℕ → ℕ → Shell → Shell
unfolding begin_scheduled
debounce_fires n now s = elim s.debounced [
  | none ↦ s
  | some m ↦ if m == n then record (begin_scheduled now s) { debounced = none } else s
]

-- the interval's callback behind its ping
unfoldable pub interval_pinged : ℕ → Bool → Bool → Shell → Shell
unfolding schedule_refresh await_task
interval_pinged now ok was_online s =
    let t = record s { online = ok } in
    if ok && not was_online
    then await_task (pinging direct) (record t { last_refresh = now })
    else if was_online
    then schedule_refresh now t
    else t

-- The effect runs anew when `online` changes: its cleanup clears the timer.
unfoldable pub effect_runs : ℕ → Shell → Shell
unfolding await_task
effect_runs now s =
    let t = record s { debounced = none } in
    if t.online then await_task (pinging direct) (record t { last_refresh = now }) else t

unfoldable pub resume : ℕ → Bool → Task → Shell → Shell
unfolding interval_pinged pinged return_to
resume now ok (interval_ping was_online) s = interval_pinged now ok was_online s
resume now ok (pinging c) s = pinged ok c s
resume now ok (loading c) s = return_to c (record s { is_refreshing = false })

-- the interval ticks, with the `online` of its closure, another place refreshes, the effect runs, the timer fires, a task goes on with
-- the outcome of its ping
pub data Event : Type 0 where
  ticks : Bool → Event
  asks : Event
  runs_effect : ℕ → Event
  fires : ℕ → ℕ → Event
  resumes : ℕ → ℕ → Bool → Event

unfoldable pub step : Event → Shell → Shell
unfolding resume effect_runs debounce_fires await_task
step (ticks was_online) s = await_task (interval_ping was_online) s
step asks s = await_task (pinging direct) s
step (runs_effect now) s = effect_runs now s
step (fires n now) s = debounce_fires n now s
step (resumes n now ok) s = elim (lookup n s.tasks) [
  | none ↦ s
  | some t ↦ resume now ok t (record s { tasks = delete n s.tasks })
]

unfoldable pub run : List Event → Shell → Shell
run [] s = s
run (e ∷ es) s = run es (step e s)
