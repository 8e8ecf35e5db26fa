-- ===== src/EventLog/Ids.antt =====
-- The ids of the history of events (utils/eventService.ts of ui/desktop/src/renderer).
use orc_torrent.Prelude.{ℕ, zero, suc, ◌≤◌, ◌<◌, ◌≢◌, ap, arith, List, [], ◌∷◌, take, All}
use orc_torrent.EventLog.Newest.{add_event-take}
use orc_torrent.EventLog.{
  TorrentEvent, max_events, Log, create_event, Change, pushes, clears, step, run,
}

-- Each event goes by an id of its own.
abbrev pub Distinct : List TorrentEvent → Type 0
Distinct [] = Unit
Distinct (e ∷ events) = All (λ f. e.id ≢ f.id) events × Distinct events

-- no number past the counter was given, and the numbers fall along the list
abbrev Falls : ℕ → List TorrentEvent → Type 0
Falls n [] = Unit
Falls n (e ∷ events) = (e.id.1 < n) × Falls e.id.1 events

take-Falls : (k n : ℕ) (events : List TorrentEvent) → Falls n events → Falls n (take k events)
take-Falls zero n events h = tt
take-Falls (suc k) n [] h = tt
take-Falls (suc k) n (e ∷ events) h = (h.0, take-Falls k e.id.1 events h.1)

Falls-below :
    (e : TorrentEvent) (n : ℕ) (events : List TorrentEvent)
    → Falls n events
    → n ≤ e.id.1
    → All (λ f. e.id ≢ f.id) events
Falls-below e n [] h k = tt
Falls-below e n (f ∷ events) h k = (
  λ q. omega (arith, ap (λ p. p.1) q, h.0, k),
  Falls-below e f.id.1 events h.1 (omega (arith, h.0, k)),
)

Falls-Distinct : (n : ℕ) (events : List TorrentEvent) → Falls n events → Distinct events
Falls-Distinct n [] h = tt
Falls-Distinct n (e ∷ events) h =
    (Falls-below e e.id.1 events h.1 (omega arith), Falls-Distinct e.id.1 events h.1)

step-Falls :
    (c : Change) (s : Log)
    → Falls (suc s.counter) s.events
    → Falls (suc (step c s).counter) (step c s).events
unfolding step create_event
step-Falls (pushes id_time now d) s h =
    let e = (create_event id_time now d s.counter).0 in
    rw (add_event-take e s.events)
      (take-Falls max_events (suc (suc s.counter)) (e ∷ s.events) (omega arith, h))
step-Falls clears s h = tt

run-Falls :
    (changes : List Change) (s : Log)
    → Falls (suc s.counter) s.events
    → Falls (suc (run changes s).counter) (run changes s).events
unfolding run
run-Falls [] s h = h
run-Falls (c ∷ changes) s h = run-Falls changes (step c s) (step-Falls c s h)

abbrev pub fresh : Log
fresh = record { counter = 0; events = [] }

-- Over every sequence of events pushed and of the list cleared, whatever the clock says, each event of the
-- list goes by an id of its own.
pub run-Distinct : (changes : List Change) → Distinct (run changes fresh).events
run-Distinct changes =
    Falls-Distinct (suc (run changes fresh).counter) (run changes fresh).events
      (run-Falls changes fresh tt)
