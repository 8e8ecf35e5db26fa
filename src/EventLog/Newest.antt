-- ===== src/EventLog/Newest.antt =====
-- What the history of events holds (utils/eventService.ts of ui/desktop/src/renderer).
use orc_torrent.Prelude.{
  inl, inr, sym, Bool-cases, ℕ, zero, suc, ◌≤◌, ◌≡◌, refl, ap, arith, List, [], ◌∷◌, length, take,
  ltb,
}
use mathlib.Core.Path.{◌∙◌}
use orc_torrent.EventLog.{
  TorrentEvent, max_events, add_event, create_event, Change, pushes, clears, step, run,
}

module _ {A : Type 0} where
  take-all : (n : ℕ) (xs : List A) → length xs ≤ n → take n xs ≡ xs
  take-all zero [] h = refl
  take-all (suc n) [] h = refl
  take-all zero (x ∷ xs) h = absurd (omega (arith, h))
  take-all (suc n) (x ∷ xs) h = ap (λ t. x ∷ t) (take-all n xs (omega (arith, h)))

  -- what is cut off first does not count
  take-take : (n : ℕ) (xs : List A) → take n (take (suc n) xs) ≡ take n xs
  take-take zero xs = refl
  take-take (suc n) [] = refl
  take-take (suc n) (x ∷ xs) = ap (λ t. x ∷ t) (take-take n xs)

-- `addEvent` puts the event before the others and keeps a thousand.
pub add_event-take :
    (e : TorrentEvent) (xs : List TorrentEvent) → add_event xs e ≡ take max_events (e ∷ xs)
unfolding add_event
add_event-take e xs = elim (Bool-cases (ltb max_events (length (e ∷ xs)))) [
  | inl h ↦ rw h refl
  | inr h ↦ rw h (sym (take-all max_events (e ∷ xs) (ground (arith, h))))
]

add_event-kept :
    (e : TorrentEvent) (xs : List TorrentEvent)
    → add_event (take max_events xs) e ≡ take max_events (e ∷ xs)
add_event-kept e xs = add_event-take e (take max_events xs) ∙ ap (λ t. e ∷ t) (take-take 999 xs)

-- the history with no bound
abbrev pub unbounded : List Change → ℕ → List TorrentEvent → List TorrentEvent
unbounded [] n all = all
unbounded (pushes id_time now d ∷ changes) n all =
    unbounded changes (suc n) ((create_event id_time now d n).0 ∷ all)
unbounded (clears ∷ changes) n all = unbounded changes n []

-- Over every sequence of events pushed and of the list cleared, the list is the first thousand of what it
-- would be with no bound, newest first.
pub run-unbounded :
    (changes : List Change) (n : ℕ) (all : List TorrentEvent)
    → (run changes (record { counter = n; events = take max_events all })).events
      ≡ take max_events (unbounded changes n all)
unfolding run step create_event
run-unbounded [] n all = refl
run-unbounded (pushes id_time now d ∷ changes) n all =
    ap (λ events. (run changes (record { counter = suc n; events = events })).events)
      (add_event-kept (create_event id_time now d n).0 all)
    ∙ run-unbounded changes (suc n) ((create_event id_time now d n).0 ∷ all)
run-unbounded (clears ∷ changes) n all = run-unbounded changes n []
