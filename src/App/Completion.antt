-- ===== src/App/Completion.antt =====
-- The history that refreshAll of ui/App.tsx (ui/desktop/src/renderer) writes: what it remembers of a
-- torrent, and how often it reports a completion.
use orc_torrent.Prelude.{
  ℕ, ◌+◌, ◌≤◌, ◌≡◌, inl, inr, refl, ap, ◌∙◌, arith, true, Option, none, some, List, [], ◌∷◌, ◌++◌,
  Bool-cases, if◌then◌else◌, All,
}
use Prim.Native.String.{String}
use orc_torrent.Prelude.Assoc.{string_eq, lookup, delete, lookup-insert, lookup-delete}
use orc_torrent.Types.{State, stopped, downloading, seeding, checking, error}
use orc_torrent.App.History.{
  HistoryEvent, torrent_completed, torrent_error, torrent_started, torrent_stopped, piece_verified,
  Seen, change_events, transition_events, has_key, observe, observe_all, forget, is_listed,
  observe_refresh,
}

-- how often a torrent's completion is reported
abbrev pub completions : String → List HistoryEvent → ℕ
completions id [] = 0
completions id (torrent_completed j ∷ es) =
    (if string_eq.beq j id then 1 else 0) + completions id es
completions id (_ ∷ es) = completions id es

completions-append :
    (id : String) (es fs : List HistoryEvent)
    → completions id (es ++ fs) ≡ completions id es + completions id fs
completions-append id [] fs = omega arith
completions-append id (torrent_completed j ∷ es) fs = omega (arith, completions-append id es fs)
completions-append id (torrent_error j ∷ es) fs = completions-append id es fs
completions-append id (torrent_started j ∷ es) fs = completions-append id es fs
completions-append id (torrent_stopped j ∷ es) fs = completions-append id es fs
completions-append id (piece_verified j ∷ es) fs = completions-append id es fs

change_events-completions :
    (id j : String) (b now : State) → completions id (change_events j b now) ≡ 0
unfolding change_events
change_events-completions id j b error = refl
change_events-completions id j b checking = refl
change_events-completions id j stopped stopped = refl
change_events-completions id j stopped downloading = refl
change_events-completions id j stopped seeding = refl
change_events-completions id j downloading now = refl
change_events-completions id j seeding now = refl
change_events-completions id j _ _ = refl

transition_events-completions :
    (id j : String) (b : Option State) (now : State)
    → completions id (transition_events j b now) ≡ 0
unfolding transition_events
transition_events-completions id j none now = refl
transition_events-completions id j (some b) now =
    ground (arith, change_events-completions id j b now)

-- one while the torrent's completion may still be reported
abbrev pub credit : String → Seen → ℕ
credit id s = if has_key id s.notified then 0 else 1

-- A turn of the loop reports a torrent's completion only by using up its credit.
observe-credit :
    (id j : String) (now : State) (s : Seen)
    → completions id (observe j now s).1 + credit id (observe j now s).0 ≤ credit id s
unfolding observe
observe-credit id j now s =
    let n = transition_events-completions id j (lookup j s.states) now in
    ground (arith, n, lookup-insert j id tt s.notified, string_eq.beq_iff j id)

observe_all-credit :
    (id : String) (results : List (String × State)) (s : Seen)
    → completions id (observe_all results s).1 + credit id (observe_all results s).0 ≤ credit id s
unfolding observe_all
observe_all-credit id [] s = omega arith
observe_all-credit id ((j, now) ∷ results) s =
    let t = (observe j now s).0 in
    omega (
      arith,
      observe-credit id j now s,
      observe_all-credit id results t,
      completions-append id (observe j now s).1 (observe_all results t).1,
    )

-- A torrent that is listed is not forgotten.
forget-notified :
    (id : String) (ids : List String) (entries : List (String × State)) (s : Seen)
    → is_listed id ids ≡ true
    → lookup id (forget ids entries s).notified ≡ lookup id s.notified
unfolding forget
forget-notified id ids [] s h = refl
forget-notified id ids ((j, b) ∷ entries) s h = elim (Bool-cases (is_listed j ids)) [
  | inl l ↦ rw (l, forget) (forget-notified id ids entries s h)
  | inr l ↦
      rw (l, forget)
        (forget-notified id ids entries
            (record { states = delete j s.states; notified = delete j s.notified }) h
          ∙ ground (arith, l, h, lookup-delete j id s.notified, string_eq.beq_iff j id))
]

-- one refresh after the other, each with the ids that it lists and the statuses that it fetched
pub refreshes : List (List String × List (String × State)) → Seen → Seen × List HistoryEvent
refreshes [] s = (s, [])
refreshes ((ids, results) ∷ rest) s =
    let (t, es) = observe_refresh ids results s in let (u, fs) = refreshes rest t in (u, es ++ fs)

refreshes-credit :
    (id : String) (rs : List (List String × List (String × State))) (s : Seen)
    → All (λ r. is_listed id r.0 ≡ true) rs
    → completions id (refreshes rs s).1 + credit id (refreshes rs s).0 ≤ credit id s
unfolding refreshes observe_refresh
refreshes-credit id [] s h = omega arith
refreshes-credit id ((ids, results) ∷ rest) s h =
    let t = (observe_all results s).0 in
    let u = forget ids t.states t in
    let k : credit id u ≡ credit id t = ground (arith, forget-notified id ids t.states t h.0) in
    omega (
      arith,
      observe_all-credit id results s,
      refreshes-credit id rest u h.1,
      k,
      completions-append id (observe_all results s).1 (refreshes rest u).1,
    )

-- A torrent's completion is reported once at most, over every sequence of refreshes that all list the
-- torrent, whatever its states are, and not at all where it was reported before.
pub completed_once :
    (id : String) (rs : List (List String × List (String × State))) (s : Seen)
    → All (λ r. is_listed id r.0 ≡ true) rs
    → completions id (refreshes rs s).1 ≤ credit id s
completed_once id rs s h = omega (arith, refreshes-credit id rs s h)

-- the state that the results give a torrent last, or the one before
pub last_state : String → List (String × State) → Option State → Option State
last_state id [] before = before
last_state id ((j, now) ∷ results) before =
    last_state id results (if string_eq.beq j id then some now else before)

observe_all-states :
    (id : String) (results : List (String × State)) (s : Seen)
    → lookup id (observe_all results s).0.states ≡ last_state id results (lookup id s.states)
unfolding observe_all observe last_state
observe_all-states id [] s = refl
observe_all-states id ((j, now) ∷ results) s =
    observe_all-states id results (observe j now s).0
    ∙ ap (last_state id results) (lookup-insert j id now s.states)

forget-states :
    (id : String) (ids : List String) (entries : List (String × State)) (s : Seen)
    → lookup id (forget ids entries s).states ≡ (
        if is_listed id ids
        then lookup id s.states
        else if has_key id entries
        then none
        else lookup id s.states)
unfolding forget lookup
forget-states id ids [] s = ground arith
forget-states id ids ((j, b) ∷ entries) s = elim (Bool-cases (is_listed j ids)) [
  | inl l ↦
      rw (l, forget) (forget-states id ids entries s ∙ ground (arith, l, string_eq.beq_iff j id))
  | inr l ↦
      rw (l, forget)
        (forget-states id ids entries
            (record { states = delete j s.states; notified = delete j s.notified })
          ∙ ground (arith, l, lookup-delete j id s.states, string_eq.beq_iff j id))
]

-- After a refresh the shell remembers, of each torrent that is listed, the last state that was fetched for
-- it, or the state before where none was, and of any other torrent nothing.
pub observe_refresh-states :
    (id : String) (ids : List String) (results : List (String × State)) (s : Seen)
    → lookup id (observe_refresh ids results s).0.states
      ≡ (if is_listed id ids then last_state id results (lookup id s.states) else none)
unfolding observe_refresh
observe_refresh-states id ids results s =
    let t = (observe_all results s).0 in
    forget-states id ids t.states t ∙ ground (arith, observe_all-states id results s)
