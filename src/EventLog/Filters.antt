-- ===== src/EventLog/Filters.antt =====
-- The filters of the events' page (components/EventsPage.tsx of ui/desktop/src/renderer).
use orc_torrent.Prelude.{
  ◌≡◌, refl, sym, ltb, lt→ltb, suc, ◌∙◌, ap, arith, Bool, true, ◌&&◌, List, [], ◌∷◌, length,
  if◌then◌else◌,
}
use orc_torrent.Prelude.Codes.{Text, trim}
use orc_torrent.EventLog.{
  TorrentEvent, EventType, EventSeverity, type_place, severity_place, is_type_in, is_severity_in,
  mentions, filter, filter_events_by_type, filter_events_by_severity, search_events,
  filtered_events,
}

filter-filter :
    (p q : TorrentEvent → Bool) (events : List TorrentEvent)
    → filter q (filter p events) ≡ filter (λ e. p e && q e) events
unfolding filter
filter-filter p q [] = refl
filter-filter p q (e ∷ events) = ground (arith, filter-filter p q events)

filter-true : (events : List TorrentEvent) → filter (λ e. true) events ≡ events
unfolding filter
filter-true [] = refl
filter-true (e ∷ events) = ap (λ t. e ∷ t) (filter-true events)

-- the three tests of one event; an empty choice of types or severities and a blank query let all pass
abbrev pub any_type : List EventType → TorrentEvent → Bool
any_type [] e = true
any_type (t ∷ types) e = is_type_in (type_place e.type) (t ∷ types)

abbrev pub any_severity : List EventSeverity → TorrentEvent → Bool
any_severity [] e = true
any_severity (t ∷ severities) e = is_severity_in (severity_place e.severity) (t ∷ severities)

abbrev pub blank_or : Text → Bool → Bool
blank_or [] b = true
blank_or (c ∷ s) b = b

by_type :
    (types : List EventType) (events : List TorrentEvent)
    → (if ltb 0 (length types) then filter_events_by_type events types else events)
      ≡ filter (any_type types) events
unfolding filter_events_by_type
by_type [] events = sym (filter-true events)
by_type (t ∷ types) events = rw (lt→ltb 0 (suc (length types)) (omega arith)) refl

by_severity :
    (severities : List EventSeverity) (events : List TorrentEvent)
    → (if ltb 0 (length severities) then filter_events_by_severity events severities else events)
      ≡ filter (any_severity severities) events
unfolding filter_events_by_severity
by_severity [] events = sym (filter-true events)
by_severity (t ∷ severities) events = rw (lt→ltb 0 (suc (length severities)) (omega arith)) refl

by_query :
    (lower : Text → Text) (query : Text) (events : List TorrentEvent) (s : Text)
    → trim query ≡ s
    → elim s [ [] ↦ events | _ ∷ _ ↦ search_events lower events query ]
      ≡ filter (λ e. blank_or s (mentions lower (lower query) e)) events
unfolding search_events
by_query lower query events [] h = sym (filter-true events)
by_query lower query events (c ∷ s) h = rw (h, search_events) refl

-- The page's list is one pass over the history that keeps the events that pass all three tests.
pub filtered_events-filter :
    (lower : Text → Text) (types : List EventType) (severities : List EventSeverity) (query : Text)
    (events : List TorrentEvent)
    → filtered_events lower types severities query events
      ≡ filter
          (λ e.
            (any_type types e && any_severity severities e)
            && blank_or (trim query) (mentions lower (lower query) e))
          events
unfolding filtered_events
filtered_events-filter lower types severities query events =
    let p = any_type types in
    let q = any_severity severities in
    let r : TorrentEvent → Bool = λ e. blank_or (trim query) (mentions lower (lower query) e) in
    let page : List TorrentEvent → List TorrentEvent =
      λ x. elim (trim query) [ [] ↦ x | _ ∷ _ ↦ search_events lower x query ] in
    let chosen : List TorrentEvent → List TorrentEvent =
      λ x. if ltb 0 (length severities) then filter_events_by_severity x severities else x in
    ap (λ x. page (chosen x)) (by_type types events)
    ∙ ap page (by_severity severities (filter p events))
    ∙ by_query lower query (filter q (filter p events)) (trim query) refl
    ∙ ap (filter r) (filter-filter p q events)
    ∙ filter-filter (λ e. p e && q e) r events
