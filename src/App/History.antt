-- ===== src/App/History.antt =====
-- The end of refreshAll in ui/App.tsx (ui/desktop/src/renderer): what the statuses of a refresh put into
-- the history. The two refs are maps from ids; a status is its state.
use orc_torrent.Prelude.{
  Bool, true, false, not, ◌&&◌, Option, none, some, List, [], ◌∷◌, ◌++◌, if◌then◌else◌,
}
use Prim.Native.String.{String}
use orc_torrent.Prelude.Assoc.{string_eq, lookup, insert, delete}
use orc_torrent.Types.{State, stopped, downloading, seeding, checking, error, same_state}

-- `createEvent`: its type, with the torrent
pub data HistoryEvent : Type 0 where
  torrent_completed torrent_error torrent_started torrent_stopped piece_verified :
      String → HistoryEvent

pub record Seen : Type 0 where
  -- `prevTorrentStates` and `notifiedTorrents`
  pub states : List (String × State)
  pub notified : List {0} (String × Unit)

-- the branches on a changed state
unfoldable pub change_events : String → State → State → List HistoryEvent
change_events id before error = torrent_error id ∷ []
change_events id before checking = piece_verified id ∷ []
change_events id stopped downloading = torrent_started id ∷ []
change_events id stopped seeding = torrent_started id ∷ []
change_events id downloading stopped = torrent_stopped id ∷ []
change_events id seeding stopped = torrent_stopped id ∷ []
change_events id _ _ = []

-- "Track state changes for event history": nothing for a torrent that was not seen before
unfoldable pub transition_events : String → Option State → State → List HistoryEvent
unfolding change_events
transition_events id none now = []
transition_events id (some before) now =
    if same_state before now then [] else change_events id before now

abbrev pub has_key : {V : Type 0} → String → List (String × V) → Bool
has_key id m = elim (lookup id m) [ none ↦ false | some v ↦ true ]

abbrev pub is_completion : Option State → State → Bool
is_completion (some downloading) seeding = true
is_completion _ _ = false

-- one turn of the loop over the results
unfoldable pub observe : String → State → Seen → Seen × List HistoryEvent
unfolding transition_events
observe id now s =
    let before = lookup id s.states in
    let completes = is_completion before now && not (has_key id s.notified) in
    let changes = transition_events id before now in
    (
      record {
        states = insert id now s.states;
        notified = if completes then insert id tt s.notified else s.notified;
      },
      (if completes then torrent_completed id ∷ changes else changes),
    )

unfoldable pub observe_all : List (String × State) → Seen → Seen × List HistoryEvent
unfolding observe
observe_all [] s = (s, [])
observe_all ((id, now) ∷ results) s =
    let (t, es) = observe id now s in let (u, fs) = observe_all results t in (u, es ++ fs)

abbrev pub is_listed : String → List String → Bool
is_listed id [] = false
is_listed id (j ∷ ids) = if string_eq.beq j id then true else is_listed id ids

-- the loop that forgets the torrents that are not listed any more, over the entries there were
unfoldable pub forget : List String → List (String × State) → Seen → Seen
forget ids [] s = s
forget ids ((id, b) ∷ entries) s = forget ids entries (
    if is_listed id ids
    then s
    else record { states = delete id s.states; notified = delete id s.notified })

-- A refresh: the ids that are listed, and the statuses that were fetched for some of them.
unfoldable pub observe_refresh :
    List String → List (String × State) → Seen → Seen × List HistoryEvent
unfolding observe_all forget
observe_refresh ids results s = let (t, es) = observe_all results s in (forget ids t.states t, es)
