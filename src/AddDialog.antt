-- ===== src/AddDialog.antt =====
-- The dialog that asks for the files of a torrent that was added (handleTorrentAdded and the Escape key's handler of
-- ui/desktop/src/renderer/ui/App.tsx): its timer, its requests, and the torrent that it waits for. Timers go by
-- numbers.
pub mod Only
mod Tests
use orc_torrent.Prelude.{
  ℕ, suc, Bool, true, false, ◌||◌, Option, none, some, List, [], ◌∷◌, if◌then◌else◌,
}
use Prim.Native.String.{String}
use orc_torrent.Prelude.Assoc.{string_eq, nat_eq, lookup, delete}

pub record FileDialog : Type 0 where
  -- `pendingDialogOpenRef` and `dialogOpenTimeoutRef`
  pub pending : Option String
  pub timeout : Option ℕ
  -- `pendingTorrentId`, and whether the dialog shows
  pub torrent : Option String
  pub shows : Bool
  -- the timers that run, and the requests that they led to
  pub timers : List (ℕ × String)
  pub requests : List (ℕ × String)
  pub next : ℕ
  -- the torrents that the dialog opened for, and those that a modal says are there, the newest first
  pub opened : List String
  pub found : List String

-- what the two requests give: a torrent that has some of its data already, another one, or an error
pub data DialogReply : Type 0 where
  has_data is_new fails : DialogReply

pub data Event : Type 0 where
  -- a torrent is added, with its files at hand or not
  adds : String → Bool → Event
  fires : ℕ → Event
  replies : ℕ → DialogReply → Event
  escapes : Event

abbrev pub same_torrent : Option String → String → Bool
same_torrent none id = false
same_torrent (some j) id = string_eq.beq j id

abbrev pub stop_timer : Option ℕ → List (ℕ × String) → List (ℕ × String)
stop_timer none timers = timers
stop_timer (some n) timers = delete n timers

abbrev pub await_dialog : String → FileDialog → FileDialog
await_dialog id s = record s {
  pending = some id;
  timeout = some s.next;
  timers = (s.next, id) ∷ stop_timer s.timeout s.timers;
  next = suc s.next;
}

unfoldable pub handle_torrent_added : String → Bool → FileDialog → FileDialog
handle_torrent_added id show_file_dialog s =
    if show_file_dialog
    then (if same_torrent s.pending id || same_torrent s.torrent id then s else await_dialog id s)
    else s

abbrev pub timer_fires : Option String → ℕ → FileDialog → FileDialog
timer_fires none n s = s
timer_fires (some id) n s = record s { timers = delete n s.timers; requests = (n, id) ∷ s.requests }

abbrev pub open_dialog : String → FileDialog → FileDialog
open_dialog id s = record s {
  torrent = some id;
  shows = true;
  pending = none;
  timeout = none;
  opened = id ∷ s.opened;
}

-- what follows the requests while the torrent is still the one waited for
abbrev pub show_reply : DialogReply → String → FileDialog → FileDialog
show_reply has_data id s = record s { pending = none; timeout = none; found = id ∷ s.found }
show_reply is_new id s = open_dialog id s
show_reply fails id s = open_dialog id s

abbrev pub reply_to : Option String → ℕ → DialogReply → FileDialog → FileDialog
reply_to none n r s = s
reply_to (some id) n r s =
    let t = record s { requests = delete n s.requests } in
    if same_torrent s.pending id then show_reply r id t else record t { timeout = none }

-- Escape closes the dialog where it shows.
abbrev pub escape_dialog : FileDialog → FileDialog
escape_dialog s =
    if s.shows
    then record s {
      shows = false;
      pending = none;
      timers = stop_timer s.timeout s.timers;
      timeout = none;
      torrent = none;
    }
    else s

unfoldable pub step : Event → FileDialog → FileDialog
unfolding handle_torrent_added
step (adds id b) s = handle_torrent_added id b s
step (fires n) s = timer_fires (lookup n s.timers) n s
step (replies n r) s = reply_to (lookup n s.requests) n r s
step escapes s = escape_dialog s

unfoldable pub run : List Event → FileDialog → FileDialog
unfolding step
run [] s = s
run (e ∷ es) s = run es (step e s)
