-- ===== src/TorrentFile.antt =====
-- The torrent files that the system opens with the app (ui/desktop/src/main/main.ts): their paths, and their
-- way to the renderer through one pending slot and one retry interval. `toLowerCase`, `path.resolve`, which
-- may throw, and the file system are arguments.
pub mod Quotes
pub mod Slot
pub mod Lost
mod Tests
use orc_torrent.Prelude.{
  ℕ, suc, Bool, true, false, not, ◌&&◌, ◌||◌, Option, none, some, List, [], ◌∷◌, ◌++◌, map, drop,
  length, leb, ◌==◌, if◌then◌else◌,
}
use orc_torrent.Prelude.Codes.{Text, codes, starts_with, ends_with, trim}
use orc_torrent.LinkQueue.{Window, absent, alive, is_alive}

abbrev pub double_quote : Text
double_quote = 0x22 ∷ []

abbrev pub single_quote : Text
single_quote = 0x27 ∷ []

-- `slice(1, -1)`
abbrev pub but_last : Text → Text
but_last [] = []
but_last (c ∷ []) = []
but_last (c ∷ d ∷ s) = c ∷ but_last (d ∷ s)

unfoldable pub quoted_by : Text → Text → Bool
quoted_by q s = starts_with q s && ends_with q s

unfoldable pub strip_quotes : Text → Text
unfolding quoted_by
strip_quotes s =
    if quoted_by double_quote s || quoted_by single_quote s then but_last (drop 1 s) else s

-- `\\`, `\\?`, `\\?\` and `\\?\UNC\`
abbrev pub unc : Text
unc = 0x5c ∷ 0x5c ∷ []

abbrev pub unc_long : Text
unc_long = 0x5c ∷ 0x5c ∷ 0x3f ∷ 0x5c ∷ 0x55 ∷ 0x4e ∷ 0x43 ∷ 0x5c ∷ []

abbrev pub device : Text
device = 0x5c ∷ 0x5c ∷ 0x3f ∷ []

-- `replace(/\//g, …)`
abbrev pub replace_slashes : ℕ → Text → Text
replace_slashes c s = map (λ x. if x == 0x2f then c else x) s

unfoldable pub strip_unc_long : Text → Text
strip_unc_long s = if starts_with unc_long s then unc ++ drop 8 s else s

-- `path.resolve`, and what is done where it throws; the first argument is `path.sep`
abbrev pub resolve_or_keep : ℕ → (Text → Option Text) → Text → Text
resolve_or_keep sep resolve s = elim (resolve s) [ none ↦ replace_slashes sep s | some p ↦ p ]

unfoldable pub normalize_path : ℕ → (Text → Option Text) → Text → Text
unfolding strip_unc_long
normalize_path sep resolve s =
    let p = strip_unc_long s in
    if starts_with unc p && not (starts_with device p)
    then replace_slashes 0x5c p
    else resolve_or_keep sep resolve p

unfoldable pub normalize_torrent_file_path : ℕ → (Text → Option Text) → Text → Text
unfolding strip_quotes normalize_path
normalize_torrent_file_path sep resolve [] = []
normalize_torrent_file_path sep resolve (c ∷ s) =
    normalize_path sep resolve (strip_quotes (trim (c ∷ s)))

-- what the file system says of a path
pub data Found : Type 0 where
  missing too_large unreadable : Found
  -- the text in base 64, and the name
  content : Text → Text → Found

pub record Data : Type 0 where
  pub base64 : Text
  pub file_name : Text

-- the callback of `torrentFileRetryInterval`
pub record Retry : Type 0 where
  pub file : Data
  pub retry_count : ℕ

pub record Desk : Type 0 where
  pub window : Window
  -- the window's contents are there and show a page
  pub loaded : Bool
  -- `pendingTorrentFile`
  pub pending : Option Data
  pub interval : Option Retry
  -- what went over the channel "open-torrent-file"
  pub sent : List Data
  -- the error boxes shown
  pub errors : ℕ

abbrev pub max_file_retries : ℕ
max_file_retries = 10

-- `sendToRenderer` can send; the first argument tells whether `send` returns
abbrev pub can_send : Bool → Desk → Bool
can_send works s = is_alive s.window && (s.loaded && works)

-- sending at once, or keeping the file and starting the interval anew
unfoldable pub deliver : Bool → Data → Desk → Desk
deliver works d s =
    if can_send works s
    then record s { sent = s.sent ++ (d ∷ []) }
    else record s { pending = some d; interval = some (record { file = d; retry_count = 0 }) }

abbrev pub show_error : Desk → Desk
show_error s = record s { errors = suc s.errors }

-- the box for a file that is too large needs a window
abbrev pub open_found : Bool → Found → Desk → Desk
open_found works missing s = show_error s
open_found works too_large s = if is_alive s.window then show_error s else s
open_found works unreadable s = show_error s
open_found works (content base64 name) s =
    deliver works (record { base64 = base64; file_name = name }) s

-- the interval's callback, after it counted
unfoldable pub retry : Bool → Retry → Desk → Desk
retry works r s =
    if can_send works s
    then record s { sent = s.sent ++ (r.file ∷ []); pending = none; interval = none }
    else if leb max_file_retries (suc r.retry_count)
    then (let t = record s { interval = none } in if is_alive s.window then show_error t else t)
    else record s { interval = some (record r { retry_count = suc r.retry_count }) }

abbrev pub retry_any : Bool → Option Retry → Desk → Desk
retry_any works none s = s
retry_any works (some r) s = retry works r s

-- "Send any pending torrent file once window is ready"; the contents are there or not, `send` returns or not
abbrev pub send_pending_file : Bool → Option Data → Desk → Desk
send_pending_file works none s = s
send_pending_file works (some d) s =
    if is_alive s.window && works then record s { sent = s.sent ++ (d ∷ []); pending = none } else s

pub data Event : Type 0 where
  opens_file : (works : Bool) (path : Text) → Event
  ticks : (works : Bool) → Event
  ready_to_show : (works : Bool) → Event
  window_becomes : (window : Window) (loaded : Bool) → Event
  quits : Event

module _ (lower : Text → Text) (sep : ℕ) (resolve : Text → Option Text) (found : Text → Found) where
  unfoldable pub handle_torrent_file : Bool → Text → Desk → Desk
  unfolding deliver normalize_torrent_file_path
  handle_torrent_file works path s =
      if ends_with (codes ".torrent") (lower path)
      then open_found works (found (normalize_torrent_file_path sep resolve path)) s
      else s

  unfoldable pub step : Event → Desk → Desk
  unfolding handle_torrent_file retry
  step (opens_file works path) s = handle_torrent_file works path s
  step (ticks works) s = retry_any works s.interval s
  step (ready_to_show works) s = send_pending_file works s.pending s
  step (window_becomes window loaded) s = record s { window = window; loaded = loaded }
  step quits s = record s { interval = none }

  unfoldable pub run : List Event → Desk → Desk
  unfolding step
  run [] s = s
  run (e ∷ es) s = run es (step e s)
