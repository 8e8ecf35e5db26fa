-- ===== src/LinkQueue.antt =====
-- The magnet links that the main process takes (ui/desktop/src/main/main.ts): from the command line, from
-- a second instance and from open-url, handed over to the renderer or kept until a window shows.
pub mod Trimmed
pub mod Delivery
mod Tests
use orc_torrent.Prelude.{
  ℕ, suc, Bool, true, false, Option, none, some, List, [], ◌∷◌, ◌++◌, if◌then◌else◌,
}
use orc_torrent.Prelude.Codes.{Text, codes, starts_with, trim}

-- `mainWindow`: null, destroyed, or neither
pub data Window : Type 0 where
  absent destroyed alive : Window

pub record Main : Type 0 where
  pub window : Window
  -- `pendingMagnetLinks`
  pub pending : List Text
  -- what went over the channel "magnet-link"
  pub sent : List Text

abbrev pub magnet_prefix : Text
magnet_prefix = codes "magnet:?"

abbrev pub is_alive : Window → Bool
is_alive alive = true
is_alive _ = false

-- The first argument tells whether `webContents.send` returns; where it throws, the link is kept.
unfoldable pub handle_magnet_link : Bool → Text → Main → Main
handle_magnet_link works url s =
    let trimmed = trim url in
    if starts_with magnet_prefix trimmed
    then (if is_alive s.window
        then (if works
            then record s { sent = s.sent ++ (trimmed ∷ []) }
            else record s { pending = s.pending ++ (trimmed ∷ []) })
        else record s { pending = s.pending ++ (trimmed ∷ []) })
    else s

unfoldable pub extract_magnet_from_argv : List Text → Option Text
extract_magnet_from_argv [] = none
extract_magnet_from_argv (a ∷ argv) =
    let rest = extract_magnet_from_argv argv in
    if starts_with magnet_prefix (trim a) then some (trim a) else rest

-- the loop over the pending links: what it sent, and whether it came to its end; `works i` tells whether
-- the i-th call of `send` returns
unfoldable pub send_each : (ℕ → Bool) → ℕ → List Text → List Text × Bool
send_each works i [] = ([], true)
send_each works i (x ∷ links) =
    let (out, ended) = send_each works (suc i) links in
    if works i then (x ∷ out, ended) else ([], false)

-- "Send any pending magnet links once window is ready"; the first argument tells whether the contents of
-- the window are there
unfoldable pub send_pending : Bool → (ℕ → Bool) → Main → Main
unfolding send_each
send_pending contents works s =
    if is_alive s.window
    then (if contents
        then (let (out, ended) = send_each works 0 s.pending in
            record s { sent = s.sent ++ out; pending = if ended then [] else s.pending })
        else s)
    else s

abbrev pub handle_first : Bool → Option Text → Main → Main
handle_first works none s = s
handle_first works (some url) s = handle_magnet_link works url s

pub data Event : Type 0 where
  -- the arguments of the first start, after the delay, or those of a second instance
  starts_with_argv : (works : Bool) (argv : List Text) → Event
  opens_url : (works : Bool) (url : Text) → Event
  ready_to_show : (contents : Bool) (works : ℕ → Bool) → Event
  window_becomes : (window : Window) → Event

unfoldable pub step : Event → Main → Main
unfolding handle_magnet_link extract_magnet_from_argv send_pending
step (starts_with_argv works argv) s = handle_first works (extract_magnet_from_argv argv) s
step (opens_url works url) s =
    if starts_with magnet_prefix url then handle_magnet_link works url s else s
step (ready_to_show contents works) s = send_pending contents works s
step (window_becomes window) s = record s { window = window }

unfoldable pub run : List Event → Main → Main
unfolding step
run [] s = s
run (e ∷ es) s = run es (step e s)
