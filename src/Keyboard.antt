-- ===== src/Keyboard.antt =====
-- The keyboard shortcuts (ui/desktop/src/renderer: utils/keyboard.ts, and the shortcuts of ui/App.tsx with what they
-- open and close). `toLowerCase` is an argument.
pub mod Escape
pub mod First
mod Tests
use orc_torrent.Prelude.{
  Bool, true, false, not, ◌&&◌, ◌||◌, Option, none, some, List, [], ◌∷◌, ◌++◌, if◌then◌else◌,
}
use orc_torrent.Prelude.Codes.{Text, codes}
use orc_torrent.Country.{same_text}

-- a `keydown` event; `in_field` is the test of its target
pub record KeyEvent : Type 0 where
  pub key : Text
  pub code : Text
  pub ctrl_key : Bool
  pub meta_key : Bool
  pub shift_key : Bool
  pub alt_key : Bool
  pub in_field : Bool

-- The handlers of ui/App.tsx go by names.
pub data Handler : Type 0 where
  add_magnet add_file focus_search show_help close_all : Handler

pub record Shortcut : Type 0 where
  pub key : Text
  pub ctrl : Option Bool
  pub shift : Option Bool
  pub alt : Option Bool
  pub meta : Option Bool
  pub handler : Handler

-- `===` on Booleans, where the shortcut says something
abbrev pub agrees : Option Bool → Bool → Bool
agrees none b = true
agrees (some true) b = b
agrees (some false) b = not b

abbrev pub escape : Text
escape = codes "Escape"

module _ (lower : Text → Text) where
  unfoldable pub key_matches : KeyEvent → Text → Bool
  key_matches e key =
      same_text (lower e.key) (lower key) || same_text (lower e.code) (lower (codes "key" ++ key))

  unfoldable pub matches_shortcut : KeyEvent → Shortcut → Bool
  unfolding key_matches
  matches_shortcut e s =
      key_matches e s.key
      && agrees s.ctrl (e.ctrl_key || e.meta_key)
      && agrees s.shift e.shift_key
      && agrees s.alt e.alt_key
      && agrees s.meta e.meta_key

  -- the loop, up to its `break`
  unfoldable pub first_match : KeyEvent → List Shortcut → Option Handler
  unfolding matches_shortcut
  first_match e [] = none
  first_match e (s ∷ shortcuts) =
      let rest = first_match e shortcuts in if matches_shortcut e s then some s.handler else rest

  -- which handler a key calls
  unfoldable pub handle_key_down : List Shortcut → KeyEvent → Option Handler
  unfolding first_match
  handle_key_down shortcuts e =
      if e.in_field && same_text e.key escape
      then none
      else if e.in_field && not (e.ctrl_key || e.meta_key)
      then none
      else first_match e shortcuts

abbrev with_ctrl : Text → Handler → Shortcut
with_ctrl key handler = record {
  key = key;
  ctrl = some true;
  shift = none;
  alt = none;
  meta = none;
  handler = handler;
}

abbrev pub escape_shortcut : Shortcut
escape_shortcut = record {
  key = escape;
  ctrl = none;
  shift = none;
  alt = none;
  meta = none;
  handler = close_all;
}

abbrev pub ctrl_shortcuts : List Shortcut
ctrl_shortcuts =
    with_ctrl (codes "m") add_magnet
    ∷ with_ctrl (codes "t") add_file
    ∷ with_ctrl (codes "f") focus_search
    ∷ with_ctrl (codes "?") show_help
    ∷ []

abbrev pub keyboard_shortcuts : List Shortcut
keyboard_shortcuts = ctrl_shortcuts ++ (escape_shortcut ∷ [])

pub data Page : Type 0 where
  torrents network other_page : Page

-- what shows over the page
pub record View : Type 0 where
  pub add_torrent_modal : Bool
  pub kill_switch_drawer : Bool
  pub file_selection_dialog : Bool
  -- the torrent that the dialog is for, and the flag and timer of its opening
  pub pending_torrent : Bool
  pub pending_dialog : Bool
  pub help : Bool
  pub page : Page
  pub search_focused : Bool

unfoldable pub call_handler : Handler → View → View
call_handler add_magnet v = record v { add_torrent_modal = true }
call_handler add_file v = record v { add_torrent_modal = true }
call_handler focus_search v = record v { search_focused = true }
call_handler show_help v = record v { help = not v.help }
call_handler close_all v = record {
  add_torrent_modal = false;
  kill_switch_drawer = false;
  file_selection_dialog = false;
  pending_torrent = if v.file_selection_dialog then false else v.pending_torrent;
  pending_dialog = if v.file_selection_dialog then false else v.pending_dialog;
  help = false;
  page = torrents;
  search_focused = v.search_focused;
}

abbrev pub call_any : Option Handler → View → View
call_any none v = v
call_any (some h) v = call_handler h v

-- The shortcuts work once the window has mounted and while the daemon is online.
unfoldable pub press : (Text → Text) → Bool → Bool → KeyEvent → View → View
unfolding handle_key_down call_handler
press lower mounted online e v =
    if mounted && online then call_any (handle_key_down lower keyboard_shortcuts e) v else v
